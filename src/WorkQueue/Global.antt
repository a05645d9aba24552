-- ===== src/WorkQueue/Global.antt =====
-- The global queue is a sequence of tasks that `push` appends to.
use odin_memory_allocator.Base.{
  ℕ, ◌+◌, ◌≤◌, ◌<◌, ◌≡◌, refl, ap, ◌∙◌, sym, arith, List, [], ◌∷◌, ◌++◌, length, Bool-cases, inl,
  inr, ltb→lt, true, ltb, if◌then◌else◌,
}
use odin_memory_allocator.Memory.{Memory, store, store_self, store_ne}
use odin_memory_allocator.WorkQueue.{GlobalWorkQueue, global_push, work_queue_size}
use odin_memory_allocator.WorkQueue.Stealing.{From, From-store, From-append, length-snoc}

pub record GlobalHolds (q : GlobalWorkQueue) (xs : List ℕ) : Type 0 where
  pub made : q.allocated ≡ true
  pub tasks : From q.array q.top xs
  pub end : q.bottom ≡ q.top + length xs
  pub within : q.bottom ≤ work_queue_size

-- Where the global queue has its array and holds `xs`, `push` appends the task if the bottom index
-- is below 1024, and otherwise drops it.
global_push-Holds :
    (q : GlobalWorkQueue) (xs : List ℕ) (task : ℕ)
    → GlobalHolds q xs
    → GlobalHolds
        (global_push task q)
        (if ltb q.bottom work_queue_size then xs ++ task ∷ [] else xs)
unfolding global_push
global_push-Holds q xs task h = rw h.made (elim (Bool-cases (ltb q.bottom work_queue_size)) [
  | inl room ↦ rw room record {
    made = refl;
    tasks =
        From-append _ q.top xs task
          (From-store q.bottom task q.array q.top xs (omega (arith, h.end)) h.tasks)
          (ap (store q.bottom task q.array) (sym h.end) ∙ store_self q.bottom task q.array);
    end = omega (arith, h.end, h.within, length-snoc xs task);
    within = omega (arith, ltb→lt q.bottom work_queue_size room);
  }
  | inr full ↦ rw full record { made = refl; tasks = h.tasks; end = h.end; within = h.within }
])

From-store_before :
    (b v : ℕ) (a : Memory) (i : ℕ) (xs : List ℕ) → b < i → From a i xs → From (store b v a) i xs
From-store_before b v a i [] h f = tt
From-store_before b v a i (x ∷ xs) h f = (
  store_ne b v i a (omega (arith, h)) ∙ f.0,
  From-store_before b v a (i + 1) xs (omega (arith, h)) f.1,
)

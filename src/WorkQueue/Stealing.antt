-- ===== src/WorkQueue/Stealing.antt =====
-- The work stealing queue is a sequence of tasks: the owner adds and takes at its end, and a thief
-- takes at its front.
use native.Mathlib.Nat.{add-zero}
use odin_memory_allocator.Base.{
  ℕ, ◌+◌, ◌-◌, ◌%◌, ◌≤◌, ◌<◌, ◌^◌, ◌≡◌, refl, sym, ap, ◌∙◌, arith, List, [], ◌∷◌, ◌++◌, length,
  true, false, ◌==◌, ltb, leb, sub32,
}
use odin_memory_allocator.Memory.{Memory, null, store, store_self, store_ne}
use odin_memory_allocator.WorkQueue.{WorkStealQueue, push, pop, steal, work_queue_size}

-- The array holds `xs` from index `i` on.
abbrev pub From : Memory → ℕ → List ℕ → Type 0
From a i [] = Unit
From a i (x ∷ xs) = (a i ≡ x) × From a (i + 1) xs

pub record Holds (q : WorkStealQueue) (xs : List ℕ) : Type 0 where
  pub tasks : From q.array q.top xs
  pub end : q.bottom ≡ q.top + length xs
  pub within : q.bottom + 1 < 2 ^ 32

pub From-store :
    (b v : ℕ) (a : Memory) (i : ℕ) (xs : List ℕ)
    → i + length xs ≤ b
    → From a i xs
    → From (store b v a) i xs
From-store b v a i [] h f = tt
From-store b v a i (x ∷ xs) h f =
    (store_ne b v i a (omega (arith, h)) ∙ f.0, From-store b v a (i + 1) xs (omega (arith, h)) f.1)

pub From-append :
    (a : Memory) (i : ℕ) (xs : List ℕ) (y : ℕ)
    → From a i xs
    → a (i + length xs) ≡ y
    → From a i (xs ++ y ∷ [])
From-append a i [] y f e = (ap a (omega arith) ∙ e, tt)
From-append a i (x ∷ xs) y f e = (f.0, From-append a (i + 1) xs y f.1 (ap a (omega arith) ∙ e))

From-front :
    (a : Memory) (i : ℕ) (xs : List ℕ) (y : ℕ)
    → From a i (xs ++ y ∷ [])
    → From a i xs × (a (i + length xs) ≡ y)
From-front a i [] y f = (tt, ap a (omega arith) ∙ f.0)
From-front a i (x ∷ xs) y f =
    let (front, last) = From-front a (i + 1) xs y f.1 in ((f.0, front), ap a (omega arith) ∙ last)

pub length-snoc : (xs : List ℕ) (y : ℕ) → length (xs ++ y ∷ []) ≡ length xs + 1
length-snoc [] y = refl
length-snoc (x ∷ xs) y = omega (arith, length-snoc xs y)

-- The test of `push`.
pub push_fits :
    (q : WorkStealQueue) (xs : List ℕ)
    → Holds q xs
    → q.bottom < work_queue_size
    → leb (sub32 q.bottom q.top) (work_queue_size - 1) ≡ true
push_fits q xs h inside = ground (arith, wrapped, h.end, inside)
  where
    wrapped : (q.bottom + 2 ^ 32 - q.top) % 2 ^ 32 ≡ length xs
    wrapped = omega (arith, h.end, h.within)

-- Where the bottom index is inside of the array of 1024 tasks, `push` puts the task at the end of
-- what the queue holds.
pub push-Holds :
    (q : WorkStealQueue) (xs : List ℕ) (task : ℕ)
    → Holds q xs
    → q.bottom < work_queue_size
    → Holds (push task q) (xs ++ task ∷ [])
unfolding push
push-Holds q xs task h inside =
    rw (fits, next)
      record {
        tasks =
            From-append _ q.top xs task
              (From-store q.bottom task q.array q.top xs (omega (arith, h.end)) h.tasks)
              (ap (store q.bottom task q.array) (sym h.end) ∙ store_self q.bottom task q.array);
        end = omega (arith, h.end, length-snoc xs task);
        within = omega (arith, inside);
      }
  where
    fits : leb (sub32 q.bottom q.top) 1023 ≡ true
    fits = push_fits q xs h inside

    next : (q.bottom + 1) % 2 ^ 32 ≡ q.bottom + 1
    next = omega (arith, inside)

-- Where the last task is.
last_place :
    (q : WorkStealQueue) (xs : List ℕ) (y : ℕ)
    → Holds q (xs ++ y ∷ [])
    → sub32 q.bottom 1 ≡ q.top + length xs
last_place q xs y h = omega (arith, h.end, h.within, length-snoc xs y)

-- Where the queue holds `xs` and then a task `y`, `pop` without other threads in the queue gives
-- `y` and leaves `xs`.
pub pop-Holds :
    (q : WorkStealQueue) (xs : List ℕ) (y : ℕ)
    → Holds q (xs ++ y ∷ [])
    → ((pop q).0 ≡ y) × Holds (pop q).1 xs
unfolding pop
pop-Holds q [] y h =
    rw (last_place q [] y h ∙ add-zero q.top, reached, last, next)
      (h.tasks.0, record { tasks = tt; end = omega arith; within = omega (arith, h.end, h.within) })
  where
    reached : leb q.top q.top ≡ true
    reached = ground arith

    last : (q.top == q.top) ≡ true
    last = ground arith

    next : (q.top + 1) % 2 ^ 32 ≡ q.top + 1
    next = omega (arith, h.end, h.within)
pop-Holds q (x ∷ xs) y h =
    rw (last_place q (x ∷ xs) y h, reached, more)
      (
        front.1,
        record {
          tasks = front.0;
          end = refl;
          within = omega (arith, h.end, h.within, length-snoc xs y);
        },
      )
  where
    reached : leb q.top (q.top + length (x ∷ xs)) ≡ true
    reached = ground arith

    more : (q.top == q.top + length (x ∷ xs)) ≡ false
    more = ground arith

    front : From q.array q.top (x ∷ xs) × (q.array (q.top + length (x ∷ xs)) ≡ y)
    front = From-front q.array q.top (x ∷ xs) y h.tasks

-- On a queue that holds nothing and whose top index is not 0, `pop` and `steal` give null and
-- leave the queue as it was.
pop_empty :
    (q : WorkStealQueue) → Holds q [] → 0 < q.top → (pop q ≡ (null, q)) × (steal q ≡ (null, q))
unfolding pop steal
pop_empty q h pos = rw (unreached, not_below, back) (refl, refl)
  where
    unreached : leb q.top (sub32 q.bottom 1) ≡ false
    unreached = ground (arith, wrapped)
      where
        wrapped : (q.bottom + 2 ^ 32 - 1) % 2 ^ 32 + 1 ≡ q.bottom
        wrapped = omega (arith, h.end, h.within, pos)

    not_below : ltb q.top q.bottom ≡ false
    not_below = ground (arith, h.end)

    back : (sub32 q.bottom 1 + 1) % 2 ^ 32 ≡ q.bottom
    back = omega (arith, h.end, h.within, pos)

-- Where the queue holds a task `x` and then `xs`, `steal` without other threads in the queue gives
-- `x` and leaves `xs`.
pub steal-Holds :
    (q : WorkStealQueue) (x : ℕ) (xs : List ℕ)
    → Holds q (x ∷ xs)
    → ((steal q).0 ≡ x) × Holds (steal q).1 xs
unfolding steal
steal-Holds q x xs h =
    rw (filled, unmoved, next)
      (h.tasks.0, record { tasks = h.tasks.1; end = omega (arith, h.end); within = h.within })
  where
    filled : ltb q.top q.bottom ≡ true
    filled = ground (arith, h.end)

    unmoved : (q.top == q.top) ≡ true
    unmoved = ground arith

    next : (q.top + 1) % 2 ^ 32 ≡ q.top + 1
    next = omega (arith, h.end, h.within)

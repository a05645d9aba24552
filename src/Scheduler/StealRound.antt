-- ===== src/Scheduler/StealRound.antt =====
-- Scheduler.cpp, `stealTaskFromOtherThread` while no other thread uses the queues: one round over them
-- finds a task if there is one.
use mathlib.Core.Path.{fun_ext}
use native.Mathlib.Nat.{mod-eq_of_lt, mod-lt}
use odin_memory_allocator.Base.{
  ℕ, zero, suc, ◌+◌, ◌-◌, ◌%◌, ◌^◌, ◌<◌, ◌≤◌, ◌≡◌, ◌≢◌, ◌⊎◌, inl, inr, refl, sym, ap, subst, ◌∙◌,
  arith, true, false, Bool-cases, List, [], ◌∷◌, All, ltb, ◌==◌, ◌!=◌, ==_iff, if◌then◌else◌, add32,
  dec_lt,
}
use odin_memory_allocator.Memory.{null}
use odin_memory_allocator.WorkQueue.{WorkStealQueue, steal, work_queue_size}
use odin_memory_allocator.WorkQueue.Stealing.{Holds, steal-Holds}
use odin_memory_allocator.Scheduler.{set_queue, steal_turns, steal_task_from_other_thread}

steal_empty : (q : WorkStealQueue) → Holds q [] → steal q ≡ (null, q)
unfolding steal
steal_empty q h = rw not_below refl
  where
    not_below : ltb q.top q.bottom ≡ false
    not_below = ground (arith, h.end)

set_queue_self : (i : ℕ) (queues : ℕ → WorkStealQueue) → set_queue i (queues i) queues ≡ queues
set_queue_self i queues = fun_ext (λ j. same j (Bool-cases (j == i)))
  where
    same :
        (j : ℕ)
        → ((j == i) ≡ true) ⊎ ((j == i) ≡ false)
        → set_queue i (queues i) queues j ≡ queues j
    same j (inl e) = rw e (ap queues (sym ((==_iff j i).0 e)))
    same j (inr e) = rw e refl

set_queue_at :
    (i : ℕ) (q : WorkStealQueue) (queues : ℕ → WorkStealQueue) → set_queue i q queues i ≡ q
set_queue_at i q queues = rw ((==_iff i i).1 refl) refl

set_queue_ne :
    (i : ℕ) (q : WorkStealQueue) (queues : ℕ → WorkStealQueue) (j : ℕ)
    → j ≢ i
    → set_queue i q queues j ≡ queues j
set_queue_ne i q queues j ne = ground (arith, ne)

-- The queue that is tried at turn `i`.
abbrev turn_index : (curr n i : ℕ) → ℕ
turn_index curr n i = add32 (add32 curr i) 1 % n

-- Each queue has its turn.
turn_of :
    (curr n j : ℕ)
    → curr < n
    → j < n
    → n + n < 2 ^ 32
    → (i : ℕ) × (i < n) × (turn_index curr n i ≡ j)
turn_of curr n j hc hj small = elim (dec_lt curr j) [
  | yes later ↦ (
    j - curr - 1,
    omega arith,
    ap (λ a. a % n) (omega (arith, later, small, hj)) ∙ mod-eq_of_lt hj,
  )
  | no sooner ↦
      (j + n - curr - 1, omega arith, ap (λ a. a % n) (omega (arith, sooner, small, hj, hc)) ∙ past)
]
  where
    past : (j + n) % n ≡ j
    past = grind arith

module _ (queues : ℕ → WorkStealQueue) (held : ℕ → List ℕ) (curr n : ℕ)
    (holds : (j : ℕ) → j < n → Holds (queues j) (held j))
    (tasks : (j : ℕ) → j < n → All (λ x. x ≢ null) (held j)) where
  -- A task from the front of queue `j`, and the other queues as they were.
  record Stolen (r : ℕ × (ℕ → WorkStealQueue)) : Type 0 where
    j : ℕ
    task : ℕ
    rest : List ℕ
    below : j < n
    front : held j ≡ task ∷ rest
    given : r.0 ≡ task
    left : Holds (r.1 j) rest
    others : (k : ℕ) → k ≢ j → r.1 k ≡ queues k

  -- What the turns from `i` to `i + k` do, by whether they find a task.
  record Missed (r : ℕ × (ℕ → WorkStealQueue)) (i k : ℕ) : Type 0 where
    nothing : r ≡ (null, queues)
    empty : (i' : ℕ) → i ≤ i' → i' < i + k → held (turn_index curr n i') ≡ []

  Missed-more :
      (r : ℕ × (ℕ → WorkStealQueue)) (i k : ℕ)
      → held (turn_index curr n i) ≡ []
      → Missed r (suc i) k
      → Missed r i (suc k)
  Missed-more r i k e m = record {
    nothing = m.nothing;
    empty = λ i' lo hi. elim (dec_lt i i') [
      | yes later ↦ m.empty i' (omega (arith, later)) (omega (arith, hi))
      | no first ↦ ap (λ a. held (turn_index curr n a)) (omega (arith, first, lo)) ∙ e
    ];
  }

  -- The turn with `k` turns behind it, on queue `index`.
  abbrev steal_at : (k i index : ℕ) → ℕ × (ℕ → WorkStealQueue)
  steal_at k i index =
      let (t, q) = steal (queues index) in
      let queues1 = set_queue index q queues in
      let rest = steal_turns k (suc i) curr n queues1 in if t != null then (t, queues1) else rest

  -- One turn, by what its queue holds.
  turn :
      (k i : ℕ) (xs : List ℕ) (index : ℕ)
      → index < n
      → index ≡ turn_index curr n i
      → held index ≡ xs
      → ((Stolen (steal_turns k (suc i) curr n queues))
          ⊎ Missed (steal_turns k (suc i) curr n queues) (suc i) k)
      → Stolen (steal_turns (suc k) i curr n queues)
        ⊎ Missed (steal_turns (suc k) i curr n queues) i (suc k)
  unfolding steal_turns
  turn k i [] index below here e later =
      subst (λ j. Stolen (steal_at k i j) ⊎ Missed (steal_at k i j) i (suc k)) here
        (rw
          (
            steal_empty (queues index)
                (subst (λ ys. Holds (queues index) ys) e (holds index below)),
            set_queue_self index queues,
          )
          (go later))
    where
      go :
          (Stolen (steal_turns k (suc i) curr n queues))
            ⊎ Missed (steal_turns k (suc i) curr n queues) (suc i) k
          → Stolen (steal_turns k (suc i) curr n queues)
            ⊎ Missed (steal_turns k (suc i) curr n queues) i (suc k)
      go (inl s) = inl s
      go (inr m) =
          inr (Missed-more (steal_turns k (suc i) curr n queues) i k (ap held (sym here) ∙ e) m)
  turn k i (x ∷ xs) index below here e later =
      inl (subst (λ j. Stolen (steal_at k i j)) here (rw taken found))
    where
      front : ((steal (queues index)).0 ≡ x) × Holds (steal (queues index)).1 xs
      front =
          steal-Holds (queues index) x xs
            (subst (λ ys. Holds (queues index) ys) e (holds index below))

      a_task : x ≢ null
      a_task = (subst (λ ys. All (λ y. y ≢ null) ys) e (tasks index below)).0

      taken : ((steal (queues index)).0 != null) ≡ true
      taken = ground (arith, front.0, a_task)

      found : Stolen ((steal (queues index)).0, set_queue index (steal (queues index)).1 queues)
      found = record {
        j = index;
        task = x;
        rest = xs;
        below = below;
        front = e;
        given = front.0;
        left =
            subst (λ q. Holds q xs) (sym (set_queue_at index (steal (queues index)).1 queues))
              front.1;
        others = set_queue_ne index (steal (queues index)).1 queues;
      }

  turns :
      (k i : ℕ)
      → 0 < n
      → Stolen (steal_turns k i curr n queues) ⊎ Missed (steal_turns k i curr n queues) i k
  unfolding steal_turns
  turns zero i pos = inr (none_left i)
    where
      none_left : (i : ℕ) → Missed (steal_turns zero i curr n queues) i zero
      none_left i = record { nothing = refl; empty = λ i' lo hi. absurd (omega arith) }
  turns (suc k) i pos =
      turn k i (held (turn_index curr n i)) (turn_index curr n i) (mod-lt _ pos) refl refl
        (turns k (suc i) pos)

  -- While no other thread uses the queues, so that no exchange fails: where each of the `n` queues
  -- holds tasks that are not null, with its indices inside of the array, `curr_thread_index` is
  -- below `n` and `2 * n` is a word, `stealTaskFromOtherThread` either gives the first task of
  -- some queue, which then holds the rest, with all other queues as they were; or it gives null
  -- and changes nothing, and no queue holds a task.
  pub steal_task_finds :
      ((j : ℕ) → j < n → (queues j).bottom ≤ work_queue_size)
      → curr < n
      → n + n < 2 ^ 32
      → let r = steal_task_from_other_thread curr n queues in
        ((j : ℕ) × (task : ℕ) × (rest : List ℕ) × (j < n)
          × (held j ≡ task ∷ rest)
          × (r.0 ≡ task)
          × Holds (r.1 j) rest
          × ((k : ℕ) → k ≢ j → r.1 k ≡ queues k))
        ⊎ ((r ≡ (null, queues)) × ((j : ℕ) → j < n → held j ≡ []))
  unfolding steal_task_from_other_thread
  steal_task_finds inside hc small = elim (turns n 0 (omega (arith, hc))) [
    | inl s ↦ inl (s.j, s.task, s.rest, s.below, s.front, s.given, s.left, s.others)
    | inr m ↦ inr (
      m.nothing,
      λ j hj.
          let (i, lt, e) = turn_of curr n j hc hj small in
          ap held (sym e) ∙ m.empty i (omega arith) (omega (arith, lt)),
    )
  ]

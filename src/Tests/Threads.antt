-- ===== src/Tests/Threads.antt =====
-- The owner pushes a task and starts to take it back, and a thief is about to take it.
use odin_memory_allocator.Base.{
  ℕ, ◌+◌, ◌-◌, ◌≡◌, ◌≢◌, ◌<◌, ◌≤◌, ◌⊎◌, Bool-cases, inl, inr, refl, arith, List, [], ◌∷◌, All,
  if◌then◌else◌, ◌==◌,
}
use odin_memory_allocator.Memory.{null, store}
use odin_memory_allocator.WorkQueue.{WorkStealQueue}
use odin_memory_allocator.WorkQueue.Stealing.{Holds}
use odin_memory_allocator.WorkQueue.Threads.{
  ThiefAt, steal_race, System, owner_step, thief_step, call_push, call_pop, call_steal, pushes,
  pops, owner_goes_on, steals, thief_goes_on, made, Run, here, later,
}
use odin_memory_allocator.WorkQueue.Threads.Invariant.{count, count_from, end_at}
use odin_memory_allocator.WorkQueue.Threads.Thief.{Run-Balanced}
use odin_memory_allocator.WorkQueue.Threads.Progress.{exchange_or_progress}
use odin_memory_allocator.WorkQueue.Threads.Alone.{iterate, shared, steal_alone-Holds}
use odin_memory_allocator.Scheduler.{steal_task_from_other_thread}
use odin_memory_allocator.Scheduler.StealRound.{steal_task_finds}

abbrev start : System
start = made (λ i. 0)

abbrev pushed : System
pushed = iterate 3 owner_step (call_push 70 start)

abbrev contended : System
contended = iterate 3 owner_step (call_pop (iterate 2 (thief_step 4) (call_steal 4 pushed)))

reaches : Run start contended
unfolding iterate owner_step call_push call_pop call_steal thief_step
reaches =
    later
      (later
        (later
          (later
            (later
              (later
                (later
                  (later
                    (later
                      (later (later here (pushes 70 refl) (omega arith)) owner_goes_on
                        (omega arith))
                      owner_goes_on (omega arith))
                    owner_goes_on (omega arith))
                  (steals 4 refl) (omega arith))
                (thief_goes_on 4) (omega arith))
              (thief_goes_on 4) (omega arith))
            (pops refl) (omega arith))
          owner_goes_on (omega arith))
        owner_goes_on (omega arith))
      owner_goes_on (omega arith)

Run-Balanced_example :
    (contended.top ≤ end_at contended.owner contended.bottom)
    × ((x : ℕ)
        → count x contended.taken
            + count_from x contended.array contended.top
                (end_at contended.owner contended.bottom - contended.top)
          ≡ count x contended.pushed)
Run-Balanced_example = Run-Balanced (λ i. 0) reaches

races : contended.thief 4 ≡ steal_race 0 1 70
unfolding iterate owner_step call_push call_pop call_steal thief_step store
races = refl

exchange_or_progress_example :
    ((contended.top ≡ 0)
      × (contended.array 0 ≡ 70)
      × ((thief_step 4 contended).taken ≡ 70 ∷ contended.taken)
      × ((thief_step 4 contended).top ≡ 0 + 1))
    ⊎ ((0 < contended.top)
        × ((thief_step 4 contended).taken ≡ contended.taken)
        × ((thief_step 4 contended).top ≡ contended.top))
exchange_or_progress_example = exchange_or_progress (λ i. 0) reaches 4 0 1 70 races

pushed-Holds : Holds (shared pushed) (70 ∷ [])
unfolding iterate owner_step call_push store
pushed-Holds = record { tasks = (refl, tt); end = refl; within = omega arith }

steal_alone-Holds_example :
    let u = iterate 3 (thief_step 4) (call_steal 4 pushed) in
    Holds (shared u) [] × (u.taken ≡ 70 ∷ pushed.taken) × (u.thief 4 ≡ ThiefAt.resting)
steal_alone-Holds_example = steal_alone-Holds 4 pushed 70 [] pushed-Holds (omega arith)

-- Four threads, of which the third has a task in its queue.
abbrev queues : ℕ → WorkStealQueue
queues j =
    if j == 2
    then record { top = 5; bottom = 6; array = λ a. 70 }
    else record { top = 5; bottom = 5; array = λ a. 0 }

abbrev held : ℕ → List ℕ
held j = if j == 2 then 70 ∷ [] else []

by_index :
    (P : WorkStealQueue → List ℕ → Type 0)
    → P (record { top = 5; bottom = 6; array = λ a. 70 }) (70 ∷ [])
    → P (record { top = 5; bottom = 5; array = λ a. 0 }) []
    → (j : ℕ) → P (queues j) (held j)
by_index P full empty j = elim (Bool-cases (j == 2)) [ inl e ↦ rw e full | inr e ↦ rw e empty ]

all_hold : (j : ℕ) → Holds (queues j) (held j)
all_hold =
    by_index Holds (record { tasks = (refl, tt); end = refl; within = omega arith })
      (record { tasks = tt; end = refl; within = omega arith })

all_tasks : (j : ℕ) → All (λ x. x ≢ null) (held j)
all_tasks = by_index (λ q xs. All (λ x. x ≢ null) xs) (omega arith, tt) tt

all_inside : (j : ℕ) → (queues j).bottom ≤ 1024
all_inside = by_index (λ q xs. q.bottom ≤ 1024) (omega arith) (omega arith)

steal_task_finds_example :
    let r = steal_task_from_other_thread 0 4 queues in
    ((j : ℕ) × (task : ℕ) × (rest : List ℕ) × (j < 4)
      × (held j ≡ task ∷ rest)
      × (r.0 ≡ task)
      × Holds (r.1 j) rest
      × ((k : ℕ) → k ≢ j → r.1 k ≡ queues k))
    ⊎ ((r ≡ (null, queues)) × ((j : ℕ) → j < 4 → held j ≡ []))
steal_task_finds_example =
    steal_task_finds queues held 0 4 (λ j h. all_hold j) (λ j h. all_tasks j) (λ j h. all_inside j)
      (omega arith) (omega arith)

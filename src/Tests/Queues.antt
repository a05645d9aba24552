-- ===== src/Tests/Queues.antt =====
-- The work queues and the scheduler's tasks.
use odin_memory_allocator.Base.{ℕ, ◌+◌, ◌*◌, ◌≡◌, refl, arith, [], ◌∷◌, some, ltb, if◌then◌else◌}
use odin_memory_allocator.Memory.{Memory, store}
use odin_memory_allocator.WorkQueue.{WorkStealQueue, push, pop}
use odin_memory_allocator.WorkQueue.Stealing.{Holds, push-Holds, pop-Holds}
use odin_memory_allocator.Scheduler.{Tasks, finish_task}
use odin_memory_allocator.Scheduler.Finish.{IsClosed, finish_task_closes_ancestors}

-- Task 70 at index 5, and task 71 behind it.
abbrev tasks : Memory
tasks = store 5 70 (store 6 71 (λ a. 0))

abbrev queue : WorkStealQueue
queue = record { top = 5; bottom = 7; array = tasks }

holds : Holds queue (70 ∷ 71 ∷ [])
unfolding store
holds = record { tasks = (refl, (refl, tt)); end = refl; within = omega arith }

push-Holds_example : Holds (push 72 queue) (70 ∷ 71 ∷ 72 ∷ [])
push-Holds_example = push-Holds queue (70 ∷ 71 ∷ []) 72 holds (omega arith)

pop-Holds_example : ((pop queue).0 ≡ 71) × Holds (pop queue).1 (70 ∷ [])
pop-Holds_example = pop-Holds queue (70 ∷ []) 71 holds

abbrev starts : ℕ → ℕ
starts i = 0x10000 + i * 0x2000

-- Task 10 is the child of task 20.
abbrev family : Tasks
family = record {
  task = λ x.
      if ltb x 15
      then record { open_tasks = 1; task_id = 0; parent = 20 }
      else record { open_tasks = 2; task_id = 1; parent = 0 };
  free = λ i. 0;
  returned = [];
}

finish_task_closes_ancestors_example :
    (after : Tasks) × (finish_task 2 10 family ≡ some after) × IsClosed family after (10 ∷ 20 ∷ [])
finish_task_closes_ancestors_example =
    finish_task_closes_ancestors 10 (20 ∷ []) family (refl, omega arith, refl)
      ((omega arith, tt), (tt, tt))

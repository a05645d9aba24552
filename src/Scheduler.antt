-- ===== src/Scheduler.antt =====
-- Scheduler.cpp and Scheduler.h: task numbers, the end of a task, and stealing from the other
-- threads. `sizeof(Task)` depends on the atomics of the standard library and is a parameter; pool
-- `mNumThreads` is the global one.
pub mod TaskId
pub mod Finish
pub mod StealRound
use odin_memory_allocator.Base.{
  ℕ, zero, suc, ◌+◌, ◌/◌, ◌%◌, Bool, Option, none, some, List, ◌∷◌, ◌==◌, ◌!=◌, if◌then◌else◌,
  add32, sub32, mul32, shl32, shr32, bit_and, bit_or,
}
use odin_memory_allocator.Base.Fuel.{◌>>=◌}
use odin_memory_allocator.Memory.{null}
use odin_memory_allocator.WorkQueue.{WorkStealQueue, steal}

unfoldable pub get_offset_from_task_id : ℕ → ℕ
get_offset_from_task_id id = bit_and id 0xffff

unfoldable pub get_pool_index_from_task_id : ℕ → ℕ
get_pool_index_from_task_id id = shr32 (bit_and id 0xff0000) 16

-- Pointers to tasks: the difference is in tasks, for a task of the pool.
module _ (sizeof_task : ℕ) (start_address : ℕ → ℕ) where
  unfoldable pub calc_task_id : (task queue_index : ℕ) → ℕ
  calc_task_id task queue_index =
      let offset = sub32 task (start_address queue_index) / sizeof_task in
      bit_or (shl32 queue_index 16) offset

  unfoldable pub get_task : (task_id : ℕ) → ℕ
  unfolding get_offset_from_task_id get_pool_index_from_task_id
  get_task task_id =
      let offset = get_offset_from_task_id task_id in
      let index = get_pool_index_from_task_id task_id in
      add32 (start_address index) (mul32 offset sizeof_task)

pub record Task : Type 0 where
  pub open_tasks : ℕ
  pub task_id : ℕ
  pub parent : ℕ

-- The tasks by address; `open_tasks` is the first word of a task. `free` is the first node of the free
-- list of each pool, and `returned` the pools and tasks that were given back, the latest first.
pub record Tasks : Type 0 where
  pub task : ℕ → Task
  pub free : ℕ → ℕ
  pub returned : List (ℕ × ℕ)

abbrev pub set_open : (t count : ℕ) → (ℕ → Task) → ℕ → Task
set_open t count tasks x = if x == t then record (tasks x) { open_tasks = count } else tasks x

abbrev pub set_free : (index node : ℕ) → (ℕ → ℕ) → ℕ → ℕ
set_free index node free i = if i == index then node else free i

-- A task without open tasks goes back to its pool, whose free list keeps its link in the first word
-- of the task.
unfoldable pub return_to_pool : (t open_tasks : ℕ) → Task → Tasks → Tasks
unfolding get_pool_index_from_task_id
return_to_pool t open_tasks task s =
    if open_tasks == 0
    then (let index = get_pool_index_from_task_id task.task_id in
        record {
          task = set_open t (s.free index) s.task;
          free = set_free index t s.free;
          returned = (index, t) ∷ s.returned;
        })
    else s

-- The recursion follows the parents; `none` means that it ran out of fuel.
unfoldable pub finish_task : ℕ → (t : ℕ) → Tasks → Option Tasks
finish_task zero t s = none
finish_task (suc fuel) t s =
    let open_tasks = sub32 (s.task t).open_tasks 1 in
    let s1 = record s { task = set_open t open_tasks s.task } in
    let parent = (s.task t).parent in
    let above = finish_task fuel parent s1 in
    (if parent != null then above else some s1) >>= λ s2.
    some (return_to_pool t open_tasks (s.task t) s2)

unfoldable pub is_task_finished :
    (sizeof_task : ℕ) (start_address : ℕ → ℕ) → (task_id : ℕ) → Tasks → Bool
unfolding get_task
is_task_finished sizeof_task start_address task_id s =
    (s.task (get_task sizeof_task start_address task_id)).open_tasks == 0

abbrev set_queue : (i : ℕ) → WorkStealQueue → (ℕ → WorkStealQueue) → ℕ → WorkStealQueue
set_queue i q queues j = if j == i then q else queues j

-- The loop has `k` turns left, and is at turn `i`. Each `steal` is the one of WorkQueue: no other thread
-- is in the queues meanwhile, so no exchange fails.
unfoldable pub steal_turns :
    (k i curr_thread_index num_threads : ℕ) → (ℕ → WorkStealQueue) → ℕ × (ℕ → WorkStealQueue)
steal_turns zero i curr num_threads queues = (null, queues)
steal_turns (suc k) i curr num_threads queues =
    let index = add32 (add32 curr i) 1 % num_threads in
    let (t, q) = steal (queues index) in
    let queues1 = set_queue index q queues in
    let rest = steal_turns k (suc i) curr num_threads queues1 in
    if t != null then (t, queues1) else rest

unfoldable pub steal_task_from_other_thread :
    (curr_thread_index num_threads : ℕ) → (ℕ → WorkStealQueue) → ℕ × (ℕ → WorkStealQueue)
unfolding steal_turns
steal_task_from_other_thread curr num_threads queues =
    steal_turns num_threads 0 curr num_threads queues

-- ===== src/Scheduler/TaskId.antt =====
-- A task number leads back to its pool and to the task.
use odin_memory_allocator.Base.{ℕ, ◌+◌, ◌*◌, ◌<◌, ◌^◌}

module _ (sizeof_task : ℕ) (start_address : ℕ → ℕ) (i k : ℕ) (some_bytes : 0 < sizeof_task)
    (pool : i < 256) (element : k < 2 ^ 16)
    (within : start_address i + k * sizeof_task < 2 ^ 32) where
  abbrev task : ℕ
  task = start_address i + k * sizeof_task

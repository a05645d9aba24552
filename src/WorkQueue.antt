-- ===== src/WorkQueue.antt =====
-- WorkStealQueue.h. A task is its address, and 0 is `nullptr`. Each operation is modelled as it runs
-- when no other thread is in the queue, so that an exchange on `mTop` finds the
-- value that was loaded; Threads has what other threads do in between.
pub mod Stealing
pub mod Global
pub mod Threads
use odin_memory_allocator.Base.{
  ℕ, ◌+◌, ◌-◌, Bool, true, false, ◌==◌, ltb, leb, if◌then◌else◌, add32, sub32,
}
use odin_memory_allocator.Memory.{Memory, null, store}

abbrev pub work_queue_size : ℕ
work_queue_size = 1024

-- The array is taken as a map from indices. An access at an index of 1024 or more is outside of the
-- array in the program, where the map has a value: what is said of an operation holds of the program
-- while its indices are below 1024.
pub record WorkStealQueue : Type 0 where
  pub top : ℕ
  pub bottom : ℕ
  pub array : Memory

unfoldable pub push : (task : ℕ) → WorkStealQueue → WorkStealQueue
push task q =
    if leb (sub32 q.bottom q.top) (work_queue_size - 1)
    then record q { array = store q.bottom task q.array; bottom = add32 q.bottom 1 }
    else q

-- `mTop.compare_exchange_strong(seen, next)`.
abbrev pub exchange : (seen next : ℕ) → WorkStealQueue → Bool × WorkStealQueue
exchange seen next q = if q.top == seen then (true, record q { top = next }) else (false, q)

unfoldable pub pop : WorkStealQueue → ℕ × WorkStealQueue
pop q0 =
    let b = sub32 q0.bottom 1 in
    let q1 = record q0 { bottom = b } in
    let t = q1.top in
    let x = q1.array b in
    let (won, q2) = exchange t (add32 t 1) q1 in
    let last : ℕ × WorkStealQueue = (if won then x else null, record q2 { bottom = add32 b 1 }) in
    if leb t b then if t == b then last else (x, q1) else (null, record q1 { bottom = add32 b 1 })

unfoldable pub steal : WorkStealQueue → ℕ × WorkStealQueue
steal q =
    let t = q.top in
    let b = q.bottom in
    let x = q.array t in
    let (won, q1) = exchange t (add32 t 1) q in
    if ltb t b then (if won then (x, q1) else (null, q1)) else (null, q)

-- `GlobalWorkQueue`; `allocated` says whether `mArray` is not null.
pub record GlobalWorkQueue : Type 0 where
  pub top : ℕ
  pub bottom : ℕ
  pub allocated : Bool
  pub array : Memory

unfoldable pub global_push : (task : ℕ) → GlobalWorkQueue → GlobalWorkQueue
global_push task q =
    let added = record q { array = store q.bottom task q.array; bottom = add32 q.bottom 1 } in
    if q.allocated then if ltb q.bottom work_queue_size then added else q else q

-- How a call of `pop` ends: with a return statement, or off the end of the function, where the
-- value that the caller sees is undefined.
pub data Popped : Type 0 where
  returned : ℕ → Popped
  no_return : Popped

unfoldable pub global_pop : GlobalWorkQueue → Popped × GlobalWorkQueue
global_pop q =
    let t = q.top in
    let advanced = record q { top = add32 t 1; array = store t null q.array } in
    if q.allocated
    then if ltb t q.bottom then (no_return, advanced) else (returned null, q)
    else (returned null, q)

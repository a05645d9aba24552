-- ===== src/WorkQueue/Threads.antt =====
-- WorkStealQueue.h with one owner and any number of thieves in the queue at once. A step is one
-- access to the shared indices or to the array, so that any interleaving of the threads is a sequence
-- of steps. Accesses are taken to be sequentially consistent: the weaker memory orders that the code
-- names are not modelled.
pub mod Invariant
pub mod Owner
pub mod Thief
pub mod Progress
pub mod Alone
use odin_memory_allocator.Base.{
  ℕ, ◌+◌, ◌-◌, ◌<◌, ◌≡◌, List, ◌∷◌, [], ◌==◌, ltb, leb, if◌then◌else◌, add32, sub32,
}
use odin_memory_allocator.Memory.{Memory, null, store}
use odin_memory_allocator.WorkQueue.{work_queue_size}

-- Where the owner stands, with the local variables `b`, `t`, `x` that are live there.
pub data OwnerAt : Type 0 where
  resting : OwnerAt
  push_top : (task b : ℕ) → OwnerAt  -- loaded the bottom, before the load of the top
  push_write : (task b t : ℕ) → OwnerAt  -- before the test and the store into the array
  push_end : (task b : ℕ) → OwnerAt  -- before the store of the bottom
  pop_down : (b : ℕ) → OwnerAt  -- loaded the bottom, before the store of `b`
  pop_top : (b : ℕ) → OwnerAt  -- before the load of the top
  pop_read : (b t : ℕ) → OwnerAt  -- before the test and the load from the array
  pop_race : (b t x : ℕ) → OwnerAt  -- before the exchange for the last task
  pop_last : (b x : ℕ) → OwnerAt  -- after the exchange, before the store of the bottom
  pop_none : (b : ℕ) → OwnerAt  -- nothing there, before the store of the bottom

pub data ThiefAt : Type 0 where
  resting : ThiefAt
  steal_bottom : (t : ℕ) → ThiefAt  -- loaded the top, before the load of the bottom
  steal_read : (t b : ℕ) → ThiefAt  -- before the load from the array
  steal_race : (t b x : ℕ) → ThiefAt  -- before the exchange

-- `pushed` and `taken` record the tasks that went in, and those that calls returned or are bound
-- to return, the latest first. No step reads them.
pub record System : Type 0 where
  pub top : ℕ
  pub bottom : ℕ
  pub array : Memory
  pub owner : OwnerAt
  pub thief : ℕ → ThiefAt
  pub pushed : List ℕ
  pub taken : List ℕ

abbrev pub set_thief : (i : ℕ) → ThiefAt → (ℕ → ThiefAt) → ℕ → ThiefAt
set_thief i at thief j = if j == i then at else thief j

-- The next access of the owner.
unfoldable pub owner_from : OwnerAt → System → System
owner_from resting s = s
owner_from (push_top task b) s = record s { owner = push_write task b s.top }
owner_from (push_write task b t) s =
    if leb (sub32 b t) (work_queue_size - 1)
    then record s { array = store b task s.array; owner = push_end task b }
    else record s { owner = OwnerAt.resting }
owner_from (push_end task b) s = record s {
  bottom = add32 b 1;
  owner = OwnerAt.resting;
  pushed = task ∷ s.pushed;
}
owner_from (pop_down b) s = record s { bottom = b; owner = pop_top b }
owner_from (pop_top b) s = record s { owner = pop_read b s.top }
owner_from (pop_read b t) s =
    let x = s.array b in
    if leb t b
    then if t == b
      then record s { owner = pop_race b t x }
      else record s { owner = OwnerAt.resting; taken = x ∷ s.taken }
    else record s { owner = pop_none b }
owner_from (pop_race b t x) s =
    if s.top == t
    then record s { top = add32 t 1; owner = pop_last b x; taken = x ∷ s.taken }
    else record s { owner = pop_last b null }
owner_from (pop_last b x) s = record s { bottom = add32 b 1; owner = OwnerAt.resting }
owner_from (pop_none b) s = record s { bottom = add32 b 1; owner = OwnerAt.resting }

unfoldable pub owner_step : System → System
unfolding owner_from
owner_step s = owner_from s.owner s

-- The next access of thief `i`.
unfoldable pub thief_from : (i : ℕ) → ThiefAt → System → System
thief_from i resting s = s
thief_from i (steal_bottom t) s =
    if ltb t s.bottom
    then record s { thief = set_thief i (steal_read t s.bottom) s.thief }
    else record s { thief = set_thief i ThiefAt.resting s.thief }
thief_from i (steal_read t b) s = record s {
  thief = set_thief i (steal_race t b (s.array t)) s.thief;
}
thief_from i (steal_race t b x) s =
    if s.top == t
    then record s {
      top = add32 t 1;
      thief = set_thief i ThiefAt.resting s.thief;
      taken = x ∷ s.taken;
    }
    else record s { thief = set_thief i ThiefAt.resting s.thief }

unfoldable pub thief_step : (i : ℕ) → System → System
unfolding thief_from
thief_step i s = thief_from i (s.thief i) s

-- The first access of each call.
unfoldable pub call_push : (task : ℕ) → System → System
call_push task s = record s { owner = push_top task s.bottom }

unfoldable pub call_pop : System → System
call_pop s = record s { owner = pop_down (sub32 s.bottom 1) }

unfoldable pub call_steal : (i : ℕ) → System → System
call_steal i s = record s { thief = set_thief i (steal_bottom s.top) s.thief }

-- A thread that rests may call; a thread in a call goes on.
pub data Step (s : System) : System → Type 0 where
  pushes : (task : ℕ) → s.owner ≡ OwnerAt.resting → Step s (call_push task s)
  pops : s.owner ≡ OwnerAt.resting → Step s (call_pop s)
  owner_goes_on : Step s (owner_step s)
  steals : (i : ℕ) → s.thief i ≡ ThiefAt.resting → Step s (call_steal i s)
  thief_goes_on : (i : ℕ) → Step s (thief_step i s)

-- The queue as its constructor leaves it.
abbrev pub made : Memory → System
made array = record {
  top = 0;
  bottom = 0;
  array = array;
  owner = OwnerAt.resting;
  thief = λ i. ThiefAt.resting;
  pushed = [];
  taken = [];
}

-- Sequences of steps from a state, in which every state has its bottom index inside of the array.
pub data Run (s : System) : System → Type 0 where
  here : Run s s
  later : {t u : System} → Run s t → Step t u → u.bottom < work_queue_size → Run s u

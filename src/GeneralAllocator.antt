-- ===== src/GeneralAllocator.antt =====
-- GeneralAllocator.cpp: one memory space for each class of sizes. A missing space is null. The
-- parameters are those of making a space: its size, the clock and what the system answers. All spaces
-- lie in one memory, `mem`, and make their calls to the system in one sequence, `calls`; the fields
-- `mem` and `calls` of a space are set when it is entered. The mutexes are not modelled.
pub mod RoundTrip
use odin_memory_allocator.Base.{
  ℕ, zero, suc, ◌+◌, Bool, true, false, Option, none, some, ltb, ◌==◌, ◌!=◌, if◌then◌else◌, add32,
  shr32,
}
use odin_memory_allocator.Base.Fuel.{◌>>=◌}
use odin_memory_allocator.Memory.{Memory, null}
use odin_memory_allocator.SysAlloc.{Calls, VirtualMemory}
use odin_memory_allocator.Space.{Space}
use odin_memory_allocator.Create.{create_memory_space}
use odin_memory_allocator.Alloc.{Allocated}
use odin_memory_allocator.AllocAligned.{alloc_aligned}
use odin_memory_allocator.Free.{free}
use odin_memory_allocator.Query.{
  destroy_memory_region, get_memory_space_addr, get_chunk_size, calloc,
}

abbrev pub Spaces : Type 0
Spaces = ℕ → Option Space

pub record General : Type 0 where
  pub space : Spaces
  pub mem : Memory
  pub calls : Calls

abbrev pub set_space : ℕ → Option Space → Spaces → Spaces
set_space i o spaces j = if j == i then o else spaces j

-- The index that `getInstIndexFromSize` uses. For 64 to 255 bytes the computed index is assigned to
-- a variable of the inner block, and the outer one stays 0.
unfoldable pub instance_index : (size : ℕ) → ℕ
instance_index size = if ltb size 64 then shr32 size 3 else if ltb size 256 then 0 else 20

abbrev pub footprint_of : Option Space → ℕ
footprint_of none = 0
footprint_of (some s) = s.footprint

abbrev pub is_made : Option Space → Bool
is_made none = false
is_made (some s) = true

-- The loop of `getTotalAllocated` over the spaces below `k`.
total_below : (k : ℕ) → Spaces → ℕ
total_below zero spaces = 0
total_below (suc k) spaces = add32 (total_below k spaces) (footprint_of (spaces k))

unfoldable pub get_total_allocated : General → ℕ
unfolding total_below
get_total_allocated g = total_below 21 g.space

abbrev destroyed : Option Space → Calls → Calls
destroyed none calls = calls
destroyed (some s) calls =
    let (size, t) = destroy_memory_region (record s { calls = calls }) in t.calls

-- The loop of the destructor.
destroy_below : (k : ℕ) → Spaces → Calls → Calls
destroy_below zero spaces calls = calls
destroy_below (suc k) spaces calls = destroyed (spaces k) (destroy_below k spaces calls)

unfoldable pub destroy : General → General
unfolding destroy_below
destroy g = record g { calls = destroy_below 21 g.space g.calls }

-- A space as an operation finds it, and what the operation leaves.
abbrev pub entered : Space → General → Space
entered s g = record s { mem = g.mem; calls = g.calls }

abbrev pub left : (index : ℕ) → Space → General → General
left index s g = record { space = set_space index (some s) g.space; mem = s.mem; calls = s.calls }

-- A call on the space at an index; `none` where there is no space, or no fuel.
unfoldable pub within_space :
    (index : ℕ) → (Space → Option Allocated) → General → Option (ℕ × General)
within_space index call g = elim (g.space index) [
  | none ↦ none
  | some s ↦ call (entered s g) >>= λ (mem, t). some (mem, left index t g)
]

-- What `free` answers is not used.
unfoldable pub free_in : ℕ → (index mem : ℕ) → General → Option General
free_in fuel index mem g = elim (g.space index) [
  | none ↦ none
  | some s ↦ free fuel mem (entered s g) >>= λ (emptied, t). some (left index t g)
]

abbrev pub is_at : (msp : ℕ) → Option Space → Bool
is_at msp none = false
is_at msp (some s) = s.self == msp

-- The first index from `i` on, of `k`, whose space passes the test.
unfoldable pub first_index : (Option Space → Bool) → (k i : ℕ) → Spaces → Option ℕ
first_index test zero i spaces = none
first_index test (suc k) i spaces =
    let rest = first_index test k (suc i) spaces in if test (spaces i) then some i else rest

-- The pointer from the footer is taken to its index; a footer that names no space gives `none`.
unfoldable pub deallocate : ℕ → (mem : ℕ) → General → Option General
unfolding free_in first_index
deallocate fuel mem g =
    let msp = get_memory_space_addr g.mem mem in
    let owned = first_index (is_at msp) 21 0 g.space >>= λ index. free_in fuel index mem g in
    let direct : Option General = elim (first_index is_made 21 0 g.space) [
      | none ↦ some g
      | some index ↦ free_in fuel index mem g
    ] in
    if mem != null then if msp != null then owned else direct else some g

unfoldable pub get_alloc_size : (mem : ℕ) → General → ℕ
get_alloc_size mem g = get_chunk_size g.mem mem

abbrev memory_of : Option Space → Memory → Memory
memory_of none m = m
memory_of (some s) m = s.mem

module _ (sizeof_space tick : ℕ) (os : VirtualMemory) where
  -- The space at an index is made with the sizes of its class.
  unfoldable pub create_at : (index : ℕ) → General → General
  create_at index g =
      let granularity = if index == 20 then 33554432 else 65536 in
      let threshold = if index == 20 then 8388608 else 8192 in
      let (space, calls) =
        create_memory_space sizeof_space tick os 65536 65536 granularity threshold g.mem g.calls in
      record { space = set_space index space g.space; mem = memory_of space g.mem; calls = calls }

  -- `none` is the index -1.
  unfoldable pub get_inst_index_from_size : (size : ℕ) → General → Option ℕ × General
  unfolding instance_index create_at
  get_inst_index_from_size size g =
      let index = instance_index size in
      let g1 = create_at index g in
      if is_made (g.space index)
      then (some index, g)
      else if is_made (g1.space index)
      then (some index, g1)
      else (none, g1)

  -- The loop of `init`, with `k` spaces left to make, and then the last one.
  init_from : (k i : ℕ) → General → Bool × General
  unfolding create_at
  init_from zero i g = let g1 = create_at 20 g in (is_made (g1.space 20), g1)
  init_from (suc k) i g =
      let g1 = create_at i g in
      let rest = init_from k (suc i) g1 in if is_made (g1.space i) then rest else (false, g1)

  unfoldable pub init : General → Bool × General
  unfolding init_from
  init g = init_from 20 0 g

  unfoldable pub allocate : ℕ → (size alignment offset : ℕ) → General → Option (ℕ × General)
  unfolding get_inst_index_from_size within_space
  allocate fuel size alignment offset g =
      let (index, g1) = get_inst_index_from_size size g in
      elim index [
        | none ↦ some (null, g1)
        | some i ↦ within_space i (alloc_aligned os fuel alignment size offset) g1
      ]

  unfoldable pub callocate : ℕ → (num_elements elem_size : ℕ) → General → Option (ℕ × General)
  unfolding get_inst_index_from_size within_space
  callocate fuel num_elements elem_size g =
      let (index, g1) = get_inst_index_from_size elem_size g in
      elim index [
        | none ↦ some (null, g1)
        | some i ↦ within_space i (calloc os fuel num_elements elem_size) g1
      ]

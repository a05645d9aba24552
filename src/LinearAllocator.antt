-- ===== src/LinearAllocator.antt =====
-- LinearAllocator.cpp: memory is handed out in one direction, each block behind a word that holds
-- its size. `mCurrent` is uninitialised until `init` or `reset`; `calls` are the system calls made
-- and `failed` counts the ASSERT_ERROR checks that did not hold.
pub mod Blocks
use odin_memory_allocator.Base.{
  ℕ, ◌+◌, ◌-◌, Bool, true, false, ◌==◌, ltb, leb, if◌then◌else◌, add32, sub32, not32, word_size,
  bit_and,
}
use odin_memory_allocator.Memory.{Memory, null, store}
use odin_memory_allocator.SysAlloc.{Calls, VirtualMemory, reserve_commit_segment, release_segment}
use odin_memory_allocator.Chunk.{default_alignment}

pub record Linear : Type 0 where
  pub mem : Memory
  pub start : ℕ
  pub size : ℕ
  pub current : ℕ
  pub calls : Calls
  pub failed : ℕ

abbrev pub granularity : ℕ
granularity = 65536

abbrev check : Bool → Linear → Linear
check test l = record l { failed = if test then l.failed else l.failed + 1 }

-- Where the block goes: the address behind `offset` bytes is rounded up, and taken back again.
unfoldable pub place : (current alignment offset : ℕ) → ℕ
place current alignment offset =
    sub32 (bit_and (add32 (add32 current offset) (sub32 alignment 1)) (not32 (sub32 alignment 1)))
      offset

unfoldable pub init : VirtualMemory → Linear → Bool × Linear
init os l =
    let size = bit_and (add32 l.size (granularity - 1)) (not32 (granularity - 1)) in
    let (start, calls) = reserve_commit_segment os size l.calls in
    if l.start == null
    then if start == null
      then (false, record l { start = start; calls = calls })
      else (true, record l { start = start; current = start; calls = calls })
    else (true, l)

unfoldable pub allocate : (size alignment offset : ℕ) → Linear → ℕ × Linear
unfolding place
allocate size alignment0 offset0 l0 =
    let l1 = check (bit_and alignment0 (sub32 alignment0 1) == 0) l0 in
    let alignment = if ltb alignment0 default_alignment then default_alignment else alignment0 in
    let offset = add32 offset0 word_size in
    let user = place l1.current alignment offset in
    let current = add32 user size in
    let ptr = add32 user word_size in
    let l2 = record l1 { current = current } in
    let l3 = record l2 { mem = store user size l2.mem } in
    if leb (add32 l1.start l1.size) current
    then (null, l2)
    else (ptr, check (bit_and ptr (sub32 alignment 1) == 0) l3)

unfoldable pub reset : Linear → Linear
reset l = record l { current = l.start }

unfoldable pub get_alloc_size : Linear → (mem : ℕ) → ℕ
get_alloc_size l mem = l.mem (sub32 mem word_size)

unfoldable pub get_total_allocated : Linear → ℕ
get_total_allocated l = sub32 l.current l.start

-- The destructor.
unfoldable pub destroy : Linear → Linear
unfolding get_total_allocated
destroy l0 =
    let l = check (get_total_allocated l0 == 0) l0 in
    if l.start == null
    then l
    else record l { calls = release_segment l.start l.size l.calls; start = null; current = null }

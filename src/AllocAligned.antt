-- ===== src/AllocAligned.antt =====
-- MemAlloc.cpp, `allocAligned`. A null `trailer` is never freed, since it is never set. The program
-- holds the mutex in the inner `alloc` and `free` only; here no other thread runs between them.
pub mod Position
use odin_memory_allocator.Base.{
  ℕ, zero, suc, ◌+◌, ◌%◌, Option, none, some, ltb, leb, ◌==◌, ◌!=◌, if◌then◌else◌, add32, sub32,
  neg32, shl32, bit_and,
}
use odin_memory_allocator.Base.Fuel.{◌>>=◌}
use odin_memory_allocator.Memory.{null}
use odin_memory_allocator.SysAlloc.{VirtualMemory}
use odin_memory_allocator.Chunk.{
  chunk_size, chunk_plus_offset, chunk_to_memory, memory_to_chunk, request_to_size, set_size_inuse,
  default_alignment, min_chunk_size, chunk_overhead, max_request,
}
use odin_memory_allocator.Space.{Space, assert_error, with_mem}
use odin_memory_allocator.Alloc.{Allocated, alloc}
use odin_memory_allocator.Free.{free}

-- `while (align < alignment) align <<= 1`, with `k` turns left.
double_until : (k align alignment : ℕ) → ℕ
double_until zero align alignment = align
double_until (suc k) align alignment =
    let rest = double_until k (shl32 align 1) alignment in
    if ltb align alignment then rest else align

-- The alignment that is used: at least the smallest chunk, and a power of two. An alignment above
-- 2 ^ 31 would make the loop go on for ever; 32 turns are enough below.
unfoldable pub round_alignment : ℕ → ℕ
unfolding double_until
round_alignment alignment0 =
    let alignment = if ltb alignment0 min_chunk_size then min_chunk_size else alignment0 in
    if bit_and alignment (sub32 alignment 1) != 0
    then double_until 32 (shl32 default_alignment 1) alignment
    else alignment

-- Where the aligned chunk starts inside the chunk at `ptr`. The address `offset` bytes behind the start of
-- its memory is aligned; the ASSERT_ERROR at the end of `allocAligned` asks it of the start.
unfoldable pub aligned_position : (ptr alignment offset : ℕ) → ℕ
aligned_position ptr alignment offset =
    let mem = chunk_to_memory ptr in
    let aligned_spot =
      memory_to_chunk (bit_and (sub32 (add32 (add32 mem offset) alignment) 1) (neg32 alignment)) in
    if leb min_chunk_size (sub32 (sub32 aligned_spot offset) ptr)
    then sub32 aligned_spot offset
    else sub32 (add32 aligned_spot alignment) offset

-- The chunk is split at `pos` where it is misaligned.
unfoldable pub split_leader : (ptr pos : ℕ) → Space → Space
split_leader ptr pos s =
    let leadsize = sub32 pos ptr in
    let newsize = sub32 (chunk_size s.mem ptr) leadsize in
    with_mem (λ m. set_size_inuse s.self ptr leadsize (set_size_inuse s.self pos newsize m)) s

-- The spare room at the end is split off, and marked in use.
unfoldable pub split_trailer : (ptr nb : ℕ) → Space → Space
split_trailer ptr nb s =
    let size = chunk_size s.mem ptr in
    let rem_ptr = chunk_plus_offset ptr nb in
    if ltb (add32 nb min_chunk_size) size
    then with_mem
        (λ m. set_size_inuse s.self rem_ptr (sub32 size nb) (set_size_inuse s.self ptr nb m)) s
    else s

-- What is done with the memory that `alloc` gave.
unfoldable pub align_within : ℕ → (mem nb alignment offset : ℕ) → Space → Option Allocated
unfolding aligned_position split_leader split_trailer
align_within fuel mem nb alignment offset s0 =
    let ptr0 = memory_to_chunk mem in
    let aligned = add32 mem offset % alignment == 0 in
    let pos = aligned_position ptr0 alignment offset in
    let ptr = if aligned then ptr0 else pos in
    let s1 = if aligned then s0 else split_leader ptr0 pos s0 in
    let s2 = split_trailer ptr nb s1 in
    let s3 = assert_error (leb nb (chunk_size s2.mem ptr)) s2 in
    let s4 = assert_error (chunk_to_memory ptr % alignment == 0) s3 in
    let freed : Option Allocated =
      free fuel (chunk_to_memory ptr0) s4 >>= λ r. some (chunk_to_memory ptr, r.1) in
    if aligned then some (chunk_to_memory ptr, s4) else freed

unfoldable pub alloc_aligned :
    VirtualMemory → ℕ → (alignment bytes offset : ℕ) → Space → Option Allocated
unfolding round_alignment align_within
alloc_aligned os fuel alignment0 bytes offset s =
    let alignment = round_alignment alignment0 in
    let nb = request_to_size bytes in
    let req = sub32 (add32 (add32 (add32 nb alignment) offset) min_chunk_size) chunk_overhead in
    let found : Option Allocated = alloc os fuel req s >>= λ r.
    let (mem, s1) = r in
    if mem != null then align_within fuel mem nb alignment offset s1 else some (null, s1) in
    if leb alignment0 default_alignment
    then alloc os fuel bytes s
    else if leb (sub32 max_request alignment) bytes
    then some (null, s)
    else found

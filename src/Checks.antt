-- ===== src/Checks.antt =====
-- MemAlloc.cpp, the functions that check a chunk. Each ASSERT_ERROR that does not hold is counted.
pub mod Passes
use odin_memory_allocator.Base.{
  ℕ, ◌+◌, Bool, not, ◌&&◌, ◌||◌, leb, ltb, ◌==◌, ◌!=◌, if◌then◌else◌, add32, not32, bit_and,
}
use odin_memory_allocator.Chunk.{
  head, prev_foot, fd, bk, chunk_size, next_chunk, previous_chunk, is_aligned, chunk_to_memory,
  memory_to_chunk, chunk_plus_offset, is_inuse, get_pinuse, next_pinuse, inuse_bits, alignment_mask,
  min_chunk_size,
}
use odin_memory_allocator.Space.{Space, assert_error}

unfoldable pub check_top_chunk : Space → Space
check_top_chunk s0 =
    let top = s0.top in
    let sz = bit_and (head s0.mem top) (not32 inuse_bits) in
    let s1 = assert_error (is_aligned (chunk_to_memory top)) s0 in
    let s2 = assert_error (sz == s1.top_size) s1 in
    let s3 = assert_error (ltb 0 sz) s2 in assert_error (get_pinuse s3.mem top != 0) s3

unfoldable pub check_inuse_chunk : (ptr : ℕ) → Space → Space
check_inuse_chunk ptr s0 =
    let s1 = assert_error (is_aligned (chunk_to_memory ptr)) s0 in
    let s2 = assert_error (is_inuse s1.mem ptr) s1 in
    let s3 = assert_error (next_pinuse s2.mem ptr != 0) s2 in
    assert_error
      (get_pinuse s3.mem ptr != 0 || next_chunk s3.mem (previous_chunk s3.mem ptr) == ptr) s3

-- For a chunk below the least size the program checks a comma expression, which always holds.
unfoldable pub check_free_chunk : (ptr : ℕ) → Space → Space
check_free_chunk ptr s0 =
    let size = chunk_size s0.mem ptr in
    let next_ptr = chunk_plus_offset ptr size in
    let s1 = assert_error (is_aligned ptr) s0 in
    let s2 = assert_error (not (is_inuse s1.mem ptr)) s1 in
    let s3 = assert_error (not (next_pinuse s2.mem ptr != 0)) s2 in
    let s4 = assert_error (bit_and size alignment_mask == 0) s3 in
    let s5 = assert_error (is_aligned (chunk_to_memory ptr)) s4 in
    let s6 = assert_error (prev_foot s5.mem next_ptr == size) s5 in
    let s7 = assert_error (get_pinuse s6.mem ptr != 0) s6 in
    let s8 = assert_error (next_ptr == s7.top || is_inuse s7.mem next_ptr) s7 in
    let s9 = assert_error (bk s8.mem (fd s8.mem ptr) == ptr) s8 in
    let s10 = assert_error (fd s9.mem (bk s9.mem ptr) == ptr) s9 in
    if ptr != s0.dv && ptr != s0.top then if leb min_chunk_size size then s10 else s3 else s3

unfoldable pub check_alloced_chunk : (mem size : ℕ) → Space → Space
check_alloced_chunk mem size s0 =
    let ptr = memory_to_chunk mem in
    let sz = bit_and (head s0.mem ptr) (not32 inuse_bits) in
    let s1 = assert_error (is_aligned mem) s0 in
    let s2 = assert_error (bit_and sz alignment_mask == 0) s1 in
    let s3 = assert_error (leb min_chunk_size sz) s2 in
    let s4 = assert_error (leb size sz) s3 in
    let s5 = assert_error (ltb sz (add32 size min_chunk_size)) s4 in if mem != 0 then s5 else s0

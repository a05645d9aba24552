-- ===== src/SmallBin.antt =====
-- MemAlloc.cpp, linking and unlinking in the small bins: each is a ring of chunks of one size
-- through a header inside the memory space.
pub mod Ring
pub mod Frame
pub mod Inv
pub mod Insert
pub mod Removal
pub mod Unlink
use odin_memory_allocator.Base.{ℕ, Bool, true, false, ◌≡◌, leb, ◌==◌, ◌!=◌, if◌then◌else◌}
use odin_memory_allocator.Memory.{Memory}
use odin_memory_allocator.Chunk.{chunk_size, fd, bk, set_fd, set_bk, min_chunk_size}
use odin_memory_allocator.Bins.{get_small_bin_index, get_small_index_to_size, is_small}
use odin_memory_allocator.Space.{
  Space, assert_error, with_mem, small_bin_at, mark_small_map, clear_small_map, is_small_map_marked,
}

unfoldable pub insert_small_chunk : (ptr size : ℕ) → Space → Space
unfolding assert_error
insert_small_chunk ptr size s0 =
    let s1 = assert_error (leb min_chunk_size size) s0 in
    let index = get_small_bin_index size in
    let back = small_bin_at s1 index in
    let s2 = if is_small_map_marked s1 index then s1 else mark_small_map index s1 in
    let forward = fd s2.mem back in
    with_mem (λ m. set_bk ptr back (set_fd ptr forward (set_bk forward ptr (set_fd back ptr m)))) s2

unfoldable pub unlink_small_chunk : (ptr size : ℕ) → Space → Space
unfolding assert_error
unlink_small_chunk ptr size s0 =
    let forward = fd s0.mem ptr in
    let back = bk s0.mem ptr in
    let index = get_small_bin_index size in
    let s1 = assert_error (ptr != forward) s0 in
    let s2 = assert_error (ptr != back) s1 in
    let s3 = assert_error (chunk_size s2.mem ptr == get_small_index_to_size index) s2 in
    let s4 = if forward == back then clear_small_map index s3 else s3 in
    with_mem (λ m. set_fd back forward (set_bk forward back m)) s4

unfoldable pub unlink_first_small_chunk : (ptr index : ℕ) → Space → Space
unfolding assert_error
unlink_first_small_chunk ptr index s0 =
    let forward = fd s0.mem ptr in
    let back = small_bin_at s0 index in
    let s1 = assert_error (ptr != forward) s0 in
    let s2 = assert_error (ptr != back) s1 in
    let s3 = assert_error (chunk_size s2.mem ptr == get_small_index_to_size index) s2 in
    let s4 = if forward == back then clear_small_map index s3 else s3 in
    with_mem (λ m. set_fd back forward (set_bk forward back m)) s4

-- Replace the designated victim, and insert the old one into a small bin.
unfoldable pub replace_dv : (ptr size : ℕ) → Space → Space
unfolding insert_small_chunk
replace_dv ptr size s =
    let dv_size = s.dv_size in
    let dv = s.dv in
    let s' =
      if dv_size != 0
      then insert_small_chunk dv dv_size (assert_error (is_small dv_size) s)
      else s in
    record s' { dv_size = size; dv = ptr }

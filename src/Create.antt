-- ===== src/Create.antt =====
-- MemAlloc.cpp, making a memory space in a segment. `sizeof(MemorySpace)` depends on the mutex of
-- the standard library and is a parameter, as is the answer of GetTickCount. The pages of a segment
-- are zero when they are committed, so the fields that `initMemorySpace` does not set are 0.
pub mod Init
use odin_memory_allocator.Base.{
  ℕ, zero, suc, ◌+◌, List, [], Option, none, some, ◌==◌, ◌!=◌, if◌then◌else◌, add32, sub32, not32,
  bit_and, bit_or, bit_xor,
}
use odin_memory_allocator.Memory.{Memory, null}
use odin_memory_allocator.SysAlloc.{Calls, VirtualMemory, reserve_segment, commit_page}
use odin_memory_allocator.Chunk.{
  pad_request, alignment_offset, chunk_to_memory, memory_to_chunk, next_chunk, set_head, set_fd,
  set_bk, inuse_bits,
}
use odin_memory_allocator.Space.{Space, with_mem, small_bin_at}

-- `bin->fd = bin->bk = bin` for the bins below `k`.
unfoldable pub link_bins : (k : ℕ) → Space → Space
link_bins zero s = s
link_bins (suc k) s =
    let s1 = link_bins k s in
    let bin = small_bin_at s1 k in with_mem (λ m. set_fd bin bin (set_bk bin bin m)) s1

module _ (sizeof_space tick : ℕ) where
  unfoldable pub init_memory_space :
      (segment_base segment_size page_size segment_granularity segment_threshold : ℕ)
      → Memory
      → Calls
      → Option Space
  init_memory_space base size page_size granularity threshold m calls =
      let msp_size = pad_request sizeof_space in
      let ptr = add32 base (alignment_offset (chunk_to_memory base)) in
      let msp = chunk_to_memory ptr in
      let m1 = set_head ptr (bit_or msp_size inuse_bits) m in
      let next = next_chunk m1 (memory_to_chunk msp) in
      let offset = alignment_offset (chunk_to_memory next) in
      let top = add32 next offset in
      let top_size = sub32 (sub32 (add32 base size) top) offset in
      let s : Space = record {
        mem = m1;
        self = msp;
        small_map = 0;
        tree_map = 0;
        dv = 0;
        top = top;
        dv_size = 0;
        top_size = top_size;
        magic = bit_and (bit_or (bit_xor tick 0x55555555) 8) (not32 7);
        least_addr = base;
        curr_page_index = 1;
        page_size = page_size;
        segment_granularity = granularity;
        segment_threshold = threshold;
        footprint = size;
        max_footprint = size;
        calls = calls;
        failed = 0;
      } in
      if base != 0 then some (link_bins 32 s) else none

  -- The calls to the system are kept where no space is made.
  unfoldable pub create_memory_space :
      VirtualMemory
      → (initial_size page_size segment_granularity segment_threshold : ℕ) → Memory
      → Calls
      → Option Space × Calls
  create_memory_space os initial_size page_size granularity threshold m calls =
      let size = if initial_size == 0 then granularity else initial_size in
      let (segment, calls1) = reserve_segment os size null calls in
      let calls2 = commit_page segment page_size calls1 in
      (init_memory_space segment size page_size granularity threshold m calls2, calls2)

  unfoldable pub create_memory_space_with_base :
      (base_segment base_segment_size page_size segment_granularity segment_threshold : ℕ)
      → Memory
      → Calls
      → Option Space × Calls
  create_memory_space_with_base base size page_size granularity threshold m calls =
      let calls1 = commit_page base page_size calls in
      (init_memory_space base size page_size granularity threshold m calls1, calls1)

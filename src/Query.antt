-- ===== src/Query.antt =====
-- MemAlloc.cpp, what can be asked of allocated memory and of a space, and the request of `calloc`.
pub mod Readback
use odin_memory_allocator.Base.{
  ℕ, ◌+◌, ◌/◌, ◌&&◌, Option, ◌==◌, ◌!=◌, if◌then◌else◌, add32, sub32, mul32, not32, bit_and, bit_or,
}
use odin_memory_allocator.Memory.{Memory, null}
use odin_memory_allocator.SysAlloc.{VirtualMemory, decommit_page, release_segment}
use odin_memory_allocator.Chunk.{
  head, prev_foot, chunk_size, memory_to_chunk, chunk_overhead, inuse_bits, pinuse_bit, max_request,
}
use odin_memory_allocator.Space.{Space}
use odin_memory_allocator.Alloc.{Allocated, alloc}

unfoldable pub get_memory_space_addr : Memory → (mem : ℕ) → ℕ
get_memory_space_addr m mem =
    let ptr = memory_to_chunk mem in prev_foot m (add32 ptr (chunk_size m ptr))

unfoldable pub get_chunk_size : Memory → (mem : ℕ) → ℕ
get_chunk_size m mem = chunk_size m (memory_to_chunk mem)

unfoldable pub get_usable_size : Memory → (mem : ℕ) → ℕ
get_usable_size m mem =
    let ptr = memory_to_chunk mem in
    if mem != null
    then if bit_and (head m ptr) inuse_bits != pinuse_bit
      then sub32 (chunk_size m ptr) chunk_overhead
      else 0
    else 0

unfoldable pub get_total_reserved_memory : Space → ℕ
get_total_reserved_memory s = s.footprint

unfoldable pub get_max_reserved_memory : Space → ℕ
get_max_reserved_memory s = s.max_footprint

unfoldable pub destroy_memory_region : Space → ℕ × Space
destroy_memory_region s = (
  s.footprint,
  record s {
    calls =
        release_segment s.least_addr s.footprint (decommit_page s.least_addr s.page_size s.calls);
  },
)

-- The number of bytes that `calloc` asks `alloc` for.
unfoldable pub calloc_request : (num_elements elem_size : ℕ) → ℕ
calloc_request num_elements elem_size =
    let req = mul32 num_elements elem_size in
    let overflows =
      bit_and (bit_or num_elements elem_size) (not32 0xffff) != 0
      && req / num_elements != elem_size in
    if num_elements != 0 then if overflows then max_request else req else 0

unfoldable pub calloc : VirtualMemory → ℕ → (num_elements elem_size : ℕ) → Space → Option Allocated
unfolding calloc_request
calloc os fuel num_elements elem_size s = alloc os fuel (calloc_request num_elements elem_size) s

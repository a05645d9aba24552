-- ===== src/Tests/Sizes.antt =====
-- Sizes, bins and alignments.
use odin_memory_allocator.Base.{ℕ, bit_and, neg32, ◌+◌, ◌%◌, ◌≡◌, ◌<◌, ◌≤◌, ◌^◌, refl, arith}
use odin_memory_allocator.Base.Bits.{test_bit}
use odin_memory_allocator.Chunk.{chunk_overhead, min_chunk_size}
use odin_memory_allocator.Bins.{compute_bit_to_index, compute_tree_index}
use odin_memory_allocator.Bins.LeastBit.{compute_bit_to_index_least}
use odin_memory_allocator.Bins.TreeIndex.{InTreeBin, compute_tree_index-InTreeBin}
use odin_memory_allocator.Alloc.{chunk_request}
use odin_memory_allocator.Query.Readback.{chunk_request_bounds}
use odin_memory_allocator.AllocAligned.{aligned_position}
use odin_memory_allocator.AllocAligned.Position.{aligned_position_fits}

chunk_request_bounds_example :
    (chunk_request 100 % 8 ≡ 0)
    × (min_chunk_size ≤ chunk_request 100)
    × (100 + chunk_overhead ≤ chunk_request 100)
    × (chunk_request 100 < 2 ^ 32)
chunk_request_bounds_example = chunk_request_bounds 100 (omega arith)

compute_bit_to_index_least_example :
    let i = compute_bit_to_index (bit_and 1000 (neg32 1000)) in
    (i < 32) × (test_bit i 1000 ≡ 1) × ((j : ℕ) → j < i → test_bit j 1000 ≡ 0)
compute_bit_to_index_least_example = compute_bit_to_index_least 1000 (omega arith) (omega arith)

compute_tree_index-InTreeBin_example : InTreeBin (compute_tree_index 5000) 5000
compute_tree_index-InTreeBin_example = compute_tree_index-InTreeBin 5000 (omega arith) (omega arith)

aligned_position_fits_example :
    let pos = aligned_position 0x12008 (2 ^ 6) 4 in
    ((pos + 8 + 4) % 2 ^ 6 ≡ 0) × (0x12008 + 16 ≤ pos) × (pos < 0x12008 + 16 + 2 ^ 6)
aligned_position_fits_example =
    aligned_position_fits 0x12008 4 6 26 refl (omega arith) (omega arith)

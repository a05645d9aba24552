-- ===== src/Chunk/Sizes.antt =====
-- Request sizes and alignment as arithmetic.
use odin_memory_allocator.Base.{
  ℕ, ◌+◌, ◌-◌, ◌*◌, ◌/◌, ◌%◌, ◌≤◌, ◌<◌, ◌^◌, ◌≡◌, ◌↔◌, true, arith, bit_and,
}
use odin_memory_allocator.Base.Bits.{bit_and-clear_low, bit_and_mask}
use odin_memory_allocator.Chunk.{
  pad_request, is_aligned, alignment_offset, max_request, chunk_overhead,
}

pub pad_request_lem : (n : ℕ) → n + 15 < 2 ^ 32 → pad_request n ≡ (n + 15) / 8 * 8
unfolding pad_request
pad_request_lem n h =
    omega (arith, bit_and-clear_low 3 29 (((n + 8) % 2 ^ 32 + 7) % 2 ^ 32) (omega arith))

-- For every request up to `kMaxRequest` the padded size does not wrap, is a multiple of the
-- alignment, leaves room for the request and its overhead, and wastes less than one alignment unit.
pub pad_request_bounds :
    (n : ℕ)
    → n ≤ max_request
    → (pad_request n % 8 ≡ 0)
      × (n + chunk_overhead ≤ pad_request n)
      × (pad_request n < n + chunk_overhead + 8)
      × (pad_request n < 2 ^ 32)
pad_request_bounds n h = omega (arith, pad_request_lem n (omega arith))

pub is_aligned_iff : (a : ℕ) → (is_aligned a ≡ true) ↔ (a % 8 ≡ 0)
unfolding is_aligned
is_aligned_iff a = ground (arith, bit_and_mask 3 a)

pub alignment_offset_lem : (a : ℕ) → alignment_offset a ≡ (8 - a % 8) % 8
unfolding alignment_offset
alignment_offset_lem a =
    ground (arith, bit_and_mask 3 a, bit_and_mask 3 ((8 + 2 ^ 32 - bit_and a 7) % 2 ^ 32))

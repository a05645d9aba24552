-- ===== src/Checks/Passes.antt =====
-- When the checks of a handed out chunk hold.
use odin_memory_allocator.Base.{
  ℕ, ◌+◌, ◌%◌, ◌≤◌, ◌<◌, ◌^◌, ◌≡◌, arith, true, leb, ltb, ◌==◌, ◌!=◌, bit_and,
}
use odin_memory_allocator.Base.Bits.{bit_and_mask}
use odin_memory_allocator.Chunk.{
  chunk_size, is_aligned, memory_to_chunk, alignment_mask, min_chunk_size,
}
use odin_memory_allocator.Chunk.Sizes.{is_aligned_iff}
use odin_memory_allocator.Space.{Space, assert_error_passes}
use odin_memory_allocator.Checks.{check_alloced_chunk}

-- A chunk of `sz` bytes at `p` may be handed out for a request padded to `nb` bytes.
pub record Fits (s : Space) (p nb sz : ℕ) : Type 0 where
  pub aligned : p % 8 ≡ 0
  pub within : p + nb + 32 < 2 ^ 32
  pub size : chunk_size s.mem p ≡ sz
  pub sized : sz % 8 ≡ 0
  pub least : 16 ≤ sz
  pub enough : nb ≤ sz
  pub tight : sz < nb + 16

module _ (s : Space) (p nb sz : ℕ) (f : Fits s p nb sz) where
  chunk_p : memory_to_chunk (p + 8) ≡ p
  chunk_p = omega (arith, f.within)

  aligned_p : is_aligned (p + 8) ≡ true
  aligned_p = (is_aligned_iff _).1 (omega (arith, f.aligned))

  sized_p : (bit_and sz alignment_mask == 0) ≡ true
  sized_p = ground (arith, bit_and_mask 3 sz, f.sized)

  least_p : leb min_chunk_size sz ≡ true
  least_p = ground (arith, f.least)

  enough_p : leb nb sz ≡ true
  enough_p = ground (arith, f.enough)

  tight_p : ltb sz ((nb + 16) % 2 ^ 32) ≡ true
  tight_p = ground (arith, f.tight, no_wrap)
    where
      no_wrap : (nb + 16) % 2 ^ 32 ≡ nb + 16
      no_wrap = omega (arith, f.within)

  not_null : (p + 8 != 0) ≡ true
  not_null = ground arith

  -- For an aligned chunk below the end of the address space whose size is a multiple of 8, at
  -- least 16, at least the request and less than the request and 16, all checks of
  -- `checkAllocedChunk` pass and the space is unchanged.
  pub check_alloced_passes : check_alloced_chunk (p + 8) nb s ≡ s
  unfolding check_alloced_chunk chunk_size
  check_alloced_passes =
      rw
        (
          chunk_p,
          f.size,
          not_null,
          assert_error_passes _ s aligned_p,
          assert_error_passes _ s sized_p,
          assert_error_passes _ s least_p,
          assert_error_passes _ s enough_p,
        )
        (assert_error_passes _ s tight_p)

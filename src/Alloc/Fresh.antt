-- ===== src/Alloc/Fresh.antt =====
-- `alloc` where no small bin holds a chunk and there is no designated victim.
use native.Mathlib.Nat.{zero-div}
use odin_memory_allocator.Base.{
  ℕ, ◌+◌, ◌%◌, ◌≡◌, ◌≤◌, ◌^◌, arith, true, false, some, ltb, leb, shr32, ap, ◌∙◌,
}
use odin_memory_allocator.SysAlloc.{VirtualMemory}
use odin_memory_allocator.Chunk.{max_request}
use odin_memory_allocator.Bins.{get_small_bin_index}
use odin_memory_allocator.Space.{Space}
use odin_memory_allocator.Alloc.{alloc, alloc_rest, chunk_request}
use odin_memory_allocator.Alloc.Top.{TopServes, cut, alloc_top_lem}

module _ (os : VirtualMemory) (s : Space) (bytes : ℕ) (request : bytes ≤ max_request)
    (no_bins : s.small_map ≡ 0) (no_victim : s.dv_size ≡ 0)
    (h : TopServes s (chunk_request bytes)) where
  abbrev nb : ℕ
  nb = chunk_request bytes

  no_smallbits : shr32 s.small_map (get_small_bin_index nb) ≡ 0
  no_smallbits =
      ap (λ w. shr32 w (get_small_bin_index nb)) no_bins
      ∙ zero-div (2 ^ (get_small_bin_index nb % 32))

  past_victim : leb nb s.dv_size ≡ false
  past_victim = ground (arith, no_victim, h.least)

  above_victim : ltb s.dv_size nb ≡ true
  above_victim = ground (arith, no_victim, h.least)

  below_top : ltb nb s.top_size ≡ true
  below_top = ground (arith, h.room)

  small_request : leb bytes max_request ≡ true
  small_request = ground (arith, request)

  -- For a request up to `kMaxRequest` in a space whose small bins hold nothing and that has no
  -- designated victim, where the top serves the padded request: `alloc` returns the memory at the
  -- start of the top and the space with the padded size cut off it, whatever the fuel and whatever
  -- the system would answer.
  pub alloc_cuts_top : (fuel : ℕ) → alloc os fuel bytes s ≡ some (s.top + 8, cut nb s)
  unfolding alloc alloc_rest
  alloc_cuts_top fuel =
      rw (no_smallbits, past_victim, above_victim, below_top, small_request, alloc_top_lem s nb h)

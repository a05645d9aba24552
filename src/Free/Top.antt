-- ===== src/Free/Top.antt =====
-- `free` of the chunk before the top: it joins the top.
use odin_memory_allocator.Base.{
  ℕ, ◌+◌, ◌%◌, ◌≤◌, ◌<◌, ◌^◌, ◌≡◌, ap, ◌∙◌, arith, true, false, ◌||◌, some, ltb, ◌==◌, ◌!=◌, add32,
}
use odin_memory_allocator.Chunk.{
  chunk_size, next_chunk, get_pinuse, get_cinuse, is_inuse, is_aligned, next_pinuse, previous_chunk,
  chunk_to_memory, memory_to_chunk,
}
use odin_memory_allocator.Chunk.Sizes.{is_aligned_iff}
use odin_memory_allocator.Chunk.Heads.{chunk_size_lem, get_pinuse_lem, get_cinuse_lem, is_inuse_lem}
use odin_memory_allocator.Space.{Space, assert_error_passes}
use odin_memory_allocator.Checks.{check_inuse_chunk}
use odin_memory_allocator.Free.{free, join_top}

-- The chunk at `p` of `nb` bytes is in use, as is what stands before it; behind it is the top.
pub record BeforeTop (s : Space) (p nb : ℕ) : Type 0 where
  pub aligned : p % 8 ≡ 0
  pub sized : nb % 8 ≡ 0
  pub some_bytes : 16 ≤ nb
  pub head : s.mem (p + 4) ≡ nb + 3
  pub behind : s.top ≡ p + nb
  pub top_head : s.mem (p + nb + 4) ≡ s.top_size + 1
  pub top_sized : s.top_size % 8 ≡ 0
  pub within : p + nb + s.top_size + 8 < 2 ^ 32
  pub pooled : nb ≤ s.segment_threshold
  pub least : s.least_addr ≤ p
  pub last : p ≤ s.least_addr + s.footprint
  pub segment : s.least_addr + s.footprint < 2 ^ 32

module _ (s : Space) (p nb : ℕ) (b : BeforeTop s p nb) where
  size_p : chunk_size s.mem p ≡ nb
  size_p = omega (arith, chunk_size_lem s.mem p (omega arith), b.head, b.sized, b.within)

  pinuse_p : get_pinuse s.mem p ≡ 1
  pinuse_p = omega (arith, get_pinuse_lem s.mem p, b.head, b.sized)

  inuse_p : is_inuse s.mem p ≡ true
  inuse_p = ground (arith, is_inuse_lem s.mem p, b.head, b.sized)

  no_wrap : (p + nb) % 2 ^ 32 ≡ p + nb
  no_wrap = omega (arith, b.within)

  pinuse_top : get_pinuse s.mem (p + nb) ≡ 1
  pinuse_top = omega (arith, get_pinuse_lem s.mem (p + nb), b.top_head, b.top_sized)

  cinuse_top : get_cinuse s.mem (p + nb) ≡ 0
  cinuse_top = omega (arith, get_cinuse_lem s.mem (p + nb), b.top_head, b.top_sized)

  next_p : next_chunk s.mem p ≡ p + nb
  unfolding next_chunk chunk_size
  next_p = ap (λ n. (p + n) % 2 ^ 32) size_p ∙ no_wrap

  next_pinuse_p : next_pinuse s.mem p ≡ 1
  unfolding next_pinuse get_pinuse
  next_pinuse_p = ap (get_pinuse s.mem) next_p ∙ pinuse_top

  aligned_p : is_aligned (chunk_to_memory p) ≡ true
  aligned_p = (is_aligned_iff _).1 (omega (arith, b.aligned, b.within))

  checked : check_inuse_chunk p s ≡ s
  unfolding check_inuse_chunk
  checked =
      rw
        (
          assert_error_passes _ s aligned_p,
          assert_error_passes _ s inuse_p,
          assert_error_passes _ s (ap (λ n. n != 0) next_pinuse_p),
        )
        (assert_error_passes _ s
          (ap (λ n. n != 0 || next_chunk s.mem (previous_chunk s.mem p) == p) pinuse_p))

  chunk_p : memory_to_chunk (p + 8) ≡ p
  chunk_p = omega (arith, b.within)

  not_null : (p + 8 != 0) ≡ true
  not_null = ground arith

  own :
      (ltb s.segment_threshold nb || (ltb p s.least_addr || ltb (add32 s.least_addr s.footprint) p))
      ≡ false
  own = ground (arith, b.pooled, b.least, b.last, segment)
    where
      segment : (s.least_addr + s.footprint) % 2 ^ 32 ≡ s.least_addr + s.footprint
      segment = omega (arith, b.segment)

  at_top : (p + nb == s.top) ≡ true
  at_top = ground (arith, b.behind)

  -- The branch that `free` takes.
  pub free_joins_top : (fuel : ℕ) → free fuel (p + 8) s ≡ some (join_top p nb s)
  unfolding free
  free_joins_top fuel = rw (
    chunk_p, checked, inuse_p, size_p, no_wrap, pinuse_p, pinuse_top, cinuse_top, not_null, own,
    at_top,
  )

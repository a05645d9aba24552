-- ===== src/Query/Readback.antt =====
-- What the program reads back from the headers that it wrote, the padded sizes of requests, and the
-- product that `calloc` asks for.
use native.Mathlib.Nat.{mul-le-mul, div-mul-le_self, mul_comm, mul-div_right, zero-mul}
use odin_memory_allocator.Base.{
  ℕ, dec_lt, ℕ_discrete, lt→ltb, subst, ◌+◌, ◌-◌, ◌*◌, ◌/◌, ◌%◌, ◌≤◌, ◌<◌, ◌^◌, ◌≡◌, ◌≢◌, ap, ◌∙◌,
  arith, true, false, ltb, ◌==◌, if◌then◌else◌, bit_and, bit_or, not32,
}
use odin_memory_allocator.Base.Bits.{
  bit_and_mask, bit_and-clear_low, bit_or-ge, bit_or-lt, bit_or_comm,
}
use odin_memory_allocator.Memory.{Memory, store}
use odin_memory_allocator.Chunk.{
  chunk_size, is_inuse, get_pinuse, next_pinuse, next_chunk, set_size_inuse_pinuse, max_request,
  chunk_overhead, min_chunk_size,
}
use odin_memory_allocator.Chunk.Sizes.{pad_request_bounds}
use odin_memory_allocator.Chunk.Heads.{
  chunk_size_lem, set_size_inuse_pinuse_lem, marked_inuse, is_inuse_lem, get_pinuse_lem,
}
use odin_memory_allocator.Alloc.{chunk_request}
use odin_memory_allocator.Query.{get_memory_space_addr, get_usable_size, calloc_request}

-- For every request up to `kMaxRequest` the padded size is a multiple of 8, at least the smallest
-- chunk, at least the request and the chunk overhead, and does not wrap.
pub chunk_request_bounds :
    (bytes : ℕ)
    → bytes ≤ max_request
    → (chunk_request bytes % 8 ≡ 0)
      × (min_chunk_size ≤ chunk_request bytes)
      × (bytes + chunk_overhead ≤ chunk_request bytes)
      × (chunk_request bytes < 2 ^ 32)
unfolding chunk_request
chunk_request_bounds bytes h = ground (arith, pad_request_bounds bytes h)

module _ (msp p size : ℕ) (m : Memory) (sized : size % 8 ≡ 0) (least : 16 ≤ size)
    (within : p + size + 8 < 2 ^ 32) where
  abbrev after : Memory
  after = set_size_inuse_pinuse msp p size m

  written : after ≡ marked_inuse msp p size m
  written =
      set_size_inuse_pinuse_lem msp p size m sized (omega (arith, least)) (omega (arith, within))

  head_p : after (p + 4) ≡ size + m (p + 4) % 2 + 2
  unfolding store
  head_p = ap (λ w. w (p + 4)) written ∙ ground (arith, least)

  head_next : after (p + size + 4) ≡ m (p + size + 4) / 2 * 2 + 1
  unfolding store
  head_next = ap (λ w. w (p + size + 4)) written ∙ ground (arith, least)

  foot : after (p + size) ≡ msp
  unfolding store
  foot = ap (λ w. w (p + size)) written ∙ ground (arith, least)

  size_p : chunk_size after p ≡ size
  size_p = omega (arith, chunk_size_lem after p (omega (arith, head_p, within)), head_p, sized)

  next_p : next_chunk after p ≡ p + size
  unfolding next_chunk chunk_size
  next_p = ap (λ n. (p + n) % 2 ^ 32) size_p ∙ omega (arith, within)

  back : (p + 8 + 2 ^ 32 - 8) % 2 ^ 32 ≡ p
  back = omega (arith, within)

  msp_p : get_memory_space_addr after (p + 8) ≡ msp
  unfolding get_memory_space_addr
  msp_p = rw (back, size_p) (ap after (omega (arith, within)) ∙ foot)

  usable_p : get_usable_size after (p + 8) ≡ size - 8
  unfolding get_usable_size is_inuse
  usable_p = rw (back, size_p, inuse_bits_p) (ground (arith, least))
    where
      inuse_bits_p : (bit_and (after (p + 4)) 3 == 1) ≡ false
      inuse_bits_p = ground (arith, bit_and_mask 2 (after (p + 4)), head_p, sized)

  next_pinuse_p : next_pinuse after p ≡ 1
  unfolding next_pinuse get_pinuse
  next_pinuse_p =
      ap (get_pinuse after) next_p ∙ omega (arith, get_pinuse_lem after (p + size), head_next)

  -- After `setSizeInusePinuse` of an aligned size of at least 16 bytes within the address space,
  -- the program reads back that size, that the chunk is in use, the `pinuse` bit it had before,
  -- the `pinuse` bit of the next chunk set, the address of the memory space from the footer, and a
  -- usable size that is less by the chunk overhead.
  pub set_size_inuse_pinuse_reads_back :
      (chunk_size after p ≡ size)
      × (is_inuse after p ≡ true)
      × (get_pinuse after p ≡ get_pinuse m p)
      × (next_pinuse after p ≡ 1)
      × (get_memory_space_addr after (p + 8) ≡ msp)
      × (get_usable_size after (p + 8) ≡ size - chunk_overhead)
  set_size_inuse_pinuse_reads_back = (
    size_p,
    ground (arith, is_inuse_lem after p, head_p, sized),
    omega (arith, get_pinuse_lem after p, get_pinuse_lem m p, head_p, sized),
    next_pinuse_p,
    msp_p,
    usable_p,
  )

small_product : (n k : ℕ) → n ≤ 65535 → k ≤ 65535 → n * k ≤ 65535 * 65535
small_product n k hn hk = mul-le-mul hn hk

high_bits :
    (n k : ℕ)
    → n < 2 ^ 32
    → k < 2 ^ 32
    → 2 ^ 32 ≤ n * k
    → (bit_and (bit_or n k) (not32 0xffff) == 0) ≡ false
high_bits n k hn hk h =
    ground (arith, bit_and-clear_low 16 16 (bit_or n k) (bit_or-lt 32 n k hn hk), large)
  where
    large : 2 ^ 16 ≤ bit_or n k
    large = elim (dec_lt n (2 ^ 16)) [
      | yes small ↦ omega (arith, bit_or-ge k n, bit_or_comm n k, k_large small)
      | no n_large ↦ omega (arith, bit_or-ge n k)
    ]
      where
        k_large : n < 2 ^ 16 → 2 ^ 16 ≤ k
        k_large small = elim (dec_lt k (2 ^ 16)) [
          | yes both ↦
              absurd
                (omega (arith, h, small_product n k (omega (arith, small)) (omega (arith, both))))
          | no large_k ↦ omega arith
        ]

wraps : (n k : ℕ) → 0 < n → 2 ^ 32 ≤ n * k → (n * k % 2 ^ 32 / n == k) ≡ false
wraps n k pos h = ground (arith, h, div-mul-le_self (n * k % 2 ^ 32) n, mul_comm n k, differs)
  where
    differs : n * k % 2 ^ 32 / n ≢ k
    differs e = omega (
      arith,
      h,
      subst (λ q. q * n ≤ n * k % 2 ^ 32) e (div-mul-le_self (n * k % 2 ^ 32) n),
      mul_comm n k,
    )

-- For any two words, `calloc` asks for their product if it fits a word, and for `kMaxRequest`
-- otherwise.
calloc_request_saturates :
    (n k : ℕ)
    → n < 2 ^ 32
    → k < 2 ^ 32
    → calloc_request n k ≡ (if ltb (n * k) (2 ^ 32) then n * k else max_request)
unfolding calloc_request
calloc_request_saturates n k hn hk = elim (ℕ_discrete n 0) [
  | yes e ↦ rw e (empty k)
  | no pos ↦ elim (dec_lt (n * k) (2 ^ 32)) [
    | yes fits ↦ rw (lt→ltb (n * k) (2 ^ 32) fits) (ground (arith, fits, exact pos, kept fits))
    | no over ↦ ground (
      arith,
      over,
      wraps n k (omega (arith, pos)) (omega (arith, over)),
      high_bits n k hn hk (omega (arith, over)),
    )
  ]
]
  where
    empty : (k : ℕ) → 0 ≡ (if ltb (0 * k) (2 ^ 32) then 0 * k else max_request)
    empty k = ground (arith, zero-mul k)

    kept : n * k < 2 ^ 32 → n * k % 2 ^ 32 ≡ n * k
    kept h = omega (arith, h)

    exact : n ≢ 0 → n * k / n ≡ k
    exact pos = mul-div_right k (omega (arith, pos))

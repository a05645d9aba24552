-- ===== src/AllocAligned/Position.antt =====
-- The place of the aligned chunk inside the one that was allocated.
use native.Mathlib.Nat.{
  div-mul-le_self, mul_comm, div-add-mod', mod-lt, mul-mod_left, mul-sub, pow-suc, add-zero,
  add-suc,
}
use odin_memory_allocator.Base.{
  ℕ, zero, suc, ◌+◌, ◌-◌, ◌*◌, ◌/◌, ◌%◌, ◌≤◌, ◌<◌, ◌^◌, ◌≡◌, ap, ◌∙◌, arith, Bool-cases, inl, inr,
  leb, leb→le, false, sub32, add32, neg32, bit_and,
}
use odin_memory_allocator.Base.Bits.{bit_and-clear_low, mul-two-pow-suc}
use odin_memory_allocator.AllocAligned.{aligned_position}

two_pow_add : (w k : ℕ) → 2 ^ w * 2 ^ k ≡ 2 ^ (w + k)
two_pow_add w zero = omega (arith, ap (λ n. 2 ^ n) (add-zero w))
two_pow_add w (suc k) = omega (arith, mul-two-pow-suc (2 ^ w) k, two_pow_add w k, exponent)
  where
    exponent : 2 ^ (w + suc k) ≡ 2 ^ (w + k) * 2
    exponent = ap (λ n. 2 ^ n) (add-suc w k) ∙ pow-suc 2 (w + k)

module _ (ptr offset k w : ℕ) (word : w + k ≡ 32) (least : 16 ≤ 2 ^ k)
    (within : ptr + 8 + offset + 2 ^ k + 2 ^ k < 2 ^ 32) where
  abbrev raised : ℕ
  raised = ptr + 8 + offset + 2 ^ k - 1

  -- The least multiple of the alignment at or behind the memory and its offset.
  abbrev spot : ℕ
  spot = raised / 2 ^ k * 2 ^ k

  spot_low : spot ≤ raised
  spot_low = div-mul-le_self raised (2 ^ k)

  spot_high : ptr + 8 + offset ≤ spot
  spot_high = omega (arith, div-add-mod' raised (2 ^ k), mod-lt raised (positive), least)
    where
      positive : 0 < 2 ^ k
      positive = omega (arith, least)

  masked : bit_and raised (neg32 (2 ^ k)) ≡ spot
  masked =
      ap (bit_and raised) mask
      ∙ bit_and-clear_low k w raised (omega (arith, word_product, within, least))
    where
      word_product : 2 ^ w * 2 ^ k ≡ 2 ^ 32
      word_product = two_pow_add w k ∙ ap (λ n. 2 ^ n) word

      mask : neg32 (2 ^ k) ≡ (2 ^ w - 1) * 2 ^ k
      mask = omega (
        arith,
        word_product,
        mul-sub (2 ^ k) (2 ^ w) 1,
        mul_comm (2 ^ k) (2 ^ w),
        mul_comm (2 ^ k) (2 ^ w - 1),
        least,
        within,
      )

  raised_word : sub32 (add32 (add32 ((ptr + 8) % 2 ^ 32) offset) (2 ^ k)) 1 ≡ raised
  raised_word = omega (arith, within, least)

  -- Taken back by the chunk overhead and the offset.
  behind : sub32 (sub32 spot 8) offset ≡ spot - 8 - offset
  behind = omega (arith, spot_low, spot_high, within)

  ahead : sub32 (add32 (sub32 spot 8) (2 ^ k)) offset ≡ spot + 2 ^ k - 8 - offset
  ahead = omega (arith, spot_low, spot_high, within)

  lead : sub32 (spot - 8 - offset) ptr ≡ spot - 8 - offset - ptr
  lead = omega (arith, spot_low, spot_high, within)

  aligned0 : (spot - 8 - offset + 8 + offset) % 2 ^ k ≡ 0
  aligned0 = ap (λ n. n % 2 ^ k) place ∙ mul-mod_left (raised / 2 ^ k) (2 ^ k)
    where
      place : spot - 8 - offset + 8 + offset ≡ spot
      place = omega (arith, spot_high)

  aligned1 : (spot + 2 ^ k - 8 - offset + 8 + offset) % 2 ^ k ≡ 0
  aligned1 = ap (λ n. n % 2 ^ k) place ∙ mul-mod_left (raised / 2 ^ k + 1) (2 ^ k)
    where
      place : spot + 2 ^ k - 8 - offset + 8 + offset ≡ (raised / 2 ^ k + 1) * 2 ^ k
      place = omega (arith, spot_high)

  -- For an alignment `2 ^ k` of at least 16 and an offset for which nothing wraps, the chunk that
  -- `allocAligned` places inside a misaligned one leaves a leading chunk of at least 16 bytes,
  -- starts less than 16 bytes and one alignment behind the chunk that was allocated, and has the
  -- address `offset` bytes behind the start of its memory on a multiple of the alignment.
  pub aligned_position_fits :
      let pos = aligned_position ptr (2 ^ k) offset in
      ((pos + 8 + offset) % 2 ^ k ≡ 0) × (ptr + 16 ≤ pos) × (pos < ptr + 16 + 2 ^ k)
  unfolding aligned_position
  aligned_position_fits =
      rw (raised_word, masked, behind, ahead, lead)
        (elim (Bool-cases (leb 16 (spot - 8 - offset - ptr))) [
          | inl e ↦ rw e (
            aligned0,
            omega (arith, leb→le 16 (spot - 8 - offset - ptr) e),
            omega (arith, spot_low),
          )
          | inr e ↦
              rw e (aligned1, omega (arith, spot_high, least), omega (arith, spot_low, short e))
        ])
    where
      short : leb 16 (spot - 8 - offset - ptr) ≡ false → spot - 8 - offset - ptr < 16
      short e = ground arith

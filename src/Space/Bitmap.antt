-- ===== src/Space/Bitmap.antt =====
-- The bin maps, digit by digit: marking sets one digit, clearing resets one, and the test reads it.
use native.Mathlib.Nat.{pow-le-pow_right, one-le-pow}
use odin_memory_allocator.Base.{
  ℕ, ◌<◌, ◌^◌, ◌%◌, ◌≡◌, sym, ap, subst, arith, ◌==◌, ◌!=◌, if◌then◌else◌, bit_and, bit_or, not32,
  ℕ_discrete,
}
use odin_memory_allocator.Base.Bits.{
  test_bit, test_bit-le, test_bit-bit_and, test_bit-bit_or, test_bit-two_pow_self,
  test_bit-two_pow_ne, test_bit-complement, bit_and-bit,
}
use odin_memory_allocator.Bins.{index_to_bit}
use odin_memory_allocator.Space.{
  Space, mark_small_map, clear_small_map, is_small_map_marked, mark_tree_map, clear_tree_map,
  is_tree_map_marked,
}

two_pow-lt : (i : ℕ) → i < 32 → 2 ^ i < 2 ^ 32
two_pow-lt i h =
    omega (arith, pow-le-pow_right {n = 2} (omega arith) {i = i} {j = 31} (omega arith))

pub index_to_bit_lem : (i : ℕ) → i < 32 → index_to_bit i ≡ 2 ^ i
unfolding index_to_bit
index_to_bit_lem i h = ground (arith, two_pow-lt i h, small_count)
  where
    small_count : i % 32 ≡ i
    small_count = omega arith

digit_of_two_pow : (j i : ℕ) → test_bit j (2 ^ i) ≡ (if j == i then 1 else 0)
digit_of_two_pow j i = elim (ℕ_discrete j i) [
  | yes e ↦
      subst (λ k. test_bit k (2 ^ i) ≡ (if k == i then 1 else 0)) (sym e)
        (ground (arith, test_bit-two_pow_self i))
  | no ne ↦ ground (arith, test_bit-two_pow_ne j i (λ e. ne (sym e)))
]

module _ (w i : ℕ) (h : i < 32) where
  mark_digit :
      (j : ℕ) → test_bit j (bit_or w (index_to_bit i)) ≡ (if j == i then 1 else test_bit j w)
  mark_digit j = ground (
    arith,
    index_to_bit_lem i h,
    test_bit-bit_or j w (index_to_bit i),
    ap (test_bit j) (index_to_bit_lem i h),
    digit_of_two_pow j i,
    test_bit-le j w,
  )

  clear_digit :
      (j : ℕ)
      → j < 32
      → test_bit j (bit_and w (not32 (index_to_bit i))) ≡ (if j == i then 0 else test_bit j w)
  clear_digit j lt = ground (
    arith,
    test_bit-bit_and j w (not32 (index_to_bit i)),
    ap (λ b. test_bit j (not32 b)) (index_to_bit_lem i h),
    test_bit-complement 32 j (2 ^ i) lt (two_pow-lt i h),
    digit_of_two_pow j i,
    test_bit-le j w,
  )

  digit_marked : (bit_and w (index_to_bit i) != 0) ≡ (test_bit i w == 1)
  digit_marked = ground (
    arith,
    ap (bit_and w) (index_to_bit_lem i h),
    bit_and-bit i w,
    one-le-pow i 2,
    test_bit-le i w,
  )

-- Marking a bin in the small map sets its digit and no other.
pub test_bit-mark_small_map :
    (s : Space) (i j : ℕ)
    → i < 32
    → test_bit j (mark_small_map i s).small_map ≡ (if j == i then 1 else test_bit j s.small_map)
unfolding mark_small_map
test_bit-mark_small_map s i j h = mark_digit s.small_map i h j

pub test_bit-clear_small_map :
    (s : Space) (i j : ℕ)
    → i < 32
    → j < 32
    → test_bit j (clear_small_map i s).small_map ≡ (if j == i then 0 else test_bit j s.small_map)
unfolding clear_small_map
test_bit-clear_small_map s i j h lt = clear_digit s.small_map i h j lt

pub is_small_map_marked_lem :
    (s : Space) (i : ℕ) → i < 32 → is_small_map_marked s i ≡ (test_bit i s.small_map == 1)
unfolding is_small_map_marked
is_small_map_marked_lem s i h = digit_marked s.small_map i h

pub test_bit-mark_tree_map :
    (s : Space) (i j : ℕ)
    → i < 32
    → test_bit j (mark_tree_map i s).tree_map ≡ (if j == i then 1 else test_bit j s.tree_map)
unfolding mark_tree_map
test_bit-mark_tree_map s i j h = mark_digit s.tree_map i h j

pub test_bit-clear_tree_map :
    (s : Space) (i j : ℕ)
    → i < 32
    → j < 32
    → test_bit j (clear_tree_map i s).tree_map ≡ (if j == i then 0 else test_bit j s.tree_map)
unfolding clear_tree_map
test_bit-clear_tree_map s i j h lt = clear_digit s.tree_map i h j lt

pub is_tree_map_marked_lem :
    (s : Space) (i : ℕ) → i < 32 → is_tree_map_marked s i ≡ (test_bit i s.tree_map == 1)
unfolding is_tree_map_marked
is_tree_map_marked_lem s i h = digit_marked s.tree_map i h

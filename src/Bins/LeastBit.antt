-- ===== src/Bins/LeastBit.antt =====
-- `x & -x` and `computeBitToIndex`: the least bin that a map names.
use native.Mathlib.Nat.{pow-suc}
use odin_memory_allocator.Base.{
  ℕ, zero, suc, ◌-◌, ◌/◌, ◌%◌, ◌<◌, ◌^◌, ◌≡◌, refl, ap, ◌∙◌, arith, true, false, inl, inr,
  Bool-cases, ◌==◌, ==_iff, neg32, bit_and,
}
use odin_memory_allocator.Base.Bits.{test_bit}
use odin_memory_allocator.Base.Bits.Step.{bit_and_step}
use odin_memory_allocator.Bins.{bit_scan_forward, scan_forward, compute_bit_to_index}
use odin_memory_allocator.Bins.Scan.{bit_scan_forward_lowest}
use odin_memory_allocator.Bins.TreeIndex.{passes_to, passes_at}

-- A number and its complement within `k` digits share no digit.
complement_apart : (k x : ℕ) → x < 2 ^ k → bit_and x (2 ^ k - 1 - x) ≡ 0
complement_apart zero x h = ap (λ y. bit_and y (0 - y)) zero_x
  where
    zero_x : x ≡ 0
    zero_x = omega (arith, h)
complement_apart (suc k) x h = omega (
  arith,
  h,
  pow-suc 2 k,
  bit_and_step x (2 ^ suc k - 1 - x),
  halves,
  complement_apart k (x / 2) (omega (arith, h, pow-suc 2 k)),
)
  where
    halves : bit_and (x / 2) ((2 ^ suc k - 1 - x) / 2) ≡ bit_and (x / 2) (2 ^ k - 1 - x / 2)
    halves = ap (bit_and (x / 2)) (omega (arith, h, pow-suc 2 k))

least_digit : (k x : ℕ) → 0 < x → x < 2 ^ k → bit_and x (2 ^ k - x) ≡ 2 ^ scan_forward k x
unfolding scan_forward
least_digit zero x pos h = absurd (omega (arith, pos, h))
least_digit (suc k) x pos h = elim (Bool-cases (x % 2 == 1)) [
  | inl e ↦ rw e (
      omega (
        arith,
        pow-suc 2 k,
        (==_iff (x % 2) 1).0 e,
        bit_and_step x (2 ^ suc k - x),
        ap (bit_and (x / 2)) (odd_half ((==_iff (x % 2) 1).0 e)),
        complement_apart k (x / 2) (omega (arith, h, pow-suc 2 k)),
      ))
  | inr e ↦ rw e (
      omega (
        arith,
        pow-suc 2 k,
        even e,
        bit_and_step x (2 ^ suc k - x),
        ap (bit_and (x / 2)) (even_half (even e)),
        least_digit k (x / 2) (omega (arith, pos, even e)) (omega (arith, h, pow-suc 2 k)),
        pow-suc 2 (scan_forward k (x / 2)),
      ))
]
  where
    even : (x % 2 == 1) ≡ false → x % 2 ≡ 0
    even e = ground arith

    odd_half : x % 2 ≡ 1 → (2 ^ suc k - x) / 2 ≡ 2 ^ k - 1 - x / 2
    odd_half e = omega (arith, e, h, pow-suc 2 k)

    even_half : x % 2 ≡ 0 → (2 ^ suc k - x) / 2 ≡ 2 ^ k - x / 2
    even_half e = omega (arith, e, h, pow-suc 2 k)

power_table : passes_to (λ i. bit_scan_forward (2 ^ i) == i) 32 ≡ true
unfolding passes_to bit_scan_forward
power_table = refl

power_place : (i : ℕ) → i < 32 → bit_scan_forward (2 ^ i) ≡ i
power_place i h = (==_iff _ _).0 (passes_at (λ j. bit_scan_forward (2 ^ j) == j) i 32 h power_table)

isolated : (x : ℕ) → 0 < x → x < 2 ^ 32 → bit_and x (neg32 x) ≡ 2 ^ bit_scan_forward x
unfolding bit_scan_forward
isolated x pos h = ap (bit_and x) (omega (arith, pos, h)) ∙ least_digit 32 x pos h

-- For a map other than 0 that is a word, `computeBitToIndex` of `map & -map` gives a place below
-- 32 whose digit is set in the map while all lower digits are not.
pub compute_bit_to_index_least :
    (map : ℕ)
    → 0 < map
    → map < 2 ^ 32
    → let i = compute_bit_to_index (bit_and map (neg32 map)) in
      (i < 32) × (test_bit i map ≡ 1) × ((j : ℕ) → j < i → test_bit j map ≡ 0)
unfolding compute_bit_to_index
compute_bit_to_index_least map pos h =
    let (set, small, below) = bit_scan_forward_lowest map pos h in
    rw (isolated map pos h, power_place (bit_scan_forward map) small) (small, set, below)

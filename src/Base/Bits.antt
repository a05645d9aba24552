-- ===== src/Base/Bits.antt =====
-- The masks of the program as arithmetic: low bits, cleared low bits, one bit set, cleared, read.
pub mod Step
use Step.{bit_or_step, bit_and_step}
use Prim.Native.Nat.{
  ℕ, zero, suc, ◌+◌, ◌-◌, ◌*◌, ◌/◌, ◌%◌, ◌^◌, ◌≤◌, ◌<◌, bit_and, bit_or, min, max,
}
use mathlib.Core.Path.{◌≡◌, refl, sym, ap, ◌∙◌}
use mathlib.Core.Logic.{◌≢◌}
use native.Mathlib.Nat.{pow-suc, one-le-pow, pow-le-pow_right}
use native.Mathlib.Omega.{arith}

pub mul-two-pow-suc : (high k : ℕ) → high * 2 ^ suc k ≡ 2 * (high * 2 ^ k)
mul-two-pow-suc high k = omega (arith, ap (λ power. high * power) (pow-suc 2 k))

lt-two-pow : (x : ℕ) → x < 2 ^ x
lt-two-pow zero = omega arith
lt-two-pow (suc x) = omega (arith, lt-two-pow x, pow-suc 2 x)

-- By the number of digits.
bit_or-zero_below : (k x : ℕ) → x < 2 ^ k → bit_or x 0 ≡ x
bit_or-zero_below zero x small = ap (λ y. bit_or y 0) (zero_of x small) ∙ sym (zero_of x small)
  where
    zero_of : (y : ℕ) → y < 1 → y ≡ 0
    zero_of y h = omega arith
bit_or-zero_below (suc k) x small =
    omega (arith, bit_or-zero_below k (x / 2) (omega (arith, small, pow-suc 2 k)), bit_or_step x 0)

pub bit_or-zero : (x : ℕ) → bit_or x 0 ≡ x
bit_or-zero x = bit_or-zero_below x x (lt-two-pow x)

bit_and-zero_below : (k x : ℕ) → x < 2 ^ k → bit_and x 0 ≡ 0
bit_and-zero_below zero x small = ap (λ y. bit_and y 0) (zero_of x small)
  where
    zero_of : (y : ℕ) → y < 1 → y ≡ 0
    zero_of y h = omega arith
bit_and-zero_below (suc k) x small =
    omega
      (arith, bit_and-zero_below k (x / 2) (omega (arith, small, pow-suc 2 k)), bit_and_step x 0)

pub bit_and-zero : (x : ℕ) → bit_and x 0 ≡ 0
bit_and-zero x = bit_and-zero_below x x (lt-two-pow x)

-- `x | low` is a sum where `x` has no digit below `k` and `low` fits `k` digits.
pub bit_or_fields : (k high low : ℕ) → low < 2 ^ k → bit_or (high * 2 ^ k) low ≡ high * 2 ^ k + low
bit_or_fields zero high low small = ground (arith, bit_or-zero high)
bit_or_fields (suc k) high low small = ground (
  arith,
  mul-two-pow-suc high k,
  bit_or_fields k high (low / 2),
  bit_or_step (high * 2 ^ suc k) low,
)

pub bit_or-one : (x : ℕ) → bit_or x 1 ≡ x / 2 * 2 + 1
bit_or-one x = omega (arith, bit_or_step x 1, bit_or-zero (x / 2))

pub bit_or-two : (x : ℕ) → x / 2 % 2 ≡ 0 → bit_or x 2 ≡ x + 2
bit_or-two x h = omega (arith, bit_or_step x 2, bit_or-one (x / 2))

bit_or_comm_fuel : (n a b : ℕ) → a ≤ n → b ≤ n → bit_or a b ≡ bit_or b a
bit_or_comm_fuel zero a b p q = rw (zero_of_le a p, zero_of_le b q)
  where
    zero_of_le : (k : ℕ) → k ≤ 0 → k ≡ 0
    zero_of_le k h = omega arith
bit_or_comm_fuel (suc n) a b p q = omega (
  arith,
  bit_or_step a b,
  bit_or_step b a,
  bit_or_comm_fuel n (a / 2) (b / 2) (omega arith) (omega arith),
)

pub bit_or_comm : (a b : ℕ) → bit_or a b ≡ bit_or b a
bit_or_comm a b = bit_or_comm_fuel (a + b) a b (omega arith) (omega arith)

bit_or-ge_fuel : (n a b : ℕ) → a ≤ n → a ≤ bit_or a b
bit_or-ge_fuel zero a b h = omega arith
bit_or-ge_fuel (suc n) zero b h = omega arith
bit_or-ge_fuel (suc n) (suc a) b h =
    omega (arith, bit_or_step (suc a) b, bit_or-ge_fuel n (suc a / 2) (b / 2) (omega arith))

pub bit_or-ge : (a b : ℕ) → a ≤ bit_or a b
bit_or-ge a b = bit_or-ge_fuel a a b (omega arith)

-- Words of `k` digits give a word of `k` digits.
pub bit_or-lt : (k a b : ℕ) → a < 2 ^ k → b < 2 ^ k → bit_or a b < 2 ^ k
bit_or-lt zero a b ha hb = rw (zero_of a ha, zero_of b hb) (omega arith)
  where
    zero_of : (x : ℕ) → x < 2 ^ 0 → x ≡ 0
    zero_of x h = omega arith
bit_or-lt (suc k) a b ha hb = omega (
  arith,
  pow-suc 2 k,
  bit_or_step a b,
  bit_or-lt k (a / 2) (b / 2) (omega (arith, ha, pow-suc 2 k)) (omega (arith, hb, pow-suc 2 k)),
)

and_fields : (k high low : ℕ) → low < 2 ^ k → bit_and (high * 2 ^ k + low) (2 ^ k - 1) ≡ low
and_fields zero high low small = rw bit_and-zero (omega arith)
and_fields (suc k) high low small = ground (
  arith,
  pow-suc 2 k,
  mul-two-pow-suc high k,
  and_fields k high (low / 2) (omega arith),
  bit_and_step (high * 2 ^ suc k + low) (2 ^ suc k - 1),
)

-- With a mask of `k` low digits, `&` is the remainder by `2 ^ k`.
pub bit_and_mask : (k x : ℕ) → bit_and x (2 ^ k - 1) ≡ x % 2 ^ k
bit_and_mask k x = ground (arith, and_fields k (x / 2 ^ k) (x % 2 ^ k), one-le-pow k 2)

div-lt : (k n a : ℕ) → a < n * 2 ^ k → a / 2 ^ k < n
div-lt k n a h = grind (arith, one-le-pow k 2)

clear_fields :
    (k w q r : ℕ)
    → r < 2 ^ k
    → q < 2 ^ w
    → bit_and (q * 2 ^ k + r) ((2 ^ w - 1) * 2 ^ k) ≡ q * 2 ^ k
clear_fields zero w q r fits small = ground (arith, and_fields w 0 q)
clear_fields (suc k) w q r fits small = ground (
  arith,
  bit_and_step (q * 2 ^ suc k + r) ((2 ^ w - 1) * 2 ^ suc k),
  mul-two-pow-suc q k,
  mul-two-pow-suc (2 ^ w - 1) k,
  pow-suc 2 k,
  clear_fields k w q (r / 2) (omega arith),
)

-- Clearing the `k` low digits of a number of `k + w` digits.
pub bit_and-clear_low :
    (k w a : ℕ) → a < 2 ^ w * 2 ^ k → bit_and a ((2 ^ w - 1) * 2 ^ k) ≡ a / 2 ^ k * 2 ^ k
bit_and-clear_low k w a small =
    ground (arith, one-le-pow k 2, clear_fields k w (a / 2 ^ k) (a % 2 ^ k), div-lt k (2 ^ w) a)

-- The digit of `a` at place `i`.
abbrev pub test_bit : ℕ → ℕ → ℕ
test_bit zero a = a % 2
test_bit (suc i) a = test_bit i (a / 2)

pub test_bit-le : (i a : ℕ) → test_bit i a ≤ 1
test_bit-le zero a = omega arith
test_bit-le (suc i) a = test_bit-le i (a / 2)

-- `a & (1 << i)` is the digit, in place.
pub bit_and-bit : (i a : ℕ) → bit_and a (2 ^ i) ≡ test_bit i a * 2 ^ i
bit_and-bit zero a = omega (arith, bit_and_step a 1, bit_and-zero (a / 2))
bit_and-bit (suc i) a = ground (
  arith,
  bit_and_step a (2 ^ suc i),
  pow-suc 2 i,
  bit_and-bit i (a / 2),
  mul-two-pow-suc (test_bit i (a / 2)) i,
)

pub test_bit-bit_and : (i a b : ℕ) → test_bit i (bit_and a b) ≡ min (test_bit i a) (test_bit i b)
test_bit-bit_and zero a b = omega (arith, bit_and_step a b)
test_bit-bit_and (suc i) a b = ap (test_bit i) halved ∙ test_bit-bit_and i (a / 2) (b / 2)
  where
    halved : bit_and a b / 2 ≡ bit_and (a / 2) (b / 2)
    halved = omega (arith, bit_and_step a b)

pub test_bit-bit_or : (i a b : ℕ) → test_bit i (bit_or a b) ≡ max (test_bit i a) (test_bit i b)
test_bit-bit_or zero a b = omega (arith, bit_or_step a b)
test_bit-bit_or (suc i) a b = ap (test_bit i) halved ∙ test_bit-bit_or i (a / 2) (b / 2)
  where
    halved : bit_or a b / 2 ≡ bit_or (a / 2) (b / 2)
    halved = omega (arith, bit_or_step a b)

pub test_bit-zero : (i : ℕ) → test_bit i 0 ≡ 0
test_bit-zero zero = refl
test_bit-zero (suc i) = test_bit-zero i

-- A number below `2 ^ k` has no digit from place `k` on.
pub test_bit_above : (k j a : ℕ) → a < 2 ^ k → k ≤ j → test_bit j a ≡ 0
test_bit_above zero j a small h = rw (zero_of_lt_one a small) (test_bit-zero j)
  where
    zero_of_lt_one : (n : ℕ) → n < 1 → n ≡ 0
    zero_of_lt_one n p = omega arith
test_bit_above (suc k) zero a small h = absurd (omega arith)
test_bit_above (suc k) (suc j) a small h =
    test_bit_above k j (a / 2) (omega (arith, pow-suc 2 k)) (omega arith)

pub test_bit-two_pow_self : (i : ℕ) → test_bit i (2 ^ i) ≡ 1
test_bit-two_pow_self zero = refl
test_bit-two_pow_self (suc i) =
    ap (test_bit i) (omega (arith, pow-suc 2 i)) ∙ test_bit-two_pow_self i

pub test_bit-two_pow_ne : (j i : ℕ) → i ≢ j → test_bit j (2 ^ i) ≡ 0
test_bit-two_pow_ne zero zero ne = absurd (ne refl)
test_bit-two_pow_ne zero (suc i) ne = omega (arith, pow-suc 2 i)
test_bit-two_pow_ne (suc j) zero ne = test_bit-zero j
test_bit-two_pow_ne (suc j) (suc i) ne =
    ap (test_bit j) (omega (arith, pow-suc 2 i)) ∙ test_bit-two_pow_ne j i (λ e. ne (ap suc e))

-- The complement within `w` digits.
pub test_bit-complement :
    (w j a : ℕ) → j < w → a < 2 ^ w → test_bit j (2 ^ w - 1 - a) ≡ 1 - test_bit j a
test_bit-complement zero j a h small = absurd (omega arith)
test_bit-complement (suc w) zero a h small = omega (arith, pow-suc 2 w)
test_bit-complement (suc w) (suc j) a h small =
    ap (test_bit j) (omega (arith, pow-suc 2 w))
    ∙ test_bit-complement w j (a / 2) (omega arith) (omega (arith, pow-suc 2 w))

-- ===== src/Base/Bits/Step.antt =====
-- One equation for the lowest binary digit of `&` and `|`, from the digit recursion that the
-- native operations stand for.
use Prim.Native.Nat.{
  ℕ, zero, suc, ◌+◌, ◌*◌, ◌/◌, ◌%◌, ◌≤◌, min, max, bit_and, bit_or, digits, bitwise,
  bit_and-bitwise, bit_or-bitwise,
}
use mathlib.Core.Path.{◌≡◌, refl, sym, ap, ◌∙◌}
use native.Mathlib.Omega.{arith}

-- The recursion gives one value at every fuel that is no smaller than the first number.
module _ (left : ℕ → ℕ) (digit : ℕ → ℕ → ℕ) where
  at_zero : (fuel y : ℕ) → digits left digit fuel zero y ≡ digits left digit zero zero y
  at_zero zero y = refl
  at_zero (suc fuel) y = refl

  digits-enough : (x y k j : ℕ) → x ≤ j → x ≤ k → digits left digit k x y ≡ digits left digit j x y
  digits-enough zero y k j hj hk = at_zero k y ∙ sym (at_zero j y)
  digits-enough (suc x) y zero j hj hk = absurd (omega (arith, hk))
  digits-enough (suc x) y (suc k) zero hj hk = absurd (omega (arith, hj))
  digits-enough (suc x) y (suc k) (suc j) hj hk =
      ap (λ rest. rest * 2 + digit (suc x % 2) (y % 2))
        (digits-enough (suc x / 2) (y / 2) k j (omega (arith, hj)) (omega (arith, hk)))

  bitwise-halves :
      (x y : ℕ)
      → bitwise left digit (suc x) y
        ≡ bitwise left digit (suc x / 2) (y / 2) * 2 + digit (suc x % 2) (y % 2)
  bitwise-halves x y =
      ap (λ rest. rest * 2 + digit (suc x % 2) (y % 2))
        (digits-enough (suc x / 2) (y / 2) x (suc x / 2) (omega arith) (omega arith))

pub bit_and_step : (x y : ℕ) → bit_and x y ≡ bit_and (x / 2) (y / 2) * 2 + min (x % 2) (y % 2)
bit_and_step zero y = simp bit_and-bitwise (omega arith)
bit_and_step (suc x) y = simp bit_and-bitwise (bitwise-halves (λ n. 0) min x y)

pub bit_or_step : (x y : ℕ) → bit_or x y ≡ bit_or (x / 2) (y / 2) * 2 + max (x % 2) (y % 2)
bit_or_step zero y = simp bit_or-bitwise (omega arith)
bit_or_step (suc x) y = simp bit_or-bitwise (bitwise-halves (λ n. n) max x y)

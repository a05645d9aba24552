-- ===== src/Bins/TreeIndex.antt =====
-- `computeTreeIndex` and `minsizeForTreeIndex` agree: each tree bin holds an interval of sizes.
use native.Mathlib.Nat.{pow-suc, pow-le-pow_right}
use native.Mathlib.Numerals.{towards_suc}
use mathlib.Core.Path.{ap₂}
use odin_memory_allocator.Base.{
  ℕ, zero, suc, ◌+◌, ◌*◌, ◌/◌, ◌%◌, ◌≤◌, ◌<◌, ◌^◌, ◌≡◌, ◌⊎◌, Bool, true, arith, refl, ◌==◌, ==_iff,
  ◌&&◌, ◌∙◌, dec_lt, inl, inr,
}
use odin_memory_allocator.Base.Bits.{bit_and_mask}
use odin_memory_allocator.Bins.{compute_tree_index, minsize_for_tree_index, bit_scan_reverse}
use odin_memory_allocator.Bins.Scan.{bit_scan_reverse_bounds}

-- Whether a test passes for each of the bins below `bound`.
unfoldable pub passes_to : (ℕ → Bool) → (bound : ℕ) → Bool
passes_to test zero = true
passes_to test (suc bound) = passes_to test bound && test bound

pub passes_at :
    (test : ℕ → Bool) (i bound : ℕ) → i < bound → passes_to test bound ≡ true → test i ≡ true
unfolding passes_to
passes_at test i zero h all = absurd (omega (arith, h))
passes_at test i (suc bound) h all = ground (arith, h, all, passes_at test i bound)

minsize_table : passes_to (λ i. minsize_for_tree_index i == (2 + i % 2) * 2 ^ (i / 2 + 7)) 32 ≡ true
unfolding passes_to minsize_for_tree_index
minsize_table = refl

pub minsize_lem : (i : ℕ) → i < 32 → minsize_for_tree_index i ≡ (2 + i % 2) * 2 ^ (i / 2 + 7)
minsize_lem i h = (==_iff _ _).0 (
    passes_at (λ j. minsize_for_tree_index j == (2 + j % 2) * 2 ^ (j / 2 + 7)) i 32 h minsize_table)

minsize_at :
    (i r h : ℕ) → i ≡ 2 * r + h → r < 16 → h < 2 → minsize_for_tree_index i ≡ (2 + h) * 2 ^ (r + 7)
minsize_at i r h e hr hh =
    minsize_lem i (omega arith) ∙ ap₂ (λ d k. (2 + d) * 2 ^ (k + 7)) (omega arith) (omega arith)

seven_more : (r : ℕ) → 2 ^ (r + 7) ≡ 128 * 2 ^ r
seven_more r = simp towards_suc (omega arith)

-- The place of the leading digit of `size >> 8`, and the digit below the leading one.
record Leading (size r h : ℕ) : Type 0 where
  low : (2 + h) * 2 ^ (r + 7) ≤ size
  high : size < (3 + h) * 2 ^ (r + 7)
  digit : h < 2
  place : r < 16
  index : compute_tree_index size ≡ 2 * r + h

quotient-eq-two : (p size : ℕ) → 2 * p ≤ size → size < 3 * p → size / p ≡ 2
quotient-eq-two p size lo hi = grind arith

quotient-eq-three : (p size : ℕ) → 3 * p ≤ size → size < 4 * p → size / p ≡ 3
quotient-eq-three p size lo hi = grind arith

module _ (size r : ℕ) (scanned : bit_scan_reverse (size / 256) ≡ r) (lo : 256 ≤ size)
    (hi : size < 2 ^ 24) where
  digit_bounds : (2 ^ r ≤ size / 256) × (size / 256 < 2 ^ suc r) × (r < 32)
  digit_bounds = rw scanned at (bit_scan_reverse_bounds (size / 256) (omega arith) (omega arith))

  place-lt : r < 16
  place-lt = elim (dec_lt r 16) [
    | yes p ↦ p
    | no p ↦ absurd (
        omega (
          arith,
          digit_bounds,
          pow-le-pow_right {n = 2} (omega arith) {i = 16} {j = r} (omega arith),
        ))
  ]

  scan_bounds : (2 ^ r ≤ size / 256) × (size / 256 < 2 * 2 ^ r)
  scan_bounds = omega (arith, digit_bounds, pow-suc 2 r)

  index_lem : compute_tree_index size ≡ 2 * r + size / 2 ^ (r + 7) % 2
  unfolding compute_tree_index
  index_lem = ground (arith, bit_and_mask 1 (size / 2 ^ (r + 7)), count, scanned, place-lt)
    where
      count : (r + 7) % 2 ^ 32 % 32 ≡ r + 7
      count = omega (arith, place-lt)

  leading : (h : ℕ) × Leading size r h
  leading = elim (dec_lt size (3 * 2 ^ (r + 7))) [
    | yes p ↦ (
      0,
      record {
        low = omega (arith, seven_more r, scan_bounds);
        high = p;
        digit = omega arith;
        place = place-lt;
        index = omega (
          arith,
          index_lem,
          quotient-eq-two (2 ^ (r + 7)) size (omega (arith, seven_more r, scan_bounds)) p,
        );
      },
    )
    | no p ↦ (
      1,
      record {
        low = omega arith;
        high = omega (arith, seven_more r, scan_bounds);
        digit = omega arith;
        place = place-lt;
        index = omega (
          arith,
          index_lem,
          quotient-eq-three (2 ^ (r + 7)) size (omega arith)
              (omega (arith, seven_more r, scan_bounds)),
        );
      },
    )
  ]

large_index : (size : ℕ) → 2 ^ 24 ≤ size → size < 2 ^ 32 → compute_tree_index size ≡ 31
unfolding compute_tree_index
large_index size lo hi = ground arith

-- The sizes of tree bin `i`: from its least size to below that of the next bin; the last is open.
abbrev pub InTreeBin : ℕ → ℕ → Type 0
InTreeBin i size =
    (i < 32)
    × (minsize_for_tree_index i ≤ size)
    × ((i ≡ 31) ⊎ (size < minsize_for_tree_index (i + 1)))

below_next :
    (size r h i : ℕ)
    → Leading size r h
    → i ≡ 2 * r + h
    → i < 31
    → size < minsize_for_tree_index (i + 1)
below_next size r zero i l e h =
    rw (minsize_at (i + 1) r 1 (omega arith) l.place (omega arith)) l.high
below_next size r (suc (suc h)) i l e lt = absurd (omega (arith, l.digit))
below_next size r (suc zero) i l e lt =
    rw (minsize_at (i + 1) (suc r) 0 (omega arith) (omega arith) (omega arith))
      (omega (arith, seven_more r, seven_more (suc r), pow-suc 2 r))

in_bin : (size r h i : ℕ) → Leading size r h → i ≡ 2 * r + h → InTreeBin i size
in_bin size r h i l e = (
  omega arith,
  omega (arith, minsize_at i r h e l.place l.digit),
  elim (dec_lt i 31) [ yes p ↦ inr (below_next size r h i l e p) | no p ↦ inl (omega arith) ],
)

-- For every size of at least 256, `computeTreeIndex` gives a bin below 32 whose least size
-- `minsizeForTreeIndex` is at most the size, and the size is below the least size of the next bin
-- unless the bin is the last.
pub compute_tree_index-InTreeBin :
    (size : ℕ) → 256 ≤ size → size < 2 ^ 32 → InTreeBin (compute_tree_index size) size
compute_tree_index-InTreeBin size lo hi = elim (dec_lt size (2 ^ 24)) [
  | yes p ↦
      let (h, l) = leading size (bit_scan_reverse (size / 256)) refl lo p in
      in_bin size _ h _ l l.index
  | no p ↦
      rw (large_index size (omega arith) hi)
        (omega arith, omega (arith, minsize_lem 31 (omega arith)), inl refl)
]

-- ===== src/Bins/Scan.antt =====
-- The two scans find the highest and the lowest digit that is set.
use native.Mathlib.Nat.{pow-suc}
use odin_memory_allocator.Base.{
  ℕ, zero, suc, ◌/◌, ◌%◌, ◌≤◌, ◌<◌, ◌^◌, ◌≡◌, arith, ◌==◌, Bool-cases, inl, inr,
}
use odin_memory_allocator.Base.Bits.{test_bit}
use odin_memory_allocator.Bins.{scan_reverse, scan_forward, bit_scan_reverse, bit_scan_forward}

reverse_bounds :
    (k x : ℕ)
    → 0 < x
    → x < 2 ^ k
    → (2 ^ scan_reverse k x ≤ x) × (x < 2 ^ suc (scan_reverse k x)) × (scan_reverse k x < k)
unfolding scan_reverse
reverse_bounds zero x pos lt = absurd (omega arith)
reverse_bounds (suc k) x pos lt = ground (
  arith,
  reverse_bounds k (x / 2),
  pow-suc 2 k,
  pow-suc 2 (scan_reverse k (x / 2)),
  pow-suc 2 (suc (scan_reverse k (x / 2))),
)

-- For a word other than 0, the scan that `computeTreeIndex` uses gives the place of the leading
-- digit, below 32.
pub bit_scan_reverse_bounds :
    (x : ℕ)
    → 0 < x
    → x < 2 ^ 32
    → (2 ^ bit_scan_reverse x ≤ x) × (x < 2 ^ suc (bit_scan_reverse x)) × (bit_scan_reverse x < 32)
unfolding bit_scan_reverse
bit_scan_reverse_bounds x pos lt = reverse_bounds 32 x pos lt

forward_lowest :
    (k x : ℕ) → 0 < x → x < 2 ^ k → (test_bit (scan_forward k x) x ≡ 1) × (scan_forward k x < k)
unfolding scan_forward
forward_lowest zero x pos lt = absurd (omega arith)
forward_lowest (suc k) x pos lt = elim (Bool-cases (x % 2 == 1)) [
  | inl odd ↦ rw odd (ground arith)
  | inr even ↦ rw even (ground (arith, forward_lowest k (x / 2), pow-suc 2 k))
]

forward_below : (k x j : ℕ) → j < scan_forward k x → test_bit j x ≡ 0
unfolding scan_forward
forward_below zero x j h = absurd (omega arith)
forward_below (suc k) x zero h = ground arith
forward_below (suc k) x (suc j) h = ground (arith, forward_below k (x / 2) j)

-- For a word other than 0, the scan that `computeBitToIndex` uses gives the place of the lowest
-- digit that is set, below 32.
pub bit_scan_forward_lowest :
    (x : ℕ)
    → 0 < x
    → x < 2 ^ 32
    → (test_bit (bit_scan_forward x) x ≡ 1)
      × (bit_scan_forward x < 32)
      × ((j : ℕ) → j < bit_scan_forward x → test_bit j x ≡ 0)
unfolding bit_scan_forward
bit_scan_forward_lowest x pos lt =
    let (one, below) = forward_lowest 32 x pos lt in (one, below, forward_below 32 x)

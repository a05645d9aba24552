-- ===== src/Bins.antt =====
-- MemAlloc.cpp, bin indexing and the bit operations of the bin maps. `_BitScanReverse` and
-- `_BitScanForward` are the compiler's: the place of the highest and of the lowest digit that is
-- set; they are called on words that are not 0.
pub mod Scan
pub mod TreeIndex
pub mod LeastBit
use odin_memory_allocator.Base.{
  ℕ, zero, suc, ◌+◌, ◌-◌, ◌/◌, ◌%◌, Bool, ltb, ◌==◌, if◌then◌else◌, add32, shl32, shr32, u32,
  bit_and, bit_or,
}

abbrev pub small_bin_shift : ℕ
small_bin_shift = 3

abbrev pub tree_bin_shift : ℕ
tree_bin_shift = 8

abbrev pub num_small_bins : ℕ
num_small_bins = 32

abbrev pub num_tree_bins : ℕ
num_tree_bins = 32

abbrev pub size_t_bit_size : ℕ
size_t_bit_size = 32

abbrev pub min_large_size : ℕ
min_large_size = shl32 1 tree_bin_shift

-- The place of the highest digit, within `k` digits.
scan_reverse : ℕ → ℕ → ℕ
scan_reverse zero x = 0
scan_reverse (suc k) x = if x / 2 == 0 then 0 else scan_reverse k (x / 2) + 1

unfoldable pub bit_scan_reverse : ℕ → ℕ
unfolding scan_reverse
bit_scan_reverse x = scan_reverse 32 x

-- The place of the lowest digit, within `k` digits.
scan_forward : ℕ → ℕ → ℕ
scan_forward zero x = 0
scan_forward (suc k) x = if x % 2 == 1 then 0 else suc (scan_forward k (x / 2))

unfoldable pub bit_scan_forward : ℕ → ℕ
unfolding scan_forward
bit_scan_forward x = scan_forward 32 x

unfoldable pub is_small : ℕ → Bool
is_small size = ltb (shr32 size small_bin_shift) num_small_bins

unfoldable pub get_small_bin_index : ℕ → ℕ
get_small_bin_index size = u32 (shr32 size small_bin_shift)

unfoldable pub get_small_index_to_size : ℕ → ℕ
get_small_index_to_size index = shl32 index small_bin_shift

unfoldable pub compute_tree_index : ℕ → ℕ
unfolding bit_scan_reverse
compute_tree_index size =
    let index = shr32 size tree_bin_shift in
    let bit_index = bit_scan_reverse index in
    if index == 0
    then 0
    else if ltb 0xffff index
    then num_tree_bins - 1
    else add32 (shl32 bit_index 1) (bit_and (shr32 size (add32 bit_index (tree_bin_shift - 1))) 1)

unfoldable pub leftshift_for_tree_index : ℕ → ℕ
leftshift_for_tree_index index =
    if index == num_small_bins - 1 then 0 else shr32 index 1 + tree_bin_shift - 1

unfoldable pub minsize_for_tree_index : ℕ → ℕ
minsize_for_tree_index index =
    bit_or (shl32 1 (shr32 index 1 + tree_bin_shift))
      (shl32 (bit_and index 1) (shr32 index 1 + tree_bin_shift - 1))

unfoldable pub index_to_bit : ℕ → ℕ
index_to_bit index = shl32 1 index

unfoldable pub compute_bit_to_index : ℕ → ℕ
unfolding bit_scan_forward
compute_bit_to_index mask = bit_scan_forward mask

-- ===== src/Space.antt =====
-- MemAlloc.h, `MemorySpace`, as a record of its scalar fields. The bins are reached through chunk
-- pointers, so `small_bins` and `tree_bins` stay in memory, inside the structure at address `self`:
-- on Win32 at offsets 24 and 288. `calls` are the system calls made, and `failed` counts the
-- ASSERT_ERROR checks that did not hold (a failed check that is ignored goes on).
pub mod Bitmap
use odin_memory_allocator.Base.{
  ℕ, ◌+◌, ◌*◌, Bool, true, false, ◌≡◌, refl, ◌==◌, ◌!=◌, if◌then◌else◌, add32, shl32, not32,
  bit_and, bit_or,
}
use odin_memory_allocator.Memory.{Memory}
use odin_memory_allocator.SysAlloc.{Calls}
use odin_memory_allocator.Bins.{index_to_bit, num_small_bins}

pub record Space : Type 0 where
  pub mem : Memory
  pub self : ℕ
  pub small_map : ℕ
  pub tree_map : ℕ
  pub dv : ℕ
  pub top : ℕ
  pub dv_size : ℕ
  pub top_size : ℕ
  pub magic : ℕ
  pub least_addr : ℕ
  pub curr_page_index : ℕ
  pub page_size : ℕ
  pub segment_granularity : ℕ
  pub segment_threshold : ℕ
  pub footprint : ℕ
  pub max_footprint : ℕ
  pub calls : Calls
  pub failed : ℕ

-- ASSERT_ERROR(test, …)
unfoldable pub assert_error : Bool → Space → Space
assert_error test s = record s { failed = if test then s.failed else s.failed + 1 }

pub assert_error_passes : (test : Bool) (s : Space) → test ≡ true → assert_error test s ≡ s
unfolding assert_error
assert_error_passes true s h = refl
assert_error_passes false s h = cc

abbrev pub with_mem : (Memory → Memory) → Space → Space
with_mem f s = record s { mem = f s.mem }

abbrev pub small_bins_offset : ℕ
small_bins_offset = 24

abbrev pub tree_bins_offset : ℕ
tree_bins_offset = 288

-- `&msp->small_bins[index << 1]`, as a chunk.
unfoldable pub small_bin_at : Space → ℕ → ℕ
small_bin_at s index = s.self + small_bins_offset + 4 * shl32 index 1

-- `&(msp->tree_bins[index])`
unfoldable pub tree_bin_at : Space → ℕ → ℕ
tree_bin_at s index = s.self + tree_bins_offset + 4 * index

unfoldable pub mark_small_map : ℕ → Space → Space
mark_small_map index s = record s { small_map = bit_or s.small_map (index_to_bit index) }

unfoldable pub clear_small_map : ℕ → Space → Space
clear_small_map index s = record s { small_map = bit_and s.small_map (not32 (index_to_bit index)) }

unfoldable pub is_small_map_marked : Space → ℕ → Bool
is_small_map_marked s index = bit_and s.small_map (index_to_bit index) != 0

unfoldable pub mark_tree_map : ℕ → Space → Space
mark_tree_map index s = record s { tree_map = bit_or s.tree_map (index_to_bit index) }

unfoldable pub clear_tree_map : ℕ → Space → Space
clear_tree_map index s = record s { tree_map = bit_and s.tree_map (not32 (index_to_bit index)) }

unfoldable pub is_tree_map_marked : Space → ℕ → Bool
is_tree_map_marked s index = bit_and s.tree_map (index_to_bit index) != 0

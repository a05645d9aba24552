-- ===== src/Tests/Bins.antt =====
-- The small bins of a new space, and a chunk of 16 bytes.
use odin_memory_allocator.Base.{ℕ, ◌+◌, ◌*◌, ◌≡◌, ◌<◌, ◌≤◌, refl, arith, List, [], ◌∷◌, inr}
use odin_memory_allocator.Memory.{Memory, store}
use odin_memory_allocator.Chunk.{chunk_size}
use odin_memory_allocator.Space.{Space, small_bin_at}
use odin_memory_allocator.SmallBin.{
  insert_small_chunk, unlink_small_chunk, unlink_first_small_chunk,
}
use odin_memory_allocator.SmallBin.Frame.{Free}
use odin_memory_allocator.SmallBin.Inv.{IsBins, update, small_bin_at_lem}
use odin_memory_allocator.SmallBin.Insert.{insert-IsBins}
use odin_memory_allocator.SmallBin.Unlink.{unlink-IsBins, unlink_first_eq_unlink}
use odin_memory_allocator.Create.{link_bins}
use odin_memory_allocator.Create.Init.{link_bins-IsBins}

-- A chunk of 16 bytes at address 0x12000, free, behind one in use.
abbrev pub chunk : ℕ
chunk = 0x12000

abbrev pub memory : Memory
memory = store (chunk + 4) 17 (λ a. 0)

abbrev pub unlinked : Space
unlinked = record {
  mem = memory;
  self = 0x10008;
  small_map = 0;
  tree_map = 0;
  dv = 0;
  top = 0x12010;
  dv_size = 0;
  top_size = 0xDFF0;
  magic = 0x55555558;
  least_addr = 0x10000;
  curr_page_index = 1;
  page_size = 0x10000;
  segment_granularity = 0x10000;
  segment_threshold = 8192;
  footprint = 0x10000;
  max_footprint = 0x10000;
  calls = [];
  failed = 0;
}

abbrev space : Space
space = link_bins 32 unlinked

abbrev pub no_chunks : ℕ → List ℕ
no_chunks i = []

space-IsBins : IsBins space no_chunks
space-IsBins = link_bins-IsBins unlinked refl refl

chunk_sized : chunk_size space.mem chunk ≡ 8 * 2
unfolding link_bins chunk_size store small_bin_at
chunk_sized = refl

space-self : space.self ≡ 0x10008
unfolding link_bins
space-self = refl

bins_below : (j : ℕ) → j < 32 → small_bin_at space j + 16 ≤ chunk
bins_below j h = omega (arith, small_bin_at_lem space j h, space-self)

fresh : (j : ℕ) → j < 32 → Free chunk (small_bin_at space j) []
fresh j h = (refl, inr (bins_below j h), tt)

insert-IsBins_example : IsBins (insert_small_chunk chunk 16 space) (update no_chunks 2 (chunk ∷ []))
insert-IsBins_example =
    insert-IsBins space no_chunks chunk 2 space-IsBins (omega arith) (omega arith) chunk_sized fresh

abbrev filled : Space
filled = insert_small_chunk chunk 16 space

abbrev pub one_chunk : ℕ → List ℕ
one_chunk = update no_chunks 2 (chunk ∷ [])

unlink-IsBins_example : IsBins (unlink_small_chunk chunk 16 filled) (update one_chunk 2 [])
unlink-IsBins_example =
    unlink-IsBins filled one_chunk chunk 2 [] [] insert-IsBins_example (omega arith) refl

unlink_first_eq_unlink_example :
    unlink_first_small_chunk chunk 2 filled ≡ unlink_small_chunk chunk 16 filled
unlink_first_eq_unlink_example =
    unlink_first_eq_unlink filled one_chunk chunk 2 [] insert-IsBins_example (omega arith) refl

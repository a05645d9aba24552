-- ===== src/Tests/Validation.antt =====
-- A heap of two chunks in use with a free one between them, before the top.
use odin_memory_allocator.Base.{
  ℕ, ◌+◌, ◌*◌, ◌≡◌, ◌≢◌, Bool, ◌<◌, ◌≤◌, ◌-◌, refl, ap, ◌∙◌, arith, [], ◌∷◌, inl, inr, some, true,
  false,
}
use odin_memory_allocator.Memory.{Memory, store}
use odin_memory_allocator.Chunk.{
  chunk_size, is_inuse, get_pinuse, next_pinuse, next_chunk, previous_chunk,
}
use odin_memory_allocator.Bins.{index_to_bit, get_small_bin_index}
use odin_memory_allocator.Space.{Space, small_bin_at, is_small_map_marked, mark_small_map}
use odin_memory_allocator.SmallBin.{insert_small_chunk}
use odin_memory_allocator.SmallBin.Frame.{Free}
use odin_memory_allocator.SmallBin.Inv.{IsBins, small_bin_at_lem}
use odin_memory_allocator.SmallBin.Insert.{insert-IsBins}
use odin_memory_allocator.Create.{link_bins}
use odin_memory_allocator.Create.Init.{link_bins-IsBins}
use odin_memory_allocator.Validate.{find_in_bin, check_smallbin, traverse_and_check}
use odin_memory_allocator.Validate.Finding.{is_member, find_in_bin_small}
use odin_memory_allocator.Validate.SmallBins.{IsFreeChunk, check_smallbin_passes}
use odin_memory_allocator.Validate.Traversal.{Finds, Sounds, IsHeap, traverse_and_check_decides}
use odin_memory_allocator.Validate.Detection.{IsSoundUsed, IsSoundBinned, IsSoundFree}
use odin_memory_allocator.Tests.Bins.{chunk, unlinked, no_chunks, one_chunk}

abbrev before : ℕ
before = 0x11FF0

abbrev after : ℕ
after = 0x12010

-- The heads of the structure's chunk, of the three chunks and of the top, and the foot of the free one.
abbrev rows : Memory
rows = store 0x10004 0x1FF3 (
    store (before + 4) 19 (
      store (chunk + 4) 17 (store after 16 (store (after + 4) 18 (store 0x12024 0xDFE1 (λ a. 0))))))

abbrev laid_out : Space
laid_out = record unlinked { mem = rows; top = 0x12020; top_size = 0xDFE0 }

abbrev linked : Space
linked = link_bins 32 laid_out

abbrev heap : Space
heap = insert_small_chunk chunk 16 linked

linked-IsBins : IsBins linked no_chunks
linked-IsBins = link_bins-IsBins laid_out refl refl

linked-self : linked.self ≡ 0x10008
unfolding link_bins
linked-self = refl

clear : (j : ℕ) → j < 32 → Free chunk (small_bin_at linked j) []
clear j h = (refl, inr (omega (arith, small_bin_at_lem linked j h, linked-self)), tt)

linked_sized : chunk_size linked.mem chunk ≡ 8 * 2
unfolding link_bins chunk_size store small_bin_at
linked_sized = refl

heap-IsBins : IsBins heap one_chunk
heap-IsBins =
    insert-IsBins linked no_chunks chunk 2 linked-IsBins (omega arith) (omega arith) linked_sized
      clear

abbrev Heads : Space → Type 0
Heads s =
    (chunk_size s.mem before ≡ 8 * 2)
    × (chunk_size s.mem chunk ≡ 8 * 2)
    × (chunk_size s.mem after ≡ 8 * 2)

heads : Heads heap
unfolding insert_small_chunk link_bins chunk_size store small_bin_at mark_small_map
    is_small_map_marked index_to_bit get_small_bin_index
heads = (refl, refl, refl)

heap-self : heap.self ≡ 0x10008
unfolding insert_small_chunk link_bins mark_small_map is_small_map_marked index_to_bit
    get_small_bin_index
heap-self = refl

abbrev Fields : Space → Type 0
Fields s =
    (s.dv ≡ 0)
    × (s.dv_size ≡ 0)
    × (s.tree_map ≡ 0)
    × (s.top ≡ 0x12020)
    × (s.top_size ≡ 0xDFE0)
    × (s.least_addr ≡ 0x10000)
    × (s.footprint ≡ 0x10000)

fields : Fields heap
unfolding insert_small_chunk link_bins mark_small_map is_small_map_marked index_to_bit
    get_small_bin_index
fields = (refl, refl, refl, refl, refl, refl, refl)

finds :
    (p : ℕ)
    → chunk_size heap.mem p ≡ 8 * 2
    → 0x11000 ≤ p
    → Finds heap 2 p (is_member p (chunk ∷ []))
finds p sized high fuel enough =
    find_in_bin_small heap one_chunk 2 p fuel heap-IsBins (omega arith) sized
      (λ e. absurd (omega (arith, e, high, small_bin_at_lem heap 2 (omega arith), heap-self)))
      (omega (arith, enough))

free_chunk : IsFreeChunk heap 16 chunk
unfolding insert_small_chunk link_bins chunk_size store small_bin_at mark_small_map
    is_small_map_marked index_to_bit get_small_bin_index is_inuse get_pinuse next_pinuse
free_chunk = record {
  aligned = refl;
  within = omega arith;
  unused = refl;
  after_unused = refl;
  foot = refl;
  before_used = omega arith;
  next_used = inr refl;
}

find_in_bin_small_example : find_in_bin 2 chunk heap ≡ some true
find_in_bin_small_example =
    find_in_bin_small heap one_chunk 2 chunk 2 heap-IsBins (omega arith) heads.1
      (λ e. absurd (omega (arith, e, small_bin_at_lem heap 2 (omega arith), heap-self)))
      (omega arith)

check_smallbin_passes_example : check_smallbin 2 2 heap ≡ some heap
check_smallbin_passes_example =
    check_smallbin_passes heap one_chunk 2 2 heap-IsBins (omega arith) (free_chunk, tt)
      (omega arith)

abbrev binned : ℕ → Bool
binned p = is_member p (chunk ∷ [])

used_before : IsSoundUsed heap before (binned before)
unfolding insert_small_chunk link_bins chunk_size store small_bin_at mark_small_map
    is_small_map_marked index_to_bit get_small_bin_index is_inuse get_pinuse next_pinuse
used_before = record {
  aligned = refl;
  after = omega arith;
  before = inl (omega arith);
  unbinned = refl;
}

used_after : IsSoundUsed heap after (binned after)
unfolding insert_small_chunk link_bins chunk_size store small_bin_at mark_small_map
    is_small_map_marked index_to_bit get_small_bin_index is_inuse get_pinuse next_pinuse next_chunk
    previous_chunk
used_after = record { aligned = refl; after = omega arith; before = inr refl; unbinned = refl }

ring : IsSoundBinned heap chunk
unfolding insert_small_chunk link_bins chunk_size store small_bin_at mark_small_map
    is_small_map_marked index_to_bit get_small_bin_index is_inuse get_pinuse
ring = record {
  whole = refl;
  foot = refl;
  before = omega arith;
  next = inr refl;
  back = refl;
  forth = refl;
}

-- Of the three chunks the first and the last are in use, and that between them is free.
uses :
    (is_inuse heap.mem before ≡ true)
    × (is_inuse heap.mem chunk ≡ false)
    × (is_inuse heap.mem after ≡ true)
    × (next_pinuse heap.mem chunk ≡ 0)
unfolding insert_small_chunk link_bins chunk_size store small_bin_at mark_small_map
    is_small_map_marked index_to_bit get_small_bin_index is_inuse next_pinuse
uses = (refl, refl, refl, refl)

free_between : IsSoundFree heap before chunk (binned chunk)
free_between = record {
  aligned = refl;
  after = uses.3;
  placed = inr refl;
  behind = inr uses.0;
  binned = λ other below large. ring;
}

sounds : Sounds heap binned 0 (before ∷ chunk ∷ after ∷ [])
sounds = (inl (uses.0, used_before), (inr (uses.1, free_between), (inl (uses.2, used_after), tt)))

starts :
    (next_chunk heap.mem 0x10000 ≡ before)
    × (get_pinuse heap.mem before ≢ 0)
    × (heap.self ≡ 0x10008)
unfolding insert_small_chunk link_bins chunk_size store small_bin_at mark_small_map
    is_small_map_marked index_to_bit get_small_bin_index next_chunk get_pinuse
starts = (refl, omega arith, refl)

is_heap : IsHeap heap binned 2 before (before ∷ chunk ∷ after ∷ [])
is_heap = record {
  starts = ap (next_chunk heap.mem) (omega (arith, starts.2)) ∙ starts.0;
  row = (
    refl,
    omega (arith, heads),
    finds before heads.0 (omega arith),
    (
      omega (arith, heads),
      omega (arith, heads),
      finds chunk heads.1 (omega arith),
      (
        omega (arith, heads),
        omega (arith, heads),
        finds after heads.2 (omega arith),
        omega (arith, heads, fields),
      ),
    ),
  );
  low = omega (arith, fields);
  high = omega (arith, fields);
  fits = omega (arith, fields);
  total = omega (arith, fields);
}

-- Nothing is wrong with this heap.
heap_is_accepted : traverse_and_check 6 heap ≡ some (heap.top_size + (heap.top - before), heap)
heap_is_accepted =
    let (failed, ends, decides) =
      traverse_and_check_decides heap binned 2 before 6 (before ∷ chunk ∷ after ∷ []) is_heap
        (omega arith) in
    ends ∙ rw (decides.1 (starts.1, sounds)) refl

-- ===== src/Tests/TreeSearch.antt =====
-- A tree bin with a chunk of 640 bytes, and a chunk of 512 bytes to go into it.
use odin_memory_allocator.Base.{
  ℕ, ◌+◌, ◌≡◌, ◌≢◌, ◌==◌, if◌then◌else◌, refl, sym, ap, subst, ◌∙◌, arith, false, some, inl, inr,
}
use odin_memory_allocator.Base.Fuel.{◌>>=◌}
use odin_memory_allocator.Memory.{store}
use odin_memory_allocator.Chunk.{chunk_size}
use odin_memory_allocator.Bins.{compute_tree_index, is_small, leftshift_for_tree_index}
use odin_memory_allocator.Space.{Space, tree_bin_at}
use odin_memory_allocator.TreeBin.{insert_large_chunk, unlink_large_chunk}
use odin_memory_allocator.TreeBin.Shape.{Tree, AllNodes, leaf, node}
use odin_memory_allocator.TreeBin.Put.{put}
use odin_memory_allocator.TreeBin.Insert.{
  IsTreeBin, Fits, Inserted, SameDigits, bits_of, insert_large_chunk-IsTreeBin,
}
use odin_memory_allocator.TreeBin.Remove.{whole, left_of}
use odin_memory_allocator.TreeBin.Unlink.{Stands, unlink_large_chunk-IsTreeBin}
use odin_memory_allocator.TreeBin.RoundTrip.{unlink_large_chunk-insert_large_chunk}
use odin_memory_allocator.Validate.{find_size, find_in_bin}
use odin_memory_allocator.Validate.TreeSearch.{find_size-insert_large_chunk}
use odin_memory_allocator.Validate.TreeContents.{
  IsKeyedBin, AllFound, find_in_bin-insert_all, find_in_bin-unlink_all,
}
use odin_memory_allocator.Tests.Bins.{unlinked}

abbrev old_chunk : ℕ
old_chunk = 0x13000

abbrev new_chunk : ℕ
new_chunk = 0x14000

-- `&(msp->tree_bins[2])`
abbrev bin : ℕ
bin = 0x10130

abbrev space : Space
space = record unlinked {
  mem =
      store bin old_chunk (
        store (old_chunk + 4) 641
          (store (old_chunk + 24) bin (store (new_chunk + 4) 513 (λ a. 0))));
  tree_map = 4;
}

abbrev tree : Tree
tree = node old_chunk leaf leaf

space-IsTreeBin : IsTreeBin space 2 tree
unfolding tree_bin_at store
space-IsTreeBin = record {
  at_bin = refl;
  linked = (omega arith, refl, refl, refl, tt, tt);
  separate = (tt, tt, tt, tt, tt, tt);
  off_bin = (inl (omega arith), tt, tt);
  digit = refl;
}

new_size : chunk_size space.mem new_chunk ≡ 512
unfolding chunk_size store
new_size = refl

new_large : is_small 512 ≡ false
unfolding is_small
new_large = refl

new-Fits : Fits space 2 new_chunk 512 tree
unfolding compute_tree_index tree_bin_at chunk_size store
new-Fits = record {
  mapped = omega arith;
  index = refl;
  in_range = omega arith;
  clear = (inl (omega arith), tt, tt);
  off_bin = inl (omega arith);
  others = (λ e. omega (arith, e), tt, tt);
}

insert_large_chunk-IsTreeBin_example :
    (s' : Space) × (insert_large_chunk 1 new_chunk 512 space ≡ some s')
    × Inserted space s' 2 new_chunk 512 tree
insert_large_chunk-IsTreeBin_example =
    insert_large_chunk-IsTreeBin space 2 new_chunk 512 1 tree space-IsTreeBin new-Fits (omega arith)

find_size-insert_large_chunk_example :
    (s' : Space) × (insert_large_chunk 3 new_chunk 512 space ≡ some s')
    × (find_size 3 s'.mem 640 (s'.mem (tree_bin_at s' 2)) (bits_of 2 640) ≡ (
        find_size 3 space.mem 640 (space.mem (tree_bin_at space 2)) (bits_of 2 640) >>= λ found.
        some (if 640 == 512 then new_chunk else found)))
find_size-insert_large_chunk_example =
    find_size-insert_large_chunk space 2 new_chunk 512 3 tree space-IsTreeBin new-Fits new_size
      (omega arith) 640

space-IsKeyedBin : IsKeyedBin space 2 tree
unfolding chunk_size compute_tree_index is_small store
space-IsKeyedBin = record {
  bin = space-IsTreeBin;
  keyed = (tt, tt, tt, tt);
  sizes = ((refl, refl), tt, tt);
}

find_in_bin-insert_all_example :
    (s' : Space) × (insert_large_chunk 3 new_chunk (chunk_size space.mem new_chunk) space ≡ some s')
    × IsKeyedBin s' 2 (put new_chunk (bits_of 2 (chunk_size space.mem new_chunk)) tree)
    × (find_in_bin 3 new_chunk space ≡ some false)
    × AllFound 3 s' (put new_chunk (bits_of 2 (chunk_size space.mem new_chunk)) tree)
find_in_bin-insert_all_example =
    find_in_bin-insert_all space 2 new_chunk 3 tree space-IsKeyedBin
      (subst (λ k. Fits space 2 new_chunk k tree) (sym new_size) new-Fits)
      (ap is_small new_size ∙ new_large) (omega arith)

-- Three chunks, each the left child of the one before.
abbrev top_chunk : ℕ
top_chunk = 0x15000

abbrev three : Space
three = record unlinked {
  mem = store bin top_chunk (
      store (top_chunk + 16) old_chunk (
        store (top_chunk + 24) bin (
          store (old_chunk + 12) old_chunk (
            store (old_chunk + 16) new_chunk (
              store (old_chunk + 24) top_chunk (
                store (old_chunk + 28) 2 (
                  store (new_chunk + 24) old_chunk (
                    store (top_chunk + 4) 705
                      (store (old_chunk + 4) 641 (store (new_chunk + 4) 513 (λ a. 0)))))))))));
  tree_map = 4;
}

old_chunk-Stands :
    Stands three 2 old_chunk (left_of top_chunk leaf whole) (node new_chunk leaf leaf) leaf
unfolding tree_bin_at store
old_chunk-Stands = record {
  bin = record {
    at_bin = refl;
    linked = (
      omega arith,
      refl,
      refl,
      refl,
      (omega arith, refl, refl, refl, (omega arith, refl, refl, refl, tt, tt), tt),
      tt,
    );
    separate = (
      (inl (omega arith), (inl (omega arith), tt, tt), tt),
      tt,
      (tt, (tt, tt, tt), tt),
      tt,
      ((inr (omega arith), tt, tt), tt, (tt, tt, tt), tt, (tt, tt, tt, tt, tt, tt), tt),
      tt,
    );
    off_bin = (inl (omega arith), (inl (omega arith), (inl (omega arith), tt, tt), tt), tt);
    digit = refl;
  };
  in_range = omega arith;
  mapped = omega arith;
  index = refl;
  alone = refl;
}

unlink_large_chunk-IsTreeBin_example :
    (s' : Space) × (unlink_large_chunk 1 old_chunk three ≡ some s')
    × IsTreeBin s' 2 (node top_chunk (node new_chunk leaf leaf) leaf)
    × SameDigits 2 three s'
    × AllNodes
        (λ x. chunk_size s'.mem x ≡ chunk_size three.mem x)
        (node top_chunk (node new_chunk leaf leaf) leaf)
unlink_large_chunk-IsTreeBin_example =
    unlink_large_chunk-IsTreeBin three 2 old_chunk 1 (left_of top_chunk leaf whole)
      (node new_chunk leaf leaf) leaf old_chunk-Stands (omega arith) (omega arith)

bin_there : tree_bin_at space 2 ≢ 0
unfolding tree_bin_at
bin_there = omega arith

unlink_large_chunk-insert_large_chunk_example :
    (after : Space) × ((insert_large_chunk 1 new_chunk 512 space >>= unlink_large_chunk 1 new_chunk)
      ≡ some after)
    × IsTreeBin after 2 tree
    × SameDigits 2 space after
unlink_large_chunk-insert_large_chunk_example =
    unlink_large_chunk-insert_large_chunk space 2 new_chunk 512 1 tree space-IsTreeBin new-Fits
      bin_there (omega arith)

three-IsKeyedBin :
    IsKeyedBin three 2 (node top_chunk (node old_chunk (node new_chunk leaf leaf) leaf) leaf)
unfolding chunk_size compute_tree_index is_small store leftshift_for_tree_index
three-IsKeyedBin = record {
  bin = old_chunk-Stands.bin;
  keyed = (
    ((refl, omega arith), ((refl, omega arith), tt, tt), tt),
    tt,
    (((refl, omega arith), tt, tt), tt, (tt, tt, tt, tt), tt),
    tt,
  );
  sizes = ((refl, refl), ((refl, refl), ((refl, refl), tt, tt), tt), tt);
}

find_in_bin-unlink_all_example :
    (s' : Space) × (unlink_large_chunk 1 old_chunk three ≡ some s')
    × IsKeyedBin s' 2 (node top_chunk (node new_chunk leaf leaf) leaf)
    × AllFound 3 s' (node top_chunk (node new_chunk leaf leaf) leaf)
find_in_bin-unlink_all_example =
    find_in_bin-unlink_all three 2 old_chunk 1 3 (left_of top_chunk leaf whole)
      (node new_chunk leaf leaf) leaf three-IsKeyedBin old_chunk-Stands (omega arith) (omega arith)
      (omega arith)

-- ===== src/Validate/TreeContents.antt =====
-- MemAlloc.cpp, `findInBin` of the chunks of a tree while chunks come and go.
use odin_memory_allocator.Base.{
  ℕ, suc, ◌<◌, ◌≤◌, ◌≡◌, ◌≢◌, inl, refl, ap, ◌∙◌, arith, true, false, some, ◌==◌,
}
use odin_memory_allocator.Memory.{Memory, null}
use odin_memory_allocator.Chunk.{chunk_size}
use odin_memory_allocator.Bins.{compute_tree_index, is_small}
use odin_memory_allocator.Space.{Space, tree_bin_at}
use odin_memory_allocator.TreeBin.{insert_large_chunk, unlink_large_chunk}
use odin_memory_allocator.TreeBin.Shape.{Tree, leaf, node, depth, AllNodes, AllNodes-zip, Linked}
use odin_memory_allocator.TreeBin.Put.{put, AllNodes-put, lookup, depth-put}
use odin_memory_allocator.TreeBin.Keys.{
  Keyed, lookup-Keyed, Keyed-put, Keyed-plug, Keyed-removed, Keyed-sizes,
}
use odin_memory_allocator.TreeBin.Insert.{IsTreeBin, Fits, bits_of, insert_large_chunk-IsTreeBin}
use odin_memory_allocator.TreeBin.Remove.{Context, plug, removed, AllNodes-removed, AllNodes-plug}
use odin_memory_allocator.TreeBin.Unlink.{Stands, unlink_large_chunk-IsTreeBin}
use odin_memory_allocator.Validate.{find_in_bin}
use odin_memory_allocator.Validate.TreeSearch.{find_in_bin_tree, find_in_bin-insert_large_chunk}

-- A size that belongs to the tree bin `i`.
abbrev pub InBin : (i size : ℕ) → Type 0
InBin i size = (compute_tree_index size ≡ i) × (is_small size ≡ false)

-- The tree bin `i` holds the tree, with every chunk in the bin and on the path of its size.
pub record IsKeyedBin (s : Space) (i : ℕ) (t : Tree) : Type 0 where
  pub bin : IsTreeBin s i t
  pub keyed : Keyed (chunk_size s.mem) (bits_of i) t
  pub sizes : AllNodes (λ q. InBin i (chunk_size s.mem q)) t

abbrev pub AllFound : (fuel : ℕ) → Space → Tree → Type 0
AllFound fuel s t = AllNodes (λ q. find_in_bin fuel q s ≡ some true) t

all_mapped : (m : Memory) (up : ℕ) (t : Tree) → Linked m up t → AllNodes (λ q. q ≢ null) t
all_mapped m up leaf l = tt
all_mapped m up (node p left right) l = (l.0, all_mapped m p left l.4, all_mapped m p right l.5)

all_found :
    (s : Space) (i fuel : ℕ) (t : Tree)
    → IsKeyedBin s i t
    → i < 32
    → depth t < fuel
    → AllFound fuel s t
all_found s i fuel t h lt enough =
    AllNodes-zip t
      (λ q (b : InBin i (chunk_size s.mem q))
          (found : (q ≢ null)
            × (lookup (chunk_size s.mem) (chunk_size s.mem q) (bits_of i (chunk_size s.mem q)) t
                ≡ q)).
        find_in_bin_tree s i q (chunk_size s.mem q) fuel q t h.bin lt refl b.0 b.1 enough found.1
          (inl refl) found.0
        ∙ ap some (test_self q))
      h.sizes
      (AllNodes-zip t (λ q a b. (a, b)) (all_mapped s.mem (tree_bin_at s i) t h.bin.linked)
        (lookup-Keyed (chunk_size s.mem) (bits_of i) t h.keyed))
  where
    test_self : (a : ℕ) → (a == a) ≡ true
    test_self a = ground arith

-- The sizes of the chunks stay, so the bin holds the tree as it did.
bin_after :
    (s s' : Space) (i : ℕ) (t : Tree)
    → IsTreeBin s' i t
    → AllNodes (λ q. chunk_size s'.mem q ≡ chunk_size s.mem q) t
    → Keyed (chunk_size s.mem) (bits_of i) t
    → AllNodes (λ q. InBin i (chunk_size s.mem q)) t
    → IsKeyedBin s' i t
bin_after s s' i t bin same keyed sizes = record {
  bin = bin;
  keyed = Keyed-sizes (chunk_size s.mem) (chunk_size s'.mem) (bits_of i) t same keyed;
  sizes =
      AllNodes-zip t
        (λ q (e : chunk_size s'.mem q ≡ chunk_size s.mem q) (b : InBin i (chunk_size s.mem q)).
          rw e b)
        same sizes;
}

-- Where every chunk of a tree bin stands on the path of its size, and a large chunk fits the bin,
-- which has no chunk of its size: `insertLargeChunk` ends with fuel for the depth of the tree and
-- two more, and every chunk stands on the path of its size then. `findInBin` does not find the
-- chunk before, and finds it and each chunk that was in the bin afterwards.
pub find_in_bin-insert_all :
    (s : Space) (i ptr fuel : ℕ) (t : Tree)
    → IsKeyedBin s i t
    → Fits s i ptr (chunk_size s.mem ptr) t
    → is_small (chunk_size s.mem ptr) ≡ false
    → suc (depth t) < fuel
    → (s' : Space) × (insert_large_chunk fuel ptr (chunk_size s.mem ptr) s ≡ some s')
      × IsKeyedBin s' i (put ptr (bits_of i (chunk_size s.mem ptr)) t)
      × (find_in_bin fuel ptr s ≡ some false)
      × AllFound fuel s' (put ptr (bits_of i (chunk_size s.mem ptr)) t)
find_in_bin-insert_all s i ptr fuel t h f large enough =
    let (s', inserts, done) =
      insert_large_chunk-IsTreeBin s i ptr (chunk_size s.mem ptr) fuel t h.bin f
        (omega (arith, enough)) in
    let (before, inserts', tree, absent, present) =
      find_in_bin-insert_large_chunk s i ptr (chunk_size s.mem ptr) fuel t h.bin f refl enough
        large in
    let after : IsKeyedBin s' i (put ptr (bits_of i (chunk_size s.mem ptr)) t) =
      bin_after s s' i (put ptr (bits_of i (chunk_size s.mem ptr)) t) done.tree done.sizes
        (Keyed-put (chunk_size s.mem) (bits_of i) ptr t f.others h.keyed)
        (AllNodes-put (λ q. InBin i (chunk_size s.mem q)) ptr (bits_of i (chunk_size s.mem ptr)) t
          (f.index, large) h.sizes) in
    (
      s',
      inserts,
      after,
      absent,
      all_found s' i fuel (put ptr (bits_of i (chunk_size s.mem ptr)) t) after f.in_range
          (omega (arith, depth-put ptr (bits_of i (chunk_size s.mem ptr)) t, enough)),
    )

-- Where every chunk of a tree bin stands on the path of its size, and `p` is the only chunk of its
-- size: `unlinkLargeChunk` of `p` ends with fuel for the depth below it, every chunk stands on the
-- path of its size then, and `findInBin`, with fuel for the depth of the tree and one more, finds
-- every other chunk of the tree.
pub find_in_bin-unlink_all :
    (s : Space) (i p fuel fuel' : ℕ) (c : Context) (left right : Tree)
    → IsKeyedBin s i (plug c (node p left right))
    → Stands s i p c left right
    → depth left ≤ fuel
    → depth right ≤ fuel
    → depth (plug c (removed left right)) < fuel'
    → (s' : Space) × (unlink_large_chunk fuel p s ≡ some s')
      × IsKeyedBin s' i (plug c (removed left right))
      × AllFound fuel' s' (plug c (removed left right))
find_in_bin-unlink_all s i p fuel fuel' c left right h stands deep deep' enough =
    let (s', unlinks, bin, digits, sizes) =
      unlink_large_chunk-IsTreeBin s i p fuel c left right stands deep deep' in
    let after : IsKeyedBin s' i (plug c (removed left right)) =
      bin_after s s' i (plug c (removed left right)) bin sizes
        (Keyed-plug (chunk_size s.mem) c (node p left right) (removed left right)
          (λ P n. AllNodes-removed P left right n.1 n.2)
          (λ bits k. Keyed-removed (chunk_size s.mem) bits p left right k) (bits_of i) h.keyed)
        (AllNodes-plug (λ q. InBin i (chunk_size s.mem q)) c (node p left right)
          (removed left right)
          (λ n. AllNodes-removed (λ q. InBin i (chunk_size s.mem q)) left right n.1 n.2) h.sizes) in
    (
      s',
      unlinks,
      after,
      all_found s' i fuel' (plug c (removed left right)) after stands.in_range enough,
    )

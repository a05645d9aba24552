-- ===== src/TreeBin/Insert.antt =====
-- `insertLargeChunk` into the tree of a bin that has no chunk of the size.
use odin_memory_allocator.Base.{
  ℕ, ◌+◌, ◌<◌, ◌≤◌, ◌≡◌, ◌≢◌, ◌⊎◌, refl, sym, ap, ◌∙◌, arith, true, false, some, ◌==◌, ◌!=◌,
  if◌then◌else◌, shl32,
}
use odin_memory_allocator.Base.Bits.{test_bit}
use odin_memory_allocator.Memory.{Memory, null, store}
use odin_memory_allocator.Chunk.{chunk_size, bk, set_fd, set_bk}
use odin_memory_allocator.Bins.{compute_tree_index, leftshift_for_tree_index}
use odin_memory_allocator.Space.{Space, tree_bin_at, mark_tree_map, is_tree_map_marked}
use odin_memory_allocator.Space.Bitmap.{test_bit-mark_tree_map, is_tree_map_marked_lem}
use odin_memory_allocator.TreeBin.{set_parent, tree_index, new_node, descend, insert_large_chunk}
use odin_memory_allocator.TreeBin.Shape.{
  Tree, leaf, node, root, depth, AllNodes, Linked, Clear, ClearOf, ClearOf-Spares, Separate, Spares,
  Linked-Agree, Apart-Agree, Apart-leaf, AllNodes-zip, AllNodes-map, heads_spare,
}
use odin_memory_allocator.TreeBin.Put.{put, root-put, AllNodes-put, Separate-put}
use odin_memory_allocator.TreeBin.Hung.{IsNew, Kept, Placed}
use odin_memory_allocator.TreeBin.Descent.{descend_places}

-- The tree bin `i` holds the tree, and its digit of the map tells whether there is one.
pub record IsTreeBin (s : Space) (i : ℕ) (t : Tree) : Type 0 where
  pub at_bin : s.mem (tree_bin_at s i) ≡ root t
  pub linked : Linked s.mem (tree_bin_at s i) t
  pub separate : Separate t
  pub off_bin : AllNodes (λ q. (tree_bin_at s i + 4 ≤ q) ⊎ (q + 32 ≤ tree_bin_at s i)) t
  pub digit : test_bit i s.tree_map ≡ (if root t == null then 0 else 1)

-- A chunk to go into the tree.
pub record Fits (s : Space) (i ptr size : ℕ) (t : Tree) : Type 0 where
  pub mapped : ptr ≢ null
  pub index : compute_tree_index size ≡ i
  pub in_range : i < 32
  pub clear : ClearOf ptr t
  pub off_bin : (tree_bin_at s i + 4 ≤ ptr) ⊎ (ptr + 32 ≤ tree_bin_at s i)
  pub others : AllNodes (λ q. chunk_size s.mem q ≢ size) t

-- The bits of the size that lead down the tree of its bin.
abbrev pub bits_of : (i size : ℕ) → ℕ
bits_of i size = shl32 size (leftshift_for_tree_index i)

new_node-Kept : (ptr i : ℕ) (m : Memory) → Kept m (new_node ptr i m) leaf ptr
unfolding new_node store
new_node-Kept ptr i m b spare out = ground (arith, out)

new_node-index : (ptr i : ℕ) (m : Memory) → new_node ptr i m (ptr + 28) ≡ i
unfolding new_node store
new_node-index ptr i m = ground arith

new_node-IsNew : (ptr i : ℕ) (m : Memory) → ptr ≢ null → IsNew (new_node ptr i m) ptr
unfolding new_node store
new_node-IsNew ptr i m ne = record { mapped = ne; no_left = ground arith; no_right = ground arith }

-- The digits of all other bins stay.
abbrev pub SameDigits : (i : ℕ) → (s s' : Space) → Type 0
SameDigits i s s' = (j : ℕ) → j < 32 → j ≢ i → test_bit j s'.tree_map ≡ test_bit j s.tree_map

-- What the chunk and its space come to.
pub record Inserted (s s' : Space) (i ptr size : ℕ) (t : Tree) : Type 0 where
  pub tree : IsTreeBin s' i (put ptr (bits_of i size) t)
  pub sizes : AllNodes (λ q. chunk_size s'.mem q ≡ chunk_size s.mem q) (put ptr (bits_of i size) t)
  pub own_size : chunk_size s'.mem ptr ≡ chunk_size s.mem ptr
  pub alone : bk s'.mem ptr ≡ ptr
  pub own_index : tree_index s'.mem ptr ≡ i
  pub digits : SameDigits i s s'
  pub same_place : s'.self ≡ s.self

pub same_size : (m m' : Memory) (q : ℕ) → m' (q + 4) ≡ m (q + 4) → chunk_size m' q ≡ chunk_size m q
unfolding chunk_size
same_size m m' q same = rw same refl

-- The heads of the chunks of the tree and of the new chunk are not written.
sizes_stay :
    (m m' : Memory) (ptr size_bits : ℕ) (t : Tree)
    → Separate t
    → ClearOf ptr t
    → Kept m m' t ptr
    → Spares (ptr + 4) t
    → AllNodes (λ q. chunk_size m' q ≡ chunk_size m q) (put ptr size_bits t)
sizes_stay m m' ptr size_bits t separate clear kept own =
    AllNodes-put (λ q. chunk_size m' q ≡ chunk_size m q) ptr size_bits t
      (same_size m m' ptr (kept (ptr + 4) own (omega arith)))
      (AllNodes-zip t
        (λ q spare (c : Clear ptr q). same_size m m' q (kept (q + 4) spare (omega (arith, c))))
        (heads_spare t separate) clear)

module _ (s : Space) (i ptr size : ℕ) (t : Tree) (h : IsTreeBin s i t)
    (f : Fits s i ptr size t) where
  abbrev fresh : Memory
  fresh = new_node ptr i s.mem

  fresh-Linked : Linked fresh (tree_bin_at s i) t
  fresh-Linked =
      Linked-Agree s.mem fresh (tree_bin_at s i) t
        (Apart-Agree s.mem fresh leaf t ptr (new_node-Kept ptr i s.mem) (Apart-leaf t) f.clear)
        h.linked

  fresh-others : AllNodes (λ q. chunk_size fresh q ≢ size) t
  fresh-others =
      AllNodes-zip t
        (λ q ne (c : Clear ptr q) e. ne (
          sym (same_size s.mem fresh q (new_node-Kept ptr i s.mem (q + 4) tt (omega (arith, c))))
          ∙ e))
        f.others f.clear

  fresh-bin : fresh (tree_bin_at s i) ≡ root t
  fresh-bin = new_node-Kept ptr i s.mem (tree_bin_at s i) tt (omega (arith, f.off_bin)) ∙ h.at_bin

  marked_lem :
      (t' : Tree) → t ≡ t' → is_tree_map_marked (record s { mem = fresh }) i ≡ (root t' != null)
  marked_lem t' same =
      is_tree_map_marked_lem (record s { mem = fresh }) i f.in_range
      ∙ by_digit (test_bit i s.tree_map) (root t')
          (h.digit ∙ ap (λ u. if root u == null then 0 else 1) same)
    where
      by_digit : (d r : ℕ) → d ≡ (if r == null then 0 else 1) → (d == 1) ≡ (r != null)
      by_digit d r e = ground (arith, e)

  -- Behind the walk.
  abbrev walked : Memory → Space
  walked m' = record s { mem = m' }

  walked-Inserted :
      (m' : Memory)
      → root (put ptr (bits_of i size) t) ≡ root t
      → Placed fresh m' (tree_bin_at s i) ptr (bits_of i size) t
      → Inserted s (walked m') i ptr size t
  unfolding tree_bin_at
  walked-Inserted m' same placed = record {
    tree = record {
      at_bin = kept' (tree_bin_at s i) spared (omega (arith, f.off_bin)) ∙ h.at_bin ∙ sym same;
      linked = placed.linked;
      separate = Separate-put ptr (bits_of i size) t f.clear h.separate;
      off_bin =
          AllNodes-put (λ q. (tree_bin_at s i + 4 ≤ q) ⊎ (q + 32 ≤ tree_bin_at s i)) ptr
            (bits_of i size) t f.off_bin h.off_bin;
      digit = h.digit ∙ ap (λ r. if r == null then 0 else 1) (sym same);
    };
    sizes =
        sizes_stay s.mem m' ptr (bits_of i size) t h.separate f.clear kept'
          (ClearOf-Spares ptr 4 t (omega arith) f.clear);
    own_size =
        same_size s.mem m' ptr
          (kept' (ptr + 4) (ClearOf-Spares ptr 4 t (omega arith) f.clear) (omega arith));
    alone = placed.alone;
    digits = λ j small ne. refl;
    own_index = placed.same_index ∙ new_node-index ptr i s.mem;
    same_place = refl;
  }
    where
      kept' : Kept s.mem m' t ptr
      kept' b spare out = placed.kept b spare out ∙ new_node-Kept ptr i s.mem b tt out

      spared : Spares (tree_bin_at s i) t
      spared =
          AllNodes-map t
            (λ q (off : (tree_bin_at s i + 4 ≤ q) ⊎ (q + 32 ≤ tree_bin_at s i)). omega (arith, off))
            h.off_bin

  -- The first chunk of the bin.
  abbrev first : Space
  first = record (mark_tree_map i s) {
    mem =
        set_fd ptr ptr
          (set_bk ptr ptr (set_parent ptr (tree_bin_at s i) (store (tree_bin_at s i) ptr fresh)));
  }

  first-kept :
      (b : ℕ) → (b + 4 ≤ ptr + 8) ⊎ (ptr + 32 ≤ b) → b ≢ tree_bin_at s i → first.mem b ≡ s.mem b
  unfolding store
  first-kept b out ne = ground (arith, out, new_node-Kept ptr i s.mem b tt out)

  first-digit : test_bit i (mark_tree_map i s).tree_map ≡ (if ptr == null then 0 else 1)
  first-digit = test_bit-mark_tree_map s i i f.in_range ∙ by_tests (test_bit i s.tree_map)
    where
      by_tests : (d : ℕ) → (if i == i then 1 else d) ≡ (if ptr == null then 0 else 1)
      by_tests d = ground (arith, f.mapped)

  first-digits : SameDigits i s (mark_tree_map i s)
  first-digits j small ne =
      test_bit-mark_tree_map s i j f.in_range ∙ by_tests (test_bit j s.tree_map)
    where
      by_tests : (d : ℕ) → (if j == i then 1 else d) ≡ d
      by_tests d = ground (arith, ne)

  first-size : chunk_size first.mem ptr ≡ chunk_size s.mem ptr
  first-size =
      same_size s.mem first.mem ptr (first-kept (ptr + 4) (omega arith) (omega (arith, f.off_bin)))

  first-Inserted : Inserted s first i ptr size leaf
  unfolding tree_bin_at mark_tree_map store new_node
  first-Inserted = record {
    tree = record {
      at_bin = ground (arith, f.off_bin);
      linked = (
        f.mapped,
        ground (arith, f.off_bin),
        ground (arith, f.off_bin),
        ground (arith, f.off_bin),
        tt,
        tt,
      );
      separate = (tt, tt, tt, tt, tt, tt);
      off_bin = (f.off_bin, tt, tt);
      digit = first-digit;
    };
    sizes = (first-size, tt, tt);
    own_size = first-size;
    alone = ground arith;
    digits = first-digits;
    own_index = ground (arith, f.off_bin);
    same_place = refl;
  }

  insert_first : (fuel : ℕ) → root t ≡ null → insert_large_chunk fuel ptr size s ≡ some first
  unfolding insert_large_chunk store mark_tree_map
  insert_first fuel empty = rw (f.index, unmarked) refl
    where
      unmarked : is_tree_map_marked (record s { mem = fresh }) i ≡ false
      unmarked = marked_lem t refl ∙ ground (arith, empty)

  insert_walks :
      (fuel : ℕ) (m' : Memory)
      → root t ≢ null
      → descend fuel ptr size (root t) (bits_of i size) fresh ≡ some m'
      → insert_large_chunk fuel ptr size s ≡ some (walked m')
  unfolding insert_large_chunk
  insert_walks fuel m' filled walks = rw (f.index, marked, fresh-bin, walks) refl
    where
      marked : is_tree_map_marked (record s { mem = fresh }) i ≡ true
      marked = marked_lem t refl ∙ ground (arith, filled)

-- For a chunk that fits a tree bin with no chunk of its size: `insertLargeChunk` ends with fuel
-- for the depth of the tree, and the bin then holds the tree with the chunk put where the bits of
-- its size lead, linked in both directions, with the digit of the tree map set; the sizes of all
-- chunks in it stay.
pub insert_large_chunk-IsTreeBin :
    (s : Space) (i ptr size fuel : ℕ) (t : Tree)
    → IsTreeBin s i t
    → Fits s i ptr size t
    → depth t ≤ fuel
    → (s' : Space) × (insert_large_chunk fuel ptr size s ≡ some s') × Inserted s s' i ptr size t
insert_large_chunk-IsTreeBin s i ptr size fuel leaf h f enough = (
  first s i ptr size leaf h f,
  insert_first s i ptr size leaf h f fuel refl,
  first-Inserted s i ptr size leaf h f,
)
insert_large_chunk-IsTreeBin s i ptr size fuel (node p left right) h f enough =
    let (m', walks, placed) =
      descend_places (fresh s i ptr size (node p left right) h f) ptr size
        (new_node-IsNew ptr i s.mem f.mapped) (node p left right) fuel (tree_bin_at s i)
        (bits_of i size) enough (fresh-others s i ptr size (node p left right) h f)
        (fresh-Linked s i ptr size (node p left right) h f) h.separate f.clear in
    (
      walked s i ptr size (node p left right) h f m',
      insert_walks s i ptr size (node p left right) h f fuel m' h.linked.0 walks,
      walked-Inserted s i ptr size (node p left right) h f m'
          (root-put ptr (bits_of i size) p left right) placed,
    )

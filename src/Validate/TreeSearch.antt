-- ===== src/Validate/TreeSearch.antt =====
-- MemAlloc.cpp, `findInBin` on the tree bins.
use odin_memory_allocator.Base.{
  ℕ, zero, suc, ◌+◌, ◌<◌, ◌≡◌, ◌≢◌, ◌⊎◌, inl, inr, refl, sym, ap, ◌∙◌, arith, Bool-cases, true,
  false, ◌&&◌, some, ◌==◌, ==_iff, ◌!=◌, if◌then◌else◌, shl32,
}
use odin_memory_allocator.Base.Fuel.{◌>>=◌}
use odin_memory_allocator.Memory.{Memory, null}
use odin_memory_allocator.Chunk.{chunk_size}
use odin_memory_allocator.Bins.{compute_tree_index, is_small}
use odin_memory_allocator.Space.{Space, tree_bin_at}
use odin_memory_allocator.Space.Bitmap.{is_tree_map_marked_lem}
use odin_memory_allocator.TreeBin.{leading_bit, child_at, insert_large_chunk}
use odin_memory_allocator.TreeBin.Shape.{Tree, leaf, node, root, depth, Linked}
use odin_memory_allocator.TreeBin.Put.{
  put, lookup, lookup-put, lookup-put_other, lookup_absent, lookup-sizes, depth-put, bit_of,
  depth-left, depth-right,
}
use odin_memory_allocator.TreeBin.Insert.{
  IsTreeBin, Fits, Inserted, bits_of, insert_large_chunk-IsTreeBin,
}
use odin_memory_allocator.Validate.{find_in_ring, find_size, find_in_bin}

-- One turn of the walk.
find_size_step :
    (fuel p size size_bits place c found : ℕ) (m : Memory)
    → p ≢ null
    → child_at p (leading_bit size_bits) ≡ place
    → m place ≡ c
    → find_size fuel m size c (shl32 size_bits 1) ≡ some found
    → find_size (suc fuel) m size p size_bits ≡ some (if chunk_size m p == size then p else found)
unfolding find_size
find_size_step fuel p size size_bits place c found m mapped at holds deeper =
    rw (at, holds, deeper) (by_tests (chunk_size m p))
  where
    by_tests :
        (k : ℕ)
        → (if p != null && k != size then some found else some p)
          ≡ some (if k == size then p else found)
    by_tests k = ground (arith, mapped)

find_size-lookup :
    (t : Tree) (fuel : ℕ) (m : Memory) (up size size_bits : ℕ)
    → Linked m up t
    → depth t < fuel
    → find_size fuel m size (root t) size_bits ≡ some (lookup (chunk_size m) size size_bits t)
unfolding find_size
find_size-lookup t zero m up size size_bits linked enough = absurd (omega arith)
find_size-lookup leaf (suc fuel) m up size size_bits linked enough = refl
find_size-lookup (node p left right) (suc fuel) m up size size_bits linked enough =
    elim (Bool-cases (leading_bit size_bits == 0)) [
      | inl e ↦ rw e (
          find_size_step fuel p size size_bits (p + 16) (root left) _ m linked.0
            (omega (arith, (==_iff _ _).0 e)) linked.1
            (find_size-lookup left fuel m p size (shl32 size_bits 1) linked.4
              (omega (arith, depth-left p left right, enough))))
      | inr e ↦ rw e (
          find_size_step fuel p size size_bits (p + 20) (root right) _ m linked.0
            (omega (arith, bit_of size_bits e)) linked.2
            (find_size-lookup right fuel m p size (shl32 size_bits 1) linked.5
              (omega (arith, depth-right p left right, enough))))
    ]

lookup_empty :
    (t : Tree) (size_of : ℕ → ℕ) (m : Memory) (up size size_bits : ℕ)
    → Linked m up t
    → root t ≡ null
    → lookup size_of size size_bits t ≡ null
lookup_empty leaf size_of m up size size_bits linked e = refl
lookup_empty (node p left right) size_of m up size size_bits linked e = absurd (linked.0 e)

ring_first :
    (fuel : ℕ) (m : Memory) (start p : ℕ)
    → start ≡ p
    → find_in_ring (suc fuel) m start p start ≡ some true
unfolding find_in_ring
ring_first fuel m start p e = ground (arith, e)

-- The search in a bin with a tree, for the size of a chunk.
pub find_in_bin_tree :
    (s : Space) (i p size fuel found : ℕ) (t : Tree)
    → IsTreeBin s i t
    → i < 32
    → chunk_size s.mem p ≡ size
    → compute_tree_index size ≡ i
    → is_small size ≡ false
    → depth t < fuel
    → lookup (chunk_size s.mem) size (bits_of i size) t ≡ found
    → (found ≡ p) ⊎ (found ≡ null)
    → p ≢ null
    → find_in_bin fuel p s ≡ some (found == p)
unfolding find_in_bin
find_in_bin_tree s i p size zero found t h lt of_size index large enough is which mapped =
    absurd (omega arith)
find_in_bin_tree s i p size (suc fuel) found t h lt of_size index large enough is which mapped =
    rw
      (
        of_size,
        large,
        index,
        is_tree_map_marked_lem s i lt,
        h.digit,
        h.at_bin,
        find_size-lookup t (suc fuel) s.mem (tree_bin_at s i) size (bits_of i size) h.linked enough,
        is,
      )
      (by_tests (root t) (λ e.
        sym is
        ∙ lookup_empty t (chunk_size s.mem) s.mem (tree_bin_at s i) size (bits_of i size) h.linked
            e))
  where
    by_tests :
        (r : ℕ)
        → (r ≡ null → found ≡ null)
        → (if (if r == null then 0 else 1) == 1
            then if found != null then find_in_ring (suc fuel) s.mem found p found else some false
            else some false)
          ≡ some (found == p)
    by_tests r empty = elim which [
      | inl e ↦ ground (arith, e, empty, mapped, ring_first fuel s.mem found p e)
      | inr e ↦ ground (arith, e, mapped)
    ]

module _ (s : Space) (i ptr size fuel : ℕ) (t : Tree) (h : IsTreeBin s i t)
    (f : Fits s i ptr size t) (of_size : chunk_size s.mem ptr ≡ size)
    (enough : suc (depth t) < fuel) where
  -- What the searches come to in a space that holds the tree with the chunk.
  search_after :
      (s' : Space) (k : ℕ)
      → Inserted s s' i ptr size t
      → lookup (chunk_size s'.mem) k (bits_of i k) (put ptr (bits_of i size) t)
        ≡ (if k == size then ptr else lookup (chunk_size s.mem) k (bits_of i k) t)
  search_after s' k done =
      lookup-sizes (chunk_size s'.mem) (chunk_size s.mem) k (bits_of i k)
        (put ptr (bits_of i size) t) done.sizes
      ∙ elim (Bool-cases (k == size)) [
        | inl e ↦
            rw (e, (==_iff k size).0 e)
              (lookup-put (chunk_size s.mem) ptr size of_size (bits_of i size) t f.others)
        | inr e ↦ rw e (
            lookup-put_other (chunk_size s.mem) ptr size of_size k (bits_of i size) (bits_of i k) t
              (ne k e))
      ]
    where
      ne : (a : ℕ) → (a == size) ≡ false → a ≢ size
      ne a e = ground (arith, e)

  depth_after : depth (put ptr (bits_of i size) t) < fuel
  depth_after = omega (arith, depth-put ptr (bits_of i size) t, enough)

  -- Where a tree bin has no chunk of the size of a chunk that fits it: `insertLargeChunk` ends
  -- with fuel for the depth of the tree and two more, and the search of `findInBin` for any size
  -- then gives the chunk for its size, and for every other size what it gave before.
  pub find_size-insert_large_chunk :
      (k : ℕ)
      → (s' : Space) × (insert_large_chunk fuel ptr size s ≡ some s')
        × (find_size fuel s'.mem k (s'.mem (tree_bin_at s' i)) (bits_of i k) ≡ (
            find_size fuel s.mem k (s.mem (tree_bin_at s i)) (bits_of i k) >>= λ found.
            some (if k == size then ptr else found)))
  find_size-insert_large_chunk k =
      let (s', inserts, done) =
        insert_large_chunk-IsTreeBin s i ptr size fuel t h f (omega (arith, enough)) in
      (
        s',
        inserts,
        rw
            (
              done.tree.at_bin,
              h.at_bin,
              find_size-lookup t fuel s.mem (tree_bin_at s i) k (bits_of i k) h.linked
                  (omega (arith, enough)),
              find_size-lookup (put ptr (bits_of i size) t) fuel s'.mem (tree_bin_at s' i) k
                  (bits_of i k) done.tree.linked depth_after,
              search_after s' k done,
            )
            refl,
      )

  -- For a large chunk that fits a tree bin with no chunk of its size, and fuel for the depth of
  -- the tree and two more: `findInBin` does not find the chunk, `insertLargeChunk` ends and keeps
  -- the bin well formed, and `findInBin` then finds the chunk.
  pub find_in_bin-insert_large_chunk :
      is_small size ≡ false
      → (s' : Space) × (insert_large_chunk fuel ptr size s ≡ some s')
        × IsTreeBin s' i (put ptr (bits_of i size) t)
        × (find_in_bin fuel ptr s ≡ some false)
        × (find_in_bin fuel ptr s' ≡ some true)
  find_in_bin-insert_large_chunk large =
      let (s', inserts, done) =
        insert_large_chunk-IsTreeBin s i ptr size fuel t h f (omega (arith, enough)) in
      (
        s',
        inserts,
        done.tree,
        find_in_bin_tree s i ptr size fuel null t h f.in_range of_size f.index large
              (omega (arith, enough))
              (lookup_absent (chunk_size s.mem) size (bits_of i size) t f.others) (inr refl)
              f.mapped
            ∙ ap some (not_null ptr f.mapped),
        find_in_bin_tree s' i ptr size fuel ptr (put ptr (bits_of i size) t) done.tree f.in_range
              (done.own_size ∙ of_size) f.index large depth_after
              (search_after s' size done ∙ rw (test_self size) refl) (inl refl) f.mapped
            ∙ ap some (test_self ptr),
      )
    where
      not_null : (a : ℕ) → a ≢ null → (null == a) ≡ false
      not_null a ne = ground (arith, ne)

      test_self : (a : ℕ) → (a == a) ≡ true
      test_self a = ground arith

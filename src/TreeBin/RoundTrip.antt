-- ===== src/TreeBin/RoundTrip.antt =====
-- `insertLargeChunk` and `unlinkLargeChunk` of one chunk.
use odin_memory_allocator.Base.{
  ℕ, ◌≤◌, ◌≡◌, ◌≢◌, inl, inr, refl, subst, ◌∙◌, arith, Bool-cases, some, ◌==◌, if◌then◌else◌, shl32,
}
use odin_memory_allocator.Base.Fuel.{◌>>=◌}
use odin_memory_allocator.Memory.{null}
use odin_memory_allocator.Space.{Space, tree_bin_at}
use odin_memory_allocator.TreeBin.{leading_bit, insert_large_chunk, unlink_large_chunk}
use odin_memory_allocator.TreeBin.Shape.{Tree, leaf, node, depth}
use odin_memory_allocator.TreeBin.Put.{put}
use odin_memory_allocator.TreeBin.Insert.{
  IsTreeBin, Fits, Inserted, SameDigits, bits_of, insert_large_chunk-IsTreeBin,
}
use odin_memory_allocator.TreeBin.Remove.{Context, whole, left_of, right_of, plug}
use odin_memory_allocator.TreeBin.Unlink.{Stands, unlink_large_chunk-IsTreeBin}

-- Where the bits lead in the tree `t`, which stands at `c`.
spot : (size_bits : ℕ) → Tree → Context → Context
spot size_bits leaf c = c
spot size_bits (node p left right) c =
    let to_left = spot (shl32 size_bits 1) left (left_of p right c) in
    let to_right = spot (shl32 size_bits 1) right (right_of p left c) in
    if leading_bit size_bits == 0 then to_left else to_right

plug-spot : (size_bits : ℕ) (t : Tree) (c : Context) → plug (spot size_bits t c) leaf ≡ plug c t
unfolding spot
plug-spot size_bits leaf c = refl
plug-spot size_bits (node p left right) c = elim (Bool-cases (leading_bit size_bits == 0)) [
  | inl e ↦ rw e (plug-spot (shl32 size_bits 1) left (left_of p right c))
  | inr e ↦ rw e (plug-spot (shl32 size_bits 1) right (right_of p left c))
]

plug-put :
    (ptr size_bits : ℕ) (t : Tree) (c : Context)
    → plug c (put ptr size_bits t) ≡ plug (spot size_bits t c) (node ptr leaf leaf)
unfolding spot
plug-put ptr size_bits leaf c = refl
plug-put ptr size_bits (node p left right) c = elim (Bool-cases (leading_bit size_bits == 0)) [
  | inl e ↦ rw e (plug-put ptr (shl32 size_bits 1) left (left_of p right c))
  | inr e ↦ rw e (plug-put ptr (shl32 size_bits 1) right (right_of p left c))
]

module _ (s : Space) (i ptr size fuel : ℕ) (t : Tree) (h : IsTreeBin s i t)
    (f : Fits s i ptr size t) (there : tree_bin_at s i ≢ null) (enough : depth t ≤ fuel) where
  stands :
      (s' : Space)
      → Inserted s s' i ptr size t
      → Stands s' i ptr (spot (bits_of i size) t whole) leaf leaf
  unfolding tree_bin_at
  stands s' done = record {
    bin = subst (λ u. IsTreeBin s' i u) (plug-put ptr (bits_of i size) t whole) done.tree;
    in_range = f.in_range;
    mapped = rw done.same_place there;
    index = done.own_index;
    alone = done.alone;
  }

  -- For a chunk that fits a tree bin with no chunk of its size, with fuel for the depth of the
  -- tree: `insertLargeChunk` and then `unlinkLargeChunk` of the chunk succeed, the bin is well
  -- formed with the tree that it had, and the digits of all other bins are what they were.
  pub unlink_large_chunk-insert_large_chunk :
      (after : Space) × ((insert_large_chunk fuel ptr size s >>= unlink_large_chunk fuel ptr)
        ≡ some after)
      × IsTreeBin after i t
      × SameDigits i s after
  unlink_large_chunk-insert_large_chunk =
      let (s', inserts, done) = insert_large_chunk-IsTreeBin s i ptr size fuel t h f enough in
      let (after, unlinks, bin, digits, sizes) =
        unlink_large_chunk-IsTreeBin s' i ptr fuel (spot (bits_of i size) t whole) leaf leaf
          (stands s' done) (omega arith) (omega arith) in
      (
        after,
        rw inserts unlinks,
        subst (λ u. IsTreeBin after i u) (plug-spot (bits_of i size) t whole) bin,
        λ j small ne. digits j small ne ∙ done.digits j small ne,
      )

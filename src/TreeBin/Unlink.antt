-- ===== src/TreeBin/Unlink.antt =====
-- `unlinkLargeChunk` of a chunk that stands in the tree of a bin and is the only one of its size.
use odin_memory_allocator.Base.{
  ℕ, ◌+◌, ◌≡◌, ◌≢◌, ◌≤◌, ◌<◌, ◌⊎◌, inl, inr, refl, ap, ◌∙◌, arith, Bool-cases, true, some, ◌!=◌,
  if◌then◌else◌,
}
use odin_memory_allocator.Base.Bits.{test_bit}
use odin_memory_allocator.Memory.{Memory, null}
use odin_memory_allocator.Chunk.{bk, chunk_size}
use odin_memory_allocator.Space.{Space, with_mem, tree_bin_at}
use odin_memory_allocator.TreeBin.{set_parent, tree_index, adopt, hang, relink, unlink_large_chunk}
use odin_memory_allocator.TreeBin.Shape.{
  Tree, node, root, depth, AllNodes, AllNodes-zip, heads_spare, AllNodes-map, ClearOf-Spares,
  Separate,
}
use odin_memory_allocator.TreeBin.Insert.{IsTreeBin, SameDigits, same_size}
use odin_memory_allocator.TreeBin.Remove.{
  Context, plug, removed, AllNodes-removed, AllNodes-plug, Separate-removed, Separate-plug,
}
use odin_memory_allocator.TreeBin.Replace.{
  Hangs, Replaced, place_of, up_of, Hangs-part, Replaced-plug,
}
use odin_memory_allocator.TreeBin.Detach.{moved, Detached, detach-Detached}
use odin_memory_allocator.TreeBin.Hang.{
  Hung, up_mapped, AllNodes-part, hang_there, digit_of, same_self,
}

relink_lem :
    (s t : Space) (p up q : ℕ)
    → up ≢ null
    → hang p up q s ≡ t
    → relink p up q s
      ≡ (if q != 0 then with_mem (λ m. adopt 1 p q (adopt 0 p q (set_parent q up m))) t else t)
unfolding relink
relink_lem s t p up q mapped hangs = rw (present up mapped, hangs) refl
  where
    present : (b : ℕ) → b ≢ null → (b != 0) ≡ true
    present b ne = ground (arith, ne)

-- Behind `unlinkLargeChunk`.
finished :
    (s t s' : Space) (m : Memory) (i place up p q r : ℕ)
    → Hung s t i place q r m
    → s' ≡ (if q != 0 then with_mem (λ m. adopt 1 p q (adopt 0 p q (set_parent q up m))) t else t)
    → (s'.mem ≡ moved place up p q m)
      × (s'.self ≡ s.self)
      × (test_bit i s'.tree_map ≡ digit_of r)
      × SameDigits i s s'
finished s t s' m i place up p q r hung e = rw e (elim (Bool-cases (q != 0)) [
  | inl x ↦ rw (x, hung.memory) (refl, hung.self, hung.digit, hung.digits)
  | inr x ↦ rw (x, hung.memory) (refl, hung.self, hung.digit, hung.digits)
])

bin_after :
    (s s' : Space) (m : Memory) (i : ℕ) (t t' : Tree)
    → s'.mem ≡ m
    → s'.self ≡ s.self
    → test_bit i s'.tree_map ≡ digit_of (root t')
    → Replaced s.mem m (tree_bin_at s i) (tree_bin_at s i) t t'
    → Separate t'
    → AllNodes (λ q. (tree_bin_at s i + 4 ≤ q) ⊎ (q + 32 ≤ tree_bin_at s i)) t'
    → IsTreeBin s' i t'
unfolding tree_bin_at
bin_after s s' m i t t' mem self digit r separate off = record {
  at_bin = rw (mem, same) r.at_place;
  linked = rw (mem, same) r.linked;
  separate = separate;
  off_bin = rw same off;
  digit = digit;
}
  where
    same : tree_bin_at s' i ≡ tree_bin_at s i
    same = same_self s s' i self

-- A chunk that stands at `c` in the tree of its bin, above `left` and `right`.
pub record Stands (s : Space) (i p : ℕ) (c : Context) (left right : Tree) : Type 0 where
  pub bin : IsTreeBin s i (plug c (node p left right))
  pub in_range : i < 32
  pub mapped : tree_bin_at s i ≢ null
  pub index : tree_index s.mem p ≡ i
  pub alone : bk s.mem p ≡ p

module _ (s : Space) (i p fuel : ℕ) (c : Context) (left right : Tree)
    (h : Stands s i p c left right) (deep : depth left ≤ fuel) (deep' : depth right ≤ fuel) where
  abbrev bin : ℕ
  bin = tree_bin_at s i

  off_bin :
      (u : Tree)
      → AllNodes (λ q. (bin + 4 ≤ q) ⊎ (q + 32 ≤ bin)) u
      → AllNodes (λ q. (bin + 4 ≤ q + 16) ⊎ (q + 28 ≤ bin)) u
  off_bin u a = AllNodes-map u (λ q (o : (bin + 4 ≤ q) ⊎ (q + 32 ≤ bin)). omega (arith, o)) a

  hangs : Hangs s.mem bin bin (plug c (node p left right))
  hangs = record {
    at_place = h.bin.at_bin;
    linked = h.bin.linked;
    separate = h.bin.separate;
    spared = off_bin (plug c (node p left right)) h.bin.off_bin;
  }

  part : Hangs s.mem (place_of bin c) (up_of bin c) (node p left right)
  part = Hangs-part s.mem bin c (node p left right) hangs

  d : Detached s.mem fuel (place_of bin c) (up_of bin c) p left right
  d = detach-Detached s.mem fuel (place_of bin c) (up_of bin c) p left right part h.alone deep deep'

  abbrev q : ℕ
  q = root (removed left right)

  bin_kept : d.taken bin ≡ root (plug c (node p left right))
  bin_kept =
      d.before bin (
        AllNodes-part (λ x. (bin + 4 ≤ x + 16) ⊎ (x + 28 ≤ bin)) c (node p left right) hangs.spared)
      ∙ h.bin.at_bin

  index_kept : d.taken (p + 28) ≡ i
  index_kept =
      d.before (p + 28) (
        inr (omega arith),
        ClearOf-Spares p 28 left (omega arith) part.separate.0,
        ClearOf-Spares p 28 right (omega arith) part.separate.1,
      )
      ∙ h.index

  place_kept : d.taken (place_of bin c) ≡ p
  place_kept = d.before (place_of bin c) part.spared ∙ part.at_place

  unlinks :
      (t : Space)
      → hang p (up_of bin c) q (record s { mem = d.taken }) ≡ t
      → unlink_large_chunk fuel p s
        ≡ some (
            if q != 0
            then with_mem (λ m. adopt 1 p q (adopt 0 p q (set_parent q (up_of bin c) m))) t
            else t)
  unfolding unlink_large_chunk
  unlinks t hang_eq =
      rw (d.detaches, part.linked.3)
        (ap some (
          relink_lem (record s { mem = d.taken }) t p (up_of bin c) q
            (up_mapped s.mem bin c (node p left right) hangs h.mapped) hang_eq))

  replaced :
      Replaced s.mem
        (moved (place_of bin c) (up_of bin c) p q d.taken)
        bin
        bin
        (plug c (node p left right))
        (plug c (removed left right))
  replaced =
      Replaced-plug s.mem (moved (place_of bin c) (up_of bin c) p q d.taken) bin c
        (node p left right) (removed left right) hangs d.result

  sizes :
      (m : Memory)
      → m ≡ moved (place_of bin c) (up_of bin c) p q d.taken
      → AllNodes (λ x. chunk_size m x ≡ chunk_size s.mem x) (plug c (removed left right))
  sizes m e = rw e (
      AllNodes-plug
        (λ x. chunk_size (moved (place_of bin c) (up_of bin c) p q d.taken) x ≡ chunk_size s.mem x)
        c (node p left right) (removed left right)
        (λ n.
          AllNodes-removed
            (λ x.
              chunk_size (moved (place_of bin c) (up_of bin c) p q d.taken) x ≡ chunk_size s.mem x)
            left right n.1 n.2)
        (AllNodes-zip (plug c (node p left right))
          (λ x spare (o : (bin + 4 ≤ x) ⊎ (x + 32 ≤ bin)).
            same_size s.mem (moved (place_of bin c) (up_of bin c) p q d.taken) x
              (replaced.kept (x + 4) spare (omega (arith, o))))
          (heads_spare (plug c (node p left right)) h.bin.separate) h.bin.off_bin))

  -- For a chunk that stands in the tree of a bin and is the only one of its size, with fuel for
  -- the depth below it: `unlinkLargeChunk` ends, and the bin is well formed with the tree in which
  -- the rightmost chunk below it, if there is one, has taken its place; the digits of all other
  -- bins stay, and the sizes of the chunks in it.
  pub unlink_large_chunk-IsTreeBin :
      (s' : Space) × (unlink_large_chunk fuel p s ≡ some s')
      × IsTreeBin s' i (plug c (removed left right))
      × SameDigits i s s'
      × AllNodes (λ x. chunk_size s'.mem x ≡ chunk_size s.mem x) (plug c (removed left right))
  unlink_large_chunk-IsTreeBin =
      let (t, hang_eq, hung) =
        hang_there s d.taken i p c left right (removed left right) h.in_range hangs h.bin.digit
          d.before bin_kept place_kept index_kept
          (omega (
            arith,
            (AllNodes-part (λ x. (bin + 4 ≤ x) ⊎ (x + 32 ≤ bin)) c (node p left right)
                h.bin.off_bin).0,
          )) in
      let (mem, self, digit, digits) =
        finished s t _ d.taken i (place_of bin c) (up_of bin c) p q
          (root (plug c (removed left right))) hung refl in
      (
        _,
        unlinks t hang_eq,
        bin_after s _ _ i (plug c (node p left right)) (plug c (removed left right)) mem self digit
            (Replaced-plug s.mem (moved (place_of bin c) (up_of bin c) p q d.taken) bin c
              (node p left right) (removed left right) hangs d.result)
            (Separate-plug c (node p left right) (removed left right)
              (λ P n. AllNodes-removed P left right n.1 n.2) (Separate-removed p left right)
              h.bin.separate)
            (AllNodes-plug (λ x. (bin + 4 ≤ x) ⊎ (x + 32 ≤ bin)) c (node p left right)
              (removed left right)
              (λ n. AllNodes-removed (λ x. (bin + 4 ≤ x) ⊎ (x + 32 ≤ bin)) left right n.1 n.2)
              h.bin.off_bin),
        digits,
        sizes _ mem,
      )

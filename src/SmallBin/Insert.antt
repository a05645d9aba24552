-- ===== src/SmallBin/Insert.antt =====
-- `insertSmallChunk` puts a free chunk at the front of its bin.
use odin_memory_allocator.Base.{
  ℕ, ◌+◌, ◌*◌, ◌%◌, ◌≡◌, ◌≢◌, ◌<◌, ◌≤◌, refl, sym, subst, ap, arith, List, ◌∷◌, All, ◌==◌,
  if◌then◌else◌, ℕ_discrete, Bool-cases, inl, inr, leb, shl32,
}
use odin_memory_allocator.Base.Bits.{test_bit}
use odin_memory_allocator.Memory.{Memory}
use odin_memory_allocator.Chunk.{chunk_size, min_chunk_size}
use odin_memory_allocator.Space.{
  Space, small_bin_at, mark_small_map, is_small_map_marked, assert_error,
}
use odin_memory_allocator.Space.Bitmap.{test_bit-mark_small_map, is_small_map_marked_lem}
use odin_memory_allocator.SmallBin.{insert_small_chunk}
use odin_memory_allocator.SmallBin.Ring.{Outside, linked_in, Links-insert}
use odin_memory_allocator.SmallBin.Frame.{
  Apart, Free, Free-Apart, Outside-NoneAt, Distinct-NoneAt, NoneAt-fd, Outside-ahead, NoneAt,
  Outside-aligned, sizes-kept, All-both, Free-cons, fd-All, All-map, linked_in-head,
  Links-linked_in_other,
}
use odin_memory_allocator.SmallBin.Inv.{
  update, IsBin, IsBins, small_bin_at_lem, index_of_size, update_rule, update_ne,
}

module _ (s : Space) (p i : ℕ) (small : i < 32) (room : 2 ≤ i) where
  abbrev after : Space
  after = insert_small_chunk p (8 * i) s

  abbrev bin : ℕ
  bin = small_bin_at s i

  after-self : after.self ≡ s.self
  unfolding insert_small_chunk mark_small_map
  after-self = ground arith

  after-failed : after.failed ≡ s.failed
  unfolding insert_small_chunk mark_small_map
  after-failed = ground arith

  after-bin : (j : ℕ) → small_bin_at after j ≡ small_bin_at s j
  unfolding small_bin_at
  after-bin j = ap (λ a. a + 24 + 4 * shl32 j 1) after-self

  after-mem : after.mem ≡ linked_in bin p (s.mem (bin + 8)) s.mem
  unfolding insert_small_chunk mark_small_map small_bin_at
  after-mem = ground (arith, index_of_size i small)

  after-map : (j : ℕ) → test_bit j after.small_map ≡ (if j == i then 1 else test_bit j s.small_map)
  unfolding insert_small_chunk
  after-map j = rw (index_of_size i small) (elim (Bool-cases (is_small_map_marked checked i)) [
    | inl old ↦ rw old (elim (ℕ_discrete j i) [
      | yes e ↦
          subst (λ k. test_bit k s.small_map ≡ (if k == i then 1 else test_bit k s.small_map))
            (sym e) (ground (arith, is_small_map_marked_lem checked i small, old))
      | no ne ↦ ground arith
    ])
    | inr new ↦ rw new (test_bit-mark_small_map checked i j small)
  ])
    where
      checked : Space
      checked = assert_error (leb min_chunk_size (8 * i)) s

  after-marked : test_bit i after.small_map ≡ 1
  after-marked = ground (arith, after-map i)

  after-kept : (j : ℕ) → j ≢ i → test_bit j after.small_map ≡ test_bit j s.small_map
  after-kept j ne = ground (arith, after-map j)

-- In memory: the bin that receives the chunk, and any other.
module _ (m : Memory) (b p i : ℕ) (eb : b % 8 ≡ 0) where
  receives :
      (mark : ℕ) (xs : List ℕ)
      → IsBin m b i mark xs
      → Free p b xs
      → chunk_size m p ≡ 8 * i
      → IsBin (linked_in b p (m (b + 8)) m) b i 1 (p ∷ xs)
  receives mark xs v free sized = record {
    links =
        Links-insert b p m xs eb free.0 (omega (arith, free.1)) v.links v.outside free.2 v.distinct;
    outside = (free.1, free.0, v.outside);
    distinct = (free.2, v.distinct);
    sizes =
        sizes-kept m _ _ i (p ∷ xs)
          (λ x k. linked_in-head b p (m (b + 8)) x m eb k.0.1 k.0.0 k.1.0 free.0)
          (All-both (λ x. (x ≢ p + 8) × (x % 8 ≡ 0)) (λ x. (x ≢ m (b + 8) + 8) × (x % 8 ≡ 0))
            (p ∷ xs) ((omega arith, free.0), Outside-NoneAt p xs free.2) ((ahead, free.0), none))
          (sized, v.sizes);
    marked = refl;
  }
    where
      none : NoneAt (m (b + 8)) xs
      none =
          NoneAt-fd m b xs xs b v.links v.outside
            (Distinct-NoneAt xs v.distinct (Outside-aligned b xs v.outside))

      ahead : p ≢ m (b + 8) + 8
      ahead =
          fd-All (λ f. p ≢ f + 8) m b xs b v.links (omega (arith, free.1))
            (Outside-ahead p xs free.2)

  spared :
      (z j mark f : ℕ) (ys : List ℕ)
      → z % 8 ≡ 0
      → Apart b z ys
      → Apart p z ys
      → Apart f z ys
      → IsBin m z j mark ys
      → IsBin (linked_in b p f m) z j mark ys
  spared z j mark f ys ez ab ap af v = record {
    links = Links-linked_in_other m z ys ez b p f ab ap af v.links;
    outside = v.outside;
    distinct = v.distinct;
    sizes =
        sizes-kept m _ _ j ys (λ x k. linked_in-head b p f x m eb k.1.1 k.0.0 k.1.0 ap.0)
          (All-both (λ x. (x ≢ p + 8) × (x % 8 ≡ 0)) (λ x. (x ≢ f + 8) × (x % 8 ≡ 0)) ys
            (Outside-NoneAt p ys ap.2) (Outside-NoneAt f ys af.2))
          v.sizes;
    marked = v.marked;
  }

module _ (s : Space) (bins : ℕ → List ℕ) (p i : ℕ) (inv : IsBins s bins) (small : i < 32)
    (room : 2 ≤ i) (sized : chunk_size s.mem p ≡ 8 * i)
    (fresh : (j : ℕ) → j < 32 → Free p (small_bin_at s j) (bins j)) where
  bin_aligned : (j : ℕ) → j < 32 → small_bin_at s j % 8 ≡ 0
  bin_aligned j h = omega (arith, small_bin_at_lem s j h, inv.aligned)

  -- The chunk that was first, or the header, is apart from every other bin.
  first-Apart :
      (j : ℕ) → j < 32 → j ≢ i → Apart (s.mem (small_bin_at s i + 8)) (small_bin_at s j) (bins j)
  first-Apart j h ne =
      fd-All (λ f. Apart f (small_bin_at s j) (bins j)) s.mem (small_bin_at s i) (bins i)
        (small_bin_at s i) (inv.bin i small).links
        (
          bin_aligned i small,
          omega (arith, small_bin_at_lem s i small, small_bin_at_lem s j h),
          inv.headers i j small h,
        )
        (All-map (λ x. Free x (small_bin_at s j) (bins j))
          (λ x. Apart x (small_bin_at s j) (bins j)) (bins i)
          (λ x. Free-Apart x (small_bin_at s j) (bins j)) (inv.apart i j small h (λ e. ne (sym e))))

  abbrev s' : Space
  s' = insert_small_chunk p (8 * i) s

  abbrev bins' : ℕ → List ℕ
  bins' = update bins i (p ∷ bins i)

  abbrev BinAfter : ℕ → List ℕ → Type 0
  BinAfter j ys = j < 32 → IsBin s'.mem (small_bin_at s' j) j (test_bit j s'.small_map) ys

  filled : BinAfter i (p ∷ bins i)
  filled h =
      rw (after-marked s p i small room, after-bin s p i small room i, after-mem s p i small room)
        (receives s.mem (small_bin_at s i) p i (bin_aligned i small) _ (bins i) (inv.bin i small)
          (fresh i small) sized)

  kept : (j : ℕ) → j ≢ i → BinAfter j (bins j)
  kept j ne h =
      rw
        (after-kept s p i small room j ne, after-bin s p i small room j, after-mem s p i small room)
        (spared s.mem (small_bin_at s i) p i (bin_aligned i small) (small_bin_at s j) j _
          (s.mem (small_bin_at s i + 8)) (bins j) (bin_aligned j h)
          (
            bin_aligned i small,
            omega (arith, small_bin_at_lem s i small, small_bin_at_lem s j h),
            inv.headers i j small h,
          )
          (Free-Apart p (small_bin_at s j) (bins j) (fresh j h)) (first-Apart j h ne) (inv.bin j h))

  abbrev ApartAfter : ℕ → List ℕ → Type 0
  ApartAfter k xs =
      (j : ℕ) → k < 32 → j < 32 → k ≢ j → All (λ x. Free x (small_bin_at s' j) (bins' j)) xs

  new_apart : ApartAfter i (p ∷ bins i)
  new_apart j hi hj ne =
      subst (λ z. All (λ x. Free x z (bins' j)) (p ∷ bins i)) (sym (after-bin s p i small room j))
        (subst (λ ys. All (λ x. Free x (small_bin_at s j) ys) (p ∷ bins i))
          (sym (update_ne bins i (p ∷ bins i) j (λ e. ne (sym e))))
          (fresh j hj, inv.apart i j hi hj ne))

  old_apart : (k : ℕ) → k ≢ i → ApartAfter k (bins k)
  old_apart k nk j hk hj ne = rw (after-bin s p i small room j) (
      update_rule (λ l ys. l < 32 → k ≢ l → All (λ x. Free x (small_bin_at s l) ys) (bins k)) bins i
        (p ∷ bins i)
        (λ hl nl.
          Free-cons p (small_bin_at s i) (bins i) (bins k) (fresh i small).0 (fresh k hk).2
            (inv.apart k i hk small nk))
        (λ l nl hl n. inv.apart k l hk hl n) j hj ne)

  -- Where the small bins of a space are well formed, `insertSmallChunk` of a chunk of `8 * i`
  -- bytes (`2 ≤ i < 32`) that starts at least 16 bytes away from all headers and chunks keeps them
  -- well formed, with the chunk at the front of bin `i` and all other bins as they were: every bin
  -- is still a ring in both directions, any two chunks start at least 16 bytes apart, sizes fit
  -- the bin, and the map says which bins are filled.
  pub insert-IsBins : IsBins s' bins'
  insert-IsBins = record {
    aligned = rw (after-self s p i small room) inv.aligned;
    bin = update_rule BinAfter bins i (p ∷ bins i) filled kept;
    headers = λ k j hk hj. rw (after-bin s p i small room k) (
        update_rule (λ j ys. j < 32 → Outside (small_bin_at s k) ys) bins i (p ∷ bins i)
          (λ h. ((fresh k hk).1, (fresh k hk).0, inv.headers k i hk h))
          (λ j ne h. inv.headers k j hk h) j hj);
    apart = λ k j hk hj. update_rule ApartAfter bins i (p ∷ bins i) new_apart old_apart k j hk hj;
  }

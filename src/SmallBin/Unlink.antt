-- ===== src/SmallBin/Unlink.antt =====
-- `unlinkSmallChunk` takes a chunk out of any place of its bin, `unlinkFirstSmallChunk` out of the
-- first.
use odin_memory_allocator.Base.{
  ℕ, ◌+◌, ◌*◌, ◌%◌, ◌≡◌, ◌≢◌, ◌<◌, sym, subst, ap, arith, List, [], ◌∷◌, ◌++◌, All, ◌==◌,
  if◌then◌else◌, Bool-cases, inl, inr, shl32, ◌∙◌,
}
use odin_memory_allocator.Base.Bits.{test_bit}
use odin_memory_allocator.Chunk.{chunk_size}
use odin_memory_allocator.Space.{Space, small_bin_at, clear_small_map}
use odin_memory_allocator.Space.Bitmap.{test_bit-clear_small_map}
use odin_memory_allocator.SmallBin.{unlink_small_chunk, unlink_first_small_chunk}
use odin_memory_allocator.SmallBin.Ring.{Outside, linked_out, Links-drop}
use odin_memory_allocator.SmallBin.Frame.{
  Apart, Free, Free-Apart, All-append, fd-All, bk-All, All-map,
}
use odin_memory_allocator.SmallBin.Inv.{
  is_filled, update, IsBin, IsBins, small_bin_at_lem, index_of_size, size_of_index, update_rule,
  update_ne,
}
use odin_memory_allocator.SmallBin.Removal.{
  Outside-remove, All-remove, is_filled-middle, is_filled-le, p-back, p-forward, same_neighbours,
  leaves, spared,
}

module _ (s : Space) (bins : ℕ → List ℕ) (p i : ℕ) (xs ys : List ℕ) (inv : IsBins s bins)
    (small : i < 32) (holds : bins i ≡ xs ++ p ∷ ys) where
  abbrev after : Space
  after = unlink_small_chunk p (8 * i) s

  abbrev b : ℕ
  b = small_bin_at s i

  eb : b % 8 ≡ 0
  eb = omega (arith, small_bin_at_lem s i small, inv.aligned)

  here : IsBin s.mem b i (test_bit i s.small_map) (xs ++ p ∷ ys)
  here = subst (IsBin s.mem b i (test_bit i s.small_map)) holds (inv.bin i small)

  after-self : after.self ≡ s.self
  unfolding unlink_small_chunk clear_small_map
  after-self = ground arith

  after-mem : after.mem ≡ linked_out (s.mem (p + 12)) (s.mem (p + 8)) s.mem
  unfolding unlink_small_chunk clear_small_map
  after-mem = ground arith

  chunk_size-p : chunk_size s.mem p ≡ 8 * i
  chunk_size-p = (All-append (λ x. chunk_size s.mem x ≡ 8 * i) xs (p ∷ ys) here.sizes).1.0

  -- No check fails.
  after-failed : after.failed ≡ s.failed
  unfolding unlink_small_chunk clear_small_map
  after-failed = ground (
    arith,
    p-back s.mem b i _ p xs ys eb here,
    p-forward s.mem b i _ p xs ys eb here,
    index_of_size i small,
    size_of_index i small,
    chunk_size-p,
  )

  after-bin : (j : ℕ) → small_bin_at after j ≡ small_bin_at s j
  unfolding small_bin_at
  after-bin j = ap (λ a. a + 24 + 4 * shl32 j 1) after-self

  mark-filled : test_bit i s.small_map ≡ 1
  mark-filled = here.marked ∙ is_filled-middle xs p ys

  after-small_map :
      after.small_map
      ≡ (if is_filled (xs ++ ys) == 0 then (clear_small_map i s).small_map else s.small_map)
  unfolding unlink_small_chunk clear_small_map
  after-small_map =
      ground (arith, same_neighbours s.mem b i _ p xs ys eb here, index_of_size i small)

  after-marked : test_bit i after.small_map ≡ is_filled (xs ++ ys)
  after-marked = rw after-small_map (elim (Bool-cases (is_filled (xs ++ ys) == 0)) [
    | inl empty ↦ rw empty (ground (arith, test_bit-clear_small_map s i i small small))
    | inr more ↦ rw more (ground (arith, is_filled-le (xs ++ ys), mark-filled))
  ])

  after-kept : (j : ℕ) → j < 32 → j ≢ i → test_bit j after.small_map ≡ test_bit j s.small_map
  after-kept j h ne = rw after-small_map (elim (Bool-cases (is_filled (xs ++ ys) == 0)) [
    | inl empty ↦ rw empty (ground (arith, test_bit-clear_small_map s i j small h))
    | inr more ↦ rw more
  ])

  abbrev bins' : ℕ → List ℕ
  bins' = update bins i (xs ++ ys)

  abbrev ApartFrom : ℕ → ℕ → Type 0
  ApartFrom j q = Apart q (small_bin_at s j) (bins j)

  header_apart : (j : ℕ) → j < 32 → j ≢ i → ApartFrom j b
  header_apart j h ne = (
    eb,
    omega (arith, small_bin_at_lem s i small, small_bin_at_lem s j h),
    inv.headers i j small h,
  )

  others_apart : (j : ℕ) → j < 32 → j ≢ i → All (ApartFrom j) xs × All (ApartFrom j) (p ∷ ys)
  others_apart j h ne = All-append (ApartFrom j) xs (p ∷ ys) (
      subst (All (ApartFrom j)) holds (
        All-map (λ x. Free x (small_bin_at s j) (bins j)) (ApartFrom j) (bins i)
          (λ x. Free-Apart x (small_bin_at s j) (bins j))
          (inv.apart i j small h (λ e. ne (sym e)))))

  abbrev BinAfter : ℕ → List ℕ → Type 0
  BinAfter j zs = j < 32 → IsBin after.mem (small_bin_at after j) j (test_bit j after.small_map) zs

  left : BinAfter i (xs ++ ys)
  left h =
      rw (after-bin i, after-mem)
        (leaves s.mem b i _ p xs ys eb here (test_bit i after.small_map) after-marked)

  kept : (j : ℕ) → j ≢ i → BinAfter j (bins j)
  kept j ne h =
      rw (after-kept j h ne, after-bin j, after-mem)
        (spared s.mem b i _ p xs ys eb here (small_bin_at s j) j _ (bins j)
          (omega (arith, small_bin_at_lem s j h, inv.aligned))
          (bk-All (ApartFrom j) s.mem b xs p ys b here.links (header_apart j h ne)
            (others_apart j h ne).0)
          (fd-All (ApartFrom j) s.mem p ys b (Links-drop s.mem b xs p ys b here.links)
            (header_apart j h ne) (others_apart j h ne).1.1)
          (inv.bin j h))

  abbrev ApartAfter : ℕ → List ℕ → Type 0
  ApartAfter k zs =
      (j : ℕ) → k < 32 → j < 32 → k ≢ j → All (λ x. Free x (small_bin_at after j) (bins' j)) zs

  left_apart : ApartAfter i (xs ++ ys)
  left_apart j hi hj ne =
      subst (λ z. All (λ x. Free x z (bins' j)) (xs ++ ys)) (sym (after-bin j))
        (subst (λ zs. All (λ x. Free x (small_bin_at s j) zs) (xs ++ ys))
          (sym (update_ne bins i (xs ++ ys) j (λ e. ne (sym e))))
          (All-remove (λ x. Free x (small_bin_at s j) (bins j)) xs p ys
            (subst (All (λ x. Free x (small_bin_at s j) (bins j))) holds (inv.apart i j hi hj ne))))

  old_apart : (k : ℕ) → k ≢ i → ApartAfter k (bins k)
  old_apart k nk j hk hj ne =
      subst (λ z. All (λ x. Free x z (bins' j)) (bins k)) (sym (after-bin j))
        (update_rule (λ l zs. l < 32 → k ≢ l → All (λ x. Free x (small_bin_at s l) zs) (bins k))
          bins i (xs ++ ys)
          (λ hl nl.
            All-map (λ x. Free x b (bins i)) (λ x. Free x b (xs ++ ys)) (bins k)
              (λ x f. (f.0, f.1, Outside-remove x xs p ys (subst (Outside x) holds f.2)))
              (inv.apart k i hk small nk))
          (λ l nl hl n. inv.apart k l hk hl n) j hj ne)

  -- Where the small bins of a space are well formed and bin `i` (`i < 32`) holds `xs ++ p ∷ ys`,
  -- `unlinkSmallChunk` of `p` keeps them well formed, with `xs ++ ys` in bin `i` and all other
  -- bins as they were; the digit of the map is cleared exactly if nothing is left in the bin.
  pub unlink-IsBins : IsBins after bins'
  unlink-IsBins = record {
    aligned = rw after-self inv.aligned;
    bin = update_rule BinAfter bins i (xs ++ ys) left kept;
    headers = λ k j hk hj. rw (after-bin k) (
        update_rule (λ j zs. j < 32 → Outside (small_bin_at s k) zs) bins i (xs ++ ys)
          (λ h.
            Outside-remove (small_bin_at s k) xs p ys
              (subst (Outside (small_bin_at s k)) holds (inv.headers k i hk h)))
          (λ j ne h. inv.headers k j hk h) j hj);
    apart = λ k j hk hj. update_rule ApartAfter bins i (xs ++ ys) left_apart old_apart k j hk hj;
  }

-- For the first chunk of a bin of well formed small bins, `unlinkFirstSmallChunk` does exactly
-- what `unlinkSmallChunk` does.
pub unlink_first_eq_unlink :
    (s : Space) (bins : ℕ → List ℕ) (p i : ℕ) (ys : List ℕ)
    → IsBins s bins
    → i < 32
    → bins i ≡ p ∷ ys
    → unlink_first_small_chunk p i s ≡ unlink_small_chunk p (8 * i) s
unfolding unlink_small_chunk unlink_first_small_chunk
unlink_first_eq_unlink s bins p i ys inv small holds = rw (index_of_size i small, back)
  where
    back : s.mem (p + 12) ≡ small_bin_at s i
    back = (here s bins p i [] ys inv small holds).links.1

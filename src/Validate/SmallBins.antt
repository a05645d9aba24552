-- ===== src/Validate/SmallBins.antt =====
-- MemAlloc.cpp, `checkFreeChunk` and `checkSmallbin`: which bins pass.
use odin_memory_allocator.Base.{
  ℕ, zero, suc, ◌+◌, ◌*◌, ◌%◌, ◌^◌, ◌<◌, ◌≡◌, ◌≢◌, ◌⊎◌, refl, sym, ap, ◌∙◌, arith, List, [], ◌∷◌,
  ◌++◌, length, All, Bool, true, false, not, ◌&&◌, ◌||◌, some, inl, inr, leb, ◌==◌, ◌!=◌, ==_iff,
  if◌then◌else◌, bit_and, shl32,
}
use odin_memory_allocator.Base.Bits.{test_bit, bit_and_mask}
use odin_memory_allocator.Memory.{Memory}
use odin_memory_allocator.Chunk.{
  chunk_size, fd, bk, prev_foot, is_aligned, is_inuse, get_pinuse, next_pinuse, alignment_mask,
  min_chunk_size, chunk_plus_offset,
}
use odin_memory_allocator.Chunk.Sizes.{is_aligned_iff}
use odin_memory_allocator.Bins.{get_small_bin_index, index_to_bit}
use odin_memory_allocator.Space.{Space, small_bin_at, assert_error_passes, is_small_map_marked}
use odin_memory_allocator.Space.Bitmap.{is_small_map_marked_lem}
use odin_memory_allocator.Checks.{check_free_chunk}
use odin_memory_allocator.SmallBin.Ring.{Links, Outside}
use odin_memory_allocator.SmallBin.Inv.{IsBin, IsBins, index_of_size}
use odin_memory_allocator.Validate.{check_binned, check_back, check_smallbin}

-- The chunk `p` of `size` bytes is free, between chunks in use or before the top: what its header and
-- those of its neighbours say.
pub record IsFreeChunk (s : Space) (size p : ℕ) : Type 0 where
  pub aligned : p % 8 ≡ 0
  pub within : p + 8 < 2 ^ 32
  pub unused : is_inuse s.mem p ≡ false
  pub after_unused : next_pinuse s.mem p ≡ 0
  pub foot : prev_foot s.mem (chunk_plus_offset p size) ≡ size
  pub before_used : get_pinuse s.mem p ≢ 0
  pub next_used :
      (chunk_plus_offset p size ≡ s.top) ⊎ (is_inuse s.mem (chunk_plus_offset p size) ≡ true)

-- The links of a chunk and of its neighbours agree.
abbrev pub InRing : Memory → ℕ → Type 0
InRing m p = (bk m (fd m p) ≡ p) × (fd m (bk m p) ≡ p)

Links-InRing : (m : Memory) (a : ℕ) (xs : List ℕ) (z : ℕ) → Links m a xs z → All (InRing m) xs
Links-InRing m a [] z l = tt
Links-InRing m a (x ∷ xs) z l = ((forth xs l.2, ap (fd m) l.1 ∙ l.0), Links-InRing m x xs z l.2)
  where
    forth : (ys : List ℕ) → Links m x ys z → bk m (fd m x) ≡ x
    forth [] k = ap (bk m) k.0 ∙ k.1
    forth (y ∷ ys) k = ap (bk m) k.0 ∙ k.1

module _ (s : Space) (size p : ℕ) (f : IsFreeChunk s size p) (ring : InRing s.mem p)
    (sized : chunk_size s.mem p ≡ size) (whole : size % 8 ≡ 0) where
  in_place : is_aligned p ≡ true
  in_place = (is_aligned_iff p).1 f.aligned

  memory_in_place : is_aligned ((p + 8) % 2 ^ 32) ≡ true
  memory_in_place = (is_aligned_iff _).1 (omega (arith, f.aligned))

  free : not (is_inuse s.mem p) ≡ true
  free = rw f.unused refl

  next_sees : not (next_pinuse s.mem p != 0) ≡ true
  next_sees = ground (arith, f.after_unused)

  whole_p : (bit_and size alignment_mask == 0) ≡ true
  whole_p = ground (arith, bit_and_mask 3 size, whole)

  foot_p : (prev_foot s.mem (chunk_plus_offset p size) == size) ≡ true
  foot_p = (==_iff _ _).1 f.foot

  used_before : (get_pinuse s.mem p != 0) ≡ true
  used_before = ground (arith, f.before_used)

  used_after :
      (chunk_plus_offset p size == s.top || is_inuse s.mem (chunk_plus_offset p size)) ≡ true
  used_after = ground (arith, f.next_used)

  back_p : (bk s.mem (fd s.mem p) == p) ≡ true
  back_p = (==_iff _ _).1 ring.0

  forth_p : (fd s.mem (bk s.mem p) == p) ≡ true
  forth_p = (==_iff _ _).1 ring.1

  pub check_free_passes : check_free_chunk p s ≡ s
  unfolding check_free_chunk
  check_free_passes =
      rw
        (
          sized,
          assert_error_passes _ s in_place,
          assert_error_passes _ s free,
          assert_error_passes _ s next_sees,
          assert_error_passes _ s whole_p,
          assert_error_passes _ s memory_in_place,
          assert_error_passes _ s foot_p,
          assert_error_passes _ s used_before,
          assert_error_passes _ s used_after,
          assert_error_passes _ s back_p,
          assert_error_passes _ s forth_p,
        )
        (same (p != s.dv && p != s.top) (leb min_chunk_size size))
    where
      same : (a b : Bool) → (if a then if b then s else s else s) ≡ s
      same a b = ground arith

-- `bk` leads from `z` through `ys` to `a`.
abbrev Back : Memory → ℕ → List ℕ → ℕ → Type 0
Back m z [] a = bk m z ≡ a
Back m z (y ∷ ys) a = (bk m z ≡ y) × Back m y ys a

abbrev backwards : List ℕ → List ℕ
backwards [] = []
backwards (x ∷ xs) = backwards xs ++ x ∷ []

Back-snoc :
    (m : Memory) (z x a : ℕ) (ys : List ℕ) → Back m z ys x → bk m x ≡ a → Back m z (ys ++ x ∷ []) a
Back-snoc m z x a [] k e = (k, e)
Back-snoc m z x a (y ∷ ys) k e = (k.0, Back-snoc m y x a ys k.1 e)

Links-Back : (m : Memory) (a : ℕ) (xs : List ℕ) (z : ℕ) → Links m a xs z → Back m z (backwards xs) a
Links-Back m a [] z l = l.1
Links-Back m a (x ∷ xs) z l = Back-snoc m z x a (backwards xs) (Links-Back m x xs z l.2) l.1

All-snoc {κ} : (P : ℕ → Type κ) (ys : List ℕ) (x : ℕ) → All P ys → P x → All P (ys ++ x ∷ [])
All-snoc P [] x ps px = (px, tt)
All-snoc P (y ∷ ys) x ps px = (ps.0, All-snoc P ys x ps.1 px)

All-backwards {κ} : (P : ℕ → Type κ) (xs : List ℕ) → All P xs → All P (backwards xs)
All-backwards P [] ps = tt
All-backwards P (x ∷ xs) ps = All-snoc P (backwards xs) x (All-backwards P xs ps.1) ps.0

length-snoc : (ys : List ℕ) (x : ℕ) → length (ys ++ x ∷ []) ≡ suc (length ys)
length-snoc [] x = refl
length-snoc (y ∷ ys) x = ap suc (length-snoc ys x)

length-backwards : (xs : List ℕ) → length (backwards xs) ≡ length xs
length-backwards [] = refl
length-backwards (x ∷ xs) = length-snoc (backwards xs) x ∙ ap suc (length-backwards xs)

-- What `checkSmallbin` needs to know of a chunk of bin `i`.
record Good (s : Space) (bin i p : ℕ) : Type 0 where
  free : IsFreeChunk s (8 * i) p
  ring : InRing s.mem p
  sized : chunk_size s.mem p ≡ 8 * i
  other : p ≢ bin

module _ (s : Space) (bin i : ℕ) (small : i < 32) where
  check_binned_passes :
      (p : ℕ)
      → Good s bin i p
      → (bk s.mem p ≡ bin) ⊎ (chunk_size s.mem (bk s.mem p) ≡ 8 * i)
      → check_binned bin i p s ≡ s
  unfolding check_binned
  check_binned_passes p g next =
      rw
        (
          check_free_passes s (8 * i) p g.free g.ring g.sized (omega arith),
          assert_error_passes _ s
              ((==_iff _ i).1 (ap get_small_bin_index g.sized ∙ index_of_size i small)),
        )
        (assert_error_passes _ s neighbour)
    where
      neighbour : (bk s.mem p == bin || chunk_size s.mem (bk s.mem p) == chunk_size s.mem p) ≡ true
      neighbour = ground (arith, next, g.sized)

  next_of :
      (p : ℕ) (ys : List ℕ)
      → Back s.mem p ys bin
      → All (Good s bin i) ys
      → (bk s.mem p ≡ bin) ⊎ (chunk_size s.mem (bk s.mem p) ≡ 8 * i)
  next_of p [] k g = inl k
  next_of p (y ∷ ys) k g = inr (ap (chunk_size s.mem) k.0 ∙ g.0.sized)

  check_back_passes :
      (fuel z : ℕ) (ys : List ℕ)
      → Back s.mem z ys bin
      → All (Good s bin i) ys
      → length ys < fuel
      → check_back fuel bin i (bk s.mem z) s ≡ some s
  unfolding check_back
  check_back_passes zero z ys k g h = absurd (omega arith)
  check_back_passes (suc fuel) z [] k g h = rw (k, at_end) refl
    where
      at_end : (bin != bin) ≡ false
      at_end = ground arith
  check_back_passes (suc fuel) z (y ∷ ys) k g h =
      rw (k.0, inside, check_binned_passes y g.0 (next_of y ys k.1 g.1))
        (check_back_passes fuel y ys k.1 g.1 (omega arith))
    where
      inside : (y != bin) ≡ true
      inside = ground (arith, g.0.other)

All-Good :
    (s : Space) (bin i : ℕ) (xs : List ℕ)
    → All (IsFreeChunk s (8 * i)) xs
    → All (InRing s.mem) xs
    → All (λ x. chunk_size s.mem x ≡ 8 * i) xs
    → Outside bin xs
    → All (Good s bin i) xs
All-Good s bin i [] f r z o = tt
All-Good s bin i (x ∷ xs) f r z o = (
  record { free = f.0; ring = r.0; sized = z.0; other = omega (arith, o.0) },
  All-Good s bin i xs f.1 r.1 z.1 o.2,
)

-- The test of `checkSmallbin` on the map.
empty_by_mark :
    (s : Space) (i : ℕ)
    → i < 32
    → (bit_and s.small_map (shl32 1 i) == 0) ≡ not (test_bit i s.small_map == 1)
unfolding is_small_map_marked index_to_bit
empty_by_mark s i lt = ground (arith, is_small_map_marked_lem s i lt)

last-ne :
    (m : Memory) (z : ℕ) (ys : List ℕ) (a : ℕ)
    → Back m z ys a
    → 0 < length ys
    → All (λ y. y ≢ a) ys
    → bk m z ≢ a
last-ne m z [] a k h ne = absurd (omega arith)
last-ne m z (y ∷ ys) a k h ne = λ e. ne.0 (sym k.0 ∙ e)

All-other : (s : Space) (bin i : ℕ) (ys : List ℕ) → All (Good s bin i) ys → All (λ y. y ≢ bin) ys
All-other s bin i [] g = tt
All-other s bin i (y ∷ ys) g = (g.0.other, All-other s bin i ys g.1)

-- One bin, by whether it holds a chunk.
check_one :
    (s : Space) (i fuel : ℕ) (xs : List ℕ)
    → i < 32
    → IsBin s.mem (small_bin_at s i) i (test_bit i s.small_map) xs
    → All (Good s (small_bin_at s i) i) xs
    → length xs < fuel
    → check_smallbin fuel i s ≡ some s
unfolding check_smallbin
check_one s i fuel [] lt b g enough =
    rw (empty_by_mark s i lt, b.marked, b.links.1, at_bin, assert_error_passes true s refl) refl
  where
    at_bin : (small_bin_at s i == small_bin_at s i) ≡ true
    at_bin = (==_iff _ (small_bin_at s i)).1 refl
check_one s i fuel (x ∷ xs) lt b g enough =
    rw (empty_by_mark s i lt, b.marked, filled)
      (check_back_passes s bin i lt fuel bin ys back good
        (omega (arith, length-backwards (x ∷ xs), enough)))
  where
    bin : ℕ
    bin = small_bin_at s i

    ys : List ℕ
    ys = backwards (x ∷ xs)

    back : Back s.mem bin ys bin
    back = Links-Back s.mem bin (x ∷ xs) bin b.links

    good : All (Good s bin i) ys
    good = All-backwards (Good s bin i) (x ∷ xs) g

    filled : (bk s.mem bin == bin) ≡ false
    filled = ground (
      arith,
      last-ne s.mem bin ys bin back (omega (arith, length-backwards (x ∷ xs)))
          (All-other s bin i ys good),
    )

-- Where the small bins are well formed and each chunk of bin `i` (`i < 32`) is free by its header and
-- its neighbours', `checkSmallbin` of the bin ends with fuel for the chunks and one more, and finds
-- nothing wrong.
pub check_smallbin_passes :
    (s : Space) (bins : ℕ → List ℕ) (i fuel : ℕ)
    → IsBins s bins
    → i < 32
    → All (IsFreeChunk s (8 * i)) (bins i)
    → length (bins i) < fuel
    → check_smallbin fuel i s ≡ some s
check_smallbin_passes s bins i fuel h lt free enough =
    let b = h.bin i lt in
    check_one s i fuel (bins i) lt b
      (All-Good s (small_bin_at s i) i (bins i) free
        (Links-InRing s.mem (small_bin_at s i) (bins i) (small_bin_at s i) b.links) b.sizes
        b.outside)
      enough

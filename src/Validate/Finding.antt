-- ===== src/Validate/Finding.antt =====
-- MemAlloc.cpp, `findInBin` on the small bins.
use odin_memory_allocator.Base.{
  ℕ, zero, suc, ◌*◌, ◌/◌, ◌%◌, ◌^◌, ◌<◌, ◌≤◌, ◌≡◌, ◌≢◌, refl, ◌∙◌, arith, List, [], ◌∷◌, length,
  Bool, true, false, ◌||◌, some, Bool-cases, ◌⊎◌, inl, inr, ◌==◌, if◌then◌else◌,
}
use odin_memory_allocator.Base.Bits.{test_bit}
use odin_memory_allocator.Memory.{Memory}
use odin_memory_allocator.Chunk.{chunk_size}
use odin_memory_allocator.Bins.{is_small}
use odin_memory_allocator.Space.{Space, small_bin_at, is_small_map_marked}
use odin_memory_allocator.Space.Bitmap.{is_small_map_marked_lem}
use odin_memory_allocator.SmallBin.Ring.{Links, Outside}
use odin_memory_allocator.SmallBin.Inv.{IsBin, IsBins, is_filled, index_of_size}
use odin_memory_allocator.Validate.{find_in_ring, find_in_bin}

abbrev pub is_member : ℕ → List ℕ → Bool
is_member p [] = false
is_member p (x ∷ xs) = x == p || is_member p xs

-- The loop, at a chunk with the chunks `xs` between it and the end.
find_in_ring_lem :
    (fuel : ℕ) (m : Memory) (z p x : ℕ) (xs : List ℕ)
    → Links m x xs z
    → Outside z xs
    → length xs < fuel
    → find_in_ring fuel m z p x ≡ some (x == p || is_member p xs)
unfolding find_in_ring
find_in_ring_lem zero m z p x xs l o h = absurd (omega arith)
find_in_ring_lem (suc fuel) m z p x [] l o h = ground (arith, l.0)
find_in_ring_lem (suc fuel) m z p x (y ∷ ys) l o h = elim (Bool-cases (x == p)) [
  | inl found ↦ rw found refl
  | inr other ↦ rw (other, l.0, apart) (find_in_ring_lem fuel m z p y ys l.2 o.2 (omega arith))
]
  where
    apart : (y == z) ≡ false
    apart = ground (arith, o.0)

is_filled-le : (xs : List ℕ) → is_filled xs ≤ 1
is_filled-le [] = omega arith
is_filled-le (x ∷ xs) = omega arith

not_filled : (xs : List ℕ) → is_filled xs ≡ 0 → (p : ℕ) → is_member p xs ≡ false
not_filled [] h p = refl
not_filled (x ∷ xs) h p = absurd (omega arith)

is_small_size : (i : ℕ) → i < 32 → is_small (8 * i) ≡ true
unfolding is_small
is_small_size i h = ground (arith, eight i)
  where
    eight : (k : ℕ) → 8 * k / 2 ^ (3 % 32) ≡ k
    eight k = omega arith

-- Where the small bins are well formed and bin `i` (`i < 32`) holds `xs`, `findInBin` of a chunk
-- of `8 * i` bytes that is not the header of the bin ends with fuel for the chunks of the bin and
-- one more, and tells whether the chunk is among `xs`.
pub find_in_bin_small :
    (s : Space) (bins : ℕ → List ℕ) (i p fuel : ℕ)
    → IsBins s bins
    → i < 32
    → chunk_size s.mem p ≡ 8 * i
    → p ≢ small_bin_at s i
    → length (bins i) < fuel
    → find_in_bin fuel p s ≡ some (is_member p (bins i))
unfolding find_in_bin
find_in_bin_small s bins i p fuel h lt size ne enough =
    rw (size, is_small_size i lt, index_of_size i lt)
      (by_mark (Bool-cases (is_small_map_marked s i)))
  where
    bin : IsBin s.mem (small_bin_at s i) i (test_bit i s.small_map) (bins i)
    bin = h.bin i lt

    by_mark :
        (is_small_map_marked s i ≡ true) ⊎ (is_small_map_marked s i ≡ false)
        → (if is_small_map_marked s i
            then find_in_ring fuel s.mem (small_bin_at s i) p (small_bin_at s i)
            else some false)
          ≡ some (is_member p (bins i))
    by_mark (inl marked) = rw marked (
        find_in_ring_lem fuel s.mem (small_bin_at s i) p (small_bin_at s i) (bins i) bin.links
          bin.outside enough
        ∙ rw other refl)
      where
        other : (small_bin_at s i == p) ≡ false
        other = ground arith
    by_mark (inr unmarked) = rw (unmarked, not_filled (bins i) empty p) refl
      where
        empty : is_filled (bins i) ≡ 0
        empty =
            ground
              (arith, bin.marked, is_small_map_marked_lem s i lt, unmarked, is_filled-le (bins i))

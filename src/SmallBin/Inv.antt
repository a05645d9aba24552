-- ===== src/SmallBin/Inv.antt =====
-- The invariant of the small bins: bin `i` is a ring of free chunks of `8 * i` bytes, different bins
-- share no chunk, and the map says which are filled.
use odin_memory_allocator.Base.{
  ℕ, ◌+◌, ◌*◌, ◌%◌, ◌≡◌, ◌≢◌, ◌<◌, arith, sym, subst, ℕ_discrete, List, [], ◌∷◌, All, ◌==◌,
  if◌then◌else◌,
}
use odin_memory_allocator.Base.Bits.{test_bit}
use odin_memory_allocator.Memory.{Memory}
use odin_memory_allocator.Chunk.{chunk_size}
use odin_memory_allocator.Bins.{get_small_bin_index, get_small_index_to_size}
use odin_memory_allocator.Space.{Space, small_bin_at}
use odin_memory_allocator.SmallBin.Ring.{Links, Outside, Distinct}
use odin_memory_allocator.SmallBin.Frame.{Free}

abbrev pub is_filled : List ℕ → ℕ
is_filled [] = 0
is_filled (x ∷ xs) = 1

abbrev pub update : (ℕ → List ℕ) → ℕ → List ℕ → ℕ → List ℕ
update f i xs j = if j == i then xs else f j

-- The ring with header `bin` holds the chunks `xs` of `8 * i` bytes; `mark` is its digit of the map.
pub record IsBin (m : Memory) (bin i mark : ℕ) (xs : List ℕ) : Type 0 where
  pub links : Links m bin xs bin
  pub outside : Outside bin xs
  pub distinct : Distinct xs
  pub sizes : All (λ x. chunk_size m x ≡ 8 * i) xs
  pub marked : mark ≡ is_filled xs

pub record IsBins (s : Space) (bins : ℕ → List ℕ) : Type 0 where
  pub aligned : s.self % 8 ≡ 0
  pub bin : (i : ℕ) → i < 32 → IsBin s.mem (small_bin_at s i) i (test_bit i s.small_map) (bins i)
  pub headers : (i j : ℕ) → i < 32 → j < 32 → Outside (small_bin_at s i) (bins j)
  pub apart :
      (i j : ℕ) → i < 32 → j < 32 → i ≢ j → All (λ x. Free x (small_bin_at s j) (bins j)) (bins i)

update_self : (f : ℕ → List ℕ) (i : ℕ) (xs : List ℕ) → update f i xs i ≡ xs
update_self f i xs = ground arith

pub update_ne : (f : ℕ → List ℕ) (i : ℕ) (xs : List ℕ) (j : ℕ) → j ≢ i → update f i xs j ≡ f j
update_ne f i xs j ne = ground arith

-- What holds of the new list at `i` and of the old ones elsewhere holds after the update.
pub update_rule {κ} :
    (P : ℕ → List ℕ → Type κ) (f : ℕ → List ℕ) (i : ℕ) (xs : List ℕ)
    → P i xs
    → ((j : ℕ) → j ≢ i → P j (f j))
    → (j : ℕ) → P j (update f i xs j)
update_rule P f i xs new old j = elim (ℕ_discrete j i) [
  | yes e ↦ subst (λ k. P k (update f i xs k)) (sym e) (rw (update_self f i xs) new)
  | no ne ↦ rw (update_ne f i xs j ne) (old j ne)
]

pub small_bin_at_lem : (s : Space) (i : ℕ) → i < 32 → small_bin_at s i ≡ s.self + 24 + 8 * i
unfolding small_bin_at
small_bin_at_lem s i h = omega arith

pub index_of_size : (i : ℕ) → i < 32 → get_small_bin_index (8 * i) ≡ i
unfolding get_small_bin_index
index_of_size i h = omega arith

pub size_of_index : (i : ℕ) → i < 32 → get_small_index_to_size i ≡ 8 * i
unfolding get_small_index_to_size
size_of_index i h = omega arith

-- ===== src/Alloc/Exact.antt =====
-- `alloc` from a small bin that fits without remainder.
use native.Mathlib.Nat.{div-le_self, div-div-eq-div-mul}
use odin_memory_allocator.Base.{
  ℕ, zero, suc, ◌+◌, ◌-◌, ◌*◌, ◌/◌, ◌%◌, ◌≤◌, ◌<◌, ◌^◌, ◌≡◌, ◌≢◌, ap, ◌∙◌, subst, arith, true, List,
  ◌∷◌, ◌==◌, add32, bit_and, shr32, not32,
}
use odin_memory_allocator.Base.Bits.{test_bit, test_bit-le, bit_and_mask}
use odin_memory_allocator.Memory.{Memory, store}
use odin_memory_allocator.Chunk.{chunk_size, set_size_inuse_pinuse}
use odin_memory_allocator.Chunk.Heads.{chunk_size_lem, set_size_inuse_pinuse_lem, marked_inuse}
use odin_memory_allocator.Space.{Space, small_bin_at, with_mem, assert_error_passes}
use odin_memory_allocator.Checks.Passes.{Fits, check_alloced_passes}
use odin_memory_allocator.SmallBin.{unlink_small_chunk}
use odin_memory_allocator.SmallBin.Inv.{IsBin, IsBins, size_of_index}
use odin_memory_allocator.SmallBin.Unlink.{unlink_first_eq_unlink}
use odin_memory_allocator.Bins.{get_small_bin_index}
use odin_memory_allocator.Alloc.{alloc_exact}

-- A padded small request that the test of the two bins lets through.
pub record ExactServes (s : Space) (bins : ℕ → List ℕ) (nb : ℕ) : Type 0 where
  pub inv : IsBins s bins
  pub map_word : s.small_map < 2 ^ 32
  pub sized : nb % 8 ≡ 0
  pub least : 16 ≤ nb
  pub small : nb / 8 < 31
  pub guard : bit_and (shr32 s.small_map (nb / 8)) 3 ≢ 0

-- The bin of the padded size, or the next one where that is empty.
abbrev pub exact_bin : Space → ℕ → ℕ
exact_bin s nb = nb / 8 + (1 - test_bit (nb / 8) s.small_map)

test_bit_lem : (k a : ℕ) → test_bit k a ≡ a / 2 ^ k % 2
test_bit_lem zero a = omega arith
test_bit_lem (suc k) a =
    test_bit_lem k (a / 2)
    ∙ ap (λ x. x % 2) (div-div-eq-div-mul a 2 (2 ^ k) ∙ ap (λ d. a / d) double)
  where
    double : 2 * 2 ^ k ≡ 2 ^ suc k
    double = ground arith

-- The state after: the chunk is out of its bin and marked in use.
abbrev pub taken : Space → (p size : ℕ) → Space
taken s p size = with_mem (marked_inuse s.self p size) (unlink_small_chunk p size s)

module _ (s : Space) (bins : ℕ → List ℕ) (nb i p : ℕ) (ys : List ℕ) (inv : IsBins s bins)
    (map_word : s.small_map < 2 ^ 32) (sized : nb % 8 ≡ 0) (least : 16 ≤ nb) (small : nb / 8 < 31)
    (which : i ≡ exact_bin s nb) (holds : bins i ≡ p ∷ ys) (within : p + 8 * i + 32 < 2 ^ 32) where
  i_small : i < 32
  i_small = omega (arith, which, small)

  here : IsBin s.mem (small_bin_at s i) i (test_bit i s.small_map) (p ∷ ys)
  here = subst (IsBin s.mem (small_bin_at s i) i (test_bit i s.small_map)) holds (inv.bin i i_small)

  first : s.mem (small_bin_at s i + 8) ≡ p
  first = here.links.0

  here_size : chunk_size s.mem p ≡ 8 * i
  here_size = here.sizes.0

  size_checked : (chunk_size s.mem p == 8 * i) ≡ true
  size_checked = ground (arith, here_size)

  index :
      add32
        (get_small_bin_index nb)
        (bit_and (not32 (shr32 s.small_map (get_small_bin_index nb))) 1)
      ≡ i
  unfolding get_small_bin_index
  index =
      rw (bin_of, bit_and_mask 1 (2 ^ 32 - 1 - s.small_map / 2 ^ (nb / 8 % 32)), digit)
        (omega (arith, which, small, test_bit_lem (nb / 8) s.small_map))
    where
      bin_of : nb / 8 % 2 ^ 32 ≡ nb / 8
      bin_of = omega (arith, small)

      quotient : s.small_map / 2 ^ (nb / 8) < 2 ^ 32
      quotient = omega (arith, div-le_self s.small_map (2 ^ (nb / 8)), map_word)

      digit :
          (2 ^ 32 - 1 - s.small_map / 2 ^ (nb / 8 % 32)) % 2 ≡ 1 - s.small_map / 2 ^ (nb / 8) % 2
      digit = rw count (omega (arith, quotient))
        where
          count : nb / 8 % 32 ≡ nb / 8
          count = omega (arith, small)

  no_wrap : (p + 8) % 2 ^ 32 ≡ p + 8
  no_wrap = omega (arith, within)

  taken_head :
      (taken s p (8 * i)).mem (p + 4) ≡ 8 * i + (unlink_small_chunk p (8 * i) s).mem (p + 4) % 2 + 2
  unfolding store
  taken_head = ground (arith, which, least)

  taken_size : chunk_size (taken s p (8 * i)).mem p ≡ 8 * i
  taken_size = omega (
    arith,
    chunk_size_lem (taken s p (8 * i)).mem p (omega (arith, taken_head, within)),
    taken_head,
  )

  fits : Fits (taken s p (8 * i)) p nb (8 * i)
  fits = record {
    aligned = here.outside.1;
    within = omega (arith, within, which);
    size = taken_size;
    sized = omega arith;
    least = omega (arith, which, least);
    enough = omega (arith, which, sized, test_bit-le (nb / 8) s.small_map);
    tight = omega (arith, which, sized, test_bit-le (nb / 8) s.small_map);
  }

  mark : (m : Memory) → set_size_inuse_pinuse s.self p (8 * i) m ≡ marked_inuse s.self p (8 * i) m
  mark m =
      set_size_inuse_pinuse_lem s.self p (8 * i) m (omega arith) (omega (arith, which, least))
        (omega (arith, within))

  pub alloc_exact_lem : alloc_exact nb s ≡ (p + 8, taken s p (8 * i))
  unfolding alloc_exact
  alloc_exact_lem = rw (
    index,
    size_of_index i i_small,
    first,
    assert_error_passes _ s size_checked,
    unlink_first_eq_unlink s bins p i ys inv i_small holds,
    mark,
    no_wrap,
    check_alloced_passes (taken s p (8 * i)) p nb (8 * i) fits,
  )

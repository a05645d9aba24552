-- ===== src/Alloc/NextBin.antt =====
-- The head that `alloc` leaves where it cuts the chunk of a larger small bin.
use odin_memory_allocator.Base.{
  ℕ, ◌+◌, ◌%◌, ◌<◌, ◌^◌, ◌≡◌, ◌≢◌, refl, sym, subst, ◌∙◌, arith, Bool, true, false, ◌==◌, ◌!=◌,
  if◌then◌else◌, sub32,
}
use odin_memory_allocator.Memory.{Memory, store, IsWords}
use odin_memory_allocator.Chunk.{
  chunk_size, is_inuse, set_size_pinuse_of_inuse_chunk, set_size_pinuse_of_free_chunk,
  memory_to_chunk, chunk_plus_offset,
}
use odin_memory_allocator.Chunk.Heads.{is_inuse_lem, or_bits}
use odin_memory_allocator.Space.{Space, with_mem, assert_error, clear_small_map, small_bin_at}
use odin_memory_allocator.Alloc.{alloc_next_bin, cut_small_chunk, next_bin_index}
use odin_memory_allocator.Checks.{check_alloced_chunk}
use odin_memory_allocator.SmallBin.{replace_dv, unlink_first_small_chunk}
use odin_memory_allocator.Bins.{get_small_index_to_size}

check_mem : (mem nb : ℕ) (s : Space) → (check_alloced_chunk mem nb s).mem ≡ s.mem
unfolding check_alloced_chunk assert_error
check_mem mem nb s = by_test (mem != 0) _
  where
    by_test : (b : Bool) (n : ℕ) → (if b then record s { failed = n } else s).mem ≡ s.mem
    by_test true n = refl
    by_test false n = refl

replace_no_victim :
    (p size : ℕ) (f : Memory → Memory) (s : Space)
    → s.dv_size ≡ 0
    → (replace_dv p size (with_mem f s)).mem ≡ f s.mem
unfolding replace_dv
replace_no_victim p size f s e = rw e

assert_keeps_victim : (b : Bool) (s : Space) → (assert_error b s).dv_size ≡ s.dv_size
unfolding assert_error
assert_keeps_victim b s = refl

unlink_keeps_victim :
    (p ind : ℕ) (s : Space) → (unlink_first_small_chunk p ind s).dv_size ≡ s.dv_size
unfolding unlink_first_small_chunk assert_error clear_small_map
unlink_keeps_victim p ind s = ground arith

free_head :
    (p size : ℕ) (m : Memory)
    → size % 8 ≡ 0
    → set_size_pinuse_of_free_chunk p size m (p + 4) % 4 ≡ 1
unfolding set_size_pinuse_of_free_chunk store
free_head p size m e = rw (or_bits size 1 e (omega arith)) (ground (arith, e, apart))
  where
    apart : p + 4 ≢ (p + size) % 2 ^ 32
    apart = omega (arith, e)

index_multiple : (ind : ℕ) → get_small_index_to_size ind % 8 ≡ 0
unfolding get_small_index_to_size
index_multiple ind = omega arith

cut_small_pointer :
    (ptr ind nb : ℕ) (s : Space)
    → ptr < 2 ^ 32
    → memory_to_chunk (cut_small_chunk ptr ind nb s).0 ≡ ptr
unfolding cut_small_chunk
cut_small_pointer ptr ind nb s h = omega (arith, h)

-- Without a victim to be replaced, the head of the chunk that is cut holds the size of the rest.
cut_small_head :
    (ptr ind nb : ℕ) (s : Space)
    → s.dv_size ≡ 0
    → nb % 8 ≡ 0
    → (cut_small_chunk ptr ind nb s).1.mem (ptr + 4) % 4 ≡ 1
unfolding cut_small_chunk
cut_small_head ptr ind nb s no_victim sized = rw check_mem (
    subst (λ m. m (ptr + 4) % 4 ≡ 1)
      (sym (replace_no_victim (chunk_plus_offset ptr nb) rem_size marked after kept))
      (free_head ptr rem_size _ rest))
  where
    after : Space
    after =
        unlink_first_small_chunk ptr ind
          (assert_error (chunk_size s.mem ptr == get_small_index_to_size ind) s)

    rem_size : ℕ
    rem_size = sub32 (get_small_index_to_size ind) nb

    marked : Memory → Memory
    marked m =
        set_size_pinuse_of_free_chunk ptr rem_size (set_size_pinuse_of_inuse_chunk s.self ptr nb m)

    kept : after.dv_size ≡ 0
    kept =
        unlink_keeps_victim ptr ind
          (assert_error (chunk_size s.mem ptr == get_small_index_to_size ind) s)
        ∙ assert_keeps_victim (chunk_size s.mem ptr == get_small_index_to_size ind) s
        ∙ no_victim

    size : get_small_index_to_size ind % 8 ≡ 0
    size = index_multiple ind

    rest : sub32 (get_small_index_to_size ind) nb % 8 ≡ 0
    rest = omega (arith, sized, size)

-- For a padded request that a larger small bin serves while there is no designated victim, in a
-- memory of words, the chunk that `alloc` returns reads as not in use.
pub alloc_next_bin_reads_free :
    (s : Space) (nb : ℕ)
    → IsWords s.mem
    → s.dv_size ≡ 0
    → nb % 8 ≡ 0
    → let (mem, t) = alloc_next_bin nb s in is_inuse t.mem (memory_to_chunk mem) ≡ false
unfolding alloc_next_bin
alloc_next_bin_reads_free s nb words no_victim sized =
    rw (cut_small_pointer ptr ind nb s (words _))
      ((is_inuse_lem _ _).1 (cut_small_head ptr ind nb s no_victim sized))
  where
    ind : ℕ
    ind = next_bin_index nb s

    ptr : ℕ
    ptr = s.mem (small_bin_at s ind + 8)

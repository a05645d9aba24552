-- ===== src/Validate/Rows.antt =====
-- MemAlloc.cpp, `traverseAndCheck`: the checks of a chunk as a row of tests; a failed one is counted.
use odin_memory_allocator.Base.{
  ℕ, suc, ◌+◌, ◌≡◌, refl, ap, ◌∙◌, arith, List, [], ◌∷◌, Bool, true, false, not, ◌&&◌, ◌||◌, some,
  leb, ◌==◌, ◌!=◌, if◌then◌else◌, bit_and,
}
use odin_memory_allocator.Base.Fuel.{◌>>=◌}
use odin_memory_allocator.Memory.{null}
use odin_memory_allocator.Chunk.{
  chunk_size, next_chunk, previous_chunk, is_aligned, is_inuse, get_pinuse, next_pinuse, prev_foot,
  fd, bk, chunk_to_memory, chunk_plus_offset, alignment_mask, min_chunk_size,
}
use odin_memory_allocator.Space.{
  Space, assert_error, is_small_map_marked, is_tree_map_marked, small_bin_at, tree_bin_at,
}
use odin_memory_allocator.Checks.{check_inuse_chunk, check_free_chunk}
use odin_memory_allocator.Validate.{find_in_bin, check_chunk}

-- The space `s` with `k` failed checks.
abbrev pub with_failed : ℕ → Space → Space
with_failed k s = record s { failed = k }

-- How many tests of a row fail.
abbrev pub wrong : List Bool → ℕ
wrong [] = 0
wrong (t ∷ ts) = if t then wrong ts else suc (wrong ts)

-- A row of checks.
abbrev asserts : List Bool → Space → Space
asserts [] s = s
asserts (t ∷ ts) s = asserts ts (assert_error t s)

asserts_lem : (ts : List Bool) (s : Space) → asserts ts s ≡ with_failed (s.failed + wrong ts) s
unfolding assert_error
asserts_lem [] s = ap {A = ℕ} (λ k. with_failed k s) (omega arith)
asserts_lem (true ∷ ts) s = asserts_lem ts s
asserts_lem (false ∷ ts) s =
    asserts_lem ts (with_failed (s.failed + 1) s) ∙ ap {A = ℕ} (λ k. with_failed k s) (omega arith)

-- The checks of a chunk in use.
unfoldable pub used_tests : Space → (p : ℕ) → List Bool
used_tests s p =
    is_aligned (chunk_to_memory p)
    ∷ is_inuse s.mem p
    ∷ (next_pinuse s.mem p != 0)
    ∷ (get_pinuse s.mem p != 0 || next_chunk s.mem (previous_chunk s.mem p) == p)
    ∷ []

unfoldable pub first_tests : Space → (p : ℕ) → List Bool
first_tests s p = is_aligned p ∷ not (is_inuse s.mem p) ∷ not (next_pinuse s.mem p != 0) ∷ []

abbrev pub after_of : Space → (p : ℕ) → ℕ
after_of s p = chunk_plus_offset p (chunk_size s.mem p)

unfoldable pub all_tests : Space → (p : ℕ) → List Bool
all_tests s p =
    is_aligned p
    ∷ not (is_inuse s.mem p)
    ∷ not (next_pinuse s.mem p != 0)
    ∷ (bit_and (chunk_size s.mem p) alignment_mask == 0)
    ∷ is_aligned (chunk_to_memory p)
    ∷ (prev_foot s.mem (after_of s p) == chunk_size s.mem p)
    ∷ (get_pinuse s.mem p != 0)
    ∷ (after_of s p == s.top || is_inuse s.mem (after_of s p))
    ∷ (bk s.mem (fd s.mem p) == p)
    ∷ (fd s.mem (bk s.mem p) == p)
    ∷ []

unfoldable pub free_tests : Space → (p : ℕ) → List Bool
free_tests s p =
    if p != s.dv && p != s.top
    then if leb min_chunk_size (chunk_size s.mem p) then all_tests s p else first_tests s p
    else first_tests s p

used_row : (s : Space) (p : ℕ) → check_inuse_chunk p s ≡ asserts (used_tests s p) s
unfolding used_tests check_inuse_chunk assert_error
used_row s p = refl

free_row : (s : Space) (p : ℕ) → check_free_chunk p s ≡ asserts (free_tests s p) s
unfolding free_tests first_tests all_tests check_free_chunk assert_error
free_row s p = by_tests (p != s.dv && p != s.top) (leb min_chunk_size (chunk_size s.mem p))
  where
    by_tests :
        (b c : Bool)
        → (if b
            then if c then asserts (all_tests s p) s else asserts (first_tests s p) s
            else asserts (first_tests s p) s)
          ≡ asserts (if b then if c then all_tests s p else first_tests s p else first_tests s p) s
    by_tests true true = refl
    by_tests true false = refl
    by_tests false c = refl

-- The tests of one turn, where `findInBin` answers `found`.
unfoldable pub turn_tests : Space → (last p : ℕ) (found : Bool) → List Bool
turn_tests s last p found =
    if is_inuse s.mem p
    then not found ∷ used_tests s p
    else (if p == s.dv then true else found)
      ∷ (last == null || is_inuse s.mem last)
      ∷ free_tests s p

find_in_bin_kept :
    (fuel p k : ℕ) (s : Space) → find_in_bin fuel p (with_failed k s) ≡ find_in_bin fuel p s
unfolding find_in_bin is_small_map_marked is_tree_map_marked small_bin_at tree_bin_at
find_in_bin_kept fuel p k s = refl

in_use_lem :
    (s : Space) (p k : ℕ) (t : Bool)
    → check_inuse_chunk p (assert_error t (with_failed k s))
      ≡ with_failed (k + wrong (t ∷ used_tests s p)) s
unfolding used_tests assert_error
in_use_lem s p k t =
    used_row (assert_error t (with_failed k s)) p
    ∙ asserts_lem (t ∷ used_tests s p) (with_failed k s)

free_lem :
    (s : Space) (p k : ℕ) (t u : Bool)
    → check_free_chunk p (assert_error u (assert_error t (with_failed k s)))
      ≡ with_failed (k + wrong (t ∷ u ∷ free_tests s p)) s
unfolding free_tests first_tests all_tests assert_error
free_lem s p k t u =
    free_row (assert_error u (assert_error t (with_failed k s))) p
    ∙ asserts_lem (t ∷ u ∷ free_tests s p) (with_failed k s)

pub check_chunk_lem :
    (s : Space) (fuel last p k : ℕ) (found : Bool)
    → find_in_bin fuel p s ≡ some found
    → check_chunk fuel p last (with_failed k s)
      ≡ some (with_failed (k + wrong (turn_tests s last p found)) s)
unfolding turn_tests check_chunk assert_error
check_chunk_lem s fuel last p k found e =
    rw (find_in_bin_kept fuel p k s, e) (by_use (is_inuse s.mem p) (p == s.dv))
  where
    by_use :
        (b d : Bool)
        → (if b
            then some (check_inuse_chunk p (assert_error (not found) (with_failed k s)))
            else ((if d then some true else some found) >>= λ f. some (
                check_free_chunk p (
                  assert_error
                    (last == null || is_inuse s.mem last)
                    (assert_error f (with_failed k s))))))
          ≡ some (
              with_failed
                (k
                  + wrong (
                      if b
                      then not found ∷ used_tests s p
                      else (if d then true else found)
                        ∷ (last == null || is_inuse s.mem last)
                        ∷ free_tests s p))
                s)
    by_use true d = ap some (in_use_lem s p k (not found))
    by_use false true = ap some (free_lem s p k true (last == null || is_inuse s.mem last))
    by_use false false = ap some (free_lem s p k found (last == null || is_inuse s.mem last))

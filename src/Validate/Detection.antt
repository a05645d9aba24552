-- ===== src/Validate/Detection.antt =====
-- MemAlloc.cpp, `traverseAndCheck`: what holds of a chunk where none of its checks fails.
use odin_memory_allocator.Base.{
  ℕ, ◌%◌, ◌≤◌, ◌≡◌, ◌≢◌, ◌⊎◌, refl, sym, arith, List, [], ◌∷◌, All, Bool, true, false, not, ◌&&◌,
  ◌||◌, inl, inr, leb, ◌==◌, ◌!=◌, if◌then◌else◌, Bool-cases, subst, bit_and,
}
use odin_memory_allocator.Memory.{null}
use odin_memory_allocator.Chunk.{
  chunk_size, next_chunk, previous_chunk, is_inuse, get_pinuse, next_pinuse, prev_foot, fd, bk,
  chunk_to_memory, min_chunk_size,
}
use odin_memory_allocator.Chunk.Sizes.{is_aligned_iff}
use odin_memory_allocator.Space.{Space}
use odin_memory_allocator.Validate.Rows.{
  wrong, used_tests, first_tests, after_of, all_tests, free_tests, turn_tests,
}

-- What the program expects of a chunk in use: that it is aligned, that the next chunk and the one
-- before it know of it, and that it is in no bin.
pub record IsSoundUsed (s : Space) (p : ℕ) (found : Bool) : Type 0 where
  pub aligned : chunk_to_memory p % 8 ≡ 0
  pub after : next_pinuse s.mem p ≢ 0
  pub before : (get_pinuse s.mem p ≢ 0) ⊎ (next_chunk s.mem (previous_chunk s.mem p) ≡ p)
  pub unbinned : found ≡ false

-- Of a free chunk that is neither victim nor top and large enough: sizes that agree, neighbours in use,
-- and links that come back.
pub record IsSoundBinned (s : Space) (p : ℕ) : Type 0 where
  pub whole : bit_and (chunk_size s.mem p) 7 ≡ 0
  pub foot : prev_foot s.mem (after_of s p) ≡ chunk_size s.mem p
  pub before : get_pinuse s.mem p ≢ 0
  pub next : (after_of s p ≡ s.top) ⊎ (is_inuse s.mem (after_of s p) ≡ true)
  pub back : bk s.mem (fd s.mem p) ≡ p
  pub forth : fd s.mem (bk s.mem p) ≡ p

-- Of a free chunk: that it is aligned, is the victim or in its bin, has chunks in use beside it.
pub record IsSoundFree (s : Space) (last p : ℕ) (found : Bool) : Type 0 where
  pub aligned : p % 8 ≡ 0
  pub after : next_pinuse s.mem p ≡ 0
  pub placed : (p ≡ s.dv) ⊎ (found ≡ true)
  pub behind : (last ≡ null) ⊎ (is_inuse s.mem last ≡ true)
  pub binned : p ≢ s.dv → p ≢ s.top → 16 ≤ chunk_size s.mem p → IsSoundBinned s p

abbrev pub IsSound : Space → (last p : ℕ) → Bool → Type 0
IsSound s last p found =
    ((is_inuse s.mem p ≡ true) × IsSoundUsed s p found)
    ⊎ ((is_inuse s.mem p ≡ false) × IsSoundFree s last p found)

-- A row without a failed test.
passed : (ts : List Bool) → wrong ts ≡ 0 → All (λ t. t ≡ true) ts
passed [] e = tt
passed (true ∷ ts) e = (refl, passed ts e)
passed (false ∷ ts) e = absurd (omega (arith, e))

nonzero : (x : ℕ) → (x != 0) ≡ true → x ≢ 0
nonzero x e = ground (arith, e)

equal : (x y : ℕ) → (x == y) ≡ true → x ≡ y
equal x y e = ground (arith, e)

refuted : (b : Bool) → not b ≡ true → b ≡ false
refuted true e = sym e
refuted false e = refl

marked_or_equal : (x a b : ℕ) → (x != 0 || a == b) ≡ true → (x ≢ 0) ⊎ (a ≡ b)
marked_or_equal x a b e = ground (arith, e)

equal_or : (a b : ℕ) (c : Bool) → (a == b || c) ≡ true → (a ≡ b) ⊎ (c ≡ true)
equal_or a b c e = ground (arith, e)

same_or : (a b : ℕ) (c : Bool) → (if a == b then true else c) ≡ true → (a ≡ b) ⊎ (c ≡ true)
same_or a b c e = ground (arith, e)

unmarked : (x : ℕ) → not (x != 0) ≡ true → x ≡ 0
unmarked x e = ground (arith, e)

module _ (s : Space) (last p : ℕ) (found : Bool) where
  sound_used : All (λ t. t ≡ true) (not found ∷ used_tests s p) → IsSoundUsed s p found
  unfolding used_tests
  sound_used h = record {
    aligned = (is_aligned_iff (chunk_to_memory p)).0 h.1.0;
    after = nonzero _ h.1.1.1.0;
    before = marked_or_equal _ _ _ h.1.1.1.1.0;
    unbinned = refuted found h.0;
  }

  sound_binned : All (λ t. t ≡ true) (all_tests s p) → IsSoundBinned s p
  unfolding all_tests
  sound_binned h = record {
    whole = equal _ _ h.1.1.1.0;
    foot = equal _ _ h.1.1.1.1.1.0;
    before = nonzero _ h.1.1.1.1.1.1.0;
    next = equal_or _ _ _ h.1.1.1.1.1.1.1.0;
    back = equal _ _ h.1.1.1.1.1.1.1.1.0;
    forth = equal _ _ h.1.1.1.1.1.1.1.1.1.0;
  }

  -- The first three of the checks are made for every free chunk.
  first_hold :
      (b c : Bool)
      → All
          (λ t. t ≡ true)
          (if b then if c then all_tests s p else first_tests s p else first_tests s p)
      → (p % 8 ≡ 0) × (next_pinuse s.mem p ≡ 0)
  unfolding all_tests first_tests
  first_hold true true h = ((is_aligned_iff p).0 h.0, unmarked _ h.1.1.0)
  first_hold true false h = ((is_aligned_iff p).0 h.0, unmarked _ h.1.1.0)
  first_hold false c h = ((is_aligned_iff p).0 h.0, unmarked _ h.1.1.0)

  all_hold :
      p ≢ s.dv
      → p ≢ s.top
      → 16 ≤ chunk_size s.mem p
      → All (λ t. t ≡ true) (free_tests s p)
      → IsSoundBinned s p
  unfolding free_tests
  all_hold other below large h =
      sound_binned (subst (λ ts. All (λ t. t ≡ true) ts) (rw (others, enough) refl) h)
    where
      others : (p != s.dv && p != s.top) ≡ true
      others = ground (arith, other, below)

      enough : leb min_chunk_size (chunk_size s.mem p) ≡ true
      enough = ground (arith, large)

  sound_free :
      All
        (λ t. t ≡ true)
        ((if p == s.dv then true else found)
          ∷ (last == null || is_inuse s.mem last)
          ∷ free_tests s p)
      → IsSoundFree s last p found
  unfolding free_tests
  sound_free h =
      let (aligned, after) =
        first_hold (p != s.dv && p != s.top) (leb min_chunk_size (chunk_size s.mem p)) h.1.1 in
      record {
        aligned = aligned;
        after = after;
        placed = same_or _ _ _ h.0;
        behind = equal_or _ _ _ h.1.0;
        binned = λ other below large. all_hold other below large h.1.1;
      }

  pub sound : wrong (turn_tests s last p found) ≡ 0 → IsSound s last p found
  unfolding turn_tests
  sound e = elim (Bool-cases (is_inuse s.mem p)) [
    | inl used ↦ inl (used, sound_used (passed (not found ∷ used_tests s p) (rw used at e)))
    | inr free ↦ inr (
      free,
      sound_free (
          passed
            ((if p == s.dv then true else found)
              ∷ (last == null || is_inuse s.mem last)
              ∷ free_tests s p)
            (rw free at e)),
    )
  ]

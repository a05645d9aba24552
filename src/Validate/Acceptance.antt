-- ===== src/Validate/Acceptance.antt =====
-- MemAlloc.cpp, `traverseAndCheck`: no check of a chunk fails where it is as the program expects it.
use odin_memory_allocator.Base.{
  ℕ, ◌≡◌, ◌≢◌, ◌⊎◌, refl, ap, arith, List, [], ◌∷◌, All, Bool, true, false, not, ◌&&◌, ◌||◌, inl,
  inr, leb, ◌==◌, ◌!=◌, if◌then◌else◌,
}
use odin_memory_allocator.Memory.{null}
use odin_memory_allocator.Chunk.{chunk_size, is_inuse, chunk_to_memory, min_chunk_size}
use odin_memory_allocator.Chunk.Sizes.{is_aligned_iff}
use odin_memory_allocator.Space.{Space}
use odin_memory_allocator.Validate.Rows.{
  wrong, used_tests, first_tests, all_tests, free_tests, turn_tests,
}
use odin_memory_allocator.Validate.Detection.{IsSoundUsed, IsSoundBinned, IsSoundFree, IsSound}

-- Where a chunk is as the program expects it, no check of it fails.
none_wrong : (ts : List Bool) → All (λ t. t ≡ true) ts → wrong ts ≡ 0
none_wrong [] h = refl
none_wrong (true ∷ ts) h = none_wrong ts h.1
none_wrong (false ∷ ts) h = absurd (ground (arith, h.0))

not_zero : (x : ℕ) → x ≢ 0 → (x != 0) ≡ true
not_zero x ne = ground (arith, ne)

unequal_zero : (x : ℕ) → x ≡ 0 → not (x != 0) ≡ true
unequal_zero x e = ground (arith, e)

same : (x y : ℕ) → x ≡ y → (x == y) ≡ true
same x y e = ground (arith, e)

one_marked : (x a b : ℕ) → (x ≢ 0) ⊎ (a ≡ b) → (x != 0 || a == b) ≡ true
one_marked x a b h = ground (arith, h)

one_equal : (a b : ℕ) (c : Bool) → (a ≡ b) ⊎ (c ≡ true) → (a == b || c) ≡ true
one_equal a b c h = ground (arith, h)

one_same : (a b : ℕ) (c : Bool) → (a ≡ b) ⊎ (c ≡ true) → (if a == b then true else c) ≡ true
one_same a b c h = ground (arith, h)

module _ (s : Space) (last p : ℕ) (found : Bool) where
  used_passes :
      is_inuse s.mem p ≡ true
      → IsSoundUsed s p found
      → All (λ t. t ≡ true) (not found ∷ used_tests s p)
  unfolding used_tests
  used_passes used u = (
    ap not u.unbinned,
    (
      ((is_aligned_iff (chunk_to_memory p)).1 u.aligned),
      (used, (not_zero _ u.after, (one_marked _ _ _ u.before, tt))),
    ),
  )

  first_pass :
      is_inuse s.mem p ≡ false → IsSoundFree s last p found → All (λ t. t ≡ true) (first_tests s p)
  unfolding first_tests
  first_pass free f = ((is_aligned_iff p).1 f.aligned, (ap not free, (unequal_zero _ f.after, tt)))

  all_pass :
      is_inuse s.mem p ≡ false
      → IsSoundFree s last p found
      → IsSoundBinned s p
      → All (λ t. t ≡ true) (all_tests s p)
  unfolding all_tests
  all_pass free f b = (
    (is_aligned_iff p).1 f.aligned,
    (
      ap not free,
      (
        unequal_zero _ f.after,
        (
          same _ _ b.whole,
          (
            (is_aligned_iff (chunk_to_memory p)).1 (omega (arith, f.aligned)),
            (
              same _ _ b.foot,
              (
                not_zero _ b.before,
                (one_equal _ _ _ b.next, (same _ _ b.back, (same _ _ b.forth, tt))),
              ),
            ),
          ),
        ),
      ),
    ),
  )

  free_pass :
      (b c : Bool)
      → is_inuse s.mem p ≡ false
      → IsSoundFree s last p found
      → (b ≡ true → c ≡ true → IsSoundBinned s p)
      → All
          (λ t. t ≡ true)
          (if b then if c then all_tests s p else first_tests s p else first_tests s p)
  free_pass true true free f binned = all_pass free f (binned refl refl)
  free_pass true false free f binned = first_pass free f
  free_pass false c free f binned = first_pass free f

  free_passes :
      is_inuse s.mem p ≡ false
      → IsSoundFree s last p found
      → All
          (λ t. t ≡ true)
          ((if p == s.dv then true else found)
            ∷ (last == null || is_inuse s.mem last)
            ∷ free_tests s p)
  unfolding free_tests
  free_passes free f = (
    one_same _ _ _ f.placed,
    (
      one_equal _ _ _ f.behind,
      free_pass (p != s.dv && p != s.top) (leb min_chunk_size (chunk_size s.mem p)) free f
          (λ other large.
            f.binned (ground (arith, other)) (ground (arith, other)) (ground (arith, large))),
    ),
  )

  pub none_fails : IsSound s last p found → wrong (turn_tests s last p found) ≡ 0
  unfolding turn_tests
  none_fails (inl (used, u)) =
      rw used (none_wrong (not found ∷ used_tests s p) (used_passes used u))
  none_fails (inr (free, f)) = rw free (
      none_wrong
        ((if p == s.dv then true else found)
          ∷ (last == null || is_inuse s.mem last)
          ∷ free_tests s p)
        (free_passes free f))

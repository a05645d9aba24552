-- ===== src/Validate/Traversal.antt =====
-- MemAlloc.cpp, `traverseAndCheck`: a heap whose chunks follow one another up to the top is walked to
-- its end, whatever else is wrong with it, and what a chunk has to keep is checked for each of them.
use odin_memory_allocator.Base.{
  ℕ, zero, suc, ◌+◌, ◌-◌, ◌%◌, ◌^◌, ◌<◌, ◌≤◌, ◌≡◌, ◌≢◌, ◌↔◌, refl, ◌∙◌, arith, List, [], ◌∷◌,
  length, Bool, true, false, ◌&&◌, Option, some, leb, ◌!=◌, if◌then◌else◌, add32,
}
use odin_memory_allocator.Memory.{null}
use odin_memory_allocator.Chunk.{chunk_size, next_chunk, memory_to_chunk, get_pinuse}
use odin_memory_allocator.Space.{Space, assert_error}
use odin_memory_allocator.Validate.{find_in_bin, traverse_from, traverse_and_check}
use odin_memory_allocator.Validate.Rows.{with_failed, wrong, turn_tests, check_chunk_lem}
use odin_memory_allocator.Validate.Detection.{IsSound, sound}
use odin_memory_allocator.Validate.Acceptance.{none_fails}

-- With fuel `n` or more, `findInBin` of `p` ends with `answer`.
abbrev pub Finds : Space → (n p : ℕ) → Bool → Type 0
Finds s n p answer = (fuel : ℕ) → n ≤ fuel → find_in_bin fuel p s ≡ some answer

-- The chunks `xs` follow one another from `a` to the top, and `findInBin` ends for each of them.
abbrev pub Row : Space → (found : ℕ → Bool) → (n a : ℕ) → List ℕ → Type 0
Row s found n a [] = a ≡ s.top
Row s found n a (x ∷ xs) =
    (a ≡ x)
    × (0 < chunk_size s.mem x)
    × Finds s n x (found x)
    × Row s found n (x + chunk_size s.mem x) xs

-- Each of the chunks is as the program expects it, the chunk before the first one being `last`.
abbrev pub Sounds : Space → (found : ℕ → Bool) → (last : ℕ) → List ℕ → Type 0
Sounds s found last [] = Unit
Sounds s found last (x ∷ xs) = IsSound s last x (found x) × Sounds s found x xs

Row-le : (s : Space) (found : ℕ → Bool) (n a : ℕ) (xs : List ℕ) → Row s found n a xs → a ≤ s.top
Row-le s found n a [] r = omega arith
Row-le s found n a (x ∷ xs) r = omega (arith, Row-le s found n (x + chunk_size s.mem x) xs r.3)

next_chunk_lem : (s : Space) (p : ℕ) → next_chunk s.mem p ≡ add32 p (chunk_size s.mem p)
unfolding next_chunk chunk_size
next_chunk_lem s p = refl

-- The bounds of the loop hold for a chunk of the heap before the top.
inside_heap :
    (s : Space) (p : ℕ)
    → s.least_addr ≤ p
    → p < s.top
    → s.top ≤ s.least_addr + s.footprint
    → s.least_addr + s.footprint < 2 ^ 32
    → (leb s.least_addr p && (leb p (add32 s.least_addr s.footprint) && p != s.top)) ≡ true
inside_heap s p low before high fits = ground (arith, end_of)
  where
    end_of : (s.least_addr + s.footprint) % 2 ^ 32 ≡ s.least_addr + s.footprint
    end_of = omega (arith, fits)

-- How many checks of the chunks fail.
abbrev all_wrong : Space → (found : ℕ → Bool) → (last : ℕ) → List ℕ → ℕ
all_wrong s found last [] = 0
all_wrong s found last (x ∷ xs) = wrong (turn_tests s last x (found x)) + all_wrong s found x xs

all_sound :
    (s : Space) (found : ℕ → Bool) (last : ℕ) (xs : List ℕ)
    → all_wrong s found last xs ≡ 0
    → Sounds s found last xs
all_sound s found last [] e = tt
all_sound s found last (x ∷ xs) e =
    (sound s last x (found x) (omega (arith, e)), all_sound s found x xs (omega (arith, e)))

abbrev ended : (total k : ℕ) → Space → Option (ℕ × Space)
ended total k s = some (total, with_failed k s)

ends : (s : Space) (a b i j : ℕ) → a ≡ b → i ≡ j → ended a i s ≡ ended b j s
ends s a b i j e d = rw (e, d) refl

none_wrong_in :
    (s : Space) (found : ℕ → Bool) (last : ℕ) (xs : List ℕ)
    → Sounds s found last xs
    → all_wrong s found last xs ≡ 0
none_wrong_in s found last [] h = refl
none_wrong_in s found last (x ∷ xs) h =
    omega (arith, none_fails s last x (found x) h.0, none_wrong_in s found x xs h.1)

traverse_from_lem :
    (s : Space) (found : ℕ → Bool) (n fuel sum last a k : ℕ) (xs : List ℕ)
    → Row s found n a xs
    → s.least_addr ≤ a
    → s.top ≤ s.least_addr + s.footprint
    → s.least_addr + s.footprint < 2 ^ 32
    → sum + (s.top - a) < 2 ^ 32
    → n + length xs < fuel
    → traverse_from fuel sum a last (with_failed k s)
      ≡ some (sum + (s.top - a), with_failed (k + all_wrong s found last xs) s)
unfolding traverse_from
traverse_from_lem s found n zero sum last a k xs r low high fits small enough = absurd (omega arith)
traverse_from_lem s found n (suc fuel) sum last a k [] r low high fits small enough =
    rw (at_top (leb s.least_addr a) (leb a (add32 s.least_addr s.footprint)))
      (ends s _ _ _ _ (omega (arith, r)) (omega arith))
  where
    at_top : (b c : Bool) → (b && (c && a != s.top)) ≡ false
    at_top b c = ground (arith, r)
traverse_from_lem s found n (suc fuel) sum last a k (x ∷ xs) r low high fits small enough =
    rw
      (
        r.0,
        inside_heap s x (omega (arith, low, r.0)) before high fits,
        check_chunk_lem s fuel last x k (found x) (r.2 fuel (omega (arith, enough))),
        next_chunk_lem s x,
        next,
        sum_next,
      )
      (traverse_from_lem s found n fuel (sum + chunk_size s.mem x) x (x + chunk_size s.mem x)
          (k + wrong (turn_tests s last x (found x))) xs r.3 (omega (arith, low, r.0)) high fits
          (omega (arith, small, rest, r.0)) (omega (arith, enough))
        ∙ ends s _ _ _ _ (omega (arith, rest, r.0)) (omega arith))
  where
    rest : x + chunk_size s.mem x ≤ s.top
    rest = Row-le s found n (x + chunk_size s.mem x) xs r.3

    before : x < s.top
    before = omega (arith, rest, r.1)

    next : (x + chunk_size s.mem x) % 2 ^ 32 ≡ x + chunk_size s.mem x
    next = omega (arith, rest, high, fits)

    sum_next : (sum + chunk_size s.mem x) % 2 ^ 32 ≡ sum + chunk_size s.mem x
    sum_next = omega (arith, rest, small, r.0)

-- A heap whose chunks `xs` follow one another from the first one, `first`, to the top.
pub record IsHeap (s : Space) (found : ℕ → Bool) (n first : ℕ) (xs : List ℕ) : Type 0 where
  pub starts : next_chunk s.mem (memory_to_chunk s.self) ≡ first
  pub row : Row s found n first xs
  pub low : s.least_addr ≤ first
  pub high : s.top ≤ s.least_addr + s.footprint
  pub fits : s.least_addr + s.footprint < 2 ^ 32
  pub total : s.top_size + (s.top - first) < 2 ^ 32

pub traverse_and_check_decides :
    (s : Space) (found : ℕ → Bool) (n first fuel : ℕ) (xs : List ℕ)
    → IsHeap s found n first xs
    → n + length xs < fuel
    → (failed : ℕ) × (traverse_and_check fuel s
        ≡ some (s.top_size + (s.top - first), with_failed failed s))
      × ((failed ≡ s.failed) ↔ ((get_pinuse s.mem first ≢ 0) × Sounds s found null xs))
unfolding traverse_and_check assert_error
traverse_and_check_decides s found n first fuel xs h enough = (
  begun + all_wrong s found null xs,
  rw (h.starts, small)
      (traverse_from_lem s found n fuel s.top_size null first begun xs h.row h.low h.high h.fits
        h.total enough),
  (
    (λ same. (ground (arith, same), all_sound s found null xs (ground (arith, same)))),
    (λ (marked, sounds). ground (arith, marked, none_wrong_in s found null xs sounds)),
  ),
)
  where
    begun : ℕ
    begun = if get_pinuse s.mem first != 0 then s.failed else s.failed + 1

    small : (0 + s.top_size) % 2 ^ 32 ≡ s.top_size
    small = omega (arith, h.total)

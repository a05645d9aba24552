-- ===== src/SmallBin/Frame.antt =====
-- Rings beside the one that changes, heads beside links, and what the ends of a link satisfy.
use odin_memory_allocator.Base.{ℕ, ◌+◌, ◌*◌, ◌%◌, ◌≡◌, ◌≢◌, arith, List, [], ◌∷◌, ◌++◌, All}
use odin_memory_allocator.Memory.{Memory, store}
use odin_memory_allocator.Chunk.{chunk_size}
use odin_memory_allocator.SmallBin.Ring.{
  Links, Clear, Outside, Distinct, Spares-fd, Spares-bk, Links-store, linked_in, linked_out,
}

-- `q` is an aligned chunk that is neither `z` nor in `ys`.
abbrev pub Apart : ℕ → ℕ → List ℕ → Type 0
Apart q z ys = (q % 8 ≡ 0) × (q ≢ z) × Outside q ys

-- A chunk apart from the header `z` and from the chunks `ys`.
abbrev pub Free : ℕ → ℕ → List ℕ → Type 0
Free q z ys = (q % 8 ≡ 0) × Clear z q × Outside q ys

pub Free-Apart : (q z : ℕ) (ys : List ℕ) → Free q z ys → Apart q z ys
Free-Apart q z ys f = (f.0, omega arith, f.2)

module _ (m : Memory) (z : ℕ) (ys : List ℕ) (ez : z % 8 ≡ 0) where
  pub Links-linked_in_other :
      (bin p f : ℕ)
      → Apart bin z ys
      → Apart p z ys
      → Apart f z ys
      → Links m z ys z
      → Links (linked_in bin p f m) z ys z
  Links-linked_in_other bin p f ab ap af l =
      let m1 = store (bin + 8) p m in
      let m2 = store (f + 12) p m1 in
      let m3 = store (p + 8) f m2 in
      Links-store (p + 12) bin m3 z ys z
        (Links-store (p + 8) f m2 z ys z
          (Links-store (f + 12) p m1 z ys z
            (Links-store (bin + 8) p m z ys z l (omega arith) (omega arith)
              (Spares-fd bin ys ab.0 ab.2))
            (omega arith) (omega arith) (Spares-bk f ys af.0 af.2))
          (omega arith) (omega arith) (Spares-fd p ys ap.0 ap.2))
        (omega arith) (omega arith) (Spares-bk p ys ap.0 ap.2)

  pub Links-linked_out_other :
      (back forward : ℕ)
      → Apart back z ys
      → Apart forward z ys
      → Links m z ys z
      → Links (linked_out back forward m) z ys z
  Links-linked_out_other back forward ab af l =
      Links-store (back + 8) forward (store (forward + 12) back m) z ys z
        (Links-store (forward + 12) back m z ys z l (omega arith) (omega arith)
          (Spares-bk forward ys af.0 af.2))
        (omega arith) (omega arith) (Spares-fd back ys ab.0 ab.2)

-- The word that `fd` of `a` holds satisfies what `z` and the elements do.
pub fd-All {κ} :
    (P : ℕ → Type κ) (m : Memory) (a : ℕ) (xs : List ℕ) (z : ℕ)
    → Links m a xs z
    → P z
    → All P xs
    → P (m (a + 8))
fd-All P m a [] z l pz ps = rw l.0 pz
fd-All P m a (x ∷ xs) z l pz ps = rw l.0 ps.0

pub bk-All {κ} :
    (P : ℕ → Type κ) (m : Memory) (a : ℕ) (xs : List ℕ) (p : ℕ) (ys : List ℕ) (z : ℕ)
    → Links m a (xs ++ p ∷ ys) z
    → P a
    → All P xs
    → P (m (p + 12))
bk-All P m a [] p ys z l pa ps = rw l.1 pa
bk-All P m a (x ∷ xs) p ys z l pa ps = bk-All P m x xs p ys z l.2 ps.0 ps.1

pub All-append {κ} : (P : ℕ → Type κ) (xs ys : List ℕ) → All P (xs ++ ys) → All P xs × All P ys
All-append P [] ys h = (tt, h)
All-append P (x ∷ xs) ys h = let (l, r) = All-append P xs ys h.1 in ((h.0, l), r)

pub All-join {κ} : (P : ℕ → Type κ) (xs ys : List ℕ) → All P xs → All P ys → All P (xs ++ ys)
All-join P [] ys h k = k
All-join P (x ∷ xs) ys h k = (h.0, All-join P xs ys h.1 k)

pub All-map {κ ℓ} :
    (P : ℕ → Type κ) (Q : ℕ → Type ℓ) (xs : List ℕ) → ((x : ℕ) → P x → Q x) → All P xs → All Q xs
All-map P Q [] f h = tt
All-map P Q (x ∷ xs) f h = (f x h.0, All-map P Q xs f h.1)

-- The head of a chunk that does not overlap the changed ones is no link.
pub linked_in-head :
    (bin p f x : ℕ) (m : Memory)
    → bin % 8 ≡ 0
    → x % 8 ≡ 0
    → x ≢ p + 8
    → x ≢ f + 8
    → p % 8 ≡ 0
    → linked_in bin p f m (x + 4) ≡ m (x + 4)
unfolding store
linked_in-head bin p f x m eb ex np nf ep = ground arith

pub linked_out-head :
    (back forward x : ℕ) (m : Memory)
    → back % 8 ≡ 0
    → x % 8 ≡ 0
    → x ≢ forward + 8
    → linked_out back forward m (x + 4) ≡ m (x + 4)
unfolding store
linked_out-head back forward x m eb ex nf = ground arith

-- No element begins in the middle of `f`.
abbrev pub NoneAt : ℕ → List ℕ → Type 0
NoneAt f xs = All (λ x. (x ≢ f + 8) × (x % 8 ≡ 0)) xs

pub Outside-NoneAt : (f : ℕ) (xs : List ℕ) → Outside f xs → NoneAt f xs
Outside-NoneAt f [] o = tt
Outside-NoneAt f (x ∷ xs) o = ((omega arith, o.1), Outside-NoneAt f xs o.2)

pub Outside-ahead : (p : ℕ) (xs : List ℕ) → Outside p xs → All (λ f. p ≢ f + 8) xs
Outside-ahead p [] o = tt
Outside-ahead p (x ∷ xs) o = (omega arith, Outside-ahead p xs o.2)

-- Nor in the middle of one another.
pub Distinct-NoneAt :
    (xs : List ℕ) → Distinct xs → All (λ x. x % 8 ≡ 0) xs → All (λ f. NoneAt f xs) xs
Distinct-NoneAt [] d a = tt
Distinct-NoneAt (x ∷ xs) d a =
    (((omega arith, a.0), Outside-NoneAt x xs d.0), both xs d.0 (Distinct-NoneAt xs d.1 a.1))
  where
    both :
        (ys : List ℕ) → Outside x ys → All (λ f. NoneAt f xs) ys → All (λ f. NoneAt f (x ∷ xs)) ys
    both [] o n = tt
    both (y ∷ ys) o n = (((omega arith, a.0), n.0), both ys o.2 n.1)

-- Where the heads of the elements are kept, so are their sizes.
pub sizes-kept :
    (m m' : Memory) (P : ℕ → Type 0) (i : ℕ) (xs : List ℕ)
    → ((x : ℕ) → P x → m' (x + 4) ≡ m (x + 4))
    → All P xs
    → All (λ x. chunk_size m x ≡ 8 * i) xs
    → All (λ x. chunk_size m' x ≡ 8 * i) xs
unfolding chunk_size
sizes-kept m m' P i [] same ps sz = tt
sizes-kept m m' P i (x ∷ xs) same ps sz =
    (rw (same x ps.0) sz.0, sizes-kept m m' P i xs same ps.1 sz.1)

pub Outside-aligned : (p : ℕ) (xs : List ℕ) → Outside p xs → All (λ x. x % 8 ≡ 0) xs
Outside-aligned p [] o = tt
Outside-aligned p (x ∷ xs) o = (o.1, Outside-aligned p xs o.2)

pub All-both {κ ℓ} :
    (P : ℕ → Type κ) (Q : ℕ → Type ℓ) (xs : List ℕ) → All P xs → All Q xs → All (λ x. P x × Q x) xs
All-both P Q [] h k = tt
All-both P Q (x ∷ xs) h k = ((h.0, k.0), All-both P Q xs h.1 k.1)

-- The chunk after `a` in a ring is its header or an element, so no element begins in its middle.
pub NoneAt-fd :
    (m : Memory) (a : ℕ) (xs ys : List ℕ) (z : ℕ)
    → Links m a xs z
    → Outside z ys
    → All (λ f. NoneAt f ys) xs
    → NoneAt (m (a + 8)) ys
NoneAt-fd m a xs ys z l o n = fd-All (λ f. NoneAt f ys) m a xs z l (Outside-NoneAt z ys o) n

-- Chunks that are apart from a list and from `p` are apart from the list with `p` in front.
pub Free-cons :
    (p z : ℕ) (ys xs : List ℕ)
    → p % 8 ≡ 0
    → Outside p xs
    → All (λ x. Free x z ys) xs
    → All (λ x. Free x z (p ∷ ys)) xs
Free-cons p z ys [] e o a = tt
Free-cons p z ys (x ∷ xs) e o a =
    ((a.0.0, a.0.1, (omega (arith, o.0), e, a.0.2)), Free-cons p z ys xs e o.2 a.1)

-- ===== src/SmallBin/Ring.antt =====
-- Circular lists in memory, through `fd` and `bk`, and what a store, an insertion and a removal do
-- to them. Chunk addresses are multiples of 8 and at least 16 bytes apart, so the fields of two
-- chunks are never one word.
use odin_memory_allocator.Base.{
  ℕ, ◌+◌, ◌%◌, ◌≡◌, ◌≢◌, ◌≤◌, ◌⊎◌, arith, List, [], ◌∷◌, ◌++◌, sym, subst,
}
use odin_memory_allocator.Memory.{Memory, store}

-- `fd` leads from `a` through `xs` to `z`, and `bk` leads back.
abbrev pub Links : Memory → ℕ → List ℕ → ℕ → Type 0
Links m a [] z = (m (a + 8) ≡ z) × (m (z + 12) ≡ a)
Links m a (x ∷ xs) z = (m (a + 8) ≡ x) × (m (x + 12) ≡ a) × Links m x xs z

-- Two chunks do not overlap in their first 16 bytes.
abbrev pub Clear : ℕ → ℕ → Type 0
Clear p x = (x + 16 ≤ p) ⊎ (p + 16 ≤ x)

-- Aligned chunks clear of `p`.
abbrev pub Outside : ℕ → List ℕ → Type 0
Outside p [] = Unit
Outside p (x ∷ xs) = Clear p x × (x % 8 ≡ 0) × Outside p xs

abbrev pub Distinct : List ℕ → Type 0
Distinct [] = Unit
Distinct (x ∷ xs) = Outside x xs × Distinct xs

-- The word at `b` is no link of `xs`.
abbrev pub Spares : ℕ → List ℕ → Type 0
Spares b [] = Unit
Spares b (x ∷ xs) = (b ≢ x + 8) × (b ≢ x + 12) × Spares b xs

pub Spares-fd : (p : ℕ) (xs : List ℕ) → p % 8 ≡ 0 → Outside p xs → Spares (p + 8) xs
Spares-fd p [] e o = tt
Spares-fd p (x ∷ xs) e o = (omega arith, omega arith, Spares-fd p xs e o.2)

pub Spares-bk : (p : ℕ) (xs : List ℕ) → p % 8 ≡ 0 → Outside p xs → Spares (p + 12) xs
Spares-bk p [] e o = tt
Spares-bk p (x ∷ xs) e o = (omega arith, omega arith, Spares-bk p xs e o.2)

-- A store outside the links of a list leaves it linked.
pub Links-store :
    (b v : ℕ) (m : Memory) (a : ℕ) (xs : List ℕ) (z : ℕ)
    → Links m a xs z
    → b ≢ a + 8
    → b ≢ z + 12
    → Spares b xs
    → Links (store b v m) a xs z
unfolding store
Links-store b v m a [] z l na nz sp = ground arith
Links-store b v m a (x ∷ xs) z l na nz sp =
    (ground arith, ground arith, Links-store b v m x xs z l.2 sp.0 nz sp.2)

-- The four writes of `insertSmallChunk`.
abbrev pub linked_in : (bin p forward : ℕ) → Memory → Memory
linked_in bin p forward m =
    store (p + 12) bin (store (p + 8) forward (store (forward + 12) p (store (bin + 8) p m)))

-- Writing the links of `p` and the two links that meet it leaves the list from `x` on.
rest_linked :
    (bin p x : ℕ) (m : Memory) (xs : List ℕ)
    → bin % 8 ≡ 0
    → p % 8 ≡ 0
    → x % 8 ≡ 0
    → p ≢ bin
    → x ≢ bin
    → x ≢ p
    → Links m x xs bin
    → Outside bin xs
    → Outside p xs
    → Outside x xs
    → Links (linked_in bin p x m) x xs bin
rest_linked bin p x m xs eb ep ex pb xb xp l ob op ox =
    Links-store (p + 12) bin _ x xs bin
      (Links-store (p + 8) x _ x xs bin
        (Links-store (x + 12) p _ x xs bin
          (Links-store (bin + 8) p _ x xs bin l (omega arith) (omega arith)
            (Spares-fd bin xs eb ob))
          (omega arith) (omega arith) (Spares-bk x xs ex ox))
        (omega arith) (omega arith) (Spares-fd p xs ep op))
      (omega arith) (omega arith) (Spares-bk p xs ep op)

pub Links-insert :
    (bin p : ℕ) (m : Memory) (xs : List ℕ)
    → bin % 8 ≡ 0
    → p % 8 ≡ 0
    → p ≢ bin
    → Links m bin xs bin
    → Outside bin xs
    → Outside p xs
    → Distinct xs
    → Links (linked_in bin p (m (bin + 8)) m) bin (p ∷ xs) bin
unfolding store
Links-insert bin p m [] eb ep ne l ob op d =
    (ground arith, ground arith, (ground arith, ground arith))
Links-insert bin p m (x ∷ xs) eb ep ne l ob op d =
    subst (λ f. Links (linked_in bin p f m) bin (p ∷ x ∷ xs) bin) (sym l.0)
      (
        ground arith,
        ground arith,
        (
          ground arith,
          ground arith,
          rest_linked bin p x m xs eb ep ob.1 ne (omega arith) (omega arith) l.2 ob.2 op.2 d.0,
        ),
      )

-- The two writes of `unlinkSmallChunk`.
abbrev pub linked_out : (back forward : ℕ) → Memory → Memory
linked_out back forward m = store (back + 8) forward (store (forward + 12) back m)

pub Outside-append : (p : ℕ) (xs ys : List ℕ) → Outside p (xs ++ ys) → Outside p xs × Outside p ys
Outside-append p [] ys o = (tt, o)
Outside-append p (x ∷ xs) ys o = let (l, r) = Outside-append p xs ys o.2 in ((o.0, o.1, l), r)

pub Links-drop :
    (m : Memory) (a : ℕ) (xs : List ℕ) (p : ℕ) (ys : List ℕ) (z : ℕ)
    → Links m a (xs ++ p ∷ ys) z
    → Links m p ys z
Links-drop m a [] p ys z l = l.2
Links-drop m a (x ∷ xs) p ys z l = Links-drop m x xs p ys z l.2

-- What `bk` of an element leads to is before it in the list.
back-ne :
    (m : Memory) (a x : ℕ) (xs : List ℕ) (p : ℕ) (ys : List ℕ) (z : ℕ)
    → Links m x (xs ++ p ∷ ys) z
    → x ≢ a
    → Outside a (xs ++ p ∷ ys)
    → m (p + 12) ≢ a
back-ne m a x [] p ys z l ne o = ground (arith, l.1)
back-ne m a x (y ∷ xs) p ys z l ne o = back-ne m a y xs p ys z l.2 (omega arith) o.2

-- What `fd` of an element leads to is after it.
forward-ne :
    (m : Memory) (a p : ℕ) (ys : List ℕ) (z : ℕ)
    → Links m p ys z
    → z ≢ a
    → Outside a ys
    → m (p + 8) ≢ a
forward-ne m a p [] z l ne o = ground (arith, l.0)
forward-ne m a p (y ∷ ys) z l ne o = ground (arith, l.0, o.0)

pub back_aligned :
    (m : Memory) (a : ℕ) (xs : List ℕ) (p : ℕ) (ys : List ℕ) (z : ℕ)
    → Links m a (xs ++ p ∷ ys) z
    → a % 8 ≡ 0
    → Outside p xs
    → m (p + 12) % 8 ≡ 0
back_aligned m a [] p ys z l e o = ground (arith, l.1)
back_aligned m a (x ∷ xs) p ys z l e o = back_aligned m x xs p ys z l.2 o.1 o.2

pub forward_aligned :
    (m : Memory) (p : ℕ) (ys : List ℕ) (z : ℕ)
    → Links m p ys z
    → z % 8 ≡ 0
    → Outside p ys
    → m (p + 8) % 8 ≡ 0
forward_aligned m p [] z l e o = ground (arith, l.0)
forward_aligned m p (y ∷ ys) z l e o = ground (arith, l.0, o.1)

-- Taking out the first element of a list.
unlink_head :
    (m : Memory) (a p : ℕ) (ys : List ℕ) (z : ℕ)
    → a % 8 ≡ 0
    → z % 8 ≡ 0
    → Outside a ys
    → Outside z ys
    → Distinct ys
    → Links m a (p ∷ ys) z
    → Links (linked_out a (m (p + 8)) m) a ys z
unfolding store
unlink_head m a p [] z ea ez oa oz d l = (ground (arith, l.2), ground (arith, l.2))
unlink_head m a p (y ∷ ys) z ea ez oa oz d l =
    subst (λ f. Links (linked_out a f m) a (y ∷ ys) z) (sym l.2.0)
      (
        ground arith,
        ground arith,
        Links-store (a + 8) _ (store (y + 12) a m) y ys z
            (Links-store (y + 12) a m y ys z l.2.2 (omega arith) (omega arith)
              (Spares-bk y ys oa.1 d.0))
            (omega arith) (omega arith) (Spares-fd a ys ea oa.2),
      )

pub Distinct-drop : (xs : List ℕ) (p : ℕ) (ys : List ℕ) → Distinct (xs ++ p ∷ ys) → Outside p ys
Distinct-drop [] p ys d = d.0
Distinct-drop (x ∷ xs) p ys d = Distinct-drop xs p ys d.1

-- Taking out any element: `bk` and `fd` of it are its neighbours.
pub Links-unlink :
    (m : Memory) (a : ℕ) (xs : List ℕ) (p : ℕ) (ys : List ℕ) (z : ℕ)
    → a % 8 ≡ 0
    → z % 8 ≡ 0
    → Outside a (xs ++ p ∷ ys)
    → Outside z (xs ++ p ∷ ys)
    → Distinct (xs ++ p ∷ ys)
    → Outside p xs
    → Links m a (xs ++ p ∷ ys) z
    → Links (linked_out (m (p + 12)) (m (p + 8)) m) a (xs ++ ys) z
unfolding store
Links-unlink m a [] p ys z ea ez oa oz d op l =
    subst (λ b. Links (linked_out b (m (p + 8)) m) a ys z) (sym l.1)
      (unlink_head m a p ys z ea ez oa.2 oz.2 d.1 l)
Links-unlink m a (x ∷ xs) p ys z ea ez oa oz d op l =
    let behind = Links-drop m x xs p ys z l.2 in
    let (_, after) = Outside-append x xs (p ∷ ys) d.0 in
    let b : m (p + 12) ≢ a = back-ne m a x xs p ys z l.2 (omega arith) oa.2 in
    let f : m (p + 8) ≢ x = forward-ne m x p ys z behind (omega arith) after.2 in
    let eb : m (p + 12) % 8 ≡ 0 = back_aligned m x xs p ys z l.2 oa.1 op.2 in
    let ef : m (p + 8) % 8 ≡ 0 = forward_aligned m p ys z behind ez (Distinct-drop xs p ys d.1) in
    (ground arith, ground arith, Links-unlink m x xs p ys z oa.1 ez d.0 oz.2 d.1 op.2 l.2)

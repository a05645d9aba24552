-- ===== src/TreeBin/Put.antt =====
-- A chunk put into the tree of a bin, and the search for a size, on trees alone.
use odin_memory_allocator.Base.{
  ℕ, suc, ◌%◌, ◌/◌, ◌^◌, ◌≡◌, ◌≢◌, ◌≤◌, ◌<◌, inl, inr, refl, arith, Bool-cases, false, ◌==◌,
  if◌then◌else◌, shl32, ltb,
}
use odin_memory_allocator.Base.Bits.{bit_and_mask}
use odin_memory_allocator.Memory.{null}
use odin_memory_allocator.TreeBin.{leading_bit}
use odin_memory_allocator.TreeBin.Shape.{
  Tree, leaf, node, root, depth, AllNodes, AllNodes-zip, Clear, ClearOf, Separate, Clear-sym,
}

-- Where the chunk comes to stand: below the last chunk on the path that the bits give.
abbrev pub put : (ptr size_bits : ℕ) → Tree → Tree
put ptr size_bits leaf = node ptr leaf leaf
put ptr size_bits (node p left right) =
    if leading_bit size_bits == 0
    then node p (put ptr (shl32 size_bits 1) left) right
    else node p left (put ptr (shl32 size_bits 1) right)

leading_bit-le : (bits : ℕ) → leading_bit bits ≤ 1
leading_bit-le bits = omega (arith, bit_and_mask 1 (bits / 2 ^ (31 % 32)))

pub bit_of : (bits : ℕ) → (leading_bit bits == 0) ≡ false → leading_bit bits ≡ 1
bit_of bits e = go (leading_bit bits) (leading_bit-le bits) e
  where
    go : (k : ℕ) → k ≤ 1 → (k == 0) ≡ false → k ≡ 1
    go k small other = ground (arith, small, other)

pub root-put :
    (ptr size_bits p : ℕ) (left right : Tree) → root (put ptr size_bits (node p left right)) ≡ p
root-put ptr size_bits p left right = elim (Bool-cases (leading_bit size_bits == 0)) [
  | inl e ↦ rw e refl
  | inr e ↦ rw e refl
]

pub AllNodes-put {κ} :
    (P : ℕ → Type κ) (ptr size_bits : ℕ) (t : Tree)
    → P ptr
    → AllNodes P t
    → AllNodes P (put ptr size_bits t)
AllNodes-put P ptr size_bits leaf new a = (new, tt, tt)
AllNodes-put P ptr size_bits (node p left right) new a =
    elim (Bool-cases (leading_bit size_bits == 0)) [
      | inl e ↦ rw e (a.0, AllNodes-put P ptr (shl32 size_bits 1) left new a.1, a.2)
      | inr e ↦ rw e (a.0, a.1, AllNodes-put P ptr (shl32 size_bits 1) right new a.2)
    ]

pub Separate-put :
    (ptr size_bits : ℕ) (t : Tree) → ClearOf ptr t → Separate t → Separate (put ptr size_bits t)
Separate-put ptr size_bits leaf clear s = (tt, tt, tt, tt, tt, tt)
Separate-put ptr size_bits (node p left right) clear s =
    elim (Bool-cases (leading_bit size_bits == 0)) [
      | inl e ↦ rw e (
        AllNodes-put (Clear p) ptr (shl32 size_bits 1) left (Clear-sym ptr p clear.0) s.0,
        s.1,
        AllNodes-put (λ q. ClearOf q right) ptr (shl32 size_bits 1) left clear.2 s.2,
        AllNodes-zip right
            (λ q far near.
              AllNodes-put (Clear q) ptr (shl32 size_bits 1) left (Clear-sym ptr q near) far)
            s.3 clear.2,
        Separate-put ptr (shl32 size_bits 1) left clear.1 s.4,
        s.5,
      )
      | inr e ↦ rw e (
        s.0,
        AllNodes-put (Clear p) ptr (shl32 size_bits 1) right (Clear-sym ptr p clear.0) s.1,
        AllNodes-zip left
            (λ q far near.
              AllNodes-put (Clear q) ptr (shl32 size_bits 1) right (Clear-sym ptr q near) far)
            s.2 clear.1,
        AllNodes-put (λ q. ClearOf q left) ptr (shl32 size_bits 1) right clear.1 s.3,
        s.4,
        Separate-put ptr (shl32 size_bits 1) right clear.2 s.5,
      )
    ]

-- The chunk of a size on the path that the bits give, or null.
abbrev pub lookup : (size_of : ℕ → ℕ) → (size size_bits : ℕ) → Tree → ℕ
lookup size_of size size_bits leaf = null
lookup size_of size size_bits (node p left right) =
    if size_of p == size
    then p
    else if leading_bit size_bits == 0
    then lookup size_of size (shl32 size_bits 1) left
    else lookup size_of size (shl32 size_bits 1) right

module _ (size_of : ℕ → ℕ) (ptr size : ℕ) (of_size : size_of ptr ≡ size) where
  pub lookup-put :
      (size_bits : ℕ) (t : Tree)
      → AllNodes (λ q. size_of q ≢ size) t
      → lookup size_of size size_bits (put ptr size_bits t) ≡ ptr
  lookup-put size_bits leaf others = ground (arith, of_size)
  lookup-put size_bits (node p left right) others = elim (Bool-cases (leading_bit size_bits == 0)) [
    | inl e ↦ rw (e, not_here p others.0, e) (lookup-put (shl32 size_bits 1) left others.1)
    | inr e ↦ rw (e, not_here p others.0, e) (lookup-put (shl32 size_bits 1) right others.2)
  ]
    where
      not_here : (q : ℕ) → size_of q ≢ size → (size_of q == size) ≡ false
      not_here q ne = ground (arith, ne)

  -- A search for another size does not see the chunk.
  pub lookup-put_other :
      (other size_bits bits : ℕ) (t : Tree)
      → other ≢ size
      → lookup size_of other bits (put ptr size_bits t) ≡ lookup size_of other bits t
  lookup-put_other other size_bits bits leaf ne = ground (arith, of_size, ne)
  lookup-put_other other size_bits bits (node p left right) ne =
      elim (Bool-cases (leading_bit size_bits == 0)) [
        | inl e ↦ rw (e, lookup-put_other other (shl32 size_bits 1) (shl32 bits 1) left ne) refl
        | inr e ↦ rw (e, lookup-put_other other (shl32 size_bits 1) (shl32 bits 1) right ne) refl
      ]

pub lookup_absent :
    (size_of : ℕ → ℕ) (size size_bits : ℕ) (t : Tree)
    → AllNodes (λ q. size_of q ≢ size) t
    → lookup size_of size size_bits t ≡ null
lookup_absent size_of size size_bits leaf others = refl
lookup_absent size_of size size_bits (node p left right) others = ground (
  arith,
  others.0,
  lookup_absent size_of size (shl32 size_bits 1) left others.1,
  lookup_absent size_of size (shl32 size_bits 1) right others.2,
)

pub lookup-sizes :
    (size_of' size_of : ℕ → ℕ) (size size_bits : ℕ) (t : Tree)
    → AllNodes (λ q. size_of' q ≡ size_of q) t
    → lookup size_of' size size_bits t ≡ lookup size_of size size_bits t
lookup-sizes size_of' size_of size size_bits leaf same = refl
lookup-sizes size_of' size_of size size_bits (node p left right) same =
    rw
      (
        same.0,
        lookup-sizes size_of' size_of size (shl32 size_bits 1) left same.1,
        lookup-sizes size_of' size_of size (shl32 size_bits 1) right same.2,
      )
      refl

-- The search takes no more than one turn more.
pub depth-put : (ptr size_bits : ℕ) (t : Tree) → depth (put ptr size_bits t) ≤ suc (depth t)
depth-put ptr size_bits leaf = omega arith
depth-put ptr size_bits (node p left right) = elim (Bool-cases (leading_bit size_bits == 0)) [
  | inl e ↦ rw e (deeper_side (depth left) (depth right) _ (depth-put ptr (shl32 size_bits 1) left))
  | inr e ↦ rw e (other_side (depth left) (depth right) _ (depth-put ptr (shl32 size_bits 1) right))
]
  where
    deeper_side :
        (a b c : ℕ)
        → c ≤ suc a
        → suc (if ltb c b then b else c) ≤ suc (suc (if ltb a b then b else a))
    deeper_side a b c le = ground (arith, le)

    other_side :
        (a b c : ℕ)
        → c ≤ suc b
        → suc (if ltb a c then c else a) ≤ suc (suc (if ltb a b then b else a))
    other_side a b c le = ground (arith, le)

pub depth-left : (p : ℕ) (left right : Tree) → depth left < depth (node p left right)
depth-left p left right = by_tests (depth left) (depth right)
  where
    by_tests : (a b : ℕ) → a < suc (if ltb a b then b else a)
    by_tests a b = ground arith

pub depth-right : (p : ℕ) (left right : Tree) → depth right < depth (node p left right)
depth-right p left right = by_tests (depth left) (depth right)
  where
    by_tests : (a b : ℕ) → b < suc (if ltb a b then b else a)
    by_tests a b = ground arith

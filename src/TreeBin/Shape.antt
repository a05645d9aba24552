-- ===== src/TreeBin/Shape.antt =====
-- The tree of a tree bin: the chunks that are linked by `child` and `parent`, one for each size. The
-- other chunks of a size hang in the ring of the one in the tree.
use odin_memory_allocator.Base.{
  ℕ, suc, ◌+◌, ◌≡◌, ◌≢◌, ◌≤◌, ◌⊎◌, inl, inr, ◌∙◌, arith, if◌then◌else◌, ltb,
}
use odin_memory_allocator.Memory.{Memory, null}

pub data Tree : Type 0 where
  leaf : Tree
  node : (p : ℕ) → (left right : Tree) → Tree

abbrev pub root : Tree → ℕ
root leaf = null
root (node p left right) = p

abbrev pub depth : Tree → ℕ
depth leaf = 0
depth (node p left right) = suc (if ltb (depth left) (depth right) then depth right else depth left)

abbrev pub AllNodes {κ} : (ℕ → Type κ) → Tree → Type κ
AllNodes P leaf = Unit
AllNodes P (node p left right) = P p × AllNodes P left × AllNodes P right

pub AllNodes-zip {κ ν μ} :
    {P : ℕ → Type κ} {Q : ℕ → Type ν} {R : ℕ → Type μ} (t : Tree)
    → ((q : ℕ) → P q → Q q → R q)
    → AllNodes P t
    → AllNodes Q t
    → AllNodes R t
AllNodes-zip leaf f a b = tt
AllNodes-zip (node p left right) f a b =
    (f p a.0 b.0, AllNodes-zip left f a.1 b.1, AllNodes-zip right f a.2 b.2)

pub AllNodes-map {κ μ} :
    {P : ℕ → Type κ} {R : ℕ → Type μ} (t : Tree)
    → ((q : ℕ) → P q → R q)
    → AllNodes P t
    → AllNodes R t
AllNodes-map t f a = AllNodes-zip t (λ q x y. f q x) a a

-- The tree in memory, below the chunk or bin at `up`.
abbrev pub Linked : Memory → (up : ℕ) → Tree → Type 0
Linked m up leaf = Unit
Linked m up (node p left right) =
    (p ≢ null)
    × (m (p + 16) ≡ root left)
    × (m (p + 20) ≡ root right)
    × (m (p + 24) ≡ up)
    × Linked m p left
    × Linked m p right

-- Two tree chunks do not overlap in their first 32 bytes.
abbrev pub Clear : ℕ → ℕ → Type 0
Clear p q = (q + 32 ≤ p) ⊎ (p + 32 ≤ q)

abbrev pub ClearOf : ℕ → Tree → Type 0
ClearOf p t = AllNodes (λ q. Clear p q) t

abbrev pub Apart : Tree → Tree → Type 0
Apart t u = AllNodes (λ p. ClearOf p u) t

abbrev pub Separate : Tree → Type 0
Separate leaf = Unit
Separate (node p left right) =
    ClearOf p left
    × ClearOf p right
    × Apart left right
    × Apart right left
    × Separate left
    × Separate right

-- The word at `b` is no tree link of a chunk of the tree.
abbrev pub Spares : ℕ → Tree → Type 0
Spares b t = AllNodes (λ q. (b + 4 ≤ q + 16) ⊎ (q + 28 ≤ b)) t

pub ClearOf-Spares : (p d : ℕ) (t : Tree) → d ≤ 28 → ClearOf p t → Spares (p + d) t
ClearOf-Spares p d leaf hi c = tt
ClearOf-Spares p d (node q left right) hi c =
    (omega arith, ClearOf-Spares p d left hi c.1, ClearOf-Spares p d right hi c.2)

-- The tree links of a tree are the same in both memories.
abbrev pub Agree : Memory → Memory → Tree → Type 0
Agree m m' t =
    AllNodes
      (λ q. (m' (q + 16) ≡ m (q + 16)) × (m' (q + 20) ≡ m (q + 20)) × (m' (q + 24) ≡ m (q + 24))) t

pub Linked-Agree :
    (m m' : Memory) (up : ℕ) (t : Tree) → Agree m m' t → Linked m up t → Linked m' up t
Linked-Agree m m' up leaf a l = tt
Linked-Agree m m' up (node p left right) a l = (
  l.0,
  a.0.0 ∙ l.1,
  a.0.1 ∙ l.2,
  a.0.2 ∙ l.3,
  Linked-Agree m m' p left a.1 l.4,
  Linked-Agree m m' p right a.2 l.5,
)

-- What is written outside of a tree leaves its links alone.
pub Apart-Agree :
    (m m' : Memory) (t u : Tree) (ptr : ℕ)
    → ((b : ℕ) → Spares b t → (b + 4 ≤ ptr + 8) ⊎ (ptr + 32 ≤ b) → m' b ≡ m b)
    → Apart u t
    → ClearOf ptr u
    → Agree m m' u
Apart-Agree m m' t leaf ptr kept a c = tt
Apart-Agree m m' t (node q left right) ptr kept a c = (
  (
    kept (q + 16) (ClearOf-Spares q 16 t (omega arith) a.0) (omega (arith, c.0)),
    kept (q + 20) (ClearOf-Spares q 20 t (omega arith) a.0) (omega (arith, c.0)),
    kept (q + 24) (ClearOf-Spares q 24 t (omega arith) a.0) (omega (arith, c.0)),
  ),
  Apart-Agree m m' t left ptr kept a.1 c.1,
  Apart-Agree m m' t right ptr kept a.2 c.2,
)

-- A single chunk beside a tree.
pub Apart-single : (p : ℕ) (u : Tree) → ClearOf p u → Apart u (node p leaf leaf)
Apart-single p leaf c = tt
Apart-single p (node q left right) c =
    ((omega (arith, c.0), tt, tt), Apart-single p left c.1, Apart-single p right c.2)

pub Apart-leaf : (u : Tree) → Apart u leaf
Apart-leaf leaf = tt
Apart-leaf (node q left right) = (tt, Apart-leaf left, Apart-leaf right)

pub Clear-sym : (p q : ℕ) → Clear p q → Clear q p
Clear-sym p q (inl c) = inr c
Clear-sym p q (inr c) = inl c

-- The heads of the chunks of a tree are no tree links of it.
pub heads_spare : (t : Tree) → Separate t → AllNodes (λ q. Spares (q + 4) t) t
heads_spare leaf s = tt
heads_spare (node p left right) s = (
  (
    inl (omega arith),
    ClearOf-Spares p 4 left (omega arith) s.0,
    ClearOf-Spares p 4 right (omega arith) s.1,
  ),
  AllNodes-zip left
      (λ q own (pair : Clear p q × ClearOf q right).
        (omega (arith, pair.0), own, ClearOf-Spares q 4 right (omega arith) pair.1))
      (heads_spare left s.4) (AllNodes-zip left (λ q c a. (c, a)) s.0 s.2),
  AllNodes-zip right
      (λ q own (pair : Clear p q × ClearOf q left).
        (omega (arith, pair.0), ClearOf-Spares q 4 left (omega arith) pair.1, own))
      (heads_spare right s.5) (AllNodes-zip right (λ q c a. (c, a)) s.1 s.3),
)

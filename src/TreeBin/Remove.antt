-- ===== src/TreeBin/Remove.antt =====
-- A chunk taken out of the tree of a bin, on trees alone: the rightmost chunk below it takes its place.
use odin_memory_allocator.Base.{ℕ}
use odin_memory_allocator.Memory.{null}
use odin_memory_allocator.TreeBin.Shape.{
  Tree, leaf, node, AllNodes, AllNodes-map, Clear, ClearOf, Apart, Separate, Clear-sym, Apart-leaf,
}

-- The last chunk of a tree, where the walk goes right as long as it can, and left where it cannot.
abbrev pub last_of : Tree → ℕ
last_of leaf = null
last_of (node p left (node q l r)) = last_of (node q l r)
last_of (node p (node q l r) leaf) = last_of (node q l r)
last_of (node p leaf leaf) = p

-- The tree without it.
abbrev pub rest_of : Tree → Tree
rest_of leaf = leaf
rest_of (node p left (node q l r)) = node p left (rest_of (node q l r))
rest_of (node p (node q l r) leaf) = node p (rest_of (node q l r)) leaf
rest_of (node p leaf leaf) = leaf

-- The tree `node p left right` without `p`.
abbrev pub removed : (left right : Tree) → Tree
removed left (node q l r) = node (last_of (node q l r)) left (rest_of (node q l r))
removed (node q l r) leaf = node (last_of (node q l r)) (rest_of (node q l r)) leaf
removed leaf leaf = leaf

-- Where a part of a tree stands.
pub data Context : Type 0 where
  whole : Context
  left_of : (x : ℕ) → (right : Tree) → Context → Context
  right_of : (x : ℕ) → (left : Tree) → Context → Context

abbrev pub plug : Context → Tree → Tree
plug whole u = u
plug (left_of x right c) u = plug c (node x u right)
plug (right_of x left c) u = plug c (node x left u)

abbrev pub IsNode : Tree → Type 0
IsNode leaf = ⊥
IsNode (node p left right) = Unit

module _ {κ} (P : ℕ → Type κ) where
  pub AllNodes-last : (t : Tree) → IsNode t → AllNodes P t → P (last_of t)
  AllNodes-last leaf some_node a = absurd some_node
  AllNodes-last (node p left (node q l r)) some_node a = AllNodes-last (node q l r) tt a.2
  AllNodes-last (node p (node q l r) leaf) some_node a = AllNodes-last (node q l r) tt a.1
  AllNodes-last (node p leaf leaf) some_node a = a.0

  pub AllNodes-rest : (t : Tree) → AllNodes P t → AllNodes P (rest_of t)
  AllNodes-rest leaf a = tt
  AllNodes-rest (node p left (node q l r)) a = (a.0, a.1, AllNodes-rest (node q l r) a.2)
  AllNodes-rest (node p (node q l r) leaf) a = (a.0, AllNodes-rest (node q l r) a.1, tt)
  AllNodes-rest (node p leaf leaf) a = tt

  pub AllNodes-removed :
      (left right : Tree) → AllNodes P left → AllNodes P right → AllNodes P (removed left right)
  AllNodes-removed left (node q l r) a b =
      (AllNodes-last (node q l r) tt b, a, AllNodes-rest (node q l r) b)
  AllNodes-removed (node q l r) leaf a b =
      (AllNodes-last (node q l r) tt a, AllNodes-rest (node q l r) a, tt)
  AllNodes-removed leaf leaf a b = tt

pub Apart-rest : (u t : Tree) → Apart u t → Apart u (rest_of t)
Apart-rest u t a = AllNodes-map u (λ q (c : ClearOf q t). AllNodes-rest (Clear q) t c) a

pub Separate-rest : (t : Tree) → Separate t → Separate (rest_of t)
Separate-rest leaf s = tt
Separate-rest (node p left (node q l r)) s = (
  s.0,
  AllNodes-rest (Clear p) (node q l r) s.1,
  Apart-rest left (node q l r) s.2,
  AllNodes-rest (λ x. ClearOf x left) (node q l r) s.3,
  s.4,
  Separate-rest (node q l r) s.5,
)
Separate-rest (node p (node q l r) leaf) s = (
  AllNodes-rest (Clear p) (node q l r) s.0,
  tt,
  AllNodes-rest (λ x. ClearOf x leaf) (node q l r) s.2,
  tt,
  Separate-rest (node q l r) s.4,
  tt,
)
Separate-rest (node p leaf leaf) s = tt

-- The last chunk is clear of the others.
pub last-ClearOf : (t : Tree) → Separate t → ClearOf (last_of t) (rest_of t)
last-ClearOf leaf s = tt
last-ClearOf (node p left (node q l r)) s = (
  Clear-sym p (last_of (node q l r)) (AllNodes-last (Clear p) (node q l r) tt s.1),
  AllNodes-last (λ x. ClearOf x left) (node q l r) tt s.3,
  last-ClearOf (node q l r) s.5,
)
last-ClearOf (node p (node q l r) leaf) s = (
  Clear-sym p (last_of (node q l r)) (AllNodes-last (Clear p) (node q l r) tt s.0),
  last-ClearOf (node q l r) s.4,
  tt,
)
last-ClearOf (node p leaf leaf) s = tt

pub Separate-removed :
    (p : ℕ) (left right : Tree) → Separate (node p left right) → Separate (removed left right)
Separate-removed p left (node q l r) s = (
  AllNodes-last (λ x. ClearOf x left) (node q l r) tt s.3,
  last-ClearOf (node q l r) s.5,
  Apart-rest left (node q l r) s.2,
  AllNodes-rest (λ x. ClearOf x left) (node q l r) s.3,
  s.4,
  Separate-rest (node q l r) s.5,
)
Separate-removed p (node q l r) leaf s = (
  last-ClearOf (node q l r) s.4,
  tt,
  Apart-leaf (rest_of (node q l r)),
  tt,
  Separate-rest (node q l r) s.4,
  tt,
)
Separate-removed p leaf leaf s = tt

-- A tree put in place of another has what holds of every chunk.
pub AllNodes-plug {κ} :
    (P : ℕ → Type κ) (c : Context) (u u' : Tree)
    → (AllNodes P u → AllNodes P u')
    → AllNodes P (plug c u)
    → AllNodes P (plug c u')
AllNodes-plug P whole u u' f a = f a
AllNodes-plug P (left_of x right c) u u' f a =
    AllNodes-plug P c (node x u right) (node x u' right) (λ b. (b.0, f b.1, b.2)) a
AllNodes-plug P (right_of x left c) u u' f a =
    AllNodes-plug P c (node x left u) (node x left u') (λ b. (b.0, b.1, f b.2)) a

-- Every chunk of `u'` is one of `u`.
abbrev pub Shrinks : (u u' : Tree) → Type 1
Shrinks u u' = (P : ℕ → Type 0) → AllNodes P u → AllNodes P u'

Shrinks-left : (x : ℕ) (u u' v : Tree) → Shrinks u u' → Shrinks (node x u v) (node x u' v)
Shrinks-left x u u' v f P a = (a.0, f P a.1, a.2)

Shrinks-right : (x : ℕ) (u u' v : Tree) → Shrinks u u' → Shrinks (node x v u) (node x v u')
Shrinks-right x u u' v f P a = (a.0, a.1, f P a.2)

pub Separate-plug :
    (c : Context) (u u' : Tree)
    → Shrinks u u'
    → (Separate u → Separate u')
    → Separate (plug c u)
    → Separate (plug c u')
Separate-plug whole u u' f g s = g s
Separate-plug (left_of x v c) u u' f g s =
    Separate-plug c (node x u v) (node x u' v) (Shrinks-left x u u' v f)
      (λ r. (
        f (Clear x) r.0,
        r.1,
        f (λ q. ClearOf q v) r.2,
        AllNodes-map v (λ q (a : ClearOf q u). f (Clear q) a) r.3,
        g r.4,
        r.5,
      ))
      s
Separate-plug (right_of x v c) u u' f g s =
    Separate-plug c (node x v u) (node x v u') (Shrinks-right x u u' v f)
      (λ r. (
        r.0,
        f (Clear x) r.1,
        AllNodes-map v (λ q (a : ClearOf q u). f (Clear q) a) r.2,
        f (λ q. ClearOf q v) r.3,
        r.4,
        g r.5,
      ))
      s

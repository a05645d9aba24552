-- ===== src/TreeBin/Hang.antt =====
-- `unlinkLargeChunk`, where the place that held the chunk takes the replacement.
use odin_memory_allocator.Base.{
  ℕ, ◌+◌, ◌≡◌, ◌≢◌, ◌<◌, inl, inr, refl, sym, ap, ◌∙◌, arith, Bool-cases, true, false, ◌==◌, ==_iff,
  if◌then◌else◌,
}
use odin_memory_allocator.Base.Bits.{test_bit}
use odin_memory_allocator.Memory.{Memory, null, store, store_ne}
use odin_memory_allocator.Space.{Space, tree_bin_at, clear_tree_map}
use odin_memory_allocator.Space.Bitmap.{test_bit-clear_tree_map}
use odin_memory_allocator.TreeBin.{hang}
use odin_memory_allocator.TreeBin.Shape.{
  Tree, leaf, node, root, AllNodes, Apart, Clear, ClearOf-Spares, Spares,
}
use odin_memory_allocator.TreeBin.Insert.{SameDigits}
use odin_memory_allocator.TreeBin.Remove.{Context, whole, left_of, right_of, plug}
use odin_memory_allocator.TreeBin.Replace.{Hangs, place_of, up_of, Hangs-part}
use odin_memory_allocator.TreeBin.Rightmost.{first_child, second_child}

pub up_mapped :
    (m : Memory) (bin : ℕ) (c : Context) (u : Tree)
    → Hangs m bin bin (plug c u)
    → bin ≢ null
    → up_of bin c ≢ null
up_mapped m bin whole u h there = there
up_mapped m bin (left_of x v c) u h there = (Hangs-part m bin c (node x u v) h).linked.0
up_mapped m bin (right_of x v c) u h there = (Hangs-part m bin c (node x v u) h).linked.0

-- A chunk below the root of a part is not the root of the tree.
root_apart :
    (m : Memory) (bin p : ℕ) (c : Context) (u : Tree)
    → Hangs m bin bin (plug c u)
    → root u ≢ p
    → ((P : ℕ → Type 0) → AllNodes P u → P p)
    → root (plug c u) ≢ p
root_apart m bin p whole u h ne among = ne
root_apart m bin p (left_of x v c) u h ne among =
    root_apart m bin p c (node x u v) h
      (omega (arith, among (Clear x) (Hangs-part m bin c (node x u v) h).separate.0))
      (λ P n. among P n.1)
root_apart m bin p (right_of x v c) u h ne among =
    root_apart m bin p c (node x v u) h
      (omega (arith, among (Clear x) (Hangs-part m bin c (node x v u) h).separate.1))
      (λ P n. among P n.2)

pub AllNodes-part : (P : ℕ → Type 0) (c : Context) (u : Tree) → AllNodes P (plug c u) → AllNodes P u
AllNodes-part P whole u a = a
AllNodes-part P (left_of x v c) u a = (AllNodes-part P c (node x u v) a).1
AllNodes-part P (right_of x v c) u a = (AllNodes-part P c (node x v u) a).2

root-plug :
    (c : Context) (x : ℕ) (a b a' b' : Tree)
    → root (plug c (node x a b)) ≡ root (plug c (node x a' b'))
root-plug whole x a b a' b' = refl
root-plug (left_of y v c) x a b a' b' = root-plug c y (node x a b) v (node x a' b') v
root-plug (right_of y v c) x a b a' b' = root-plug c y v (node x a b) v (node x a' b')

-- The space once the place that held the chunk holds the replacement.
pub record Hung (s t : Space) (i place q r : ℕ) (m : Memory) : Type 0 where
  pub memory : t.mem ≡ store place q m
  pub self : t.self ≡ s.self
  pub digit : test_bit i t.tree_map ≡ (if r == null then 0 else 1)
  pub digits : SameDigits i s t

test_self : (p : ℕ) → (p == p) ≡ true
test_self p = ground arith

test_ne : (p r : ℕ) → r ≢ p → (p == r) ≡ false
test_ne p r ne = ground (arith, ne)

same_bin : (s : Space) (m : Memory) (i : ℕ) → tree_bin_at (record s { mem = m }) i ≡ tree_bin_at s i
unfolding tree_bin_at
same_bin s m i = refl

pub same_self : (s s' : Space) (i : ℕ) → s'.self ≡ s.self → tree_bin_at s' i ≡ tree_bin_at s i
unfolding tree_bin_at
same_self s s' i e = rw e refl

module _ (s : Space) (m : Memory) (i p q : ℕ) (index : m (p + 28) ≡ i) where
  hang_emptied :
      m (tree_bin_at s i) ≡ p
      → p + 28 ≢ tree_bin_at s i
      → q ≡ null
      → hang p (tree_bin_at s i) q (record s { mem = m })
        ≡ clear_tree_map i (record s { mem = store (tree_bin_at s i) q m })
  unfolding hang
  hang_emptied holds off empty =
      rw
        (
          index,
          same_bin s m i,
          holds,
          test_self p,
          empty,
          store_ne (tree_bin_at s i) 0 (p + 28) m off,
          index,
        )
        refl

  hang_root :
      m (tree_bin_at s i) ≡ p
      → (q == 0) ≡ false
      → hang p (tree_bin_at s i) q (record s { mem = m })
        ≡ record s { mem = store (tree_bin_at s i) q m }
  unfolding hang
  hang_root holds filled = rw (index, same_bin s m i, holds, test_self p, filled) refl

  hang_left :
      (x r : ℕ)
      → m (tree_bin_at s i) ≡ r
      → r ≢ p
      → m (x + 16) ≡ p
      → hang p x q (record s { mem = m }) ≡ record s { mem = store (x + 16) q m }
  unfolding hang
  hang_left x r at_bin ne holds =
      rw (index, same_bin s m i, at_bin, test_ne p r ne, first_child x, holds, test_self p) refl

  hang_right :
      (x r : ℕ)
      → m (tree_bin_at s i) ≡ r
      → r ≢ p
      → m (x + 16) ≢ p
      → hang p x q (record s { mem = m }) ≡ record s { mem = store (x + 20) q m }
  unfolding hang
  hang_right x r at_bin ne other =
      rw
        (
          index,
          same_bin s m i,
          at_bin,
          test_ne p r ne,
          first_child x,
          second_child x,
          test_ne' (m (x + 16)) other,
        )
        refl
    where
      test_ne' : (a : ℕ) → a ≢ p → (a == p) ≡ false
      test_ne' a ne = ground (arith, ne)

cleared-Hung :
    (s : Space) (m : Memory) (i q : ℕ)
    → i < 32
    → (q == 0) ≡ true
    → Hung s
        (clear_tree_map i (record s { mem = store (tree_bin_at s i) q m }))
        i
        (tree_bin_at s i)
        q
        q
        m
unfolding clear_tree_map
cleared-Hung s m i q lt e = record {
  memory = refl;
  self = refl;
  digit =
      test_bit-clear_tree_map (record s { mem = store (tree_bin_at s i) q m }) i i lt lt
      ∙ rw (test_self i, e) refl;
  digits = λ j small ne.
      test_bit-clear_tree_map (record s { mem = store (tree_bin_at s i) q m }) i j lt small
      ∙ rw (test_ne j i (λ x. ne (sym x))) refl;
}

-- The digit of the tree map of a bin with that root.
abbrev pub digit_of : ℕ → ℕ
digit_of r = if r == null then 0 else 1

both_filled : (p q : ℕ) → p ≢ null → (q == 0) ≡ false → digit_of p ≡ digit_of q
both_filled p q ne e = ground (arith, ne, e)

root_beside :
    (v : Tree) (p : ℕ) (left right : Tree) → Apart v (node p left right) → p ≢ null → root v ≢ p
root_beside leaf p left right a mapped e = mapped (sym e)
root_beside (node y l r) p left right a mapped e = omega (arith, a.0.0, e)

-- The place that held `p` takes the replacement, the root of `u'`.
pub hang_there :
    (s : Space) (m : Memory) (i p : ℕ) (c : Context) (left right u' : Tree)
    → i < 32
    → Hangs s.mem (tree_bin_at s i) (tree_bin_at s i) (plug c (node p left right))
    → test_bit i s.tree_map ≡ (if root (plug c (node p left right)) == null then 0 else 1)
    → ((b : ℕ) → Spares b (node p left right) → m b ≡ s.mem b)
    → m (tree_bin_at s i) ≡ root (plug c (node p left right))
    → m (place_of (tree_bin_at s i) c) ≡ p
    → m (p + 28) ≡ i
    → p + 28 ≢ tree_bin_at s i
    → (t : Space) × (hang p (up_of (tree_bin_at s i) c) (root u') (record s { mem = m }) ≡ t)
      × Hung s t i (place_of (tree_bin_at s i) c) (root u') (root (plug c u')) m
hang_there s m i p whole left right u' lt h digit before at_bin at_place index off =
    elim (Bool-cases (root u' == 0)) [
      | inl e ↦ (
        clear_tree_map i (record s { mem = store (tree_bin_at s i) (root u') m }),
        hang_emptied s m i p (root u') index at_place off ((==_iff _ _).0 e),
        cleared-Hung s m i (root u') lt e,
      )
      | inr e ↦ (
        record s { mem = store (tree_bin_at s i) (root u') m },
        hang_root s m i p (root u') index at_place e,
        record {
          memory = refl;
          self = refl;
          digits = λ j small ne. refl;
          digit = digit ∙ both_filled p (root u') h.linked.0 e;
        },
      )
    ]
hang_there s m i p (left_of x v c) left right u' lt h digit before at_bin at_place index off = (
  record s { mem = store (x + 16) (root u') m },
  hang_left s m i p (root u') index x _ at_bin
      (root_apart s.mem (tree_bin_at s i) p c (node x (node p left right) v) h
        (omega (
          arith,
          (Hangs-part s.mem (tree_bin_at s i) c (node x (node p left right) v) h).separate.0.0,
        ))
        (λ P n. n.1.0))
      at_place,
  record {
    memory = refl;
    self = refl;
    digits = λ j small ne. refl;
    digit = digit ∙ ap (λ r. if r == null then 0 else 1) (root-plug c x (node p left right) v u' v);
  },
)
hang_there s m i p (right_of x v c) left right u' lt h digit before at_bin at_place index off = (
  record s { mem = store (x + 20) (root u') m },
  hang_right s m i p (root u') index x _ at_bin
      (root_apart s.mem (tree_bin_at s i) p c (node x v (node p left right)) h
        (omega (
          arith,
          (Hangs-part s.mem (tree_bin_at s i) c (node x v (node p left right)) h).separate.1.0,
        ))
        (λ P n. n.2.0))
      (λ e.
        (let part = Hangs-part s.mem (tree_bin_at s i) c (node x v (node p left right)) h in
          root_beside v p left right part.separate.2 part.linked.5.0 (
            sym (
              before (x + 16) (
                omega (arith, part.separate.1.0),
                ClearOf-Spares x 16 left (omega arith) part.separate.1.1,
                ClearOf-Spares x 16 right (omega arith) part.separate.1.2,
              )
              ∙ part.linked.1)
            ∙ e))),
  record {
    memory = refl;
    self = refl;
    digits = λ j small ne. refl;
    digit = digit ∙ ap (λ r. if r == null then 0 else 1) (root-plug c x v (node p left right) v u');
  },
)

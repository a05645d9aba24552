-- ===== src/TreeBin/Rightmost.antt =====
-- The walk of `unlinkLargeChunk` to the rightmost chunk of a part of the tree.
use odin_memory_allocator.Base.{
  ℕ, zero, suc, ◌+◌, ◌≡◌, ◌≢◌, ◌≤◌, refl, ◌∙◌, arith, some, ◌!=◌, true,
}
use odin_memory_allocator.Memory.{Memory, null, store, store_self, store_ne}
use odin_memory_allocator.TreeBin.{rightmost}
use odin_memory_allocator.TreeBin.Shape.{Tree, leaf, node, root, depth}
use odin_memory_allocator.TreeBin.Put.{depth-left, depth-right}
use odin_memory_allocator.TreeBin.Remove.{last_of, rest_of, IsNode}
use odin_memory_allocator.TreeBin.Replace.{
  Hangs, Replaced, Hangs-left, Hangs-right, Replaced-left, Replaced-right,
}

pub first_child : (p : ℕ) → p + 16 + 0 ≡ p + 16
first_child p = omega arith

pub second_child : (p : ℕ) → p + 16 + 4 ≡ p + 20
second_child p = omega arith

-- What the walk finds: the last chunk, which has no child, and the word that holds it.
pub record Found (m : Memory) (fuel place up : ℕ) (t : Tree) : Type 0 where
  pub holder : ℕ
  pub walks : rightmost fuel place (root t) m ≡ some (holder, last_of t)
  pub taken : Replaced m (store holder 0 m) place up t (rest_of t)
  pub mapped : last_of t ≢ null
  pub no_left : m (last_of t + 16) ≡ null
  pub no_right : m (last_of t + 20) ≡ null

present : (b : ℕ) → b ≢ null → (b != 0) ≡ true
present b ne = ground (arith, ne)

rightmost_right :
    (fuel place p b : ℕ) (m : Memory)
    → m (p + 20) ≡ b
    → b ≢ null
    → rightmost (suc fuel) place p m ≡ rightmost fuel (p + 20) b m
unfolding rightmost
rightmost_right fuel place p b m holds ne = rw (second_child p, holds, present b ne) refl

rightmost_left :
    (fuel place p a : ℕ) (m : Memory)
    → m (p + 20) ≡ null
    → m (p + 16) ≡ a
    → a ≢ null
    → rightmost (suc fuel) place p m ≡ rightmost fuel (p + 16) a m
unfolding rightmost
rightmost_left fuel place p a m none_right holds ne =
    rw (second_child p, first_child p, none_right, holds, present a ne) refl

rightmost_here :
    (fuel place p : ℕ) (m : Memory)
    → m (p + 20) ≡ null
    → m (p + 16) ≡ null
    → rightmost (suc fuel) place p m ≡ some (place, p)
unfolding rightmost
rightmost_here fuel place p m none_right none_left =
    rw (second_child p, first_child p, none_right, none_left) refl

pub rightmost-Found :
    (t : Tree) (fuel place up : ℕ) (m : Memory)
    → IsNode t
    → depth t ≤ fuel
    → Hangs m place up t
    → Found m fuel place up t
rightmost-Found leaf fuel place up m some_node enough h = absurd some_node
rightmost-Found (node p left right) zero place up m some_node enough h =
    absurd (omega (arith, enough, depth-left p left right))
rightmost-Found (node p left (node q l r)) (suc fuel) place up m some_node enough h =
    let below : Found m fuel (p + 20) p (node q l r) =
      rightmost-Found (node q l r) fuel (p + 20) p m tt
        (omega (arith, enough, depth-right p left (node q l r)))
        (Hangs-right m place up p left (node q l r) h) in
    record {
      holder = below.holder;
      walks = rightmost_right fuel place p q m h.linked.2 h.linked.5.0 ∙ below.walks;
      taken =
          Replaced-right m place up p left (node q l r) h (store below.holder 0 m)
            (rest_of (node q l r)) below.taken;
      mapped = below.mapped;
      no_left = below.no_left;
      no_right = below.no_right;
    }
rightmost-Found (node p (node q l r) leaf) (suc fuel) place up m some_node enough h =
    let below : Found m fuel (p + 16) p (node q l r) =
      rightmost-Found (node q l r) fuel (p + 16) p m tt
        (omega (arith, enough, depth-left p (node q l r) leaf))
        (Hangs-left m place up p (node q l r) leaf h) in
    record {
      holder = below.holder;
      walks = rightmost_left fuel place p q m h.linked.2 h.linked.1 h.linked.4.0 ∙ below.walks;
      taken =
          Replaced-left m place up p (node q l r) leaf h (store below.holder 0 m)
            (rest_of (node q l r)) below.taken;
      mapped = below.mapped;
      no_left = below.no_left;
      no_right = below.no_right;
    }
rightmost-Found (node p leaf leaf) (suc fuel) place up m some_node enough h = record {
  holder = place;
  walks = rightmost_here fuel place p m h.linked.2 h.linked.1;
  taken = record {
    at_place = store_self place 0 m;
    linked = tt;
    kept = λ b spare ne. store_ne place 0 b m ne;
  };
  mapped = h.linked.0;
  no_left = h.linked.1;
  no_right = h.linked.2;
}

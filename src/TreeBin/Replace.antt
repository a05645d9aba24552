-- ===== src/TreeBin/Replace.antt =====
-- A part of a tree in memory that is written over by another tree, and the tree around it.
use odin_memory_allocator.Base.{ℕ, ◌+◌, ◌≡◌, ◌≢◌, ◌≤◌, ◌⊎◌, ◌∙◌, arith}
use odin_memory_allocator.Memory.{Memory}
use odin_memory_allocator.TreeBin.Shape.{
  Tree, node, root, AllNodes-zip, Linked, ClearOf, ClearOf-Spares, Apart, Separate, Spares, Agree,
  Linked-Agree,
}
use odin_memory_allocator.TreeBin.Remove.{Context, whole, left_of, right_of, plug}

-- The tree `u` hangs in the word at `place`, below `up`.
pub record Hangs (m : Memory) (place up : ℕ) (u : Tree) : Type 0 where
  pub at_place : m place ≡ root u
  pub linked : Linked m up u
  pub separate : Separate u
  pub spared : Spares place u

-- `m'` has the tree `u'` where `m` has `u`, and is as `m` elsewhere.
pub record Replaced (m m' : Memory) (place up : ℕ) (u u' : Tree) : Type 0 where
  pub at_place : m' place ≡ root u'
  pub linked : Linked m' up u'
  pub kept : (b : ℕ) → Spares b u → b ≢ place → m' b ≡ m b

-- The links of a tree beside `u`.
pub beside :
    (m m' : Memory) (place : ℕ) (u v : Tree)
    → ((b : ℕ) → Spares b u → b ≢ place → m' b ≡ m b)
    → Apart v u
    → Spares place v
    → Agree m m' v
beside m m' place u v kept apart spared =
    AllNodes-zip v
      (λ q (c : ClearOf q u) (off : (place + 4 ≤ q + 16) ⊎ (q + 28 ≤ place)). (
        kept (q + 16) (ClearOf-Spares q 16 u (omega arith) c) (omega (arith, off)),
        kept (q + 20) (ClearOf-Spares q 20 u (omega arith) c) (omega (arith, off)),
        kept (q + 24) (ClearOf-Spares q 24 u (omega arith) c) (omega (arith, off)),
      ))
      apart spared

module _ (m : Memory) (place up x : ℕ) (left right : Tree)
    (h : Hangs m place up (node x left right)) where
  pub Hangs-left : Hangs m (x + 16) x left
  Hangs-left = record {
    at_place = h.linked.1;
    linked = h.linked.4;
    separate = h.separate.4;
    spared = ClearOf-Spares x 16 left (omega arith) h.separate.0;
  }

  pub Hangs-right : Hangs m (x + 20) x right
  Hangs-right = record {
    at_place = h.linked.2;
    linked = h.linked.5;
    separate = h.separate.5;
    spared = ClearOf-Spares x 20 right (omega arith) h.separate.1;
  }

  module _ (m' : Memory) (u' : Tree) where
    pub Replaced-left :
        Replaced m m' (x + 16) x left u'
        → Replaced m m' place up (node x left right) (node x u' right)
    Replaced-left r = record {
      at_place = r.kept place h.spared.1 (omega (arith, h.spared.0)) ∙ h.at_place;
      linked = (
        h.linked.0,
        r.at_place,
        r.kept (x + 20) (ClearOf-Spares x 20 left (omega arith) h.separate.0) (omega arith)
            ∙ h.linked.2,
        r.kept (x + 24) (ClearOf-Spares x 24 left (omega arith) h.separate.0) (omega arith)
            ∙ h.linked.3,
        r.linked,
        Linked-Agree m m' x right
            (beside m m' (x + 16) left right r.kept h.separate.3
              (ClearOf-Spares x 16 right (omega arith) h.separate.1))
            h.linked.5,
      );
      kept = λ b spare ne. r.kept b spare.1 (omega (arith, spare.0));
    }

    pub Replaced-right :
        Replaced m m' (x + 20) x right u'
        → Replaced m m' place up (node x left right) (node x left u')
    Replaced-right r = record {
      at_place = r.kept place h.spared.2 (omega (arith, h.spared.0)) ∙ h.at_place;
      linked = (
        h.linked.0,
        r.kept (x + 16) (ClearOf-Spares x 16 right (omega arith) h.separate.1) (omega arith)
            ∙ h.linked.1,
        r.at_place,
        r.kept (x + 24) (ClearOf-Spares x 24 right (omega arith) h.separate.1) (omega arith)
            ∙ h.linked.3,
        Linked-Agree m m' x left
            (beside m m' (x + 20) right left r.kept h.separate.2
              (ClearOf-Spares x 20 left (omega arith) h.separate.0))
            h.linked.4,
        r.linked,
      );
      kept = λ b spare ne. r.kept b spare.2 (omega (arith, spare.0));
    }

-- The word that holds a part of the tree of the bin at `bin`, and what the part hangs below.
abbrev pub place_of : (bin : ℕ) → Context → ℕ
place_of bin whole = bin
place_of bin (left_of x right c) = x + 16
place_of bin (right_of x left c) = x + 20

abbrev pub up_of : (bin : ℕ) → Context → ℕ
up_of bin whole = bin
up_of bin (left_of x right c) = x
up_of bin (right_of x left c) = x

pub Hangs-part :
    (m : Memory) (bin : ℕ) (c : Context) (u : Tree)
    → Hangs m bin bin (plug c u)
    → Hangs m (place_of bin c) (up_of bin c) u
Hangs-part m bin whole u h = h
Hangs-part m bin (left_of x right c) u h =
    Hangs-left m (place_of bin c) (up_of bin c) x u right (Hangs-part m bin c (node x u right) h)
Hangs-part m bin (right_of x left c) u h =
    Hangs-right m (place_of bin c) (up_of bin c) x left u (Hangs-part m bin c (node x left u) h)

pub Replaced-plug :
    (m m' : Memory) (bin : ℕ) (c : Context) (u u' : Tree)
    → Hangs m bin bin (plug c u)
    → Replaced m m' (place_of bin c) (up_of bin c) u u'
    → Replaced m m' bin bin (plug c u) (plug c u')
Replaced-plug m m' bin whole u u' h r = r
Replaced-plug m m' bin (left_of x right c) u u' h r =
    Replaced-plug m m' bin c (node x u right) (node x u' right) h (
      Replaced-left m (place_of bin c) (up_of bin c) x u right
        (Hangs-part m bin c (node x u right) h) m' u' r)
Replaced-plug m m' bin (right_of x left c) u u' h r =
    Replaced-plug m m' bin c (node x left u) (node x left u') h (
      Replaced-right m (place_of bin c) (up_of bin c) x left u
        (Hangs-part m bin c (node x left u) h) m' u' r)

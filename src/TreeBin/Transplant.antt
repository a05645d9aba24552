-- ===== src/TreeBin/Transplant.antt =====
-- `unlinkLargeChunk`, where the replacement takes the parent and the children of the chunk.
use odin_memory_allocator.Base.{
  ℕ, ◌+◌, ◌*◌, ◌≡◌, ◌≢◌, ◌≤◌, ◌⊎◌, refl, ◌∙◌, arith, ◌!=◌, if◌then◌else◌, true,
}
use odin_memory_allocator.Memory.{Memory, null, store, store_self, store_ne}
use odin_memory_allocator.TreeBin.{child_at, set_parent, adopt}
use odin_memory_allocator.TreeBin.Shape.{
  Tree, leaf, node, root, AllNodes-zip, Linked, Clear, ClearOf, ClearOf-Spares, Separate, Spares,
  Agree, Linked-Agree,
}
use odin_memory_allocator.TreeBin.Replace.{Hangs, Replaced, beside}

adopt_lem :
    (k d p q c : ℕ) (m : Memory)
    → 16 + 4 * k ≡ d
    → m (p + d) ≡ c
    → adopt k p q m ≡ (if c != 0 then store (c + 24) q (store (q + d) c m) else m)
unfolding adopt
adopt_lem k d p q c m e holds = rw (at p, at q, holds, store_self (q + d) c m) refl
  where
    at : (x : ℕ) → child_at x k ≡ x + d
    at x = omega (arith, e)

-- The two words that one `adopt` writes.
given :
    (m : Memory) (d q x : ℕ) (v : Tree)
    → Spares (q + d) v
    → ClearOf x v
    → Agree m (store (x + 24) q (store (q + d) x m)) v
unfolding store
given m d q x v spared clear =
    AllNodes-zip v
      (λ z (off : (q + d + 4 ≤ z + 16) ⊎ (z + 28 ≤ q + d)) (c : Clear x z).
        (ground (arith, off, c), ground (arith, off, c), ground (arith, off, c)))
      spared clear

given-Replaced :
    (m : Memory) (p d q x : ℕ) (left right : Tree)
    → Linked m p (node x left right)
    → Separate (node x left right)
    → Spares (q + d) (node x left right)
    → Replaced m
        (store (x + 24) q (store (q + d) x m))
        (q + d)
        q
        (node x left right)
        (node x left right)
unfolding store
given-Replaced m p d q x left right linked separate spared = record {
  at_place = ground (arith, spared.0);
  linked = (
    linked.0,
    ground (arith, spared.0, linked.1),
    ground (arith, spared.0, linked.2),
    ground arith,
    Linked-Agree m (store (x + 24) q (store (q + d) x m)) x left
        (given m d q x left spared.1 separate.0) linked.4,
    Linked-Agree m (store (x + 24) q (store (q + d) x m)) x right
        (given m d q x right spared.2 separate.1) linked.5,
  );
  kept = λ b spare ne. ground (arith, spare.0, ne);
}

adopt-Replaced :
    (k d p q : ℕ) (u : Tree) (m : Memory)
    → 16 + 4 * k ≡ d
    → m (p + d) ≡ root u
    → Linked m p u
    → Separate u
    → Spares (q + d) u
    → m (q + d) ≡ null
    → Replaced m (adopt k p q m) (q + d) q u u
adopt-Replaced k d p q leaf m e holds linked separate spared empty =
    rw (adopt_lem k d p q null m e holds)
      (record { at_place = empty; linked = tt; kept = λ b spare ne. refl })
adopt-Replaced k d p q (node x left right) m e holds linked separate spared empty =
    rw (adopt_lem k d p q x m e holds, present x linked.0)
      (given-Replaced m p d q x left right linked separate spared)
  where
    present : (b : ℕ) → b ≢ null → (b != 0) ≡ true
    present b ne = ground (arith, ne)

-- The chunk `q` stands where `p` stood, with its parent and its children.
pub record Transplanted (m m' : Memory) (place up q : ℕ) (left right : Tree) : Type 0 where
  pub at_place : m' place ≡ q
  pub linked : Linked m' up (node q left right)
  pub kept :
      (b : ℕ)
      → (b + 4 ≤ q + 16) ⊎ (q + 28 ≤ b)
      → Spares b left
      → Spares b right
      → b ≢ place
      → m' b ≡ m b

module _ (m : Memory) (place up p q : ℕ) (left right : Tree)
    (h : Hangs m place up (node p left right)) (mapped : q ≢ null)
    (clear : ClearOf q (node p left right)) (off : (place + 4 ≤ q + 16) ⊎ (q + 28 ≤ place))
    (no_left : m (q + 16) ≡ null) (no_right : m (q + 20) ≡ null) where
  abbrev hung : Memory
  hung = set_parent q up (store place q m)

  hung_word : (b : ℕ) → b ≢ place → b ≢ q + 24 → hung b ≡ m b
  unfolding store
  hung_word b ne other = ground (arith, ne, other)

  hung-Agree : (v : Tree) → Spares place v → ClearOf q v → Agree m hung v
  hung-Agree v spared far =
      AllNodes-zip v
        (λ z (o : (place + 4 ≤ z + 16) ⊎ (z + 28 ≤ place)) (c : Clear q z). (
          hung_word (z + 16) (omega (arith, o)) (omega (arith, c)),
          hung_word (z + 20) (omega (arith, o)) (omega (arith, c)),
          hung_word (z + 24) (omega (arith, o)) (omega (arith, c)),
        ))
        spared far

  first : Replaced hung (adopt 0 p q hung) (q + 16) q left left
  first =
      adopt-Replaced 0 16 p q left hung refl
        (hung_word (p + 16) (omega (arith, h.spared.0)) (omega (arith, clear.0)) ∙ h.linked.1)
        (Linked-Agree m hung p left (hung-Agree left h.spared.1 clear.1) h.linked.4) h.separate.4
        (ClearOf-Spares q 16 left (omega arith) clear.1)
        (hung_word (q + 16) (omega (arith, off)) (omega arith) ∙ no_left)

  abbrev one : Memory
  one = adopt 0 p q hung

  second : Replaced one (adopt 1 p q one) (q + 20) q right right
  second =
      adopt-Replaced 1 20 p q right one refl
        (first.kept (p + 20) (ClearOf-Spares p 20 left (omega arith) h.separate.0)
            (omega (arith, clear.0))
          ∙ hung_word (p + 20) (omega (arith, h.spared.0)) (omega (arith, clear.0))
          ∙ h.linked.2)
        (Linked-Agree hung one p right
          (beside hung one (q + 16) left right first.kept h.separate.3
            (ClearOf-Spares q 16 right (omega arith) clear.2))
          (Linked-Agree m hung p right (hung-Agree right h.spared.2 clear.2) h.linked.5))
        h.separate.5 (ClearOf-Spares q 20 right (omega arith) clear.2)
        (first.kept (q + 20) (ClearOf-Spares q 20 left (omega arith) clear.1) (omega arith)
          ∙ hung_word (q + 20) (omega (arith, off)) (omega arith)
          ∙ no_right)

  abbrev both : Memory
  both = adopt 1 p q one

  both_word : (b : ℕ) → Spares b left → Spares b right → b ≢ q + 16 → b ≢ q + 20 → both b ≡ hung b
  both_word b l r ne ne' = second.kept b r ne' ∙ first.kept b l ne

  pub transplants : Transplanted m both place up q left right
  transplants = record {
    at_place =
        both_word place h.spared.1 h.spared.2 (omega (arith, off)) (omega (arith, off))
        ∙ store_ne (q + 24) up place (store place q m) (omega (arith, off))
        ∙ store_self place q m;
    linked = (
      mapped,
      second.kept (q + 16) (ClearOf-Spares q 16 right (omega arith) clear.2) (omega arith)
          ∙ first.at_place,
      second.at_place,
      both_word (q + 24) (ClearOf-Spares q 24 left (omega arith) clear.1)
            (ClearOf-Spares q 24 right (omega arith) clear.2) (omega arith) (omega arith)
          ∙ store_self (q + 24) up (store place q m),
      Linked-Agree one both q left
          (beside one both (q + 20) right left second.kept h.separate.2
            (ClearOf-Spares q 20 left (omega arith) clear.1))
          first.linked,
      second.linked,
    );
    kept = λ b own l r ne.
        both_word b l r (omega (arith, own)) (omega (arith, own))
        ∙ hung_word b ne (omega (arith, own));
  }

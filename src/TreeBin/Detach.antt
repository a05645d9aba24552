-- ===== src/TreeBin/Detach.antt =====
-- `unlinkLargeChunk` on the part of the tree below the chunk.
use odin_memory_allocator.Base.{
  ℕ, ◌+◌, ◌≡◌, ◌≢◌, ◌≤◌, ◌⊎◌, refl, ◌∙◌, arith, some, ◌!=◌, if◌then◌else◌, true, false,
}
use odin_memory_allocator.Base.Fuel.{◌>>=◌}
use odin_memory_allocator.Memory.{Memory, null, store, store_self, store_ne}
use odin_memory_allocator.Chunk.{bk}
use odin_memory_allocator.TreeBin.{set_parent, detach, adopt, rightmost}
use odin_memory_allocator.TreeBin.Shape.{
  Tree, leaf, node, root, depth, AllNodes, Clear, ClearOf, Clear-sym, Apart-leaf, Separate, Spares,
}
use odin_memory_allocator.TreeBin.Remove.{
  last_of, rest_of, removed, AllNodes-last, AllNodes-rest, Separate-rest, Apart-rest, last-ClearOf,
  Shrinks,
}
use odin_memory_allocator.TreeBin.Replace.{
  Hangs, Replaced, Hangs-left, Hangs-right, Replaced-left, Replaced-right,
}
use odin_memory_allocator.TreeBin.Rightmost.{Found, rightmost-Found, first_child, second_child}
use odin_memory_allocator.TreeBin.Transplant.{Transplanted, transplants}

-- The memory once the replacement `q` hangs where `p` hung.
abbrev pub moved : (place up p q : ℕ) → Memory → Memory
moved place up p q m =
    if q != 0
    then adopt 1 p q (adopt 0 p q (set_parent q up (store place q m)))
    else store place q m

-- Where a replacement was taken out of the tree below `p`, and `l` and `r` are left there.
moves :
    (m m1 : Memory) (place up p q : ℕ) (left right l r : Tree)
    → Hangs m place up (node p left right)
    → Replaced m m1 place up (node p left right) (node p l r)
    → Shrinks (node p left right) (node p l r)
    → Separate (node p l r)
    → q ≢ null
    → ((P : ℕ → Type 0) → AllNodes P (node p left right) → P q)
    → ClearOf q (node p l r)
    → m1 (q + 16) ≡ null
    → m1 (q + 20) ≡ null
    → Replaced m
        (adopt 1 p q (adopt 0 p q (set_parent q up (store place q m1))))
        place
        up
        (node p left right)
        (node q l r)
moves m m1 place up p q left right l r h taken fewer separate mapped among clear no_left no_right =
    record {
      at_place = t.at_place;
      linked = t.linked;
      kept = λ b spare ne.
          (let spare' = fewer (λ x. (b + 4 ≤ x + 16) ⊎ (x + 28 ≤ b)) spare in
            t.kept b (among (λ x. (b + 4 ≤ x + 16) ⊎ (x + 28 ≤ b)) spare) spare'.1 spare'.2 ne
            ∙ taken.kept b spare ne);
    }
  where
    hangs : Hangs m1 place up (node p l r)
    hangs = record {
      at_place = taken.at_place;
      linked = taken.linked;
      separate = separate;
      spared = fewer (λ x. (place + 4 ≤ x + 16) ⊎ (x + 28 ≤ place)) h.spared;
    }

    t :
        Transplanted m1
          (adopt 1 p q (adopt 0 p q (set_parent q up (store place q m1))))
          place
          up
          q
          l
          r
    t =
        transplants m1 place up p q l r hangs mapped clear
          (among (λ x. (place + 4 ≤ x + 16) ⊎ (x + 28 ≤ place)) h.spared) no_left no_right

-- What becomes of the tree below the chunk.
pub record Detached (m : Memory) (fuel place up p : ℕ) (left right : Tree) : Type 0 where
  pub taken : Memory
  pub detaches : detach fuel p m ≡ some (root (removed left right), taken)
  pub result :
      Replaced m
        (moved place up p (root (removed left right)) taken)
        place
        up
        (node p left right)
        (removed left right)
  pub before : (b : ℕ) → Spares b (node p left right) → taken b ≡ m b

present : (b : ℕ) → b ≢ null → (b != 0) ≡ true
present b ne = ground (arith, ne)

test_self : (b : ℕ) → (b != b) ≡ false
test_self b = ground arith

stays_zero : (a b : ℕ) (m : Memory) → m b ≡ null → store a 0 m b ≡ null
unfolding store
stays_zero a b m e = ground (arith, e)

detach_right :
    (fuel p b : ℕ) (m : Memory)
    → bk m p ≡ p
    → m (p + 20) ≡ b
    → b ≢ null
    → detach fuel p m ≡ (rightmost fuel (p + 20) b m >>= λ (place, q). some (q, store place 0 m))
unfolding detach
detach_right fuel p b m alone holds ne =
    rw (second_child p, alone, test_self p, holds, present b ne) refl

detach_left :
    (fuel p a : ℕ) (m : Memory)
    → bk m p ≡ p
    → m (p + 20) ≡ null
    → m (p + 16) ≡ a
    → a ≢ null
    → detach fuel p m ≡ (rightmost fuel (p + 16) a m >>= λ (place, q). some (q, store place 0 m))
unfolding detach
detach_left fuel p a m alone none_right holds ne =
    rw (second_child p, first_child p, alone, test_self p, none_right, holds, present a ne) refl

detach_none :
    (fuel p : ℕ) (m : Memory)
    → bk m p ≡ p
    → m (p + 20) ≡ null
    → m (p + 16) ≡ null
    → detach fuel p m ≡ some (0, m)
unfolding detach
detach_none fuel p m alone none_right none_left =
    rw (second_child p, first_child p, alone, test_self p, none_right, none_left) refl

pub detach-Detached :
    (m : Memory) (fuel place up p : ℕ) (left right : Tree)
    → Hangs m place up (node p left right)
    → bk m p ≡ p
    → depth left ≤ fuel
    → depth right ≤ fuel
    → Detached m fuel place up p left right
detach-Detached m fuel place up p left (node x a b) h alone deep deep' =
    let f : Found m fuel (p + 20) p (node x a b) =
      rightmost-Found (node x a b) fuel (p + 20) p m tt deep'
        (Hangs-right m place up p left (node x a b) h) in
    record {
      taken = store f.holder 0 m;
      detaches = detach_right fuel p x m alone h.linked.2 h.linked.5.0 ∙ rw f.walks refl;
      result = rw (present (last_of (node x a b)) f.mapped) (
          moves m (store f.holder 0 m) place up p (last_of (node x a b)) left (node x a b) left
            (rest_of (node x a b)) h
            (Replaced-right m place up p left (node x a b) h (store f.holder 0 m)
              (rest_of (node x a b)) f.taken)
            (λ P n. (n.0, n.1, AllNodes-rest P (node x a b) n.2))
            (
              h.separate.0,
              AllNodes-rest (Clear p) (node x a b) h.separate.1,
              Apart-rest left (node x a b) h.separate.2,
              AllNodes-rest (λ q. ClearOf q left) (node x a b) h.separate.3,
              h.separate.4,
              Separate-rest (node x a b) h.separate.5,
            )
            f.mapped (λ P n. AllNodes-last P (node x a b) tt n.2)
            (
              Clear-sym p (last_of (node x a b))
                  (AllNodes-last (Clear p) (node x a b) tt h.separate.1),
              AllNodes-last (λ q. ClearOf q left) (node x a b) tt h.separate.3,
              last-ClearOf (node x a b) h.separate.5,
            )
            (stays_zero f.holder (last_of (node x a b) + 16) m f.no_left)
            (stays_zero f.holder (last_of (node x a b) + 20) m f.no_right));
      before = λ w spare. f.taken.kept w spare.2 (omega (arith, spare.0));
    }
detach-Detached m fuel place up p (node x a b) leaf h alone deep deep' =
    let f : Found m fuel (p + 16) p (node x a b) =
      rightmost-Found (node x a b) fuel (p + 16) p m tt deep
        (Hangs-left m place up p (node x a b) leaf h) in
    record {
      taken = store f.holder 0 m;
      detaches = detach_left fuel p x m alone h.linked.2 h.linked.1 h.linked.4.0 ∙ rw f.walks refl;
      result = rw (present (last_of (node x a b)) f.mapped) (
          moves m (store f.holder 0 m) place up p (last_of (node x a b)) (node x a b) leaf
            (rest_of (node x a b)) leaf h
            (Replaced-left m place up p (node x a b) leaf h (store f.holder 0 m)
              (rest_of (node x a b)) f.taken)
            (λ P n. (n.0, AllNodes-rest P (node x a b) n.1, tt))
            (
              AllNodes-rest (Clear p) (node x a b) h.separate.0,
              tt,
              Apart-leaf (rest_of (node x a b)),
              tt,
              Separate-rest (node x a b) h.separate.4,
              tt,
            )
            f.mapped (λ P n. AllNodes-last P (node x a b) tt n.1)
            (
              Clear-sym p (last_of (node x a b))
                  (AllNodes-last (Clear p) (node x a b) tt h.separate.0),
              last-ClearOf (node x a b) h.separate.4,
              tt,
            )
            (stays_zero f.holder (last_of (node x a b) + 16) m f.no_left)
            (stays_zero f.holder (last_of (node x a b) + 20) m f.no_right));
      before = λ w spare. f.taken.kept w spare.1 (omega (arith, spare.0));
    }
detach-Detached m fuel place up p leaf leaf h alone deep deep' = record {
  taken = m;
  detaches = detach_none fuel p m alone h.linked.2 h.linked.1;
  result = record {
    at_place = store_self place 0 m;
    linked = tt;
    kept = λ w spare ne. store_ne place 0 w m ne;
  };
  before = λ w spare. refl;
}

-- ===== src/TreeBin/Descent.antt =====
-- The walk of `insertLargeChunk` down a tree: it ends, and hangs the chunk where the bits of its size
-- lead.
use odin_memory_allocator.Base.{
  ℕ, zero, suc, ◌+◌, ◌≡◌, ◌≢◌, ◌≤◌, inl, inr, ◌∙◌, arith, Bool-cases, some, ◌==◌, ◌!=◌, ==_iff,
  if◌then◌else◌, shl32,
}
use odin_memory_allocator.Memory.{Memory, null, store, store_self}
use odin_memory_allocator.Chunk.{chunk_size, set_fd}
use odin_memory_allocator.TreeBin.{set_parent, leading_bit, descend}
use odin_memory_allocator.TreeBin.Put.{depth-left, depth-right, root-put, bit_of}
use odin_memory_allocator.TreeBin.Shape.{
  Tree, leaf, node, depth, AllNodes, Linked, ClearOf, Separate, Linked-Agree, Apart-Agree,
  Apart-single,
}
use odin_memory_allocator.TreeBin.Hung.{
  hung, descend_step, IsNew, Placed, hung-index, hung-Kept, hung-node, passes_left, passes_right,
}

deeper : {A : Type 0} {x : A} (y : A) (q : ℕ) → q ≢ null → (if q != 0 then x else y) ≡ x
deeper y q ne = ground (arith, ne)

-- The walk in a subtree that is not empty, from its chunk on.
abbrev pub Descends : Memory → (fuel up ptr size size_bits : ℕ) → Tree → Type 0
Descends m fuel up ptr size size_bits leaf = Unit
Descends m fuel up ptr size size_bits (node p left right) =
    (m' : Memory) × (descend fuel ptr size p size_bits m ≡ some m')
    × Placed m m' up ptr size_bits (node p left right)

module _ (m : Memory) (ptr size : ℕ) (new : IsNew m ptr) where
  hung-left :
      (up p : ℕ) (right : Tree)
      → Linked m up (node p leaf right)
      → ClearOf p right
      → ClearOf ptr (node p leaf right)
      → Linked (hung p (p + 16) ptr m) up (node p (node ptr leaf leaf) right)
  unfolding store
  hung-left up p right linked apart clear = (
    linked.0,
    ground (arith, clear.0),
    ground (arith, clear.0, linked.2),
    ground (arith, clear.0, linked.3),
    hung-node m ptr new p (p + 16) clear.0 (omega arith) (omega arith),
    Linked-Agree m (hung p (p + 16) ptr m) p right
        (Apart-Agree m (hung p (p + 16) ptr m) (node p leaf leaf) right ptr
          (hung-Kept m p (p + 16) ptr (omega arith) (omega arith)) (Apart-single p right apart)
          clear.2)
        linked.5,
  )

  hung-right :
      (up p : ℕ) (left : Tree)
      → Linked m up (node p left leaf)
      → ClearOf p left
      → ClearOf ptr (node p left leaf)
      → Linked (hung p (p + 20) ptr m) up (node p left (node ptr leaf leaf))
  unfolding store
  hung-right up p left linked apart clear = (
    linked.0,
    ground (arith, clear.0, linked.1),
    ground (arith, clear.0),
    ground (arith, clear.0, linked.3),
    Linked-Agree m (hung p (p + 20) ptr m) p left
        (Apart-Agree m (hung p (p + 20) ptr m) (node p leaf leaf) left ptr
          (hung-Kept m p (p + 20) ptr (omega arith) (omega arith)) (Apart-single p left apart)
          clear.1)
        linked.4,
    hung-node m ptr new p (p + 20) clear.0 (omega arith) (omega arith),
  )

  -- One turn at `p`, for either bit and with or without a chunk below.
  turn-left :
      (fuel up size_bits p : ℕ) (left right : Tree)
      → leading_bit size_bits ≡ 0
      → chunk_size m p ≢ size
      → Linked m up (node p left right)
      → Separate (node p left right)
      → ClearOf ptr (node p left right)
      → Descends m fuel p ptr size (shl32 size_bits 1) left
      → Descends m (suc fuel) up ptr size size_bits (node p left right)
  turn-left fuel up size_bits p leaf right bit ne linked separate clear below = (
    hung p (p + 16) ptr m,
    descend_step fuel ptr size p size_bits (p + 16) null m ne (omega (arith, bit)) linked.1,
    record {
      linked = rw bit (hung-left up p right linked separate.1 clear);
      kept = λ b spare out.
          hung-Kept m p (p + 16) ptr (omega arith) (omega arith) b (spare.0, tt, tt) out;
      alone = store_self (ptr + 12) ptr (set_fd ptr ptr (set_parent ptr p (store (p + 16) ptr m)));
      same_index = hung-index m p (p + 16) ptr (omega (arith, clear.0));
    },
  )
  turn-left fuel up size_bits p (node q l r) right bit ne linked separate clear below =
      let (m', walks, placed) = below in
      let (linked', kept) =
        passes_left m m' up ptr p (node q l r) right linked separate clear (shl32 size_bits 1)
          (root-put ptr (shl32 size_bits 1) q l r) placed in
      (
        m',
        descend_step fuel ptr size p size_bits (p + 16) q m ne (omega (arith, bit)) linked.1
            ∙ deeper _ q linked.4.0
            ∙ walks,
        record {
          linked = rw bit linked';
          kept = kept;
          alone = placed.alone;
          same_index = placed.same_index;
        },
      )

  turn-right :
      (fuel up size_bits p : ℕ) (left right : Tree)
      → leading_bit size_bits ≡ 1
      → chunk_size m p ≢ size
      → Linked m up (node p left right)
      → Separate (node p left right)
      → ClearOf ptr (node p left right)
      → Descends m fuel p ptr size (shl32 size_bits 1) right
      → Descends m (suc fuel) up ptr size size_bits (node p left right)
  turn-right fuel up size_bits p left leaf bit ne linked separate clear below = (
    hung p (p + 20) ptr m,
    descend_step fuel ptr size p size_bits (p + 20) null m ne (omega (arith, bit)) linked.2,
    record {
      linked = rw bit (hung-right up p left linked separate.0 clear);
      kept = λ b spare out.
          hung-Kept m p (p + 20) ptr (omega arith) (omega arith) b (spare.0, tt, tt) out;
      alone = store_self (ptr + 12) ptr (set_fd ptr ptr (set_parent ptr p (store (p + 20) ptr m)));
      same_index = hung-index m p (p + 20) ptr (omega (arith, clear.0));
    },
  )
  turn-right fuel up size_bits p left (node q l r) bit ne linked separate clear below =
      let (m', walks, placed) = below in
      let (linked', kept) =
        passes_right m m' up ptr p left (node q l r) linked separate clear (shl32 size_bits 1)
          (root-put ptr (shl32 size_bits 1) q l r) placed in
      (
        m',
        descend_step fuel ptr size p size_bits (p + 20) q m ne (omega (arith, bit)) linked.2
            ∙ deeper _ q linked.5.0
            ∙ walks,
        record {
          linked = rw bit linked';
          kept = kept;
          alone = placed.alone;
          same_index = placed.same_index;
        },
      )

  -- Fuel for the depth of the tree is enough.
  pub descend_places :
      (t : Tree) (fuel up size_bits : ℕ)
      → depth t ≤ fuel
      → AllNodes (λ q. chunk_size m q ≢ size) t
      → Linked m up t
      → Separate t
      → ClearOf ptr t
      → Descends m fuel up ptr size size_bits t
  descend_places leaf fuel up size_bits enough others linked separate clear = tt
  descend_places (node p left right) zero up size_bits enough others linked separate clear =
      absurd (ground (arith, enough))
  descend_places (node p left right) (suc fuel) up size_bits enough others linked separate clear =
      elim (Bool-cases (leading_bit size_bits == 0)) [
        | inl e ↦
            turn-left fuel up size_bits p left right ((==_iff _ _).0 e) others.0 linked separate
              clear
              (descend_places left fuel p (shl32 size_bits 1)
                (omega (arith, depth-left p left right, enough)) others.1 linked.4 separate.4
                clear.1)
        | inr e ↦
            turn-right fuel up size_bits p left right (bit_of size_bits e) others.0 linked separate
              clear
              (descend_places right fuel p (shl32 size_bits 1)
                (omega (arith, depth-right p left right, enough)) others.2 linked.5 separate.5
                clear.2)
      ]

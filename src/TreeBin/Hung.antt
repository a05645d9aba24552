-- ===== src/TreeBin/Hung.antt =====
-- The last turn of the walk of `insertLargeChunk`, and the turns before it.
use odin_memory_allocator.Base.{
  ℕ, suc, ◌+◌, ◌≡◌, ◌≢◌, ◌≤◌, ◌⊎◌, refl, sym, ◌∙◌, arith, true, some, ◌!=◌, if◌then◌else◌, shl32,
}
use odin_memory_allocator.Memory.{Memory, null, store}
use odin_memory_allocator.Chunk.{chunk_size, set_fd, set_bk}
use odin_memory_allocator.TreeBin.{child_at, set_parent, leading_bit, descend}
use odin_memory_allocator.TreeBin.Put.{put}
use odin_memory_allocator.TreeBin.Shape.{
  Tree, leaf, node, root, Linked, Clear, ClearOf, Separate, Spares, ClearOf-Spares, Linked-Agree,
  Apart-Agree,
}

-- The writes of the last turn: below `p`, in the word at `place`.
abbrev pub hung : (p place ptr : ℕ) → Memory → Memory
hung p place ptr m = set_bk ptr ptr (set_fd ptr ptr (set_parent ptr p (store place ptr m)))

pub descend_step :
    (fuel ptr size p size_bits place c : ℕ) (m : Memory)
    → chunk_size m p ≢ size
    → child_at p (leading_bit size_bits) ≡ place
    → m place ≡ c
    → descend (suc fuel) ptr size p size_bits m ≡ (
        if c != 0 then descend fuel ptr size c (shl32 size_bits 1) m else some (hung p place ptr m))
unfolding descend
descend_step fuel ptr size p size_bits place c m ne at holds = rw (other, at, holds) refl
  where
    other : (chunk_size m p != size) ≡ true
    other = ground (arith, ne)

-- A chunk with empty child links, clear of the tree.
pub record IsNew (m : Memory) (ptr : ℕ) : Type 0 where
  pub mapped : ptr ≢ null
  pub no_left : m (ptr + 16) ≡ null
  pub no_right : m (ptr + 20) ≡ null

-- What is not a tree link of `t`, nor in the chunk, keeps its value.
abbrev pub Kept : (m m' : Memory) → Tree → (ptr : ℕ) → Type 0
Kept m m' t ptr = (b : ℕ) → Spares b t → (b + 4 ≤ ptr + 8) ⊎ (ptr + 32 ≤ b) → m' b ≡ m b

pub record Placed (m m' : Memory) (up ptr size_bits : ℕ) (t : Tree) : Type 0 where
  pub linked : Linked m' up (put ptr size_bits t)
  pub kept : Kept m m' t ptr
  pub alone : m' (ptr + 12) ≡ ptr
  pub same_index : m' (ptr + 28) ≡ m (ptr + 28)

pub hung-index :
    (m : Memory) (p place ptr : ℕ) → ptr + 28 ≢ place → hung p place ptr m (ptr + 28) ≡ m (ptr + 28)
unfolding store
hung-index m p place ptr ne = ground (arith, ne)

pub hung-Kept :
    (m : Memory) (p place ptr : ℕ)
    → p + 16 ≤ place
    → place ≤ p + 24
    → Kept m (hung p place ptr m) (node p leaf leaf) ptr
unfolding store
hung-Kept m p place ptr lo hi b spare out = ground (arith, spare.0)

module _ (m : Memory) (ptr : ℕ) (new : IsNew m ptr) where
  -- The chunk as it hangs below `p`.
  pub hung-node :
      (p place : ℕ)
      → Clear ptr p
      → (p + 16 ≤ place)
      → (place ≤ p + 20)
      → Linked (hung p place ptr m) p (node ptr leaf leaf)
  unfolding store
  hung-node p place c lo hi = (
    new.mapped,
    ground (arith, new.no_left, c),
    ground (arith, new.no_right, c),
    ground arith,
    tt,
    tt,
  )

module _ (m m' : Memory) (up ptr p : ℕ) (left right : Tree)
    (linked : Linked m up (node p left right)) (separate : Separate (node p left right))
    (clear : ClearOf ptr (node p left right)) where
  -- A word of `p` other than the one that the walk takes.
  own-Kept :
      (t : Tree) (d v : ℕ) → Kept m m' t ptr → ClearOf p t → d ≤ 24 → m (p + d) ≡ v → m' (p + d) ≡ v
  own-Kept t d v kept apart hi holds =
      kept (p + d) (ClearOf-Spares p d t (omega arith) apart) (omega (arith, clear.0)) ∙ holds

  pub passes_left :
      (size_bits : ℕ)
      → root (put ptr size_bits left) ≡ root left
      → Placed m m' p ptr size_bits left
      → Linked m' up (node p (put ptr size_bits left) right) × Kept m m' (node p left right) ptr
  passes_left size_bits same placed = (
    (
      linked.0,
      own-Kept left 16 (root left) placed.kept separate.0 (omega arith) linked.1 ∙ sym same,
      own-Kept left 20 (root right) placed.kept separate.0 (omega arith) linked.2,
      own-Kept left 24 up placed.kept separate.0 (omega arith) linked.3,
      placed.linked,
      Linked-Agree m m' p right (Apart-Agree m m' left right ptr placed.kept separate.3 clear.2)
          linked.5,
    ),
    λ b spare out. placed.kept b spare.1 out,
  )

  pub passes_right :
      (size_bits : ℕ)
      → root (put ptr size_bits right) ≡ root right
      → Placed m m' p ptr size_bits right
      → Linked m' up (node p left (put ptr size_bits right)) × Kept m m' (node p left right) ptr
  passes_right size_bits same placed = (
    (
      linked.0,
      own-Kept right 16 (root left) placed.kept separate.1 (omega arith) linked.1,
      own-Kept right 20 (root right) placed.kept separate.1 (omega arith) linked.2 ∙ sym same,
      own-Kept right 24 up placed.kept separate.1 (omega arith) linked.3,
      Linked-Agree m m' p left (Apart-Agree m m' right left ptr placed.kept separate.2 clear.1)
          linked.4,
      placed.linked,
    ),
    λ b spare out. placed.kept b spare.2 out,
  )

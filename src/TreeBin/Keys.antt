-- ===== src/TreeBin/Keys.antt =====
-- Trees in which every chunk stands on the path of its size, and no two chunks have one size.
use odin_memory_allocator.Base.{
  ℕ, ◌≡◌, ◌≢◌, sym, ap, arith, Bool-cases, false, inl, inr, ◌==◌, ==_iff, if◌then◌else◌, shl32,
}
use odin_memory_allocator.TreeBin.{leading_bit}
use odin_memory_allocator.TreeBin.Shape.{Tree, leaf, node, AllNodes, AllNodes-zip, AllNodes-map}
use odin_memory_allocator.TreeBin.Put.{put, AllNodes-put, lookup, bit_of}
use odin_memory_allocator.TreeBin.Remove.{
  Context, whole, left_of, right_of, plug, last_of, rest_of, removed, AllNodes-last, AllNodes-rest,
  Shrinks,
}

module _ (size_of : ℕ → ℕ) where
  -- `bits` gives the bits of a size that are left at this part of the tree.
  abbrev pub Keyed : (bits : ℕ → ℕ) → Tree → Type 0
  Keyed bits leaf = Unit
  Keyed bits (node p left right) =
      AllNodes (λ q. (leading_bit (bits (size_of q)) ≡ 0) × (size_of p ≢ size_of q)) left
      × AllNodes (λ q. (leading_bit (bits (size_of q)) ≡ 1) × (size_of p ≢ size_of q)) right
      × Keyed (λ k. shl32 (bits k) 1) left
      × Keyed (λ k. shl32 (bits k) 1) right

  -- The search for the size of a chunk gives the chunk.
  pub lookup-Keyed :
      (bits : ℕ → ℕ) (t : Tree)
      → Keyed bits t
      → AllNodes (λ q. lookup size_of (size_of q) (bits (size_of q)) t ≡ q) t
  lookup-Keyed bits leaf k = tt
  lookup-Keyed bits (node p left right) k = (
    here _ (size_of p),
    AllNodes-zip left
        (λ q (c : (leading_bit (bits (size_of q)) ≡ 0) × (size_of p ≢ size_of q)) e.
          rw (other (size_of p) (size_of q) c.1, c.0) e)
        k.0 (lookup-Keyed (λ s. shl32 (bits s) 1) left k.2),
    AllNodes-zip right
        (λ q (c : (leading_bit (bits (size_of q)) ≡ 1) × (size_of p ≢ size_of q)) e.
          rw (other (size_of p) (size_of q) c.1, c.0) e)
        k.1 (lookup-Keyed (λ s. shl32 (bits s) 1) right k.3),
  )
    where
      here : (x a : ℕ) → (if a == a then p else x) ≡ p
      here x a = ground arith

      other : (a b : ℕ) → a ≢ b → (a == b) ≡ false
      other a b ne = ground (arith, ne)

  pub Keyed-put :
      (bits : ℕ → ℕ) (ptr : ℕ) (t : Tree)
      → AllNodes (λ q. size_of q ≢ size_of ptr) t
      → Keyed bits t
      → Keyed bits (put ptr (bits (size_of ptr)) t)
  Keyed-put bits ptr leaf others k = (tt, tt, tt, tt)
  Keyed-put bits ptr (node p left right) others k =
      elim (Bool-cases (leading_bit (bits (size_of ptr)) == 0)) [
        | inl e ↦ rw e (
          AllNodes-put (λ q. (leading_bit (bits (size_of q)) ≡ 0) × (size_of p ≢ size_of q)) ptr
              (shl32 (bits (size_of ptr)) 1) left ((==_iff _ _).0 e, others.0) k.0,
          k.1,
          Keyed-put (λ s. shl32 (bits s) 1) ptr left others.1 k.2,
          k.3,
        )
        | inr e ↦ rw e (
          k.0,
          AllNodes-put (λ q. (leading_bit (bits (size_of q)) ≡ 1) × (size_of p ≢ size_of q)) ptr
              (shl32 (bits (size_of ptr)) 1) right (bit_of (bits (size_of ptr)) e, others.0) k.1,
          k.2,
          Keyed-put (λ s. shl32 (bits s) 1) ptr right others.2 k.3,
        )
      ]

  pub Keyed-plug :
      (c : Context) (u u' : Tree)
      → Shrinks u u'
      → ((bits : ℕ → ℕ) → Keyed bits u → Keyed bits u')
      → (bits : ℕ → ℕ) → Keyed bits (plug c u)
      → Keyed bits (plug c u')
  Keyed-plug whole u u' f g bits k = g bits k
  Keyed-plug (left_of x v c) u u' f g bits k =
      Keyed-plug c (node x u v) (node x u' v) (λ P a. (a.0, f P a.1, a.2))
        (λ b n. (
          f (λ q. (leading_bit (b (size_of q)) ≡ 0) × (size_of x ≢ size_of q)) n.0,
          n.1,
          g (λ s. shl32 (b s) 1) n.2,
          n.3,
        ))
        bits k
  Keyed-plug (right_of x v c) u u' f g bits k =
      Keyed-plug c (node x v u) (node x v u') (λ P a. (a.0, a.1, f P a.2))
        (λ b n. (
          n.0,
          f (λ q. (leading_bit (b (size_of q)) ≡ 1) × (size_of x ≢ size_of q)) n.1,
          n.2,
          g (λ s. shl32 (b s) 1) n.3,
        ))
        bits k

  -- Chunks on different sides of a chunk differ in size.
  sides_differ :
      (bits : ℕ → ℕ) (a b : ℕ)
      → leading_bit (bits (size_of a)) ≡ 1
      → leading_bit (bits (size_of b)) ≡ 0
      → size_of a ≢ size_of b
  sides_differ bits a b one none e = one_ne_zero _ _ one none (ap (λ s. leading_bit (bits s)) e)
    where
      one_ne_zero : (x y : ℕ) → x ≡ 1 → y ≡ 0 → x ≢ y
      one_ne_zero x y u v = omega (arith, u, v)

  last_differs :
      (bits : ℕ → ℕ) (t : Tree)
      → Keyed bits t
      → AllNodes (λ z. size_of (last_of t) ≢ size_of z) (rest_of t)
  last_differs bits leaf k = tt
  last_differs bits (node p left (node q l r)) k =
      let last =
        AllNodes-last (λ z. (leading_bit (bits (size_of z)) ≡ 1) × (size_of p ≢ size_of z))
          (node q l r) tt k.1 in
      (
        λ e. last.1 (sym e),
        AllNodes-map left
            (λ z (c : (leading_bit (bits (size_of z)) ≡ 0) × (size_of p ≢ size_of z)).
              sides_differ bits (last_of (node q l r)) z last.0 c.0)
            k.0,
        last_differs (λ s. shl32 (bits s) 1) (node q l r) k.3,
      )
  last_differs bits (node p (node q l r) leaf) k =
      let last =
        AllNodes-last (λ z. (leading_bit (bits (size_of z)) ≡ 0) × (size_of p ≢ size_of z))
          (node q l r) tt k.0 in
      (λ e. last.1 (sym e), last_differs (λ s. shl32 (bits s) 1) (node q l r) k.2, tt)
  last_differs bits (node p leaf leaf) k = tt

  Keyed-rest : (bits : ℕ → ℕ) (t : Tree) → Keyed bits t → Keyed bits (rest_of t)
  Keyed-rest bits leaf k = tt
  Keyed-rest bits (node p left (node q l r)) k = (
    k.0,
    AllNodes-rest (λ z. (leading_bit (bits (size_of z)) ≡ 1) × (size_of p ≢ size_of z)) (node q l r)
        k.1,
    k.2,
    Keyed-rest (λ s. shl32 (bits s) 1) (node q l r) k.3,
  )
  Keyed-rest bits (node p (node q l r) leaf) k = (
    AllNodes-rest (λ z. (leading_bit (bits (size_of z)) ≡ 0) × (size_of p ≢ size_of z)) (node q l r)
        k.0,
    tt,
    Keyed-rest (λ s. shl32 (bits s) 1) (node q l r) k.2,
    tt,
  )
  Keyed-rest bits (node p leaf leaf) k = tt

  pub Keyed-removed :
      (bits : ℕ → ℕ) (p : ℕ) (left right : Tree)
      → Keyed bits (node p left right)
      → Keyed bits (removed left right)
  Keyed-removed bits p left (node q l r) k =
      let last =
        AllNodes-last (λ z. (leading_bit (bits (size_of z)) ≡ 1) × (size_of p ≢ size_of z))
          (node q l r) tt k.1 in
      (
        AllNodes-map left
            (λ z (c : (leading_bit (bits (size_of z)) ≡ 0) × (size_of p ≢ size_of z)).
              (c.0, sides_differ bits (last_of (node q l r)) z last.0 c.0))
            k.0,
        AllNodes-zip (rest_of (node q l r))
            (λ z (c : (leading_bit (bits (size_of z)) ≡ 1) × (size_of p ≢ size_of z)) d. (c.0, d))
            (AllNodes-rest (λ z. (leading_bit (bits (size_of z)) ≡ 1) × (size_of p ≢ size_of z))
              (node q l r) k.1)
            (last_differs (λ s. shl32 (bits s) 1) (node q l r) k.3),
        k.2,
        Keyed-rest (λ s. shl32 (bits s) 1) (node q l r) k.3,
      )
  Keyed-removed bits p (node q l r) leaf k = (
    AllNodes-zip (rest_of (node q l r))
        (λ z (c : (leading_bit (bits (size_of z)) ≡ 0) × (size_of p ≢ size_of z)) d. (c.0, d))
        (AllNodes-rest (λ z. (leading_bit (bits (size_of z)) ≡ 0) × (size_of p ≢ size_of z))
          (node q l r) k.0)
        (last_differs (λ s. shl32 (bits s) 1) (node q l r) k.2),
    tt,
    Keyed-rest (λ s. shl32 (bits s) 1) (node q l r) k.2,
    tt,
  )
  Keyed-removed bits p leaf leaf k = tt

-- The property depends on the sizes of the chunks of the tree alone.
pub Keyed-sizes :
    (size_of size_of' bits : ℕ → ℕ) (t : Tree)
    → AllNodes (λ q. size_of' q ≡ size_of q) t
    → Keyed size_of bits t
    → Keyed size_of' bits t
Keyed-sizes size_of size_of' bits leaf same k = tt
Keyed-sizes size_of size_of' bits (node p left right) same k = (
  AllNodes-zip left
      (λ q (e : size_of' q ≡ size_of q)
          (c : (leading_bit (bits (size_of q)) ≡ 0) × (size_of p ≢ size_of q)).
        rw (e, same.0) c)
      same.1 k.0,
  AllNodes-zip right
      (λ q (e : size_of' q ≡ size_of q)
          (c : (leading_bit (bits (size_of q)) ≡ 1) × (size_of p ≢ size_of q)).
        rw (e, same.0) c)
      same.2 k.1,
  Keyed-sizes size_of size_of' (λ s. shl32 (bits s) 1) left same.1 k.2,
  Keyed-sizes size_of size_of' (λ s. shl32 (bits s) 1) right same.2 k.3,
)

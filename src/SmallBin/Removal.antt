-- ===== src/SmallBin/Removal.antt =====
-- Taking a chunk out of a ring in memory: its own bin, and any other.
use odin_memory_allocator.Base.{
  ℕ, ◌+◌, ◌*◌, ◌%◌, ◌≡◌, ◌≢◌, ◌≤◌, refl, sym, arith, List, [], ◌∷◌, ◌++◌, All, ◌==◌,
}
use odin_memory_allocator.Memory.{Memory}
use odin_memory_allocator.Chunk.{chunk_size}
use odin_memory_allocator.SmallBin.Ring.{
  Links, Outside, Distinct, linked_out, Links-unlink, Links-drop, Outside-append, Distinct-drop,
  back_aligned,
}
use odin_memory_allocator.SmallBin.Frame.{
  Apart, Outside-NoneAt, Distinct-NoneAt, NoneAt-fd, NoneAt, Outside-aligned, sizes-kept,
  All-append, All-join, fd-All, bk-All, All-map, linked_out-head, Links-linked_out_other,
}
use odin_memory_allocator.SmallBin.Inv.{is_filled, IsBin}

-- Dropping `p` from a list of distinct chunks.
pub Outside-remove :
    (q : ℕ) (xs : List ℕ) (p : ℕ) (ys : List ℕ) → Outside q (xs ++ p ∷ ys) → Outside q (xs ++ ys)
Outside-remove q [] p ys o = o.2
Outside-remove q (x ∷ xs) p ys o = (o.0, o.1, Outside-remove q xs p ys o.2)

Distinct-remove :
    (xs : List ℕ) (p : ℕ) (ys : List ℕ) → Distinct (xs ++ p ∷ ys) → Distinct (xs ++ ys)
Distinct-remove [] p ys d = d.1
Distinct-remove (x ∷ xs) p ys d = (Outside-remove x xs p ys d.0, Distinct-remove xs p ys d.1)

pub All-remove {κ} :
    (P : ℕ → Type κ) (xs : List ℕ) (p : ℕ) (ys : List ℕ) → All P (xs ++ p ∷ ys) → All P (xs ++ ys)
All-remove P xs p ys a = let (l, r) = All-append P xs (p ∷ ys) a in All-join P xs ys l r.1

-- Elements before `p` are clear of it and of what follows.
before :
    (xs : List ℕ) (p : ℕ) (ys : List ℕ)
    → Distinct (xs ++ p ∷ ys)
    → All (λ x. x % 8 ≡ 0) xs
    → All (λ x. (x % 8 ≡ 0) × Outside x (p ∷ ys)) xs
before [] p ys d a = tt
before (x ∷ xs) p ys d a = ((a.0, (Outside-append x xs (p ∷ ys) d.0).1), before xs p ys d.1 a.1)

before-Outside :
    (xs : List ℕ) (p : ℕ) (ys : List ℕ)
    → All (λ x. (x % 8 ≡ 0) × Outside x (p ∷ ys)) xs
    → Outside p xs
before-Outside [] p ys b = tt
before-Outside (x ∷ xs) p ys b = (omega (arith, b.0.1.0), b.0.0, before-Outside xs p ys b.1)

Outside-ne : (p : ℕ) (xs : List ℕ) → Outside p xs → All (λ x. x ≢ p) xs
Outside-ne p [] o = tt
Outside-ne p (x ∷ xs) o = (omega arith, Outside-ne p xs o.2)

pub is_filled-middle : (xs : List ℕ) (p : ℕ) (ys : List ℕ) → is_filled (xs ++ p ∷ ys) ≡ 1
is_filled-middle [] p ys = refl
is_filled-middle (x ∷ xs) p ys = refl

pub is_filled-le : (xs : List ℕ) → is_filled xs ≤ 1
is_filled-le [] = omega arith
is_filled-le (x ∷ xs) = omega arith

-- The neighbours of `p` are one chunk exactly if the bin holds nothing else.
neighbours :
    (m : Memory) (b p : ℕ) (xs ys : List ℕ)
    → Links m b (xs ++ p ∷ ys) b
    → Outside b (xs ++ p ∷ ys)
    → All (λ x. (x % 8 ≡ 0) × Outside x (p ∷ ys)) xs
    → (m (p + 8) == m (p + 12)) ≡ (is_filled (xs ++ ys) == 0)
neighbours m b p [] [] l o a = ground (arith, l.1, l.2.0)
neighbours m b p [] (y ∷ ys) l o a = ground (arith, l.1, l.2.0, o.2.0)
neighbours m b p (x ∷ xs) [] l o a = ground (
  arith,
  (Links-drop m x xs p [] b l.2).0,
  bk-All (λ q. q ≢ b) m x xs p [] b l.2 (omega (arith, o.0))
      (Outside-ne b xs (Outside-append b xs (p ∷ []) o.2).0),
)
neighbours m b p (x ∷ xs) (y ∷ ys) l o a = ground (
  arith,
  (Links-drop m x xs p (y ∷ ys) b l.2).0,
  bk-All (λ q. q ≢ y) m x xs p (y ∷ ys) b l.2 (omega (arith, a.0.1.2.0))
      (All-map (λ w. (w % 8 ≡ 0) × Outside w (p ∷ y ∷ ys)) (λ q. q ≢ y) xs
        (λ w c. omega (arith, c.1.2.0)) a.1),
)

module _ (m : Memory) (b i mark p : ℕ) (xs ys : List ℕ) (eb : b % 8 ≡ 0)
    (v : IsBin m b i mark (xs ++ p ∷ ys)) where
  abbrev back : ℕ
  back = m (p + 12)

  abbrev forward : ℕ
  forward = m (p + 8)

  aligned : All (λ x. x % 8 ≡ 0) xs × All (λ x. x % 8 ≡ 0) (p ∷ ys)
  aligned = All-append (λ x. x % 8 ≡ 0) xs (p ∷ ys) (Outside-aligned b (xs ++ p ∷ ys) v.outside)

  earlier : All (λ x. (x % 8 ≡ 0) × Outside x (p ∷ ys)) xs
  earlier = before xs p ys v.distinct aligned.0

  behind : Links m p ys b
  behind = Links-drop m b xs p ys b v.links

  p-header : p ≢ b
  p-header = omega (arith, (Outside-append b xs (p ∷ ys) v.outside).1.0)

  pub p-back : p ≢ back
  p-back =
      bk-All (λ q. p ≢ q) m b xs p ys b v.links p-header
        (All-map (λ x. (x % 8 ≡ 0) × Outside x (p ∷ ys)) (λ q. p ≢ q) xs
          (λ x c. omega (arith, c.1.0)) earlier)

  pub p-forward : p ≢ forward
  p-forward =
      fd-All (λ q. p ≢ q) m p ys b behind p-header
        (All-map (λ x. x ≢ p) (λ q. p ≢ q) ys (λ x c e. c (sym e))
          (Outside-ne p ys (Distinct-drop xs p ys v.distinct)))

  -- The neighbours are one and the same exactly if no other chunk is in the bin.
  pub same_neighbours : (forward == back) ≡ (is_filled (xs ++ ys) == 0)
  same_neighbours = neighbours m b p xs ys v.links v.outside earlier

  rest_outside : Outside b (xs ++ ys)
  rest_outside = Outside-remove b xs p ys v.outside

  rest-Distinct : Distinct (xs ++ ys)
  rest-Distinct = Distinct-remove xs p ys v.distinct

  none : NoneAt forward (xs ++ ys)
  none =
      NoneAt-fd m p ys (xs ++ ys) b behind rest_outside
        (All-append (λ f. NoneAt f (xs ++ ys)) xs ys
          (Distinct-NoneAt (xs ++ ys) rest-Distinct (Outside-aligned b (xs ++ ys) rest_outside))).1

  back_in_line : back % 8 ≡ 0
  back_in_line = back_aligned m b xs p ys b v.links eb (before-Outside xs p ys earlier)

  pub leaves :
      (mark' : ℕ)
      → mark' ≡ is_filled (xs ++ ys)
      → IsBin (linked_out back forward m) b i mark' (xs ++ ys)
  leaves mark' e = record {
    links =
        Links-unlink m b xs p ys b eb eb v.outside v.outside v.distinct
          (before-Outside xs p ys earlier) v.links;
    outside = rest_outside;
    distinct = rest-Distinct;
    sizes =
        let (before_sizes, after_sizes) =
          All-append (λ x. chunk_size m x ≡ 8 * i) xs (p ∷ ys) v.sizes in
        sizes-kept m _ _ i (xs ++ ys) (λ x k. linked_out-head back forward x m back_in_line k.1 k.0)
          none (All-join (λ x. chunk_size m x ≡ 8 * i) xs ys before_sizes after_sizes.1);
    marked = e;
  }

  -- Any other ring is left alone.
  pub spared :
      (z j mark' : ℕ) (zs : List ℕ)
      → z % 8 ≡ 0
      → Apart back z zs
      → Apart forward z zs
      → IsBin m z j mark' zs
      → IsBin (linked_out back forward m) z j mark' zs
  spared z j mark' zs ez ab af w = record {
    links = Links-linked_out_other m z zs ez back forward ab af w.links;
    outside = w.outside;
    distinct = w.distinct;
    sizes =
        sizes-kept m _ _ j zs (λ x k. linked_out-head back forward x m ab.0 k.1 k.0)
          (Outside-NoneAt forward zs af.2) w.sizes;
    marked = w.marked;
  }

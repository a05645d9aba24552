-- ===== src/FreeList/Nodes.antt =====
-- A free list is a stack of nodes: taking and giving back refine taking off and putting on.
use odin_memory_allocator.Base.{
  ℕ, ◌<◌, ◌^◌, ◌≡◌, ◌≢◌, ◌+◌, ◌≤◌, ◌⊎◌, refl, arith, List, [], ◌∷◌, All, false, ◌==◌,
}
use odin_memory_allocator.Memory.{null}
use odin_memory_allocator.Bytes.{
  Bytes, load_word, store_word, load_word-store_word, load_word-store_apart,
}
use odin_memory_allocator.FreeList.{
  FreeList, obtain_node, return_node, Pool, pool_allocate, pool_deallocate,
}

-- The chain of words from `a` goes through the nodes `xs` and ends at null.
abbrev pub Chain : Bytes → ℕ → List ℕ → Type 0
Chain m a [] = a ≡ null
Chain m a (x ∷ xs) = (a ≡ x) × (x ≢ null) × Chain m (load_word m x) xs

abbrev pub Nodes : FreeList → List ℕ → Type 0
Nodes f xs = Chain f.mem f.next xs

-- What the operations are on the nodes.
abbrev pub taken : List ℕ → ℕ × List ℕ
taken [] = (null, [])
taken (x ∷ xs) = (x, xs)

-- The words at the two addresses share no byte.
abbrev pub Disjoint : (p x : ℕ) → Type 0
Disjoint p x = (p + 4 ≤ x) ⊎ (x + 4 ≤ p)

Chain-store :
    (p v : ℕ) (m : Bytes) (a : ℕ) (xs : List ℕ)
    → All (λ x. Disjoint p x) xs
    → Chain m a xs
    → Chain (store_word p v m) a xs
Chain-store p v m a [] ne c = c
Chain-store p v m a (x ∷ xs) ne c = (
  c.0,
  c.1,
  rw (load_word-store_apart p v x m ne.0) (Chain-store p v m (load_word m x) xs ne.1 c.2),
)

-- Where the words of a free list run through the nodes `xs` to null, `obtainNode` gives the first
-- node, or null where there is none, and the list then runs through the other nodes.
pub obtain_node-Nodes :
    (f : FreeList) (xs : List ℕ)
    → Nodes f xs
    → ((obtain_node f).0 ≡ (taken xs).0) × Nodes (obtain_node f).1 (taken xs).1
unfolding obtain_node
obtain_node-Nodes f [] c = rw c (refl, refl)
obtain_node-Nodes f (x ∷ xs) c = rw (full, c.0) (refl, c.2)
  where
    full : (f.next == null) ≡ false
    full = ground (arith, c.0, c.1)

-- Where a free list, whose first node is a word, runs through the nodes `xs`, it runs through `p`
-- and then `xs` after `returnNode` of an address `p` that is not null and whose word shares no
-- byte with the words of the nodes.
pub return_node-Nodes :
    (f : FreeList) (p : ℕ) (xs : List ℕ)
    → Nodes f xs
    → p ≢ null
    → f.next < 2 ^ 32
    → All (λ x. Disjoint p x) xs
    → Nodes (return_node p f) (p ∷ xs)
unfolding return_node
return_node-Nodes f p xs c ne word fresh = (
  refl,
  ne,
  rw (load_word-store_word p f.next f.mem word) (Chain-store p f.next f.mem f.next xs fresh c),
)

-- After `deallocate` of a node that is not null and whose word shares no byte with the free ones, `allocate` of the pool gives that
-- node again, and the free nodes and the count are what they were.
pool_allocate-deallocate :
    (p : Pool) (ptr : ℕ) (xs : List ℕ)
    → ptr ≢ null
    → Nodes p.free_list xs
    → p.free_list.next < 2 ^ 32
    → All (λ x. Disjoint ptr x) xs
    → p.count < 2 ^ 32
    → let (node, p1) = pool_allocate p.chunk_size p.alignment p.offset (pool_deallocate ptr p) in
      (node ≡ ptr) × Nodes p1.free_list xs × (p1.count ≡ p.count)
unfolding pool_allocate pool_deallocate obtain_node return_node
pool_allocate-deallocate p ptr xs ne nodes word fresh small =
    rw (given, given, ptr_read)
      (
        refl,
        Chain-store ptr p.free_list.next p.free_list.mem p.free_list.next xs fresh nodes,
        omega (arith, small),
      )
  where
    given : (ptr == null) ≡ false
    given = ground arith

    ptr_read : load_word (store_word ptr p.free_list.next p.free_list.mem) ptr ≡ p.free_list.next
    ptr_read = load_word-store_word ptr p.free_list.next p.free_list.mem word

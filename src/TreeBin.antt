-- ===== src/TreeBin.antt =====
-- MemAlloc.cpp, linking and unlinking in the tree bins. A walk that could go on for ever in a
-- broken tree takes fuel.
pub mod Shape
pub mod Put
pub mod Hung
pub mod Descent
pub mod Insert
pub mod Remove
pub mod Keys
pub mod Replace
pub mod Rightmost
pub mod Transplant
pub mod Detach
pub mod Hang
pub mod Unlink
pub mod RoundTrip
use odin_memory_allocator.Base.{
  ℕ, zero, suc, ◌+◌, ◌-◌, ◌*◌, Option, none, some, ◌==◌, ◌!=◌, if◌then◌else◌, shl32, shr32, bit_and,
}
use odin_memory_allocator.Base.Fuel.{◌>>=◌}
use odin_memory_allocator.Memory.{Memory, store}
use odin_memory_allocator.Chunk.{chunk_size, fd, bk, set_fd, set_bk}
use odin_memory_allocator.Bins.{
  compute_tree_index, leftshift_for_tree_index, is_small, size_t_bit_size,
}
use odin_memory_allocator.Space.{
  Space, with_mem, tree_bin_at, mark_tree_map, clear_tree_map, is_tree_map_marked,
}
use odin_memory_allocator.SmallBin.{insert_small_chunk, unlink_small_chunk}

-- The fields of a tree chunk: `&ptr->child[k]`, and the others by value.
abbrev pub child_at : (ptr k : ℕ) → ℕ
child_at ptr k = ptr + 16 + 4 * k

abbrev pub child : Memory → (ptr k : ℕ) → ℕ
child m ptr k = m (child_at ptr k)

abbrev pub parent : Memory → ℕ → ℕ
parent m ptr = m (ptr + 24)

abbrev pub tree_index : Memory → ℕ → ℕ
tree_index m ptr = m (ptr + 28)

abbrev pub set_child : (ptr k v : ℕ) → Memory → Memory
set_child ptr k v = store (child_at ptr k) v

abbrev pub set_parent : (ptr v : ℕ) → Memory → Memory
set_parent ptr v = store (ptr + 24) v

unfoldable pub leftmost_child : Memory → ℕ → ℕ
leftmost_child m ptr = if child m ptr 0 != 0 then child m ptr 0 else child m ptr 1

-- `(size_bits >> (kSizeTBitSize - 1)) & 1`
abbrev pub leading_bit : ℕ → ℕ
leading_bit size_bits = bit_and (shr32 size_bits (size_t_bit_size - 1)) 1

-- Where a node of the same size is found, the chunk joins its ring.
chain_in : (ptr temp : ℕ) → Memory → Memory
chain_in ptr temp m =
    let front = fd m temp in
    set_parent ptr 0 (set_bk ptr temp (set_fd ptr front (set_fd temp ptr (set_bk front ptr m))))

-- The loop of `insertLargeChunk` at the node `temp`.
pub descend : ℕ → (ptr size temp size_bits : ℕ) → Memory → Option Memory
unfolding chain_in
descend zero ptr size temp size_bits m = none
descend (suc fuel) ptr size temp size_bits m =
    let place = child_at temp (leading_bit size_bits) in
    let deeper = descend fuel ptr size (m place) (shl32 size_bits 1) m in
    if chunk_size m temp != size
    then if m place != 0
      then deeper
      else some (set_bk ptr ptr (set_fd ptr ptr (set_parent ptr temp (store place ptr m))))
    else some (chain_in ptr temp m)

-- `ptr->index = index; ptr->child[0] = ptr->child[1] = 0;`
new_node : (ptr index : ℕ) → Memory → Memory
new_node ptr index m = set_child ptr 0 0 (set_child ptr 1 0 (store (ptr + 28) index m))

unfoldable pub insert_large_chunk : ℕ → (ptr size : ℕ) → Space → Option Space
unfolding descend new_node
insert_large_chunk fuel ptr size s =
    let index = compute_tree_index size in
    let ptr_to_bin = tree_bin_at s index in
    let s1 = with_mem (new_node ptr index) s in
    let first =
      with_mem
        (λ m. set_fd ptr ptr (set_bk ptr ptr (set_parent ptr ptr_to_bin (store ptr_to_bin ptr m))))
        (mark_tree_map index s1) in
    let walk =
      descend fuel ptr size (s1.mem ptr_to_bin) (shl32 size (leftshift_for_tree_index index))
        s1.mem in
    if is_tree_map_marked s1 index then (walk >>= λ m. some (record s1 { mem = m })) else some first

-- The rightmost descendant of `node`, and the place that holds the pointer to it.
pub rightmost : ℕ → (place node : ℕ) → Memory → Option (ℕ × ℕ)
rightmost zero place node m = none
rightmost (suc fuel) place node m =
    let right = rightmost fuel (child_at node 1) (child m node 1) m in
    let left = rightmost fuel (child_at node 0) (child m node 0) m in
    if child m node 1 != 0 then right else if child m node 0 != 0 then left else some (place, node)

-- The node that replaces `ptr`, taken out of where it stood; 0 if there is none.
pub detach : ℕ → (ptr : ℕ) → Memory → Option (ℕ × Memory)
unfolding rightmost
detach fuel ptr m =
    let front = fd m ptr in
    let replacement_node = bk m ptr in
    let chained = set_fd replacement_node front (set_bk front replacement_node m) in
    let from : ℕ → Option (ℕ × Memory) = λ k.
      rightmost fuel (child_at ptr k) (child m ptr k) m >>= λ (place, node).
      some (node, store place 0 m) in
    if bk m ptr != ptr
    then some (replacement_node, chained)
    else if child m ptr 1 != 0
    then from 1
    else if child m ptr 0 != 0
    then from 0
    else some (0, m)

-- `if (ptr->child[k] != 0) { replacement->child[k] = ptr->child[k]; … }`
pub adopt : (k ptr replacement : ℕ) → Memory → Memory
adopt k ptr replacement m =
    if child m ptr k != 0
    then (let m1 = set_child replacement k (child m ptr k) m in
        set_parent (child m1 replacement k) replacement m1)
    else m

-- Put the replacement where `ptr` hangs.
pub hang : (ptr ptr_parent replacement : ℕ) → Space → Space
hang ptr ptr_parent replacement s =
    let root_node = tree_bin_at s (tree_index s.mem ptr) in
    let at_root = with_mem (store root_node replacement) s in
    if ptr == s.mem root_node
    then if replacement == 0 then clear_tree_map (tree_index at_root.mem ptr) at_root else at_root
    else if child s.mem ptr_parent 0 == ptr
    then with_mem (set_child ptr_parent 0 replacement) s
    else with_mem (set_child ptr_parent 1 replacement) s

-- What `unlinkLargeChunk` does once the replacement is known.
relink : (ptr ptr_parent replacement : ℕ) → Space → Space
unfolding hang adopt
relink ptr ptr_parent replacement s =
    let s1 = hang ptr ptr_parent replacement s in
    let s2 =
      with_mem
        (λ m.
          adopt 1 ptr replacement (adopt 0 ptr replacement (set_parent replacement ptr_parent m)))
        s1 in
    if ptr_parent != 0 then if replacement != 0 then s2 else s1 else s

unfoldable pub unlink_large_chunk : ℕ → (ptr : ℕ) → Space → Option Space
unfolding detach relink
unlink_large_chunk fuel ptr s =
    let ptr_parent = parent s.mem ptr in
    detach fuel ptr s.mem >>= λ (replacement, m).
    some (relink ptr ptr_parent replacement (record s { mem = m }))

-- Relays to the small or the large bins.
unfoldable pub insert_chunk : ℕ → (ptr size : ℕ) → Space → Option Space
unfolding insert_large_chunk insert_small_chunk
insert_chunk fuel ptr size s =
    if is_small size
    then some (insert_small_chunk ptr size s)
    else insert_large_chunk fuel ptr size s

unfoldable pub unlink_chunk : ℕ → (ptr size : ℕ) → Space → Option Space
unfolding unlink_large_chunk unlink_small_chunk
unlink_chunk fuel ptr size s =
    if is_small size then some (unlink_small_chunk ptr size s) else unlink_large_chunk fuel ptr s

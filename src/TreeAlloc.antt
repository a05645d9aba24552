-- ===== src/TreeAlloc.antt =====
-- MemAlloc.cpp, allocation from the tree bins.
use odin_memory_allocator.Base.{
  ℕ, zero, suc, ◌&&◌, Option, none, some, ltb, ◌==◌, ◌!=◌, if◌then◌else◌, add32, sub32, neg32,
  shl32, bit_and, bit_or,
}
use odin_memory_allocator.Base.Fuel.{◌>>=◌}
use odin_memory_allocator.Memory.{Memory, null}
use odin_memory_allocator.Chunk.{
  chunk_size, chunk_plus_offset, chunk_to_memory, min_chunk_size, set_size_inuse_pinuse,
  set_size_pinuse_of_inuse_chunk, set_size_pinuse_of_free_chunk,
}
use odin_memory_allocator.Bins.{
  compute_tree_index, leftshift_for_tree_index, index_to_bit, compute_bit_to_index,
}
use odin_memory_allocator.Space.{Space, assert_error, with_mem, tree_bin_at}
use odin_memory_allocator.SmallBin.{replace_dv}
use odin_memory_allocator.TreeBin.{
  child, leading_bit, leftmost_child, unlink_large_chunk, insert_chunk,
}

-- The best node so far: `prev_ptr` and `rem_size` of `treeAllocLarge`.
pub record Best : Type 0 where
  pub node : ℕ
  pub rem_size : ℕ

abbrev better : (curr nb : ℕ) → Memory → Best → Best
better curr nb m best =
    let rem = sub32 (chunk_size m curr) nb in
    if ltb rem best.rem_size then record { node = curr; rem_size = rem } else best

-- The walk of the first loop of `treeAllocLarge`: the node to go on from, and the best so far.
search_bin : ℕ → (nb curr size_bits right_subtree : ℕ) → Memory → Best → Option (ℕ × Best)
search_bin zero nb curr size_bits right_subtree m best = none
search_bin (suc fuel) nb curr size_bits right_subtree m best =
    let best' = better curr nb m best in
    let right_tree = child m curr 1 in
    let curr' = child m curr (leading_bit size_bits) in
    let right_subtree' =
      if right_tree != 0 && right_tree != curr' then right_tree else right_subtree in
    let rest = search_bin fuel nb curr' (shl32 size_bits 1) right_subtree' m best' in
    let exact = ltb (sub32 (chunk_size m curr) nb) best.rem_size && best'.rem_size == 0 in
    if exact then some (curr, best') else if curr' == 0 then some (right_subtree', best') else rest

-- The last loop of `treeAllocLarge`, down the leftmost children.
leftmost_best : ℕ → (nb curr : ℕ) → Memory → Best → Option Best
leftmost_best zero nb curr m best = none
leftmost_best (suc fuel) nb curr m best =
    let rest = leftmost_best fuel nb (leftmost_child m curr) m (better curr nb m best) in
    if curr != 0 then rest else some best

-- The smallest tree of a bin to the left of `index`, if the bin of the request gave nothing.
next_tree : (index curr : ℕ) → Best → Space → ℕ
next_tree index curr best s =
    let bits = shl32 (index_to_bit index) 1 in
    let leftbits = bit_and (bit_or bits (neg32 bits)) s.tree_map in
    let leastbit = bit_and leftbits (neg32 leftbits) in
    if curr == 0 && best.node == 0
    then if leftbits != 0 then s.mem (tree_bin_at s (compute_bit_to_index leastbit)) else curr
    else curr

-- Cut `nb` bytes off the node that was found.
carve_large : ℕ → (nb : ℕ) → Best → Space → Option (ℕ × Space)
carve_large fuel nb best s =
    let ptr = best.node in
    let rem_size = best.rem_size in
    let rem_ptr = chunk_plus_offset ptr nb in
    unlink_large_chunk fuel ptr s >>= λ s1.
    let s2 = assert_error (chunk_size s1.mem ptr == add32 rem_size nb) s1 in
    let whole = with_mem (set_size_inuse_pinuse s.self ptr (add32 rem_size nb)) s2 in
    let split = insert_chunk fuel rem_ptr rem_size (
      with_mem
        (λ m.
          set_size_pinuse_of_free_chunk rem_ptr rem_size
            (set_size_pinuse_of_inuse_chunk s.self ptr nb m))
        s2) in
    if ltb rem_size min_chunk_size
    then some (chunk_to_memory ptr, whole)
    else (◌>>=◌ {B = ℕ × Space} split (λ s3. some (chunk_to_memory ptr, s3)))

unfoldable pub tree_alloc_large : ℕ → (nb : ℕ) → Space → Option (ℕ × Space)
unfolding search_bin leftmost_best next_tree carve_large
tree_alloc_large fuel nb s =
    let index = compute_tree_index nb in
    let start : Best = record { node = null; rem_size = neg32 nb } in
    let root = s.mem (tree_bin_at s index) in
    let in_bin =
      if root != 0
      then search_bin fuel nb root (shl32 nb (leftshift_for_tree_index index)) 0 s.mem start
      else some (root, start) in
    in_bin >>= λ (curr, best).
    leftmost_best fuel nb (next_tree index curr best s) s.mem best >>= λ found.
    if found.node != 0 && ltb found.rem_size (sub32 s.dv_size nb)
    then carve_large fuel nb found s
    else some (null, s)

-- The loop of `treeAllocSmall` goes to the leftmost child before it compares.
smallest : ℕ → (nb ptr : ℕ) → Memory → Best → Option Best
smallest zero nb ptr m best = none
smallest (suc fuel) nb ptr m best =
    let ptr' = leftmost_child m ptr in
    let rest = smallest fuel nb ptr' m (better ptr' nb m best) in
    if ptr' != 0 then rest else some best

unfoldable pub tree_alloc_small : ℕ → (nb : ℕ) → Space → Option (ℕ × Space)
unfolding smallest
tree_alloc_small fuel nb s =
    let least_bit = bit_and s.tree_map (neg32 s.tree_map) in
    let root = s.mem (tree_bin_at s (compute_bit_to_index least_bit)) in
    smallest fuel nb root s.mem
      (record { node = root; rem_size = sub32 (chunk_size s.mem root) nb })
    >>= λ best.
        let ptr = best.node in
        let rem_size = best.rem_size in
        let rem_ptr = chunk_plus_offset ptr nb in
        unlink_large_chunk fuel ptr (assert_error (chunk_size s.mem ptr == add32 rem_size nb) s)
        >>= λ s1.
            let whole = with_mem (set_size_inuse_pinuse s.self ptr (add32 rem_size nb)) s1 in
            let split = replace_dv rem_ptr rem_size (
              with_mem
                (λ m.
                  set_size_pinuse_of_free_chunk ptr rem_size
                    (set_size_pinuse_of_inuse_chunk s.self ptr nb m))
                s1) in
            some (chunk_to_memory ptr, if ltb rem_size min_chunk_size then whole else split)

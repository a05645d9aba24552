-- ===== src/Tests/Pools.antt =====
-- The linear allocator, free lists and pools.
use odin_memory_allocator.Base.{ℕ, ◌+◌, ◌%◌, ◌≡◌, ◌<◌, ◌≤◌, refl, arith, inr, [], ◌∷◌}
use odin_memory_allocator.Bytes.{load_word, store_word}
use odin_memory_allocator.LinearAllocator.{Linear, allocate, get_alloc_size}
use odin_memory_allocator.LinearAllocator.Blocks.{Room, allocate_block}
use odin_memory_allocator.FreeList.{FreeList, obtain_node, return_node}
use odin_memory_allocator.FreeList.Nodes.{Nodes, obtain_node-Nodes, return_node-Nodes}

abbrev linear : Linear
linear = record {
  mem = λ a. 0;
  start = 0x10000;
  size = 0x10000;
  current = 0x10000;
  calls = [];
  failed = 0;
}

room : (n : ℕ) → n < 1000 → Room linear n
room n h = record { start = omega arith; segment = omega arith; room = omega (arith, h) }

allocate_block_example :
    let (ptr, l1) = allocate 24 8 0 linear in
    (ptr % 8 ≡ 0)
    × (0x10000 + 4 ≤ ptr)
    × (ptr < 0x10000 + 12)
    × (l1.current + 4 ≡ ptr + 24)
    × (get_alloc_size l1 ptr ≡ 24)
    × (l1.failed ≡ 0)
allocate_block_example = allocate_block linear 24 (room 24 (omega arith))

-- Two nodes.
abbrev two_nodes : FreeList
two_nodes = record { mem = store_word 0x1000 0x2000 (λ a. 0); next = 0x1000 }

nodes : Nodes two_nodes (0x1000 ∷ 0x2000 ∷ [])
unfolding load_word store_word
nodes = (refl, omega arith, (refl, omega arith, refl))

obtain_node-Nodes_example :
    ((obtain_node two_nodes).0 ≡ 0x1000) × Nodes (obtain_node two_nodes).1 (0x2000 ∷ [])
obtain_node-Nodes_example = obtain_node-Nodes two_nodes (0x1000 ∷ 0x2000 ∷ []) nodes

return_node-Nodes_example : Nodes (return_node 0x3000 two_nodes) (0x3000 ∷ 0x1000 ∷ 0x2000 ∷ [])
return_node-Nodes_example =
    return_node-Nodes two_nodes 0x3000 (0x1000 ∷ 0x2000 ∷ []) nodes (omega arith) (omega arith)
      (inr (omega arith), (inr (omega arith), tt))

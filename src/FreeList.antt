-- ===== src/FreeList.antt =====
-- FreeList.cpp and PoolAllocator.cpp: free nodes are linked through their first word. The links that
-- the constructor makes lead to any address, so the memory is one of bytes. The pool takes its memory
-- from another allocator, of which it sees the address that `allocate` answers.
pub mod Nodes
use odin_memory_allocator.Base.{
  ℕ, zero, suc, ◌+◌, ◌/◌, Bool, true, false, ◌&&◌, ltb, ◌==◌, if◌then◌else◌, add32, sub32, mul32,
  not32, word_size, bit_and,
}
use odin_memory_allocator.Memory.{null}
use odin_memory_allocator.Bytes.{Bytes, load_word, store_word}

-- `mNext`, and the memory that the nodes are in.
pub record FreeList : Type 0 where
  pub mem : Bytes
  pub next : ℕ

-- The loop of the constructor over the elements below `k`.
unfoldable pub link_elements : (k base final_element_size element_count : ℕ) → Bytes → Bytes
link_elements zero base final_element_size element_count m = m
link_elements (suc k) base final_element_size element_count m =
    let curr_element = add32 base (mul32 k final_element_size) in
    store_word curr_element (add32 curr_element element_count)
      (link_elements k base final_element_size element_count m)

-- The links of all elements but the last, and the null of the last.
unfoldable pub link_all : (base final_element_size element_count : ℕ) → Bytes → Bytes
unfolding link_elements
link_all base final_element_size element_count m =
    store_word (add32 base (mul32 element_count final_element_size)) null
      (link_elements element_count base final_element_size element_count m)

-- The first element: the address behind `offset` bytes is rounded up, and taken back again.
unfoldable pub first_element : (start alignment offset : ℕ) → ℕ
first_element start alignment offset =
    sub32 (bit_and (add32 (add32 start offset) (sub32 alignment 1)) (not32 (sub32 alignment 1)))
      offset

-- The constructor.
unfoldable pub construct : (start size element_size alignment offset : ℕ) → Bytes → FreeList
unfolding link_all first_element
construct start size element_size alignment offset m =
    let final_element_size = add32 (mul32 2 offset) element_size in
    let base = first_element start alignment offset in
    let element_count = sub32 (sub32 size (sub32 base start) / final_element_size) 1 in
    record { mem = link_all base final_element_size element_count m; next = base }

unfoldable pub obtain_node : FreeList → ℕ × FreeList
obtain_node f =
    if f.next == null then (null, f) else (f.next, record f { next = load_word f.mem f.next })

unfoldable pub return_node : (ptr : ℕ) → FreeList → FreeList
return_node ptr f = record { mem = store_word ptr f.next f.mem; next = ptr }

-- PoolAllocator. `mCount` has no value before the first use; `failed` counts the ASSERT_ERROR checks
-- that did not hold.
pub record Pool : Type 0 where
  pub size : ℕ
  pub chunk_size : ℕ
  pub alignment : ℕ
  pub count : ℕ
  pub offset : ℕ
  pub free_list : FreeList
  pub start : ℕ
  pub failed : ℕ

abbrev check : Bool → Pool → Pool
check test p = record p { failed = if test then p.failed else p.failed + 1 }

-- The sizes that the constructor sets.
unfoldable pub pool_size : (element_size element_count alignment offset : ℕ) → ℕ
pool_size element_size element_count alignment offset =
    let final_element_size =
      bit_and (add32 element_size (mul32 2 offset)) (not32 (sub32 alignment 1)) in
    add32 (mul32 final_element_size element_count) alignment

-- `sizeof(FreeList)`: one pointer.
abbrev pub sizeof_free_list : ℕ
sizeof_free_list = word_size

-- `start` is what the allocator answered.
unfoldable pub pool_init : (start : ℕ) → Bytes → Pool → Bool × Pool
unfolding construct
pool_init start m p =
    let f = construct (add32 start sizeof_free_list) p.size p.chunk_size p.alignment p.offset m in
    if start == null
    then (false, record p { start = start })
    else (true, record p { start = start; free_list = f })

unfoldable pub pool_allocate : (size alignment offset : ℕ) → Pool → ℕ × Pool
unfolding obtain_node
pool_allocate size alignment offset p0 =
    let p1 = check (p0.chunk_size == size) p0 in
    let p2 = check (p1.alignment == alignment) p1 in
    let p3 = check (p2.offset == offset) p2 in
    let (node, f) = obtain_node p3.free_list in
    (node, record p3 { count = add32 p3.count 1; free_list = f })

unfoldable pub pool_deallocate : (ptr : ℕ) → Pool → Pool
unfolding return_node
pool_deallocate ptr p =
    let p1 = check (ltb p.start ptr && ltb ptr (add32 p.start p.size)) p in
    if ptr == null
    then p
    else record p1 { count = sub32 p1.count 1; free_list = return_node ptr p1.free_list }

unfoldable pub pool_alloc_size : Pool → ℕ
pool_alloc_size p = p.chunk_size

unfoldable pub pool_total_allocated : Pool → ℕ
pool_total_allocated p = mul32 (add32 p.chunk_size (mul32 2 p.offset)) p.count

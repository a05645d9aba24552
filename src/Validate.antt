-- ===== src/Validate.antt =====
-- MemAlloc.cpp, the functions that check whole bins and the whole heap in a debug build: checkTree,
-- checkTreebin, checkSmallbin, findInBin, traverseAndCheck and validateMemorySpace. They write nothing
-- but the count of failed checks. Each loop takes fuel, one unit for a turn, and gives `none` where
-- it runs out, as in a broken ring, where the program would go round for ever.
pub mod TreeSearch
pub mod TreeContents
pub mod Finding
pub mod SmallBins
pub mod Rows
pub mod Detection
pub mod Acceptance
pub mod Traversal
use odin_memory_allocator.Base.{
  ℕ, zero, suc, ◌+◌, ◌-◌, Bool, true, false, not, ◌&&◌, ◌||◌, Option, none, some, ltb, leb, ◌==◌,
  ◌!=◌, if◌then◌else◌, add32, shl32, bit_and,
}
use odin_memory_allocator.Base.Fuel.{◌>>=◌}
use odin_memory_allocator.Memory.{Memory, null}
use odin_memory_allocator.Chunk.{
  fd, bk, chunk_size, next_chunk, is_aligned, chunk_to_memory, memory_to_chunk, is_inuse,
  get_pinuse, next_pinuse, min_chunk_size,
}
use odin_memory_allocator.Bins.{
  compute_tree_index, minsize_for_tree_index, leftshift_for_tree_index, is_small,
  get_small_bin_index, num_small_bins, num_tree_bins, min_large_size,
}
use odin_memory_allocator.Space.{
  Space, assert_error, small_bin_at, tree_bin_at, is_small_map_marked, is_tree_map_marked,
}
use odin_memory_allocator.TreeBin.{child, parent, tree_index, leading_bit}
use odin_memory_allocator.Checks.{check_top_chunk, check_inuse_chunk, check_free_chunk}

-- The checks on a tree chunk that need no other one: those at the start of `checkTree`.
unfoldable pub check_tree_size : (tptr : ℕ) → Space → Space
check_tree_size tptr s0 =
    let tsize = chunk_size s0.mem tptr in
    let idx = compute_tree_index tsize in
    let s1 = assert_error (tree_index s0.mem tptr == idx) s0 in
    let s2 = assert_error (leb min_large_size tsize) s1 in
    let s3 = assert_error (leb (minsize_for_tree_index idx) tsize) s2 in
    assert_error (idx == num_tree_bins - 1 || ltb tsize (minsize_for_tree_index (idx + 1))) s3

-- The checks at the start of each turn of the loop over the ring of `tptr`.
unfoldable pub check_ring_node : (tptr curr tindex tsize : ℕ) → Space → Space
check_ring_node tptr curr tindex tsize s0 =
    let m = s0.mem in
    let s1 = assert_error (is_aligned (chunk_to_memory tptr)) s0 in
    let s2 = assert_error (tree_index m curr == tindex) s1 in
    let s3 = assert_error (chunk_size m curr == tsize) s2 in
    let s4 = assert_error (not (is_inuse m curr)) s3 in
    let s5 = assert_error (not (next_pinuse m curr != 0)) s4 in
    let s6 = assert_error (bk m (fd m curr) == curr) s5 in
    assert_error (fd m (bk m curr) == curr) s6

-- The checks on the links of a chunk with a parent, before its children are visited.
unfoldable pub check_parent : (curr head : ℕ) → Space → Space
check_parent curr head s0 =
    let m = s0.mem in
    let up = parent m curr in
    let s1 = assert_error (head == null) s0 in
    let s2 = assert_error (up != curr) s1 in
    assert_error (child m up 0 == curr || child m up 1 == curr || m up == curr) s2

unfoldable pub check_child : (curr k : ℕ) → Space → Space
check_child curr k s0 =
    let c = child s0.mem curr k in
    let s1 = assert_error (parent s0.mem c == curr) s0 in assert_error (c != curr) s1

unfoldable pub check_order : (curr : ℕ) → Space → Space
check_order curr s =
    let left = child s.mem curr 0 in
    let right = child s.mem curr 1 in
    if left != 0 && right != 0
    then assert_error (ltb (chunk_size s.mem left) (chunk_size s.mem right)) s
    else s

-- A chunk of the ring that hangs on no parent has no child.
unfoldable pub check_childless : (curr : ℕ) → Space → Space
check_childless curr s0 =
    let s1 = assert_error (child s0.mem curr 0 == 0) s0 in
    assert_error (child s0.mem curr 1 == 0) s1

-- `check_ring` is the loop of `checkTree` from the turn for `curr` on, `visit` the part of a turn that
-- checks child `k` and the tree below it.
unfoldable mutual
  unfolding check_tree_size check_ring_node check_parent check_child check_order check_childless

  pub check_tree : ℕ → (tptr : ℕ) → Space → Option Space
  check_tree zero tptr s = none
  check_tree (suc fuel) tptr s =
      check_ring fuel tptr (tree_index s.mem tptr) (chunk_size s.mem tptr) tptr null
        (check_tree_size tptr s)

  pub check_ring : ℕ → (tptr tindex tsize curr head : ℕ) → Space → Option Space
  check_ring zero tptr tindex tsize curr head s = none
  check_ring (suc fuel) tptr tindex tsize curr head s0 =
      let s1 = check_ring_node tptr curr tindex tsize s0 in
      let next = fd s0.mem curr in
      let on = λ (h : ℕ) (s : Space).
        (let rest = check_ring fuel tptr tindex tsize next h s in
          if next != tptr then rest else some (assert_error (h != null) s)) in
      let with_children = visit fuel curr 0 (check_parent curr head s1) >>= λ s2.
      visit fuel curr 1 s2 >>= λ s3. on curr (check_order curr s3) in
      let alone = on head (check_childless curr s1) in
      if parent s0.mem curr == 0 then alone else with_children

  pub visit : ℕ → (curr k : ℕ) → Space → Option Space
  visit zero curr k s = none
  visit (suc fuel) curr k s =
      let below = check_tree fuel (child s.mem curr k) (check_child curr k s) in
      if child s.mem curr k != 0 then below else some s

unfoldable pub check_treebin : ℕ → (index : ℕ) → Space → Option Space
check_treebin fuel index s =
    let tptr = s.mem (tree_bin_at s index) in
    let empty = bit_and s.tree_map (shl32 1 index) == 0 in
    let s1 = if tptr == null then assert_error empty s else s in
    if not empty then check_tree fuel tptr s1 else some s1

-- The checks of one turn of `checkSmallbin`.
unfoldable pub check_binned : (bin_ptr index ptr : ℕ) → Space → Space
check_binned bin_ptr index ptr s0 =
    let size = chunk_size s0.mem ptr in
    let s1 = check_free_chunk ptr s0 in
    let s2 = assert_error (get_small_bin_index size == index) s1 in
    assert_error
      (bk s2.mem ptr == bin_ptr || chunk_size s2.mem (bk s2.mem ptr) == chunk_size s2.mem ptr) s2

-- The loop of `checkSmallbin` from `ptr` on.
check_back : ℕ → (bin_ptr index ptr : ℕ) → Space → Option Space
unfolding check_binned
check_back zero bin_ptr index ptr s = none
check_back (suc fuel) bin_ptr index ptr s =
    let rest = check_back fuel bin_ptr index (bk s.mem ptr) (check_binned bin_ptr index ptr s) in
    if ptr != bin_ptr then rest else some s

unfoldable pub check_smallbin : ℕ → (index : ℕ) → Space → Option Space
unfolding check_back
check_smallbin fuel index s =
    let bin_ptr = small_bin_at s index in
    let ptr = bk s.mem bin_ptr in
    let empty = bit_and s.small_map (shl32 1 index) == 0 in
    let s1 = if ptr == bin_ptr then assert_error empty s else s in
    if not empty then check_back fuel bin_ptr index ptr s1 else some s1

-- The two loops `do … while ((curr = curr->fd) != start)` of `findInBin`.
pub find_in_ring : ℕ → Memory → (start ptr curr : ℕ) → Option Bool
find_in_ring zero m start ptr curr = none
find_in_ring (suc fuel) m start ptr curr =
    let rest = find_in_ring fuel m start ptr (fd m curr) in
    if curr == ptr then some true else if fd m curr != start then rest else some false

-- The walk down a tree bin to a chunk of the size, or to null.
pub find_size : ℕ → Memory → (size tptr size_bits : ℕ) → Option ℕ
find_size zero m size tptr size_bits = none
find_size (suc fuel) m size tptr size_bits =
    let deeper = find_size fuel m size (child m tptr (leading_bit size_bits)) (shl32 size_bits 1) in
    if tptr != null && chunk_size m tptr != size then deeper else some tptr

unfoldable pub find_in_bin : ℕ → (ptr : ℕ) → Space → Option Bool
unfolding find_in_ring find_size
find_in_bin fuel ptr s =
    let size = chunk_size s.mem ptr in
    let small_index = get_small_bin_index size in
    let bptr = small_bin_at s small_index in
    let tindex = compute_tree_index size in
    let in_tree =
      find_size fuel s.mem size (s.mem (tree_bin_at s tindex))
        (shl32 size (leftshift_for_tree_index tindex))
      >>= λ tptr. (if tptr != null then find_in_ring fuel s.mem tptr ptr tptr else some false) in
    if is_small size
    then if is_small_map_marked s small_index
      then find_in_ring fuel s.mem bptr ptr bptr
      else some false
    else if is_tree_map_marked s tindex
    then in_tree
    else some false

-- The checks of one turn of `traverseAndCheck`; `last_ptr` is the chunk before, or null. In a free
-- chunk the victim is tested first, and the bins are searched only where it is another.
unfoldable pub check_chunk : ℕ → (curr_ptr last_ptr : ℕ) → Space → Option Space
check_chunk fuel curr_ptr last_ptr s =
    let in_use = find_in_bin fuel curr_ptr s >>= λ found.
    some (check_inuse_chunk curr_ptr (assert_error (not found) s)) in
    let searched = find_in_bin fuel curr_ptr s in
    let free = (if curr_ptr == s.dv then some true else searched) >>= λ found.
    (let s1 = assert_error found s in
      let s2 = assert_error (last_ptr == null || is_inuse s1.mem last_ptr) s1 in
      some (check_free_chunk curr_ptr s2)) in
    if is_inuse s.mem curr_ptr then in_use else free

-- The loop, with the sum so far.
traverse_from : ℕ → (size_sum curr_ptr last_ptr : ℕ) → Space → Option (ℕ × Space)
unfolding check_chunk
traverse_from zero size_sum curr_ptr last_ptr s = none
traverse_from (suc fuel) size_sum curr_ptr last_ptr s =
    let turn = check_chunk fuel curr_ptr last_ptr s >>= λ s1.
    traverse_from fuel (add32 size_sum (chunk_size s.mem curr_ptr)) (next_chunk s1.mem curr_ptr)
      curr_ptr s1 in
    if leb s.least_addr curr_ptr
      && (leb curr_ptr (add32 s.least_addr s.footprint) && curr_ptr != s.top)
    then turn
    else some (size_sum, s)

unfoldable pub traverse_and_check : ℕ → Space → Option (ℕ × Space)
unfolding traverse_from
traverse_and_check fuel s =
    let first = next_chunk s.mem (memory_to_chunk s.self) in
    traverse_from fuel (add32 0 s.top_size) first null
      (assert_error (get_pinuse s.mem first != 0) s)

-- `for (i = index; k turns left; ++i) check(i)`
each_bin : (check : ℕ → Space → Option Space) → (k index : ℕ) → Space → Option Space
each_bin check zero index s = some s
each_bin check (suc k) index s = check index s >>= λ s1. each_bin check k (suc index) s1

unfoldable pub check_dv : ℕ → Space → Option Space
check_dv fuel s0 =
    let s1 = assert_error (is_aligned (chunk_to_memory s0.dv)) s0 in
    let s2 = assert_error (s1.dv_size == chunk_size s1.mem s1.dv) s1 in
    let s3 = assert_error (leb min_chunk_size s2.dv_size) s2 in
    let checked = find_in_bin fuel s3.dv s3 >>= λ found. some (assert_error (not found) s3) in
    if s0.dv_size != 0 then checked else some s0

unfoldable pub check_top : ℕ → Space → Option Space
check_top fuel s0 =
    let s1 = check_top_chunk s0 in
    let s2 = assert_error (ltb 0 s1.top_size) s1 in
    let checked = find_in_bin fuel s2.top s2 >>= λ found. some (assert_error (not found) s2) in
    if s0.top_size != 0 then checked else some s0

unfoldable pub validate_memory_space : ℕ → Space → Option Space
unfolding each_bin check_dv check_top
validate_memory_space fuel s0 = each_bin (check_smallbin fuel) num_small_bins 0 s0 >>= λ s1.
    each_bin (check_treebin fuel) num_tree_bins 0 s1 >>= λ s2. check_dv fuel s2 >>= λ s3.
    check_top fuel s3 >>= λ s4.
    traverse_and_check fuel s4 >>= λ (total, s5). some (assert_error (leb total s5.footprint) s5)

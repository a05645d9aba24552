-- ===== src/Alloc.antt =====
-- MemAlloc.cpp, `alloc`. The pair that is returned is the address (0 for a null pointer) and the
-- memory space; `none` means that a walk in a tree bin ran out of fuel.
pub mod Exact
pub mod Fresh
pub mod Top
pub mod Victim
pub mod NextBin
use odin_memory_allocator.Base.{
  ℕ, ◌+◌, ◌-◌, ◌*◌, Bool, ◌&&◌, Option, none, some, ltb, leb, ◌==◌, ◌!=◌, if◌then◌else◌, add32,
  sub32, mul32, neg32, not32, shl32, shr32, word_size, bit_and, bit_or,
}
use odin_memory_allocator.Base.Fuel.{◌>>=◌}
use odin_memory_allocator.Memory.{null}
use odin_memory_allocator.SysAlloc.{VirtualMemory, reserve_segment, commit_page}
use odin_memory_allocator.Chunk.{
  chunk_size, fd, set_head, chunk_plus_offset, chunk_to_memory, chunk_overhead, min_chunk_size,
  max_request, min_request, pinuse_bit, pad_request, set_size_inuse_pinuse,
  set_size_pinuse_of_inuse_chunk, set_size_pinuse_of_free_chunk, mark_inuse_foot_null,
}
use odin_memory_allocator.Bins.{
  get_small_bin_index, get_small_index_to_size, index_to_bit, compute_bit_to_index,
}
use odin_memory_allocator.Space.{Space, assert_error, with_mem, small_bin_at}
use odin_memory_allocator.SmallBin.{unlink_first_small_chunk, replace_dv}
use odin_memory_allocator.Checks.{check_alloced_chunk}
use odin_memory_allocator.TreeAlloc.{tree_alloc_small, tree_alloc_large}

abbrev pub Allocated : Type 0
Allocated = ℕ × Space

-- The checks at the end of each branch that hands out memory.
abbrev pub hand_out : (ptr nb : ℕ) → Space → Allocated
hand_out ptr nb s = (chunk_to_memory ptr, check_alloced_chunk (chunk_to_memory ptr) nb s)

-- The padded size of a request up to `kMaxRequest`.
unfoldable pub chunk_request : ℕ → ℕ
chunk_request bytes = if ltb bytes min_request then min_chunk_size else pad_request bytes

-- A small bin that fits without remainder: the one of this size, or else the next.
unfoldable pub alloc_exact : (nb : ℕ) → Space → Allocated
alloc_exact nb s =
    let index0 = get_small_bin_index nb in
    let smallbits = shr32 s.small_map index0 in
    let index = add32 index0 (bit_and (not32 smallbits) 1) in
    let back = small_bin_at s index in
    let ptr = fd s.mem back in
    let s1 = assert_error (chunk_size s.mem ptr == get_small_index_to_size index) s in
    let s2 = unlink_first_small_chunk ptr index s1 in
    hand_out ptr nb (with_mem (set_size_inuse_pinuse s.self ptr (get_small_index_to_size index)) s2)

-- The least small bin behind the one of this size that holds a chunk.
unfoldable pub next_bin_index : (nb : ℕ) → Space → ℕ
next_bin_index nb s =
    let index = get_small_bin_index nb in
    let smallbits = shr32 s.small_map index in
    let bits = index_to_bit index in
    let leftbits = bit_and (shl32 smallbits index) (bit_or (shl32 bits 1) (neg32 (shl32 bits 1))) in
    let leastbit = bit_and leftbits (neg32 leftbits) in compute_bit_to_index leastbit

-- The first chunk of a small bin is cut, and the rest is the designated victim.
unfoldable pub cut_small_chunk : (ptr ind nb : ℕ) → Space → Allocated
cut_small_chunk ptr ind nb s =
    let s1 = assert_error (chunk_size s.mem ptr == get_small_index_to_size ind) s in
    let s2 = unlink_first_small_chunk ptr ind s1 in
    let rem_size = sub32 (get_small_index_to_size ind) nb in
    let whole = with_mem (set_size_inuse_pinuse s.self ptr (get_small_index_to_size ind)) s2 in
    let rem_ptr = chunk_plus_offset ptr nb in
    let split = replace_dv rem_ptr rem_size (
      with_mem
        (λ m.
          set_size_pinuse_of_free_chunk ptr rem_size
            (set_size_pinuse_of_inuse_chunk s.self ptr nb m))
        s2) in
    hand_out ptr nb (if word_size != 4 && ltb rem_size min_chunk_size then whole else split)

unfoldable pub alloc_next_bin : (nb : ℕ) → Space → Allocated
alloc_next_bin nb s =
    let ind = next_bin_index nb s in
    let back = small_bin_at s ind in let ptr = fd s.mem back in cut_small_chunk ptr ind nb s

-- The designated victim is cut, or used up.
unfoldable pub alloc_dv : (nb : ℕ) → Space → Allocated
alloc_dv nb s =
    let rem_size = sub32 s.dv_size nb in
    let ptr = s.dv in
    let rem_ptr = chunk_plus_offset ptr nb in
    let split =
      with_mem
        (λ m.
          set_size_pinuse_of_inuse_chunk s.self ptr nb
            (set_size_pinuse_of_free_chunk rem_ptr rem_size m))
        (record s { dv = rem_ptr; dv_size = rem_size }) in
    let exhausted =
      with_mem (set_size_inuse_pinuse s.self ptr nb) (record s { dv_size = 0; dv = 0 }) in
    hand_out ptr nb (if leb min_chunk_size rem_size then split else exhausted)

-- Where the committed pages end.
abbrev pub page_end : Space → ℕ
page_end s = add32 s.least_addr (mul32 s.curr_page_index s.page_size)

-- The next page is committed if the top moved past the committed ones: one page, also where the top has
-- moved by more. What the commit answers is not used, and an access to a page that is not committed,
-- which faults, is an access like any other here.
unfoldable pub commit_next_page : Space → Space
commit_next_page s =
    if ltb (page_end s) s.top
    then record s {
      calls = commit_page (page_end s) s.page_size s.calls;
      curr_page_index = add32 s.curr_page_index 1;
    }
    else s

-- The top chunk is cut.
unfoldable pub alloc_top : (nb : ℕ) → Space → Allocated
alloc_top nb s =
    let rem_size = sub32 s.top_size nb in
    let ptr = s.top in
    let rem_ptr = chunk_plus_offset ptr nb in
    hand_out ptr nb (
      with_mem
        (λ m.
          set_size_pinuse_of_inuse_chunk s.self ptr nb
            (set_head rem_ptr (bit_or rem_size pinuse_bit) m))
        (commit_next_page (record s { top_size = rem_size; top = rem_ptr })))

-- The segment grows by pages after its end, and the top with it.
unfoldable pub grow_segment : (adjacent nb : ℕ) → Space → Allocated
grow_segment adjacent nb s =
    let page_aligned_nb = bit_and (add32 nb (sub32 s.page_size 1)) (not32 (sub32 s.page_size 1)) in
    let footprint = add32 s.footprint page_aligned_nb in
    let rem_size = sub32 (add32 s.top_size page_aligned_nb) nb in
    let ptr = s.top in
    let rem_ptr = chunk_plus_offset ptr nb in
    hand_out ptr nb (
      with_mem
        (λ m.
          set_size_pinuse_of_inuse_chunk s.self ptr nb
            (set_head rem_ptr (bit_or rem_size pinuse_bit) m))
        (record s {
          footprint = footprint;
          max_footprint = if ltb s.max_footprint footprint then footprint else s.max_footprint;
          calls = commit_page adjacent page_aligned_nb s.calls;
          curr_page_index = add32 s.curr_page_index 1;
          top_size = rem_size;
          top = rem_ptr;
        }))

module _ (os : VirtualMemory) where
  -- The space is requested from the system directly.
  unfoldable pub alloc_direct : (bytes : ℕ) → Space → Allocated
  alloc_direct bytes s =
      let nb = pad_request (add32 bytes chunk_overhead) in
      let (ptr, calls) = reserve_segment os nb null s.calls in
      hand_out ptr nb (
        with_mem
          (λ m. mark_inuse_foot_null ptr bytes (set_size_pinuse_of_inuse_chunk s.self ptr bytes m))
          (record s { calls = calls }))

  -- More memory from the system: next to the segment if that can be had, or else on its own.
  unfoldable pub alloc_system : (bytes nb : ℕ) → Space → Allocated
  unfolding alloc_direct
  alloc_system bytes nb s =
      let (adjacent, calls) =
        reserve_segment os s.page_size (add32 s.least_addr s.footprint) s.calls in
      let s1 = record s { calls = calls } in
      if ltb bytes s.segment_threshold
      then if adjacent != null then grow_segment adjacent nb s1 else alloc_direct bytes s1
      else alloc_direct bytes s

  -- From `if (nb <= msp->dv_size)` on.
  unfoldable pub alloc_rest : (bytes nb : ℕ) → Space → Allocated
  unfolding alloc_system
  alloc_rest bytes nb s =
      if leb nb s.dv_size
      then alloc_dv nb s
      else if ltb nb s.top_size
      then alloc_top nb s
      else alloc_system bytes nb s

  -- A tree bin, or what comes after where it gives nothing.
  or_rest : (bytes nb : ℕ) → Option (ℕ × Space) → Option Allocated
  unfolding alloc_rest
  or_rest bytes nb tree = tree >>= λ (mem, s).
      if mem != null then some (mem, check_alloced_chunk mem nb s) else some (alloc_rest bytes nb s)

  unfoldable pub alloc : ℕ → (bytes : ℕ) → Space → Option Allocated
  unfolding or_rest
  alloc fuel bytes s =
      let nb = chunk_request bytes in
      let smallbits = shr32 s.small_map (get_small_bin_index nb) in
      let small =
        if bit_and smallbits 0x3 != 0
        then some (alloc_exact nb s)
        else if ltb s.dv_size nb
        then if smallbits != 0 then some (alloc_next_bin nb s) else some (alloc_rest bytes nb s)
        else if s.tree_map != 0
        then or_rest bytes nb (tree_alloc_small fuel nb s)
        else some (alloc_rest bytes nb s) in
      let large =
        if s.tree_map != 0
        then or_rest bytes (pad_request bytes) (tree_alloc_large fuel (pad_request bytes) s)
        else some (alloc_rest bytes (pad_request bytes) s) in
      if leb bytes max_request
      then small
      else if leb max_request bytes
      then some (null, s)
      else large

-- ===== src/Free.antt =====
-- MemAlloc.cpp, `free`. It returns whether the segment holds no allocation any more and is to be
-- destroyed; `none` means that a walk in a tree bin ran out of fuel.
pub mod Top
pub mod RoundTrip
use odin_memory_allocator.Base.{
  ℕ, zero, suc, ◌+◌, ◌-◌, ◌*◌, ◌/◌, Bool, true, false, not, ◌&&◌, ◌||◌, Option, none, some, ltb,
  leb, ◌==◌, ◌!=◌, if◌then◌else◌, add32, sub32, mul32, not32, bit_and, bit_or,
}
use odin_memory_allocator.Base.Fuel.{◌>>=◌}
use odin_memory_allocator.Memory.{null}
use odin_memory_allocator.SysAlloc.{Calls, release_segment, decommit_page}
use odin_memory_allocator.Chunk.{
  head, prev_foot, set_head, chunk_size, next_chunk, chunk_plus_offset, chunk_minus_offset,
  chunk_to_memory, memory_to_chunk, chunk_overhead, inuse_bits, pinuse_bit, alignment_offset,
  get_pinuse, get_cinuse, is_inuse, set_size_pinuse_of_free_chunk,
}
use odin_memory_allocator.Space.{Space, with_mem}
use odin_memory_allocator.TreeBin.{insert_chunk, unlink_chunk}
use odin_memory_allocator.Checks.{check_inuse_chunk, check_free_chunk}

abbrev pub Freed : Type 0
Freed = Bool × Space

-- `for (i = size_factor; i > 1; --i)` over the whole granules behind the first.
unfoldable pub release_granules : (i least granularity : ℕ) → Calls → Calls
release_granules zero least granularity calls = calls
release_granules (suc zero) least granularity calls = calls
release_granules (suc (suc k)) least granularity calls =
    release_granules (suc k) least granularity
      (release_segment (add32 least (mul32 granularity (suc k))) granularity calls)

-- The start of the current page.
abbrev pub page_start : Space → ℕ
page_start s = add32 s.least_addr (mul32 (sub32 s.curr_page_index 1) s.page_size)

-- The chunk right after the MemorySpace structure.
unfoldable pub first_chunk : Space → ℕ
first_chunk s =
    let next = next_chunk s.mem (memory_to_chunk s.self) in
    add32 next (alignment_offset (chunk_to_memory next))

-- The current page is decommitted if the top moved before its start.
unfoldable pub decommit_last_page : Space → Space
decommit_last_page s =
    if ltb s.top (page_start s)
    then record s {
      calls = decommit_page (page_start s) s.page_size s.calls;
      curr_page_index = sub32 s.curr_page_index 1;
    }
    else s

-- The granules behind the first are released if the top is larger than one.
unfoldable pub release_rest : Space → Space
release_rest s =
    if ltb s.segment_granularity s.top_size
    then record s {
      calls =
          release_granules (s.top_size / s.segment_granularity) s.least_addr s.segment_granularity
            s.calls;
    }
    else s

-- The chunk joins the top.
unfoldable pub join_top : (ptr ptr_size : ℕ) → Space → Freed
join_top ptr ptr_size s =
    let top_size = add32 s.top_size ptr_size in
    let s1 =
      with_mem (set_head ptr (bit_or top_size pinuse_bit))
        (record s { top_size = top_size; top = ptr }) in
    let s2 = if ptr == s1.dv then record s1 { dv = 0; dv_size = 0 } else s1 in
    let s3 = release_rest (decommit_last_page s2) in (first_chunk s3 == s3.top, s3)

-- The chunk joins the designated victim behind it.
unfoldable pub join_dv : (ptr ptr_size : ℕ) → Space → Freed
join_dv ptr ptr_size s =
    let dv_size = add32 s.dv_size ptr_size in
    (
      false,
      with_mem (set_size_pinuse_of_free_chunk ptr dv_size)
          (record s { dv_size = dv_size; dv = ptr }),
    )

-- `insertChunk`, `checkFreeChunk` and the return.
unfoldable pub file_chunk : ℕ → (ptr ptr_size : ℕ) → Space → Option Freed
file_chunk fuel ptr ptr_size s =
    insert_chunk fuel ptr ptr_size s >>= λ s1. some (false, check_free_chunk ptr s1)

-- The chunk joins the free chunk behind it.
unfoldable pub join_next : ℕ → (ptr ptr_size next_ptr : ℕ) → Space → Option Freed
unfolding file_chunk
join_next fuel ptr ptr_size next_ptr s =
    let next_size = chunk_size s.mem next_ptr in
    let size = add32 ptr_size next_size in
    unlink_chunk fuel next_ptr next_size s >>= λ s1.
    let s2 = with_mem (set_size_pinuse_of_free_chunk ptr size) s1 in
    let filed = file_chunk fuel ptr size s2 in
    if ptr == s2.dv then some (false, record s2 { dv_size = size }) else filed

-- From `if (getPInuse(next_ptr))` on.
unfoldable pub consolidate_forward : ℕ → (ptr ptr_size next_ptr : ℕ) → Space → Option Freed
unfolding join_top join_dv join_next file_chunk
consolidate_forward fuel ptr ptr_size next_ptr s =
    let apart = file_chunk fuel ptr ptr_size (
      with_mem
        (λ m.
          set_size_pinuse_of_free_chunk ptr ptr_size
            (set_head next_ptr (bit_and (head m next_ptr) (not32 pinuse_bit)) m))
        s) in
    if get_pinuse s.mem next_ptr != 0
    then if get_cinuse s.mem next_ptr == 0
      then if next_ptr == s.top
        then some (join_top ptr ptr_size s)
        else if next_ptr == s.dv
        then some (join_dv ptr ptr_size s)
        else join_next fuel ptr ptr_size next_ptr s
      else apart
    else some (false, s)

-- The chunk joins the free chunk before it, if there is one.
unfoldable pub consolidate_backward : ℕ → (ptr : ℕ) → Space → Option Freed
unfolding consolidate_forward
consolidate_backward fuel ptr s =
    let ptr_size = chunk_size s.mem ptr in
    let next_ptr = chunk_plus_offset ptr ptr_size in
    let foot = prev_foot s.mem ptr in
    let prev_ptr = chunk_minus_offset ptr foot in
    let joined = add32 ptr_size foot in
    let with_dv =
      with_mem
        (λ m.
          set_size_pinuse_of_free_chunk prev_ptr joined
            (set_head next_ptr (bit_and (head m next_ptr) (not32 pinuse_bit)) m))
        (record s { dv_size = joined }) in
    let unlinked : Option Freed =
      unlink_chunk fuel prev_ptr foot s >>= consolidate_forward fuel prev_ptr joined next_ptr in
    if get_pinuse s.mem ptr == 0
    then if prev_ptr != s.dv
      then unlinked
      else if bit_and (head s.mem next_ptr) inuse_bits == inuse_bits
      then some (false, with_dv)
      else consolidate_forward fuel prev_ptr joined next_ptr s
    else consolidate_forward fuel ptr ptr_size next_ptr s

unfoldable pub free : ℕ → (mem : ℕ) → Space → Option Freed
unfolding consolidate_backward
free fuel mem s0 =
    let ptr = memory_to_chunk mem in
    let s = check_inuse_chunk ptr s0 in
    let own_mapping =
      ltb s.segment_threshold (chunk_size s.mem ptr)
      || (ltb ptr s.least_addr || ltb (add32 s.least_addr s.footprint) ptr) in
    let released = record s {
      calls = release_segment ptr (add32 (chunk_size s.mem ptr) chunk_overhead) s.calls;
    } in
    if mem != null
    then if is_inuse s.mem ptr
      then if own_mapping then some (false, released) else consolidate_backward fuel ptr s
      else some (false, s)
    else some (false, s0)

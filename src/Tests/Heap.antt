-- ===== src/Tests/Heap.antt =====
-- A new space, the top chunk, and the designated victim.
use odin_memory_allocator.Base.{◌+◌, ◌-◌, ◌≡◌, Bool, refl, sym, subst, arith, [], some, true, false}
use odin_memory_allocator.Base.Fuel.{◌>>=◌}
use odin_memory_allocator.Memory.{store, store-IsWords, IsWords}
use odin_memory_allocator.Chunk.{
  chunk_size, is_inuse, get_pinuse, next_pinuse, set_size_inuse_pinuse, memory_to_chunk,
  chunk_overhead, pad_request,
}
use odin_memory_allocator.Space.{Space}
use odin_memory_allocator.SmallBin.Inv.{IsBins}
use odin_memory_allocator.Checks.Passes.{Fits}
use odin_memory_allocator.Alloc.{alloc, chunk_request, alloc_top, alloc_dv, alloc_next_bin}
use odin_memory_allocator.Alloc.Fresh.{alloc_cuts_top}
use odin_memory_allocator.Alloc.Top.{TopServes, cut, alloc_top_lem}
use odin_memory_allocator.Alloc.Victim.{VictimServes, victim_cut, alloc_dv_lem}
use odin_memory_allocator.Alloc.NextBin.{alloc_next_bin_reads_free}
use odin_memory_allocator.Free.{free}
use odin_memory_allocator.Free.Top.{BeforeTop}
use odin_memory_allocator.Free.RoundTrip.{
  TopInSegment, outside, free-alloc_top, IsJoined, free-IsJoined,
}
use odin_memory_allocator.Create.{init_memory_space}
use odin_memory_allocator.Create.Init.{Segment, init_memory_space_well_formed}
use odin_memory_allocator.Query.{get_memory_space_addr, get_usable_size}
use odin_memory_allocator.Query.Readback.{set_size_inuse_pinuse_reads_back}
use odin_memory_allocator.Tests.Bins.{chunk, memory, unlinked}

top_serves : TopServes unlinked 64
top_serves = record {
  aligned = refl;
  top_sized = refl;
  sized = refl;
  least = omega arith;
  room = omega arith;
  within = omega arith;
}

alloc_top_lem_example : alloc_top 64 unlinked ≡ (0x12018, cut 64 unlinked)
alloc_top_lem_example = alloc_top_lem unlinked 64 top_serves

in_segment : TopInSegment unlinked 64
in_segment = record {
  pooled = omega arith;
  least = omega arith;
  last = omega arith;
  segment = omega arith;
}

free-alloc_top_example :
    let (mem, t) = alloc_top 64 unlinked in
    (free 0 mem t >>= λ r. some (outside r.1)) ≡ some (0x12010, 0xDFF0, 0xDFF1, 0, 0, 0)
free-alloc_top_example = free-alloc_top unlinked 64 top_serves in_segment 0 (omega arith)

-- The chunk of 16 bytes in use, right before the top.
abbrev allocated : Space
allocated = record unlinked { mem = store (chunk + 4) 19 (store (chunk + 20) 0xDFF1 (λ a. 0)) }

before_top : BeforeTop allocated chunk 16
unfolding store
before_top = record {
  aligned = refl;
  sized = refl;
  some_bytes = omega arith;
  head = refl;
  behind = refl;
  top_head = refl;
  top_sized = refl;
  within = omega arith;
  pooled = omega arith;
  least = omega arith;
  last = omega arith;
  segment = omega arith;
}

free-IsJoined_example :
    (emptied : Bool) × (t : Space) × (free 0 (chunk + 8) allocated ≡ some (emptied, t))
    × IsJoined allocated t chunk 16
free-IsJoined_example = free-IsJoined allocated chunk 16 before_top 0 (omega arith)

-- A designated victim of 64 bytes.
abbrev with_victim : Space
with_victim = record unlinked { dv = chunk; dv_size = 64; top = 0x12040; top_size = 0xDFC0 }

victim_serves : VictimServes with_victim 16
victim_serves = record {
  aligned = refl;
  dv_sized = refl;
  sized = refl;
  least = omega arith;
  room = omega arith;
  within = omega arith;
}

alloc_dv_lem_example : alloc_dv 16 with_victim ≡ (0x12008, victim_cut 16 with_victim)
alloc_dv_lem_example = alloc_dv_lem with_victim 16 victim_serves

-- Bin 6 holds the chunk, and bin 2 is empty.
abbrev next_bin : Space
next_bin = record unlinked { small_map = 64; mem = store 0x10058 chunk memory }

words : IsWords next_bin.mem
words = store-IsWords _ _ _ (omega arith) (store-IsWords _ _ _ (omega arith) (λ a. omega arith))

alloc_next_bin_reads_free_example :
    let (mem, t) = alloc_next_bin 16 next_bin in is_inuse t.mem (memory_to_chunk mem) ≡ false
alloc_next_bin_reads_free_example = alloc_next_bin_reads_free next_bin 16 words refl refl

segment : Segment 500 0x10000 0x10000
segment = record {
  mapped = omega arith;
  aligned = refl;
  sized = refl;
  room = omega arith;
  within = omega arith;
}

init_memory_space_well_formed_example :
    (s : Space) × (init_memory_space 500 1234 0x10000 0x10000 0x10000 0x10000 8192 (λ a. 0) []
      ≡ some s)
    × IsBins s (λ i. [])
    × TopServes s 64
    × (s.self ≡ 0x10008)
init_memory_space_well_formed_example =
    init_memory_space_well_formed 500 1234 0x10000 0x10000 0x10000 0x10000 8192 (λ a. 0) [] segment
      64 refl (omega arith) (omega arith)

set_size_inuse_pinuse_reads_back_example :
    let after = set_size_inuse_pinuse 0x10008 chunk 16 memory in
    (chunk_size after chunk ≡ 16)
    × (is_inuse after chunk ≡ true)
    × (get_pinuse after chunk ≡ get_pinuse memory chunk)
    × (next_pinuse after chunk ≡ 1)
    × (get_memory_space_addr after (chunk + 8) ≡ 0x10008)
    × (get_usable_size after (chunk + 8) ≡ 16 - chunk_overhead)
set_size_inuse_pinuse_reads_back_example =
    set_size_inuse_pinuse_reads_back 0x10008 chunk 16 memory refl (omega arith) (omega arith)

fits : Fits allocated chunk 16 16
unfolding chunk_size store
fits = record {
  aligned = refl;
  within = omega arith;
  size = refl;
  sized = refl;
  least = omega arith;
  enough = omega arith;
  tight = omega arith;
}

request_52 : chunk_request 52 ≡ 64
unfolding chunk_request pad_request
request_52 = refl

alloc_cuts_top_example :
    alloc (λ calls call. 0) 0 52 unlinked ≡ some (0x12018, cut (chunk_request 52) unlinked)
alloc_cuts_top_example =
    alloc_cuts_top (λ calls call. 0) unlinked 52 (omega arith) refl refl
      (subst (TopServes unlinked) (sym request_52) top_serves) 0

-- ===== src/Tests/General.antt =====
-- A general allocator with one memory space, for requests of 16 to 23 bytes.
use odin_memory_allocator.Base.{
  ◌≡◌, ◌≢◌, ℕ, refl, sym, subst, arith, some, none, [], if◌then◌else◌, ◌==◌,
}
use odin_memory_allocator.SysAlloc.{VirtualMemory}
use odin_memory_allocator.Chunk.{pad_request}
use odin_memory_allocator.Space.{Space}
use odin_memory_allocator.Alloc.{chunk_request}
use odin_memory_allocator.Alloc.Top.{TopServes}
use odin_memory_allocator.Free.RoundTrip.{TopInSegment, outside}
use odin_memory_allocator.GeneralAllocator.{General, instance_index, allocate, deallocate, entered}
use odin_memory_allocator.GeneralAllocator.RoundTrip.{Ready, deallocate-allocate}
use odin_memory_allocator.Tests.Bins.{unlinked}

abbrev one_space : General
one_space = record {
  space = λ i. if i == 2 then some unlinked else none;
  mem = unlinked.mem;
  calls = [];
}

request_20 : chunk_request 20 ≡ 32
unfolding chunk_request pad_request
request_20 = refl

top_serves : TopServes (entered unlinked one_space) 32
top_serves = record {
  aligned = refl;
  top_sized = refl;
  sized = refl;
  least = omega arith;
  room = omega arith;
  within = omega arith;
}

in_segment : TopInSegment (entered unlinked one_space) 32
in_segment = record {
  pooled = omega arith;
  least = omega arith;
  last = omega arith;
  segment = omega arith;
}

ready : Ready one_space 20 unlinked
unfolding instance_index
ready = record {
  there = refl;
  below = omega arith;
  alone = λ j ne. ground (arith, ne);
  mapped = omega arith;
  no_bins = refl;
  no_victim = refl;
  apart = omega arith;
  request = omega arith;
  serves = subst (TopServes (entered unlinked one_space)) (sym request_20) top_serves;
  inside = subst (TopInSegment (entered unlinked one_space)) (sym request_20) in_segment;
}

abbrev silent : VirtualMemory
silent calls call = 0

deallocate-allocate_example :
    (g1 : General) × (g2 : General) × (t : Space) × (allocate 500 1234 silent 0 20 8 0 one_space
      ≡ some (0x12018, g1))
    × (deallocate 0 0x12018 g1 ≡ some g2)
    × (g2.space (instance_index 20) ≡ some t)
    × (outside t ≡ (0x12010, 0xDFF0, 0xDFF1, 0, 0, 0))
    × ((j : ℕ) → j ≢ instance_index 20 → g2.space j ≡ one_space.space j)
deallocate-allocate_example = deallocate-allocate 500 1234 silent one_space 20 unlinked ready 0

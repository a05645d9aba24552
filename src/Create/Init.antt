-- ===== src/Create/Init.antt =====
-- A new memory space is well formed: empty bins, and a top chunk that is ready to be cut.
use odin_memory_allocator.Base.{
  ℕ, zero, suc, ◌+◌, ◌-◌, ◌*◌, ◌/◌, ◌%◌, ◌≤◌, ◌<◌, ◌^◌, ◌≡◌, refl, sym, ap, ◌∙◌, arith, [], subst,
  true, not32, bit_and, bit_xor, some, ◌!=◌, add32, sub32, shl32, bit_or, dec_lt,
}
use odin_memory_allocator.Base.Bits.{test_bit-zero}
use odin_memory_allocator.Memory.{Memory, store, store_self}
use odin_memory_allocator.SysAlloc.{Calls}
use odin_memory_allocator.Chunk.{pad_request, alignment_offset, next_chunk, chunk_size}
use odin_memory_allocator.Chunk.Sizes.{pad_request_lem, alignment_offset_lem}
use odin_memory_allocator.Chunk.Heads.{chunk_size_lem, or_bits}
use odin_memory_allocator.Space.{Space, small_bin_at}
use odin_memory_allocator.SmallBin.Ring.{Links}
use odin_memory_allocator.SmallBin.Inv.{IsBins}
use odin_memory_allocator.Alloc.Top.{TopServes}
use odin_memory_allocator.Create.{link_bins, init_memory_space}

twice : (i : ℕ) → i < 32 → shl32 i 1 ≡ 2 * i
twice i h = omega (arith, h)

link_bins-self : (k : ℕ) (s : Space) → (link_bins k s).self ≡ s.self
unfolding link_bins
link_bins-self zero s = refl
link_bins-self (suc k) s = link_bins-self k s

link_bins-small_map : (k : ℕ) (s : Space) → (link_bins k s).small_map ≡ s.small_map
unfolding link_bins
link_bins-small_map zero s = refl
link_bins-small_map (suc k) s = link_bins-small_map k s

link_bins-top : (k : ℕ) (s : Space) → (link_bins k s).top ≡ s.top
unfolding link_bins
link_bins-top zero s = refl
link_bins-top (suc k) s = link_bins-top k s

link_bins-top_size : (k : ℕ) (s : Space) → (link_bins k s).top_size ≡ s.top_size
unfolding link_bins
link_bins-top_size zero s = refl
link_bins-top_size (suc k) s = link_bins-top_size k s

link_bins-Links :
    (k : ℕ) (s : Space)
    → k ≤ 32
    → (i : ℕ) → i < k
    → Links (link_bins k s).mem (small_bin_at s i) [] (small_bin_at s i)
unfolding link_bins small_bin_at store
link_bins-Links zero s small i h = absurd (omega (arith, h))
link_bins-Links (suc k) s small i h =
    rw (link_bins-self k s, twice k (omega (arith, small)), twice i (omega (arith, small, h)))
      (elim (dec_lt i k) [
        | yes earlier ↦ ground (
          arith,
          earlier,
          link_bins-Links k s (omega (arith, small)) i earlier,
          twice i (omega (arith, small, h)),
        )
        | no last ↦ ground (arith, h, last)
      ])

pub link_bins-IsBins :
    (s : Space) → s.self % 8 ≡ 0 → s.small_map ≡ 0 → IsBins (link_bins 32 s) (λ i. [])
unfolding small_bin_at
link_bins-IsBins s aligned map = record {
  aligned = rw (link_bins-self 32 s) aligned;
  bin = λ i h. record {
    links =
        subst (λ b. Links (link_bins 32 s).mem b [] b) (sym (bin_kept i))
          (link_bins-Links 32 s (omega arith) i h);
    outside = tt;
    distinct = tt;
    sizes = tt;
    marked = rw (link_bins-small_map 32 s, map) (test_bit-zero i);
  };
  headers = λ i j hi hj. tt;
  apart = λ i j hi hj ne. tt;
}
  where
    bin_kept : (i : ℕ) → small_bin_at (link_bins 32 s) i ≡ small_bin_at s i
    bin_kept i = ap (λ a. a + 24 + 4 * shl32 i 1) (link_bins-self 32 s)

-- A segment that holds the structure and the least chunk, on a multiple of the alignment.
pub record Segment (sizeof_space base size : ℕ) : Type 0 where
  pub mapped : 0 < base
  pub aligned : base % 8 ≡ 0
  pub sized : size % 8 ≡ 0
  pub room : sizeof_space + 32 ≤ size
  pub within : base + size + 32 < 2 ^ 32

module _ (sizeof_space tick base size page granularity threshold : ℕ) (m : Memory) (calls : Calls)
    (g : Segment sizeof_space base size) where
  abbrev space_size : ℕ
  space_size = (sizeof_space + 15) / 8 * 8

  padded : pad_request sizeof_space ≡ space_size
  padded = pad_request_lem sizeof_space (omega (arith, g.room, g.within))

  offset0 : (a : ℕ) → a % 8 ≡ 0 → alignment_offset a ≡ 0
  offset0 a e = omega (arith, alignment_offset_lem a, e)

  head0 : bit_or space_size 3 ≡ space_size + 3
  head0 = or_bits space_size 3 (omega arith) (omega arith)

  abbrev with_head : Memory
  with_head = store (base + 4) (space_size + 3) m

  next0 : next_chunk with_head base ≡ base + space_size
  unfolding next_chunk chunk_size
  next0 = ap (λ n. (base + n) % 2 ^ 32) size0 ∙ omega (arith, g.room, g.within)
    where
      size0 : chunk_size with_head base ≡ space_size
      size0 = omega (
        arith,
        chunk_size_lem with_head base
            (omega (arith, store_self (base + 4) (space_size + 3) m, g.room, g.within)),
        store_self (base + 4) (space_size + 3) m,
      )

  abbrev fresh : Space
  fresh = record {
    mem = with_head;
    self = base + 8;
    small_map = 0;
    tree_map = 0;
    dv = 0;
    top = base + space_size;
    dv_size = 0;
    top_size = size - space_size;
    magic = bit_and (bit_or (bit_xor tick 0x55555555) 8) (not32 7);
    least_addr = base;
    curr_page_index = 1;
    page_size = page;
    segment_granularity = granularity;
    segment_threshold = threshold;
    footprint = size;
    max_footprint = size;
    calls = calls;
    failed = 0;
  }

  self0 : (base + 8) % 2 ^ 32 ≡ base + 8
  self0 = omega (arith, g.within)

  base0 : (base + 0) % 2 ^ 32 ≡ base
  base0 = omega (arith, g.within)

  back0 : (base + 8 + 2 ^ 32 - 8) % 2 ^ 32 ≡ base
  back0 = omega (arith, g.within)

  not_null : (base != 0) ≡ true
  not_null = ground (arith, g.mapped)

  memory_top : (base + space_size + 8) % 2 ^ 32 ≡ base + space_size + 8
  memory_top = omega (arith, g.room, g.within)

  top0 : (base + space_size + 0) % 2 ^ 32 ≡ base + space_size
  top0 = omega (arith, g.room, g.within)

  top_size0 : sub32 (sub32 (add32 base size) (base + space_size)) 0 ≡ size - space_size
  top_size0 = omega (arith, g.room, g.within)

  init_lem :
      init_memory_space sizeof_space tick base size page granularity threshold m calls
      ≡ some (link_bins 32 fresh)
  unfolding init_memory_space
  init_lem = rw (
    padded,
    self0,
    offset0 (base + 8) (omega (arith, g.aligned)),
    base0,
    self0,
    back0,
    head0,
    next0,
    not_null,
    memory_top,
    offset0 (base + space_size + 8) (omega (arith, g.aligned)),
    top0,
    top_size0,
  )

  top_serves :
      (nb : ℕ) → nb % 8 ≡ 0 → 16 ≤ nb → nb + space_size < size → TopServes (link_bins 32 fresh) nb
  top_serves nb sized least room = record {
    aligned = rw (link_bins-top 32 fresh) (omega (arith, g.aligned));
    top_sized = rw (link_bins-top_size 32 fresh) (omega (arith, g.sized, g.room));
    sized = sized;
    least = least;
    room = rw (link_bins-top_size 32 fresh) (omega (arith, room));
    within =
        rw (link_bins-top 32 fresh, link_bins-top_size 32 fresh) (omega (arith, g.room, g.within));
  }

  -- In a segment that is a multiple of the alignment, holds the structure and 32 bytes more and
  -- does not reach the end of the address space, `initMemorySpace` returns a space behind the
  -- first chunk header whose small bins are all well formed and empty, and whose top serves every
  -- padded request of at least 16 bytes that is smaller than what the structure leaves of the
  -- segment.
  pub init_memory_space_well_formed :
      (nb : ℕ)
      → nb % 8 ≡ 0
      → 16 ≤ nb
      → nb + space_size < size
      → (s : Space) × (init_memory_space sizeof_space tick base size page granularity threshold m
            calls
          ≡ some s)
        × IsBins s (λ i. [])
        × TopServes s nb
        × (s.self ≡ base + 8)
  init_memory_space_well_formed nb sized least room = (
    link_bins 32 fresh,
    init_lem,
    link_bins-IsBins fresh (omega (arith, g.aligned)) refl,
    top_serves nb sized least room,
    link_bins-self 32 fresh,
  )

-- ===== src/Free/RoundTrip.antt =====
-- `free` of the chunk before the top, and of what `alloc` cut off the top.
use odin_memory_allocator.Base.{
  ℕ, ◌+◌, ◌-◌, ◌/◌, ◌≤◌, ◌<◌, ◌^◌, ◌≡◌, ◌≢◌, refl, ap, ◌∙◌, arith, Bool, true, false, some, ltb,
  ◌==◌, if◌then◌else◌, add32, sub32, bit_or,
}
use odin_memory_allocator.Base.Fuel.{◌>>=◌}
use odin_memory_allocator.Chunk.Heads.{or_bits}
use odin_memory_allocator.Memory.{store_self, store_ne}
use odin_memory_allocator.Space.{Space}
use odin_memory_allocator.Alloc.{alloc_top}
use odin_memory_allocator.Alloc.Top.{TopServes, cut, alloc_top_lem, head_cut, rest_cut}
use odin_memory_allocator.Free.{
  free, join_top, decommit_last_page, release_rest, page_start, release_granules,
}
use odin_memory_allocator.SysAlloc.{Calls, decommit_page}
use odin_memory_allocator.Free.Top.{BeforeTop, free_joins_top}

-- The top lies in the segment, whose chunks are freed to the pool.
pub record TopInSegment (s : Space) (nb : ℕ) : Type 0 where
  pub pooled : nb ≤ s.segment_threshold
  pub least : s.least_addr ≤ s.top
  pub last : s.top ≤ s.least_addr + s.footprint
  pub segment : s.least_addr + s.footprint < 2 ^ 32

-- The free memory of a space outside its bins, the head of the top chunk, and the failed checks.
abbrev pub Outside : Type 0
Outside = ℕ × ℕ × ℕ × ℕ × ℕ × ℕ

abbrev pub outside : Space → Outside
outside s = (s.top, s.top_size, s.mem (s.top + 4), s.dv, s.dv_size, s.failed)

-- The two pages steps change only the calls to the system and the page index.
abbrev paged : Calls → ℕ → Space → Space
paged calls index s = record s { calls = calls; curr_page_index = index }

either :
    (b : Bool) (c : Calls) (i : ℕ) (s : Space)
    → (if b then paged c i s else s)
      ≡ paged (if b then c else s.calls) (if b then i else s.curr_page_index) s
either true c i s = refl
either false c i s = refl

called :
    (b : Bool) (c : Calls) (s : Space)
    → (if b then record s { calls = c } else s) ≡ record s { calls = if b then c else s.calls }
called true c s = refl
called false c s = refl

page_calls : Space → Calls
page_calls s =
    if ltb s.top (page_start s) then decommit_page (page_start s) s.page_size s.calls else s.calls

page_index : Space → ℕ
page_index s = if ltb s.top (page_start s) then sub32 s.curr_page_index 1 else s.curr_page_index

decommit_last_page_lem : (s : Space) → decommit_last_page s ≡ paged (page_calls s) (page_index s) s
unfolding decommit_last_page page_calls page_index
decommit_last_page_lem s = either _ _ _ s

granule_calls : Space → Calls
granule_calls s =
    if ltb s.segment_granularity s.top_size
    then release_granules (s.top_size / s.segment_granularity) s.least_addr s.segment_granularity
        s.calls
    else s.calls

release_rest_lem : (s : Space) → release_rest s ≡ record s { calls = granule_calls s }
unfolding release_rest granule_calls
release_rest_lem s = called _ _ s

joined :
    (p nb : ℕ) (s : Space)
    → (p == s.dv) ≡ false
    → outside (join_top p nb s).1
      ≡ (p, add32 s.top_size nb, bit_or (add32 s.top_size nb) 1, s.dv, s.dv_size, s.failed)
unfolding join_top
joined p nb s apart = rw (apart, decommit_last_page_lem, release_rest_lem, store_self) refl

-- The chunk of `nb` bytes at `p` is a part of the top of `t`, which is as `s` elsewhere.
pub record IsJoined (s t : Space) (p nb : ℕ) : Type 0 where
  pub top : t.top ≡ p
  pub top_size : t.top_size ≡ s.top_size + nb
  pub head : t.mem (p + 4) ≡ s.top_size + nb + 1
  pub memory : (a : ℕ) → a ≢ p + 4 → t.mem a ≡ s.mem a
  pub maps : (t.small_map ≡ s.small_map) × (t.tree_map ≡ s.tree_map)
  pub victim : (t.dv ≡ s.dv) × (t.dv_size ≡ s.dv_size)
  pub footprint : t.footprint ≡ s.footprint
  pub failed : t.failed ≡ s.failed

module _ (s : Space) (p nb : ℕ) (b : BeforeTop s p nb) where
  apart : s.dv ≢ p → (p == s.dv) ≡ false
  apart ne = ground arith

  sum : add32 s.top_size nb ≡ s.top_size + nb
  sum = omega (arith, b.within)

  join_top-IsJoined : s.dv ≢ p → IsJoined s (join_top p nb s).1 p nb
  unfolding join_top
  join_top-IsJoined ne =
      rw (apart ne, decommit_last_page_lem, release_rest_lem, sum)
        record {
          top = refl;
          top_size = refl;
          head =
              store_self (p + 4) (bit_or (s.top_size + nb) 1) s.mem
              ∙ or_bits (s.top_size + nb) 1 (omega (arith, b.top_sized, b.sized)) (omega arith);
          memory = λ a other. store_ne (p + 4) (bit_or (s.top_size + nb) 1) a s.mem other;
          maps = (refl, refl);
          victim = (refl, refl);
          footprint = refl;
          failed = refl;
        }

  -- For an aligned chunk in use of `nb` bytes (a multiple of 8 of at least 16, within the
  -- threshold) right before the top that is not the designated victim, behind a chunk in use and
  -- inside the segment, where the head of the top says its size and no address wraps, `free` ends
  -- for every fuel: the top then starts at the chunk and is larger by `nb`, its head holds that
  -- size and the bit for a chunk in use before it, and the rest of the memory, the maps, the
  -- victim, the footprint and the count of failed checks are what they were.
  pub free-IsJoined :
      (fuel : ℕ)
      → s.dv ≢ p
      → (emptied : Bool) × (t : Space) × (free fuel (p + 8) s ≡ some (emptied, t))
        × IsJoined s t p nb
  free-IsJoined fuel ne =
      ((join_top p nb s).0, (join_top p nb s).1, free_joins_top s p nb b fuel, join_top-IsJoined ne)

module _ (s : Space) (nb : ℕ) (h : TopServes s nb) (i : TopInSegment s nb) where
  pub before : BeforeTop (cut nb s) s.top nb
  unfolding cut
  before = record {
    aligned = h.aligned;
    sized = h.sized;
    some_bytes = h.least;
    head = head_cut s nb h;
    behind = refl;
    top_head = rest_cut s nb h;
    top_sized = omega (arith, h.top_sized, h.sized, h.room);
    within = omega (arith, h.within, h.room);
    pooled = i.pooled;
    least = i.least;
    last = i.last;
    segment = i.segment;
  }

  restored_size : add32 (s.top_size - nb) nb ≡ s.top_size
  restored_size = omega (arith, h.room, h.within)

  dv_apart : s.dv ≢ s.top → (s.top == s.dv) ≡ false
  dv_apart ne = ground arith

  pub restored :
      s.dv ≢ s.top
      → outside (join_top s.top nb (cut nb s)).1
        ≡ (s.top, s.top_size, s.top_size + 1, s.dv, s.dv_size, s.failed)
  unfolding cut
  restored ne =
      joined s.top nb (cut nb s) (dv_apart ne)
      ∙ rw (restored_size, or_bits s.top_size 1 h.top_sized (omega arith)) refl

  -- For a padded request that the top chunk serves, in a segment that pools it, with the
  -- designated victim elsewhere: `free` of the memory that `alloc` cut off the top gives back a
  -- space with the same top, top size, designated victim and count of failed checks, whatever the
  -- fuel. The head of the top then holds its size and the bit for a chunk in use before it,
  -- whatever it was.
  pub free-alloc_top :
      (fuel : ℕ)
      → s.dv ≢ s.top
      → let (mem, t) = alloc_top nb s in
        (free fuel mem t >>= λ r. some (outside r.1))
        ≡ some (s.top, s.top_size, s.top_size + 1, s.dv, s.dv_size, s.failed)
  free-alloc_top fuel ne =
      rw (alloc_top_lem s nb h, free_joins_top (cut nb s) s.top nb before fuel)
        (ap some (restored ne))

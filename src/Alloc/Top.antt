-- ===== src/Alloc/Top.antt =====
-- `alloc` from the top chunk, and `free` of what was cut last.
use odin_memory_allocator.Base.{
  ℕ, ◌+◌, ◌-◌, ◌%◌, ◌≤◌, ◌<◌, ◌^◌, ◌≡◌, refl, arith, Bool, true, false, ltb, if◌then◌else◌, add32,
  sub32, bit_or,
}
use odin_memory_allocator.Memory.{Memory, store}
use odin_memory_allocator.Chunk.{set_size_pinuse_of_inuse_chunk}
use odin_memory_allocator.Chunk.Heads.{chunk_size_lem, set_size_pinuse_of_inuse_chunk_lem, or_bits}
use odin_memory_allocator.SysAlloc.{commit_page}
use odin_memory_allocator.Space.{Space}
use odin_memory_allocator.Checks.Passes.{Fits, check_alloced_passes}
use odin_memory_allocator.Alloc.{alloc_top, page_end, commit_next_page}

-- A padded request that the top chunk can serve.
pub record TopServes (s : Space) (nb : ℕ) : Type 0 where
  pub aligned : s.top % 8 ≡ 0
  pub top_sized : s.top_size % 8 ≡ 0
  pub sized : nb % 8 ≡ 0
  pub least : 16 ≤ nb
  pub room : nb < s.top_size
  pub within : s.top + s.top_size + 32 < 2 ^ 32

-- The header words of the chunk that was cut and of the rest.
abbrev pub cut_top : ℕ → Space → Memory
cut_top nb s =
    store (s.top + nb) s.self
      (store (s.top + 4) (nb + 3) (store (s.top + nb + 4) (s.top_size - nb + 1) s.mem))

abbrev committed : Bool → Space → Space
committed past s = record s {
  calls = if past then commit_page (page_end s) s.page_size s.calls else s.calls;
  curr_page_index = if past then add32 s.curr_page_index 1 else s.curr_page_index;
}

abbrev commit_if : Bool → Space → Space
commit_if past s =
    if past
    then record s {
      calls = commit_page (page_end s) s.page_size s.calls;
      curr_page_index = add32 s.curr_page_index 1;
    }
    else s

-- The state after the cut; the next page is committed where the top moved past the committed ones.
unfoldable pub cut : ℕ → Space → Space
cut nb s =
    let past = ltb (page_end s) (s.top + nb) in
    record s {
      mem = cut_top nb s;
      top = s.top + nb;
      top_size = s.top_size - nb;
      calls = if past then commit_page (page_end s) s.page_size s.calls else s.calls;
      curr_page_index = if past then add32 s.curr_page_index 1 else s.curr_page_index;
    }

commits_if : (past : Bool) (s : Space) → commit_if past s ≡ committed past s
commits_if true s = refl
commits_if false s = refl

commit_next_page_lem : (s : Space) → commit_next_page s ≡ committed (ltb (page_end s) s.top) s
unfolding commit_next_page
commit_next_page_lem s = commits_if (ltb (page_end s) s.top) s

module _ (s : Space) (nb : ℕ) (h : TopServes s nb) where
  pub head_cut : (cut nb s).mem (s.top + 4) ≡ nb + 3
  unfolding cut store
  head_cut = ground (arith, h.least, h.sized)

  pub rest_cut : (cut nb s).mem (s.top + nb + 4) ≡ s.top_size - nb + 1
  unfolding cut store
  rest_cut = ground (arith, h.least, h.sized)

  fits : Fits (cut nb s) s.top nb nb
  fits = record {
    aligned = h.aligned;
    within = omega (arith, h.within, h.room);
    size = omega (
      arith,
      chunk_size_lem (cut nb s).mem s.top (omega (arith, head_cut, h.within, h.room)),
      head_cut,
      h.sized,
    );
    sized = h.sized;
    least = h.least;
    enough = omega arith;
    tight = omega arith;
  }

  no_wrap : (s.top + nb) % 2 ^ 32 ≡ s.top + nb
  no_wrap = omega (arith, h.within, h.room)

  memory_of_top : (s.top + 8) % 2 ^ 32 ≡ s.top + 8
  memory_of_top = omega (arith, h.within)

  rest : sub32 s.top_size nb ≡ s.top_size - nb
  rest = omega (arith, h.within, h.room)

  rest_head : bit_or (s.top_size - nb) 1 ≡ s.top_size - nb + 1
  rest_head =
      or_bits (s.top_size - nb) 1 (omega (arith, h.top_sized, h.sized, h.room)) (omega arith)

  mark :
      (m : Memory)
      → set_size_pinuse_of_inuse_chunk s.self s.top nb m
        ≡ store (s.top + nb) s.self (store (s.top + 4) (nb + 3) m)
  mark m =
      set_size_pinuse_of_inuse_chunk_lem s.self s.top nb m h.sized (omega (arith, h.within, h.room))

  -- A padded request of at least 16 bytes that is below the aligned top chunk is served from its
  -- start: the chunk gets a head with both bits and a foot that names the space, the rest stays
  -- the top with its own head, the next page is committed exactly if the new top lies behind the
  -- committed ones, and no check fails.
  pub alloc_top_lem : alloc_top nb s ≡ (s.top + 8, cut nb s)
  unfolding alloc_top cut
  alloc_top_lem = rw (
    no_wrap,
    rest,
    rest_head,
    mark,
    memory_of_top,
    commit_next_page_lem,
    check_alloced_passes (cut nb s) s.top nb nb fits,
  )

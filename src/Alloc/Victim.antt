-- ===== src/Alloc/Victim.antt =====
-- `alloc` from the designated victim.
use odin_memory_allocator.Base.{
  ℕ, ◌+◌, ◌-◌, ◌%◌, ◌≤◌, ◌<◌, ◌^◌, ◌≡◌, arith, Bool-cases, inl, inr, true, false, leb,
  if◌then◌else◌, sub32,
}
use odin_memory_allocator.Memory.{Memory, store}
use odin_memory_allocator.Chunk.{
  chunk_size, set_size_inuse_pinuse, set_size_pinuse_of_inuse_chunk, set_size_pinuse_of_free_chunk,
}
use odin_memory_allocator.Chunk.Heads.{
  chunk_size_lem, set_size_pinuse_of_inuse_chunk_lem, set_size_pinuse_of_free_chunk_lem,
  set_size_inuse_pinuse_lem, marked_inuse,
}
use odin_memory_allocator.Space.{Space}
use odin_memory_allocator.Checks.Passes.{Fits, check_alloced_passes}
use odin_memory_allocator.Alloc.{alloc_dv}

pub record VictimServes (s : Space) (nb : ℕ) : Type 0 where
  pub aligned : s.dv % 8 ≡ 0
  pub dv_sized : s.dv_size % 8 ≡ 0
  pub sized : nb % 8 ≡ 0
  pub least : 16 ≤ nb
  pub room : nb ≤ s.dv_size
  pub within : s.dv + s.dv_size + 32 < 2 ^ 32

-- The victim is cut: its end stays the designated victim, with head and foot.
abbrev pub victim_cut : ℕ → Space → Space
victim_cut nb s =
    let rest = s.dv_size - nb in
    record s {
      mem = store (s.dv + nb) s.self (
          store (s.dv + 4) (nb + 3)
            (store (s.dv + nb + rest) rest (store (s.dv + nb + 4) (rest + 1) s.mem)));
      dv = s.dv + nb;
      dv_size = rest;
    }

-- The victim is used up: the chunk has the padded size, whatever the victim's was.
abbrev pub victim_used : ℕ → Space → Space
victim_used nb s = record s { mem = marked_inuse s.self s.dv nb s.mem; dv = 0; dv_size = 0 }

module _ (s : Space) (nb : ℕ) (h : VictimServes s nb) where
  no_wrap : (s.dv + nb) % 2 ^ 32 ≡ s.dv + nb
  no_wrap = omega (arith, h.within, h.room)

  memory_of_dv : (s.dv + 8) % 2 ^ 32 ≡ s.dv + 8
  memory_of_dv = omega (arith, h.within)

  rest : sub32 s.dv_size nb ≡ s.dv_size - nb
  rest = omega (arith, h.within, h.room)

  rest_mark :
      (m : Memory)
      → set_size_pinuse_of_free_chunk (s.dv + nb) (s.dv_size - nb) m
        ≡ store
            (s.dv + nb + (s.dv_size - nb))
            (s.dv_size - nb)
            (store (s.dv + nb + 4) (s.dv_size - nb + 1) m)
  rest_mark m =
      set_size_pinuse_of_free_chunk_lem s.self (s.dv + nb) (s.dv_size - nb) m
        (omega (arith, h.dv_sized, h.sized, h.room)) (omega (arith, h.within, h.room))

  mark :
      (m : Memory)
      → set_size_pinuse_of_inuse_chunk s.self s.dv nb m
        ≡ store (s.dv + nb) s.self (store (s.dv + 4) (nb + 3) m)
  mark m =
      set_size_pinuse_of_inuse_chunk_lem s.self s.dv nb m h.sized (omega (arith, h.within, h.room))

  mark_all : (m : Memory) → set_size_inuse_pinuse s.self s.dv nb m ≡ marked_inuse s.self s.dv nb m
  mark_all m =
      set_size_inuse_pinuse_lem s.self s.dv nb m h.sized (omega (arith, h.least))
        (omega (arith, h.within, h.room))

  fits : (t : Space) → chunk_size t.mem s.dv ≡ nb → Fits t s.dv nb nb
  fits t e = record {
    aligned = h.aligned;
    within = omega (arith, h.within, h.room);
    size = e;
    sized = h.sized;
    least = h.least;
    enough = omega arith;
    tight = omega arith;
  }

  cut_size : chunk_size (victim_cut nb s).mem s.dv ≡ nb
  unfolding store
  cut_size = omega (
    arith,
    chunk_size_lem (victim_cut nb s).mem s.dv (omega (arith, head, h.within, h.room)),
    head,
    h.sized,
  )
    where
      head : (victim_cut nb s).mem (s.dv + 4) ≡ nb + 3
      head = ground (arith, h.least, h.sized, h.room, h.dv_sized)

  used_size : chunk_size (victim_used nb s).mem s.dv ≡ nb
  unfolding store
  used_size = omega (
    arith,
    chunk_size_lem (victim_used nb s).mem s.dv (omega (arith, head, h.within, h.room)),
    head,
    h.sized,
  )
    where
      head : (victim_used nb s).mem (s.dv + 4) ≡ nb + s.mem (s.dv + 4) % 2 + 2
      head = ground (arith, h.least, h.sized)

  cuts : leb 16 (s.dv_size - nb) ≡ true → alloc_dv nb s ≡ (s.dv + 8, victim_cut nb s)
  unfolding alloc_dv
  cuts e = rw (
    no_wrap,
    rest,
    e,
    rest_mark,
    mark,
    memory_of_dv,
    check_alloced_passes (victim_cut nb s) s.dv nb nb (fits _ cut_size),
  )

  uses : leb 16 (s.dv_size - nb) ≡ false → alloc_dv nb s ≡ (s.dv + 8, victim_used nb s)
  unfolding alloc_dv
  uses e = rw (
    rest,
    e,
    mark_all,
    memory_of_dv,
    check_alloced_passes (victim_used nb s) s.dv nb nb (fits _ used_size),
  )

  -- A padded request of at least 16 bytes that the aligned designated victim can serve gets its
  -- start. If at least 16 bytes remain they are the new victim, with head and foot; otherwise
  -- there is no victim any more and the chunk has the padded size, not the size of the victim. No
  -- check fails.
  pub alloc_dv_lem :
      alloc_dv nb s
      ≡ (s.dv + 8, if leb 16 (s.dv_size - nb) then victim_cut nb s else victim_used nb s)
  alloc_dv_lem = elim (Bool-cases (leb 16 (s.dv_size - nb))) [
    | inl e ↦ rw e (cuts e)
    | inr e ↦ rw e (uses e)
  ]

-- ===== src/GeneralAllocator/RoundTrip.antt =====
-- GeneralAllocator.cpp: what `allocate` cuts off the top of a space comes back to it by `deallocate`.
use odin_memory_allocator.Base.{
  ℕ, zero, suc, ◌+◌, ◌%◌, ◌≤◌, ◌<◌, ◌^◌, ◌≡◌, ◌≢◌, refl, ap, ◌∙◌, arith, Bool, true, false, Option,
  none, some, dec_lt, ◌==◌, ◌!=◌, ==_iff,
}
use odin_memory_allocator.Base.Fuel.{◌>>=◌}
use odin_memory_allocator.Memory.{null, store_self}
use odin_memory_allocator.SysAlloc.{VirtualMemory}
use odin_memory_allocator.Chunk.{chunk_size, max_request, memory_to_chunk}
use odin_memory_allocator.Space.{Space}
use odin_memory_allocator.Alloc.{chunk_request, Allocated}
use odin_memory_allocator.Alloc.Top.{TopServes, cut, head_cut}
use odin_memory_allocator.Alloc.Fresh.{alloc_cuts_top}
use odin_memory_allocator.AllocAligned.{alloc_aligned}
use odin_memory_allocator.Free.{free, join_top}
use odin_memory_allocator.Free.Top.{free_joins_top}
use odin_memory_allocator.Free.RoundTrip.{TopInSegment, outside, before, restored}
use odin_memory_allocator.Chunk.Heads.{chunk_size_lem}
use odin_memory_allocator.Query.{get_memory_space_addr}
use odin_memory_allocator.GeneralAllocator.{
  Spaces, General, instance_index, is_made, entered, left, within_space, free_in, is_at,
  first_index, deallocate, get_inst_index_from_size, allocate,
}

-- The only space at the address of space `i`.
abbrev pub Alone : Spaces → (i self : ℕ) → Type 0
Alone spaces i self = (j : ℕ) → j ≢ i → is_at self (spaces j) ≡ false

first_index_lem :
    (test : Option Space → Bool) (k i index : ℕ) (spaces : Spaces)
    → i ≤ index
    → index < i + k
    → test (spaces index) ≡ true
    → ((j : ℕ) → j ≢ index → test (spaces j) ≡ false)
    → first_index test k i spaces ≡ some index
unfolding first_index
first_index_lem test zero i index spaces lo hi is others = absurd (omega arith)
first_index_lem test (suc k) i index spaces lo hi is others = elim (dec_lt i index) [
  | yes before ↦
      rw (others i (omega (arith, before)))
        (first_index_lem test k (suc i) index spaces before (omega arith) is others)
  | no there ↦
      let e : i ≡ index = omega (arith, there) in rw (ap (λ j. test (spaces j)) e ∙ is) (ap some e)
]

within_space_lem :
    (i : ℕ) (call : Space → Option Allocated) (g : General) (s : Space)
    → g.space i ≡ some s
    → within_space i call g ≡ (call (entered s g) >>= λ (mem, t). some (mem, left i t g))
unfolding within_space
within_space_lem i call g s there = rw (there, within_space) refl

free_in_lem :
    (fuel i mem : ℕ) (g : General) (s : Space)
    → g.space i ≡ some s
    → free_in fuel i mem g ≡ (free fuel mem (entered s g) >>= λ (emptied, t). some (left i t g))
unfolding free_in
free_in_lem fuel i mem g s there = rw (there, free_in) refl

-- A request of `size` bytes goes to the space `s`, whose bins are empty and whose top serves it.
pub record Ready (g : General) (size : ℕ) (s : Space) : Type 0 where
  pub there : g.space (instance_index size) ≡ some s
  pub below : instance_index size < 21
  pub alone : Alone g.space (instance_index size) s.self
  pub mapped : s.self ≢ null
  pub no_bins : s.small_map ≡ 0
  pub no_victim : s.dv_size ≡ 0
  pub apart : s.dv ≢ s.top
  pub request : size ≤ max_request
  pub serves : TopServes (entered s g) (chunk_request size)
  pub inside : TopInSegment (entered s g) (chunk_request size)

cut-self : (s : Space) (nb : ℕ) → (cut nb s).self ≡ s.self
unfolding cut
cut-self s nb = refl

cut_foot : (s : Space) (nb : ℕ) → (cut nb s).mem (s.top + nb) ≡ s.self
unfolding cut
cut_foot s nb = store_self (s.top + nb) s.self _

module _ (sizeof_space tick : ℕ) (os : VirtualMemory) (g : General) (size : ℕ) (s : Space)
    (h : Ready g size s) where
  abbrev nb : ℕ
  nb = chunk_request size

  abbrev i : ℕ
  i = instance_index size

  abbrev e : Space
  e = entered s g

  abbrev handed : General
  handed = left i (cut nb e) g

  found : get_inst_index_from_size sizeof_space tick os size g ≡ (some i, g)
  unfolding get_inst_index_from_size
  found = rw (ap is_made h.there) refl

  cuts : (fuel : ℕ) → alloc_aligned os fuel 8 size 0 e ≡ some (s.top + 8, cut nb e)
  unfolding alloc_aligned
  cuts fuel = alloc_cuts_top os e size h.request h.no_bins h.no_victim h.serves fuel

  allocated : (fuel : ℕ) → allocate sizeof_space tick os fuel size 8 0 g ≡ some (s.top + 8, handed)
  unfolding allocate
  allocated fuel =
      ap in_space found
      ∙ within_space_lem i (alloc_aligned os fuel 8 size 0) g s h.there
      ∙ rw (cuts fuel) refl
    where
      in_space : Option ℕ × General → Option (ℕ × General)
      in_space (index, g1) = elim index [
        | none ↦ some (null, g1)
        | some i ↦ within_space i (alloc_aligned os fuel 8 size 0) g1
      ]

  footer : get_memory_space_addr handed.mem (s.top + 8) ≡ s.self
  unfolding get_memory_space_addr
  footer = rw (at_chunk, sized, no_wrap) (cut_foot e nb)
    where
      at_chunk : memory_to_chunk (s.top + 8) ≡ s.top
      at_chunk = omega (arith, h.serves.within)

      sized : chunk_size (cut nb e).mem s.top ≡ nb
      sized = omega (
        arith,
        chunk_size_lem (cut nb e).mem s.top
            (omega (arith, head_cut e nb h.serves, h.serves.within, h.serves.room)),
        head_cut e nb h.serves,
        h.serves.sized,
      )

      no_wrap : (s.top + nb) % 2 ^ 32 ≡ s.top + nb
      no_wrap = omega (arith, h.serves.within, h.serves.room)

  owner : first_index (is_at s.self) 21 0 handed.space ≡ some i
  owner = first_index_lem (is_at s.self) 21 0 i handed.space (omega arith) h.below here others
    where
      here : is_at s.self (handed.space i) ≡ true
      here = rw ((==_iff i i).1 refl, cut-self e nb) ((==_iff s.self s.self).1 refl)

      others : (j : ℕ) → j ≢ i → is_at s.self (handed.space j) ≡ false
      others j ne = rw (apart j ne) (h.alone j ne)
        where
          apart : (j : ℕ) → j ≢ i → (j == i) ≡ false
          apart j ne = ground arith

  abbrev given_back : Space
  given_back = (join_top s.top nb (cut nb e)).1

  freed : (fuel : ℕ) → free_in fuel i (s.top + 8) handed ≡ some (left i given_back handed)
  freed fuel =
      free_in_lem fuel i (s.top + 8) handed (cut nb e) there
      ∙ rw (free_joins_top (cut nb e) s.top nb (before e nb h.serves h.inside) fuel) refl
    where
      there : handed.space i ≡ some (cut nb e)
      there = rw ((==_iff i i).1 refl) refl

  deallocated : (fuel : ℕ) → deallocate fuel (s.top + 8) handed ≡ some (left i given_back handed)
  unfolding deallocate
  deallocated fuel = rw (footer, mapped, not_null, owner) (freed fuel)
    where
      mapped : (s.self != null) ≡ true
      mapped = ground (arith, h.mapped)

      not_null : (s.top + 8 != null) ≡ true
      not_null = ground arith

  -- Where the space of the index of a request up to `kMaxRequest` is made, stands at an address
  -- that no other space has, has empty small bins and no designated victim, and its top serves the
  -- padded request and lies in the segment, which pools it: `allocate` at alignment 8 and offset 0
  -- gives the memory at the start of the top, and `deallocate` of it finds that space by the
  -- footer. The space then has the top, the top size, the victim and the count of failed checks
  -- that it had, and a head of the top of that size, and the spaces at all other indices are
  -- untouched, whatever the fuel and the answers of the system.
  pub deallocate-allocate :
      (fuel : ℕ)
      → (g1 : General) × (g2 : General) × (t : Space) × (allocate sizeof_space tick os fuel size 8 0
            g
          ≡ some (s.top + 8, g1))
        × (deallocate fuel (s.top + 8) g1 ≡ some g2)
        × (g2.space (instance_index size) ≡ some t)
        × (outside t ≡ (s.top, s.top_size, s.top_size + 1, s.dv, s.dv_size, s.failed))
        × ((j : ℕ) → j ≢ instance_index size → g2.space j ≡ g.space j)
  deallocate-allocate fuel = (
    handed,
    left i given_back handed,
    given_back,
    allocated fuel,
    deallocated fuel,
    rw ((==_iff i i).1 refl) refl,
    restored e nb h.serves h.inside h.apart,
    λ j ne. untouched j ne,
  )
    where
      apart : (j : ℕ) → j ≢ i → (j == i) ≡ false
      apart j ne = ground arith

      untouched : (j : ℕ) → j ≢ i → (left i given_back handed).space j ≡ g.space j
      untouched j ne = rw (apart j ne) refl

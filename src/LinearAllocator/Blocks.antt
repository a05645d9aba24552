-- ===== src/LinearAllocator/Blocks.antt =====
-- Where the linear allocator puts its blocks.
use odin_memory_allocator.Base.{
  ℕ, ◌+◌, ◌-◌, ◌*◌, ◌/◌, ◌%◌, ◌≤◌, ◌<◌, ◌^◌, ◌≡◌, refl, ap, ◌∙◌, arith, true, false, leb, ◌==◌,
  bit_and,
}
use odin_memory_allocator.Base.Bits.{bit_and_mask, bit_and-clear_low}
use odin_memory_allocator.Memory.{store, store_self}
use odin_memory_allocator.LinearAllocator.{Linear, place, allocate, get_alloc_size}

-- Without a wrap, a block is placed at the least address at or behind `current` that is right for
-- the alignment 8.
place_lem :
    (current offset : ℕ)
    → current + offset + 7 < 2 ^ 32
    → place current 8 offset ≡ (current + offset + 7) / 8 * 8 - offset
unfolding place
place_lem current offset h =
    omega (arith, bit_and-clear_low 3 29 (((current + offset) % 2 ^ 32 + 7) % 2 ^ 32) (omega arith))

-- A request at the default alignment and no offset that the block has room for.
pub record Room (l : Linear) (size : ℕ) : Type 0 where
  pub start : l.start ≤ l.current
  pub segment : l.start + l.size + 32 < 2 ^ 32
  pub room : l.current + 8 + size < l.start + l.size

module _ (l : Linear) (size : ℕ) (r : Room l size) where
  abbrev user : ℕ
  user = (l.current + 11) / 8 * 8 - 4

  placed : place l.current 8 4 ≡ user
  placed = place_lem l.current 4 (omega (arith, r.room, r.segment)) ∙ omega arith

  end : (l.start + l.size) % 2 ^ 32 ≡ l.start + l.size
  end = omega (arith, r.segment)

  current : (user + size) % 2 ^ 32 ≡ user + size
  current = omega (arith, r.room, r.segment)

  ptr : (user + 4) % 2 ^ 32 ≡ user + 4
  ptr = omega (arith, r.room, r.segment)

  room : leb (l.start + l.size) (user + size) ≡ false
  room = ground (arith, r.room)

  aligned : (bit_and (user + 4) 7 == 0) ≡ true
  aligned = ground (arith, bit_and_mask 3 (user + 4))

  pub allocate_lem :
      allocate size 8 0 l
      ≡ (user + 4, record l { mem = store user size l.mem; current = user + size })
  unfolding allocate
  allocate_lem = rw (placed, end, current, ptr, room, aligned)

  -- Where the segment has room, a request at alignment 8 and offset 0 gives a multiple of 8 at
  -- most 11 bytes behind the current address and at least 4, the size can be read back, the
  -- current address is then 4 bytes before the end of the block, and no check fails.
  pub allocate_block :
      let (ptr, l1) = allocate size 8 0 l in
      (ptr % 8 ≡ 0)
      × (l.current + 4 ≤ ptr)
      × (ptr < l.current + 12)
      × (l1.current + 4 ≡ ptr + size)
      × (get_alloc_size l1 ptr ≡ size)
      × (l1.failed ≡ l.failed)
  unfolding get_alloc_size
  allocate_block = rw allocate_lem (omega arith, omega arith, omega arith, omega arith, read, refl)
    where
      read : store user size l.mem ((user + 4 + 2 ^ 32 - 4) % 2 ^ 32) ≡ size
      read =
          ap (store user size l.mem) (omega (arith, r.room, r.segment)) ∙ store_self user size l.mem

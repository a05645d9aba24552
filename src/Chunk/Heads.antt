-- ===== src/Chunk/Heads.antt =====
-- Header words as arithmetic, and what each of the writing functions leaves to be read.
use odin_memory_allocator.Base.{
  ℕ, ◌+◌, ◌*◌, ◌/◌, ◌%◌, ◌<◌, ◌^◌, ◌≡◌, ◌↔◌, false, arith, bit_and, bit_or, ap, ◌∙◌,
}
use odin_memory_allocator.Base.Bits.{
  bit_and-clear_low, bit_and_mask, bit_or_fields, bit_and-bit, bit_or-two, bit_or-one, bit_or_comm,
}
use odin_memory_allocator.Memory.{Memory, store, store_ne}
use odin_memory_allocator.Chunk.{
  chunk_size, get_cinuse, get_pinuse, is_inuse, set_size_inuse, set_size_inuse_pinuse,
  set_size_pinuse_of_inuse_chunk, set_size_pinuse_of_free_chunk,
}

module _ (m : Memory) (p : ℕ) where
  pub chunk_size_lem : m (p + 4) < 2 ^ 32 → chunk_size m p ≡ m (p + 4) / 4 * 4
  unfolding chunk_size
  chunk_size_lem h = bit_and-clear_low 2 30 (m (p + 4)) (omega arith)

  pub get_pinuse_lem : get_pinuse m p ≡ m (p + 4) % 2
  unfolding get_pinuse
  get_pinuse_lem = bit_and_mask 1 (m (p + 4))

  pub get_cinuse_lem : get_cinuse m p ≡ m (p + 4) / 2 % 2 * 2
  unfolding get_cinuse
  get_cinuse_lem = bit_and-bit 1 (m (p + 4))

  pub is_inuse_lem : (is_inuse m p ≡ false) ↔ (m (p + 4) % 4 ≡ 1)
  unfolding is_inuse
  is_inuse_lem = ground (arith, bit_and_mask 2 (m (p + 4)))

-- `size | bits` for a size that is a multiple of the alignment.
pub or_bits : (size b : ℕ) → size % 8 ≡ 0 → b < 8 → bit_or size b ≡ size + b
or_bits size b h lt = ground (arith, bit_or_fields 3 (size / 8) b)

pinuse_cinuse : (size : ℕ) → size % 8 ≡ 0 → bit_or (bit_or size 1) 2 ≡ size + 3
pinuse_cinuse size h = ground (arith, or_bits size 1, bit_or-two (size + 1))

kept_pinuse : (h size : ℕ) → size % 8 ≡ 0 → bit_or (bit_or (bit_and h 1) size) 2 ≡ size + h % 2 + 2
kept_pinuse h size e = ground (
  arith,
  bit_and_mask 1 h,
  bit_or_comm (h % 2) size,
  or_bits size (h % 2),
  bit_or-two (size + h % 2),
)

-- What each of the writing functions stores, for a chunk that lies within the address space.
module _ (msp p size : ℕ) (m : Memory) (aligned : size % 8 ≡ 0) (within : p + size < 2 ^ 32) where
  pub set_size_pinuse_of_inuse_chunk_lem :
      set_size_pinuse_of_inuse_chunk msp p size m
      ≡ store (p + size) msp (store (p + 4) (size + 3) m)
  unfolding set_size_pinuse_of_inuse_chunk
  set_size_pinuse_of_inuse_chunk_lem = rw (pinuse_cinuse size aligned, next_address)
    where
      next_address : (p + size) % 2 ^ 32 ≡ p + size
      next_address = omega arith

  pub set_size_pinuse_of_free_chunk_lem :
      set_size_pinuse_of_free_chunk p size m ≡ store (p + size) size (store (p + 4) (size + 1) m)
  unfolding set_size_pinuse_of_free_chunk
  set_size_pinuse_of_free_chunk_lem = rw (or_bits size 1 aligned (omega arith), next_address)
    where
      next_address : (p + size) % 2 ^ 32 ≡ p + size
      next_address = omega arith

-- The chunk after one of at least eight bytes keeps its size and `cinuse` bit.
abbrev pub marked_inuse : ℕ → ℕ → ℕ → Memory → Memory
marked_inuse msp p size m = store (p + size) msp (
    store (p + size + 4) (m (p + size + 4) / 2 * 2 + 1)
      (store (p + 4) (size + m (p + 4) % 2 + 2) m))

module _ (msp p size : ℕ) (m : Memory) (aligned : size % 8 ≡ 0) (some_bytes : 0 < size)
    (within : p + size < 2 ^ 32) where
  next_address : (p + size) % 2 ^ 32 ≡ p + size
  next_address = omega arith

  next_head : (v : ℕ) → bit_or (store (p + 4) v m (p + size + 4)) 1 ≡ m (p + size + 4) / 2 * 2 + 1
  next_head v =
      ap (λ h. bit_or h 1) (store_ne (p + 4) v (p + size + 4) m (omega arith))
      ∙ bit_or-one (m (p + size + 4))

  pub set_size_inuse_lem : set_size_inuse msp p size m ≡ marked_inuse msp p size m
  unfolding set_size_inuse
  set_size_inuse_lem = rw (next_address, kept_pinuse (m (p + 4)) size aligned, next_head)

  pub set_size_inuse_pinuse_lem : set_size_inuse_pinuse msp p size m ≡ marked_inuse msp p size m
  unfolding set_size_inuse_pinuse
  set_size_inuse_pinuse_lem = rw (next_address, kept_pinuse (m (p + 4)) size aligned, next_head)

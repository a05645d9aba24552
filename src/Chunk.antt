-- ===== src/Chunk.antt =====
-- MemAlloc.cpp, chunks: constants, request sizes, the fields of a chunk, header words and the
-- functions that read and write them. A chunk pointer is its address. On Win32 a chunk has
-- `prev_foot` at 0, `head` at 4, `fd` at 8 and `bk` at 12, and a tree chunk goes on with `child[2]`
-- at 16 and 20, `parent` at 24 and `index` at 28.
pub mod Sizes
pub mod Heads
use odin_memory_allocator.Base.{
  ℕ, ◌+◌, ◌-◌, Bool, ltb, ◌==◌, ◌!=◌, if◌then◌else◌, add32, sub32, neg32, not32, shl32, word_size,
  bit_and, bit_or,
}
use odin_memory_allocator.Memory.{Memory, store}

abbrev pub default_alignment : ℕ
default_alignment = 8

abbrev pub alignment_mask : ℕ
alignment_mask = default_alignment - 1

abbrev pub chunk_overhead : ℕ
chunk_overhead = shl32 word_size 1

abbrev pub pinuse_bit : ℕ
pinuse_bit = 0x1

abbrev pub cinuse_bit : ℕ
cinuse_bit = 0x2

abbrev pub inuse_bits : ℕ
inuse_bits = bit_or pinuse_bit cinuse_bit

-- `sizeof(MemoryChunk)`: two words and two pointers.
abbrev pub sizeof_memory_chunk : ℕ
sizeof_memory_chunk = 16

abbrev pub min_chunk_size : ℕ
min_chunk_size = bit_and (sizeof_memory_chunk + alignment_mask) (not32 alignment_mask)

abbrev pub max_request : ℕ
max_request = shl32 (neg32 min_chunk_size) 2

abbrev pub min_request : ℕ
min_request = min_chunk_size - chunk_overhead - 1

unfoldable pub pad_request : ℕ → ℕ
pad_request size = bit_and (add32 (add32 size chunk_overhead) alignment_mask) (not32 alignment_mask)

unfoldable pub request_to_size : ℕ → ℕ
request_to_size size = if ltb size min_chunk_size then min_chunk_size else pad_request size

-- The fields.
abbrev pub prev_foot : Memory → ℕ → ℕ
prev_foot m p = m p

abbrev pub head : Memory → ℕ → ℕ
head m p = m (p + 4)

abbrev pub fd : Memory → ℕ → ℕ
fd m p = m (p + 8)

abbrev pub bk : Memory → ℕ → ℕ
bk m p = m (p + 12)

abbrev pub set_prev_foot : ℕ → ℕ → Memory → Memory
set_prev_foot p v = store p v

abbrev pub set_head : ℕ → ℕ → Memory → Memory
set_head p v = store (p + 4) v

abbrev pub set_fd : ℕ → ℕ → Memory → Memory
set_fd p v = store (p + 8) v

abbrev pub set_bk : ℕ → ℕ → Memory → Memory
set_bk p v = store (p + 12) v

unfoldable pub chunk_size : Memory → ℕ → ℕ
chunk_size m p = bit_and (head m p) (not32 inuse_bits)

abbrev pub chunk_plus_offset : ℕ → ℕ → ℕ
chunk_plus_offset p offset = add32 p offset

abbrev pub chunk_minus_offset : ℕ → ℕ → ℕ
chunk_minus_offset p offset = sub32 p offset

unfoldable pub next_chunk : Memory → ℕ → ℕ
next_chunk m p = add32 p (bit_and (head m p) (not32 inuse_bits))

unfoldable pub previous_chunk : Memory → ℕ → ℕ
previous_chunk m p = sub32 p (prev_foot m p)

unfoldable pub is_aligned : ℕ → Bool
is_aligned a = bit_and a alignment_mask == 0

unfoldable pub alignment_offset : ℕ → ℕ
alignment_offset a =
    if bit_and a alignment_mask == 0
    then 0
    else bit_and (sub32 default_alignment (bit_and a alignment_mask)) alignment_mask

abbrev pub chunk_to_memory : ℕ → ℕ
chunk_to_memory p = add32 p (shl32 word_size 1)

abbrev pub memory_to_chunk : ℕ → ℕ
memory_to_chunk a = sub32 a (shl32 word_size 1)

abbrev pub ok_next : ℕ → ℕ → Bool
ok_next p next = ltb p next

unfoldable pub get_cinuse : Memory → ℕ → ℕ
get_cinuse m p = bit_and (head m p) cinuse_bit

unfoldable pub get_pinuse : Memory → ℕ → ℕ
get_pinuse m p = bit_and (head m p) pinuse_bit

unfoldable pub is_inuse : Memory → ℕ → Bool
is_inuse m p = bit_and (head m p) inuse_bits != pinuse_bit

unfoldable pub next_pinuse : Memory → ℕ → ℕ
unfolding next_chunk
next_pinuse m p = bit_and (head m (next_chunk m p)) pinuse_bit

-- The functions that write headers. `msp` is the address of the memory space.
unfoldable pub mark_inuse_foot : ℕ → ℕ → ℕ → Memory → Memory
mark_inuse_foot msp p size = set_prev_foot (add32 p size) msp

unfoldable pub mark_inuse_foot_null : ℕ → ℕ → Memory → Memory
mark_inuse_foot_null p size = set_prev_foot (add32 p size) 0

unfoldable pub set_size_inuse : ℕ → ℕ → ℕ → Memory → Memory
unfolding mark_inuse_foot
set_size_inuse msp p size m =
    let m1 = set_head p (bit_or (bit_or (bit_and (head m p) pinuse_bit) size) cinuse_bit) m in
    let next = add32 p size in
    let m2 = set_head next (bit_or (head m1 next) pinuse_bit) m1 in mark_inuse_foot msp p size m2

-- The comment there says that this sets the PINUSE bit of the chunk as well, which the code keeps as it is.
unfoldable pub set_size_inuse_pinuse : ℕ → ℕ → ℕ → Memory → Memory
unfolding mark_inuse_foot
set_size_inuse_pinuse msp p size m =
    let m1 = set_head p (bit_or (bit_or (bit_and (head m p) pinuse_bit) size) cinuse_bit) m in
    let next = add32 p size in
    let m2 = set_head next (bit_or (head m1 next) pinuse_bit) m1 in mark_inuse_foot msp p size m2

unfoldable pub set_size_pinuse_of_inuse_chunk : ℕ → ℕ → ℕ → Memory → Memory
unfolding mark_inuse_foot
set_size_pinuse_of_inuse_chunk msp p size m =
    mark_inuse_foot msp p size (set_head p (bit_or (bit_or size pinuse_bit) cinuse_bit) m)

unfoldable pub set_size_pinuse_of_free_chunk : ℕ → ℕ → Memory → Memory
set_size_pinuse_of_free_chunk p size m =
    set_prev_foot (add32 p size) size (set_head p (bit_or size pinuse_bit) m)

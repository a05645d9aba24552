-- ===== src/Bytes.antt =====
-- Memory by the byte, with words of four bytes, the lowest first: FreeList.cpp reads and writes words
-- at addresses that need not be multiples of 4.
use odin_memory_allocator.Base.{
  ℕ, ◌+◌, ◌*◌, ◌/◌, ◌%◌, ◌^◌, ◌≡◌, ◌≤◌, ◌<◌, ◌⊎◌, arith, ◌==◌, if◌then◌else◌,
}

abbrev pub Bytes : Type 0
Bytes = ℕ → ℕ

unfoldable pub load_word : Bytes → ℕ → ℕ
load_word m a = m a + 256 * m (a + 1) + 65536 * m (a + 2) + 16777216 * m (a + 3)

unfoldable pub store_word : (a v : ℕ) → Bytes → Bytes
store_word a v m b =
    if b == a
    then v % 256
    else if b == a + 1
    then v / 256 % 256
    else if b == a + 2
    then v / 65536 % 256
    else if b == a + 3
    then v / 16777216 % 256
    else m b

pub load_word-store_word : (a v : ℕ) (m : Bytes) → v < 2 ^ 32 → load_word (store_word a v m) a ≡ v
unfolding load_word store_word
load_word-store_word a v m small = ground (arith, small)

pub load_word-store_apart :
    (p v a : ℕ) (m : Bytes)
    → (p + 4 ≤ a) ⊎ (a + 4 ≤ p)
    → load_word (store_word p v m) a ≡ load_word m a
unfolding load_word store_word
load_word-store_apart p v a m apart = ground (arith, apart)

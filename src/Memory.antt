-- ===== src/Memory.antt =====
-- The address space that MemAlloc.cpp and FreeList.cpp write through casted pointers: a word at
-- each byte address. Words at different addresses are taken to be apart, which is exact while all
-- accesses are aligned to `sizeof(size_t)`, as they are in a valid heap.
use odin_memory_allocator.Base.{ℕ, ◌≡◌, ◌≢◌, ◌<◌, ◌^◌, arith, ◌==◌, if◌then◌else◌}

abbrev pub Memory : Type 0
Memory = ℕ → ℕ

abbrev pub null : ℕ
null = 0

unfoldable pub store : ℕ → ℕ → Memory → Memory
store a v m b = if b == a then v else m b

pub store_self : (a v : ℕ) (m : Memory) → store a v m a ≡ v
unfolding store
store_self a v m = ground arith

pub store_ne : (a v b : ℕ) (m : Memory) → b ≢ a → store a v m b ≡ m b
unfolding store
store_ne a v b m ne = ground arith

-- Every cell holds a 32-bit word.
abbrev pub IsWords : Memory → Type 0
IsWords m = (a : ℕ) → m a < 2 ^ 32

pub store-IsWords : (a v : ℕ) (m : Memory) → v < 2 ^ 32 → IsWords m → IsWords (store a v m)
unfolding store
store-IsWords a v m small words b = ground (arith, words b)

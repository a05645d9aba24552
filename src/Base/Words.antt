-- ===== src/Base/Words.antt =====
-- The 32-bit arithmetic of the Win32 build: `size_t`, `uint32` and pointers are words below 2 ^ 32,
-- and every operation wraps.
use Prim.Native.Nat.{ℕ, ◌+◌, ◌-◌, ◌*◌, ◌/◌, ◌%◌, ◌^◌}

abbrev pub word_mod : ℕ
word_mod = 2 ^ 32

abbrev pub u32 : ℕ → ℕ
u32 n = n % 2 ^ 32

abbrev pub add32 : ℕ → ℕ → ℕ
add32 a b = (a + b) % 2 ^ 32

-- `-` on ℕ stops at 0, so the modulus comes first.
abbrev pub sub32 : ℕ → ℕ → ℕ
sub32 a b = (a + 2 ^ 32 - b) % 2 ^ 32

abbrev pub mul32 : ℕ → ℕ → ℕ
mul32 a b = a * b % 2 ^ 32

-- Unary minus on an unsigned word.
abbrev pub neg32 : ℕ → ℕ
neg32 a = (2 ^ 32 - a) % 2 ^ 32

-- `~a`
abbrev pub not32 : ℕ → ℕ
not32 a = 2 ^ 32 - 1 - a

-- `a << k` and `a >> k`. C++ leaves a count of 32 or more undefined; x86 takes it modulo 32.
abbrev pub shl32 : ℕ → ℕ → ℕ
shl32 a k = a * 2 ^ (k % 32) % 2 ^ 32

abbrev pub shr32 : ℕ → ℕ → ℕ
shr32 a k = a / 2 ^ (k % 32)

-- `sizeof(size_t)`, also the size of a pointer.
abbrev pub word_size : ℕ
word_size = 4

-- ===== src/Base/Words.antt =====
-- The integer types of include/lib/types.h on i386: a value is its bit pattern, and the wrap of
-- an operation is written out.
use Prim.Native.Nat.{ℕ, ◌+◌, ◌-◌, ◌*◌, ◌%◌, ◌^◌, ◌≤◌, bit_and}
use native.Mathlib.Omega.{arith}

abbrev pub u8 : ℕ → ℕ
u8 n = n % 2 ^ 8

abbrev pub u16 : ℕ → ℕ
u16 n = n % 2 ^ 16

abbrev pub u32 : ℕ → ℕ
u32 n = n % 2 ^ 32

-- `a + b`, `a - b` and `~a` on `u32`; `-` on ℕ stops at 0, so the modulus is added first.
abbrev pub add32 : ℕ → ℕ → ℕ
add32 a b = (a + b) % 2 ^ 32

abbrev pub sub32 : ℕ → ℕ → ℕ
sub32 a b = (a + 2 ^ 32 - b) % 2 ^ 32

abbrev pub not32 : ℕ → ℕ
not32 a = 2 ^ 32 - 1 - a

-- `1 << k` for a shift below 32.
abbrev pub bit : ℕ → ℕ
bit k = 2 ^ k

-- `NPOS`, the pattern of `(ssize_t)-1`, and `MAX_SSIZE_T`.
abbrev pub npos : ℕ
npos = 2 ^ 32 - 1

abbrev pub max_ssize : ℕ
max_ssize = 2 ^ 31 - 1

-- `MEM_PAGE_SIZE`, and `x & ~(MEM_PAGE_SIZE - 1)`.
abbrev pub page_size : ℕ
page_size = 0x1000

abbrev pub page_base : ℕ → ℕ
page_base x = bit_and x (not32 (page_size - 1))

-- Twice a number is at most its product with a larger factor.
pub double : (n k : ℕ) → 2 ≤ k → n * 2 ≤ n * k
double n k two = grind arith

-- ===== src/Base/Words.antt =====
-- Sums of fixed width. The node is built in release mode (docker/Dockerfile), where they wrap.
use Prim.Native.Nat.{ℕ, ◌+◌, ◌-◌, ◌*◌, ◌%◌, ◌^◌, ◌<◌}
use mathlib.Core.Path.{◌≡◌}
use native.Mathlib.Omega.{arith}

-- `a + b` on `u8`.
unfoldable pub add_u8 : ℕ → ℕ → ℕ
add_u8 a b = (a + b) % 2 ^ 8

-- `a + b` on `u16`.
unfoldable pub add_u16 : ℕ → ℕ → ℕ
add_u16 a b = (a + b) % 2 ^ 16

-- `a + b` on `u32`.
unfoldable pub add_u32 : ℕ → ℕ → ℕ
add_u32 a b = (a + b) % 2 ^ 32

-- `a + b` on `u64`, and on `usize` of the 64-bit targets.
unfoldable pub add_u64 : ℕ → ℕ → ℕ
add_u64 a b = (a + b) % 2 ^ 64

-- `a * b` on `u64`, and on `usize` of the 64-bit targets.
unfoldable pub mul_u64 : ℕ → ℕ → ℕ
mul_u64 a b = (a * b) % 2 ^ 64

-- `a.saturating_sub(b)`, which is the subtraction of the natural numbers.
abbrev pub saturating_sub : ℕ → ℕ → ℕ
saturating_sub a b = a - b

pub add_u8_lt : (a b : ℕ) → a + b < 2 ^ 8 → add_u8 a b ≡ a + b
unfolding add_u8
add_u8_lt a b h = omega arith

pub add_u32_lt : (a b : ℕ) → a + b < 2 ^ 32 → add_u32 a b ≡ a + b
unfolding add_u32
add_u32_lt a b h = omega arith

pub add_u64_lt : (a b : ℕ) → a + b < 2 ^ 64 → add_u64 a b ≡ a + b
unfolding add_u64
add_u64_lt a b h = omega arith

pub mul_u64_lt : (a b : ℕ) → a * b < 2 ^ 64 → mul_u64 a b ≡ a * b
unfolding mul_u64
mul_u64_lt a b h = omega arith

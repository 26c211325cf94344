-- ===== src/Prelude/Words.antt =====
-- Bytes and machine words as native numbers: `b & 0x7f` is `b % 128`, `b & 0x80` is bit 7 as a
-- test, a shift to the left is a product, and wrap-around is `% 2 ^ w`.
use Prim.Native.Nat.{ℕ, ◌-◌, ◌/◌, ◌%◌, ◌^◌, ◌<◌, ◌≤◌}
use mathlib.Core.Path.{◌≡◌}
use mathlib.Core.Bool.{Bool, true, false}
use native.Mathlib.Omega.{arith}
use wespe.Prelude.Tests.{◌==◌, ltb}

abbrev pub IsByte : ℕ → Type 0
IsByte b = b < 256

abbrev pub IsU32 : ℕ → Type 0
IsU32 v = v < 2 ^ 32

abbrev pub IsU64 : ℕ → Type 0
IsU64 v = v < 2 ^ 64

-- `(b & 0x80u) != 0`
abbrev pub top_bit : ℕ → Bool
top_bit b = b / 128 % 2 == 1

-- `(int32_t)w < 0`, where `w` is the bit pattern.
abbrev pub is_negative : ℕ → Bool
is_negative w = ltb (2 ^ 31 - 1) w

pub top_bit_set : (b : ℕ) → IsByte b → 128 ≤ b → top_bit b ≡ true
top_bit_set b hb h = ground arith

pub top_bit_clear : (b : ℕ) → b < 128 → top_bit b ≡ false
top_bit_clear b h = ground arith

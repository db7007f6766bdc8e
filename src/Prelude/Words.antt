-- ===== src/Prelude/Words.antt =====
-- 32-bit words: `uint` and the bit pattern of `int`, with the wrap of the compiled code.
use Prim.Native.Nat.{ℕ, ◌+◌, ◌-◌, ◌%◌, ◌^◌, ◌<◌}
use mathlib.Core.Path.{◌≡◌}
use mathlib.Core.Bool.{Bool}
use native.Mathlib.Omega.{arith}
use pplottery.Prelude.Tests.{ltb, if◌then◌else◌}

abbrev pub add32 : ℕ → ℕ → ℕ
add32 a b = (a + b) % 2 ^ 32

abbrev pub sub32 : ℕ → ℕ → ℕ
sub32 a b = (a + 2 ^ 32 - b) % 2 ^ 32

-- `a < b` of two `int`s, read off their bit patterns.
abbrev pub slt32 : ℕ → ℕ → Bool
slt32 a b = ltb ((a + 2 ^ 31) % 2 ^ 32) ((b + 2 ^ 31) % 2 ^ 32)

-- On patterns of non-negative values the signed test is the plain one.
pub slt32-ltb : (a b : ℕ) → a < 2 ^ 31 → b < 2 ^ 31 → slt32 a b ≡ ltb a b
slt32-ltb a b ha hb = ground arith

-- The pattern of -1.
abbrev pub minus_one : ℕ
minus_one = 2 ^ 32 - 1

-- The 64-bit pattern of an `int`.
abbrev pub sext64 : ℕ → ℕ
sext64 a = if ltb a (2 ^ 31) then a else a + (2 ^ 64 - 2 ^ 32)

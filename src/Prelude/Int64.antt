-- ===== src/Prelude/Int64.antt =====
-- Go's int64 as its bit pattern, a number below 2^64: the sums wrap, and the order is the signed one.
use Prim.Native.Nat.{ℕ, ◌+◌, ◌-◌, ◌%◌, ◌^◌, ◌≤◌, ◌<◌}
use mathlib.Core.Path.{◌≡◌}
use mathlib.Core.Bool.{Bool}
use native.Mathlib.Omega.{arith}
use docker_smartclips.Prelude.Tests.{ltb, leb}

abbrev pub add_i64 : ℕ → ℕ → ℕ
add_i64 a b = (a + b) % 2 ^ 64

abbrev pub sub_i64 : ℕ → ℕ → ℕ
sub_i64 a b = (a + 2 ^ 64 - b) % 2 ^ 64

-- The signed order is the unsigned one with the sign bit flipped.
abbrev pub lt_i64 : ℕ → ℕ → Bool
lt_i64 a b = ltb ((a + 2 ^ 63) % 2 ^ 64) ((b + 2 ^ 63) % 2 ^ 64)

abbrev pub le_i64 : ℕ → ℕ → Bool
le_i64 a b = leb ((a + 2 ^ 63) % 2 ^ 64) ((b + 2 ^ 63) % 2 ^ 64)

-- A number that an int64 holds without a sign.
abbrev pub IsNat64 : ℕ → Type 0
IsNat64 a = a < 2 ^ 63

pub lt_i64_lem : (a b : ℕ) → IsNat64 a → IsNat64 b → lt_i64 a b ≡ ltb a b
lt_i64_lem a b ha hb = ground arith

pub le_i64_lem : (a b : ℕ) → IsNat64 a → IsNat64 b → le_i64 a b ≡ leb a b
le_i64_lem a b ha hb = ground arith

pub add_i64_lem : (a b : ℕ) → IsNat64 (a + b) → add_i64 a b ≡ a + b
add_i64_lem a b h = omega arith

pub sub_i64_lem : (a b : ℕ) → IsNat64 a → b ≤ a → sub_i64 a b ≡ a - b
sub_i64_lem a b h le = omega arith

-- ===== src/Prelude/Bits.antt =====
-- Bytes and machine words: shifts, casts, and `|` and `&` as arithmetic.
use Prim.Native.Nat.{ℕ, zero, suc, ◌+◌, ◌*◌, ◌/◌, ◌%◌, ◌^◌, ◌≤◌, ◌<◌, max, bit_or}
use Prim.Native.Nat.{digits, bit_or-bitwise}
use mathlib.Core.Path.{◌≡◌, refl, ap}
use mathlib.Core.Bool.{Bool, true, ◌&&◌}
use native.Mathlib.Omega.{arith}
use native.Mathlib.Nat.{pow-suc}

-- `x << k` in a word of `w` bits, and `x >> k`.
abbrev pub shl : ℕ → ℕ → ℕ → ℕ
shl w x k = x * 2 ^ k % 2 ^ w

abbrev pub shr : ℕ → ℕ → ℕ
shr x k = x / 2 ^ k

-- `byte(x)`
abbrev pub to_byte : ℕ → ℕ
to_byte x = x % 256

abbrev pub IsByte : ℕ → Type 0
IsByte b = b < 256

-- A test on every number below a bound, by evaluation.
abbrev pub all_below : ℕ → (ℕ → Bool) → Bool
all_below zero p = true
all_below (suc n) p = p n && all_below n p

pub all_below_sound : (n : ℕ) (p : ℕ → Bool) (x : ℕ) → all_below n p ≡ true → x < n → p x ≡ true
all_below_sound zero p x h lt = absurd (omega arith)
all_below_sound (suc n) p x h lt = ground (arith, all_below_sound n p x)

-- `bit_or` recurs on its digits with fuel; more fuel than digits changes nothing.
or_fuel : (n m a b : ℕ) → a ≤ n → a ≤ m → digits (λ y. y) max n a b ≡ digits (λ y. y) max m a b
or_fuel zero zero zero b p q = refl
or_fuel zero (suc m) zero b p q = refl
or_fuel (suc n) zero zero b p q = refl
or_fuel (suc n) (suc m) zero b p q = refl
or_fuel zero m (suc a) b p q = absurd (omega arith)
or_fuel (suc n) zero (suc a) b p q = absurd (omega arith)
or_fuel (suc n) (suc m) (suc a) b p q =
    ap (λ (t : ℕ). t * 2 + max (suc a % 2) (b % 2))
      (or_fuel n m (suc a / 2) (b / 2) (omega arith) (omega arith))

-- The lowest digit of `a | b`.
or_digit : (a b : ℕ) → bit_or a b ≡ bit_or (a / 2) (b / 2) * 2 + max (a % 2) (b % 2)
or_digit zero b = omega (arith, bit_or-bitwise 0 b, bit_or-bitwise 0 (b / 2))
or_digit (suc a) b = omega (
  arith,
  bit_or-bitwise (suc a) b,
  bit_or-bitwise (suc a / 2) (b / 2),
  or_fuel a (suc a / 2) (suc a / 2) (b / 2) (omega arith) (omega arith),
)

or-zero_below : (n a : ℕ) → a ≤ n → bit_or a 0 ≡ a
or-zero_below n zero h = bit_or-bitwise 0 0
or-zero_below zero (suc a) h = absurd (omega arith)
or-zero_below (suc n) (suc a) h =
    omega (arith, or_digit (suc a) 0, or-zero_below n (suc a / 2) (omega arith))

double-pow : (q k : ℕ) → q * 2 ^ suc k ≡ 2 * (q * 2 ^ k)
double-pow q k = omega (arith, ap (λ (t : ℕ). q * t) (pow-suc 2 k))

-- A field of `k` bits laid over `k` zero bits is a sum.
pub or-add : (k q r : ℕ) → r < 2 ^ k → bit_or (q * 2 ^ k) r ≡ q * 2 ^ k + r
or-add zero q r h = ground (arith, or-zero_below q q)
or-add (suc k) q r h = ground (
  arith,
  or_digit (q * 2 ^ suc k) r,
  double-pow q k,
  pow-suc 2 k,
  or-add k q (r / 2) (omega (arith, pow-suc 2 k)),
)

-- `v<<8 | b`: one more byte behind a big-endian number.
pub or_byte : (v b : ℕ) → b < 256 → bit_or (v * 256) b ≡ v * 256 + b
or_byte v b h = or-add 8 v b h

-- The same field below: `r | q<<k`.
pub add-or : (k q r : ℕ) → r < 2 ^ k → bit_or r (q * 2 ^ k) ≡ r + q * 2 ^ k
add-or zero q zero h = ground (arith, bit_or-bitwise 0 q, bit_or-bitwise 0 (q * 1))
add-or zero q (suc r) h = absurd (omega arith)
add-or (suc k) q r h = ground (
  arith,
  or_digit r (q * 2 ^ suc k),
  double-pow q k,
  pow-suc 2 k,
  add-or k q (r / 2) (omega (arith, pow-suc 2 k)),
)

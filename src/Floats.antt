-- ===== src/Floats.antt =====
-- Go's float64, which the language here lacks: a value is its 64 bits, and the operations that the
-- program uses are a parameter.
use docker_smartclips.Prelude.{ℕ, Bool, List, length, ◌==◌, if◌then◌else◌}
use docker_smartclips.Io.{Result, ok, err, float_length}
use docker_smartclips.Ebml.Read.{shift_in}

pub record Floats : Type 0 where
  -- `float64(math.Float32frombits(b))`
  pub of_bits32 : ℕ → ℕ
  -- `float64(u)` of a uint64 and of an int64, `uint64(f)`, `math.Round`
  pub of_uint : ℕ → ℕ
  pub of_int : ℕ → ℕ
  pub to_uint : ℕ → ℕ
  pub round : ℕ → ℕ
  pub add : ℕ → ℕ → ℕ
  pub sub : ℕ → ℕ → ℕ
  pub mul : ℕ → ℕ → ℕ
  pub div : ℕ → ℕ → ℕ
  -- `f < g` and `f <= g`
  pub lt : ℕ → ℕ → Bool
  pub le : ℕ → ℕ → Bool

-- The constants 0 and 1e9.
abbrev pub float_zero : ℕ
float_zero = 0

abbrev pub float_billion : ℕ
float_billion = 0x41cdcd6500000000

module _ (floats : Floats) where
  -- `ebml.Float`
  unfoldable pub float : List ℕ → Result ℕ
  unfolding shift_in
  float b =
      if length b == 0
      then ok float_zero
      else if length b == 4
      then ok (floats.of_bits32 (shift_in 32 0 b))
      else if length b == 8
      then ok (shift_in 64 0 b)
      else err (float_length (length b))

  -- `v, _ := ebml.Float(b)`
  abbrev pub float_or_zero : List ℕ → ℕ
  float_or_zero b = elim (float b) [ ok v ↦ v | err e ↦ float_zero ]

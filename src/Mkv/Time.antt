-- ===== src/Mkv/Time.antt =====
-- `Seconds`, `Ticks`, `DurationSeconds` and `Keyframes` of internal/mkv/mkv.go.
use docker_smartclips.Prelude.{ℕ, List, map, if◌then◌else◌}
use docker_smartclips.Floats.{Floats, float_zero, float_billion}
use docker_smartclips.Mkv.Source.{Source}

module _ (floats : Floats) (s : Source) where
  open floats use {of_uint, to_uint, round, mul, div, le}

  unfoldable pub seconds : ℕ → ℕ
  seconds ticks = div (mul (of_uint ticks) (of_uint s.timestamp_scale)) float_billion

  unfoldable pub ticks : ℕ → ℕ
  ticks sec =
      if le sec float_zero
      then 0
      else to_uint (round (div (mul sec float_billion) (of_uint s.timestamp_scale)))

  unfoldable pub duration_seconds : ℕ
  duration_seconds = div (mul s.duration (of_uint s.timestamp_scale)) float_billion

  unfoldable pub keyframes : List ℕ
  keyframes = map (λ c. seconds c.time) s.cues

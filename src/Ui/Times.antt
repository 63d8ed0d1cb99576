-- ===== src/Ui/Times.antt =====
-- `parseSeconds` of internal/ui/server.go, and the checks of `frame` and `preview` in front of ffmpeg.
-- `strconv.ParseFloat` and `math.IsNaN` are given.
use docker_smartclips.Prelude.{
  ℕ, Bool, false, ◌≡◌, refl, subst, inl, inr, arith, ◌||◌, Option, Bool-cases, Option-cases, none,
  some, if◌then◌else◌,
}
use docker_smartclips.Floats.{Floats, float_zero}
use docker_smartclips.Config.Names.{Text}
use docker_smartclips.Config.Validate.{Resolved, found, unresolved}

-- 48*3600, 30 and 1 as float64s.
abbrev pub two_days : ℕ
two_days = 0x4105180000000000

abbrev pub thirty : ℕ
thirty = 0x403e000000000000

abbrev pub float_one : ℕ
float_one = 0x3ff0000000000000

pub record Parser : Type 0 where
  pub parse_float : Text → Option ℕ
  pub is_nan : ℕ → Bool

-- What ffmpeg is asked for, or which part of the request is refused.
pub data Asked : Type 0 where
  bad_input : ℕ → Asked
  bad_start bad_length : Asked
  frame_of : Text → ℕ → Asked
  preview_of : Text → ℕ → ℕ → Asked

module _ (floats : Floats) (parser : Parser) where
  abbrev pub in_limit : ℕ → Option ℕ → Option ℕ
  in_limit limit none = none
  in_limit limit (some f) =
      if parser.is_nan f || (floats.lt f float_zero || floats.lt limit f) then none else some f

  -- `parseSeconds`; `none` is the error.
  unfoldable pub parse_seconds : Text → ℕ → Option ℕ
  parse_seconds v limit = in_limit limit (parser.parse_float v)

  -- `frame` up to ffmpeg.
  unfoldable pub frame : Resolved → Text → Asked
  frame (unresolved e) t = bad_input e
  frame (found p) t = elim (parse_seconds t two_days) [
    | none ↦ bad_start
    | some time ↦ frame_of p time
  ]

  abbrev pub with_length : Text → ℕ → Option ℕ → Asked
  with_length p start none = bad_length
  with_length p start (some dur) =
      if floats.lt dur float_one then bad_length else preview_of p start dur

  -- `preview` up to ffmpeg.
  unfoldable pub preview : Resolved → Text → Text → Asked
  preview (unresolved e) start dur = bad_input e
  preview (found p) start dur = elim (parse_seconds start two_days) [
    | none ↦ bad_start
    | some time ↦ with_length p time (parse_seconds dur thirty)
  ]

  -- A time that is no NaN, is not negative and is not above the limit.
  pub record IsTime (limit time : ℕ) : Type 0 where
    pub number : parser.is_nan time ≡ false
    pub positive : floats.lt time float_zero ≡ false
    pub bounded : floats.lt limit time ≡ false

  parse_seconds-IsTime :
      (v : Text) (limit : ℕ) (t : ℕ) → parse_seconds v limit ≡ some t → IsTime limit t
  unfolding parse_seconds
  parse_seconds-IsTime v limit t e = at (parser.parse_float v) e
    where
      at : (o : Option ℕ) → in_limit limit o ≡ some t → IsTime limit t
      at none h = absurd (cc)
      at (some f) h =
          elim (Bool-cases (parser.is_nan f || (floats.lt f float_zero || floats.lt limit f))) [
            | inl b ↦ absurd (let x = rw b at h in cc)
            | inr b ↦
                let same : f ≡ t = (let x = rw b at h in cc) in
                subst (IsTime limit) same (record {
                  number = ground arith;
                  positive = ground arith;
                  bounded = ground arith;
                })
          ]

  -- What ffmpeg is asked for is safe: the input is the file that was resolved, and the times are in
  -- their limits.
  abbrev pub IsAllowed : Resolved → Asked → Type 0
  IsAllowed r (frame_of p t) = (r ≡ found p) × IsTime two_days t
  IsAllowed r (preview_of p start dur) =
      (r ≡ found p) × IsTime two_days start × IsTime thirty dur × (floats.lt dur float_one ≡ false)
  IsAllowed r _ = Unit

  frame-IsAllowed : (r : Resolved) (t : Text) → IsAllowed r (frame r t)
  unfolding frame
  frame-IsAllowed (unresolved e) t = tt
  frame-IsAllowed (found p) t = elim (Option-cases (parse_seconds t two_days)) [
    | inl e ↦ rw (e, frame) tt
    | inr (time, e) ↦ rw (e, frame) (refl, parse_seconds-IsTime t two_days time e)
  ]

  preview-IsAllowed : (r : Resolved) (start dur : Text) → IsAllowed r (preview r start dur)
  unfolding preview
  preview-IsAllowed (unresolved e) start dur = tt
  preview-IsAllowed (found p) start dur = elim (Option-cases (parse_seconds start two_days)) [
    | inl e ↦ rw (e, preview) tt
    | inr (time, e) ↦
        rw (e, preview)
          (at time (parse_seconds-IsTime start two_days time e) (parse_seconds dur thirty) refl)
  ]
    where
      at :
          (time : ℕ)
          → IsTime two_days time
          → (o : Option ℕ) → parse_seconds dur thirty ≡ o
          → IsAllowed (found p) (with_length p time o)
      at time i none e = tt
      at time i (some d) e = elim (Bool-cases (floats.lt d float_one)) [
        | inl b ↦ rw b tt
        | inr b ↦ rw b (refl, i, parse_seconds-IsTime dur thirty d e, b)
      ]

  -- ffmpeg is asked for a frame or a preview only of the file that was resolved, at a time that is a
  -- number from 0 to 48 hours, and for a preview of 1 to 30 seconds.
  pub asked-IsAllowed :
      (r : Resolved) (t start dur : Text)
      → IsAllowed r (frame r t) × IsAllowed r (preview r start dur)
  asked-IsAllowed r t start dur = (frame-IsAllowed r t, preview-IsAllowed r start dur)

-- ===== src/Engine/Sound.antt =====
-- What internal/engine/engine.go keeps true of a clip's state.
use docker_smartclips.Prelude.{
  ℕ, ◌≡◌, refl, ap, ◌∙◌, inl, inr, Bool, true, false, Option, none, some, Bool-cases, Option-cases,
  ◌==◌,
}
use docker_smartclips.Config.Names.{Text, is_empty}
use docker_smartclips.Io.{ok, Result-cases}
use docker_smartclips.Layout.Part.{FileId, Layout}
use docker_smartclips.Layout.Finalize.{finalize}
use docker_smartclips.Layout.Stored.{format_version, load}
use docker_smartclips.Engine.State.{
  Library, System, Status, unset, pending, ready, failed, is_pending, ClipState, zero_state,
}
use docker_smartclips.Engine.Update.{status_of, load_valid, data_valid}

-- `Finalize` accepted the layout.
abbrev pub IsAccepted : Layout → Type 0
IsAccepted l = (raw : Layout) × (finalize raw ≡ ok l)

abbrev pub AreAccepted : Option Layout → Type 0
AreAccepted none = Unit
AreAccepted (some l) = IsAccepted l

-- A ready clip has the layout that its status tells of, and a failed one has none.
abbrev pub Shows : Status → Option Layout → Type 0
Shows unset r = r ≡ none
Shows pending r = Unit
Shows (ready kind start finish size source) r =
    (l : Layout) × (r ≡ some l)
    × (kind ≡ l.kind)
    × (start ≡ l.actual_start)
    × (finish ≡ l.actual_end)
    × (size ≡ l.size)
Shows (failed e) r = r ≡ none

abbrev pub is_unset : Status → Bool
is_unset unset = true
is_unset _ = false

-- A clip's state: its status fits its layout, `Finalize` accepted the layout, and without a key it
-- has no layout. A state without a status is the zero state.
pub record IsSound (st : ClipState) : Type 0 where
  pub shows : Shows st.status st.ready
  pub accepted : AreAccepted st.ready
  pub keyless : is_empty st.key ≡ true → st.ready ≡ none
  pub fresh : is_unset st.status ≡ true → is_empty st.key ≡ true

pub zero_state-IsSound : IsSound zero_state
zero_state-IsSound = record { shows = refl; accepted = tt; keyless = λ h. refl; fresh = λ h. refl }

-- The hash of a clip key is not empty: it is written as 32 digits.
abbrev pub HasKeys : Library → Type 0
HasKeys lib =
    (v : ℕ) (id : FileId) (start finish : ℕ) (output : Text)
    → is_empty (lib.hash v id start finish output) ≡ false

load-IsAccepted : (o : Option Layout) (l : Layout) → load o ≡ some l → IsAccepted l
unfolding load
load-IsAccepted none l e = absurd (cc)
load-IsAccepted (some raw) l e = elim (Bool-cases (raw.version == format_version)) [
  | inr f ↦ absurd (let r = rw f at e in cc)
  | inl t ↦ elim (Result-cases (finalize raw)) [
    | inl (r, h) ↦ (raw, h ∙ ap ok (let x = rw (t, h) at e in cc))
    | inr (x, h) ↦ absurd (let r = rw (t, h) at e in cc)
  ]
]

pub load_valid-IsAccepted :
    (w : System) (key : Text) (l : Layout) → load_valid w key ≡ some l → IsAccepted l
unfolding load_valid
load_valid-IsAccepted w key l e = elim (Option-cases (load (w.index key))) [
  | inl h ↦ absurd (let r = rw (h, load_valid) at e in cc)
  | inr (m, h) ↦ elim (Bool-cases (data_valid w m)) [
    | inl t ↦ load-IsAccepted (w.index key) l (h ∙ (let r = rw (h, t, load_valid) at e in r))
    | inr f ↦ absurd (let r = rw (h, f, load_valid) at e in cc)
  ]
]

pub status_of-Shows : (w : System) (l : Layout) → Shows (status_of w l) (some l)
unfolding status_of
status_of-Shows w l = (l, refl, refl, refl, refl, refl)

pub ready_waits : (w : System) (l : Layout) → ¬ (is_pending (status_of w l) ≡ true)
unfolding status_of
ready_waits w l h = absurd (cc)

pub set_ready : (w : System) (l : Layout) → is_unset (status_of w l) ≡ false
unfolding status_of
set_ready w l = refl

pub ready_set : (w : System) (l : Layout) → ¬ (is_unset (status_of w l) ≡ true)
ready_set w l h = let e = set_ready w l in cc

-- ===== src/Engine/Apply.antt =====
-- `Apply` of internal/engine/engine.go. A list stands for the order in which Go ranges over a map.
use docker_smartclips.Prelude.{ℕ, ◌+◌, true, Option, none, some, List, [], ◌∷◌, ◌==◌, if◌then◌else◌}
use docker_smartclips.Config.Names.{Text}
use docker_smartclips.Config.Clip.{Clip, path}
use docker_smartclips.Config.Validate.{Message, Problem, validate}
use docker_smartclips.Dict.{Dict, lookup, insert, erase, keys}
use docker_smartclips.Engine.State.{
  Library, System, invalid, failed, ClipState, zero_state, File, Sink, State,
}
use docker_smartclips.Engine.Update.{is_some, Outcome, withdraw, update}
use docker_smartclips.Engine.Work.{enqueue}

-- `problems[i]`: the messages of clip `i`.
abbrev pub messages : ℕ → List Problem → List Message
messages i [] = []
messages i (p ∷ ps) = if p.index == i then p.message ∷ messages i ps else messages i ps

-- The clips to show, and those that failed the validation.
pub record Sorted : Type 0 where
  pub want : Dict Clip
  pub invalid : Dict (List Message)

abbrev pub sort_clip : Clip → List Message → Sorted → Sorted
sort_clip c [] m = record m { want = insert (path c) c m.want }
sort_clip c (e ∷ es) m = record m { invalid = insert (path c) (e ∷ es) m.invalid }

-- The loop over the clips of the file, at clip `i`.
unfoldable pub sort_clips : List Problem → ℕ → List Clip → Sorted → Sorted
sort_clips ps i [] m = m
sort_clips ps i (c ∷ clips) m = sort_clips ps (i + 1) clips (sort_clip c (messages i ps) m)

abbrev pub invalid_state : List Message → ClipState
invalid_state ms = record zero_state { status = failed (invalid ms) }

abbrev pub state_or_zero : Option ClipState → ClipState
state_or_zero none = zero_state
state_or_zero (some st) = st

module _ (lib : Library) {S : Type 0} (sink : Sink S) where
  -- A clip that is not wanted is withdrawn, and forgotten unless it is shown as invalid.
  unfoldable pub drop_clip : Sorted → Text → State S → State S
  drop_clip m p s = elim (lookup p s.clips) [
    | none ↦ s
    | some st ↦ if is_some (lookup p m.want) then s else record s {
      sink = withdraw lib sink p st.ready s.sink;
      clips = if is_some (lookup p m.invalid) then s.clips else erase p s.clips;
    }
  ]

  unfoldable pub drop_clips : Sorted → List Text → State S → State S
  drop_clips m [] s = s
  drop_clips m (p ∷ ps) s = drop_clips m ps (drop_clip m p s)

  unfoldable pub mark_invalid : Dict Clip → Dict (List Message) → State S → State S
  mark_invalid want [] s = s
  mark_invalid want ((p, ms) ∷ bad) s = mark_invalid want bad (
      if is_some (lookup p want)
      then s
      else record s { clips = insert p (invalid_state ms) s.clips })

  -- What `applyClip` leaves.
  abbrev pub commit : Text → Outcome S → State S → State S
  commit p o s = record s {
    clips = insert p o.state s.clips;
    sink = o.sink;
    work = if o.waits then enqueue p s.work else s.work;
  }

  unfoldable pub apply_clip : System → Text → Clip → State S → State S
  apply_clip w p c s =
      commit p (update lib sink w s.file p c (state_or_zero (lookup p s.clips)) s.sink) s

  unfoldable pub apply_clips : System → Dict Clip → State S → State S
  apply_clips w [] s = s
  apply_clips w ((p, c) ∷ want) s = apply_clips w want (apply_clip w p c s)

  abbrev pub sorted_clips : System → File → Sorted
  sorted_clips w f =
      sort_clips (validate lib.floats lib.lower w.resolve f.clips) 0 f.clips
        (record { want = []; invalid = [] })

  unfoldable pub apply : System → File → State S → State S
  apply w f s =
      let m = sorted_clips w f in
      let dropped = drop_clips m (keys s.clips) (record s { file = some f }) in
      let marked = mark_invalid m.want m.invalid dropped in
      record (apply_clips w m.want marked) { dirty = true }

-- ===== src/Engine/Step.antt =====
-- The steps of internal/engine/engine.go between which its lock is free: `Apply`, `Recheck`, `worker` and
-- `housekeeping`, and `cleanCache`.
use docker_smartclips.Prelude.{
  ℕ, ◌≡◌, Bool, true, false, not, ◌&&◌, ◌||◌, none, some, List, [], ◌∷◌, ◌++◌, length, ◌==◌, ◌+◌,
  ◌<◌, if◌then◌else◌,
}
use docker_smartclips.Config.Names.{Text, same_text, starts_with_dot, byte_len}
use docker_smartclips.Dict.{Dict, has, lookup, insert}
use docker_smartclips.Layout.Part.{Layout}
use docker_smartclips.Engine.State.{
  Library, System, Failure, Status, failed, ClipState, File, Job, Sink, State,
}
use docker_smartclips.Engine.Update.{withdraw, publish, status_of}
use docker_smartclips.Engine.Work.{receive, begin, end_job}
use docker_smartclips.Engine.Apply.{apply}
use docker_smartclips.Engine.Build.{Builder, Built, built, not_built, build}

-- `writeStatus`'s map.
abbrev pub statuses : Dict ClipState → Dict Status
statuses [] = []
statuses ((p, st) ∷ clips) = (p, st.status) ∷ statuses clips

-- The keys that `cleanCache` keeps.
abbrev pub used_keys : Dict ClipState → List Text
used_keys [] = []
used_keys ((p, st) ∷ clips) = st.key ∷ used_keys clips

-- `strings.TrimSuffix`
abbrev pub trim_suffix : Text → Text → Text
trim_suffix suffix [] = []
trim_suffix suffix (r ∷ rs) = if same_text (r ∷ rs) suffix then [] else r ∷ trim_suffix suffix rs

-- ".json" and ".mkv"
abbrev pub json_suffix : Text
json_suffix = 0x2e ∷ 0x6a ∷ 0x73 ∷ 0x6f ∷ 0x6e ∷ []

abbrev pub mkv_suffix : Text
mkv_suffix = 0x2e ∷ 0x6d ∷ 0x6b ∷ 0x76 ∷ []

unfoldable pub entry_key : Text → Text
entry_key name = trim_suffix mkv_suffix (trim_suffix json_suffix name)

-- The names that `cleanCache` deletes among those of a cache directory, read after the keys in use.
unfoldable pub unused_names : List Text → List Text → List Text
unfolding entry_key
unused_names used [] = []
unused_names used (name ∷ names) =
    if starts_with_dot name || (not (byte_len (entry_key name) == 32) || has (entry_key name) used)
    then unused_names used names
    else name ∷ unused_names used names

module _ (lib : Library) {S : Type 0} (sink : Sink S) where
  -- A worker's path is looked up; `others` are the paths that the other workers received.
  abbrev pub begin_build : Text → List Text → State S → State S
  begin_build p others s = record s { work = begin p others (lookup p s.clips) s.work }

  abbrev pub failed_state : Failure → ClipState → ClipState
  failed_state e st = record st { status = failed e; ready = none }

  abbrev pub built_state : System → Layout → ClipState → ClipState
  built_state w l st = record st { status = status_of w l; ready = some l }

  -- What a worker does with what it built.
  unfoldable pub settle : System → Text → Built → ClipState → State S → State S
  settle w p (not_built e) st s = record s {
    clips = insert p (failed_state e st) s.clips;
    sink = withdraw lib sink p st.ready s.sink;
  }
  settle w p (built l) st s = record s {
    clips = insert p (built_state w l st) s.clips;
    sink = publish lib sink s.file p st.clip l s.sink;
  }

  -- The second locked section of a worker, for its build `j`.
  unfoldable pub finish_build : System → Built → Job → List Job → State S → State S
  finish_build w result j others s =
      let s1 = record s { work = end_job others s.work; dirty = true } in
      elim (lookup j.path s.clips) [
        | none ↦ s1
        | some st ↦ if same_text st.key j.key then settle w j.path result st s1 else s1
      ]

  -- The status file is written after a change, if it can be.
  unfoldable pub report_status : Bool → State S → State S
  report_status written s =
      if s.dirty
      then record s {
        dirty = false;
        status_file = if written then some (statuses s.clips) else s.status_file;
        cleaned = false;
      }
      else s

  -- The tick of the housekeeping, where the status file can be written or not.
  unfoldable pub tick : Bool → State S → State S
  tick written s =
      let idle = length s.work.queued == 0 && s.work.building == 0 in
      let s1 = report_status written s in
      if idle && not s1.cleaned then record s1 { cleaned = true } else s1

  -- One step of a thread, with what the system answers meanwhile. `workers` is `opt.Workers`.
  pub data Step (workers : ℕ) : State S → State S → Type 0 where
    applied : (w : System) (f : File) (s : State S) → Step workers s (apply lib sink w f s)
    -- `Recheck` reads the file, and applies it later.
    read_file :
        (f : File) (s : State S)
        → s.file ≡ some f
        → Step workers s (record s { rechecks = f ∷ s.rechecks })
    rechecked :
        (w : System) (f : File) (front rest : List File) (s : State S)
        → s.rechecks ≡ front ++ (f ∷ rest)
        → Step workers s (apply lib sink w f (record s { rechecks = front ++ rest }))
    received :
        (p : Text) (rest : List Text) (s : State S)
        → s.work.queue ≡ p ∷ rest
        → length s.work.received + length s.work.jobs < workers
        → Step workers s (record s { work = receive p rest s.work })
    began :
        (p : Text) (front rest : List Text) (s : State S)
        → s.work.received ≡ front ++ (p ∷ rest)
        → Step workers s (begin_build p (front ++ rest) s)
    finished :
        (w : System) (b : Builder) (j : Job) (front rest : List Job) (s : State S)
        → s.work.jobs ≡ front ++ (j ∷ rest)
        → Step workers s (finish_build w (build lib b j) j (front ++ rest) s)
    ticked : (written : Bool) (s : State S) → Step workers s (tick written s)

  pub data Reach (workers : ℕ) (s : State S) : State S → Type 0 where
    here : Reach workers s s
    next : {t u : State S} → Reach workers s t → Step workers t u → Reach workers s u

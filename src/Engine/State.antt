-- ===== src/Engine/State.antt =====
-- The data of internal/engine/engine.go: `Status`, `clipState`, `Engine`, `Sink`, and the code that the
-- engine calls in the libraries and the system.
use docker_smartclips.Prelude.{ℕ, ◌≡◌, Bool, true, false, Option, none, some, List, []}
use docker_smartclips.Floats.{Floats}
use docker_smartclips.Io.{Error}
use docker_smartclips.Config.Names.{Text}
use docker_smartclips.Config.Metadata.{Fields}
use docker_smartclips.Config.Clip.{Clip}
use docker_smartclips.Config.Validate.{Resolved, Message}
use docker_smartclips.Layout.Part.{FileId, Kind, Layout}
use docker_smartclips.Layout.Stored.{OsStat}
use docker_smartclips.Dict.{Dict, Differs}

-- What does not change while the program runs: float64, `strings.ToLower`, the hash of the clip key,
-- the JSON of an NFO type and metadata, the bytes of a string, and
-- a number as `strconv.FormatFloat` writes it.
pub record Library : Type 0 where
  pub floats : Floats
  pub lower : Text → Text
  pub hash : ℕ → FileId → ℕ → ℕ → Text → Text
  pub marshal : Text → Option Fields → Text
  pub utf8 : Text → List ℕ
  pub format : ℕ → Text

-- What the system answers during one locked section: `ResolveInput`, `os.Stat`, the decoded index
-- entry of a key, and `Relative`.
pub record System : Type 0 where
  pub resolve : Text → Resolved
  pub os_stat : Text → OsStat
  pub index : Text → Option Layout
  pub relative : Text → Text

pub data Failure : Type 0 where
  invalid : List Message → Failure
  input_error open_error file_error : ℕ → Failure
  irregular source_changed : Failure
  layout_error : Error → Failure
  ffmpeg_error rename_error save_error : ℕ → Failure

-- `Status`; `unset` is the zero value. A ready clip has its kind, its bounds, its size and its source.
pub data Status : Type 0 where
  unset pending : Status
  ready : Kind → ℕ → ℕ → ℕ → Text → Status
  failed : Failure → Status

abbrev pub is_pending : Status → Bool
is_pending pending = true
is_pending _ = false

abbrev pub is_ready : Status → Bool
is_ready (ready _ _ _ _ _) = true
is_ready _ = false

-- `st.status.State == StateError`
abbrev pub is_failed : Status → Bool
is_failed (failed e) = true
is_failed _ = false

pub record ClipState : Type 0 where
  pub clip : Clip
  pub input : Text
  pub key : Text
  pub status : Status
  pub ready : Option Layout

abbrev pub zero_clip : Clip
zero_clip = record {
  input = [];
  output = [];
  start = 0;
  finish = 0;
  group = [];
  nfo_type = [];
  metadata = none;
}

abbrev pub zero_state : ClipState
zero_state = record { clip = zero_clip; input = []; key = []; status = unset; ready = none }

-- `config.File`; `none` is the zero time.
pub record File : Type 0 where
  pub clips : List Clip
  pub mod_time : Option ℕ

-- What a worker took along when it began to build.
pub record Job : Type 0 where
  pub path : Text
  pub clip : Clip
  pub input : Text
  pub key : Text

-- The channel `queue`, the set `queued`, the counter `building`, and the workers: the paths they have
-- received and not yet looked up, and their builds.
pub record Work : Type 0 where
  pub queue : List Text
  pub queued : List Text
  pub received : List Text
  pub jobs : List Job
  pub building : ℕ

-- `Sink`, with what it serves under a path.
pub record Sink (S : Type 0) : Type 0 where
  pub set_clip : Text → Layout → Option Text → ℕ → S → S
  pub remove_clip : Text → S → S
  pub served : Text → S → Option Layout
  pub served-set_self :
      (p : Text) (l : Layout) (nfo : Option Text) (t : ℕ) (s : S)
      → served p (set_clip p l nfo t s) ≡ some l
  pub served-set_ne :
      (q p : Text) (l : Layout) (nfo : Option Text) (t : ℕ) (s : S)
      → Differs q p
      → served q (set_clip p l nfo t s) ≡ served q s
  pub served-remove_self : (p : Text) (s : S) → served p (remove_clip p s) ≡ none
  pub served-remove_ne :
      (q p : Text) (s : S) → Differs q p → served q (remove_clip p s) ≡ served q s

-- `Engine`, with the sink's state, the files that a `Recheck` has read and not yet applied, the status
-- file, and the flag `cleaned` of the housekeeping.
pub record State (S : Type 0) : Type 0 where
  pub clips : Dict ClipState
  pub file : Option File
  pub work : Work
  pub sink : S
  pub dirty : Bool
  pub rechecks : List File
  pub status_file : Option (Dict Status)
  pub cleaned : Bool

abbrev pub no_work : Work
no_work = record { queue = []; queued = []; received = []; jobs = []; building = 0 }

-- `New`
abbrev pub new : {S : Type 0} → S → State S
new sink = record {
  clips = [];
  file = none;
  work = no_work;
  sink = sink;
  dirty = false;
  rechecks = [];
  status_file = none;
  cleaned = false;
}

-- ===== src/Layout/Stored.antt =====
-- `Stat`, `FileID` equality and `Load` of internal/layout/layout.go. What the system and
-- `json.Unmarshal` answer is given.
use docker_smartclips.Prelude.{ℕ, Bool, ◌&&◌, Option, none, some, ◌==◌, if◌then◌else◌}
use docker_smartclips.Config.Names.{Text, same_text}
use docker_smartclips.Io.{ok, err}
use docker_smartclips.Layout.Part.{FileId, Layout}
use docker_smartclips.Layout.Finalize.{finalize}

abbrev pub format_version : ℕ
format_version = 1

-- `os.Stat`: the error number, or whether the file is regular, its size and its time in nanoseconds.
pub data OsStat : Type 0 where
  os_error : ℕ → OsStat
  info : Bool → ℕ → ℕ → OsStat

pub data StatResult : Type 0 where
  stat_ok : FileId → StatResult
  stat_error : ℕ → StatResult
  not_regular : StatResult

abbrev pub id_of : Text → OsStat → StatResult
id_of path (os_error e) = stat_error e
id_of path (info regular size mod_time) =
    if regular
    then stat_ok (record { path = path; size = size; mod_time = mod_time })
    else not_regular

-- `Stat`
unfoldable pub stat : (Text → OsStat) → Text → StatResult
stat os_stat path = id_of path (os_stat path)

-- `a == b`
abbrev pub same_file : FileId → FileId → Bool
same_file a b = same_text a.path b.path && (a.size == b.size && a.mod_time == b.mod_time)

-- `Load`, where the file is decoded to this layout, if it is; `none` is an error.
unfoldable pub load : Option Layout → Option Layout
load none = none
load (some l) =
    if l.version == format_version then elim (finalize l) [ ok r ↦ some r | err e ↦ none ] else none

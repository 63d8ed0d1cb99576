-- ===== src/Layout/Atomic.antt =====
-- `WriteFileAtomic` of internal/layout/layout.go, over a folder as a map of names to files, of which only
-- those that are synced are sure to survive a crash. Which calls succeed is given, and how much a
-- failing `Write` has written.
use docker_smartclips.Prelude.{
  ℕ, Bool, true, false, Option, none, some, List, [], ◌∷◌, take, if◌then◌else◌,
}
use docker_smartclips.Config.Names.{Text}
use docker_smartclips.Dict.{Dict, lookup, insert, erase}

-- A file; `synced` says that its content is on the disk.
pub record Saved : Type 0 where
  pub content : List ℕ
  pub synced : Bool

abbrev pub on_disk : List ℕ → Saved
on_disk content = record { content = content; synced = true }

abbrev pub in_cache : List ℕ → Saved
in_cache content = record { content = content; synced = false }

abbrev pub Folder : Type 0
Folder = Dict Saved

-- Which of the calls succeed; `name` is the name that `os.CreateTemp` chooses.
pub record Calls : Type 0 where
  pub name : Text
  pub create : Bool
  pub write : Bool
  pub written : ℕ
  pub chmod : Bool
  pub sync : Bool
  pub close : Bool
  pub rename : Bool
  pub remove : Bool

-- The folders that a call passes through, the newest first, and whether it succeeds.
pub record Trace : Type 0 where
  pub success : Bool
  pub now : Folder
  pub before : List Folder

-- One more folder.
abbrev pub go_on : Folder → Trace → Trace
go_on f t = record t { now = f; before = t.now ∷ t.before }

abbrev pub fails : Trace → Trace
fails t = record t { success = false }

-- `os.Rename`: the new name shows the whole file at once.
abbrev pub moved : Text → Text → Option Saved → Folder → Folder
moved from to none f = f
moved from to (some x) f = erase from (insert to x f)

-- `Sync`: the file as it is gets to the disk.
abbrev pub flushed : Text → Option Saved → Folder → Folder
flushed name none f = f
flushed name (some x) f = insert name (on_disk x.content) f

module _ (c : Calls) where
  -- The deferred `os.Remove` of the temporary file.
  abbrev pub cleanup : Trace → Trace
  cleanup t = if c.remove then go_on (erase c.name t.now) t else t

  abbrev pub rename_over : Text → Trace → Trace
  rename_over path t =
      if c.rename then go_on (moved c.name path (lookup c.name t.now) t.now) t else fails t

  abbrev pub close_file : Text → Trace → Trace
  close_file path t = if c.close then rename_over path t else fails t

  -- The checks behind `Write`: each failing call ends the function.
  abbrev pub finish_write : Text → Trace → Trace
  finish_write path t =
      if c.chmod
      then (if c.sync
          then close_file path (go_on (flushed c.name (lookup c.name t.now) t.now) t)
          else fails t)
      else fails t

  -- `Write`, of all the data or of its first bytes.
  abbrev pub write_data : Text → List ℕ → Trace → Trace
  write_data path content t =
      if c.write
      then finish_write path (go_on (insert c.name (in_cache content) t.now) t)
      else fails (go_on (insert c.name (in_cache (take c.written content)) t.now) t)

  -- `WriteFileAtomic`
  unfoldable pub write_file_atomic : Text → List ℕ → Folder → Trace
  write_file_atomic path content f =
      let start : Trace = record { success = true; now = f; before = [] } in
      if c.create
      then cleanup (write_data path content (go_on (insert c.name (in_cache []) f) start))
      else fails start

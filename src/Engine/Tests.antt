-- ===== src/Engine/Tests.antt =====
-- Runs of the engine of internal/engine, and the theorems at concrete states.
use docker_smartclips.Prelude.{◌++◌}
use docker_smartclips.Prelude.{ℕ, ◌≤◌, ◌⊎◌, ◌<◌, ◌≡◌, refl, arith, true, false, none, some, [], ◌∷◌}
use docker_smartclips.Config.Names.{Text, trim_slashes, trim_space, check_name, group_problems}
use docker_smartclips.Config.Clip.{Clip, path, name_problems}
use docker_smartclips.Config.Metadata.{check_metadata}
use docker_smartclips.Config.Validate.{found, bad_times, clip_problems, validate_loop, validate}
use docker_smartclips.Config.Tests.{grouped, plain_floats}
use docker_smartclips.Dict.{Dict, has, lookup}
use docker_smartclips.Layout.Stored.{info, stat, load}
use docker_smartclips.Clipfs.Entries.{Entry, entries_sink}
use docker_smartclips.Engine.State.{
  Library, System, File, pending, failed, open_error, ClipState, Job, State, new,
}
use docker_smartclips.Engine.Update.{load_or_wait, update_from, update, load_valid}
use docker_smartclips.Engine.Work.{enqueue, receive}
use docker_smartclips.Engine.Apply.{
  invalid_state, sort_clips, drop_clip, drop_clips, mark_invalid, apply_clip, apply_clips,
  sorted_clips, apply,
}
use docker_smartclips.Engine.Build.{not_opened, Builder, build}
use docker_smartclips.Engine.Step.{
  begin_build, finish_build, json_suffix, mkv_suffix, entry_key, used_keys, unused_names, Step,
  applied, received, Reach, here, next,
}
use docker_smartclips.Engine.Sound.{HasKeys}
use docker_smartclips.Engine.Consistent.{IsConsistent}
use docker_smartclips.Engine.Applied.{apply-IsConsistent}
use docker_smartclips.Engine.Shown.{Shown}
use docker_smartclips.Engine.Reached.{Reach-IsConsistent, new-IsConsistent}
use docker_smartclips.Engine.Drained.{
  work_left, is_work_shorter, AreSettled, CanWork, Works, AreSettled-reached,
}
use docker_smartclips.Layout.Part.{mkv, Layout}
use docker_smartclips.Layout.Finalize.{check_part, finalize_loop, finalize}
use docker_smartclips.Clipfs.Entries.{set_clip}
use docker_smartclips.Engine.Update.{publish, data_valid}
use docker_smartclips.Engine.Races.{is_recheck, recheck_reverts, invalid_overwritten}
use docker_smartclips.Engine.Cleaned.{unused_names_lem}
use docker_smartclips.Engine.Served.{IsServable, served-IsServable}

abbrev library : Library
library = record {
  floats = plain_floats;
  lower = λ t. t;
  hash = λ v id start finish output. 0x6b ∷ output;
  marshal = λ nfo_type metadata. nfo_type;
  utf8 = λ t. t;
  format = λ n. [];
}

library_hashes : HasKeys library
library_hashes v id start finish output = refl

-- Every input is found and regular, and the index is empty.
abbrev system : System
system = record {
  resolve = λ input. found input;
  os_stat = λ path. info true 8 1;
  index = λ key. none;
  relative = λ path. path;
}

abbrev clips_file : File
clips_file = record { clips = grouped ∷ []; mod_time = none }

abbrev bad_clip : Clip
bad_clip = record grouped { finish = 0 }

abbrev bad_file : File
bad_file = record { clips = bad_clip ∷ []; mod_time = none }

abbrev no_clips : State (Dict Entry)
no_clips = new []

-- "a/b"
abbrev grouped_path : Text
grouped_path = 0x61 ∷ 0x2f ∷ 0x62 ∷ []

abbrev once_applied : State (Dict Entry)
once_applied = apply library entries_sink system clips_file no_clips

validate-bad :
    lookup grouped_path (sorted_clips library entries_sink system bad_file).invalid
    ≡ some (bad_times ∷ [])
unfolding sort_clips validate validate_loop clip_problems name_problems group_problems check_name
    trim_space trim_slashes path check_metadata
validate-bad = refl

-- A clip that is not in the index is queued.
apply-queued : once_applied.work.queue ≡ grouped_path ∷ []
unfolding apply sort_clips drop_clips mark_invalid apply_clips apply_clip update update_from
    load_or_wait load_valid load stat enqueue validate validate_loop clip_problems name_problems
    group_problems check_name trim_space trim_slashes path check_metadata
apply-queued = refl

no_clips-IsConsistent : IsConsistent entries_sink no_clips
no_clips-IsConsistent = new-IsConsistent library library_hashes entries_sink [] (λ p. refl)

abbrev first_run : Reach library entries_sink 2 no_clips once_applied
first_run = next here (applied system clips_file no_clips)

Reach-IsConsistent_example : IsConsistent entries_sink once_applied
Reach-IsConsistent_example =
    Reach-IsConsistent library library_hashes entries_sink no_clips-IsConsistent first_run

-- The index has a layout for every key.
abbrev stored : Layout
stored = record {
  version = 1;
  kind = mkv;
  origin = record { path = 0x66 ∷ []; size = 8; mod_time = 1 };
  source = record { path = 0x66 ∷ []; size = 8; mod_time = 1 };
  start = 1;
  finish = 2;
  actual_start = 1;
  actual_end = 2;
  size = 0;
  built = 5;
  parts = record { bytes = none; off = 2; len = 4 } ∷ [];
  offsets = [];
}

abbrev indexed : System
indexed = record system { index = λ key. some stored }

abbrev at_once : State (Dict Entry)
at_once = apply library entries_sink indexed clips_file no_clips

abbrev loaded : Layout
loaded = record stored { size = 4; offsets = 0 ∷ [] }

apply-loaded : entries_sink.served grouped_path at_once.sink ≡ some loaded
unfolding apply sort_clips drop_clips mark_invalid apply_clips apply_clip update update_from
    load_or_wait load_valid load stat enqueue validate validate_loop clip_problems name_problems
    group_problems check_name trim_space trim_slashes path check_metadata publish set_clip
    data_valid finalize finalize_loop check_part
apply-loaded = refl

served-IsServable_example : IsServable grouped_path loaded at_once
served-IsServable_example =
    served-IsServable library library_hashes entries_sink 2 [] at_once grouped_path loaded
      (λ q. refl) (next here (applied indexed clips_file no_clips)) apply-loaded

-- No file can be opened.
abbrev failing : Builder
failing = record {
  open_file = λ p. not_opened 2;
  os_stat = λ p. info true 8 1;
  now = 7;
  ffmpeg = λ c input subs. none;
  rename = none;
  remux_path = λ key. key;
  stat_remuxed = info true 4 2;
  save = λ l. none;
}

AreSettled-reached_example :
    ((n : ℕ) × (t : State (Dict Entry)) × Works library entries_sink 2
        (λ n. system)
        (λ n. failing)
        once_applied
        n
        t
      × AreSettled library entries_sink t)
    × ((n : ℕ) (t : State (Dict Entry))
        → Works library entries_sink 2 (λ n. system) (λ n. failing) once_applied n t
        → n ≤ work_left once_applied.work)
    × ((t : State (Dict Entry))
        → Reach library entries_sink 2 once_applied t
        → (v : System) (c : Builder)
        → AreSettled library entries_sink t ⊎ CanWork library entries_sink 2 v c t)
AreSettled-reached_example =
    AreSettled-reached library entries_sink library_hashes 2 (omega arith) (λ n. system)
      (λ n. failing) once_applied
      (apply-IsConsistent library library_hashes entries_sink system clips_file no_clips
        no_clips-IsConsistent)

abbrev some_queued : State (Dict Entry)
some_queued = record no_clips {
  work = record {
    queue = grouped_path ∷ [];
    queued = grouped_path ∷ [];
    received = [];
    jobs = [];
    building = 0;
  };
}

is_work_shorter_example :
    work_left (receive grouped_path [] some_queued.work) < work_left some_queued.work
is_work_shorter_example =
    is_work_shorter library entries_sink {workers = 2}
      (received grouped_path [] some_queued refl (omega arith)) refl

applied_file : once_applied.file ≡ some clips_file
unfolding apply sort_clips drop_clips mark_invalid apply_clips apply_clip update update_from
    load_or_wait load_valid load stat enqueue validate validate_loop clip_problems name_problems
    group_problems check_name trim_space trim_slashes path check_metadata
applied_file = refl

recheck_reverts_example :
    let changed =
      apply library entries_sink system bad_file
        (record once_applied { rechecks = clips_file ∷ once_applied.rechecks }) in
    Reach library entries_sink 2 once_applied changed
    × (changed.file ≡ some bad_file)
    × (t : State (Dict Entry)) × (st : Step library entries_sink 2 changed t) × (is_recheck library
          entries_sink st
        ≡ true)
    × (t.file ≡ some clips_file)
    × (t.rechecks ≡ once_applied.rechecks)
    × ((q : Text)
        → Shown
            (lookup q (sorted_clips library entries_sink indexed clips_file).want)
            (lookup q (sorted_clips library entries_sink indexed clips_file).invalid)
            (entries_sink.served q t.sink)
            (lookup q t.clips))
recheck_reverts_example =
    recheck_reverts library entries_sink library_hashes 2 system indexed clips_file bad_file
      once_applied
      (apply-IsConsistent library library_hashes entries_sink system clips_file no_clips
        no_clips-IsConsistent)
      applied_file

abbrev invalid_applied : State (Dict Entry)
invalid_applied = apply library entries_sink system bad_file once_applied

-- The clip is still queued, and now invalid.
apply-invalid : lookup grouped_path invalid_applied.clips ≡ some (invalid_state (bad_times ∷ []))
unfolding apply sort_clips drop_clips drop_clip mark_invalid apply_clips apply_clip update
    update_from load_or_wait load_valid load stat enqueue validate validate_loop clip_problems
    name_problems group_problems check_name trim_space trim_slashes path check_metadata
apply-invalid = refl

abbrev the_job : Job
the_job = record {
  path = grouped_path;
  clip = record {
    input = [];
    output = [];
    start = 0;
    finish = 0;
    group = [];
    nfo_type = [];
    metadata = none;
  };
  input = [];
  key = [];
}

invalid_overwritten_example :
    ((begin_build library entries_sink grouped_path [] invalid_applied).work.jobs
      ≡ the_job ∷ invalid_applied.work.jobs)
    × (lookup grouped_path
          (finish_build library entries_sink system
            (build library failing the_job)
            the_job
            invalid_applied.work.jobs
            (begin_build library entries_sink grouped_path [] invalid_applied)).clips
        ≡ some (record (invalid_state (bad_times ∷ [])) { status = failed (open_error 2) }))
invalid_overwritten_example =
    invalid_overwritten library entries_sink system failing grouped_path (bad_times ∷ []) 2 []
      invalid_applied apply-invalid refl

abbrev pending_state : ClipState
pending_state = record {
  clip = grouped;
  input = 0x66 ∷ [];
  key = 0x6b ∷ 0x62 ∷ [];
  status = pending;
  ready = none;
}

-- "kb.json", where "kb" is the key of the clip.
abbrev index_name : Text
index_name = 0x6b ∷ 0x62 ∷ 0x2e ∷ 0x6a ∷ 0x73 ∷ 0x6f ∷ 0x6e ∷ []

index_key : entry_key index_name ≡ pending_state.key
unfolding entry_key
index_key = refl

unused_names_lem_example :
    (has
        (pending_state.key ++ json_suffix)
        (unused_names (used_keys ((grouped_path, pending_state) ∷ [])) (index_name ∷ []))
      ≡ false)
    × (has
          (pending_state.key ++ mkv_suffix)
          (unused_names (used_keys ((grouped_path, pending_state) ∷ [])) (index_name ∷ []))
        ≡ false)
unused_names_lem_example =
    unused_names_lem ((grouped_path, pending_state) ∷ []) (index_name ∷ []) grouped_path
      pending_state refl (refl, (refl, tt))

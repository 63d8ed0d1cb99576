-- ===== src/Engine/Build.antt =====
-- `build`, `buildMKV` and `remux` of internal/engine/engine.go. The system's answers, ffmpeg and the
-- writing of the index entry are given.
use docker_smartclips.Prelude.{
  ℕ, Bool, true, false, Option, none, some, List, [], ◌∷◌, ◌++◌, ◌==◌, if◌then◌else◌,
}
use docker_smartclips.Config.Names.{Text, slash, dot, same_text}
use docker_smartclips.Config.Clip.{Clip}
use docker_smartclips.Dict.{has}
use docker_smartclips.Io.{Result, ok, err, ReaderAt, ◌>>=◌}
use docker_smartclips.Layout.Part.{FileId, mkv, remux, Layout, range}
use docker_smartclips.Layout.Finalize.{finalize}
use docker_smartclips.Layout.Stored.{
  format_version, OsStat, StatResult, stat_ok, stat_error, not_regular, id_of,
}
use docker_smartclips.Mkv.Open.{open_source}
use docker_smartclips.Mkv.Build.{build_clip}
use docker_smartclips.Engine.State.{
  Library, Failure, open_error, file_error, irregular, source_changed, layout_error, ffmpeg_error,
  rename_error, save_error, Job,
}
use docker_smartclips.Engine.Update.{clip_key}

-- `os.Open`: the file's reader, or the error number.
pub data Opened : Type 0 where
  opened : ReaderAt → Opened
  not_opened : ℕ → Opened

-- What the system answers during a build: `os.Open`, `os.Stat` of the source, the time, ffmpeg with and
-- without subtitles, `os.Rename`, the remuxed file and its `os.Stat`, and `Save`.
pub record Builder : Type 0 where
  pub open_file : Text → Opened
  pub os_stat : Text → OsStat
  pub now : ℕ
  pub ffmpeg : Clip → Text → Bool → Option ℕ
  pub rename : Option ℕ
  pub remux_path : Text → Text
  pub stat_remuxed : OsStat
  pub save : Layout → Option ℕ

pub data Built : Type 0 where
  built : Layout → Built
  not_built : Failure → Built

infixl 5 ◌>=>◌
-- The next step on a file's identity.
abbrev pub ◌>=>◌ : StatResult → (FileId → Built) → Built
stat_ok id >=> f = f id
stat_error e >=> f = not_built (file_error e)
not_regular >=> f = not_built irregular

-- ".mkv", ".mk3d" and ".webm"
abbrev pub matroska_ext : List Text
matroska_ext =
    (dot ∷ 0x6d ∷ 0x6b ∷ 0x76 ∷ [])
    ∷ (dot ∷ 0x6d ∷ 0x6b ∷ 0x33 ∷ 0x64 ∷ [])
    ∷ (dot ∷ 0x77 ∷ 0x65 ∷ 0x62 ∷ 0x6d ∷ [])
    ∷ []

-- `filepath.Ext`: what follows the last dot of the last component, with the dot. The loop keeps what it
-- met since then.
abbrev pub ext_loop : Text → Text → Text
ext_loop found [] = found
ext_loop found (r ∷ rs) =
    if r == dot
    then ext_loop (dot ∷ []) rs
    else if r == slash
    then ext_loop [] rs
    else ext_loop (keep found) rs
  where
    keep : Text → Text
    keep [] = []
    keep (d ∷ ds) = (d ∷ ds) ++ (r ∷ [])

unfoldable pub ext : Text → Text
ext path = ext_loop [] path

module _ (lib : Library) (b : Builder) where
  abbrev pub saved : Option ℕ → Layout → Built
  saved none l = built l
  saved (some e) l = not_built (save_error e)

  -- `Finalize` and `Save`
  unfoldable pub finish : Layout → Built
  finish l = elim (finalize l) [ err e ↦ not_built (layout_error e) | ok r ↦ saved (b.save r) r ]

  abbrev pub renamed : Option ℕ → Built → Built
  renamed none more = more
  renamed (some e) more = not_built (rename_error e)

  -- Without subtitles where the first run failed.
  abbrev pub retried : Option ℕ → Option ℕ → Built → Built
  retried none again more = more
  retried (some e) none more = more
  retried (some e) (some f) more = not_built (ffmpeg_error f)

  unfoldable pub remux_clip : Job → Layout → Built
  unfolding finish range
  remux_clip j l = retried (b.ffmpeg j.clip j.input true) (b.ffmpeg j.clip j.input false) (
      renamed b.rename (
        id_of (b.remux_path j.key) b.stat_remuxed >=> λ id. finish (record l {
          kind = remux;
          source = id;
          actual_start = j.clip.start;
          actual_end = j.clip.finish;
          parts = range 0 id.size ∷ [];
        })))

  -- `buildMKV`
  abbrev pub build_mkv : ReaderAt → ℕ → Clip → Result docker_smartclips.Mkv.Build.Clip
  build_mkv r size c = do
    src ← open_source lib.floats r size
    build_clip lib.floats src r c.start c.finish (lib.utf8 c.output)

  abbrev pub new_layout : FileId → Clip → Layout
  new_layout origin c = record {
    version = format_version;
    kind = mkv;
    origin = origin;
    source = origin;
    start = c.start;
    finish = c.finish;
    actual_start = 0;
    actual_end = 0;
    size = 0;
    built = b.now;
    parts = [];
    offsets = [];
  }

  unfoldable pub build_from : ReaderAt → FileId → Job → Built
  unfolding finish remux_clip ext
  build_from r origin j =
      let l = new_layout origin j.clip in
      if has (lib.lower (ext j.input)) matroska_ext
      then (elim (build_mkv r origin.size j.clip) [
        | ok c ↦
            finish (record l {
              actual_start = c.actual_start;
              actual_end = c.actual_end;
              parts = c.parts;
            })
        | err e ↦ remux_clip j l
      ])
      else remux_clip j l

  -- `build`
  unfoldable pub build : Job → Built
  unfolding build_from
  build j = elim (b.open_file j.input) [
    | not_opened e ↦ not_built (open_error e)
    | opened r ↦ id_of j.input (b.os_stat j.input) >=> λ origin.
        if same_text (clip_key lib j.clip origin) j.key
        then build_from r origin j
        else not_built source_changed
  ]

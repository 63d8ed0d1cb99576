-- ===== src/Engine/Built.antt =====
-- What a build of internal/engine/engine.go answers: a layout that `Finalize` accepted, and never for an
-- empty key.
use docker_smartclips.Prelude.{
  ℕ, ◌≡◌, sym, ap, ◌∙◌, inl, inr, true, false, Option, none, some, Bool-cases, if◌then◌else◌,
}
use docker_smartclips.Config.Names.{same_text, is_empty}
use docker_smartclips.Dict.{has, same_text_eq}
use docker_smartclips.Io.{ReaderAt, Result-cases}
use docker_smartclips.Layout.Part.{FileId, Layout}
use docker_smartclips.Layout.Finalize.{finalize}
use docker_smartclips.Layout.Stored.{
  format_version, StatResult, stat_ok, stat_error, not_regular, id_of,
}
use docker_smartclips.Engine.State.{Library, Job, open_error, source_changed}
use docker_smartclips.Engine.Update.{clip_key}
use docker_smartclips.Engine.Build.{
  Opened, opened, not_opened, Builder, Built, built, not_built, ◌>=>◌, matroska_ext, saved, finish,
  renamed, retried, remux_clip, build_mkv, new_layout, ext, build_from, build,
}
use docker_smartclips.Engine.Sound.{IsAccepted, HasKeys}

-- What is built has the property.
abbrev pub WhenBuilt : (Layout → Type 0) → Built → Type 0
WhenBuilt P (built l) = P l
WhenBuilt P (not_built e) = Unit

module _ (P : Layout → Type 0) where
  WhenBuilt-then :
      (r : StatResult) (f : FileId → Built)
      → ((id : FileId) → WhenBuilt P (f id))
      → WhenBuilt P (r >=> f)
  WhenBuilt-then (stat_ok id) f h = h id
  WhenBuilt-then (stat_error e) f h = tt
  WhenBuilt-then not_regular f h = tt

  WhenBuilt-renamed :
      (lib : Library) (b : Builder) (o : Option ℕ) (more : Built)
      → WhenBuilt P more
      → WhenBuilt P (renamed lib b o more)
  WhenBuilt-renamed lib b none more h = h
  WhenBuilt-renamed lib b (some e) more h = tt

  WhenBuilt-retried :
      (lib : Library) (b : Builder) (o again : Option ℕ) (more : Built)
      → WhenBuilt P more
      → WhenBuilt P (retried lib b o again more)
  WhenBuilt-retried lib b none again more h = h
  WhenBuilt-retried lib b (some e) none more h = h
  WhenBuilt-retried lib b (some e) (some f) more h = tt

-- A layout is built for the key of the clip and the file as they are, so the key is not empty.
abbrev pub IsKeyed : Job → Layout → Type 0
IsKeyed j l = IsAccepted l × (is_empty j.key ≡ false)

module _ (lib : Library) (b : Builder) where
  WhenBuilt-saved :
      (o : Option ℕ) (l : Layout) → IsAccepted l → WhenBuilt IsAccepted (saved lib b o l)
  WhenBuilt-saved none l h = h
  WhenBuilt-saved (some e) l h = tt

  finish-IsAccepted : (l : Layout) → WhenBuilt IsAccepted (finish lib b l)
  unfolding finish
  finish-IsAccepted l = elim (Result-cases (finalize l)) [
    | inl (r, e) ↦ rw (e, finish) (WhenBuilt-saved (b.save r) r (l, e))
    | inr (x, e) ↦ rw (e, finish) tt
  ]

  remux_clip-IsAccepted : (j : Job) (l : Layout) → WhenBuilt IsAccepted (remux_clip lib b j l)
  unfolding remux_clip
  remux_clip-IsAccepted j l =
      WhenBuilt-retried IsAccepted lib b (b.ffmpeg j.clip j.input true)
        (b.ffmpeg j.clip j.input false) _
        (WhenBuilt-renamed IsAccepted lib b b.rename _ (
          WhenBuilt-then IsAccepted (id_of (b.remux_path j.key) b.stat_remuxed) _
            (λ id. finish-IsAccepted _)))

  build_from-IsAccepted :
      (r : ReaderAt) (origin : FileId) (j : Job)
      → WhenBuilt IsAccepted (build_from lib b r origin j)
  unfolding build_from
  build_from-IsAccepted r origin j =
      elim (Bool-cases (has (lib.lower (ext j.input)) matroska_ext)) [
        | inr f ↦ rw (f, build_from) (remux_clip-IsAccepted j (new_layout lib b origin j.clip))
        | inl t ↦ elim (Result-cases (build_mkv lib b r origin.size j.clip)) [
          | inl (c, e) ↦ rw (t, e, build_from) (finish-IsAccepted _)
          | inr (x, e) ↦
              rw (t, e, build_from) (remux_clip-IsAccepted j (new_layout lib b origin j.clip))
        ]
      ]

  checked :
      (hashes : HasKeys lib) (r : ReaderAt) (origin : FileId) (j : Job)
      → WhenBuilt (IsKeyed j) (
          if same_text (clip_key lib j.clip origin) j.key
          then build_from lib b r origin j
          else not_built source_changed)
  checked hashes r origin j = elim (Bool-cases (same_text (clip_key lib j.clip origin) j.key)) [
    | inr f ↦ rw f tt
    | inl t ↦ rw t (
        with_key (build_from lib b r origin j)
          (ap is_empty (sym (same_text_eq (clip_key lib j.clip origin) j.key t))
            ∙ hashes format_version origin j.clip.start j.clip.finish j.clip.output)
          (build_from-IsAccepted r origin j))
  ]
    where
      with_key :
          (x : Built) → is_empty j.key ≡ false → WhenBuilt IsAccepted x → WhenBuilt (IsKeyed j) x
      with_key (built l) k h = (h, k)
      with_key (not_built e) k h = tt

  pub build-IsKeyed : HasKeys lib → (j : Job) → WhenBuilt (IsKeyed j) (build lib b j)
  unfolding build
  build-IsKeyed hashes j = at_file (b.open_file j.input)
    where
      at_file :
          (o : Opened)
          → WhenBuilt (IsKeyed j) (elim o [
            | not_opened e ↦ not_built (open_error e)
            | opened r ↦ id_of j.input (b.os_stat j.input) >=> λ origin.
                if same_text (clip_key lib j.clip origin) j.key
                then build_from lib b r origin j
                else not_built source_changed
          ])
      at_file (not_opened e) = tt
      at_file (opened r) =
          WhenBuilt-then (IsKeyed j) (id_of j.input (b.os_stat j.input)) _
            (λ origin. checked hashes r origin j)

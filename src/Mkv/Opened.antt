-- ===== src/Mkv/Opened.antt =====
-- What `Open` answers, and that `BuildClip` answers a clip or an error on what it opened.
use docker_smartclips.Prelude.{ℕ, suc, ◌+◌, ◌<◌, ◌≡◌, ◌≢◌, refl, ap, ◌∙◌, inl, inr, arith, none}
use docker_smartclips.Prelude.{List, [], ◌∷◌, length, Bool-cases, leb, ◌==◌, ==_iff, if◌then◌else◌}
use docker_smartclips.Io.{stuck, unsupported, Result, ok, err, ◌>>=◌, ReaderAt}
use docker_smartclips.Floats.{Floats}
use docker_smartclips.Ebml.Ids.{id_cues, id_ebml, id_segment}
use docker_smartclips.Ebml.Read.{children, Header, read_header_at, sized}
use docker_smartclips.Mkv.Source.{
  Source, CuePoint, insert_cue, sort_cues, read_element, cues_loop, read_bytes, parse_cues,
  parse_info, parse_tracks,
}
use docker_smartclips.Mkv.Open.{
  Walk, load_metadata, open_source, required, walk_loop, segment_end_of,
}
use docker_smartclips.Mkv.Cues.{IsSorted, sort_cues_lem}
use docker_smartclips.Mkv.Build.{build_clip}
use docker_smartclips.Mkv.Ends.{build_clip-ne-stuck}

-- Cue points sorted by time, one at least.
pub record HasCues (s : Source) : Type 0 where
  pub sorted : IsSorted s.cues
  pub some_cue : 0 < length s.cues

length-insert_cue :
    (c : CuePoint) (cues : List CuePoint) → length (insert_cue c cues) ≡ suc (length cues)
unfolding insert_cue
length-insert_cue c [] = refl
length-insert_cue c (d ∷ cues) = elim (Bool-cases (leb c.time d.time)) [
  | inl t ↦ rw t refl
  | inr f ↦ rw f (ap suc (length-insert_cue c cues))
]

length-sort_cues : (cues : List CuePoint) → length (sort_cues cues) ≡ length cues
unfolding sort_cues
length-sort_cues [] = refl
length-sort_cues (c ∷ cues) = length-insert_cue c (sort_cues cues) ∙ ap suc (length-sort_cues cues)

-- A property of the answer, where there is one.
abbrev WhenOk {ℓ} : {A : Type ℓ} → (A → Type 0) → Result A → Type 0
WhenOk P (ok a) = P a
WhenOk P (err e) = Unit

WhenOk-bind {ℓ κ} :
    {A : Type ℓ} {B : Type κ} (P : B → Type 0) (m : Result A) (f : A → Result B)
    → ((a : A) → WhenOk P (f a))
    → WhenOk P (m >>= f)
WhenOk-bind P (ok a) f h = h a
WhenOk-bind P (err e) f h = tt

parse_cues-HasCues : (r : ReaderAt) (off : ℕ) (s : Source) → WhenOk HasCues (parse_cues r off s)
unfolding parse_cues
parse_cues-HasCues r off s = WhenOk-bind HasCues (read_element r off id_cues) _ (λ b.
    WhenOk-bind HasCues (children b) _
      (λ points. WhenOk-bind HasCues (cues_loop s points) _ (λ cues. checked cues)))
  where
    checked :
        (cues : List CuePoint)
        → WhenOk HasCues
            (if length cues == 0 then err unsupported else ok (record s { cues = sort_cues cues }))
    checked cues = elim (Bool-cases (length cues == 0)) [
      | inl t ↦ rw t tt
      | inr f ↦
          let n = length-sort_cues cues in
          rw f (record {
            sorted = (sort_cues_lem cues).1;
            some_cue = ground (arith, ==_iff (length cues) 0);
          })
    ]

module _ (floats : Floats) where
  load_metadata-HasCues :
      (r : ReaderAt) (s : Source) (w : Walk) → WhenOk HasCues (load_metadata floats r s w)
  unfolding load_metadata
  load_metadata-HasCues r s w =
      WhenOk-bind HasCues (if w.first_cluster == 0 then err unsupported else ok w.first_cluster) _
        (λ first. WhenOk-bind HasCues (required w.info_off) _ (λ info_off.
          WhenOk-bind HasCues (required w.tracks_off) _ (λ tracks_off.
            WhenOk-bind HasCues (required w.cues_off) _ (λ cues_off.
              WhenOk-bind HasCues
                (parse_info floats r info_off
                  (record s { attachments = w.attachments; first_cluster = first }))
                _
                (λ s1.
                  WhenOk-bind HasCues (parse_tracks r tracks_off s1) _
                    (λ s2. parse_cues-HasCues r cues_off s2))))))

  -- Nothing found yet.
  abbrev pub fresh_walk : Walk
  fresh_walk = record {
    info_off = none;
    tracks_off = none;
    cues_off = none;
    attachments = none;
    first_cluster = 0;
  }

  abbrev pub walk_from : ReaderAt → ℕ → ℕ → Header → Result Walk
  walk_from r size start seg =
      let first = start + seg.header_len in
      let last = segment_end_of size first seg.size in
      if seg.id == id_segment then walk_loop last r first last first fresh_walk else err unsupported

  -- The source before its metadata is read.
  abbrev pub bare : ℕ → List ℕ → Header → Source
  bare size header seg = record {
    size = size;
    ebml_header = header;
    segment_data = length header + seg.header_len;
    segment_end = segment_end_of size (length header + seg.header_len) seg.size;
    timestamp_scale = 1000000;
    duration = 0;
    info_children = [];
    tracks_children = [];
    video_track = 0;
    attachments = none;
    first_cluster = 0;
    cues = [];
  }

  open_source-when : (r : ReaderAt) (size : ℕ) → WhenOk HasCues (open_source floats r size)
  unfolding open_source
  open_source-when r size = WhenOk-bind HasCues (read_header_at r 0) _ (λ h.
      WhenOk-bind HasCues (if h.id == id_ebml then sized unsupported h.size else err unsupported) _
        (λ n. WhenOk-bind HasCues (read_bytes r 0 (h.header_len + n)) _ (λ header.
          WhenOk-bind HasCues (read_header_at r (length header)) _ (λ seg.
            WhenOk-bind HasCues (walk_from r size (length header) seg) _
              (λ w. load_metadata-HasCues r (bare size header seg) w)))))

  -- A file that `Open` accepts has cue points, in the order of their times.
  pub open_source-HasCues :
      (r : ReaderAt) (size : ℕ) (s : Source) → open_source floats r size ≡ ok s → HasCues s
  open_source-HasCues r size s e = rw e at (open_source-when r size)

  -- On a file that `Open` accepts, `BuildClip` answers a clip or an error of the source for every
  -- interval and title, also where the file has changed in between.
  pub build_clip-of-open :
      (r now : ReaderAt) (size : ℕ) (s : Source) (start end : ℕ) (title : List ℕ)
      → open_source floats r size ≡ ok s
      → build_clip floats s now start end title ≢ err stuck
  build_clip-of-open r now size s start end title e =
      let cues = open_source-HasCues r size s e in
      build_clip-ne-stuck floats s now title start end cues.sorted cues.some_cue

-- ===== src/Mkv/OpenEnds.antt =====
-- `Open` ends on every file.
use docker_smartclips.Prelude.{
  ℕ, zero, suc, ◌+◌, ◌≤◌, ◌≡◌, ◌≢◌, refl, inl, inr, arith, Option, none, some, List, [], ◌∷◌,
  length,
}
use docker_smartclips.Prelude.{Bool, ◌==◌, not, true, false, if◌then◌else◌}
use docker_smartclips.Io.{
  unsupported, unexpected_element, stuck, Result, ok, err, ◌>>=◌, Result-cases, ReaderAt,
}
use docker_smartclips.Floats.{Floats}
use docker_smartclips.Ebml.Ids.{id_ebml, id_info, id_tracks, id_cues}
use docker_smartclips.Ebml.Read.{
  Header, Size, known, unknown_size, sized, read_header_at, Element, children,
}
use docker_smartclips.Ebml.Children.{children-ne-stuck}
use docker_smartclips.Mkv.Source.{
  Source, read_bytes, read_element, parse_info, tracks_loop, track_entry, video_of, parse_tracks,
  cue_positions, cues_loop, cue_time, parse_cues,
}
use docker_smartclips.Mkv.Open.{
  Walk, visit, walk_loop, segment_end_of, required, load_metadata, open_source,
}
use docker_smartclips.Mkv.Opened.{bare, walk_from, fresh_walk}
use docker_smartclips.Mkv.Walks.{read_header_at_takes, read_header_at-ne-stuck, read_bytes-ne-stuck}

abbrev NotStuck {ℓ} : {A : Type ℓ} → Result A → Type ℓ
NotStuck r = r ≢ err stuck

ok-NotStuck {ℓ} : {A : Type ℓ} (a : A) → NotStuck (ok a)
ok-NotStuck a e = ground arith

bind-NotStuck {ℓ κ} :
    {A : Type ℓ} {B : Type κ} (m : Result A) (f : A → Result B)
    → NotStuck m
    → ((a : A) → NotStuck (f a))
    → NotStuck (m >>= f)
bind-NotStuck (ok a) f h k = k a
bind-NotStuck (err x) f h k = λ e. h (ground arith)

read_element-NotStuck : (r : ReaderAt) (off id : ℕ) → NotStuck (read_element r off id)
unfolding read_element
read_element-NotStuck r off id =
    bind-NotStuck (read_header_at r off) _ (read_header_at-ne-stuck r off) (λ h. body h h.size refl)
  where
    body :
        (h : Header) (s : Size)
        → h.size ≡ s
        → NotStuck (
            if not (h.id == id)
            then err (unexpected_element h.id)
            else (sized unsupported h.size >>= (λ n. read_bytes r (off + h.header_len) n)))
    body h unknown_size z e = ground arith
    body h (known n) z e = ground (arith, read_bytes-ne-stuck r (off + h.header_len) n)

parse_info-NotStuck :
    (floats : Floats) (r : ReaderAt) (off : ℕ) (s : Source) → NotStuck (parse_info floats r off s)
unfolding parse_info
parse_info-NotStuck floats r off s =
    bind-NotStuck (read_element r off id_info) _ (read_element-NotStuck r off id_info)
      (λ b. bind-NotStuck (children b) _ (children-ne-stuck b) (λ kids. ok-NotStuck _))

tracks_loop-NotStuck : (ts : List Element) (video : ℕ) → NotStuck (tracks_loop ts video)
unfolding tracks_loop
tracks_loop-NotStuck [] video e = ground arith
tracks_loop-NotStuck (t ∷ ts) video e =
    let again = tracks_loop-NotStuck ts in
    elim (Result-cases (children t.payload)) [
      | inr (x, q) ↦ ground (arith, children-ne-stuck t.payload, again video)
      | inl (kids, q) ↦ ground (arith, again video, again (video_of video (track_entry kids 0 0)))
    ]

parse_tracks-NotStuck : (r : ReaderAt) (off : ℕ) (s : Source) → NotStuck (parse_tracks r off s)
unfolding parse_tracks
parse_tracks-NotStuck r off s =
    bind-NotStuck (read_element r off id_tracks) _ (read_element-NotStuck r off id_tracks) (λ b.
      bind-NotStuck (children b) _ (children-ne-stuck b) (λ kids.
        bind-NotStuck (tracks_loop kids s.video_track) _ (tracks_loop-NotStuck kids s.video_track)
          (λ video e. ground arith)))

cue_positions-NotStuck :
    (s : Source) (t : ℕ) (kids : List Element) → NotStuck (cue_positions s t kids)
unfolding cue_positions
cue_positions-NotStuck s t [] e = ground arith
cue_positions-NotStuck s t (k ∷ kids) e = elim (Result-cases (children k.payload)) [
  | inr (x, q) ↦ ground (arith, children-ne-stuck k.payload, cue_positions-NotStuck s t kids)
  | inl (pos, q) ↦ ground (arith, cue_positions-NotStuck s t kids)
]

cues_loop-NotStuck : (s : Source) (points : List Element) → NotStuck (cues_loop s points)
unfolding cues_loop
cues_loop-NotStuck s [] e = ground arith
cues_loop-NotStuck s (p ∷ points) e = elim (Result-cases (children p.payload)) [
  | inr (x, q) ↦ ground (arith, children-ne-stuck p.payload, cues_loop-NotStuck s points)
  | inl (kids, q) ↦
      ground (arith, cues_loop-NotStuck s points, cue_positions-NotStuck s (cue_time kids 0) kids)
]

parse_cues-NotStuck : (r : ReaderAt) (off : ℕ) (s : Source) → NotStuck (parse_cues r off s)
unfolding parse_cues
parse_cues-NotStuck r off s =
    bind-NotStuck (read_element r off id_cues) _ (read_element-NotStuck r off id_cues) (λ b.
      bind-NotStuck (children b) _ (children-ne-stuck b) (λ points.
        bind-NotStuck (cues_loop s points) _ (cues_loop-NotStuck s points)
          (λ cues e. ground arith)))

visit-NotStuck :
    (r : ReaderAt) (data_start off : ℕ) (h : Header) (n : ℕ) (w : Walk)
    → NotStuck (visit r data_start off h n w)
unfolding visit
visit-NotStuck r data_start off h n w e =
    ground (arith, read_bytes-ne-stuck r (off + h.header_len) n)

module _ (fuel : ℕ) (r : ReaderAt) (first last off : ℕ)
    (again : (next : ℕ) (w : Walk)
      → last ≤ next + fuel
      → NotStuck (walk_loop fuel r first last next w))
    (w : Walk) (enough : last ≤ off + suc fuel) where
  walk_round-NotStuck :
      (h : Header) (s : Size)
      → read_header_at r off ≡ ok h
      → h.size ≡ s
      → NotStuck (walk_loop (suc fuel) r first last off w)
  unfolding walk_loop
  walk_round-NotStuck h unknown_size q z e = ground arith
  walk_round-NotStuck h (known n) q z e =
      let two = read_header_at_takes r off h q in
      elim (Result-cases (visit r first off h n w)) [
        | inr (x, v) ↦ ground (arith, visit-NotStuck r first off h n w)
        | inl (w', v) ↦ ground (arith, again (off + h.header_len + n) w')
      ]

  walk_step-NotStuck : NotStuck (walk_loop (suc fuel) r first last off w)
  walk_step-NotStuck e = elim (Result-cases (read_header_at r off)) [
    | inr (x, q) ↦ unfold walk_loop in ground (arith, read_header_at-ne-stuck r off)
    | inl (h, q) ↦ walk_round-NotStuck h h.size q refl e
  ]

walk_loop-NotStuck :
    (fuel : ℕ) (r : ReaderAt) (first last off : ℕ) (w : Walk)
    → last ≤ off + fuel
    → NotStuck (walk_loop fuel r first last off w)
walk_loop-NotStuck zero r first last off w h e = unfold walk_loop in ground arith
walk_loop-NotStuck (suc fuel) r first last off w h e =
    walk_step-NotStuck fuel r first last off (λ next v. walk_loop-NotStuck fuel r first last next v)
      w h e

module _ (floats : Floats) where
  load_metadata-NotStuck :
      (r : ReaderAt) (s : Source) (w : Walk) → NotStuck (load_metadata floats r s w)
  unfolding load_metadata
  load_metadata-NotStuck r s w =
      bind-NotStuck (if w.first_cluster == 0 then err unsupported else ok w.first_cluster) _
        (λ e. ground arith)
        (λ first. bind-NotStuck (required w.info_off) _ (required-NotStuck w.info_off) (λ info_off.
          bind-NotStuck (required w.tracks_off) _ (required-NotStuck w.tracks_off) (λ tracks_off.
            bind-NotStuck (required w.cues_off) _ (required-NotStuck w.cues_off) (λ cues_off.
              bind-NotStuck
                (parse_info floats r info_off
                  (record s { attachments = w.attachments; first_cluster = first }))
                _ (parse_info-NotStuck floats r info_off _)
                (λ s1.
                  bind-NotStuck (parse_tracks r tracks_off s1) _
                    (parse_tracks-NotStuck r tracks_off s1)
                    (λ s2. parse_cues-NotStuck r cues_off s2))))))
    where
      required-NotStuck : (o : Option ℕ) → NotStuck (required o)
      required-NotStuck none e = ground arith
      required-NotStuck (some off) e = ground arith

  -- `Open` ends on every file: its walk never runs out of fuel.
  pub open_source-ne-stuck : (r : ReaderAt) (size : ℕ) → open_source floats r size ≢ err stuck
  unfolding open_source
  open_source-ne-stuck r size =
      bind-NotStuck (read_header_at r 0) _ (read_header_at-ne-stuck r 0) (λ h.
        bind-NotStuck (if h.id == id_ebml then sized unsupported h.size else err unsupported) _
          (sized-NotStuck (h.id == id_ebml) h.size)
          (λ n.
            bind-NotStuck (read_bytes r 0 (h.header_len + n)) _
              (read_bytes-ne-stuck r 0 (h.header_len + n))
              (λ header.
                bind-NotStuck (read_header_at r (length header)) _
                  (read_header_at-ne-stuck r (length header))
                  (λ seg.
                    bind-NotStuck (walk_from floats r size (length header) seg) _
                      (walk_from-NotStuck r size (length header) seg)
                      (λ w. load_metadata-NotStuck r (bare floats size header seg) w)))))
    where
      sized-NotStuck :
          (b : Bool) (s : Size) → NotStuck (if b then sized unsupported s else err unsupported)
      sized-NotStuck true (known n) e = ground arith
      sized-NotStuck true unknown_size e = ground arith
      sized-NotStuck false s e = ground arith

      walk_from-NotStuck :
          (r : ReaderAt) (size start : ℕ) (seg : Header)
          → NotStuck (walk_from floats r size start seg)
      walk_from-NotStuck r size start seg e =
          let first = start + seg.header_len in
          let last = segment_end_of size first seg.size in
          ground
            (arith, walk_loop-NotStuck last r first last first (fresh_walk floats) (omega arith))

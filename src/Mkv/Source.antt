-- ===== src/Mkv/Source.antt =====
-- The metadata of internal/mkv/mkv.go: `CuePoint`, `Source`, `readAt`, `readElement`, `seekPosition`,
-- `parseInfo`, `parseTracks` and `parseCues`. Offsets are plain numbers: a coded size is below 2^56, so
-- no sum of a position in a file below 2^62 bytes and a size wraps.
use docker_smartclips.Prelude.{
  ℕ, ◌+◌, ◌*◌, ◌/◌, ◌%◌, ◌^◌, Bool, true, false, ◌&&◌, not, Option, none, some, List, [], ◌∷◌, ◌++◌,
  length,
}
use docker_smartclips.Prelude.{ltb, leb, ◌==◌, if◌then◌else◌}
use docker_smartclips.Io.{
  IoError, io, unsupported, unexpected_element, Result, ok, err, ◌>>=◌, ReaderAt,
}
use docker_smartclips.Floats.{Floats, float_or_zero}
use docker_smartclips.Ebml.Ids.{
  id_seek, id_seek_id, id_seek_position, id_info, id_tracks, id_cues, id_timestamp_scale,
  id_duration, id_track_entry, id_track_number, id_track_type, id_cue_point, id_cue_time,
  id_cue_track_positions, id_cue_track, id_cue_cluster_position,
}
use docker_smartclips.Ebml.Read.{sized, read_header_at, Element, children, uint_or_zero, max_int64}
use docker_smartclips.Layout.Read.{short_error}

abbrev pub max_element : ℕ
max_element = 64 * 2 ^ 20

pub record CuePoint : Type 0 where
  pub time : ℕ
  pub cluster_off : ℕ

pub record Source : Type 0 where
  pub size : ℕ
  pub ebml_header : List ℕ
  pub segment_data : ℕ
  pub segment_end : ℕ
  pub timestamp_scale : ℕ
  pub duration : ℕ
  pub info_children : List Element
  pub tracks_children : List Element
  pub video_track : ℕ
  pub attachments : Option (ℕ × ℕ)
  pub first_cluster : ℕ
  pub cues : List CuePoint

abbrev pub whole_read : ℕ → List ℕ × Option IoError → Result (List ℕ)
whole_read n (got, e) = if ltb (length got) n then err (io (short_error e)) else ok got

-- `readAt`
unfoldable pub read_bytes : ReaderAt → ℕ → ℕ → Result (List ℕ)
read_bytes r off n = if ltb max_element n then err unsupported else whole_read n (r off n)

unfoldable pub read_element : ReaderAt → ℕ → ℕ → Result (List ℕ)
read_element r off id = do
  h ← read_header_at r off
  let body = do n ← sized unsupported h.size; read_bytes r (off + h.header_len) n
  if not (h.id == id) then err (unexpected_element h.id) else body

-- The ID, the position and whether one was found among the children of a Seek element.
pub record SeekEntry : Type 0 where
  pub id : ℕ
  pub pos : ℕ
  pub found : Bool

unfoldable pub seek_entry : List Element → SeekEntry → SeekEntry
seek_entry [] s = s
seek_entry (k ∷ kids) s = seek_entry kids (
    if k.id == id_seek_id
    then record s { id = uint_or_zero k.payload % 2 ^ 32 }
    else if k.id == id_seek_position
    then record s { pos = uint_or_zero k.payload; found = true }
    else s)

unfoldable pub seek_matches : ℕ → Element → Option ℕ
unfolding seek_entry
seek_matches want seek = elim (children seek.payload) [
  | err e ↦ none
  | ok kids ↦
      let s = seek_entry kids (record { id = 0; pos = 0; found = false }) in
      if seek.id == id_seek && (s.id == want && s.found && ltb s.pos (max_int64 / 2))
      then some s.pos
      else none
]

unfoldable pub seek_loop : ℕ → List Element → Option ℕ
seek_loop want [] = none
seek_loop want (seek ∷ seeks) = elim (seek_matches want seek) [
  | some pos ↦ some pos
  | none ↦ seek_loop want seeks
]

unfoldable pub seek_position : List ℕ → ℕ → Option ℕ
unfolding seek_loop
seek_position seek_head want = elim (children seek_head) [
  | err e ↦ none
  | ok seeks ↦ seek_loop want seeks
]

module _ (floats : Floats) where
  unfoldable pub info_loop : List Element → Source → Source
  info_loop [] s = s
  info_loop (c ∷ cs) s = info_loop cs (
      if c.id == id_timestamp_scale
      then (if ltb 0 (uint_or_zero c.payload)
          then record s { timestamp_scale = uint_or_zero c.payload }
          else s)
      else if c.id == id_duration
      then record s { duration = float_or_zero floats c.payload }
      else s)

  unfoldable pub parse_info : ReaderAt → ℕ → Source → Result Source
  unfolding info_loop
  parse_info r off s = do
    b ← read_element r off id_info
    kids ← children b
    ok (info_loop kids (record s { info_children = kids }))

-- The last track number and type among the children of a TrackEntry.
unfoldable pub track_entry : List Element → ℕ → ℕ → ℕ × ℕ
track_entry [] num typ = (num, typ)
track_entry (k ∷ kids) num typ =
    track_entry kids (if k.id == id_track_number then uint_or_zero k.payload else num)
      (if k.id == id_track_type then uint_or_zero k.payload else typ)

abbrev pub video_of : ℕ → ℕ × ℕ → ℕ
video_of video (num, typ) = if typ == 1 && (video == 0) then num else video

unfoldable pub tracks_loop : List Element → ℕ → Result ℕ
unfolding track_entry
tracks_loop [] video = ok video
tracks_loop (t ∷ ts) video = do
  next ←
      (if not (t.id == id_track_entry)
        then ok video
        else (do kids ← children t.payload; ok (video_of video (track_entry kids 0 0))))
  tracks_loop ts next

unfoldable pub parse_tracks : ReaderAt → ℕ → Source → Result Source
unfolding tracks_loop
parse_tracks r off s = do
  b ← read_element r off id_tracks
  kids ← children b
  video ← tracks_loop kids s.video_track
  if video == 0
      then err unsupported
      else ok (record s { tracks_children = kids; video_track = video })

-- The last cue time among the children of a CuePoint.
unfoldable pub cue_time : List Element → ℕ → ℕ
cue_time [] t = t
cue_time (k ∷ kids) t = cue_time kids (if k.id == id_cue_time then uint_or_zero k.payload else t)

pub record CueTrack : Type 0 where
  pub track : ℕ
  pub cluster : ℕ
  pub has_cluster : Bool

unfoldable pub cue_track : List Element → CueTrack → CueTrack
cue_track [] c = c
cue_track (q ∷ pos) c = cue_track pos (
    if q.id == id_cue_track
    then record c { track = uint_or_zero q.payload }
    else if q.id == id_cue_cluster_position
    then record c { cluster = uint_or_zero q.payload; has_cluster = true }
    else c)

-- The cue points that one CuePoint element adds.
unfoldable pub cue_positions : Source → ℕ → List Element → Result (List CuePoint)
unfolding cue_track
cue_positions s t [] = ok []
cue_positions s t (k ∷ kids) = do
  here ←
      (if not (k.id == id_cue_track_positions) then ok [] else (do
        pos ← children k.payload
        let c = cue_track pos (record { track = 0; cluster = 0; has_cluster = false })
        ok (
            if (c.track == s.video_track) && c.has_cluster && ltb c.cluster s.size
            then record { time = t; cluster_off = s.segment_data + c.cluster } ∷ []
            else [])))
  rest ← cue_positions s t kids
  ok (here ++ rest)

unfoldable pub cues_loop : Source → List Element → Result (List CuePoint)
unfolding cue_time cue_positions
cues_loop s [] = ok []
cues_loop s (p ∷ points) = do
  here ←
      (if not (p.id == id_cue_point)
        then ok []
        else (do kids ← children p.payload; cue_positions s (cue_time kids 0) kids))
  rest ← cues_loop s points
  ok (here ++ rest)

-- `sort.Slice` by time. (Go leaves the order of equal times open; here it is that of the file.)
unfoldable pub insert_cue : CuePoint → List CuePoint → List CuePoint
insert_cue c [] = c ∷ []
insert_cue c (d ∷ cues) = if leb c.time d.time then c ∷ d ∷ cues else d ∷ insert_cue c cues

unfoldable pub sort_cues : List CuePoint → List CuePoint
unfolding insert_cue
sort_cues [] = []
sort_cues (c ∷ cues) = insert_cue c (sort_cues cues)

unfoldable pub parse_cues : ReaderAt → ℕ → Source → Result Source
unfolding cues_loop sort_cues
parse_cues r off s = do
  b ← read_element r off id_cues
  points ← children b
  cues ← cues_loop s points
  if length cues == 0 then err unsupported else ok (record s { cues = sort_cues cues })

-- ===== src/Mkv/Assemble.antt =====
-- `droppedInfo` and `assemble` of internal/mkv/mkv.go: the new headers, the index and the parts.
use docker_smartclips.Prelude.{
  ℕ, ◌+◌, Bool, false, ◌&&◌, ◌||◌, Option, none, some, List, [], ◌∷◌, ◌++◌, length, ltb, ◌==◌,
  if◌then◌else◌,
}
use docker_smartclips.Prelude.Int64.{sub_i64, le_i64}
use docker_smartclips.Floats.{Floats}
use docker_smartclips.Ebml.Ids.{
  id_crc32, id_void, id_duration, id_title, id_info, id_tracks, id_timestamp, id_cluster,
  id_cue_track, id_cue_cluster_position, id_cue_time, id_cue_track_positions, id_cue_point, id_cues,
  id_seek_id, id_seek_position, id_seek, id_attachments, id_seek_head, id_segment,
}
use docker_smartclips.Ebml.Read.{Element}
use docker_smartclips.Ebml.Write.{
  append_id, append_size_width, append_element, append_bytes, append_uint, append_uint_width,
}
use docker_smartclips.Layout.Part.{Part, literal, range, append_part, parts_len}
use docker_smartclips.Mkv.Source.{Source, CuePoint}
use docker_smartclips.Mkv.Cluster.{Cluster}

abbrev pub member : ℕ → List ℕ → Bool
member x [] = false
member x (y ∷ ys) = x == y || member x ys

-- `droppedInfo`
abbrev pub dropped_info : List ℕ
dropped_info =
    id_crc32 ∷ id_void ∷ id_duration ∷ id_title ∷ 0x73a4 ∷ 0x3cb923 ∷ 0x3eb923 ∷ 0x3c83ab ∷ 0x3e83bb
    ∷ 0x4461 ∷ 0x7384 ∷ 0x6924 ∷ []

-- The raw bytes of the elements whose ID is not in `dropped`.
unfoldable pub kept_raws : List ℕ → List Element → List ℕ
kept_raws dropped [] = []
kept_raws dropped (c ∷ cs) =
    let rest = kept_raws dropped cs in if member c.id dropped then rest else c.raw ++ rest

-- `AppendFloat`
unfoldable pub append_float : List ℕ → ℕ → ℕ → List ℕ
append_float dst id f = append_element dst id (append_bytes [] f 8)

module _ (floats : Floats) where
  unfoldable pub info_element : Source → ℕ → ℕ → List ℕ → List ℕ
  info_element s origin end_t title =
      let info = kept_raws dropped_info s.info_children in
      let timed = append_float info id_duration (floats.of_int (sub_i64 end_t origin)) in
      append_element [] id_info (append_element timed id_title title)

unfoldable pub tracks_element : Source → List ℕ
tracks_element s =
    append_element [] id_tracks (kept_raws (id_crc32 ∷ id_void ∷ []) s.tracks_children)

-- The new header of a cluster: its ID, the size of its timestamp and body, and the shifted timestamp.
unfoldable pub new_header_of : ℕ → Cluster → List ℕ
new_header_of origin c =
    let ts = append_uint [] id_timestamp (sub_i64 c.timestamp origin) in
    append_size_width (append_id [] id_cluster) (length ts + parts_len c.body) 8 ++ ts

unfoldable pub with_headers : ℕ → List Cluster → List Cluster
with_headers origin [] = []
with_headers origin (c ∷ cs) =
    record c { new_header = new_header_of origin c } ∷ with_headers origin cs

-- `byOff`: the last cluster at an offset, by its place in the list.
unfoldable pub cluster_at : ℕ → List Cluster → Option Cluster
cluster_at off [] = none
cluster_at off (c ∷ cs) = elim (cluster_at off cs) [
  | some d ↦ some d
  | none ↦ if c.off == off then some c else none
]

pub record Cue : Type 0 where
  pub time : ℕ
  pub cluster_off : ℕ

-- The cue points inside the clip, with their shifted time and the offset that names their cluster.
unfoldable pub cues_inside : ℕ → ℕ → List Cluster → List CuePoint → List Cue
unfolding cluster_at
cues_inside origin end_t clusters [] = []
cues_inside origin end_t clusters (cp ∷ cps) =
    let rest = cues_inside origin end_t clusters cps in
    elim (cluster_at cp.cluster_off clusters) [
      | none ↦ rest
      | some c ↦
          if le_i64 origin cp.time && ltb cp.time end_t
          then record { time = sub_i64 cp.time origin; cluster_off = cp.cluster_off } ∷ rest
          else rest
    ]

-- `q.c.newOffset`
abbrev pub new_offset_at : ℕ → List Cluster → ℕ
new_offset_at off clusters = elim (cluster_at off clusters) [ none ↦ 0 | some c ↦ c.new_offset ]

unfoldable pub cue_point : ℕ → List Cluster → Cue → List ℕ
cue_point video clusters q =
    let pos =
      append_uint_width (append_uint [] id_cue_track video) id_cue_cluster_position
        (new_offset_at q.cluster_off clusters) 8 in
    append_element (append_uint [] id_cue_time q.time) id_cue_track_positions pos

unfoldable pub cue_points : ℕ → List Cluster → List Cue → List ℕ → List ℕ
unfolding cue_point
cue_points video clusters [] pts = pts
cue_points video clusters (q ∷ cues) pts =
    cue_points video clusters cues (append_element pts id_cue_point (cue_point video clusters q))

-- `cuesEl`, over the clusters as they stand at the call.
unfoldable pub cues_element : ℕ → List Cluster → List Cue → List ℕ
unfolding cue_points
cues_element video clusters cues = append_element [] id_cues (cue_points video clusters cues [])

unfoldable pub seek_element : ℕ → ℕ → List ℕ
seek_element id pos =
    append_element [] id_seek
      (append_uint_width (append_element [] id_seek_id (append_id [] id)) id_seek_position pos 8)

-- `seekHead`; no attachments position is the source's -1.
unfoldable pub seek_head : ℕ → ℕ → ℕ → Option ℕ → List ℕ
unfolding seek_element
seek_head info_pos tracks_pos cues_pos att_pos =
    let att : List ℕ = elim att_pos [ none ↦ [] | some pos ↦ seek_element id_attachments pos ] in
    append_element [] id_seek_head (
      seek_element id_info info_pos
      ++ (seek_element id_tracks tracks_pos ++ (att ++ seek_element id_cues cues_pos)))

-- The new offsets, from position `pos` on.
unfoldable pub place_clusters : ℕ → List Cluster → List Cluster
place_clusters pos [] = []
place_clusters pos (c ∷ cs) =
    record c { new_offset = pos } ∷ place_clusters (pos + length c.new_header + parts_len c.body) cs

unfoldable pub end_of_clusters : ℕ → List Cluster → ℕ
end_of_clusters pos [] = pos
end_of_clusters pos (c ∷ cs) = end_of_clusters (pos + length c.new_header + parts_len c.body) cs

unfoldable pub append_body : List Part → List Part → List Part
append_body parts [] = parts
append_body parts (p ∷ body) = append_body (append_part parts p) body

unfoldable pub append_clusters : List Part → List Cluster → List Part
unfolding append_body
append_clusters parts [] = parts
append_clusters parts (c ∷ cs) =
    append_clusters (append_body (append_part parts (literal c.new_header)) c.body) cs

-- The positions inside the new Segment.
pub record Positions : Type 0 where
  pub info : ℕ
  pub tracks : ℕ
  pub att : Option ℕ
  pub cues : ℕ
  pub clusters : ℕ

-- "Element sizes don't depend on the positions, so lay out once."
unfoldable pub positions : Option (ℕ × ℕ) → ℕ → ℕ → ℕ → Positions
positions none info_len tracks_len cues_len =
    let info = length (seek_head 0 0 0 none) in
    record {
      info = info;
      tracks = info + info_len;
      att = none;
      cues = info + info_len + tracks_len;
      clusters = info + info_len + tracks_len + cues_len;
    }
positions (some (off, len)) info_len tracks_len cues_len =
    let info = length (seek_head 0 0 0 (some 0)) in
    record {
      info = info;
      tracks = info + info_len;
      att = some (info + info_len + tracks_len);
      cues = info + info_len + tracks_len + len;
      clusters = info + info_len + tracks_len + len + cues_len;
    }

abbrev pub append_attachments : List Part → Option (ℕ × ℕ) → List Part
append_attachments parts none = parts
append_attachments parts (some (off, len)) = append_part parts (range off len)

-- The bytes before the attachments and the index.
unfoldable pub head_bytes : List ℕ → Positions → ℕ → List ℕ → List ℕ → List ℕ
head_bytes ebml_header pos segment_len info tracks =
    append_size_width (append_id ebml_header id_segment) segment_len 8
    ++ (seek_head pos.info pos.tracks pos.cues pos.att ++ (info ++ tracks))

-- What follows the Info and Tracks elements, the clusters' headers and the cues inside the clip.
unfoldable pub lay_out :
    List ℕ → List ℕ → List ℕ → Option (ℕ × ℕ) → ℕ → List Cluster → List Cue → List Part
lay_out ebml_header info tracks att video headed cues =
    let pos =
      positions att (length info) (length tracks) (length (cues_element video headed cues)) in
    let placed = place_clusters pos.clusters headed in
    let head = head_bytes ebml_header pos (end_of_clusters pos.clusters headed) info tracks in
    append_clusters
      (append_part (append_attachments (literal head ∷ []) att)
        (literal (cues_element video placed cues)))
      placed

module _ (floats : Floats) where
  unfoldable pub assemble : Source → List Cluster → ℕ → ℕ → List ℕ → List Part
  unfolding lay_out
  assemble s clusters origin end_t title =
      let headed = with_headers origin clusters in
      lay_out s.ebml_header (info_element floats s origin end_t title) (tracks_element s)
        s.attachments s.video_track headed (cues_inside origin end_t headed s.cues)

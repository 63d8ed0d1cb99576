-- ===== src/Mkv/Open.antt =====
-- `Open` of internal/mkv/mkv.go: the walk over the top-level elements up to the first cluster.
use docker_smartclips.Prelude.{
  ℕ, zero, suc, ◌+◌, Option, none, some, [], length, ltb, ◌==◌, if◌then◌else◌,
}
use docker_smartclips.Io.{unsupported, stuck, Result, ok, err, ◌>>=◌, ReaderAt}
use docker_smartclips.Floats.{Floats}
use docker_smartclips.Ebml.Ids.{
  id_ebml, id_segment, id_cluster, id_info, id_tracks, id_cues, id_attachments, id_seek_head,
}
use docker_smartclips.Ebml.Read.{Header, Size, known, unknown_size, sized, read_header_at}
use docker_smartclips.Mkv.Source.{
  Source, read_bytes, seek_position, parse_info, parse_tracks, parse_cues,
}

-- The offsets found so far; `none` is the source's -1, and `first_cluster` is 0 where none was met.
pub record Walk : Type 0 where
  pub info_off : Option ℕ
  pub tracks_off : Option ℕ
  pub cues_off : Option ℕ
  pub attachments : Option (ℕ × ℕ)
  pub first_cluster : ℕ

abbrev pub or_else : Option ℕ → Option ℕ → Option ℕ
or_else (some a) b = some a
or_else none b = b

abbrev pub add_offset : ℕ → Option ℕ → Option ℕ
add_offset base none = none
add_offset base (some pos) = some (base + pos)

-- The switch on the element with header `h` at `off`.
unfoldable pub visit : ReaderAt → ℕ → ℕ → Header → ℕ → Walk → Result Walk
visit r segment_data off h n w =
    if h.id == id_info
    then ok (record w { info_off = some off })
    else if h.id == id_tracks
    then ok (record w { tracks_off = some off })
    else if h.id == id_cues
    then ok (record w { cues_off = some off })
    else if h.id == id_attachments
    then ok (record w { attachments = some (off, h.header_len + n) })
    else if h.id == id_seek_head
    then (do
      b ← read_bytes r (off + h.header_len) n
      ok (record w {
        cues_off = or_else w.cues_off (add_offset segment_data (seek_position b id_cues));
      }))
    else ok w

-- `for off := s.SegmentData; off < s.SegmentEnd;`. Each round takes two bytes at least.
unfoldable pub walk_loop : ℕ → ReaderAt → ℕ → ℕ → ℕ → Walk → Result Walk
unfolding visit
walk_loop zero r segment_data segment_end off w = if ltb off segment_end then err stuck else ok w
walk_loop (suc fuel) r segment_data segment_end off w =
    let body = do
      h ← read_header_at r off
      let next = do
        n ← sized unsupported h.size
        w' ← visit r segment_data off h n w
        walk_loop fuel r segment_data segment_end (off + h.header_len + n) w'
      if h.id == id_cluster then ok (record w { first_cluster = off }) else next
    in if ltb off segment_end then body else ok w

-- `s.SegmentData+seg.Size < size`
abbrev pub segment_end_of : ℕ → ℕ → Size → ℕ
segment_end_of size segment_data (known n) =
    if ltb (segment_data + n) size then segment_data + n else size
segment_end_of size segment_data unknown_size = size

abbrev pub required : Option ℕ → Result ℕ
required none = err unsupported
required (some off) = ok off

module _ (floats : Floats) where
  -- What follows the walk.
  unfoldable pub load_metadata : ReaderAt → Source → Walk → Result Source
  load_metadata r s w = do
    first ← (if w.first_cluster == 0 then err unsupported else ok w.first_cluster)
    info_off ← required w.info_off
    tracks_off ← required w.tracks_off
    cues_off ← required w.cues_off
    s1 ←
        parse_info floats r info_off
          (record s { attachments = w.attachments; first_cluster = first })
    s2 ← parse_tracks r tracks_off s1
    parse_cues r cues_off s2

  unfoldable pub open_source : ReaderAt → ℕ → Result Source
  unfolding load_metadata walk_loop
  open_source r size = do
    h ← read_header_at r 0
    n ← (if h.id == id_ebml then sized unsupported h.size else err unsupported)
    ebml_header ← read_bytes r 0 (h.header_len + n)
    seg ← read_header_at r (length ebml_header)
    let segment_data = length ebml_header + seg.header_len
    let segment_end = segment_end_of size segment_data seg.size
    w ←
        (if seg.id == id_segment
          then walk_loop segment_end r segment_data segment_end segment_data (record {
            info_off = none;
            tracks_off = none;
            cues_off = none;
            attachments = none;
            first_cluster = 0;
          })
          else err unsupported)
    load_metadata r
        (record {
          size = size;
          ebml_header = ebml_header;
          segment_data = segment_data;
          segment_end = segment_end;
          timestamp_scale = 1000000;
          duration = 0;
          info_children = [];
          tracks_children = [];
          video_track = 0;
          attachments = none;
          first_cluster = 0;
          cues = [];
        })
        w

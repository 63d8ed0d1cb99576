-- ===== src/Mkv/Tests.antt =====
-- Runs of the functions of internal/mkv on a small file, and the theorems at concrete inputs.
use docker_smartclips.Prelude.{
  ℕ, ◌+◌, ◌*◌, ◌/◌, ◌-◌, ◌≡◌, ◌≢◌, refl, inl, inr, List, [], ◌∷◌, ◌++◌, arith, All, none, ltb, leb,
}
use docker_smartclips.Io.{ok, err, file_reader, stuck}
use docker_smartclips.Floats.{Floats}
use docker_smartclips.Ebml.Read.{
  vint_len, shift_in, read_id, size_loop, read_size, parse_header, read_header_at, children, uint,
}
use docker_smartclips.Mkv.Source.{
  Source, read_bytes, read_element, info_loop, parse_info, track_entry, tracks_loop, parse_tracks,
  cue_time, cue_track, cue_positions, cues_loop, insert_cue, sort_cues, parse_cues,
}
use docker_smartclips.Prelude.{some}
use docker_smartclips.Mkv.Source.{CuePoint}
use docker_smartclips.Mkv.Cluster.{Block}
use docker_smartclips.Mkv.Select.{keep_from, keep_until, until_loop, rebased_parts, rebased_loop}
use docker_smartclips.Mkv.Assemble.{
  Cue, positions, seek_head, cues_element, cue_points, cue_point, place_clusters, seek_element,
}
use docker_smartclips.Layout.Part.{parts_len, Part, append_part, append_last, merge, literal, range}
use docker_smartclips.Ebml.Write.{
  append_element, append_id, append_bytes, append_size_width, size_width, append_uint,
  append_uint_width, uint_width, uint_bytes,
}
use docker_smartclips.Mkv.Cues.{IsLastBefore, key_cue-IsLastBefore}
use docker_smartclips.Mkv.Keep.{IsCut, keep_until-IsCut, keep_from-at}
use docker_smartclips.Mkv.Rebase.{IsBlockOf, IsRebased, rebased_parts-IsRebased}
use docker_smartclips.Mkv.Segment.{IsSourced}
use docker_smartclips.Mkv.ClipFile.{IsClipFile, lay_out-IsClipFile}
use docker_smartclips.Mkv.Collect.{IsCollected, collect_clusters-IsCollected}
use docker_smartclips.Mkv.Opened.{build_clip-of-open}
use docker_smartclips.Mkv.Open.{visit, walk_loop, load_metadata, open_source}
use docker_smartclips.Mkv.Build.{build_clip}
use docker_smartclips.Mkv.Cluster.{
  Cluster, collect_clusters, collect_loop, read_cluster, cluster_loop,
}

-- Whole numbers in place of a float64.
abbrev whole_floats : Floats
whole_floats = record {
  of_bits32 = λ b. b;
  of_uint = λ u. u;
  of_int = λ u. u;
  to_uint = λ f. f;
  round = λ f. f;
  add = λ f g. f + g;
  sub = λ f g. f - g;
  mul = λ f g. f * g;
  div = λ f g. f / g;
  lt = ltb;
  le = leb;
}

-- EBML, Segment of unknown size, Info, Tracks with track 1, Cues with one point, one cluster.
abbrev movie : List ℕ
movie =
    0x1a ∷ 0x45 ∷ 0xdf ∷ 0xa3 ∷ 0x80 ∷ 0x18 ∷ 0x53 ∷ 0x80 ∷ 0x67 ∷ 0xff ∷ 0x15 ∷ 0x49 ∷ 0xa9 ∷ 0x66
    ∷ 0x80 ∷ 0x16 ∷ 0x54 ∷ 0xae ∷ 0x6b ∷ 0x88 ∷ 0xae ∷ 0x86 ∷ 0xd7 ∷ 0x81 ∷ 1 ∷ 0x83 ∷ 0x81 ∷ 1
    ∷ 0x1c ∷ 0x53 ∷ 0xbb ∷ 0x6b ∷ 0x8d ∷ 0xbb ∷ 0x8b ∷ 0xb3 ∷ 0x81 ∷ 0 ∷ 0xb7 ∷ 0x86 ∷ 0xf7 ∷ 0x81
    ∷ 1 ∷ 0xf1 ∷ 0x81 ∷ 36 ∷ 0x1f ∷ 0x43 ∷ 0xb6 ∷ 0x75 ∷ 0x8a ∷ 0xe7 ∷ 0x81 ∷ 0 ∷ 0xa3 ∷ 0x85 ∷ 0x81
    ∷ 0 ∷ 0 ∷ 0x80 ∷ 0xaa ∷ []

abbrev movie_source : Source
movie_source = record {
  size = 61;
  ebml_header = 0x1a ∷ 0x45 ∷ 0xdf ∷ 0xa3 ∷ 0x80 ∷ [];
  segment_data = 10;
  segment_end = 61;
  timestamp_scale = 1000000;
  duration = 0;
  info_children = [];
  tracks_children =
      record {
        id = 174;
        payload = 215 ∷ 129 ∷ 1 ∷ 131 ∷ 129 ∷ 1 ∷ [];
        raw = 174 ∷ 134 ∷ 215 ∷ 129 ∷ 1 ∷ 131 ∷ 129 ∷ 1 ∷ [];
      }
      ∷ [];
  video_track = 1;
  attachments = none;
  first_cluster = 46;
  cues = record { time = 0; cluster_off = 46 } ∷ [];
}

open_movie : open_source whole_floats (file_reader movie) 61 ≡ ok movie_source
unfolding open_source load_metadata walk_loop visit read_header_at file_reader parse_header read_id
    read_size size_loop vint_len read_bytes shift_in parse_info info_loop parse_tracks tracks_loop
    track_entry parse_cues cues_loop cue_time cue_positions cue_track sort_cues insert_cue
    read_element children uint
open_movie = refl

abbrev movie_cluster : Cluster
movie_cluster = record {
  off = 46;
  end = 61;
  blocks_off = 54;
  timestamp = 0;
  new_offset = 0;
  new_header = [];
  body = [];
}

collect_movie : collect_clusters movie_source (file_reader movie) 46 1000 ≡ ok (movie_cluster ∷ [])
unfolding collect_clusters collect_loop read_cluster cluster_loop read_header_at file_reader
    parse_header read_id read_size size_loop vint_len read_bytes shift_in uint
collect_movie = refl

abbrev title : List ℕ
title = 0x68 ∷ 0x69 ∷ []

build_clip-of-open_example :
    build_clip whole_floats movie_source (file_reader []) 0 5 title ≢ err stuck
build_clip-of-open_example =
    build_clip-of-open whole_floats (file_reader movie) (file_reader []) 61 movie_source 0 5 title
      open_movie

collect_clusters-IsCollected_example : IsCollected (file_reader movie) 46 1000 (movie_cluster ∷ [])
collect_clusters-IsCollected_example =
    collect_clusters-IsCollected movie_source (file_reader movie) 46 1000 (movie_cluster ∷ [])
      collect_movie

abbrev cue_at : ℕ → CuePoint
cue_at t = record { time = t; cluster_off = 100 + t }

key_cue-IsLastBefore_example : IsLastBefore (cue_at 3 ∷ cue_at 7 ∷ []) 5
key_cue-IsLastBefore_example =
    key_cue-IsLastBefore (cue_at 3 ∷ cue_at 7 ∷ []) 5 (omega arith) (omega arith)

-- A block of track `track` at the time `t`, of 7 bytes at `off`.
abbrev block_of : ℕ → ℕ → ℕ → Block
block_of track t off = record {
  off = off;
  len = 7;
  track = track;
  time = t;
  ts_off = 3;
  prefix = 0xa3 ∷ 0x85 ∷ 0x81 ∷ [];
}

-- Two tracks; the third video block stands behind a late one and is dropped though it is early.
abbrev mixed : List Block
mixed =
    block_of 1 0 54
    ∷ block_of 2 1 61
    ∷ block_of 1 9 68
    ∷ block_of 2 9 75
    ∷ block_of 1 3 82
    ∷ block_of 2 4 89
    ∷ []

keep_until-mixed : keep_until 1 mixed 5 ≡ block_of 1 0 54 ∷ block_of 2 1 61 ∷ block_of 2 4 89 ∷ []
unfolding keep_until until_loop
keep_until-mixed = refl

keep_until-IsCut_example : IsCut 1 5 mixed (keep_until 1 mixed 5)
keep_until-IsCut_example = keep_until-IsCut 1 5 mixed

keep_from-at_example :
    keep_from 1
      ((block_of 1 0 54 ∷ block_of 2 9 61 ∷ []) ++ (block_of 1 9 68 ∷ block_of 2 8 75 ∷ []))
      9
    ≡ block_of 1 9 68 ∷ []
keep_from-at_example =
    keep_from-at 1 9 (block_of 1 0 54 ∷ block_of 2 9 61 ∷ []) (block_of 2 8 75 ∷ [])
      (block_of 1 9 68) (refl, (refl, tt)) refl

abbrev movie_blocks : List Block
movie_blocks = block_of 1 40 40 ∷ block_of 1 60 54 ∷ []

movie_blocks_fit : All (IsBlockOf 61) movie_blocks
movie_blocks_fit = (
  record { inside = omega arith; stamped = omega arith },
  (record { inside = omega arith; stamped = omega arith }, tt),
)

rebased_parts-IsRebased_example : IsRebased movie [] 50 movie_blocks (rebased_parts movie_blocks 50)
rebased_parts-IsRebased_example =
    rebased_parts-IsRebased movie 50 (omega arith) movie_blocks movie_blocks_fit
      (inr (omega arith), (inl (omega arith), tt)) (omega arith)

abbrev near_block : List Block
near_block = block_of 1 60 54 ∷ []

abbrev near_parts : List Part
near_parts =
    record { bytes = some (0xa3 ∷ 0x85 ∷ 0x81 ∷ 0 ∷ 10 ∷ []); off = 0; len = 5 }
    ∷ record { bytes = none; off = 59; len = 2 }
    ∷ []

rebase-near : rebased_parts near_block 50 ≡ ok near_parts
unfolding rebased_parts rebased_loop append_part append_last merge literal range
rebase-near = refl

abbrev headed : List Cluster
headed =
    record movie_cluster {
      new_header = 1 ∷ 2 ∷ [];
      body = record { bytes = none; off = 54; len = 7 } ∷ [];
    }
    ∷ []

abbrev movie_cues : List Cue
movie_cues = record { time = 0; cluster_off = 46 } ∷ []

movie_is_sourced : IsSourced movie [] (9 ∷ []) (8 ∷ []) none 1 headed movie_cues
unfolding positions seek_head append_element append_id append_bytes append_size_width size_width
    cues_element cue_points cue_point append_uint append_uint_width uint_width uint_bytes
    place_clusters seek_element parts_len
movie_is_sourced = record {
  small = omega arith;
  attachments = tt;
  bodies = ((omega arith, tt), tt);
  room = omega arith;
}

lay_out-IsClipFile_example : IsClipFile movie [] (9 ∷ []) (8 ∷ []) none 1 headed movie_cues
lay_out-IsClipFile_example =
    lay_out-IsClipFile movie [] (9 ∷ []) (8 ∷ []) none 1 headed movie_cues movie_is_sourced

-- ===== src/Ebml/Ids.antt =====
-- The element IDs of internal/ebml/ebml.go (marker bits kept).
use docker_smartclips.Prelude.{ℕ}

abbrev pub id_ebml : ℕ
id_ebml = 0x1a45dfa3

abbrev pub id_segment : ℕ
id_segment = 0x18538067

abbrev pub id_seek_head : ℕ
id_seek_head = 0x114d9b74

abbrev pub id_seek : ℕ
id_seek = 0x4dbb

abbrev pub id_seek_id : ℕ
id_seek_id = 0x53ab

abbrev pub id_seek_position : ℕ
id_seek_position = 0x53ac

abbrev pub id_info : ℕ
id_info = 0x1549a966

abbrev pub id_timestamp_scale : ℕ
id_timestamp_scale = 0x2ad7b1

abbrev pub id_duration : ℕ
id_duration = 0x4489

abbrev pub id_title : ℕ
id_title = 0x7ba9

abbrev pub id_tracks : ℕ
id_tracks = 0x1654ae6b

abbrev pub id_track_entry : ℕ
id_track_entry = 0xae

abbrev pub id_track_number : ℕ
id_track_number = 0xd7

abbrev pub id_track_type : ℕ
id_track_type = 0x83

abbrev pub id_cues : ℕ
id_cues = 0x1c53bb6b

abbrev pub id_cue_point : ℕ
id_cue_point = 0xbb

abbrev pub id_cue_time : ℕ
id_cue_time = 0xb3

abbrev pub id_cue_track_positions : ℕ
id_cue_track_positions = 0xb7

abbrev pub id_cue_track : ℕ
id_cue_track = 0xf7

abbrev pub id_cue_cluster_position : ℕ
id_cue_cluster_position = 0xf1

abbrev pub id_cluster : ℕ
id_cluster = 0x1f43b675

abbrev pub id_timestamp : ℕ
id_timestamp = 0xe7

abbrev pub id_simple_block : ℕ
id_simple_block = 0xa3

abbrev pub id_block_group : ℕ
id_block_group = 0xa0

abbrev pub id_block : ℕ
id_block = 0xa1

abbrev pub id_encrypted_block : ℕ
id_encrypted_block = 0xaf

abbrev pub id_crc32 : ℕ
id_crc32 = 0xbf

abbrev pub id_void : ℕ
id_void = 0xec

abbrev pub id_attachments : ℕ
id_attachments = 0x1941a469

abbrev pub id_chapters : ℕ
id_chapters = 0x1043a770

abbrev pub id_tags : ℕ
id_tags = 0x1254c367

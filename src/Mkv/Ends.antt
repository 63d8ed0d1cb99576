-- ===== src/Mkv/Ends.antt =====
-- `BuildClip` ends on every file, and does not panic.
use docker_smartclips.Prelude.{ℕ, ◌+◌, ◌-◌, ◌<◌, ◌≢◌, inl, inr, arith, none, some, Option-cases}
use docker_smartclips.Prelude.{List, [], ◌∷◌, ◌++◌, length, Bool, Bool-cases}
use docker_smartclips.Io.{stuck, err, Result-cases, ReaderAt}
use docker_smartclips.Floats.{Floats}
use docker_smartclips.Ebml.Read.{Element, children, read_size}
use docker_smartclips.Ebml.Children.{children-ne-stuck}
use docker_smartclips.Prelude.Int64.{sub_i64}
use docker_smartclips.Layout.Part.{Part, literal, range, append_part}
use docker_smartclips.Mkv.Source.{Source, CuePoint, read_bytes}
use docker_smartclips.Mkv.Time.{ticks}
use docker_smartclips.Mkv.Cluster.{
  Cluster, Block, group_block, block_data, read_block, blocks_loop, read_blocks, collect_clusters,
}
use docker_smartclips.Mkv.Select.{keep_from, keep_until, stamp_bytes, rebased_loop, rebased_parts}
use docker_smartclips.Mkv.Build.{
  end_ticks, filter_first, filter_rest, filter_clusters, check_times, cut_clip, build_clip,
  is_single,
}
use docker_smartclips.Mkv.Walks.{read_bytes-ne-stuck}
use docker_smartclips.Mkv.Collect.{collect_clusters-ne-stuck, collect_clusters-IsCollected}
use docker_smartclips.Mkv.Cues.{IsSorted, key_cue-IsLastBefore}

block_data-ne-stuck : (k : Element) → block_data k ≢ err stuck
unfolding block_data
block_data-ne-stuck k e = elim (Result-cases (children k.payload)) [
  | inr (x, q) ↦ ground (arith, children-ne-stuck k.payload)
  | inl (kids, q) ↦ elim (Option-cases (group_block (length k.raw - length k.payload) kids none)) [
    | inl n ↦ ground arith
    | inr (d, s) ↦ ground arith
  ]
]

read_block-ne-stuck :
    (timestamp off : ℕ) (k : Element) (bytes : List ℕ) (start : ℕ)
    → read_block timestamp off k bytes start ≢ err stuck
unfolding read_block
read_block-ne-stuck timestamp off k bytes start e = elim (Result-cases (read_size bytes)) [
  | inr (x, q) ↦ ground arith
  | inl ((s, n), q) ↦ ground arith
]

blocks_loop-ne-stuck :
    (timestamp off : ℕ) (kids : List Element) → blocks_loop timestamp off kids ≢ err stuck
unfolding blocks_loop
blocks_loop-ne-stuck timestamp off [] e = ground arith
blocks_loop-ne-stuck timestamp off (k ∷ kids) e =
    let again = blocks_loop-ne-stuck timestamp (off + length k.raw) kids in
    elim (Result-cases (block_data k)) [
      | inr (x, q) ↦ ground (arith, block_data-ne-stuck k)
      | inl (none, q) ↦ ground (arith, again)
      | inl (some (bytes, start), q) ↦
          ground (arith, again, read_block-ne-stuck timestamp off k bytes start)
    ]

pub read_blocks-ne-stuck : (r : ReaderAt) (c : Cluster) → read_blocks r c ≢ err stuck
unfolding read_blocks
read_blocks-ne-stuck r c e =
    elim (Result-cases (read_bytes r c.blocks_off (c.end - c.blocks_off))) [
      | inr (x, q) ↦ ground (arith, read_bytes-ne-stuck r c.blocks_off (c.end - c.blocks_off))
      | inl (body, q) ↦ elim (Result-cases (children body)) [
        | inr (x, p) ↦ ground (arith, children-ne-stuck body)
        | inl (kids, p) ↦ ground (arith, blocks_loop-ne-stuck c.timestamp c.blocks_off kids)
      ]
    ]

rebased_loop-ne-stuck :
    (parts : List Part) (bs : List Block) (base : ℕ) → rebased_loop parts bs base ≢ err stuck
unfolding rebased_loop
rebased_loop-ne-stuck parts [] base e = ground arith
rebased_loop-ne-stuck parts (b ∷ bs) base e = ground (
  arith,
  rebased_loop-ne-stuck
      (append_part (append_part parts (literal (b.prefix ++ stamp_bytes (sub_i64 b.time base))))
        (range (b.off + b.ts_off + 2) (b.len - b.ts_off - 2)))
      bs base,
)

filter_first-ne-stuck :
    (r : ReaderAt) (video key_time end_t : ℕ) (only : Bool) (c : Cluster)
    → filter_first r video key_time end_t only c ≢ err stuck
unfolding filter_first rebased_parts
filter_first-ne-stuck r video key_time end_t only c e = elim (Result-cases (read_blocks r c)) [
  | inr (x, q) ↦ ground (arith, read_blocks-ne-stuck r c)
  | inl (blocks, q) ↦
      let from = keep_from video blocks key_time in
      ground (
        arith,
        rebased_loop-ne-stuck [] from key_time,
        rebased_loop-ne-stuck [] (keep_until video from end_t) key_time,
      )
]

filter_rest-ne-stuck :
    (r : ReaderAt) (video end_t : ℕ) (cs : List Cluster) → filter_rest r video end_t cs ≢ err stuck
unfolding filter_rest
filter_rest-ne-stuck r video end_t [] e = ground arith
filter_rest-ne-stuck r video end_t (c ∷ []) e = ground (arith, read_blocks-ne-stuck r c)
filter_rest-ne-stuck r video end_t (c ∷ d ∷ cs) e =
    ground (arith, filter_rest-ne-stuck r video end_t (d ∷ cs))

filter_clusters-ne-stuck :
    (r : ReaderAt) (video key_time end_t : ℕ) (cs : List Cluster)
    → 0 < length cs
    → filter_clusters r video key_time end_t cs ≢ err stuck
unfolding filter_clusters
filter_clusters-ne-stuck r video key_time end_t [] h e = absurd (omega arith)
filter_clusters-ne-stuck r video key_time end_t (c ∷ cs) h e = ground (
  arith,
  filter_first-ne-stuck r video key_time end_t (is_single cs) c,
  filter_rest-ne-stuck r video end_t cs,
)

check_times-ne-stuck : (origin : ℕ) (cs : List Cluster) → check_times origin cs ≢ err stuck
unfolding check_times
check_times-ne-stuck origin [] e = ground arith
check_times-ne-stuck origin (c ∷ cs) e = ground (arith, check_times-ne-stuck origin cs)

module _ (floats : Floats) (s : Source) (r : ReaderAt) (title : List ℕ) where
  cut_clip-ne-stuck : (key : CuePoint) (end_t : ℕ) → cut_clip floats s r key end_t title ≢ err stuck
  unfolding cut_clip
  cut_clip-ne-stuck key end_t e = elim (Result-cases (collect_clusters s r key.cluster_off end_t)) [
    | inr (x, q) ↦ ground (arith, collect_clusters-ne-stuck s r key.cluster_off end_t)
    | inl (cs, q) ↦
        let some_cluster =
          (collect_clusters-IsCollected s r key.cluster_off end_t cs q).some_cluster in
        elim (Result-cases (filter_clusters r s.video_track key.time end_t cs)) [
          | inr (x, p) ↦
              ground
                (arith, filter_clusters-ne-stuck r s.video_track key.time end_t cs some_cluster)
          | inl (fs, p) ↦ ground (arith, check_times-ne-stuck key.time fs)
        ]
  ]

  end_ticks-ne-stuck : (start_t end_t : ℕ) → end_ticks floats s start_t end_t ≢ err stuck
  unfolding end_ticks
  end_ticks-ne-stuck start_t end_t e = ground arith

  -- With cue points sorted by time, and one at least, `BuildClip` answers a clip or an error of the
  -- source for every file, interval and title: its loops end and its indices are in range.
  pub build_clip-ne-stuck :
      (start end : ℕ)
      → IsSorted s.cues
      → 0 < length s.cues
      → build_clip floats s r start end title ≢ err stuck
  unfolding build_clip
  build_clip-ne-stuck start end sorted some_cue e =
      let start_t = ticks floats s start in
      let k = key_cue-IsLastBefore s.cues start_t sorted some_cue in
      elim (Bool-cases (floats.le end start)) [
        | inl t ↦ ground arith
        | inr t ↦ elim (Result-cases (end_ticks floats s start_t (ticks floats s end))) [
          | inr (x, q) ↦ ground (arith, end_ticks-ne-stuck start_t (ticks floats s end))
          | inl (end_t, q) ↦ ground (arith, k.answer, cut_clip-ne-stuck k.cue end_t)
        ]
      ]

-- ===== src/Mkv/Build.antt =====
-- `BuildClip` of internal/mkv/mkv.go: the clip of an interval, from the last keyframe at or before it.
use docker_smartclips.Prelude.{
  ℕ, ◌-◌, min, Bool, true, false, none, some, List, [], ◌∷◌, length, ltb, leb, ◌==◌, if◌then◌else◌,
  get_elem?,
}
use docker_smartclips.Prelude.Int64.{lt_i64}
use docker_smartclips.Io.{
  unsupported, end_not_after_start, start_past_end, stuck, Result, ok, err, ◌>>=◌, ReaderAt,
}
use docker_smartclips.Io.Search.{search}
use docker_smartclips.Floats.{Floats, float_zero}
use docker_smartclips.Layout.Part.{Part, range}
use docker_smartclips.Mkv.Source.{Source, CuePoint}
use docker_smartclips.Mkv.Time.{seconds, ticks}
use docker_smartclips.Mkv.Cluster.{Cluster, read_blocks, collect_clusters}
use docker_smartclips.Mkv.Select.{keep_from, keep_until, block_parts, rebased_parts}
use docker_smartclips.Mkv.Assemble.{assemble}

-- `Clip`
pub record Clip : Type 0 where
  pub parts : List Part
  pub actual_start : ℕ
  pub actual_end : ℕ

-- `s.Cues[i].Time`
abbrev pub time_at : List CuePoint → ℕ → ℕ
time_at cues i = elim (get_elem? cues i) [ none ↦ 0 | some c ↦ c.time ]

-- `key`: the cue in front of the first one after `start_t`, and the first one where there is none.
-- (With no cues the source panics; `Open` answers a file that has one.)
unfoldable pub key_cue : List CuePoint → ℕ → Result CuePoint
key_cue cues start_t =
    elim (get_elem? cues (search (length cues) (λ i. ltb start_t (time_at cues i)) - 1)) [
      | none ↦ err stuck
      | some key ↦ ok key
    ]

module _ (floats : Floats) (s : Source) where
  open floats use {le, lt, to_uint}

  -- The end, cut to the duration of the file.
  unfoldable pub end_ticks : ℕ → ℕ → Result ℕ
  end_ticks start_t end_t =
      let dur = to_uint s.duration in
      if lt float_zero s.duration
      then (if leb dur start_t then err start_past_end else ok (min end_t dur))
      else ok end_t

-- The first cluster, filtered by block; `only` where it is the last one too.
unfoldable pub filter_first : ReaderAt → ℕ → ℕ → ℕ → Bool → Cluster → Result Cluster
filter_first r video key_time end_t only c = do
  blocks ← read_blocks r c
  let from = keep_from video blocks key_time
  let keep = if only then keep_until video from end_t else from
  let rebased = do
    body ← rebased_parts keep key_time
    ok (record c { body = body; timestamp = key_time })
  if c.timestamp == key_time then ok (record c { body = block_parts keep }) else rebased

-- The clusters behind the first: the last is filtered by block, the others are whole.
unfoldable pub filter_rest : ReaderAt → ℕ → ℕ → List Cluster → Result (List Cluster)
filter_rest r video end_t [] = ok []
filter_rest r video end_t (c ∷ []) = do
  blocks ← read_blocks r c
  ok (record c { body = block_parts (keep_until video blocks end_t) } ∷ [])
filter_rest r video end_t (c ∷ d ∷ cs) = do
  rest ← filter_rest r video end_t (d ∷ cs)
  ok (record c { body = range c.blocks_off (c.end - c.blocks_off) ∷ [] } ∷ rest)

abbrev pub is_single : List Cluster → Bool
is_single [] = true
is_single (c ∷ cs) = false

unfoldable pub filter_clusters : ReaderAt → ℕ → ℕ → ℕ → List Cluster → Result (List Cluster)
unfolding filter_first filter_rest
filter_clusters r video key_time end_t [] = err stuck
filter_clusters r video key_time end_t (c ∷ cs) = do
  first ← filter_first r video key_time end_t (is_single cs) c
  rest ← filter_rest r video end_t cs
  ok (first ∷ rest)

-- "cluster timestamps decrease"
unfoldable pub check_times : ℕ → List Cluster → Result {0} Unit
check_times origin [] = ok tt
check_times origin (c ∷ cs) =
    let rest = check_times origin cs in if lt_i64 c.timestamp origin then err unsupported else rest

module _ (floats : Floats) where
  -- What follows the choice of the keyframe.
  unfoldable pub cut_clip : Source → ReaderAt → CuePoint → ℕ → List ℕ → Result Clip
  unfolding filter_clusters check_times
  cut_clip s r key end_t title = do
    clusters ← collect_clusters s r key.cluster_off end_t
    filtered ← filter_clusters r s.video_track key.time end_t clusters
    u ← check_times key.time filtered
    ok (record {
      parts = assemble floats s filtered key.time end_t title;
      actual_start = seconds floats s key.time;
      actual_end = seconds floats s end_t;
    })

  unfoldable pub build_clip : Source → ReaderAt → ℕ → ℕ → List ℕ → Result Clip
  unfolding cut_clip key_cue end_ticks
  build_clip s r start end title = do
    end_t ←
        (if floats.le end start
          then err end_not_after_start
          else end_ticks floats s (ticks floats s start) (ticks floats s end))
    key ← key_cue s.cues (ticks floats s start)
    if leb end_t key.time then err start_past_end else cut_clip s r key end_t title

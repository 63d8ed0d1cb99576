-- ===== src/Mkv/Cluster.antt =====
-- `cluster`, `readCluster`, `block`, `readBlocks` and `collectClusters` of internal/mkv/mkv.go.
use docker_smartclips.Prelude.{
  ℕ, zero, suc, ◌+◌, ◌-◌, ◌^◌, ◌&&◌, ◌||◌, Option, none, some, List, [], ◌∷◌, ◌++◌, length, ltb,
  leb, ◌==◌, if◌then◌else◌, bit_or, get_or, take,
}
use docker_smartclips.Prelude.Bits.{shl}
use docker_smartclips.Prelude.Int64.{add_i64}
use docker_smartclips.Io.{
  unsupported, malformed_block, no_cluster, stuck, Result, ok, err, ◌>>=◌, ReaderAt,
}
use docker_smartclips.Ebml.Ids.{
  id_cluster, id_timestamp, id_simple_block, id_block_group, id_block, id_encrypted_block,
}
use docker_smartclips.Ebml.Read.{
  Size, known, unknown_size, sized, read_header_at, read_size, Element, children, uint_or_zero,
}
use docker_smartclips.Layout.Part.{Part}
use docker_smartclips.Mkv.Source.{Source, read_bytes}

pub record Cluster : Type 0 where
  pub off : ℕ
  pub end : ℕ
  pub blocks_off : ℕ
  pub timestamp : ℕ
  pub new_offset : ℕ
  pub new_header : List ℕ
  pub body : List Part

-- The loop of `readCluster` at `p`, with the timestamp met so far.
unfoldable pub cluster_loop : ℕ → ReaderAt → Cluster → ℕ → Option ℕ → Result Cluster
cluster_loop zero r c p time =
    if ltb p c.end then err stuck else ok (record c { blocks_off = c.end })
cluster_loop (suc fuel) r c p time =
    let body = do
      ch ← read_header_at r p
      n ← sized unsupported ch.size
      let next = cluster_loop fuel r c (p + ch.header_len + n)
      let stamped = do
        b ← read_bytes r (p + ch.header_len) n
        cluster_loop fuel r (record c { timestamp = uint_or_zero b }) (p + ch.header_len + n)
            (some (uint_or_zero b))
      let blocks : Result Cluster = elim time [
        | none ↦ err unsupported
        | some t ↦ ok (record c { blocks_off = p })
      ]
      let rest = next time
      if ch.id == id_timestamp
          then stamped
          else if (ch.id == id_simple_block) || (ch.id == id_block_group)
          then blocks
          else if ch.id == id_encrypted_block
          then err unsupported
          else rest
    in if ltb p c.end then body else ok (record c { blocks_off = c.end })

-- The cluster at `off`, or `none` where another element stands there.
unfoldable pub read_cluster : ReaderAt → ℕ → Result (Option Cluster)
unfolding cluster_loop
read_cluster r off = do
  h ← read_header_at r off
  let body = do
    n ← sized unsupported h.size
    c ←
        cluster_loop n r
          (record {
            off = off;
            end = off + h.header_len + n;
            blocks_off = 0;
            timestamp = 0;
            new_offset = 0;
            new_header = [];
            body = [];
          })
          (off + h.header_len) none
    ok (some c)
  if h.id == id_cluster then body else ok none

-- A block's absolute time is an int64.
pub record Block : Type 0 where
  pub off : ℕ
  pub len : ℕ
  pub track : ℕ
  pub time : ℕ
  pub ts_off : ℕ
  pub prefix : List ℕ

-- The last Block among the children of a BlockGroup, and where its payload starts: `at` is where the
-- children start in the group's bytes. (The source reads this off the capacities of its slices.)
unfoldable pub group_block : ℕ → List Element → Option (List ℕ × ℕ) → Option (List ℕ × ℕ)
group_block at [] found = found
group_block at (g ∷ kids) found =
    group_block (at + length g.raw) kids
      (if g.id == id_block then some (g.payload, at + (length g.raw - length g.payload)) else found)

-- The payload of the block in an element and its offset there; `none` for another element.
unfoldable pub block_data : Element → Result (Option (List ℕ × ℕ))
unfolding group_block
block_data k =
    let start = length k.raw - length k.payload in
    if k.id == id_simple_block
    then ok (some (k.payload, start))
    else if k.id == id_block_group
    then (do
      kids ← children k.payload
      let found : Result (Option (List ℕ × ℕ)) = elim (group_block start kids none) [
        | none ↦ err unsupported
        | some d ↦ ok (some d)
      ]
      found)
    else if k.id == id_encrypted_block
    then err unsupported
    else ok none

-- `uint64(track)` of the number that `ReadSize` answers.
abbrev pub track_of : Size → ℕ
track_of (known n) = n
track_of unknown_size = 2 ^ 64 - 1

-- `int16(uint16(hi)<<8 | uint16(lo))`, as an int64.
unfoldable pub relative_time : ℕ → ℕ → ℕ
relative_time hi lo =
    let rel = bit_or (shl 16 hi 8) lo in if ltb rel (2 ^ 15) then rel else rel + (2 ^ 64 - 2 ^ 16)

-- The block whose payload `bytes` starts at `start` in the element `k`, which stands at `off`.
unfoldable pub read_block : ℕ → ℕ → Element → List ℕ → ℕ → Result Block
unfolding relative_time
read_block timestamp off k bytes start = elim (read_size bytes) [
  | err e ↦ err (malformed_block off)
  | ok (track, tl) ↦
      if ltb (length bytes) (tl + 3)
      then err (malformed_block off)
      else ok (record {
        off = off;
        len = length k.raw;
        track = track_of track;
        time = add_i64 timestamp (relative_time (get_or bytes tl 0) (get_or bytes (tl + 1) 0));
        ts_off = start + tl;
        prefix = take (start + tl) k.raw;
      })
]

-- The loop of `readBlocks` with the next element at `off`.
unfoldable pub blocks_loop : ℕ → ℕ → List Element → Result (List Block)
unfolding block_data read_block
blocks_loop timestamp off [] = ok []
blocks_loop timestamp off (k ∷ kids) = do
  found ← block_data k
  here ← elim found [
    | none ↦ ok []
    | some (bytes, start) ↦ (do b ← read_block timestamp off k bytes start; ok (b ∷ []))
  ]
  rest ← blocks_loop timestamp (off + length k.raw) kids
  ok (here ++ rest)

unfoldable pub read_blocks : ReaderAt → Cluster → Result (List Block)
unfolding blocks_loop
read_blocks r c = do
  body ← read_bytes r c.blocks_off (c.end - c.blocks_off)
  kids ← children body
  blocks_loop c.timestamp c.blocks_off kids

-- The offset behind an element that is no cluster, unless it cannot be read or has no size.
unfoldable pub skip_element : ReaderAt → ℕ → Option ℕ
skip_element r off = elim (read_header_at r off) [
  | err e ↦ none
  | ok h ↦ elim h.size [ known n ↦ some (off + h.header_len + n) | unknown_size ↦ none ]
]

-- The loop of `collectClusters` at `off`, with the clusters so far.
unfoldable pub collect_loop : ℕ → ReaderAt → ℕ → ℕ → ℕ → List Cluster → Result (List Cluster)
collect_loop zero r segment_end end_t off out = if ltb off segment_end then err stuck else ok out
collect_loop (suc fuel) r segment_end end_t off out =
    let body = do
      found ← read_cluster r off
      elim found [
        | none ↦ elim (skip_element r off) [
          | none ↦ ok out
          | some next ↦ collect_loop fuel r segment_end end_t next out
        ]
        | some c ↦
            let more = collect_loop fuel r segment_end end_t c.end (out ++ (c ∷ [])) in
            if ltb 0 (length out) && leb end_t c.timestamp then ok out else more
      ]
    in if ltb off segment_end then body else ok out

unfoldable pub collect_clusters : Source → ReaderAt → ℕ → ℕ → Result (List Cluster)
unfolding collect_loop
collect_clusters s r off end_t = do
  out ← collect_loop s.segment_end r s.segment_end end_t off []
  if length out == 0 then err no_cluster else ok out

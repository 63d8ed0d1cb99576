-- ===== src/Mkv/Select.antt =====
-- `keepFrom`, `keepUntil`, `blockParts` and `rebasedParts` of internal/mkv/mkv.go.
use docker_smartclips.Prelude.{
  ℕ, ◌+◌, ◌-◌, ◌%◌, ◌^◌, Bool, false, ◌&&◌, ◌||◌, not, List, [], ◌∷◌, ◌++◌, ◌==◌, if◌then◌else◌,
  drop,
}
use docker_smartclips.Prelude.Bits.{shr, to_byte}
use docker_smartclips.Prelude.Int64.{sub_i64, lt_i64, le_i64}
use docker_smartclips.Io.{unsupported, Result, ok, err}
use docker_smartclips.Layout.Part.{Part, literal, range, append_part}
use docker_smartclips.Mkv.Cluster.{Block}

abbrev pub is_key : ℕ → ℕ → Block → Bool
is_key video key_time b = b.track == video && (b.time == key_time)

-- The index of the first video block at the key time, or 0: `i` is the index of the list's head.
unfoldable pub key_index : ℕ → ℕ → ℕ → List Block → ℕ
key_index video key_time i [] = 0
key_index video key_time i (b ∷ blocks) =
    let next = key_index video key_time (i + 1) blocks in
    if is_key video key_time b then i else next

-- The blocks at or after the key time.
unfoldable pub from_key_time : ℕ → List Block → List Block
from_key_time key_time [] = []
from_key_time key_time (b ∷ blocks) =
    let rest = from_key_time key_time blocks in if le_i64 key_time b.time then b ∷ rest else rest

unfoldable pub keep_from : ℕ → List Block → ℕ → List Block
unfolding key_index from_key_time
keep_from video blocks key_time =
    from_key_time key_time (drop (key_index video key_time 0 blocks) blocks)

-- The loop of `keepUntil`, with `videoDone`.
unfoldable pub until_loop : ℕ → ℕ → Bool → List Block → List Block
until_loop video end_t video_done [] = []
until_loop video end_t video_done (b ∷ blocks) =
    let late = le_i64 end_t b.time in
    let stop = b.track == video && (video_done || late) in
    let rest = until_loop video end_t (video_done || stop) blocks in
    if stop || (not (b.track == video) && late) then rest else b ∷ rest

unfoldable pub keep_until : ℕ → List Block → ℕ → List Block
unfolding until_loop
keep_until video blocks end_t = until_loop video end_t false blocks

unfoldable pub block_parts_loop : List Part → List Block → List Part
block_parts_loop parts [] = parts
block_parts_loop parts (b ∷ blocks) =
    block_parts_loop (append_part parts (range b.off b.len)) blocks

unfoldable pub block_parts : List Block → List Part
unfolding block_parts_loop
block_parts blocks = block_parts_loop [] blocks

-- `byte(uint16(rel)>>8), byte(rel)`
abbrev pub stamp_bytes : ℕ → List ℕ
stamp_bytes rel = to_byte (shr (rel % 2 ^ 16) 8) ∷ to_byte rel ∷ []

unfoldable pub rebased_loop : List Part → List Block → ℕ → Result (List Part)
rebased_loop parts [] base = ok parts
rebased_loop parts (b ∷ blocks) base =
    let rel = sub_i64 b.time base in
    let rest =
      rebased_loop
        (append_part (append_part parts (literal (b.prefix ++ stamp_bytes rel)))
          (range (b.off + b.ts_off + 2) (b.len - b.ts_off - 2)))
        blocks base in
    if lt_i64 rel (2 ^ 64 - 2 ^ 15) || lt_i64 (2 ^ 15 - 1) rel then err unsupported else rest

unfoldable pub rebased_parts : List Block → ℕ → Result (List Part)
unfolding rebased_loop
rebased_parts blocks base = rebased_loop [] blocks base

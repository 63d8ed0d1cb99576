-- ===== src/Layout/Read.antt =====
-- `(*Layout).ReadAt` of internal/layout/layout.go.
use docker_smartclips.Prelude.{
  ℕ, ◌-◌, Option, none, some, List, [], ◌∷◌, ◌++◌, length, take, drop, ltb, ◌==◌, if◌then◌else◌,
  get_or,
}
use docker_smartclips.Prelude.Int64.{add_i64, sub_i64, lt_i64, le_i64}
use docker_smartclips.Io.{IoError, eof, unexpected_eof, is_eof, ReaderAt}
use docker_smartclips.Io.Search.{search}
use docker_smartclips.Layout.Part.{Part, Layout}

-- The bytes that stand in the buffer up to `n`, and the error; `none` is a panic.
abbrev pub ReadResult : Type 0
ReadResult = Option (List ℕ × Option IoError)

-- A short read of the data file.
unfoldable pub short_error : Option IoError → IoError
short_error none = unexpected_eof
short_error (some e) = if is_eof e then unexpected_eof else e

-- `copy(dst, src)`: what the destination holds after it.
unfoldable pub copied : List ℕ → List ℕ → List ℕ
copied dst src = let m = take (length dst) src in m ++ drop (length m) dst

-- One part at `within`, for a destination `dst`: the bytes filled, and the error that ends the loop.
unfoldable pub fill_part : Part → ℕ → List ℕ → ReaderAt → Option (List ℕ × Option IoError)
unfolding short_error copied
fill_part part within dst file = elim part.bytes [
  | some d ↦ if ltb (length d) within then none else some (copied dst (drop within d), none)
  | none ↦
      let (got, e) = file (add_i64 part.off within) (length dst) in
      if ltb (length got) (length dst) then some (got, some (short_error e)) else some (got, none)
]

abbrev pub finish : List ℕ → List ℕ → ReadResult
finish p out = if ltb (length out) (length p) then some (out, some eof) else some (out, none)

-- The loop over the parts from `i` on; `out` holds the `n` bytes filled so far of the buffer `p`.
unfoldable pub read_loop : List Part → List ℕ → List ℕ → ℕ → ReaderAt → List ℕ → ReadResult
read_loop [] offsets p off file out = finish p out
read_loop (part ∷ parts) offsets p off file out =
    let n = length out in
    let within = sub_i64 (add_i64 off n) (get_or offsets 0 0) in
    let left = sub_i64 part.len within in
    let rest = length p - n in
    let want = if lt_i64 rest left then rest else left in
    let dst = take want (drop n p) in
    let next = λ (filled : List ℕ). read_loop parts (drop 1 offsets) p off file (out ++ filled) in
    let body : ReadResult = elim (fill_part part within dst file) [
      | none ↦ none
      | some (filled, some e) ↦ some (out ++ filled, some e)
      | some (filled, none) ↦ next filled
    ] in
    let run : ReadResult = if lt_i64 want 0 then none else body in
    if ltb n (length p) then run else finish p out

-- Fills `p` from offset `off`; the part of `off` is the last one that starts at or before it. Without one,
-- which a negative offset has not, a buffer that is not empty makes the index of -1 a panic.
unfoldable pub read_at : Layout → List ℕ → ℕ → ReaderAt → ReadResult
read_at l p off file =
    let i = search (length l.offsets) (λ k. lt_i64 off (get_or l.offsets k 0)) in
    if le_i64 l.size off
    then some ([], some eof)
    else if i == 0
    then (if ltb 0 (length p) then none else some ([], none))
    else read_loop (drop (i - 1) l.parts) (drop (i - 1) l.offsets) p off file []

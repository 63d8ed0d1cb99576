-- ===== src/Layout/Finalize.antt =====
-- `(*Layout).Finalize` of internal/layout/layout.go.
use docker_smartclips.Prelude.{
  ℕ, ◌+◌, ◌%◌, ◌^◌, ◌||◌, ◌&&◌, not, Option, none, some, List, [], ◌∷◌, ◌++◌, length, ◌==◌,
  if◌then◌else◌,
}
use docker_smartclips.Prelude.Int64.{add_i64, lt_i64, le_i64}
use docker_smartclips.Io.{Error, part_length, part_range, size_total, Result, ok, err, ◌>>=◌}
use docker_smartclips.Layout.Part.{Part, Layout}

-- The check of part `i` against a data file of `size` bytes.
unfoldable pub check_part : ℕ → ℕ → Part → Option Error
check_part size i p = elim p.bytes [
  | some d ↦ if length d % 2 ^ 64 == p.len then none else some (part_length i)
  | none ↦
      if le_i64 p.len 0 || lt_i64 p.off 0 || lt_i64 size (add_i64 p.off p.len)
      then some (part_range i)
      else none
]

-- The loop at part `i` and position `pos`, with the offsets so far.
unfoldable pub finalize_loop : ℕ → ℕ → ℕ → List ℕ → List Part → Result (List ℕ × ℕ)
finalize_loop size i pos offsets [] = ok (offsets, pos)
finalize_loop size i pos offsets (p ∷ parts) = elim (check_part size i p) [
  | some e ↦ err e
  | none ↦ finalize_loop size (i + 1) (add_i64 pos p.len) (offsets ++ (pos ∷ [])) parts
]

unfoldable pub finalize : Layout → Result Layout
unfolding finalize_loop
finalize l = do
  (offsets, pos) ← finalize_loop l.source.size 0 0 [] l.parts
  if not (l.size == 0) && not (l.size == pos)
      then err (size_total l.size pos)
      else ok (record l { size = pos; offsets = offsets })

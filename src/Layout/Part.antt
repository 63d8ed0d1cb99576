-- ===== src/Layout/Part.antt =====
-- The parts of internal/layout/layout.go: `Part`, `Append`, `Literal`, `Range`, `FileID`, `Layout`,
-- and `partsLen` of internal/mkv/mkv.go. An int64 is its bit pattern.
use docker_smartclips.Prelude.{
  ℕ, Option, none, some, List, [], ◌∷◌, ◌++◌, length, ◌==◌, if◌then◌else◌,
}
use docker_smartclips.Prelude.Int64.{add_i64}

-- `Data` is `none` where the source's slice is nil.
pub record Part : Type 0 where
  pub bytes : Option (List ℕ)
  pub off : ℕ
  pub len : ℕ

pub record FileId : Type 0 where
  pub path : List ℕ
  pub size : ℕ
  pub mod_time : ℕ

pub data Kind : Type 0 where
  mkv remux : Kind

-- A float64 is its bit pattern too.
pub record Layout : Type 0 where
  pub version : ℕ
  pub kind : Kind
  pub origin : FileId
  pub source : FileId
  pub start : ℕ
  pub finish : ℕ
  pub actual_start : ℕ
  pub actual_end : ℕ
  pub size : ℕ
  pub built : ℕ
  pub parts : List Part
  pub offsets : List ℕ

unfoldable pub literal : List ℕ → Part
literal b = record { bytes = some b; off = 0; len = length b }

unfoldable pub range : ℕ → ℕ → Part
range off n = record { bytes = none; off = off; len = n }

-- The switch of `Append` on the last part: the merged part, or that the new part stands alone.
unfoldable pub merge : Part → Part → Option Part
merge last p = elim last.bytes [
  | none ↦ elim p.bytes [
    | none ↦
        if add_i64 last.off last.len == p.off
        then some (record last { len = add_i64 last.len p.len })
        else none
    | some d ↦ none
  ]
  | some c ↦ elim p.bytes [
    | none ↦ none
    | some d ↦ some (record { bytes = some (c ++ d); off = last.off; len = add_i64 last.len p.len })
  ]
]

abbrev pub append_to : Part → Part → List Part
append_to last p = elim (merge last p) [ some q ↦ q ∷ [] | none ↦ last ∷ p ∷ [] ]

-- The parts up to the last stay as they are.
unfoldable pub append_last : List Part → Part → List Part
unfolding merge
append_last [] p = p ∷ []
append_last (last ∷ []) p = append_to last p
append_last (q ∷ r ∷ parts) p = q ∷ append_last (r ∷ parts) p

unfoldable pub append_part : List Part → Part → List Part
append_part parts p = if p.len == 0 then parts else append_last parts p

-- `partsLen`, with the sum so far.
unfoldable pub parts_len_loop : ℕ → List Part → ℕ
parts_len_loop n [] = n
parts_len_loop n (p ∷ parts) = parts_len_loop (add_i64 n p.len) parts

unfoldable pub parts_len : List Part → ℕ
unfolding parts_len_loop
parts_len parts = parts_len_loop 0 parts

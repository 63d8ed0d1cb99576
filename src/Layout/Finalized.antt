-- ===== src/Layout/Finalized.antt =====
-- What `Finalize` accepts, and what it computes.
use docker_smartclips.Prelude.{
  ℕ, ◌+◌, ◌^◌, ◌≤◌, ◌<◌, ◌≡◌, ◌⊎◌, ◌↔◌, sym, ap, ap₂, ◌∙◌, inl, inr, arith, Option, none, some,
}
use docker_smartclips.Prelude.{
  List, [], ◌∷◌, ◌++◌, append-nil, append_assoc, length, All, Option-cases, if◌then◌else◌, ◌==◌,
  not, ◌&&◌,
}
use docker_smartclips.Prelude.Int64.{IsNat64, add_i64_lem, add_i64}
use docker_smartclips.Io.{size_total, Result, ok, err, Result-cases}
use docker_smartclips.Layout.Part.{Part, Layout, range}
use docker_smartclips.Layout.Finalize.{check_part, finalize_loop, finalize}
use docker_smartclips.Layout.Content.{total, FitsAt, Fits}
use docker_smartclips.Layout.Offsets.{offsets_of}

-- The numbers of a part are those of an int64, negative ones included, and where the offset and the
-- length are not negative their sum does not wrap around.
abbrev pub InRangeAt : Option (List ℕ) → ℕ → ℕ → Type 0
InRangeAt (some d) off len = IsNat64 (length d)
InRangeAt none off len =
    (off < 2 ^ 64) × (len < 2 ^ 64) × (IsNat64 off → IsNat64 len → IsNat64 (off + len))

abbrev pub InRange : Part → Type 0
InRange p = InRangeAt p.bytes p.off p.len

-- What `Finalize` asks of a part: literal bytes of the stated length, or a range of one byte or more
-- inside the data file.
abbrev pub IsPartAt : ℕ → Option (List ℕ) → ℕ → ℕ → Type 0
IsPartAt size (some d) off len = length d ≡ len
IsPartAt size none off len = (0 < len) × (off + len ≤ size)

abbrev pub IsPart : ℕ → Part → Type 0
IsPart size p = IsPartAt size p.bytes p.off p.len

IsPart-Fits_at :
    (size : ℕ) (o : Option (List ℕ)) (off len : ℕ) → IsPartAt size o off len → FitsAt size o off len
IsPart-Fits_at size (some d) off len h = h
IsPart-Fits_at size none off len h = h.1

pub IsPart-Fits : (size : ℕ) (parts : List Part) → All (IsPart size) parts → All (Fits size) parts
IsPart-Fits size [] h = tt
IsPart-Fits size (p ∷ parts) h =
    (IsPart-Fits_at size p.bytes p.off p.len h.0, IsPart-Fits size parts h.1)

check_part_at :
    (size i : ℕ) (o : Option (List ℕ)) (off len : ℕ)
    → IsNat64 size
    → InRangeAt o off len
    → (check_part size i (record { bytes = o; off = off; len = len }) ≡ none)
      ↔ IsPartAt size o off len
unfolding check_part
check_part_at size i (some d) off len hs hr = (λ h. ground arith, λ h. ground arith)
check_part_at size i none off len hs hr = (
  λ h.
      let p : IsNat64 off × IsNat64 len = (ground arith, ground arith) in
      let s = hr.2 p.0 p.1 in (ground arith, ground arith),
  λ h. ground arith,
)

pub check_part_iff :
    (size i : ℕ) (p : Part)
    → IsNat64 size
    → InRange p
    → (check_part size i p ≡ none) ↔ IsPart size p
check_part_iff size i p hs hr = check_part_at size i p.bytes p.off p.len hs hr

module _ (size : ℕ) (small : IsNat64 size) where
  finalize_loop_complete :
      (i pos : ℕ) (offsets : List ℕ) (parts : List Part)
      → All InRange parts
      → All (IsPart size) parts
      → IsNat64 (pos + total parts)
      → finalize_loop size i pos offsets parts
        ≡ ok (offsets ++ offsets_of pos parts, pos + total parts)
  unfolding finalize_loop
  finalize_loop_complete i pos offsets [] hr h room =
      ap₂ (λ (t : List ℕ) (n : ℕ). ok (t, n)) (sym (append-nil offsets)) (omega arith)
  finalize_loop_complete i pos offsets (p ∷ parts) hr h room =
      rw ((check_part_iff size i p small hr.0).1 h.0, finalize_loop)
        (ap (λ (t : ℕ). finalize_loop size (i + 1) t (offsets ++ (pos ∷ [])) parts)
            (add_i64_lem pos p.len (omega arith))
          ∙ finalize_loop_complete (i + 1) (pos + p.len) (offsets ++ (pos ∷ [])) parts hr.1 h.1
              (omega arith)
          ∙ ap₂ (λ (t : List ℕ) (n : ℕ). ok (t, n))
              (append_assoc offsets (pos ∷ []) (offsets_of (pos + p.len) parts)) (omega arith))

  finalize_loop_sound :
      (i pos : ℕ) (offsets : List ℕ) (parts : List Part) (r : List ℕ × ℕ)
      → All InRange parts
      → finalize_loop size i pos offsets parts ≡ ok r
      → All (IsPart size) parts
  unfolding finalize_loop
  finalize_loop_sound i pos offsets [] r hr h = tt
  finalize_loop_sound i pos offsets (p ∷ parts) r hr h = elim (Option-cases (check_part size i p)) [
    | inr (e, q) ↦ absurd (ground arith)
    | inl q ↦ (
      (check_part_iff size i p small hr.0).0 q,
      finalize_loop_sound (i + 1) (add_i64 pos p.len) (offsets ++ (pos ∷ [])) parts r hr.1
          (ground arith),
    )
  ]

-- A layout that is ready to serve: its parts match the data file, and its size and offsets are
-- those of the parts.
pub record IsFinal (l : Layout) : Type 0 where
  pub parts : All (IsPart l.source.size) l.parts
  pub size : l.size ≡ total l.parts
  pub offsets : l.offsets ≡ offsets_of 0 l.parts

-- A layout whose numbers are those of an int64; the ends of its ranges and, where all its parts are
-- accepted, its size do not wrap around.
pub record IsSmall (l : Layout) : Type 0 where
  pub file : IsNat64 l.source.size
  pub ranges : All InRange l.parts
  pub sum : All (IsPart l.source.size) l.parts → IsNat64 (total l.parts)

abbrev pub finalized : Layout → Layout
finalized l = record l { size = total l.parts; offsets = offsets_of 0 l.parts }

module _ (l : Layout) (s : IsSmall l) where
  abbrev walk : Result (List ℕ × ℕ)
  walk = finalize_loop l.source.size 0 0 [] l.parts

  finalize_of :
      All (IsPart l.source.size) l.parts
      → finalize l ≡ (
          if not (l.size == 0) && not (l.size == total l.parts)
          then err (size_total l.size (total l.parts))
          else ok (finalized l))
  unfolding finalize
  finalize_of h = rw (loop)
    where
      loop : walk ≡ ok (offsets_of 0 l.parts, total l.parts)
      loop =
          finalize_loop_complete l.source.size s.file 0 0 [] l.parts s.ranges h
            (omega (arith, s.sum h))
          ∙ ap (λ (n : ℕ). ok (offsets_of 0 l.parts, n)) (omega arith)

  finalize-IsPart : (r : Layout) → finalize l ≡ ok r → All (IsPart l.source.size) l.parts
  unfolding finalize
  finalize-IsPart r e = elim (Result-cases walk) [
    | inr (x, q) ↦ absurd (ground arith)
    | inl (v, q) ↦ finalize_loop_sound l.source.size s.file 0 0 [] l.parts v s.ranges q
  ]

  -- `Finalize` accepts exactly the layouts whose parts are literals of their stated length or ranges
  -- of one byte or more inside the data file, and whose size, if stated, is the sum; the result is
  -- the layout with that size and with the offsets. A negative offset or length is covered; a range
  -- whose end, or parts whose sum, wraps around is not.
  pub finalize_iff :
      (r : Layout)
      → (finalize l ≡ ok r) ↔ (
          All (IsPart l.source.size) l.parts
          × ((l.size ≡ 0) ⊎ (l.size ≡ total l.parts))
          × (r ≡ finalized l))
  finalize_iff r = (
    λ e. let h = finalize-IsPart r e in let (a, b) = sizes h e in (h, a, b),
    λ h. finalize_of h.0 ∙ accept h.1 h.2,
  )
    where
      accept :
          (l.size ≡ 0) ⊎ (l.size ≡ total l.parts)
          → r ≡ finalized l
          → (if not (l.size == 0) && not (l.size == total l.parts)
              then err (size_total l.size (total l.parts))
              else ok (finalized l))
            ≡ ok r
      accept t e = ground arith

      sizes :
          All (IsPart l.source.size) l.parts
          → finalize l ≡ ok r
          → ((l.size ≡ 0) ⊎ (l.size ≡ total l.parts)) × (r ≡ finalized l)
      sizes h e = ground (arith, finalize_of h)

-- A range whose end wraps around passes the check of `Finalize`, whatever the data file: the sum of
-- its offset and its length is negative in the source's int64.
pub finalize_wraps :
    (l : Layout) (off len : ℕ)
    → IsNat64 l.source.size
    → IsNat64 off
    → IsNat64 len
    → 0 < len
    → 2 ^ 63 ≤ off + len
    → l.parts ≡ range off len ∷ []
    → l.size ≡ 0
    → finalize l ≡ ok (record l { size = len; offsets = 0 ∷ [] })
unfolding finalize finalize_loop check_part range
finalize_wraps l off len hs ho hl pos wrap e z = rw (e, z) (ground arith)

-- ===== src/Layout/ReadLaws.antt =====
-- `ReadAt` of a finalized layout over its data file returns a slice of the virtual file.
use docker_smartclips.Prelude.{
  ℕ, ◌+◌, ◌-◌, ◌≤◌, ◌<◌, ◌≡◌, refl, sym, ap, ◌∙◌, arith, Option, none, some, min,
}
use docker_smartclips.Prelude.{
  List, [], ◌∷◌, ◌++◌, append-nil, append_assoc, length, length-append, length-take, length-drop,
  All, false, if◌then◌else◌,
}
use docker_smartclips.Prelude.{
  take, drop, take-append_le, take-append_ge, drop-append_le, take_all, drop_all, drop-drop,
  take-take, drop-take, ge→ltb, lt→ltb,
}
use docker_smartclips.Prelude.Int64.{IsNat64, add_i64_lem, add_i64, sub_i64, lt_i64}
use docker_smartclips.Io.{file_reader}
use docker_smartclips.Layout.Part.{Part}
use docker_smartclips.Layout.Read.{ReadResult, copied, fill_part, finish, read_loop}
use docker_smartclips.Layout.Content.{
  part_bytes, bytes_at, contents, total, FitsAt, Fits, part_bytes-Fits,
}
use docker_smartclips.Layout.Offsets.{offsets_of}
use native.Mathlib.Decide.{dec_lt, dec_le}

-- A copy that fills its destination.
copied_full : (dst src : List ℕ) → length dst ≤ length src → copied dst src ≡ take (length dst) src
unfolding copied
copied_full dst src h =
    ap (λ t. take (length dst) src ++ t)
      (drop_all (length (take (length dst) src)) dst (omega (arith, length-take (length dst) src)))
    ∙ append-nil (take (length dst) src)

-- A slice of a slice.
slice_slice :
    (off len within n : ℕ) (file : List ℕ)
    → within + n ≤ len
    → take n (drop (off + within) file) ≡ take n (drop within (take len (drop off file)))
slice_slice off len within n file h =
    ap (λ t. take n t) (sym (drop-drop within off file))
    ∙ sym (take-take n (len - within) (drop within (drop off file)) (omega arith))
    ∙ ap (λ t. take n t) (sym (drop-take within len (drop off file)))

-- A part fills a destination that ends inside it with its own bytes.
fill_part_at :
    (file : List ℕ) (o : Option (List ℕ)) (off len within : ℕ) (dst : List ℕ)
    → IsNat64 (length file)
    → FitsAt (length file) o off len
    → within + length dst ≤ len
    → fill_part (record { bytes = o; off = off; len = len }) within dst (file_reader file)
      ≡ some (take (length dst) (drop within (bytes_at file o off len)), none)
unfolding fill_part file_reader
fill_part_at file (some d) off len within dst small fit room =
    rw (ge→ltb (length d) within (omega arith)) (
      ap (λ t. some (t, none))
        (copied_full dst (drop within d) (omega (arith, length-drop within d))))
fill_part_at file none off len within dst small fit room =
    let got = take (length dst) (drop (off + within) file) in
    let size : length got ≡ length dst = omega (
      arith,
      length-take (length dst) (drop (off + within) file),
      length-drop (off + within) file,
    ) in
    rw (add_i64_lem off within (omega arith), ge→ltb (length got) (length dst) (omega arith))
      (ap (λ t. some (t, none)) (slice_slice off len within (length dst) file room))

fill_part_lem :
    (file : List ℕ) (p : Part) (within : ℕ) (dst : List ℕ)
    → IsNat64 (length file)
    → Fits (length file) p
    → within + length dst ≤ p.len
    → fill_part p within dst (file_reader file)
      ≡ some (take (length dst) (drop within (part_bytes file p)), none)
fill_part_lem file p within dst small fit room =
    fill_part_at file p.bytes p.off p.len within dst small fit room

module _ (file p : List ℕ) (off : ℕ) (small : IsNat64 (length file)) where
  abbrev pub loop : List Part → List ℕ → List ℕ → ReadResult
  loop parts offsets out = read_loop parts offsets p off (file_reader file) out

  -- A full buffer ends the loop.
  loop_full :
      (parts : List Part) (offsets out : List ℕ)
      → length p ≤ length out
      → loop parts offsets out ≡ finish p out
  unfolding read_loop
  loop_full [] offsets out h = refl
  loop_full (q ∷ parts) offsets out h = rw (ge→ltb (length out) (length p) h)

  module _ (q : Part) (parts : List Part) (pos : ℕ) (offsets out : List ℕ)
      (fit : Fits (length file) q) (more : length out < length p) (buf : IsNat64 (length p))
      (lo : pos ≤ off + length out) (hi : off + length out ≤ pos + q.len)
      (room : IsNat64 (pos + q.len)) where
    abbrev within : ℕ
    within = off + length out - pos

    -- How many bytes the round fills.
    abbrev want : ℕ
    want = min (length p - length out) (q.len - within)

    within_eq : sub_i64 (add_i64 off (length out)) pos ≡ within
    within_eq = omega arith

    want_eq :
        (if lt_i64 (length p - length out) (sub_i64 q.len within)
          then length p - length out
          else sub_i64 q.len within)
        ≡ want
    want_eq = ground arith

    want_pos : lt_i64 want 0 ≡ false
    want_pos = ground arith

    abbrev dst : List ℕ
    dst = take want (drop (length out) p)

    length-dst : length dst ≡ want
    length-dst = omega (arith, length-take want (drop (length out) p), length-drop (length out) p)

    filled_eq :
        fill_part q within dst (file_reader file)
        ≡ some (take want (drop within (part_bytes file q)), none)
    filled_eq =
        fill_part_lem file q within dst small fit (omega (arith, length-dst))
        ∙ ap (λ (n : ℕ). some (take n (drop within (part_bytes file q)), none)) length-dst

    -- One round of the loop.
    loop_round :
        loop (q ∷ parts) (pos ∷ offsets) out
        ≡ loop parts offsets (out ++ take want (drop within (part_bytes file q)))
    unfolding read_loop
    loop_round = rw (lt→ltb (length out) (length p) more, within_eq, want_eq, want_pos, filled_eq)

  -- What the loop over `parts` answers when `done` bytes of the answer stand in the buffer.
  abbrev pub Answers : List Part → ℕ → List ℕ → List ℕ → Type 0
  Answers parts pos out bytes =
      loop parts (offsets_of pos parts) out ≡ finish p (out ++ take (length p - length out) bytes)

  module _ (q : Part) (parts : List Part) (pos : ℕ) (out : List ℕ) (fit : Fits (length file) q)
      (more : length out < length p) (buf : IsNat64 (length p)) (lo : pos ≤ off + length out)
      (hi : off + length out ≤ pos + q.len) (room : IsNat64 (pos + q.len))
      (next : (out' : List ℕ)
        → length out' ≤ length p
        → off + length out' ≡ pos + q.len
        → Answers parts (pos + q.len) out' (contents file parts)) where
    abbrev pub skip : ℕ
    skip = off + length out - pos

    abbrev tail : List ℕ
    tail = drop skip (part_bytes file q)

    length-tail : length tail ≡ q.len - skip
    length-tail = length-drop skip (part_bytes file q) ∙ omega (arith, part_bytes-Fits file q fit)

    drop-skip : drop skip (contents file (q ∷ parts)) ≡ tail ++ contents file parts
    drop-skip =
        drop-append_le skip (part_bytes file q) (contents file parts)
          (omega (arith, part_bytes-Fits file q fit))

    abbrev filled : List ℕ
    filled = take (min (length p - length out) (q.len - skip)) tail

    -- The buffer ends inside the part.
    ends_inside :
        length p - length out ≤ q.len - skip
        → loop parts (offsets_of (pos + q.len) parts) (out ++ filled)
          ≡ finish p (out ++ take (length p - length out) (drop skip (contents file (q ∷ parts))))
    ends_inside h =
        loop_full parts (offsets_of (pos + q.len) parts) (out ++ filled) (
          omega (
            arith,
            length-append out filled,
            length-take (min (length p - length out) (q.len - skip)) tail,
            length-tail,
          ))
        ∙ ap (λ t. finish p (out ++ t))
            (ap (λ (n : ℕ). take n tail) (omega arith)
              ∙ sym (
                  take-append_le (length p - length out) tail (contents file parts)
                    (omega (arith, length-tail)))
              ∙ ap (λ t. take (length p - length out) t) (sym drop-skip))

    -- The part is used up.
    goes_on :
        q.len - skip ≤ length p - length out
        → loop parts (offsets_of (pos + q.len) parts) (out ++ filled)
          ≡ finish p (out ++ take (length p - length out) (drop skip (contents file (q ∷ parts))))
    goes_on h =
        ap (λ t. loop parts (offsets_of (pos + q.len) parts) (out ++ t))
          (take_all (min (length p - length out) (q.len - skip)) tail (omega (arith, length-tail)))
        ∙ next (out ++ tail) (omega (arith, length-append out tail, length-tail))
            (omega (arith, length-append out tail, length-tail))
        ∙ ap (finish p) (
            append_assoc out tail (take (length p - length (out ++ tail)) (contents file parts))
            ∙ ap (λ t. out ++ t)
                (ap (λ (n : ℕ). tail ++ take n (contents file parts))
                    (omega (arith, length-append out tail))
                  ∙ sym (
                      take-append_ge (length p - length out) tail (contents file parts)
                        (omega (arith, length-tail)))
                  ∙ ap (λ t. take (length p - length out) t) (sym drop-skip)))

    pub loop_from :
        loop (q ∷ parts) (offsets_of pos (q ∷ parts)) out
        ≡ finish p (out ++ take (length p - length out) (drop skip (contents file (q ∷ parts))))
    loop_from =
        loop_round q parts pos (offsets_of (pos + q.len) parts) out fit more buf lo hi room
        ∙ elim (dec_le (length p - length out) (q.len - skip)) [
          | yes h ↦ ends_inside h
          | no h ↦ goes_on (omega arith)
        ]

  pub full-Answers :
      (parts : List Part) (pos : ℕ) (out bytes : List ℕ)
      → length p ≤ length out
      → Answers parts pos out bytes
  full-Answers parts pos out bytes h =
      loop_full parts (offsets_of pos parts) out h
      ∙ ap (finish p) (
          sym (append-nil out)
          ∙ ap (λ (n : ℕ). out ++ take n bytes) {x = 0} {y = length p - length out} (omega arith))

  -- From the start of a part on, the loop answers with the bytes of the parts.
  pub loop_aligned :
      (parts : List Part) (pos : ℕ) (out : List ℕ)
      → All (Fits (length file)) parts
      → IsNat64 (pos + total parts)
      → IsNat64 (length p)
      → length out ≤ length p
      → off + length out ≡ pos
      → Answers parts pos out (contents file parts)
  loop_aligned [] pos out fit room buf h e =
      unfold read_loop in
      ap (finish p) (
        sym (append-nil out)
        ∙ ap (λ t. out ++ t) (sym (take_all (length p - length out) [] (omega arith))))
  loop_aligned (q ∷ parts) pos out fit room buf h e = elim (dec_lt (length out) (length p)) [
    | no full ↦ full-Answers (q ∷ parts) pos out (contents file (q ∷ parts)) (omega arith)
    | yes more ↦
        loop_from q parts pos out fit.0 more buf (omega arith) (omega arith) (omega arith)
          (λ out' k k'. loop_aligned parts (pos + q.len) out' fit.1 (omega arith) buf k k')
        ∙ ap
            (λ (n : ℕ).
              finish p (out ++ take (length p - length out) (drop n (contents file (q ∷ parts)))))
            {x = off + length out - pos} {y = 0} (omega arith)
  ]

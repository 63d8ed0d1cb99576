-- ===== src/Layout/ReadAt.antt =====
-- `ReadAt` of a finalized layout, whole: it reads the virtual file as a reader of a real file would.
use docker_smartclips.Prelude.{
  ℕ, zero, suc, ◌+◌, ◌-◌, ◌≤◌, ◌<◌, ◌≡◌, ◌≢◌, refl, sym, ap, ap₂, subst, ◌∙◌, arith, Option, none,
  some, ◌||◌,
}
use docker_smartclips.Prelude.{
  List, [], ◌∷◌, length, All, All-drop, Bool, true, false, ◌==◌, ltb, leb, if◌then◌else◌,
}
use docker_smartclips.Prelude.{
  take, drop, drop_all, take_all, get_or, lt→ltb, le→leb, gt→leb, ltb→lt, ltb→ge,
}
use docker_smartclips.Prelude.Int64.{IsNat64, lt_i64, lt_i64_lem, le_i64, le_i64_lem}
use docker_smartclips.Io.{IoError, eof, file_reader}
use docker_smartclips.Io.Search.{search, IsFirst, search-IsFirst}
use docker_smartclips.Layout.Part.{Part, Layout}
use docker_smartclips.Layout.Read.{finish, read_loop, read_at}
use docker_smartclips.Layout.Content.{contents, total, Fits, length-contents}
use docker_smartclips.Layout.Offsets.{
  offsets_of, start_of, length-offsets_of, get_or-offsets_of, drop-offsets_of, start_of_mono,
  start_of-le_total, start_of_all, head_at, drop-contents, total-split,
}
use docker_smartclips.Layout.Finalized.{IsFinal, IsPart-Fits}
use docker_smartclips.Layout.ReadLaws.{Answers, full-Answers, loop_from, loop_aligned}
use native.Mathlib.Decide.{dec_lt}

-- What a reader of a file with these bytes answers: the bytes from `off` on that fit `n`, and
-- `io.EOF` where they are fewer or `off` is past the end.
abbrev pub slice_read : List ℕ → ℕ → ℕ → List ℕ × Option IoError
slice_read bytes n off =
    let got = take n (drop off bytes) in
    (got, if leb (length bytes) off || ltb (length got) n then some eof else none)

module _ (parts : List Part) (off : ℕ) (small : IsNat64 (total parts)) (hoff : IsNat64 off) where
  abbrev passes : ℕ → Bool
  passes k = lt_i64 off (get_or (offsets_of 0 parts) k 0)

  passes_lem : (k : ℕ) → k < length parts → passes k ≡ ltb off (start_of k parts)
  passes_lem k h =
      ap (λ (n : ℕ). lt_i64 off n) (get_or-offsets_of k 0 parts h ∙ omega arith)
      ∙ lt_i64_lem off (start_of k parts) hoff (omega (arith, start_of-le_total k parts))

  passes_mono : (a b : ℕ) → a ≤ b → b < length parts → passes a ≡ true → passes b ≡ true
  passes_mono a b h k e =
      passes_lem b k
      ∙ lt→ltb off (start_of b parts) (
          omega (
            arith,
            ltb→lt off (start_of a parts) (sym (passes_lem a (omega arith)) ∙ e),
            start_of_mono a b parts h,
          ))

  abbrev found : ℕ
  found = search (length parts) passes

  found-IsFirst : IsFirst passes (length parts) found
  found-IsFirst = search-IsFirst passes (length parts) passes_mono

  -- The part in which `off` lies.
  pub record IsAt (j : ℕ) : Type 0 where
    pub inside : j < length parts
    pub after : start_of j parts ≤ off
    pub before : off < start_of (suc j) parts

  found-ne-zero : off < total parts → found ≢ 0
  found-ne-zero h z = elim (dec_lt 0 (length parts)) [
    | no empty ↦ absurd (omega (arith, start_of_all 0 parts (omega arith)))
    | yes p ↦
        let t : passes 0 ≡ true = ap passes (sym z) ∙ found-IsFirst.after (omega arith) in
        absurd (omega (arith, ltb→lt off 0 (sym (passes_lem 0 p) ∙ t)))
  ]

  found-IsAt : (j : ℕ) → off < total parts → found ≡ suc j → IsAt j
  found-IsAt j h e =
      let first = found-IsFirst in
      let inside : j < length parts = omega (arith, first.bound) in
      record {
        inside = inside;
        after =
            ltb→ge off (start_of j parts)
              (sym (passes_lem j inside) ∙ first.before j (omega arith));
        before = elim (dec_lt (suc j) (length parts)) [
          | no last ↦ omega (arith, start_of_all (suc j) parts (omega arith))
          | yes p ↦
              ltb→lt off (start_of (suc j) parts)
                (sym (passes_lem (suc j) p) ∙ ap passes (sym e) ∙ first.after (omega arith))
        ];
      }

module _ (file p : List ℕ) (parts : List Part) (off : ℕ) (fit : All (Fits (length file)) parts)
    (small : IsNat64 (length file)) (sum : IsNat64 (total parts)) (buf : IsNat64 (length p)) where
  loop_head :
      (q : Part) (tail : List Part) (pos : ℕ)
      → All (Fits (length file)) (q ∷ tail)
      → IsNat64 (pos + total (q ∷ tail))
      → pos ≤ off
      → off ≤ pos + q.len
      → Answers file p off small (q ∷ tail) pos [] (drop (off - pos) (contents file (q ∷ tail)))
  loop_head q tail pos h room lo hi = elim (dec_lt 0 (length p)) [
    | no empty ↦
        full-Answers file p off small (q ∷ tail) pos []
          (drop (off - pos) (contents file (q ∷ tail))) (omega arith)
    | yes more ↦
        loop_from file p off small q tail pos [] h.0 more buf (omega arith) (omega arith)
          (omega arith)
          (λ out k k'.
            loop_aligned file p off small tail (pos + q.len) out h.1 (omega arith) buf k k')
        ∙ ap (λ (n : ℕ). finish p (take (length p - 0) (drop n (contents file (q ∷ tail)))))
            {x = off + 0 - pos} {y = off - pos} (omega arith)
  ]

  -- From the part in which `off` lies, the loop answers with the slice at `off`.
  loop_at :
      (j : ℕ)
      → j < length parts
      → start_of j parts ≤ off
      → off < start_of (suc j) parts
      → read_loop (drop j parts) (drop j (offsets_of 0 parts)) p off (file_reader file) []
        ≡ finish p (take (length p) (drop off (contents file parts)))
  loop_at j inside after before =
      let r = head_at j parts inside in
      let s = start_of j parts in
      let split = total-split j parts in
      let same : total (drop j parts) ≡ total (r.head ∷ r.tail) = ap total r.split in
      ap₂ (λ ps os. read_loop ps os p off (file_reader file) []) r.split
        (drop-offsets_of j 0 parts ∙ ap₂ offsets_of {x = 0 + s} {y = s} (omega arith) r.split)
      ∙ loop_head r.head r.tail s
          (subst (All (Fits (length file))) r.split (All-drop (Fits (length file)) j parts fit))
          (omega arith) after (omega (arith, r.next))
      ∙ ap (finish p) (
          ap₂ (λ (n : ℕ) t. take n (drop (off - s) (contents file t))) {x = length p - 0}
            {y = length p} (omega arith) (sym r.split)
          ∙ ap (λ t. take (length p) t) (sym (drop-contents file parts j off fit after)))

-- What the two readers share.
finish-slice :
    (bytes p : List ℕ) (off : ℕ)
    → off < length bytes
    → finish p (take (length p) (drop off bytes)) ≡ some (slice_read bytes (length p) off)
finish-slice bytes p off h = rw (gt→leb (length bytes) off h) (ground arith)

past-slice :
    (bytes : List ℕ) (n off : ℕ)
    → length bytes ≤ off
    → some ([], some eof) ≡ some (slice_read bytes n off)
past-slice bytes n off h = rw (le→leb (length bytes) off h) (
    ap (λ t. some (t, some eof))
      (sym (take_all n [] (omega arith)) ∙ ap (λ t. take n t) (sym (drop_all off bytes h))))

module _ (l : Layout) (file p : List ℕ) (off : ℕ) where
  -- What a call relies on: a finalized layout over the file that it was made for, and numbers that an
  -- int64 holds.
  pub record IsServed : Type 0 where
    pub final : IsFinal l
    pub source : l.source.size ≡ length file
    pub file_small : IsNat64 (length file)
    pub total_small : IsNat64 (total l.parts)
    pub buffer_small : IsNat64 (length p)
    pub offset_small : IsNat64 off

  module _ (h : IsServed) where
    fits : All (Fits (length file)) l.parts
    fits =
        subst (λ (n : ℕ). All (Fits n) l.parts) h.source
          (IsPart-Fits l.source.size l.parts h.final.parts)

    abbrev index : ℕ
    index = search (length l.offsets) (λ k. lt_i64 off (get_or l.offsets k 0))

    index-found : index ≡ found l.parts off h.total_small h.offset_small
    index-found =
        ap (λ os. search (length os) (λ k. lt_i64 off (get_or os k 0))) h.final.offsets
        ∙ ap (λ (n : ℕ). search n (λ k. lt_i64 off (get_or (offsets_of 0 l.parts) k 0)))
            (length-offsets_of 0 l.parts)

    past_end : le_i64 l.size off ≡ leb (total l.parts) off
    past_end =
        ap (λ (n : ℕ). le_i64 n off) h.final.size
        ∙ le_i64_lem (total l.parts) off h.total_small h.offset_small

    inside_lem :
        (k : ℕ)
        → index ≡ k
        → off < total l.parts
        → read_at l p off (file_reader file)
          ≡ some (slice_read (contents file l.parts) (length p) off)
    inside_lem zero e lt =
        absurd (found-ne-zero l.parts off h.total_small h.offset_small lt (sym index-found ∙ e))
    inside_lem (suc j) e lt =
        let at = found-IsAt l.parts off h.total_small h.offset_small j lt (sym index-found ∙ e) in
        let nonzero : (suc j == 0) ≡ false = ground arith in
        let pred : suc j - 1 ≡ j = omega arith in
        unfold read_at in
        rw (past_end, gt→leb (total l.parts) off lt, e, nonzero, pred)
          (ap (λ os. read_loop (drop j l.parts) (drop j os) p off (file_reader file) [])
              h.final.offsets
            ∙ loop_at file p l.parts off fits h.file_small h.total_small h.buffer_small j at.inside
                at.after at.before
            ∙ finish-slice (contents file l.parts) p off
                (omega (arith, length-contents file l.parts fits)))

    -- Reading a finalized layout at any offset gives what a file with the virtual file's bytes gives:
    -- the slice that fits the buffer, and `io.EOF` where it is short or past the end. It never panics.
    pub read_at-eq-slice :
        read_at l p off (file_reader file)
        ≡ some (slice_read (contents file l.parts) (length p) off)
    read_at-eq-slice = elim (dec_lt off (total l.parts)) [
      | yes lt ↦ inside_lem index refl lt
      | no ge ↦
          unfold read_at in
          rw (past_end, le→leb (total l.parts) off (omega arith))
            (past-slice (contents file l.parts) (length p) off
              (omega (arith, length-contents file l.parts fits)))
    ]

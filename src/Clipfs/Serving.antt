-- ===== src/Clipfs/Serving.antt =====
-- What a program sees of the files of internal/clipfs/clipfs.go.
use docker_smartclips.Prelude.{
  ℕ, ◌+◌, ◌-◌, ◌<◌, ◌≡◌, refl, sym, ap, subst, ◌∙◌, inl, inr, arith, true, false, none, some, List,
  [], length, take, drop, All, leb, ltb, Bool-cases, min, drop_all, take_all, length-drop, ◌||◌,
  if◌then◌else◌, leb→le, leb→gt,
}
use docker_smartclips.Prelude.Int64.{IsNat64}
use docker_smartclips.Io.{ReaderAt, file_reader}
use docker_smartclips.Config.Names.{Text}
use docker_smartclips.Layout.Part.{Layout}
use docker_smartclips.Layout.Content.{contents, total, Fits, length-contents}
use docker_smartclips.Layout.Finalized.{IsFinal, IsPart-Fits}
use docker_smartclips.Layout.ReadAt.{slice_read, read_at-eq-slice}
use docker_smartclips.Clipfs.Files.{
  Root, clip_attr, fill, writes, static_read, Opening, not_opened, opened, matches, handle, refused,
  open_clip, content, read_clip, answer_of, errno_of, is_missing, eio,
}

-- A document is read as the slice of its bytes, cut at its end.
pub static_read_lem : (b : List ℕ) (n off : ℕ) → static_read b n off ≡ take n (drop off b)
unfolding static_read
static_read_lem b n off = elim (Bool-cases (leb (length b) off)) [
  | inl t ↦ rw t (
      sym (take_all n [] (omega arith))
      ∙ ap (take n) (sym (drop_all off b (leb→le (length b) off t))))
  | inr f ↦ rw f (cut (drop off b) (length-drop off b) (leb→gt (length b) off f))
]
  where
    cut :
        (rest : List ℕ)
        → length rest ≡ length b - off
        → off < length b
        → take (min (length b) (off + n) - off) rest ≡ take n rest
    cut rest e lt = elim (Bool-cases (leb (length rest) n)) [
      | inl t ↦
          let le = leb→le (length rest) n t in
          take_all (min (length b) (off + n) - off) rest (omega arith) ∙ sym (take_all n rest le)
      | inr f ↦ let gt = leb→gt (length rest) n f in ap (λ (k : ℕ). take k rest) (omega arith)
    ]

answer-slice :
    (bytes : List ℕ) (n off : ℕ)
    → answer_of (some (slice_read bytes n off)) ≡ content (take n (drop off bytes))
answer-slice bytes n off =
    elim (Bool-cases (leb (length bytes) off || ltb (length (take n (drop off bytes))) n)) [
      | inl t ↦ rw t refl
      | inr f ↦ rw f refl
    ]

-- The clip's file is opened only for reading, and only where the data file still has the size and the
-- time of the layout.
pub open_clip-handle :
    (os_open : Text → Opening) (l : Layout) (flags : ℕ) (r : ReaderAt)
    → open_clip os_open l flags ≡ handle r
    → (writes flags ≡ false)
      × (os_open l.source.path ≡ opened r (some (l.source.size, l.source.mod_time)))
unfolding open_clip
open_clip-handle os_open l flags r e = elim (Bool-cases (writes flags)) [
  | inl t ↦ absurd (let x = rw (t, open_clip) at e in cc)
  | inr f ↦ (f, at (os_open l.source.path) refl (rw (f, open_clip) at e))
]
  where
    at :
        (o : Opening)
        → os_open l.source.path ≡ o
        → (elim o [
          | not_opened x ↦ refused (errno_of x) (is_missing x)
          | opened s info ↦ if matches l.source info then handle s else refused eio true
        ])
          ≡ handle r
        → os_open l.source.path ≡ opened r (some (l.source.size, l.source.mod_time))
    at (not_opened x) k h = absurd (cc)
    at (opened s none) k h = absurd (cc)
    at (opened s (some (size, time))) k h =
        elim (Bool-cases (matches l.source (some (size, time)))) [
          | inr f ↦ absurd (let x = rw f at h in cc)
          | inl t ↦
              let a : size ≡ l.source.size = ground arith in
              let b : time ≡ l.source.mod_time = ground arith in
              let c : s ≡ r = (let x = rw t at h in cc) in cc
        ]

-- What an open clip shows: the size is the number of its bytes, and every read answers a slice of them.
pub record Serves (root : Root) (l : Layout) (r : ReaderAt) (bytes : List ℕ) : Type 0 where
  pub size : (clip_attr root l).size ≡ length (contents bytes l.parts)
  pub reads :
      (dest : List ℕ) (off : ℕ)
      → IsNat64 (length dest)
      → IsNat64 off
      → read_clip l r dest off ≡ content (take (length dest) (drop off (contents bytes l.parts)))

module _ (root : Root) (l : Layout) (bytes : List ℕ) (final : IsFinal l) where
  module _ (small : IsNat64 (length bytes)) (sum : IsNat64 (total l.parts)) where
    serves_lem : l.source.size ≡ length bytes → Serves root l (file_reader bytes) bytes
    unfolding fill read_clip
    serves_lem e = record {
      size =
          final.size
          ∙ sym (
              length-contents bytes l.parts (
                subst (λ (n : ℕ). All (Fits n) l.parts) e
                  (IsPart-Fits l.source.size l.parts final.parts)));
      reads = λ dest off hd ho.
          ap answer_of (
            read_at-eq-slice l bytes dest off (record {
              final = final;
              source = e;
              file_small = small;
              total_small = sum;
              buffer_small = hd;
              offset_small = ho;
            }))
          ∙ answer-slice (contents bytes l.parts) (length dest) off;
    }

    -- A clip whose layout `Finalize` accepted and which `Open` opens, where the data file holds these bytes
    -- and the system reports their number: its size is that of the virtual file, and every read, at
    -- any offset and of any length below 2^63, answers the slice of the virtual file, cut at its end.
    pub open_clip-Serves :
        (os_open : Text → Opening) (flags time : ℕ) (r : ReaderAt)
        → os_open l.source.path ≡ opened (file_reader bytes) (some (length bytes, time))
        → open_clip os_open l flags ≡ handle r
        → Serves root l r bytes
    open_clip-Serves os_open flags time r at e =
        let (reading, found) = open_clip-handle os_open l flags r e in
        let same = sym at ∙ found in
        let reader : file_reader bytes ≡ r = cc in
        let size : l.source.size ≡ length bytes = cc in
        subst (λ x. Serves root l x bytes) reader (serves_lem size)

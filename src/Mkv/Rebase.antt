-- ===== src/Mkv/Rebase.antt =====
-- `rebasedParts`: the blocks with their relative timestamps rewritten against another base.
use docker_smartclips.Prelude.{
  ℕ, ◌+◌, ◌-◌, ◌*◌, ◌%◌, ◌^◌, ◌<◌, ◌≤◌, ◌≡◌, ◌⊎◌, refl, sym, ap, ap₂, ◌/◌, ◌∙◌, inl, inr, arith,
}
use docker_smartclips.Prelude.{
  List, [], ◌∷◌, ◌++◌, append_assoc, append-nil, length, length-append, All, take, drop, Bool-cases,
  ◌||◌, bit_or, false,
}
use docker_smartclips.Prelude.Bits.{shl, shr, to_byte, or_byte}
use docker_smartclips.Prelude.Int64.{IsNat64, sub_i64, lt_i64}
use docker_smartclips.Io.{Result, ok}
use docker_smartclips.Layout.Part.{Part, literal, range, append_part}
use docker_smartclips.Layout.Content.{contents, total, Fits, append_part-Extends}
use docker_smartclips.Mkv.Cluster.{Block, relative_time}
use docker_smartclips.Mkv.Select.{stamp_bytes, rebased_loop, rebased_parts}

-- A signed 16-bit number, as an int64.
abbrev pub IsInt16 : ℕ → Type 0
IsInt16 rel = (rel < 2 ^ 15) ⊎ (2 ^ 64 - 2 ^ 15 ≤ rel)

abbrev pub InWindow : ℕ → Block → Type 0
InWindow base b = IsInt16 (sub_i64 b.time base)

-- The two bytes of a signed 16-bit number in big-endian order.
abbrev pub big_endian16 : ℕ → List ℕ
big_endian16 rel = rel % 65536 / 256 ∷ rel % 256 ∷ []

stamp_bytes_lem : (rel : ℕ) → stamp_bytes rel ≡ big_endian16 rel
stamp_bytes_lem rel = ap₂ (λ (a b : ℕ). a ∷ b ∷ []) (omega arith) (omega arith)

-- A block of the file with the two bytes of its relative timestamp, and what stands around them.
abbrev pub rebased_bytes : List ℕ → ℕ → Block → List ℕ
rebased_bytes file base b =
    (b.prefix ++ big_endian16 (sub_i64 b.time base))
    ++ take (b.len - b.ts_off - 2) (drop (b.off + b.ts_off + 2) file)

abbrev pub all_rebased_bytes : List ℕ → ℕ → List Block → List ℕ
all_rebased_bytes file base [] = []
all_rebased_bytes file base (b ∷ bs) = rebased_bytes file base b ++ all_rebased_bytes file base bs

abbrev all_rebased_len : List Block → ℕ
all_rebased_len [] = 0
all_rebased_len (b ∷ bs) = length b.prefix + 2 + (b.len - b.ts_off - 2) + all_rebased_len bs

-- A block that `readBlock` can answer: its timestamp lies in it, and it lies in the file.
pub record IsBlockOf (size : ℕ) (b : Block) : Type 0 where
  pub inside : b.off + b.len ≤ size
  pub stamped : b.ts_off + 2 ≤ b.len

pub record IsRebased (file : List ℕ) (parts : List Part) (base : ℕ) (bs : List Block)
    (answer : Result (List Part)) : Type 0 where
  pub result : List Part
  pub answered : answer ≡ ok result
  pub bytes : contents file result ≡ contents file parts ++ all_rebased_bytes file base bs
  pub fit : All (Fits (length file)) result

in_window_guard :
    (rel : ℕ)
    → IsInt16 rel
    → rel < 2 ^ 64
    → (lt_i64 rel (2 ^ 64 - 2 ^ 15) || lt_i64 (2 ^ 15 - 1) rel) ≡ false
in_window_guard rel h b = ground arith

module _ (file : List ℕ) (base : ℕ) (small : IsNat64 (length file)) where
  rebased_loop-IsRebased :
      (bs : List Block) (parts : List Part)
      → All (Fits (length file)) parts
      → All (IsBlockOf (length file)) bs
      → All (InWindow base) bs
      → IsNat64 (total parts + all_rebased_len bs)
      → IsRebased file parts base bs (rebased_loop parts bs base)
  unfolding rebased_loop literal range
  rebased_loop-IsRebased [] parts h k w room = record {
    result = parts;
    answered = refl;
    bytes = sym (append-nil (contents file parts));
    fit = h;
  }
  rebased_loop-IsRebased (b ∷ bs) parts h k w room =
      let rel = sub_i64 b.time base in
      let stamp = literal (b.prefix ++ stamp_bytes rel) in
      let frames = range (b.off + b.ts_off + 2) (b.len - b.ts_off - 2) in
      let len = length-append b.prefix (stamp_bytes rel) in
      let x = append_part-Extends file stamp refl small parts h (omega (arith, len)) in
      let y =
        append_part-Extends file frames (omega (arith, k.0.inside, k.0.stamped)) small
          (append_part parts stamp) x.fit (omega (arith, x.sum, len)) in
      let z =
        rebased_loop-IsRebased bs (append_part (append_part parts stamp) frames) y.fit k.1 w.1
          (omega (arith, x.sum, y.sum, len)) in
      rw (in_window_guard rel w.0 (omega arith)) (record {
        result = z.result;
        answered = z.answered;
        bytes =
            z.bytes
            ∙ ap (λ t. t ++ all_rebased_bytes file base bs)
                (y.bytes
                  ∙ ap (λ t. t ++ take (b.len - b.ts_off - 2) (drop (b.off + b.ts_off + 2) file))
                      x.bytes
                  ∙ append_assoc (contents file parts) (b.prefix ++ stamp_bytes rel) _
                  ∙ ap
                      (λ t.
                        contents file parts
                        ++ ((b.prefix ++ t)
                            ++ take (b.len - b.ts_off - 2) (drop (b.off + b.ts_off + 2) file)))
                      (stamp_bytes_lem rel))
            ∙ append_assoc (contents file parts) (rebased_bytes file base b)
                (all_rebased_bytes file base bs);
        fit = z.fit;
      })

  -- Blocks of a file below 2^63 bytes, each within the range of an int16 from the base: the parts that
  -- `rebasedParts` answers lie in the file and hold the blocks in their order, each with the bytes in
  -- front of its timestamp, the new relative time as two bytes in big-endian order, and the bytes behind it.
  pub rebased_parts-IsRebased :
      (bs : List Block)
      → All (IsBlockOf (length file)) bs
      → All (InWindow base) bs
      → IsNat64 (all_rebased_len bs)
      → IsRebased file [] base bs (rebased_parts bs base)
  unfolding rebased_parts
  rebased_parts-IsRebased bs k w room = rebased_loop-IsRebased bs [] tt k w (omega arith)

rebased_loop-InWindow :
    (base : ℕ) (bs : List Block) (parts result : List Part)
    → rebased_loop parts bs base ≡ ok result
    → All (InWindow base) bs
unfolding rebased_loop
rebased_loop-InWindow base [] parts result e = tt
rebased_loop-InWindow base (b ∷ bs) parts result e =
    let rel = sub_i64 b.time base in
    let next =
      append_part (append_part parts (literal (b.prefix ++ stamp_bytes rel)))
        (range (b.off + b.ts_off + 2) (b.len - b.ts_off - 2)) in
    let out = lt_i64 rel (2 ^ 64 - 2 ^ 15) || lt_i64 (2 ^ 15 - 1) rel in
    elim (Bool-cases out) [
      | inl t ↦ absurd (ground arith)
      | inr f ↦ (ground arith, rebased_loop-InWindow base bs next result (ground arith))
    ]

-- `rebasedParts` succeeds only where every block is within the range of an int16 from the base.
pub rebased_parts-InWindow :
    (base : ℕ) (bs : List Block) (result : List Part)
    → rebased_parts bs base ≡ ok result
    → All (InWindow base) bs
unfolding rebased_parts
rebased_parts-InWindow base bs result e = rebased_loop-InWindow base bs [] result e

-- The two bytes that are written are read back as the same relative time.
pub relative_time-stamp_bytes :
    (rel : ℕ)
    → IsInt16 rel
    → rel < 2 ^ 64
    → relative_time (to_byte (shr (rel % 2 ^ 16) 8)) (to_byte rel) ≡ rel
unfolding relative_time
relative_time-stamp_bytes rel h b =
    let hi = to_byte (shr (rel % 2 ^ 16) 8) in
    let lo = to_byte rel in
    let word : bit_or (shl 16 hi 8) lo ≡ rel % 2 ^ 16 =
      ap (λ (t : ℕ). bit_or t lo) {x = shl 16 hi 8} {y = hi * 256} (omega arith)
      ∙ or_byte hi lo (omega arith)
      ∙ omega arith in
    rw word (ground arith)

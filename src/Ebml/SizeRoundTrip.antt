-- ===== src/Ebml/SizeRoundTrip.antt =====
-- `ReadSize` against `AppendSizeWidth` and `SizeWidth`.
use docker_smartclips.Prelude.{
  ℕ, zero, suc, ◌+◌, ◌-◌, ◌*◌, ◌/◌, ◌%◌, ◌^◌, ◌≤◌, ◌<◌, ◌≡◌, refl, sym, ap, ap₂, subst, ◌∙◌, inl,
  inr, arith,
}
use docker_smartclips.Prelude.{List, [], ◌++◌, length, length-append, take}
use docker_smartclips.Prelude.{
  Bool, Bool-cases, true, false, ◌==◌, ==_iff, ltb, leb, ge→ltb, bit_or, bit_and, take-append_le,
  take_all,
}
use docker_smartclips.Prelude.Bits.{add-or, shl, shr}
use docker_smartclips.Io.{ok}
use docker_smartclips.Ebml.Read.{vint_len, size_loop, read_size, known, max_int64}
use docker_smartclips.Ebml.Write.{append_size_width, append_bytes, size_width_loop, size_width}
use docker_smartclips.Ebml.Bytes.{
  from_be, bytes_of, length-bytes_of, All-bytes_of, from_be-bytes_of, bytes_of-suc,
  append_bytes_lem, size_loop_lem, size_loop_ones,
}
use docker_smartclips.Ebml.Vint.{vint_len_of, mask_lem}
use native.Mathlib.Nat.{pow-le-pow_right, le_trans, mod-eq_of_lt}
use native.Mathlib.Decide.{dec_lt}

-- The size with its marker bit.
abbrev pub marked : ℕ → ℕ → ℕ
marked n w = n + 2 ^ (7 * w)

-- What the width `i + 1` fixes: the first byte holds the marker and the top bits of `n`.
pub record FirstByte (i n : ℕ) : Type 0 where
  pub top : n / 256 ^ i < 2 ^ (7 - i)
  pub byte : marked n (suc i) / 256 ^ i % 256 ≡ n / 256 ^ i + 2 ^ (7 - i)
  pub field : marked n (suc i) / 256 ^ i % 256 % 2 ^ (8 - suc i) ≡ n / 256 ^ i
  pub carry : marked n (suc i) / 256 ^ i * 256 ^ i ≡ n / 256 ^ i * 256 ^ i + 2 ^ (7 * suc i)
  pub wide : n % 2 ^ 64 ≡ n
  pub marker : shl 64 1 (7 * suc i) ≡ 1 * 2 ^ (7 * suc i)
  pub least : 2 ^ (8 - suc i) ≤ marked n (suc i) / 256 ^ i % 256
  pub most : marked n (suc i) / 256 ^ i % 256 < 2 ^ (9 - suc i)
  pub room : (n / 256 ^ i + 1) * 256 ^ i ≤ 2 ^ 64
  pub ones : shr 0xff (suc i) + 1 ≡ 2 ^ (7 - i)
  pub whole : 2 ^ (7 - i) * 256 ^ i ≡ 2 ^ (7 * suc i)

pub first_byte : (i n : ℕ) → i < 8 → n < 2 ^ (7 * suc i) → FirstByte i n
first_byte zero n hi h = omega arith
first_byte (suc zero) n hi h = omega arith
first_byte (suc (suc zero)) n hi h = omega arith
first_byte (suc (suc (suc zero))) n hi h = omega arith
first_byte (suc (suc (suc (suc zero)))) n hi h = omega arith
first_byte (suc (suc (suc (suc (suc zero))))) n hi h = omega arith
first_byte (suc (suc (suc (suc (suc (suc zero)))))) n hi h = omega arith
first_byte (suc (suc (suc (suc (suc (suc (suc zero))))))) n hi h = omega arith
first_byte (suc (suc (suc (suc (suc (suc (suc (suc i)))))))) n hi h = absurd (omega arith)

-- A size is written as the marked number, in exactly `w` bytes.
pub append_size_width_lem :
    (dst : List ℕ) (n i : ℕ)
    → i < 8
    → n < 2 ^ (7 * suc i)
    → append_size_width dst n (suc i) ≡ dst ++ bytes_of (suc i) (marked n (suc i))
unfolding append_size_width
append_size_width_lem dst n i hi h =
    let f = first_byte i n hi h in
    ap₂ (λ (a b : ℕ). append_bytes dst (bit_or a b) (suc i)) f.wide f.marker
    ∙ ap (λ (v : ℕ). append_bytes dst v (suc i)) (add-or (7 * suc i) 1 n h ∙ omega arith)
    ∙ append_bytes_lem dst (marked n (suc i)) (suc i)

pow_small : (i : ℕ) → i < 8 → 2 ^ (7 * suc i) ≤ max_int64
pow_small i hi =
    le_trans (pow-le-pow_right {n = 2} (omega arith) {i = 7 * suc i} {j = 56} (omega arith))
      (omega arith)

module _ (i n : ℕ) (hi : i < 8) (h : n + 1 < 2 ^ (7 * suc i)) where
  first : FirstByte i n
  first = first_byte i n hi (omega arith)

  abbrev head_byte : ℕ
  head_byte = marked n (suc i) / 256 ^ i % 256

  abbrev tail_bytes : List ℕ
  tail_bytes = bytes_of i (marked n (suc i))

  head_len : vint_len head_byte ≡ suc i
  head_len =
      vint_len_of head_byte (suc i) (omega arith) (omega arith) (omega arith) first.least first.most

  head_field : bit_and head_byte (shr 0xff (suc i)) ≡ n / 256 ^ i
  head_field = mask_lem head_byte (suc i) (omega arith) (omega arith) ∙ first.field

  tail_value : from_be (n / 256 ^ i) tail_bytes ≡ n
  tail_value = omega (arith, from_be-bytes_of i (n / 256 ^ i) (marked n (suc i)), first.carry)

  loop_value : (b : Bool) → (size_loop tail_bytes (n / 256 ^ i) b).0 ≡ n
  loop_value b =
      size_loop_lem (n / 256 ^ i) b tail_bytes (All-bytes_of i _) (
        subst (λ (k : ℕ). (n / 256 ^ i + 1) * 256 ^ k ≤ 2 ^ 64) (sym (length-bytes_of i _))
          first.room)
      ∙ tail_value

  loop_not_ones : (size_loop tail_bytes (n / 256 ^ i) (n / 256 ^ i == shr 0xff (suc i))).1 ≡ false
  loop_not_ones =
      elim (Bool-cases (size_loop tail_bytes (n / 256 ^ i) (n / 256 ^ i == shr 0xff (suc i))).1) [
        | inr stop ↦ stop
        | inl all ↦ absurd (impossible all)
      ]
    where
      impossible :
          (size_loop tail_bytes (n / 256 ^ i) (n / 256 ^ i == shr 0xff (suc i))).1 ≡ true → ⊥
      impossible all =
          let (start, value) = size_loop_ones (n / 256 ^ i) (n / 256 ^ i) _ tail_bytes all in
          let top : n / 256 ^ i + 1 ≡ 2 ^ (7 - i) =
            omega (arith, (==_iff _ _).0 start, first.ones) in
          let grown : (n / 256 ^ i + 1) * 256 ^ length tail_bytes ≡ 2 ^ (7 * suc i) =
            ap₂ (λ (a k : ℕ). a * 256 ^ k) top (length-bytes_of i (marked n (suc i)))
            ∙ first.whole in
          omega (arith, value, grown, tail_value)

  not_overflowing : ltb max_int64 n ≡ false
  not_overflowing = ge→ltb max_int64 n (omega (arith, pow_small i hi))

  take_tail : (rest : List ℕ) → take (suc i - 1) (tail_bytes ++ rest) ≡ tail_bytes
  take_tail rest =
      let len : length tail_bytes ≡ i = length-bytes_of i (marked n (suc i)) in
      take-append_le (suc i - 1) tail_bytes rest (omega arith)
      ∙ take_all (suc i - 1) tail_bytes (omega arith)

  enough_bytes : (rest : List ℕ) → i ≤ length (tail_bytes ++ rest)
  enough_bytes rest =
      omega (arith, length-append tail_bytes rest, length-bytes_of i (marked n (suc i)))

  pub read_size-bytes_of :
      (rest : List ℕ)
      → read_size (bytes_of (suc i) (marked n (suc i)) ++ rest) ≡ ok (known n, suc i)
  unfolding read_size
  read_size-bytes_of rest =
      rw (bytes_of-suc i (marked n (suc i)), head_len, head_field, take_tail rest, loop_not_ones)
        (rw (loop_value _, not_overflowing) (ground (arith, enough_bytes rest)))

-- A size that its width can hold is read back, and the bytes behind it are left.
pub read_size-append_size_width :
    (n w : ℕ) (rest : List ℕ)
    → 1 ≤ w
    → w ≤ 8
    → n + 1 < 2 ^ (7 * w)
    → read_size (append_size_width [] n w ++ rest) ≡ ok (known n, w)
read_size-append_size_width n zero rest lo hi h = absurd (omega arith)
read_size-append_size_width n (suc i) rest lo hi h =
    rw (append_size_width_lem [] n i (omega arith) (omega arith))
      (read_size-bytes_of i n (omega arith) h rest)

-- The width that `SizeWidth` picks.
pub record IsSizeWidth (n w : ℕ) : Type 0 where
  pub least : 1 ≤ w
  pub most : w ≤ 8
  pub fits : n + 1 < 2 ^ (7 * w)
  pub minimal : (k : ℕ) → 1 ≤ k → k < w → 2 ^ (7 * k) ≤ n + 1

width_test :
    (w n : ℕ)
    → w ≤ 8
    → n < 2 ^ 63
    → leb (shl 64 1 (7 * w) - 1) (n % 2 ^ 64) ≡ leb (2 ^ (7 * w) - 1) n
width_test w n hw hn =
    let e : 1 * 2 ^ (7 * w) < 2 ^ 64 =
      omega (arith, pow-le-pow_right {n = 2} (omega arith) {i = 7 * w} {j = 56} (omega arith)) in
    ap₂ (λ (a b : ℕ). leb (a - 1) b) {x = shl 64 1 (7 * w)} {y = 2 ^ (7 * w)}
      (mod-eq_of_lt e ∙ omega arith) (omega arith)

size_width_loop-IsSizeWidth :
    (left w n : ℕ)
    → w + left ≡ 8
    → 1 ≤ w
    → n + 1 < 2 ^ 56
    → ((k : ℕ) → 1 ≤ k → k < w → 2 ^ (7 * k) ≤ n + 1)
    → IsSizeWidth n (size_width_loop left w n)
unfolding size_width_loop
size_width_loop-IsSizeWidth zero w n e lo h below =
    let e8 : w ≡ 8 = omega arith in
    record { least = lo; most = omega arith; fits = rw e8 (omega arith); minimal = below }
size_width_loop-IsSizeWidth (suc left) w n e lo h below =
    rw (width_test w n (omega arith) (omega arith)) (elim (Bool-cases (leb (2 ^ (7 * w) - 1) n)) [
      | inl wider ↦ rw wider (
          size_width_loop-IsSizeWidth left (w + 1) n (omega arith) (omega arith) h (λ k k1 kw.
            elim (dec_lt k w) [
              | yes p ↦ below k k1 p
              | no p ↦ let e' : k ≡ w = omega arith in rw e' (ground arith)
            ]))
      | inr stop ↦
          rw stop (record { least = lo; most = omega arith; fits = ground arith; minimal = below })
    ])

-- `SizeWidth` picks the smallest width of 1 to 8 bytes that holds `n` below its reserved value.
pub size_width-IsSizeWidth : (n : ℕ) → n + 1 < 2 ^ 56 → IsSizeWidth n (size_width n)
unfolding size_width
size_width-IsSizeWidth n h =
    size_width_loop-IsSizeWidth 7 1 n refl (omega arith) h (λ k a b. absurd (omega arith))

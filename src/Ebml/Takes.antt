-- ===== src/Ebml/Takes.antt =====
-- What `ReadID`, `ReadSize` and `ParseHeader` take of any input, well formed or not.
use docker_smartclips.Prelude.{
  ℕ, zero, suc, ◌+◌, ◌-◌, ◌*◌, ◌^◌, ◌≤◌, ◌<◌, ◌≡◌, ◌≢◌, refl, ap, arith, inl, inr,
}
use docker_smartclips.Prelude.{
  List, [], ◌∷◌, length, take, drop, All, All-take, length-take, length-drop,
}
use docker_smartclips.Prelude.{Bool, ltb, ◌==◌, ge→ltb, true, false, Bool-cases, bit_and}
use docker_smartclips.Prelude.Bits.{IsByte, shr}
use docker_smartclips.Io.{stuck, Result, ok, err, Result-cases, size_overflow}
use docker_smartclips.Ebml.Read.{
  vint_len, read_id, Size, known, unknown_size, size_result, read_size, size_loop, Header,
  parse_header, max_int64,
}
use docker_smartclips.Ebml.Bytes.{from_be, size_loop_lem}
use docker_smartclips.Ebml.Vint.{vint_len-le, mask_lem}
use native.Mathlib.Nat.{pow-suc, mod-lt, one-le-pow, pow-le-pow_right}
use docker_smartclips.Ebml.SizeRoundTrip.{first_byte}

pub read_id_takes :
    (b : List ℕ) (id n : ℕ) → read_id b ≡ ok (id, n) → (1 ≤ n) × (n ≤ 4) × (n ≤ length b)
unfolding read_id
read_id_takes [] id n h = cc
read_id_takes (b0 ∷ rest) id n h = ground arith

pub read_size_takes :
    (b : List ℕ) (s : Size) (n : ℕ) → read_size b ≡ ok (s, n) → (1 ≤ n) × (n ≤ length b)
unfolding read_size
read_size_takes [] s n h = cc
read_size_takes (b0 ∷ rest) s n h = ground arith

read_id-ne-stuck : (b : List ℕ) → read_id b ≢ err stuck
unfolding read_id
read_id-ne-stuck [] h = cc
read_id-ne-stuck (b0 ∷ rest) h = ground arith

read_size-ne-stuck : (b : List ℕ) → read_size b ≢ err stuck
unfolding read_size
read_size-ne-stuck [] h = cc
read_size-ne-stuck (b0 ∷ rest) h = ground arith

-- A header takes between two bytes and all the input.
pub parse_header_takes :
    (b : List ℕ) (h : Header)
    → parse_header b ≡ ok h
    → (2 ≤ h.header_len) × (h.header_len ≤ length b)
unfolding parse_header
parse_header_takes b h e = elim (Result-cases (read_id b)) [
  | inr (x, p) ↦ absurd (cc)
  | inl ((id, il), p) ↦ elim (Result-cases (read_size (drop il b))) [
    | inr (x, q) ↦ absurd (cc)
    | inl ((s, sl), q) ↦
        ground (arith, read_id_takes b id il, read_size_takes (drop il b) s sl, length-drop il b)
  ]
]

pub parse_header-ne-stuck : (b : List ℕ) → parse_header b ≢ err stuck
unfolding parse_header
parse_header-ne-stuck b e = elim (Result-cases (read_id b)) [
  | inr (x, p) ↦ ground (arith, read_id-ne-stuck b)
  | inl ((id, il), p) ↦ ground (arith, read_size-ne-stuck (drop il b))
]

from_be-lt : (v : ℕ) (bs : List ℕ) → All IsByte bs → from_be v bs < (v + 1) * 256 ^ length bs
from_be-lt v [] h = omega arith
from_be-lt v (b ∷ bs) h =
    let grown : (v * 256 + b + 1) * 256 ^ length bs ≤ (v + 1) * 256 * 256 ^ length bs =
      grind arith in
    omega (
      arith,
      from_be-lt (v * 256 + b) bs h.1,
      grown,
      ap (λ (t : ℕ). (v + 1) * t) (pow-suc 256 (length bs)),
    )

-- What `ReadSize` may answer on bytes: a size below its width's bound, or another error than an
-- overflow.
abbrev pub IsSizeAnswer : Result (Size × ℕ) → Type 0
IsSizeAnswer (ok (known v, n)) = (n ≤ 8) × (v < 2 ^ (7 * n)) × (v < 2 ^ 56)
IsSizeAnswer (ok (unknown_size, n)) = n ≤ 8
IsSizeAnswer (err (size_overflow v)) = ⊥
IsSizeAnswer (err _) = Unit

module _ (b0 : ℕ) (rest : List ℕ) (i : ℕ) (e : vint_len b0 ≡ suc i) (hi : i < 8) (hb : b0 < 256)
    (hs : All IsByte rest) (enough : i ≤ length rest) where
  abbrev coded : List ℕ
  coded = take (suc i - 1) rest

  length-coded : length coded ≡ i
  length-coded = omega (arith, length-take (suc i - 1) rest)

  field_bound : bit_and b0 (shr 0xff (suc i)) + 1 ≤ 2 ^ (7 - i)
  field_bound = omega (
    arith,
    mask_lem b0 (suc i) hb (omega arith),
    mod-lt b0 {m = 2 ^ (8 - suc i)} (one-le-pow (8 - suc i) 2 (omega arith)),
    ap (λ (k : ℕ). 2 ^ k) {x = 8 - suc i} {y = 7 - i} (omega arith),
  )

  value_bound :
      (all : Bool) → (size_loop coded (bit_and b0 (shr 0xff (suc i))) all).0 < 2 ^ (7 * suc i)
  value_bound all =
      let v = bit_and b0 (shr 0xff (suc i)) in
      let f = first_byte i 0 hi (one-le-pow (7 * suc i) 2 (omega arith)) in
      let scaled : (v + 1) * 256 ^ i ≤ 2 ^ (7 - i) * 256 ^ i = grind (arith, field_bound) in
      let width : 2 ^ (7 * suc i) ≤ 2 ^ 56 =
        pow-le-pow_right {n = 2} (omega arith) {i = 7 * suc i} {j = 56} (omega arith) in
      let sized : (v + 1) * 256 ^ length coded ≡ (v + 1) * 256 ^ i =
        ap (λ (k : ℕ). (v + 1) * 256 ^ k) length-coded in
      omega (
        arith,
        size_loop_lem v all coded (All-take IsByte (suc i - 1) rest hs)
            (omega (arith, sized, scaled, f.whole, width)),
        from_be-lt v coded (All-take IsByte (suc i - 1) rest hs),
        sized,
        scaled,
        f.whole,
      )

  answer : (p : ℕ × Bool) → p.0 < 2 ^ (7 * suc i) → IsSizeAnswer (size_result (suc i) p)
  answer (v, true) h = omega arith
  answer (v, false) h =
      let width : 2 ^ (7 * suc i) ≤ 2 ^ 56 =
        pow-le-pow_right {n = 2} (omega arith) {i = 7 * suc i} {j = 56} (omega arith) in
      rw (ge→ltb max_int64 v (omega arith)) (omega arith)

  read_size-cons : IsSizeAnswer (read_size (b0 ∷ rest))
  unfolding read_size
  read_size-cons = rw e (rw (zero_test, enough_test) (answer _ (value_bound _)))
    where
      zero_test : (suc i == 0) ≡ false
      zero_test = ground arith

      enough_test : ltb (length (b0 ∷ rest)) (suc i) ≡ false
      enough_test = ge→ltb _ _ (omega arith)

size_split :
    (b0 : ℕ) (rest : List ℕ)
    → All IsByte (b0 ∷ rest)
    → (n : ℕ) → vint_len b0 ≡ n
    → IsSizeAnswer (read_size (b0 ∷ rest))
size_split b0 rest h zero e = unfold read_size in rw e tt
size_split b0 rest h (suc i) e = elim (Bool-cases (ltb (length (b0 ∷ rest)) (suc i))) [
  | inl t ↦ unfold read_size in rw (e, nonzero i, t) tt
  | inr enough ↦
      read_size-cons b0 rest i e (omega (arith, vint_len-le b0 h.0)) h.0 h.1 (ground arith)
]
  where
    nonzero : (i : ℕ) → (suc i == 0) ≡ false
    nonzero i = ground arith

-- On bytes, a size fits its width, so it is below 2^56 and the overflow check never fires.
pub read_size-IsSizeAnswer : (b : List ℕ) → All IsByte b → IsSizeAnswer (read_size b)
read_size-IsSizeAnswer [] h = unfold read_size in tt
read_size-IsSizeAnswer (b0 ∷ rest) h = size_split b0 rest h (vint_len b0) refl

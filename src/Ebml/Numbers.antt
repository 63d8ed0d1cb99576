-- ===== src/Ebml/Numbers.antt =====
-- `Uint` against `AppendUint` and `AppendUintWidth`.
use docker_smartclips.Prelude.{
  ℕ, zero, suc, ◌+◌, ◌*◌, ◌/◌, ◌^◌, ◌≤◌, ◌<◌, ◌≡◌, refl, sym, ap, subst, ◌∙◌, inl, inr, arith,
}
use docker_smartclips.Prelude.{
  List, [], ◌∷◌, append-nil, length, Bool-cases, ge→ltb, ◌==◌, ==_iff, true, false,
}
use docker_smartclips.Prelude.Bits.{shr}
use docker_smartclips.Io.{ok}
use docker_smartclips.Ebml.Read.{uint, children, Element}
use docker_smartclips.Ebml.Write.{
  append_element, append_uint_width, uint_width_loop, uint_width, append_uint,
}
use docker_smartclips.Ebml.Bytes.{
  bytes_of, length-bytes_of, All-bytes_of, from_be-bytes_of_lt, uint_bytes_lem, shift_in_lem,
  two-pow-8, pow-pos,
}
use docker_smartclips.Ebml.IdRoundTrip.{IsId}
use docker_smartclips.Ebml.Items.{Item, children-append_items}
use native.Mathlib.Nat.{pow-le-pow_right, div-lt_iff_lt-mul, le-div_iff_mul-le}
use native.Mathlib.Decide.{dec_lt}

word_fits : (w : ℕ) → w ≤ 8 → (0 + 1) * 256 ^ w ≤ 2 ^ 64
word_fits w h = omega (arith, pow-le-pow_right {n = 256} (omega arith) {i = w} {j = 8} h)

-- The bytes of a number that fits them are its payload.
pub uint-bytes_of : (w v : ℕ) → w ≤ 8 → v < 256 ^ w → uint (bytes_of w v) ≡ ok v
unfolding uint
uint-bytes_of w v hw hv =
    let len = length-bytes_of w v in
    rw (ge→ltb 8 (length (bytes_of w v)) (omega arith)) (
      ap ok (
        shift_in_lem 64 0 (bytes_of w v) (All-bytes_of w v)
          (subst (λ (t : ℕ). (0 + 1) * 256 ^ t ≤ 2 ^ 64) (sym len) (word_fits w hw))
        ∙ from_be-bytes_of_lt w v hv))

pub append_uint_width_lem :
    (dst : List ℕ) (id v w : ℕ)
    → append_uint_width dst id v w ≡ append_element dst id (bytes_of w v)
unfolding append_uint_width
append_uint_width_lem dst id v w =
    ap (append_element dst id) (uint_bytes_lem w v [] ∙ append-nil (bytes_of w v))

-- The width that `AppendUint` picks.
pub record IsUintWidth (v w : ℕ) : Type 0 where
  pub least : 1 ≤ w
  pub most : w ≤ 8
  pub fits : v < 256 ^ w
  pub minimal : (k : ℕ) → 1 ≤ k → k < w → 256 ^ k ≤ v

shift_zero : (w v : ℕ) → (shr v (8 * w) == 0) ≡ true → v < 256 ^ w
shift_zero w v e =
    let z : v / 256 ^ w ≡ 0 =
      ap (λ (t : ℕ). v / t) (sym (two-pow-8 w)) ∙ (==_iff (shr v (8 * w)) 0).0 e in
    omega (arith, (div-lt_iff_lt-mul {k = 256 ^ w} {x = v} {y = 1} (pow-pos w)).0 (omega arith))

shift_nonzero : (w v : ℕ) → (shr v (8 * w) == 0) ≡ false → 256 ^ w ≤ v
shift_nonzero w v e =
    let n : 1 ≤ v / 256 ^ w = rw (sym (two-pow-8 w)) (ground arith) in
    omega (arith, (le-div_iff_mul-le {k = 256 ^ w} {x = 1} {y = v} (pow-pos w)).0 n)

uint_width_loop-IsUintWidth :
    (left w v : ℕ)
    → w + left ≡ 8
    → 1 ≤ w
    → v < 2 ^ 64
    → ((k : ℕ) → 1 ≤ k → k < w → 256 ^ k ≤ v)
    → IsUintWidth v (uint_width_loop left w v)
unfolding uint_width_loop
uint_width_loop-IsUintWidth zero w v e lo h below =
    let e8 : w ≡ 8 = omega arith in
    record { least = lo; most = omega arith; fits = rw e8 (omega arith); minimal = below }
uint_width_loop-IsUintWidth (suc left) w v e lo h below = elim (Bool-cases (shr v (8 * w) == 0)) [
  | inl stop ↦
      rw stop
        (record { least = lo; most = omega arith; fits = shift_zero w v stop; minimal = below })
  | inr wider ↦ rw wider (
      uint_width_loop-IsUintWidth left (w + 1) v (omega arith) (omega arith) h (λ k k1 kw.
        elim (dec_lt k w) [
          | yes p ↦ below k k1 p
          | no p ↦ let e' : k ≡ w = omega arith in rw e' (shift_nonzero w v wider)
        ]))
]

-- `AppendUint` picks the fewest bytes that hold a uint64.
pub uint_width-IsUintWidth : (v : ℕ) → v < 2 ^ 64 → IsUintWidth v (uint_width v)
unfolding uint_width
uint_width-IsUintWidth v h =
    uint_width_loop-IsUintWidth 7 1 v refl (omega arith) h (λ k a b. absurd (omega arith))

-- An unsigned integer element, as the readers see it.
pub record ReadsUint (b : List ℕ) (id v : ℕ) : Type 0 where
  pub element : Element
  pub read : children b ≡ ok (element ∷ [])
  pub same_id : element.id ≡ id
  pub value : uint element.payload ≡ ok v

-- A number that fits its width is read back from its element.
pub append_uint_width-ReadsUint :
    (k id v w : ℕ) → IsId k id → w ≤ 8 → v < 256 ^ w → ReadsUint (append_uint_width [] id v w) id v
append_uint_width-ReadsUint k id v w h hw hv =
    let len = length-bytes_of w v in
    let item : Item = record { id_len = k; id = id; payload = bytes_of w v } in
    record {
      element = record {
        id = id;
        payload = bytes_of w v;
        raw = append_element [] id (bytes_of w v);
      };
      read =
          ap children (append_uint_width_lem [] id v w)
          ∙ children-append_items (item ∷ []) (record { well_formed = h; small = omega arith }, tt);
      same_id = refl;
      value = uint-bytes_of w v hw hv;
    }

-- `AppendUint` writes any uint64 so that it is read back.
pub append_uint-ReadsUint :
    (k id v : ℕ) → IsId k id → v < 2 ^ 64 → ReadsUint (append_uint [] id v) id v
unfolding append_uint
append_uint-ReadsUint k id v h hv =
    let w = uint_width-IsUintWidth v hv in
    append_uint_width-ReadsUint k id v (uint_width v) h w.most w.fits

-- ===== src/Ebml/IdRoundTrip.antt =====
-- `ReadID` against `AppendID`.
use docker_smartclips.Prelude.{
  ℕ, zero, suc, ◌+◌, ◌*◌, ◌/◌, ◌%◌, ◌^◌, ◌≤◌, ◌<◌, ◌≡◌, sym, ap, subst, ◌∙◌, arith,
}
use docker_smartclips.Prelude.{
  List, [], ◌∷◌, ◌++◌, length, length-append, take, take-append_le, take_all,
}
use docker_smartclips.Io.{ok}
use docker_smartclips.Ebml.Read.{vint_len, shift_in, read_id}
use docker_smartclips.Ebml.Write.{append_id}
use docker_smartclips.Ebml.Bytes.{
  bytes_of, length-bytes_of, All-bytes_of, from_be-bytes_of_lt, bytes_of-suc, shift_in_lem,
}
use docker_smartclips.Ebml.Vint.{vint_len_of}

-- `id` is an element ID of `k` bytes: its marker bit is in place.
pub record IsId (k id : ℕ) : Type 0 where
  pub shortest : 1 ≤ k
  pub longest : k ≤ 4
  pub above : 2 ^ (7 * k) ≤ id
  pub below : id < 2 ^ (7 * k + 1)

-- An ID is written in as many bytes as its marker says.
pub append_id_lem : (dst : List ℕ) (k id : ℕ) → IsId k id → append_id dst id ≡ dst ++ bytes_of k id
unfolding append_id bytes_of
append_id_lem dst zero id h = absurd (omega arith)
append_id_lem dst (suc zero) id h = ground arith
append_id_lem dst (suc (suc zero)) id h = ground arith
append_id_lem dst (suc (suc (suc zero))) id h = ground arith
append_id_lem dst (suc (suc (suc (suc zero)))) id h = ground arith
append_id_lem dst (suc (suc (suc (suc (suc k))))) id h = absurd (omega (arith, h.longest))

id_len : (i id : ℕ) → IsId (suc i) id → vint_len (id / 256 ^ i % 256) ≡ suc i
id_len zero id h =
    vint_len_of (id / 1 % 256) 1 (omega arith) (omega arith) (omega arith) (omega arith)
      (omega arith)
id_len (suc zero) id h =
    vint_len_of (id / 256 % 256) 2 (omega arith) (omega arith) (omega arith) (omega arith)
      (omega arith)
id_len (suc (suc zero)) id h =
    vint_len_of (id / 256 ^ 2 % 256) 3 (omega arith) (omega arith) (omega arith) (omega arith)
      (omega arith)
id_len (suc (suc (suc zero))) id h =
    vint_len_of (id / 256 ^ 3 % 256) 4 (omega arith) (omega arith) (omega arith) (omega arith)
      (omega arith)
id_len (suc (suc (suc (suc i)))) id h = absurd (omega (arith, h.longest))

pub id_fits : (k id : ℕ) → IsId k id → (id < 256 ^ k) × ((0 + 1) * 256 ^ k ≤ 2 ^ 32)
id_fits zero id h = absurd (omega arith)
id_fits (suc zero) id h = omega arith
id_fits (suc (suc zero)) id h = omega arith
id_fits (suc (suc (suc zero))) id h = omega arith
id_fits (suc (suc (suc (suc zero)))) id h = omega arith
id_fits (suc (suc (suc (suc (suc k))))) id h = absurd (omega (arith, h.longest))

id_value : (k id : ℕ) → IsId k id → shift_in 32 0 (bytes_of k id) ≡ id
id_value k id h =
    shift_in_lem 32 0 (bytes_of k id) (All-bytes_of k id) (
      subst (λ (t : ℕ). (0 + 1) * 256 ^ t ≤ 2 ^ 32) (sym (length-bytes_of k id)) (id_fits k id h).1)
    ∙ from_be-bytes_of_lt k id (id_fits k id h).0

take_id :
    (i id : ℕ) (rest : List ℕ) → take (suc i) (bytes_of (suc i) id ++ rest) ≡ bytes_of (suc i) id
take_id i id rest =
    let len : length (bytes_of (suc i) id) ≡ suc i = length-bytes_of (suc i) id in
    take-append_le (suc i) (bytes_of (suc i) id) rest (omega arith)
    ∙ take_all (suc i) (bytes_of (suc i) id) (omega arith)

-- The reader on the bytes of an ID, once the first byte stands apart.
read_id-cons :
    (b0 : ℕ) (tail rest : List ℕ) (i : ℕ)
    → vint_len b0 ≡ suc i
    → i < 4
    → length tail ≡ i
    → read_id ((b0 ∷ tail) ++ rest) ≡ ok (shift_in 32 0 (take (suc i) ((b0 ∷ tail) ++ rest)), suc i)
unfolding read_id
read_id-cons b0 tail rest i e hi len = rw e (ground (arith, length-append tail rest))

-- An ID is read back with its length, and the bytes behind it are left.
pub read_id-append_id :
    (k id : ℕ) (rest : List ℕ) → IsId k id → read_id (append_id [] id ++ rest) ≡ ok (id, k)
read_id-append_id zero id rest h = absurd (omega arith)
read_id-append_id (suc i) id rest h = rw (append_id_lem [] (suc i) id h) (
    subst (λ l. read_id (l ++ rest) ≡ ok (shift_in 32 0 (take (suc i) (l ++ rest)), suc i))
      (sym (bytes_of-suc i id))
      (read_id-cons (id / 256 ^ i % 256) (bytes_of i id) rest i (id_len i id h)
        (omega (arith, h.longest)) (length-bytes_of i id))
    ∙ ap (λ l. ok (shift_in 32 0 l, suc i)) (take_id i id rest)
    ∙ ap (λ (v : ℕ). ok (v, suc i)) (id_value (suc i) id h))

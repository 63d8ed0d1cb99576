-- ===== src/Ebml/Bytes.antt =====
-- Big-endian numbers: what the byte loops of internal/ebml/ebml.go compute, in plain arithmetic.
use docker_smartclips.Prelude.{
  ℕ, zero, suc, ◌+◌, ◌*◌, ◌/◌, ◌%◌, ◌^◌, ◌≤◌, ◌<◌, ◌≡◌, refl, sym, ap, ◌∙◌, arith,
}
use docker_smartclips.Prelude.{
  List, [], ◌∷◌, ◌++◌, append-nil, append_assoc, length, length-append, All,
}
use docker_smartclips.Prelude.{All-append, Bool, true, ◌&&◌, ◌==◌, bit_or}
use docker_smartclips.Prelude.Bits.{IsByte, or_byte, to_byte, shr, shl}
use docker_smartclips.Ebml.Read.{shift_in, size_loop}
use docker_smartclips.Ebml.Write.{append_bytes, uint_bytes}
use native.Mathlib.Numerals.{towards_suc}
use native.Mathlib.Nat.{pow-suc, div-div-eq-div-mul, mod-eq_of_lt, mul_comm}

-- The number that `bs` spells behind `acc`.
abbrev pub from_be : ℕ → List ℕ → ℕ
from_be acc [] = acc
from_be acc (b ∷ bs) = from_be (acc * 256 + b) bs

-- The lowest `k` bytes of `v`, highest first.
unfoldable pub bytes_of : ℕ → ℕ → List ℕ
bytes_of zero v = []
bytes_of (suc k) v = bytes_of k (v / 256) ++ (v % 256 ∷ [])

pub length-bytes_of : (k v : ℕ) → length (bytes_of k v) ≡ k
unfolding bytes_of
length-bytes_of zero v = refl
length-bytes_of (suc k) v =
    length-append (bytes_of k (v / 256)) (v % 256 ∷ []) ∙ omega (arith, length-bytes_of k (v / 256))

pub All-bytes_of : (k v : ℕ) → All IsByte (bytes_of k v)
unfolding bytes_of
All-bytes_of zero v = tt
All-bytes_of (suc k) v =
    All-append IsByte (bytes_of k (v / 256)) (v % 256 ∷ []) (All-bytes_of k (v / 256)) (omega arith)

from_be-snoc :
    (acc : ℕ) (bs : List ℕ) (b : ℕ) → from_be acc (bs ++ (b ∷ [])) ≡ from_be acc bs * 256 + b
from_be-snoc acc [] b = refl
from_be-snoc acc (x ∷ bs) b = from_be-snoc (acc * 256 + x) bs b

pow-256 : (k : ℕ) (a : ℕ) → a * 256 ^ suc k ≡ a * 256 ^ k * 256
pow-256 k a = omega (arith, ap (λ (t : ℕ). a * t) (pow-suc 256 k))

div-256 : (k v : ℕ) → v / 256 / 256 ^ k ≡ v / 256 ^ suc k
div-256 k v =
    div-div-eq-div-mul v 256 (256 ^ k)
    ∙ ap (λ (t : ℕ). v / t) (mul_comm 256 (256 ^ k) ∙ sym (pow-suc 256 k))

-- Read back, the bytes give the low part of the number.
pub from_be-bytes_of :
    (k acc v : ℕ) → from_be acc (bytes_of k v) + v / 256 ^ k * 256 ^ k ≡ acc * 256 ^ k + v
unfolding bytes_of
from_be-bytes_of zero acc v = omega arith
from_be-bytes_of (suc k) acc v = omega (
  arith,
  from_be-snoc acc (bytes_of k (v / 256)) (v % 256),
  from_be-bytes_of k acc (v / 256),
  div-256 k v,
  pow-256 k acc,
  pow-256 k (v / 256 ^ suc k),
  ap (λ (t : ℕ). t * 256 ^ k * 256) (div-256 k v),
)

pub from_be-bytes_of_lt : (k v : ℕ) → v < 256 ^ k → from_be 0 (bytes_of k v) ≡ v
from_be-bytes_of_lt k v h =
    let z : v / 256 ^ k ≡ 0 = grind arith in
    omega (arith, from_be-bytes_of k 0 v, ap (λ (t : ℕ). t * 256 ^ k) z)

-- The highest byte apart.
pub bytes_of-suc : (k v : ℕ) → bytes_of (suc k) v ≡ v / 256 ^ k % 256 ∷ bytes_of k v
unfolding bytes_of
bytes_of-suc zero v = ap (λ (t : ℕ). t ∷ []) (omega arith)
bytes_of-suc (suc k) v =
    ap (λ t. t ++ (v % 256 ∷ [])) (bytes_of-suc k (v / 256))
    ∙ ap (λ (t : ℕ). t % 256 ∷ bytes_of (suc k) v) (div-256 k v)

two-pow-add_eight : (s : ℕ) → 2 ^ (s + 8) ≡ 256 * 2 ^ s
two-pow-add_eight s = simp towards_suc (omega arith)

pub two-pow-8 : (i : ℕ) → 2 ^ (8 * i) ≡ 256 ^ i
two-pow-8 zero = refl
two-pow-8 (suc i) =
    ap (λ (t : ℕ). 2 ^ t) {x = 8 * suc i} {y = 8 * i + 8} (omega arith)
    ∙ omega (arith, two-pow-add_eight (8 * i), two-pow-8 i, pow-suc 256 i)

pub append_bytes_lem : (dst : List ℕ) (v k : ℕ) → append_bytes dst v k ≡ dst ++ bytes_of k v
unfolding append_bytes
append_bytes_lem dst v zero = unfold bytes_of in sym (append-nil dst)
append_bytes_lem dst v (suc i) =
    append_bytes_lem (dst ++ (to_byte (shr v (8 * i)) ∷ [])) v i
    ∙ append_assoc dst (to_byte (shr v (8 * i)) ∷ []) (bytes_of i v)
    ∙ ap (λ (t : ℕ). dst ++ (v / t % 256 ∷ bytes_of i v)) (two-pow-8 i)
    ∙ ap (λ t. dst ++ t) (sym (bytes_of-suc i v))

pub uint_bytes_lem : (k v : ℕ) (bytes : List ℕ) → uint_bytes k v bytes ≡ bytes_of k v ++ bytes
unfolding uint_bytes bytes_of
uint_bytes_lem zero v bytes = refl
uint_bytes_lem (suc k) v bytes =
    uint_bytes_lem k (v / 256) (v % 256 ∷ bytes)
    ∙ sym (append_assoc (bytes_of k (v / 256)) (v % 256 ∷ []) bytes)

pub pow-pos : (k : ℕ) → 1 ≤ 256 ^ k
pow-pos zero = omega arith
pow-pos (suc k) = omega (arith, pow-suc 256 k, pow-pos k)

word_room :
    (w v b k : ℕ) → b < 256 → (v + 1) * 256 ^ suc k ≤ 2 ^ w → (v * 256 + b + 1) * 256 ^ k ≤ 2 ^ w
word_room w v b k h fits =
    let below : (v * 256 + b + 1) * 256 ^ k ≤ (v + 1) * 256 * 256 ^ k = grind arith in
    omega (arith, below, pow-256 k (v + 1))

word_step :
    (w v b k : ℕ) → b < 256 → (v + 1) * 256 ^ suc k ≤ 2 ^ w → bit_or (shl w v 8) b ≡ v * 256 + b
word_step w v b k h fits =
    let one : (v + 1) * 1 ≤ (v + 1) * 256 ^ k = grind (arith, pow-pos k) in
    let small : v * 256 < 2 ^ w = omega (arith, one, pow-256 k (v + 1)) in
    ap (λ (t : ℕ). bit_or t b) (mod-eq_of_lt small) ∙ or_byte v b h

ones_room : (v b k : ℕ) → b ≡ 255 → (v * 256 + b + 1) * 256 ^ k ≡ (v + 1) * 256 ^ suc k
ones_room v b k e = ap (λ (t : ℕ). (v * 256 + t + 1) * 256 ^ k) e ∙ omega (arith, pow-256 k (v + 1))

-- In a word that has room, the loop of the readers spells the number.
pub shift_in_lem :
    (w v : ℕ) (bs : List ℕ)
    → All IsByte bs
    → (v + 1) * 256 ^ length bs ≤ 2 ^ w
    → shift_in w v bs ≡ from_be v bs
unfolding shift_in
shift_in_lem w v [] h fits = refl
shift_in_lem w v (b ∷ bs) h fits =
    ap (λ (t : ℕ). shift_in w t bs) (word_step w v b (length bs) h.0 fits)
    ∙ shift_in_lem w (v * 256 + b) bs h.1 (word_room w v b (length bs) h.0 fits)

pub size_loop_lem :
    (v : ℕ) (all_ones : Bool) (bs : List ℕ)
    → All IsByte bs
    → (v + 1) * 256 ^ length bs ≤ 2 ^ 64
    → (size_loop bs v all_ones).0 ≡ from_be v bs
unfolding size_loop
size_loop_lem v all_ones [] h fits = refl
size_loop_lem v all_ones (b ∷ bs) h fits =
    ap (λ (t : ℕ). (size_loop bs t (all_ones && (b == 0xff))).0)
      (word_step 64 v b (length bs) h.0 fits)
    ∙ size_loop_lem (v * 256 + b) (all_ones && (b == 0xff)) bs h.1
        (word_room 64 v b (length bs) h.0 fits)

-- All bits were ones only if the number is the greatest of its width.
pub size_loop_ones :
    (v v' : ℕ) (all_ones : Bool) (bs : List ℕ)
    → (size_loop bs v' all_ones).1 ≡ true
    → (all_ones ≡ true) × (from_be v bs + 1 ≡ (v + 1) * 256 ^ length bs)
unfolding size_loop
size_loop_ones v v' all_ones [] h = (h, omega arith)
size_loop_ones v v' all_ones (b ∷ bs) h =
    let (ones, value) =
      size_loop_ones (v * 256 + b) (bit_or (shl 64 v' 8) b) (all_ones && (b == 0xff)) bs h in
    let e : b ≡ 255 = ground arith in (ground arith, value ∙ ones_room v b (length bs) e)

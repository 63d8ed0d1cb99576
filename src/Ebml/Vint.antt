-- ===== src/Ebml/Vint.antt =====
-- `vintLen` and the size mask, as tables over all bytes.
use docker_smartclips.Prelude.{
  ℕ, ◌-◌, ◌%◌, ◌^◌, ◌≤◌, ◌<◌, ◌≡◌, refl, ◌≢◌, Bool, ◌&&◌, ◌||◌, not, true, bit_and, arith,
}
use docker_smartclips.Prelude.{leb, ltb, ◌==◌, ==_iff}
use docker_smartclips.Prelude.Bits.{all_below, all_below_sound, shr}
use docker_smartclips.Ebml.Read.{vint_len}

-- The first byte of a number of `w` bytes has its top one at place `8 - w`.
abbrev starts : ℕ → ℕ → Bool
starts b w = leb 1 w && leb (2 ^ (8 - w)) b && ltb b (2 ^ (9 - w))

abbrev length_test : ℕ → ℕ → Bool
length_test b w = not (starts b w) || (vint_len b == w)

vint_table : all_below 256 (λ b. all_below 9 (length_test b)) ≡ true
unfolding vint_len
vint_table = refl

vint_row : (b : ℕ) → b < 256 → all_below 9 (length_test b) ≡ true
vint_row b h = all_below_sound 256 (λ b. all_below 9 (length_test b)) b vint_table h

pub vint_len_of :
    (b w : ℕ) → b < 256 → 1 ≤ w → w ≤ 8 → 2 ^ (8 - w) ≤ b → b < 2 ^ (9 - w) → vint_len b ≡ w
vint_len_of b w hb lo hi ge lt =
    ground (arith, all_below_sound 9 (length_test b) w (vint_row b hb) (omega arith))

abbrev bounds_test : ℕ → Bool
bounds_test b = leb (vint_len b) 8 && (vint_len b == 0 || starts b (vint_len b))

vint_bounds_table : all_below 256 bounds_test ≡ true
unfolding vint_len
vint_bounds_table = refl

pub vint_len-le : (b : ℕ) → b < 256 → vint_len b ≤ 8
vint_len-le b h = ground (arith, all_below_sound 256 bounds_test b vint_bounds_table h)

pub vint_len-lt : (b : ℕ) → b < 256 → vint_len b ≢ 0 → b < 2 ^ (9 - vint_len b)
vint_len-lt b h n = ground (arith, all_below_sound 256 bounds_test b vint_bounds_table h)

abbrev mask_test : ℕ → ℕ → Bool
mask_test b w = bit_and b (shr 0xff w) == b % 2 ^ (8 - w)

mask_table : all_below 256 (λ b. all_below 9 (mask_test b)) ≡ true
mask_table = refl

mask_row : (b : ℕ) → b < 256 → all_below 9 (mask_test b) ≡ true
mask_row b h = all_below_sound 256 (λ b. all_below 9 (mask_test b)) b mask_table h

-- `b0 & (0xFF >> w)`
pub mask_lem : (b w : ℕ) → b < 256 → w ≤ 8 → bit_and b (shr 0xff w) ≡ b % 2 ^ (8 - w)
mask_lem b w hb hw =
    (==_iff _ _).0 (all_below_sound 9 (mask_test b) w (mask_row b hb) (omega arith))

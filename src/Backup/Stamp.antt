-- ===== src/Backup/Stamp.antt =====
-- The names of backup files, and Go's `time.Parse` with the layout of their timestamps.
use docker_smartclips.Prelude.{
  ℕ, ◌+◌, ◌-◌, ◌*◌, ◌%◌, Bool, false, not, ◌&&◌, ◌||◌, [], ◌∷◌, ltb, leb, ◌==◌, if◌then◌else◌,
  length, take, drop, get_or,
}
use docker_smartclips.Config.Names.{Text, same_text, all_of, is_empty}

-- "clips-" and ".json"
abbrev pub prefix : Text
prefix = 0x63 ∷ 0x6c ∷ 0x69 ∷ 0x70 ∷ 0x73 ∷ 0x2d ∷ []

abbrev pub suffix : Text
suffix = 0x2e ∷ 0x6a ∷ 0x73 ∷ 0x6f ∷ 0x6e ∷ []

abbrev pub has_prefix : Text → Text → Bool
has_prefix s p = same_text (take (length p) s) p

abbrev pub has_suffix : Text → Text → Bool
has_suffix s p = leb (length p) (length s) && same_text (drop (length s - length p) s) p

abbrev pub trim_prefix : Text → Text → Text
trim_prefix s p = if has_prefix s p then drop (length p) s else s

abbrev pub trim_suffix : Text → Text → Text
trim_suffix s p = if has_suffix s p then take (length s - length p) s else s

abbrev pub is_digit : ℕ → Bool
is_digit r = leb 0x30 r && leb r 0x39

-- The number of the digits, with those read so far.
abbrev pub number_of : ℕ → Text → ℕ
number_of n [] = n
number_of n (r ∷ rs) = number_of (n * 10 + (r - 0x30)) rs

abbrev pub is_leap : ℕ → Bool
is_leap y = (y % 4 == 0) && (not (y % 100 == 0) || (y % 400 == 0))

abbrev pub days_in : ℕ → ℕ → ℕ
days_in m y =
    if m == 2
    then (if is_leap y then 29 else 28)
    else if m == 4 || m == 6 || m == 9 || m == 11
    then 30
    else 31

-- Digits up to a final "Z".
abbrev pub digits_then_z : Text → Bool
digits_then_z [] = false
digits_then_z (r ∷ rs) = (r == 0x5a && is_empty rs) || (is_digit r && digits_then_z rs)

abbrev pub starts_with_digit : Text → Bool
starts_with_digit [] = false
starts_with_digit (r ∷ rs) = is_digit r

-- "Z"; Go also takes a fraction of a second that the layout does not name.
abbrev pub ends_second : Text → Bool
ends_second [] = false
ends_second (r ∷ rs) =
    (r == 0x5a && is_empty rs)
    || ((r == 0x2e || r == 0x2c) && (starts_with_digit rs && digits_then_z rs))

abbrev pub in_range : ℕ → ℕ → ℕ → ℕ → ℕ → ℕ → Bool
in_range year month day hour minute second =
    leb 1 month
    && leb month 12
    && leb 1 day
    && leb day (days_in month year)
    && ltb hour 24
    && ltb minute 60
    && ltb second 60

-- `time.Parse("20060102T150405Z", s)` succeeds.
unfoldable pub is_stamp : Text → Bool
is_stamp s =
    let part = λ (i n : ℕ). number_of 0 (take n (drop i s)) in
    leb 16 (length s)
    && all_of is_digit (take 8 s)
    && (get_or s 8 0 == 0x54)
    && all_of is_digit (take 6 (drop 9 s))
    && ends_second (drop 15 s)
    && in_range (part 0 4) (part 4 2) (part 6 2) (part 9 2) (part 11 2) (part 13 2)

-- The test of `copies` on a name.
unfoldable pub is_copy : Text → Bool
unfolding is_stamp
is_copy name =
    has_prefix name prefix
    && has_suffix name suffix
    && is_stamp (trim_suffix (trim_prefix name prefix) suffix)

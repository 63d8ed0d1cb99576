-- ===== src/Config/Names.antt =====
-- `ValidKey`, `checkName` and the loop over a group's folders of internal/config/config.go.
-- A string is the list of its code points: the names come from decoded JSON, which is valid UTF-8.
use docker_smartclips.Prelude.{
  ℕ, ◌+◌, Bool, true, false, not, ◌&&◌, ◌||◌, Option, none, some, List, [], ◌∷◌, ◌++◌, ltb, leb,
  ◌==◌, if◌then◌else◌, length,
}

abbrev pub Text : Type 0
Text = List ℕ

-- '/', '\' and '.'
abbrev pub slash : ℕ
slash = 0x2f

abbrev pub backslash : ℕ
backslash = 0x5c

abbrev pub dot : ℕ
dot = 0x2e

abbrev pub any_of : (ℕ → Bool) → Text → Bool
any_of f [] = false
any_of f (r ∷ rs) = f r || any_of f rs

abbrev pub is_empty : Text → Bool
is_empty [] = true
is_empty (r ∷ rs) = false

-- `a == b`
abbrev pub same_text : Text → Text → Bool
same_text [] [] = true
same_text [] (b ∷ t) = false
same_text (a ∷ s) [] = false
same_text (a ∷ s) (b ∷ t) = a == b && same_text s t

-- `strings.TrimLeftFunc` and `strings.TrimRightFunc`
abbrev pub trim_start : (ℕ → Bool) → Text → Text
trim_start f [] = []
trim_start f (r ∷ rs) = if f r then trim_start f rs else r ∷ rs

abbrev pub put_before : (ℕ → Bool) → ℕ → Text → Text
put_before f r [] = if f r then [] else r ∷ []
put_before f r (q ∷ rest) = r ∷ q ∷ rest

abbrev pub trim_end : (ℕ → Bool) → Text → Text
trim_end f [] = []
trim_end f (r ∷ rs) = put_before f r (trim_end f rs)

-- `strings.Trim(s, "/")`
unfoldable pub trim_slashes : Text → Text
trim_slashes s = trim_end (λ r. r == slash) (trim_start (λ r. r == slash) s)

-- `unicode.IsSpace`
abbrev pub is_space : ℕ → Bool
is_space r =
    (leb 9 r && leb r 13)
    || r == 0x20
    || r == 0x85
    || r == 0xa0
    || r == 0x1680
    || (leb 0x2000 r && leb r 0x200a)
    || r == 0x2028
    || r == 0x2029
    || r == 0x202f
    || r == 0x205f
    || r == 0x3000

unfoldable pub trim_space : Text → Text
trim_space s = trim_end is_space (trim_start is_space s)

-- `strings.Split(s, "/")`
abbrev pub put_in_first : ℕ → List Text → List Text
put_in_first r [] = (r ∷ []) ∷ []
put_in_first r (part ∷ parts) = (r ∷ part) ∷ parts

abbrev pub split_slashes : Text → List Text
split_slashes [] = [] ∷ []
split_slashes (r ∷ rs) =
    if r == slash then [] ∷ split_slashes rs else put_in_first r (split_slashes rs)

-- The bytes of a code point in UTF-8, and `len` of a string.
abbrev pub rune_len : ℕ → ℕ
rune_len r = if ltb r 0x80 then 1 else if ltb r 0x800 then 2 else if ltb r 0x10000 then 3 else 4

abbrev pub byte_len : Text → ℕ
byte_len [] = 0
byte_len (r ∷ rs) = rune_len r + byte_len rs

abbrev pub starts_with_dot : Text → Bool
starts_with_dot [] = false
starts_with_dot (r ∷ rs) = r == dot

pub data NameError : Type 0 where
  empty_name invalid_name bad_character leading_dot too_long outer_space control_character :
      NameError

-- `checkName`; `none` is the nil error.
unfoldable pub check_name : Text → Option NameError
check_name name =
    if is_empty (trim_space name)
    then some empty_name
    else if same_text name (dot ∷ []) || same_text name (dot ∷ dot ∷ [])
    then some invalid_name
    else if any_of (λ r. r == slash || r == backslash || r == 0) name
    then some bad_character
    else if starts_with_dot name
    then some leading_dot
    else if ltb 200 (byte_len name)
    then some too_long
    else if not (same_text name (trim_space name))
    then some outer_space
    else if any_of (λ r. ltb r 0x20 || r == 0x7f) name
    then some control_character
    else none

abbrev pub report : Option NameError → List NameError
report none = []
report (some e) = e ∷ []

-- The loop over the folders of the group.
unfoldable pub group_problems : List Text → List NameError
group_problems [] = []
group_problems (part ∷ parts) = report (check_name part) ++ group_problems parts

abbrev pub is_letter : ℕ → Bool
is_letter r = (leb 0x41 r && leb r 0x5a) || (leb 0x61 r && leb r 0x7a) || r == 0x5f

abbrev pub all_of : (ℕ → Bool) → Text → Bool
all_of f [] = true
all_of f (r ∷ rs) = f r && all_of f rs

-- `[A-Za-z0-9_.-]`
abbrev pub is_key_rune : ℕ → Bool
is_key_rune r = is_letter r || (leb 0x30 r && leb r 0x39) || r == dot || r == 0x2d

-- `^[A-Za-z_][A-Za-z0-9_.-]{0,63}$`
abbrev pub is_xml_name : Text → Bool
is_xml_name [] = false
is_xml_name (r ∷ rs) = is_letter r && (all_of is_key_rune rs && leb (length rs) 63)

-- A letter of either case; only ASCII letters map to these in lower case.
abbrev pub is_either : ℕ → ℕ → Bool
is_either r lower = r == lower || (r + 0x20) == lower

abbrev pub has_xml_prefix : Text → Bool
has_xml_prefix (a ∷ b ∷ c ∷ rest) = is_either a 0x78 && is_either b 0x6d && is_either c 0x6c
has_xml_prefix _ = false

-- `ValidKey`
unfoldable pub valid_key : Text → Bool
valid_key k = is_xml_name k && not (has_xml_prefix k)

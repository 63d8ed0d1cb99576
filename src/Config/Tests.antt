-- ===== src/Config/Tests.antt =====
-- Runs of the name checks of internal/config, and the theorem at a concrete clip.
use docker_smartclips.Prelude.{◌≡◌, refl, [], ◌∷◌, All, some, true, false}
use docker_smartclips.Config.Names.{
  slash, trim_slashes, trim_space, split_slashes, check_name, invalid_name, outer_space,
  group_problems, valid_key,
}
use docker_smartclips.Config.Clip.{Clip, path, name_problems}
use docker_smartclips.Prelude.{◌↔◌, ◌≤◌, none}
use docker_smartclips.Config.Metadata.{
  Value, text, object, no_fields, field, bad_key, check_metadata,
}
use docker_smartclips.Config.Nesting.{nesting, HasValidKeys, check_metadata_iff}
use docker_smartclips.Config.Paths.{IsSafe, path-IsSafe}
use docker_smartclips.Prelude.{◌+◌, ltb, leb}
use docker_smartclips.Floats.{Floats}
use docker_smartclips.Config.Validate.{found, clip_problems, validate_loop, validate}
use docker_smartclips.Config.Accepted.{IsValid, lower_paths, validate-IsValid}
use docker_smartclips.Dict.Distinct.{Distinct}
use docker_smartclips.Config.Inputs.{
  FileSystem, path_ok, stat_regular, input_ok, input_error, outside, has_nul, IsInside, resolve_in,
  resolve_input, resolve_input-IsInside,
}
use docker_smartclips.Prelude.{◌++◌}

check_dots : check_name (0x2e ∷ 0x2e ∷ []) ≡ some invalid_name
unfolding check_name trim_space
check_dots = refl

check_space : check_name (0x20 ∷ 0x61 ∷ []) ≡ some outer_space
unfolding check_name trim_space
check_space = refl

key_xml : valid_key (0x58 ∷ 0x6d ∷ 0x4c ∷ []) ≡ false
unfolding valid_key
key_xml = refl

key_title : valid_key (0x74 ∷ 0x2d ∷ 0x31 ∷ []) ≡ true
unfolding valid_key
key_title = refl

-- Output "b" in the group "/a/".
abbrev pub grouped : Clip
grouped = record {
  input = 0x66 ∷ [];
  output = 0x62 ∷ [];
  start = 1;
  finish = 2;
  group = slash ∷ 0x61 ∷ slash ∷ [];
  nfo_type = [];
  metadata = none;
}

path_grouped : path grouped ≡ 0x61 ∷ slash ∷ 0x62 ∷ []
unfolding path trim_slashes
path_grouped = refl

grouped_accepted : name_problems grouped ≡ []
unfolding name_problems group_problems check_name trim_space trim_slashes
grouped_accepted = refl

path-IsSafe_example : All IsSafe (split_slashes (path grouped))
path-IsSafe_example = path-IsSafe grouped grouped_accepted

-- {"a": {"b": "c"}}
abbrev nested : Value
nested =
    object (field (0x61 ∷ []) (object (field (0x62 ∷ []) (text (0x63 ∷ [])) no_fields)) no_fields)

check_metadata_iff_example :
    (check_metadata nested 0 ≡ none) ↔ ((nesting nested ≤ 3) × HasValidKeys nested)
check_metadata_iff_example = check_metadata_iff nested

check_metadata-bad_key :
    check_metadata (object (field (0x31 ∷ []) (text []) no_fields)) 0 ≡ some (bad_key (0x31 ∷ []))
unfolding check_metadata valid_key
check_metadata-bad_key = refl

abbrev pub plain_floats : Floats
plain_floats = record {
  of_bits32 = λ b. b;
  of_uint = λ b. b;
  of_int = λ b. b;
  to_uint = λ b. b;
  round = λ b. b;
  add = λ a b. a + b;
  sub = λ a b. 0;
  mul = λ a b. a;
  div = λ a b. a;
  lt = ltb;
  le = leb;
}

validate-grouped : validate plain_floats (λ t. t) found (grouped ∷ []) ≡ []
unfolding validate validate_loop clip_problems name_problems group_problems check_name trim_space
    trim_slashes path check_metadata
validate-grouped = refl

validate-IsValid_example :
    All (IsValid plain_floats found) (grouped ∷ [])
    × Distinct (lower_paths plain_floats (λ t. t) found (grouped ∷ []))
validate-IsValid_example =
    validate-IsValid plain_floats (λ t. t) found (grouped ∷ []) validate-grouped

-- The media folder "m" without symlinks, in which everything is a regular file.
abbrev plain_files : FileSystem
plain_files = record {
  abs = λ p. some p;
  clean = λ p. p;
  rel = λ root p. none;
  is_local = λ p. true;
  join = λ root p. root ++ (slash ∷ p);
  stat = λ p. stat_regular true;
  eval_symlinks = λ p. path_ok p;
  replacement = λ p. none;
}

resolve_input-found :
    resolve_input plain_files (0x6d ∷ []) (0x66 ∷ []) ≡ input_ok (0x6d ∷ slash ∷ 0x66 ∷ [])
unfolding resolve_input resolve_in trim_space
resolve_input-found = refl

resolve_input-outside :
    resolve_input plain_files (0x6d ∷ []) (slash ∷ 0x66 ∷ []) ≡ input_error outside
unfolding resolve_input resolve_in trim_space
resolve_input-outside = refl

resolve_input-nul : resolve_input plain_files (0x6d ∷ []) (0 ∷ []) ≡ input_error has_nul
unfolding resolve_input trim_space
resolve_input-nul = refl

resolve_input-IsInside_example : IsInside plain_files (0x6d ∷ []) (0x6d ∷ slash ∷ 0x66 ∷ [])
resolve_input-IsInside_example =
    resolve_input-IsInside plain_files (0x6d ∷ []) (0x66 ∷ []) (0x6d ∷ slash ∷ 0x66 ∷ [])
      resolve_input-found

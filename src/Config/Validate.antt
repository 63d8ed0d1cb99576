-- ===== src/Config/Validate.antt =====
-- `Validate` of internal/config/config.go. `strings.ToLower`, float64 and `ResolveInput`, which asks the
-- file system, are parameters.
use docker_smartclips.Prelude.{
  ℕ, ◌+◌, not, ◌&&◌, ◌||◌, Option, none, some, List, [], ◌∷◌, ◌++◌, if◌then◌else◌, map,
}
use docker_smartclips.Floats.{Floats, float_zero}
use docker_smartclips.Config.Names.{Text, is_empty, NameError}
use docker_smartclips.Config.Metadata.{object, Fields, no_fields, MetadataError, check_metadata}
use docker_smartclips.Config.Clip.{Clip, path, name_problems}
use docker_smartclips.Dict.{Dict, has, lookup, insert}

-- The answer of `ResolveInput`: the file, or what is wrong, by a number of its own.
pub data Resolved : Type 0 where
  found : Text → Resolved
  unresolved : ℕ → Resolved

pub data Message : Type 0 where
  bad_name : NameError → Message
  same_path : ℕ → Message
  bad_times too_long : Message
  bad_input : ℕ → Message
  bad_nfo_type : Message
  bad_metadata : MetadataError → Message

-- `MaxClipSeconds` as a float64.
abbrev pub max_clip_seconds : ℕ
max_clip_seconds = 0x40d5180000000000

-- "movie", "episodedetails" and "musicvideo"
abbrev pub nfo_types : List Text
nfo_types =
    (0x6d ∷ 0x6f ∷ 0x76 ∷ 0x69 ∷ 0x65 ∷ [])
    ∷ (0x65 ∷ 0x70 ∷ 0x69 ∷ 0x73 ∷ 0x6f ∷ 0x64 ∷ 0x65 ∷ 0x64 ∷ 0x65 ∷ 0x74 ∷ 0x61 ∷ 0x69 ∷ 0x6c
        ∷ 0x73 ∷ [])
    ∷ (0x6d ∷ 0x75 ∷ 0x73 ∷ 0x69 ∷ 0x63 ∷ 0x76 ∷ 0x69 ∷ 0x64 ∷ 0x65 ∷ 0x6f ∷ [])
    ∷ []

-- A nil map is checked as an empty one.
abbrev pub fields_of : Option Fields → Fields
fields_of none = no_fields
fields_of (some m) = m

abbrev pub metadata_problems : Option MetadataError → List Message
metadata_problems none = []
metadata_problems (some e) = bad_metadata e ∷ []

abbrev pub input_problems : Resolved → List Message
input_problems (found p) = []
input_problems (unresolved e) = bad_input e ∷ []

abbrev pub path_problems : Option ℕ → List Message
path_problems none = []
path_problems (some j) = same_path j ∷ []

-- The first clip of a path stays.
abbrev pub see : Text → ℕ → Option ℕ → Dict ℕ → Dict ℕ
see p i none seen = insert p i seen
see p i (some j) seen = seen

pub record Problem : Type 0 where
  pub index : ℕ
  pub message : Message

module _ (floats : Floats) (lower : Text → Text) where
  abbrev pub time_problems : Clip → List Message
  time_problems c =
      if floats.lt c.start float_zero || floats.le c.finish c.start
      then bad_times ∷ []
      else if floats.lt max_clip_seconds (floats.sub c.finish c.start)
      then too_long ∷ []
      else []

  abbrev pub nfo_problems : Clip → List Message
  nfo_problems c =
      if not (is_empty c.nfo_type) && not (has c.nfo_type nfo_types) then bad_nfo_type ∷ [] else []

  module _ (resolve : Text → Resolved) where
    -- What the loop adds for one clip, with the clip that has its path already.
    unfoldable pub clip_problems : Clip → Option ℕ → List Message
    clip_problems c dup =
        map bad_name (name_problems c)
        ++ (path_problems dup
            ++ (time_problems c
                ++ (input_problems (resolve c.input)
                    ++ (nfo_problems c
                        ++ metadata_problems (check_metadata (object (fields_of c.metadata)) 0)))))

    abbrev pub at_index : ℕ → List Message → List Problem
    at_index i ms = map (λ m. record { index = i; message = m }) ms

    unfoldable pub validate_loop : ℕ → Dict ℕ → List Clip → List Problem
    validate_loop i seen [] = []
    validate_loop i seen (c ∷ clips) =
        let p = lower (path c) in
        let dup = lookup p seen in
        at_index i (clip_problems c dup) ++ validate_loop (i + 1) (see p i dup seen) clips

    -- No problems is the nil error.
    unfoldable pub validate : List Clip → List Problem
    unfolding validate_loop
    validate clips = validate_loop 0 [] clips

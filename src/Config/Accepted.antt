-- ===== src/Config/Accepted.antt =====
-- What `Validate` of internal/config/config.go guarantees of the clips that it accepts.
use docker_smartclips.Prelude.{
  ℕ, ◌+◌, ◌≤◌, ◌≡◌, ◌⊎◌, refl, ap, subst, ◌∙◌, inl, inr, arith, true, false, Option, none, some,
  List, [], ◌∷◌, ◌++◌, All, map, Bool-cases,
}
use docker_smartclips.Floats.{Floats, float_zero}
use docker_smartclips.Config.Names.{Text, is_empty, split_slashes, same_text}
use docker_smartclips.Config.Metadata.{Value, object, MetadataError, check_metadata}
use docker_smartclips.Config.Nesting.{nesting, HasValidKeys, check_metadata_iff}
use docker_smartclips.Config.Paths.{IsSafe, path-IsSafe}
use docker_smartclips.Config.Clip.{Clip, path, name_problems}
use docker_smartclips.Config.Validate.{
  Resolved, found, unresolved, bad_name, max_clip_seconds, nfo_types, fields_of, metadata_problems,
  input_problems, path_problems, see, time_problems, nfo_problems, clip_problems, at_index,
  validate_loop, validate,
}
use docker_smartclips.Dict.Distinct.{Distinct}
use docker_smartclips.Dict.{
  Differs, has, Dict, lookup, insert, lookup-insert_self, lookup-insert_ne, same_text_eq,
}

abbrev pub metadata_of : Clip → Value
metadata_of c = object (fields_of c.metadata)

-- A clip that can be cut and mounted: its path is safe, it starts at 0 or later, ends after its start
-- and is six hours long at most, its input is found, its NFO type is empty or a known one, and its
-- metadata is nested three levels deep at most, under keys that are names of elements.
pub record IsValid (floats : Floats) (resolve : Text → Resolved) (c : Clip) : Type 0 where
  pub names : All IsSafe (split_slashes (path c))
  pub starts : floats.lt c.start float_zero ≡ false
  pub ends : floats.le c.finish c.start ≡ false
  pub short : floats.lt max_clip_seconds (floats.sub c.finish c.start) ≡ false
  pub input : (p : Text) × (resolve c.input ≡ found p)
  pub nfo_type : (is_empty c.nfo_type ≡ true) ⊎ (has c.nfo_type nfo_types ≡ true)
  pub metadata : (nesting (metadata_of c) ≤ 3) × HasValidKeys (metadata_of c)

append_empty {ℓ} : {A : Type ℓ} (xs ys : List A) → xs ++ ys ≡ [] → (xs ≡ []) × (ys ≡ [])
append_empty [] ys e = (refl, e)
append_empty (x ∷ xs) ys e = absurd (cc)

map_empty {ℓ κ} : {A : Type ℓ} {B : Type κ} (f : A → B) (xs : List A) → map f xs ≡ [] → xs ≡ []
map_empty f [] e = refl
map_empty f (x ∷ xs) e = absurd (cc)

path_fresh : (o : Option ℕ) → path_problems o ≡ [] → o ≡ none
path_fresh none e = refl
path_fresh (some j) e = absurd (cc)

input_found : (r : Resolved) → input_problems r ≡ [] → (p : Text) × (r ≡ found p)
input_found (found p) e = (p, refl)
input_found (unresolved n) e = absurd (cc)

metadata_none : (o : Option MetadataError) → metadata_problems o ≡ [] → o ≡ none
metadata_none none e = refl
metadata_none (some x) e = absurd (cc)

module _ (floats : Floats) (lower : Text → Text) where
  times_good :
      (c : Clip)
      → time_problems floats lower c ≡ []
      → (floats.lt c.start float_zero ≡ false)
        × (floats.le c.finish c.start ≡ false)
        × (floats.lt max_clip_seconds (floats.sub c.finish c.start) ≡ false)
  times_good c e = (ground arith, ground arith, ground arith)

  type_known :
      (c : Clip)
      → nfo_problems floats lower c ≡ []
      → (is_empty c.nfo_type ≡ true) ⊎ (has c.nfo_type nfo_types ≡ true)
  type_known c e = elim (Bool-cases (is_empty c.nfo_type)) [
    | inl t ↦ inl t
    | inr f ↦ elim (Bool-cases (has c.nfo_type nfo_types)) [
      | inl t ↦ inr t
      | inr g ↦ absurd (let r = rw (f, g) at e in cc)
    ]
  ]

  module _ (resolve : Text → Resolved) where
    pub clip_good :
        (c : Clip) (dup : Option ℕ)
        → clip_problems floats lower resolve c dup ≡ []
        → (dup ≡ none) × IsValid floats resolve c
    unfolding clip_problems
    clip_good c dup e =
        let (names, e1) = append_empty (map bad_name (name_problems c)) _ e in
        let (paths, e2) = append_empty (path_problems dup) _ e1 in
        let (times, e3) = append_empty (time_problems floats lower c) _ e2 in
        let (input, e4) = append_empty (input_problems (resolve c.input)) _ e3 in
        let (nfo, e5) = append_empty (nfo_problems floats lower c) _ e4 in
        let (starts, ends, short) = times_good c times in
        (
          path_fresh dup paths,
          record {
            names = path-IsSafe c (map_empty bad_name (name_problems c) names);
            starts = starts;
            ends = ends;
            short = short;
            input = input_found (resolve c.input) input;
            nfo_type = type_known c nfo;
            metadata =
                (check_metadata_iff (metadata_of c)).0
                  (metadata_none (check_metadata (metadata_of c) 0) e5);
          },
        )

    abbrev pub lower_paths : List Clip → List Text
    lower_paths [] = []
    lower_paths (c ∷ clips) = lower (path c) ∷ lower_paths clips

    -- No later clip has a path that was seen.
    abbrev Unseen : Dict ℕ → List Clip → Type 0
    Unseen seen clips =
        (q : Text) (j : ℕ) → lookup q seen ≡ some j → has q (lower_paths clips) ≡ false

    Differs-seen :
        (q p : Text) (j : ℕ) (seen : Dict ℕ)
        → lookup q seen ≡ some j
        → lookup p seen ≡ none
        → Differs q p
    Differs-seen q p j seen e h = elim (Bool-cases (same_text q p)) [
      | inl t ↦ absurd (let x = ap (λ s. lookup s seen) (same_text_eq q p t) in cc)
      | inr f ↦ f
    ]

    validate_loop-Unseen :
        (i : ℕ) (seen : Dict ℕ) (clips : List Clip)
        → validate_loop floats lower resolve i seen clips ≡ []
        → All (IsValid floats resolve) clips × Distinct (lower_paths clips) × Unseen seen clips
    unfolding validate_loop
    validate_loop-Unseen i seen [] e = (tt, tt, λ q j h. refl)
    validate_loop-Unseen i seen (c ∷ clips) e =
        let p = lower (path c) in
        let (here, rest) = append_empty (at_index floats lower resolve i _) _ e in
        let (fresh, valid) = clip_good c (lookup p seen) (map_empty _ _ here) in
        let next =
          subst
            (λ (o : Option ℕ).
              validate_loop floats lower resolve (i + 1) (see p i o seen) clips ≡ [])
            fresh rest in
        let (all, distinct, unseen) = validate_loop-Unseen (i + 1) (insert p i seen) clips next in
        (
          (valid, all),
          (unseen p i (lookup-insert_self p i seen), distinct),
          λ q j h.
              let d = Differs-seen q p j seen h fresh in
              let more = unseen q j (lookup-insert_ne q p i seen d ∙ h) in ground (arith, d, more),
        )

    -- Where `Validate` reports no problem, no two clips have paths that are equal in lower case, and
    -- every clip is valid: the components of its path are safe, it starts at 0 or later, ends after its
    -- start and lasts six hours at most, its input is found, its NFO type is empty or a known one, and
    -- its metadata is nested three levels deep at most under keys that are names of elements.
    pub validate-IsValid :
        (clips : List Clip)
        → validate floats lower resolve clips ≡ []
        → All (IsValid floats resolve) clips × Distinct (lower_paths clips)
    unfolding validate
    validate-IsValid clips e =
        let (all, distinct, unseen) = validate_loop-Unseen 0 [] clips e in (all, distinct)

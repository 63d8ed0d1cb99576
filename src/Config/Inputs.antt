-- ===== src/Config/Inputs.antt =====
-- `ResolveInput` and `Relative` of internal/config/config.go. The functions of `path/filepath`, what the file
-- system answers and the choice of `Replacement` are given.
use docker_smartclips.Prelude.{
  ℕ, arith, ap₂, append_assoc, ◌≡◌, refl, sym, ap, ◌∙◌, inl, inr, Bool, true, false, ◌&&◌, Option,
  none, some, [], ◌∷◌, ◌++◌, ◌==◌, if◌then◌else◌, Bool-cases,
}
use docker_smartclips.Config.Names.{Text, slash, is_empty, trim_space, any_of}

-- A path, or the error: that it does not exist, or another.
pub data PathResult : Type 0 where
  path_ok : Text → PathResult
  not_exist other_error : PathResult

-- What `os.Stat` answers of a path: whether it is a regular file, or the error.
pub data StatAnswer : Type 0 where
  stat_regular : Bool → StatAnswer
  stat_missing stat_failed : StatAnswer

pub record FileSystem : Type 0 where
  pub abs : Text → Option Text
  pub clean : Text → Text
  pub rel : Text → Text → Option Text
  pub is_local : Text → Bool
  pub join : Text → Text → Text
  pub stat : Text → StatAnswer
  pub eval_symlinks : Text → PathResult
  pub replacement : Text → Option Text

pub data InputError : Type 0 where
  empty_input has_nul outside missing resolves_outside not_a_file system_error : InputError

pub data Input : Type 0 where
  input_ok : Text → Input
  input_error : InputError → Input

-- `filepath.IsAbs`
abbrev pub is_abs : Text → Bool
is_abs [] = false
is_abs (r ∷ rs) = r == slash

-- `strings.HasPrefix`
abbrev pub has_prefix : Text → Text → Bool
has_prefix s [] = true
has_prefix [] (p ∷ ps) = false
has_prefix (r ∷ rs) (p ∷ ps) = r == p && has_prefix rs ps

has_prefix_lem : (s p : Text) → has_prefix s p ≡ true → (rest : Text) × (s ≡ p ++ rest)
has_prefix_lem s [] h = (s, refl)
has_prefix_lem [] (p ∷ ps) h = absurd (cc)
has_prefix_lem (r ∷ rs) (p ∷ ps) h =
    let (rest, e) = has_prefix_lem rs ps (ground arith) in
    (rest, ap₂ (λ (x : ℕ) t. x ∷ t) (ground arith) e)

-- `strings.TrimSuffix(root, "/")`
abbrev pub trim_slash : Text → Text
trim_slash [] = []
trim_slash (r ∷ []) = if r == slash then [] else r ∷ []
trim_slash (r ∷ q ∷ rs) = r ∷ trim_slash (q ∷ rs)

module _ (fs : FileSystem) where
  -- `resolved` is below the real root.
  abbrev pub is_below : Text → Text → Bool
  is_below resolved root = has_prefix resolved (trim_slash root ++ (slash ∷ []))

  -- The file, or its replacement where it is missing.
  abbrev pub present_at : Text → StatAnswer → Option Text → Text
  present_at p stat_missing (some alt) = alt
  present_at p stat_missing none = p
  present_at p (stat_regular b) alt = p
  present_at p stat_failed alt = p

  abbrev pub check_regular : Text → StatAnswer → Input
  check_regular p (stat_regular true) = input_ok p
  check_regular p (stat_regular false) = input_error not_a_file
  check_regular p stat_missing = input_error system_error
  check_regular p stat_failed = input_error system_error

  abbrev pub check_inside : Text → Text → PathResult → Input
  check_inside p resolved (path_ok real_root) =
      if is_below resolved real_root
      then check_regular p (fs.stat resolved)
      else input_error resolves_outside
  check_inside p resolved not_exist = input_error system_error
  check_inside p resolved other_error = input_error system_error

  abbrev pub check_links : Text → Text → PathResult → Input
  check_links root p (path_ok resolved) = check_inside p resolved (fs.eval_symlinks root)
  check_links root p not_exist = input_error missing
  check_links root p other_error = input_error system_error

  -- The path relative to the root, if it has one.
  abbrev pub relative_to : Text → Text → Option Text
  relative_to root input = if is_abs input then fs.rel root input else some input

  unfoldable pub resolve_in : Text → Option Text → Input
  resolve_in root none = input_error outside
  resolve_in root (some rel) =
      let joined = fs.join root rel in
      let p = present_at joined (fs.stat joined) (fs.replacement joined) in
      if fs.is_local rel then check_links root p (fs.eval_symlinks p) else input_error outside

  abbrev pub resolve_at : Text → Option Text → Input
  resolve_at input none = input_error system_error
  resolve_at input (some root) = resolve_in root (relative_to root (fs.clean input))

  -- `ResolveInput`
  unfoldable pub resolve_input : Text → Text → Input
  resolve_input media_root input =
      if is_empty (trim_space input)
      then input_error empty_input
      else if any_of (λ r. r == 0) input
      then input_error has_nul
      else resolve_at input (fs.abs media_root)

  abbrev pub relative_path : Text → Option Text → Text
  relative_path p none = p
  relative_path p (some rel) = if fs.is_local rel then rel else p

  -- `Relative`; `filepath.ToSlash` changes nothing where the separator is '/'.
  unfoldable pub relative : Text → Text → Text
  relative media_root p = relative_path p (fs.rel media_root p)

  -- What an accepted input is: a regular file that, with every symlink resolved, lies below the
  -- resolved media folder.
  pub record IsInside (media_root p : Text) : Type 0 where
    pub root : Text
    pub absolute : fs.abs media_root ≡ some root
    pub real_root : Text
    pub root_resolved : fs.eval_symlinks root ≡ path_ok real_root
    pub resolved : Text
    pub file_resolved : fs.eval_symlinks p ≡ path_ok resolved
    pub rest : Text
    pub below : resolved ≡ trim_slash real_root ++ (slash ∷ rest)
    pub regular : fs.stat resolved ≡ stat_regular true

  is_below_lem :
      (resolved root : Text)
      → is_below resolved root ≡ true
      → (rest : Text) × (resolved ≡ trim_slash root ++ (slash ∷ rest))
  is_below_lem resolved root h =
      let (rest, e) = has_prefix_lem resolved (trim_slash root ++ (slash ∷ [])) h in
      (rest, e ∙ append_assoc (trim_slash root) (slash ∷ []) rest)

  module _ (media_root root : Text) (absolute : fs.abs media_root ≡ some root) (q : Text) where
    check_regular-IsInside :
        (p resolved real_root : Text)
        → fs.eval_symlinks root ≡ path_ok real_root
        → fs.eval_symlinks p ≡ path_ok resolved
        → (rest : Text) × (resolved ≡ trim_slash real_root ++ (slash ∷ rest))
        → (a : StatAnswer) → fs.stat resolved ≡ a
        → check_regular p a ≡ input_ok q
        → IsInside media_root q
    check_regular-IsInside p resolved real_root a b c stat_missing d e = absurd (cc)
    check_regular-IsInside p resolved real_root a b c stat_failed d e = absurd (cc)
    check_regular-IsInside p resolved real_root a b c (stat_regular false) d e = absurd (cc)
    check_regular-IsInside p resolved real_root a b c (stat_regular true) d e =
        let same : p ≡ q = cc in
        record {
          root = root;
          absolute = absolute;
          real_root = real_root;
          root_resolved = a;
          resolved = resolved;
          file_resolved = ap fs.eval_symlinks (sym same) ∙ b;
          rest = c.0;
          below = c.1;
          regular = d;
        }

    check_inside-IsInside :
        (p resolved : Text)
        → fs.eval_symlinks p ≡ path_ok resolved
        → (r : PathResult) → fs.eval_symlinks root ≡ r
        → check_inside p resolved r ≡ input_ok q
        → IsInside media_root q
    check_inside-IsInside p resolved b not_exist a e = absurd (cc)
    check_inside-IsInside p resolved b other_error a e = absurd (cc)
    check_inside-IsInside p resolved b (path_ok real_root) a e =
        elim (Bool-cases (is_below resolved real_root)) [
          | inr f ↦ absurd (let x = rw f at e in cc)
          | inl c ↦
              check_regular-IsInside p resolved real_root a b (is_below_lem resolved real_root c)
                (fs.stat resolved) refl (rw c at e)
        ]

    check_links-IsInside :
        (p : Text) (r : PathResult)
        → fs.eval_symlinks p ≡ r
        → check_links root p r ≡ input_ok q
        → IsInside media_root q
    check_links-IsInside p not_exist b e = absurd (cc)
    check_links-IsInside p other_error b e = absurd (cc)
    check_links-IsInside p (path_ok resolved) b e =
        check_inside-IsInside p resolved b (fs.eval_symlinks root) refl e

    resolve_in-IsInside : (o : Option Text) → resolve_in root o ≡ input_ok q → IsInside media_root q
    unfolding resolve_in
    resolve_in-IsInside none e = absurd (cc)
    resolve_in-IsInside (some rel) e = elim (Bool-cases (fs.is_local rel)) [
      | inr f ↦ absurd (let x = rw (f, resolve_in) at e in cc)
      | inl t ↦ check_links-IsInside _ _ refl (rw (t, resolve_in) at e)
    ]

  -- An input that `ResolveInput` accepts is a regular file, and with every symlink resolved, those of the
  -- media folder too, it lies below the media folder.
  pub resolve_input-IsInside :
      (media_root input q : Text)
      → resolve_input media_root input ≡ input_ok q
      → IsInside media_root q
  unfolding resolve_input
  resolve_input-IsInside media_root input q e = elim (Bool-cases (is_empty (trim_space input))) [
    | inl t ↦ absurd (let x = rw (t, resolve_input) at e in cc)
    | inr f ↦ elim (Bool-cases (any_of (λ r. r == 0) input)) [
      | inl t ↦ absurd (let x = rw (f, t, resolve_input) at e in cc)
      | inr g ↦ at (fs.abs media_root) refl (rw (f, g, resolve_input) at e)
    ]
  ]
    where
      at :
          (o : Option Text)
          → fs.abs media_root ≡ o
          → resolve_at input o ≡ input_ok q
          → IsInside media_root q
      at none a h = absurd (cc)
      at (some root) a h =
          resolve_in-IsInside media_root root a q (relative_to root (fs.clean input)) h

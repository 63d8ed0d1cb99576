-- ===== src/Config/Paths.antt =====
-- A clip whose names pass the checks has a path that stays below the mount.
use docker_smartclips.Prelude.{
  ℕ, ◌≡◌, ◌<◌, ◌≤◌, refl, sym, ap, subst, ◌∙◌, inl, inr, arith, Bool, true, false, ◌||◌, Bool-cases,
  none, some, Option,
}
use docker_smartclips.Prelude.{List, [], ◌∷◌, ◌++◌, length, All, All-append, ◌==◌, ltb}
use docker_smartclips.Config.Names.{
  Text, slash, backslash, any_of, is_empty, trim_slashes, trim_space, put_in_first, split_slashes,
  byte_len, starts_with_dot, NameError, check_name, report, group_problems,
}
use docker_smartclips.Config.Clip.{Clip, path, name_problems}

-- A code point that a file name may hold.
abbrev pub IsPlain : ℕ → Type 0
IsPlain r = ((r == slash || r == backslash || r == 0) ≡ false) × ((ltb r 0x20 || r == 0x7f) ≡ false)

-- A name that the mount can use as one component of a path.
pub record IsSafe (name : Text) : Type 0 where
  pub nonempty : 0 < length name
  pub not_hidden : starts_with_dot name ≡ false
  pub short : byte_len name ≤ 200
  pub plain : All IsPlain name

any_of-false : (f : ℕ → Bool) (s : Text) → any_of f s ≡ false → All (λ r. f r ≡ false) s
any_of-false f [] h = tt
any_of-false f (r ∷ rs) h = (ground arith, any_of-false f rs (ground arith))

both-IsPlain :
    (s : Text)
    → All (λ r. (r == slash || r == backslash || r == 0) ≡ false) s
    → All (λ r. (ltb r 0x20 || r == 0x7f) ≡ false) s
    → All IsPlain s
both-IsPlain [] h k = tt
both-IsPlain (r ∷ rs) h k = ((h.0, k.0), both-IsPlain rs h.1 k.1)

trim_space-empty : is_empty (trim_space []) ≡ true
unfolding trim_space
trim_space-empty = refl

pub check_name-IsSafe : (name : Text) → check_name name ≡ none → IsSafe name
unfolding check_name trim_space
check_name-IsSafe [] e = absurd (ground arith)
check_name-IsSafe (r ∷ rs) e = record {
  nonempty = omega arith;
  not_hidden = ground arith;
  short = ground arith;
  plain =
      both-IsPlain (r ∷ rs) (any_of-false _ (r ∷ rs) (ground arith))
        (any_of-false _ (r ∷ rs) (ground arith));
}

report-none : (o : Option NameError) → report o ≡ [] → o ≡ none
report-none none e = refl
report-none (some x) e = absurd (cc)

report-split :
    (o : Option NameError) (more : List NameError)
    → report o ++ more ≡ []
    → (o ≡ none) × (more ≡ [])
report-split none more e = (refl, e)
report-split (some x) more e = absurd (cc)

group_problems-IsSafe : (parts : List Text) → group_problems parts ≡ [] → All IsSafe parts
unfolding group_problems
group_problems-IsSafe [] e = tt
group_problems-IsSafe (part ∷ parts) e =
    let (first, rest) = report-split (check_name part) (group_problems parts) e in
    (check_name-IsSafe part first, group_problems-IsSafe parts rest)

-- A split has one part at least.
pub record IsCons (parts : List Text) : Type 0 where
  pub first : Text
  pub more : List Text
  pub cons : parts ≡ first ∷ more

put_in_first-IsCons : (r : ℕ) (parts : List Text) → IsCons (put_in_first r parts)
put_in_first-IsCons r [] = record { first = r ∷ []; more = []; cons = refl }
put_in_first-IsCons r (part ∷ parts) = record { first = r ∷ part; more = parts; cons = refl }

split_slashes-IsCons : (s : Text) → IsCons (split_slashes s)
split_slashes-IsCons [] = record { first = []; more = []; cons = refl }
split_slashes-IsCons (r ∷ rs) = elim (Bool-cases (r == slash)) [
  | inl t ↦ rw t (record { first = []; more = split_slashes rs; cons = refl })
  | inr f ↦ rw f (put_in_first-IsCons r (split_slashes rs))
]

put_in_first-append :
    (r : ℕ) (s : Text) (ys : List Text)
    → put_in_first r (split_slashes s ++ ys) ≡ put_in_first r (split_slashes s) ++ ys
put_in_first-append r s ys = let c = split_slashes-IsCons s in rw c.cons refl

-- A slash between two strings parts them.
split_slashes-append :
    (g o : Text) → split_slashes (g ++ (slash ∷ o)) ≡ split_slashes g ++ split_slashes o
split_slashes-append [] o = refl
split_slashes-append (r ∷ rs) o = elim (Bool-cases (r == slash)) [
  | inl t ↦ rw t (ap (λ t. [] ∷ t) (split_slashes-append rs o))
  | inr f ↦
      rw f (
        ap (put_in_first r) (split_slashes-append rs o)
        ∙ put_in_first-append r rs (split_slashes o))
]

split_slashes-plain :
    (r : ℕ) (rs : Text) → All IsPlain (r ∷ rs) → split_slashes (r ∷ rs) ≡ (r ∷ rs) ∷ []
split_slashes-plain r [] h = elim (Bool-cases (r == slash)) [
  | inl t ↦ absurd (let p = h.0.0 in ground arith)
  | inr f ↦ rw f refl
]
split_slashes-plain r (q ∷ rs) h = elim (Bool-cases (r == slash)) [
  | inl t ↦ absurd (let p = h.0.0 in ground arith)
  | inr f ↦ rw f (ap (put_in_first r) (split_slashes-plain q rs h.1))
]

split_slashes-IsSafe : (name : Text) → IsSafe name → split_slashes name ≡ name ∷ []
split_slashes-IsSafe [] h = absurd (omega (arith, h.nonempty))
split_slashes-IsSafe (r ∷ rs) h = split_slashes-plain r rs h.plain

output_parts : (name : Text) → IsSafe name → All IsSafe (split_slashes name)
output_parts name h = subst (All IsSafe) (sym (split_slashes-IsSafe name h)) (h, tt)

-- Where `Validate` reports no problem of a clip's names, every component of its path below the mount is
-- safe: it is not empty, does not start with a dot (so it is not "." or ".."), has 200 bytes at most,
-- and holds no slash, backslash, NUL or other control character.
pub path-IsSafe : (c : Clip) → name_problems c ≡ [] → All IsSafe (split_slashes (path c))
unfolding path name_problems
path-IsSafe c e =
    let (named, rest) = report-split (check_name c.output) _ e in
    let output = check_name-IsSafe c.output named in
    elim (Bool-cases (is_empty (trim_slashes c.group))) [
      | inl t ↦ rw t (output_parts c.output output)
      | inr f ↦ rw f (
          subst (All IsSafe) (sym (split_slashes-append (trim_slashes c.group) c.output)) (
            All-append IsSafe (split_slashes (trim_slashes c.group)) (split_slashes c.output)
              (group_problems-IsSafe (split_slashes (trim_slashes c.group)) (rw f at rest))
              (output_parts c.output output)))
    ]

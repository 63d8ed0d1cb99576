-- ===== src/Engine/Cleaned.antt =====
-- `cleanCache` of internal/engine/engine.go leaves the entries of the clips.
use docker_smartclips.Prelude.{
  ◌≡◌, refl, sym, ap, ◌∙◌, inl, inr, arith, true, false, not, ◌||◌, some, List, [], ◌∷◌, Bool-cases,
  ◌==◌,
}
use docker_smartclips.Prelude.{All, ◌++◌}
use docker_smartclips.Config.Names.{dot}
use docker_smartclips.Engine.Step.{trim_suffix, json_suffix, mkv_suffix}
use docker_smartclips.Config.Names.{Text, same_text, starts_with_dot, byte_len}
use docker_smartclips.Dict.{Dict, has, lookup, same_text_refl, same_text_eq}
use docker_smartclips.Engine.State.{ClipState}
use docker_smartclips.Engine.Step.{used_keys, entry_key, unused_names}

used_key :
    (p : Text) (st : ClipState) (clips : Dict ClipState)
    → lookup p clips ≡ some st
    → has st.key (used_keys clips) ≡ true
used_key p st [] e = absurd (cc)
used_key p st ((q, x) ∷ clips) e = elim (Bool-cases (same_text p q)) [
  | inr f ↦ let r = used_key p st clips (rw f at e) in ground (arith, r)
  | inl t ↦
      let same : x ≡ st = (let u = rw t at e in cc) in
      let s = ap (λ (y : ClipState). same_text st.key y.key) same ∙ same_text_refl st.key in
      ground (arith, s)
]

not_deleted :
    (used names : List Text) (name : Text)
    → has (entry_key name) used ≡ true
    → has name (unused_names used names) ≡ false
unfolding unused_names
not_deleted used [] name h = refl
not_deleted used (n ∷ names) name h =
    elim (Bool-cases
      (starts_with_dot n || (not (byte_len (entry_key n) == 32) || has (entry_key n) used))) [
        | inl t ↦ rw t (not_deleted used names name h)
        | inr f ↦ rw f (elim (Bool-cases (same_text name n)) [
          | inr g ↦ let r = not_deleted used names name h in ground (arith, r, g)
          | inl t ↦
              let e = ap (λ x. has (entry_key x) used) (sym (same_text_eq name n t)) ∙ h in
              absurd (ground (arith, e, f))
        ])
      ]

-- A key without dots, such as 32 digits.
abbrev pub HasNoDot : Text → Type 0
HasNoDot k = All (λ r. (r == dot) ≡ false) k

module _ (rest : Text) where
  -- A suffix behind a key is taken off.
  trim_suffix_end : (k : Text) → HasNoDot k → trim_suffix (dot ∷ rest) (k ++ (dot ∷ rest)) ≡ k
  trim_suffix_end [] h = rw (same_text_refl (dot ∷ rest)) refl
  trim_suffix_end (r ∷ k) h = let e = h.0 in rw e (ap (λ t. r ∷ t) (trim_suffix_end k h.1))

  -- Where there is none, and no other suffix has a dot behind its first, nothing is taken off.
  trim_suffix_none : (k : Text) → HasNoDot k → trim_suffix (dot ∷ rest) k ≡ k
  trim_suffix_none [] h = refl
  trim_suffix_none (r ∷ k) h = let e = h.0 in rw e (ap (λ t. r ∷ t) (trim_suffix_none k h.1))

trim_json-mkv :
    (k : Text) → HasNoDot k → trim_suffix json_suffix (k ++ mkv_suffix) ≡ k ++ mkv_suffix
trim_json-mkv [] h = refl
trim_json-mkv (r ∷ k) h = let e = h.0 in rw e (ap (λ t. r ∷ t) (trim_json-mkv k h.1))

entry_key-json : (k : Text) → HasNoDot k → entry_key (k ++ json_suffix) ≡ k
unfolding entry_key
entry_key-json k h =
    ap (trim_suffix mkv_suffix) (trim_suffix_end (0x6a ∷ 0x73 ∷ 0x6f ∷ 0x6e ∷ []) k h)
    ∙ trim_suffix_none (0x6d ∷ 0x6b ∷ 0x76 ∷ []) k h

entry_key-mkv : (k : Text) → HasNoDot k → entry_key (k ++ mkv_suffix) ≡ k
unfolding entry_key
entry_key-mkv k h =
    ap (trim_suffix mkv_suffix) (trim_json-mkv k h) ∙ trim_suffix_end (0x6d ∷ 0x6b ∷ 0x76 ∷ []) k h

-- `cleanCache` deletes neither the index entry nor the remuxed file of a clip that the engine has when it
-- collects the keys in use, whatever else stands in the cache directories when it reads them: those
-- of the clip's key, which has no dot.
pub unused_names_lem :
    (clips : Dict ClipState) (names : List Text) (p : Text) (st : ClipState)
    → lookup p clips ≡ some st
    → HasNoDot st.key
    → (has (st.key ++ json_suffix) (unused_names (used_keys clips) names) ≡ false)
      × (has (st.key ++ mkv_suffix) (unused_names (used_keys clips) names) ≡ false)
unused_names_lem clips names p st e h = (
  not_deleted (used_keys clips) names (st.key ++ json_suffix)
      (ap (λ x. has x (used_keys clips)) (entry_key-json st.key h) ∙ used_key p st clips e),
  not_deleted (used_keys clips) names (st.key ++ mkv_suffix)
      (ap (λ x. has x (used_keys clips)) (entry_key-mkv st.key h) ∙ used_key p st clips e),
)

-- ===== src/Dict/Distinct.antt =====
-- Lists that hold no string twice.
use docker_smartclips.Prelude.{
  ◌≡◌, refl, sym, subst, ◌∙◌, ◌↔◌, inl, inr, arith, false, ◌||◌, List, [], ◌∷◌, ◌++◌, Bool-cases,
  append_assoc,
}
use docker_smartclips.Config.Names.{Text, same_text}
use docker_smartclips.Dict.{has, same_text_refl, same_text_eq}

abbrev pub Distinct : List Text → Type 0
Distinct [] = Unit
Distinct (x ∷ xs) = (has x xs ≡ false) × Distinct xs

pub differs_sym : (a b : Text) → same_text b a ≡ false → same_text a b ≡ false
differs_sym a b e = elim (Bool-cases (same_text a b)) [
  | inl t ↦ absurd (let r = rw (same_text_eq a b t) at e in ground (arith, same_text_refl b))
  | inr g ↦ g
]

pub has-middle :
    (q y : Text) (xs ys : List Text) → has q (xs ++ (y ∷ ys)) ≡ (same_text q y || has q (xs ++ ys))
has-middle q y [] ys = refl
has-middle q y (x ∷ xs) ys = ground (arith, has-middle q y xs ys)

-- A member can be put in front.
pub Distinct-middle :
    (y : Text) (xs ys : List Text)
    → Distinct (xs ++ (y ∷ ys)) ↔ ((has y (xs ++ ys) ≡ false) × Distinct (xs ++ ys))
Distinct-middle y [] ys = (λ h. h, λ h. h)
Distinct-middle y (x ∷ xs) ys = (
  λ (a, h).
      let (b, c) = (Distinct-middle y xs ys).0 h in
      let e = sym (has-middle x y xs ys) ∙ a in
      let f = differs_sym y x (ground arith) in (ground arith, (ground arith, c)),
  λ (a, h).
      let (b, c) = h in
      let f = differs_sym x y (ground arith) in
      (has-middle x y xs ys ∙ ground arith, (Distinct-middle y xs ys).1 (ground arith, c)),
)

-- A member that is moved from the front of a list to that of the next.
pub Distinct-receive :
    (y : Text) (xs ys : List Text) → Distinct ((y ∷ xs) ++ ys) → Distinct (xs ++ (y ∷ ys))
Distinct-receive y xs ys h = (Distinct-middle y xs ys).1 h

-- A member that is taken out of the second list.
pub Distinct-take_out :
    (y : Text) (xs ys zs : List Text)
    → Distinct (xs ++ (ys ++ (y ∷ zs)))
    → (has y (xs ++ (ys ++ zs)) ≡ false) × Distinct (xs ++ (ys ++ zs))
Distinct-take_out y xs ys zs h =
    subst (λ (l : List Text). (has y l ≡ false) × Distinct l) (append_assoc xs ys zs)
      ((Distinct-middle y (xs ++ ys) zs).0 (subst Distinct (sym (append_assoc xs ys (y ∷ zs))) h))

-- A new member at the end of the first list.
pub Distinct-enqueue :
    (y : Text) (xs ys : List Text)
    → has y (xs ++ ys) ≡ false
    → Distinct (xs ++ ys)
    → Distinct ((xs ++ (y ∷ [])) ++ ys)
Distinct-enqueue y xs ys a h =
    subst Distinct (sym (append_assoc xs (y ∷ []) ys)) ((Distinct-middle y xs ys).1 (a, h))

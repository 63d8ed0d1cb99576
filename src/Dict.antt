-- ===== src/Dict.antt =====
-- Go's maps keyed by strings, as association lists without order, and equality of strings.
pub mod Distinct
use docker_smartclips.Prelude.{
  ℕ, ◌≡◌, refl, sym, ap, ap₂, ◌∙◌, inl, inr, arith, Bool, true, false, ◌||◌, Option, none, some,
  List, [], ◌∷◌, ◌++◌, if◌then◌else◌, Bool-cases, ==_iff,
}
use docker_smartclips.Config.Names.{Text, same_text}

pub same_text_refl : (s : Text) → same_text s s ≡ true
same_text_refl [] = refl
same_text_refl (a ∷ s) = ground (arith, same_text_refl s, ==_iff a a)

pub same_text_eq : (s t : Text) → same_text s t ≡ true → s ≡ t
same_text_eq [] [] e = refl
same_text_eq [] (b ∷ t) e = absurd (ground arith)
same_text_eq (a ∷ s) [] e = absurd (ground arith)
same_text_eq (a ∷ s) (b ∷ t) e =
    ap₂ (λ (x : ℕ) y. x ∷ y) (ground arith) (same_text_eq s t (ground arith))

-- `m` is another string than `n`.
abbrev pub Differs : Text → Text → Type 0
Differs n m = same_text n m ≡ false

pub Differs-same : (n m k : Text) → same_text m k ≡ true → Differs n m → Differs n k
Differs-same n m k t h = ap (same_text n) (sym (same_text_eq m k t)) ∙ h

-- Whether a string is in a list of strings.
abbrev pub has : Text → List Text → Bool
has k [] = false
has k (j ∷ js) = same_text k j || has k js

pub has-append : (k : Text) (xs ys : List Text) → has k (xs ++ ys) ≡ (has k xs || has k ys)
has-append k [] ys = refl
has-append k (x ∷ xs) ys = ground (arith, has-append k xs ys)

pub has_self : (k : Text) (xs : List Text) → has k (k ∷ xs) ≡ true
has_self k xs = ground (arith, same_text_refl k)

abbrev pub Dict {ℓ} : Type ℓ → Type ℓ
Dict V = List (Text × V)

module _ {ℓ} {V : Type ℓ} where
  abbrev pub lookup : Text → Dict V → Option V
  lookup k [] = none
  lookup k ((j, v) ∷ d) = if same_text k j then some v else lookup k d

  -- `d[k] = v`
  abbrev pub insert : Text → V → Dict V → Dict V
  insert k v [] = (k, v) ∷ []
  insert k v ((j, w) ∷ d) = if same_text k j then (k, v) ∷ d else (j, w) ∷ insert k v d

  -- `delete(d, k)`
  abbrev pub erase : Text → Dict V → Dict V
  erase k [] = []
  erase k ((j, w) ∷ d) = if same_text k j then erase k d else (j, w) ∷ erase k d

  abbrev pub keys : Dict V → List Text
  keys [] = []
  keys ((j, w) ∷ d) = j ∷ keys d

  pub lookup-insert_self : (k : Text) (v : V) (d : Dict V) → lookup k (insert k v d) ≡ some v
  lookup-insert_self k v [] = rw (same_text_refl k) refl
  lookup-insert_self k v ((j, w) ∷ d) = elim (Bool-cases (same_text k j)) [
    | inl t ↦ rw (t, same_text_refl k) refl
    | inr f ↦ rw f (rw f (lookup-insert_self k v d))
  ]

  pub lookup-insert_ne :
      (q k : Text) (v : V) (d : Dict V) → Differs q k → lookup q (insert k v d) ≡ lookup q d
  lookup-insert_ne q k v [] h = rw h refl
  lookup-insert_ne q k v ((j, w) ∷ d) h = elim (Bool-cases (same_text k j)) [
    | inl t ↦ let g = Differs-same q k j t h in rw (t, h, g) refl
    | inr f ↦ rw f (ap (λ t. if same_text q j then some w else t) (lookup-insert_ne q k v d h))
  ]

  pub lookup-erase_self : (k : Text) (d : Dict V) → lookup k (erase k d) ≡ none
  lookup-erase_self k [] = refl
  lookup-erase_self k ((j, w) ∷ d) = elim (Bool-cases (same_text k j)) [
    | inl t ↦ rw t (lookup-erase_self k d)
    | inr f ↦ rw f (rw f (lookup-erase_self k d))
  ]

  pub lookup-erase_ne : (q k : Text) (d : Dict V) → Differs q k → lookup q (erase k d) ≡ lookup q d
  lookup-erase_ne q k [] h = refl
  lookup-erase_ne q k ((j, w) ∷ d) h = elim (Bool-cases (same_text k j)) [
    | inl t ↦ let g = Differs-same q k j t h in rw (t, g) (lookup-erase_ne q k d h)
    | inr f ↦ rw f (ap (λ t. if same_text q j then some w else t) (lookup-erase_ne q k d h))
  ]

  pub lookup_fresh : (k : Text) (d : Dict V) → has k (keys d) ≡ false → lookup k d ≡ none
  lookup_fresh k [] h = refl
  lookup_fresh k ((j, w) ∷ d) h = elim (Bool-cases (same_text k j)) [
    | inl t ↦ absurd (ground arith)
    | inr f ↦ rw f (lookup_fresh k d (ground arith))
  ]

  -- A map that holds no key twice.
  abbrev pub IsMap : Dict V → Type 0
  IsMap [] = Unit
  IsMap ((j, w) ∷ d) = (has j (keys d) ≡ false) × IsMap d

  has-insert :
      (q k : Text) (v : V) (d : Dict V)
      → Differs q k
      → has q (keys d) ≡ false
      → has q (keys (insert k v d)) ≡ false
  has-insert q k v [] g h = rw g refl
  has-insert q k v ((j, w) ∷ d) g h = elim (Bool-cases (same_text k j)) [
    | inl t ↦ rw t (ground arith)
    | inr f ↦ rw f (ground (arith, has-insert q k v d g (ground arith)))
  ]

  pub insert-IsMap : (k : Text) (v : V) (d : Dict V) → IsMap d → IsMap (insert k v d)
  insert-IsMap k v [] m = (refl, tt)
  insert-IsMap k v ((j, w) ∷ d) m = elim (Bool-cases (same_text k j)) [
    | inl t ↦ rw t (ap (λ s. has s (keys d)) (same_text_eq k j t) ∙ m.0, m.1)
    | inr f ↦ rw f (has-insert j k v d (flip j k f) m.0, insert-IsMap k v d m.1)
  ]
    where
      flip : (a b : Text) → same_text b a ≡ false → same_text a b ≡ false
      flip a b e = elim (Bool-cases (same_text a b)) [
        | inl t ↦ absurd (let r = rw (same_text_eq a b t) at e in ground (arith, same_text_refl b))
        | inr g ↦ g
      ]

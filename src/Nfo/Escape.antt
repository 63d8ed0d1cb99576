-- ===== src/Nfo/Escape.antt =====
-- `escape` leaves no markup in the text of an element.
use docker_smartclips.Prelude.{
  ℕ, ◌≡◌, refl, arith, inl, inr, [], ◌∷◌, All, All-append, Bool, Bool-cases, true, false, not, ◌&&◌,
  ◌==◌, if◌then◌else◌,
}
use docker_smartclips.Config.Names.{Text}
use docker_smartclips.Nfo.Write.{is_xml_rune, escape_with, escape_rune, escape}

-- A character that XML allows, and that is no '<', '>' or quotation mark.
abbrev pub is_text_rune : ℕ → Bool
is_text_rune r = is_xml_rune r && not (r == 0x3c) && not (r == 0x3e) && not (r == 0x22)

abbrev pub IsTextRune : ℕ → Type 0
IsTextRune r = is_text_rune r ≡ true

-- Every named character is written as an entity.
entities-IsTextRune :
    (r : ℕ) (last : Text)
    → ((r == 0x22) ≡ false → (r == 0x3c) ≡ false → (r == 0x3e) ≡ false → All IsTextRune last)
    → All IsTextRune (escape_with r last)
entities-IsTextRune r last rest = elim (Bool-cases (r == 0x22)) [
  | inl e ↦ rw e (refl, (refl, (refl, (refl, (refl, tt)))))
  | inr n0 ↦ elim (Bool-cases (r == 0x27)) [
    | inl e ↦ rw (n0, e) (refl, (refl, (refl, (refl, (refl, tt)))))
    | inr n1 ↦ elim (Bool-cases (r == 0x26)) [
      | inl e ↦ rw (n0, n1, e) (refl, (refl, (refl, (refl, (refl, tt)))))
      | inr n2 ↦ elim (Bool-cases (r == 0x3c)) [
        | inl e ↦ rw (n0, n1, n2, e) (refl, (refl, (refl, (refl, tt))))
        | inr n3 ↦ elim (Bool-cases (r == 0x3e)) [
          | inl e ↦ rw (n0, n1, n2, n3, e) (refl, (refl, (refl, (refl, tt))))
          | inr n4 ↦ elim (Bool-cases (r == 0x9)) [
            | inl e ↦ rw (n0, n1, n2, n3, n4, e) (refl, (refl, (refl, (refl, (refl, tt)))))
            | inr n5 ↦ elim (Bool-cases (r == 0xa)) [
              | inl e ↦ rw (n0, n1, n2, n3, n4, n5, e) (refl, (refl, (refl, (refl, (refl, tt)))))
              | inr n6 ↦ elim (Bool-cases (r == 0xd)) [
                | inl e ↦
                    rw (n0, n1, n2, n3, n4, n5, n6, e) (refl, (refl, (refl, (refl, (refl, tt)))))
                | inr n7 ↦ rw (n0, n1, n2, n3, n4, n5, n6, n7) (rest n0 n3 n4)
              ]
            ]
          ]
        ]
      ]
    ]
  ]
]

escape_rune-IsTextRune : (r : ℕ) → All IsTextRune (escape_rune r)
escape_rune-IsTextRune r =
    entities-IsTextRune r (if is_xml_rune r then r ∷ [] else 0xfffd ∷ []) (λ quote left right.
      elim (Bool-cases (is_xml_rune r)) [
        | inl t ↦ rw t (ground arith, tt)
        | inr f ↦ rw f (refl, tt)
      ])

-- What is written of any string between the tags of an element holds only characters that XML allows,
-- and no '<', '>' or quotation mark.
pub escape-IsTextRune : (s : Text) → All IsTextRune (escape s)
unfolding escape
escape-IsTextRune [] = tt
escape-IsTextRune (r ∷ rs) =
    All-append IsTextRune (escape_rune r) (escape rs) (escape_rune-IsTextRune r)
      (escape-IsTextRune rs)

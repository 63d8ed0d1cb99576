-- ===== src/Nfo/Tests.antt =====
-- Runs of the functions of internal/nfo, and the theorems at concrete inputs.
use docker_smartclips.Prelude.{ℕ, ◌≡◌, ◌≢◌, refl, [], ◌∷◌, arith}
use docker_smartclips.Config.Names.{Text}
use docker_smartclips.Config.Metadata.{
  text, number, object, array, no_items, item, Fields, no_fields, field,
}
use docker_smartclips.Nfo.Write.{escape, write_value, generate}
use docker_smartclips.Nfo.Stable.{SameFields, keep, swap, no_keys, objects, generate-SameFields}

-- A number is written as the character with its code, in place of `strconv.FormatFloat`.
abbrev one_rune : ℕ → Text
one_rune f = f ∷ []

escape-ampersand : escape (0x61 ∷ 0x26 ∷ []) ≡ 0x61 ∷ 0x26 ∷ 0x61 ∷ 0x6d ∷ 0x70 ∷ 0x3b ∷ []
unfolding escape
escape-ampersand = refl

-- Keys "a" and "b", in both orders, with a map below.
abbrev inner : Fields
inner = field (0x78 ∷ []) (text (0x31 ∷ [])) (field (0x79 ∷ []) (number 0x32) no_fields)

abbrev inner_swapped : Fields
inner_swapped = field (0x79 ∷ []) (number 0x32) (field (0x78 ∷ []) (text (0x31 ∷ [])) no_fields)

abbrev given : Fields
given = field (0x62 ∷ []) (object inner) no_fields

abbrev reordered : Fields
reordered = field (0x62 ∷ []) (object inner_swapped) no_fields

x-ne-y : ◌≢◌ {A = Text} (0x78 ∷ []) (0x79 ∷ [])
x-ne-y e = ground arith

given-SameFields : SameFields given reordered
given-SameFields =
    keep (0x62 ∷ [])
      (objects (swap (0x78 ∷ []) (0x79 ∷ []) (text (0x31 ∷ [])) (number 0x32) no_fields x-ne-y))
      no_keys

generate-SameFields_example : generate one_rune [] given ≡ generate one_rune [] reordered
generate-SameFields_example = generate-SameFields one_rune [] given-SameFields

write_value-sorted :
    write_value one_rune (0x62 ∷ []) (array (item (number 0x31) (item (number 0x32) no_items))) 0
    ≡ 0x3c ∷ 0x62 ∷ 0x3e ∷ 0x31 ∷ 0x3c ∷ 0x2f ∷ 0x62 ∷ 0x3e ∷ 0x0a ∷ 0x3c ∷ 0x62 ∷ 0x3e ∷ 0x32
      ∷ 0x3c ∷ 0x2f ∷ 0x62 ∷ 0x3e ∷ 0x0a ∷ []
unfolding write_value escape
write_value-sorted = refl

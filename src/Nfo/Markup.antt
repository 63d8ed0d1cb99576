-- ===== src/Nfo/Markup.antt =====
-- What `writeMap` and `Generate` of internal/nfo/nfo.go write is well-formed.
use docker_smartclips.Prelude.{
  ℕ, zero, suc, ◌≡◌, refl, ap, subst, ◌∙◌, inl, inr, List, [], ◌∷◌, ◌++◌, append_assoc, All,
  Bool-cases, true,
}
use docker_smartclips.Config.Names.{Text, valid_key}
use docker_smartclips.Config.Metadata.{
  Value, null, text, number, boolean, array, object, Items, no_items, item, Fields, no_fields,
  field,
}
use docker_smartclips.Nfo.Write.{
  escape, pad, open_tag, close_tag, newline, element, boolean_text, Entry, text_leb, insert_entry,
  sort_entries, all_written, write_value, write_items, map_entries, xml_header,
}
use docker_smartclips.Nfo.Escape.{IsTextRune, escape-IsTextRune}

-- Well-formed content: text without markup, and elements whose tags have the same key and enclose
-- well-formed content.
pub data IsMarkup : Text → Type 0 where
  plain : (t : Text) → All IsTextRune t → IsMarkup t
  joined : (a b : Text) → IsMarkup a → IsMarkup b → IsMarkup (a ++ b)
  tagged :
      (key content : Text)
      → valid_key key ≡ true
      → IsMarkup content
      → IsMarkup (open_tag key ++ (content ++ close_tag key))

pad-IsTextRune : (n : ℕ) → All IsTextRune (pad n)
pad-IsTextRune zero = tt
pad-IsTextRune (suc n) = (refl, (refl, pad-IsTextRune n))

pad-IsMarkup : (n : ℕ) → IsMarkup (pad n)
pad-IsMarkup n = plain (pad n) (pad-IsTextRune n)

newline-IsMarkup : IsMarkup newline
newline-IsMarkup = plain newline (refl, tt)

-- An element on lines of its own.
element-IsMarkup :
    (indent : ℕ) (key content : Text)
    → valid_key key ≡ true
    → IsMarkup content
    → IsMarkup (element indent key content)
element-IsMarkup indent key content k h =
    subst (λ t. IsMarkup (pad indent ++ t))
      (append_assoc (open_tag key) (content ++ close_tag key) newline
        ∙ ap (λ t. open_tag key ++ t) (append_assoc content (close_tag key) newline))
      (joined (pad indent) _ (pad-IsMarkup indent)
        (joined _ newline (tagged key content k h) newline-IsMarkup))

abbrev IsWritten : Entry → Type 0
IsWritten e = IsMarkup e.written

insert_entry-IsWritten :
    (e : Entry) (entries : List Entry)
    → IsWritten e
    → All IsWritten entries
    → All IsWritten (insert_entry e entries)
unfolding insert_entry
insert_entry-IsWritten e [] h k = (h, tt)
insert_entry-IsWritten e (f ∷ entries) h k = elim (Bool-cases (text_leb e.key f.key)) [
  | inl t ↦ rw (t, insert_entry) (h, k)
  | inr g ↦ rw (g, insert_entry) (k.0, insert_entry-IsWritten e entries h k.1)
]

sort_entries-IsWritten :
    (entries : List Entry) → All IsWritten entries → All IsWritten (sort_entries entries)
unfolding sort_entries
sort_entries-IsWritten [] h = tt
sort_entries-IsWritten (e ∷ entries) h =
    insert_entry-IsWritten e (sort_entries entries) h.0 (sort_entries-IsWritten entries h.1)

all_written-IsMarkup :
    (entries : List Entry) → All IsWritten entries → IsMarkup (all_written entries)
all_written-IsMarkup [] h = plain [] tt
all_written-IsMarkup (e ∷ entries) h =
    joined e.written (all_written entries) h.0 (all_written-IsMarkup entries h.1)

escape-IsMarkup : (s : Text) → IsMarkup (escape s)
escape-IsMarkup s = plain (escape s) (escape-IsTextRune s)

module _ (format : ℕ → Text) where
  mutual
    unfolding write_value write_items map_entries

    value-IsMarkup :
        (v : Value) (key : Text) (indent : ℕ)
        → valid_key key ≡ true
        → IsMarkup (write_value format key v indent)
    value-IsMarkup null key indent k = element-IsMarkup indent key [] k (plain [] tt)
    value-IsMarkup (text s) key indent k =
        element-IsMarkup indent key (escape s) k (escape-IsMarkup s)
    value-IsMarkup (number f) key indent k =
        element-IsMarkup indent key (escape (format f)) k (escape-IsMarkup (format f))
    value-IsMarkup (boolean b) key indent k =
        element-IsMarkup indent key (escape (boolean_text b)) k (escape-IsMarkup (boolean_text b))
    value-IsMarkup (array items) key indent k = items-IsMarkup items key indent k
    value-IsMarkup (object fields) key indent k =
        let inner = all_written (sort_entries (map_entries format fields (suc indent))) in
        let written =
          sort_entries-IsWritten (map_entries format fields (suc indent))
            (fields-IsWritten fields (suc indent)) in
        subst (λ t. IsMarkup (pad indent ++ (open_tag key ++ (newline ++ t))))
          (append_assoc inner (pad indent) (close_tag key ++ newline))
          (element-IsMarkup indent key (newline ++ (inner ++ pad indent)) k (
            joined newline (inner ++ pad indent) newline-IsMarkup
              (joined inner (pad indent) (all_written-IsMarkup _ written) (pad-IsMarkup indent))))

    items-IsMarkup :
        (items : Items) (key : Text) (indent : ℕ)
        → valid_key key ≡ true
        → IsMarkup (write_items format key items indent)
    items-IsMarkup no_items key indent k = plain [] tt
    items-IsMarkup (item v items) key indent k =
        joined (write_value format key v indent) (write_items format key items indent)
          (value-IsMarkup v key indent k) (items-IsMarkup items key indent k)

    fields-IsWritten :
        (fields : Fields) (indent : ℕ) → All IsWritten (map_entries format fields indent)
    fields-IsWritten no_fields indent = tt
    fields-IsWritten (field key v fields) indent = elim (Bool-cases (valid_key key)) [
      | inl t ↦ rw t (value-IsMarkup v key indent t, fields-IsWritten fields indent)
      | inr f ↦ rw f (fields-IsWritten fields indent)
    ]

  -- An XML header, and behind it one element of that key, with well-formed content, on its own line.
  pub record IsDocument (root document : Text) : Type 0 where
    pub content : Text
    pub well_formed : IsMarkup content
    pub layout :
        document ≡ xml_header format ++ (open_tag root ++ (content ++ (close_tag root ++ newline)))

-- ===== src/Nfo/Write.antt =====
-- `Generate`, `writeMap`, `writeValue`, `scalar` and `escape` of internal/nfo/nfo.go, with `ValidKey` of
-- internal/config for the test of keys, as the engine calls them. A string is the
-- list of its code points, whose order is that of the bytes of UTF-8.
use docker_smartclips.Prelude.{
  ℕ, zero, suc, Bool, true, false, ◌&&◌, ◌||◌, List, [], ◌∷◌, ◌++◌, ltb, leb, ◌==◌, if◌then◌else◌,
}
use docker_smartclips.Config.Names.{Text, valid_key, is_empty}
use docker_smartclips.Config.Metadata.{
  Value, null, text, number, boolean, array, object, Items, no_items, item, Fields, no_fields,
  field,
}

-- `isInCharacterRange` of encoding/xml
abbrev pub is_xml_rune : ℕ → Bool
is_xml_rune r =
    r == 0x09
    || r == 0x0a
    || r == 0x0d
    || (leb 0x20 r && leb r 0xd7ff)
    || (leb 0xe000 r && leb r 0xfffd)
    || (leb 0x10000 r && leb r 0x10ffff)

-- The named characters of `xml.EscapeText`, and what is written of another one.
abbrev pub escape_with : ℕ → Text → Text
escape_with r last =
    if r == 0x22
    then 0x26 ∷ 0x23 ∷ 0x33 ∷ 0x34 ∷ 0x3b ∷ []
    else if r == 0x27
    then 0x26 ∷ 0x23 ∷ 0x33 ∷ 0x39 ∷ 0x3b ∷ []
    else if r == 0x26
    then 0x26 ∷ 0x61 ∷ 0x6d ∷ 0x70 ∷ 0x3b ∷ []
    else if r == 0x3c
    then 0x26 ∷ 0x6c ∷ 0x74 ∷ 0x3b ∷ []
    else if r == 0x3e
    then 0x26 ∷ 0x67 ∷ 0x74 ∷ 0x3b ∷ []
    else if r == 0x09
    then 0x26 ∷ 0x23 ∷ 0x78 ∷ 0x39 ∷ 0x3b ∷ []
    else if r == 0x0a
    then 0x26 ∷ 0x23 ∷ 0x78 ∷ 0x41 ∷ 0x3b ∷ []
    else if r == 0x0d
    then 0x26 ∷ 0x23 ∷ 0x78 ∷ 0x44 ∷ 0x3b ∷ []
    else last

abbrev pub escape_rune : ℕ → Text
escape_rune r = escape_with r (if is_xml_rune r then r ∷ [] else 0xfffd ∷ [])

-- `escape`
unfoldable pub escape : Text → Text
escape [] = []
escape (r ∷ rs) = escape_rune r ++ escape rs

-- `strings.Repeat("  ", indent)`
abbrev pub pad : ℕ → Text
pad zero = []
pad (suc n) = 0x20 ∷ 0x20 ∷ pad n

-- `"<" + key + ">"` and `"</" + key + ">"`
abbrev pub open_tag : Text → Text
open_tag key = 0x3c ∷ (key ++ (0x3e ∷ []))

abbrev pub close_tag : Text → Text
close_tag key = 0x3c ∷ 0x2f ∷ (key ++ (0x3e ∷ []))

abbrev pub newline : Text
newline = 0x0a ∷ []

abbrev pub element : ℕ → Text → Text → Text
element indent key content = pad indent ++ (open_tag key ++ (content ++ (close_tag key ++ newline)))

abbrev pub boolean_text : Bool → Text
boolean_text true = 0x74 ∷ 0x72 ∷ 0x75 ∷ 0x65 ∷ []
boolean_text false = 0x66 ∷ 0x61 ∷ 0x6c ∷ 0x73 ∷ 0x65 ∷ []

-- A key with what `writeValue` writes for it.
pub record Entry : Type 0 where
  pub key : Text
  pub written : Text

-- The order of `sort.Strings`.
abbrev pub text_leb : Text → Text → Bool
text_leb [] t = true
text_leb (a ∷ s) [] = false
text_leb (a ∷ s) (b ∷ t) = ltb a b || (a == b && text_leb s t)

unfoldable pub insert_entry : Entry → List Entry → List Entry
insert_entry e [] = e ∷ []
insert_entry e (f ∷ entries) =
    if text_leb e.key f.key then e ∷ f ∷ entries else f ∷ insert_entry e entries

unfoldable pub sort_entries : List Entry → List Entry
unfolding insert_entry
sort_entries [] = []
sort_entries (e ∷ entries) = insert_entry e (sort_entries entries)

abbrev pub all_written : List Entry → Text
all_written [] = []
all_written (e ∷ entries) = e.written ++ all_written entries

-- `format` is `strconv.FormatFloat(f, 'f', -1, 64)`.
module _ (format : ℕ → Text) where
  -- `write_map` is the text of `writeMap`: since what is written for one key does not depend on the
  -- others, it is computed before the keys are sorted.
  unfoldable mutual
    unfolding escape sort_entries

    pub write_value : Text → Value → ℕ → Text
    write_value key null indent = element indent key []
    write_value key (text s) indent = element indent key (escape s)
    write_value key (number f) indent = element indent key (escape (format f))
    write_value key (boolean b) indent = element indent key (escape (boolean_text b))
    write_value key (array items) indent = write_items key items indent
    write_value key (object fields) indent =
        pad indent
        ++ (open_tag key
            ++ (newline
                ++ (all_written (sort_entries (map_entries fields (suc indent)))
                    ++ (pad indent ++ (close_tag key ++ newline)))))

    pub write_items : Text → Items → ℕ → Text
    write_items key no_items indent = []
    write_items key (item v items) indent = write_value key v indent ++ write_items key items indent

    -- The valid keys of a map, in the order in which the loop meets them.
    pub map_entries : Fields → ℕ → List Entry
    map_entries no_fields indent = []
    map_entries (field k v fields) indent =
        let rest = map_entries fields indent in
        if valid_key k then record { key = k; written = write_value k v indent } ∷ rest else rest

  unfoldable pub write_map : Fields → ℕ → Text
  write_map fields indent = all_written (sort_entries (map_entries fields indent))

  -- `xml.Header`: <?xml version="1.0" encoding="UTF-8"?> and a newline.
  abbrev pub xml_header : Text
  xml_header =
      0x3c ∷ 0x3f ∷ 0x78 ∷ 0x6d ∷ 0x6c ∷ 0x20 ∷ 0x76 ∷ 0x65 ∷ 0x72 ∷ 0x73 ∷ 0x69 ∷ 0x6f ∷ 0x6e
      ∷ 0x3d ∷ 0x22 ∷ 0x31 ∷ 0x2e ∷ 0x30 ∷ 0x22 ∷ 0x20 ∷ 0x65 ∷ 0x6e ∷ 0x63 ∷ 0x6f ∷ 0x64 ∷ 0x69
      ∷ 0x6e ∷ 0x67 ∷ 0x3d ∷ 0x22 ∷ 0x55 ∷ 0x54 ∷ 0x46 ∷ 0x2d ∷ 0x38 ∷ 0x22 ∷ 0x3f ∷ 0x3e ∷ 0x0a
      ∷ []

  -- "movie"
  abbrev pub root_of : Text → Text
  root_of nfo_type = if is_empty nfo_type then 0x6d ∷ 0x6f ∷ 0x76 ∷ 0x69 ∷ 0x65 ∷ [] else nfo_type

  unfoldable pub generate : Text → Fields → Text
  generate nfo_type metadata =
      let root = root_of nfo_type in
      xml_header
      ++ (open_tag root ++ (newline ++ (write_map metadata 1 ++ (close_tag root ++ newline))))

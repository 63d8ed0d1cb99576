-- ===== src/Config/Stored.antt =====
-- `Version`, `Load`, `Parse`, `Encode` and `Save` of internal/config/config.go. The hash and the JSON of
-- the standard library are given, and so is what the system answers.
use docker_smartclips.Prelude.{
  ℕ, Bool, true, false, ◌&&◌, ◌||◌, Option, none, some, List, [], ◌∷◌, ◌++◌, leb, ◌==◌,
  if◌then◌else◌,
}
use docker_smartclips.Config.Names.{Text}
use docker_smartclips.Config.Clip.{Clip}
use docker_smartclips.Dict.{has}

-- The hash of a file's content as text; the JSON of a list of clips, if it can be written; the clips of
-- a JSON document, if it is one without unknown fields.
pub record Codec : Type 0 where
  pub hash : List ℕ → Text
  pub marshal : List Clip → Option (List ℕ)
  pub unmarshal : List ℕ → Option (List Clip)

-- The content of the clips file; `none` where there is none.
abbrev pub Disk : Type 0
Disk = Option (List ℕ)

-- The spaces of UTF-8 that take several bytes.
abbrev pub wide_spaces : List (List ℕ)
wide_spaces =
    (0xc2 ∷ 0x85 ∷ [])
    ∷ (0xc2 ∷ 0xa0 ∷ [])
    ∷ (0xe1 ∷ 0x9a ∷ 0x80 ∷ [])
    ∷ (0xe2 ∷ 0x80 ∷ 0xa8 ∷ [])
    ∷ (0xe2 ∷ 0x80 ∷ 0xa9 ∷ [])
    ∷ (0xe2 ∷ 0x80 ∷ 0xaf ∷ [])
    ∷ (0xe2 ∷ 0x81 ∷ 0x9f ∷ [])
    ∷ (0xe3 ∷ 0x80 ∷ 0x80 ∷ [])
    ∷ []

-- U+2000 to U+200A, behind their first two bytes.
abbrev pub is_quad : List ℕ → Bool
is_quad (a ∷ b ∷ c ∷ []) = a == 0xe2 && (b == 0x80 && (leb 0x80 c && leb c 0x8a))
is_quad _ = false

abbrev pub is_byte_space : List ℕ → Bool
is_byte_space (b ∷ []) = (leb 9 b && leb b 13) || b == 0x20
is_byte_space _ = false

-- The bytes of one space.
abbrev pub is_space_bytes : List ℕ → Bool
is_space_bytes s = is_byte_space s || (is_quad s || has s wide_spaces)

-- Bytes with which a space of several bytes starts.
abbrev pub starts_space : List ℕ → Bool
starts_space (b ∷ []) = b == 0xc2 || (b == 0xe1 || (b == 0xe2 || b == 0xe3))
starts_space (a ∷ b ∷ []) =
    (a == 0xe1 && b == 0x9a)
    || ((a == 0xe2 && (b == 0x80 || b == 0x81)) || (a == 0xe3 && b == 0x80))
starts_space _ = false

-- What is seen of a space after another byte, or that it is none.
abbrev pub after_byte : List ℕ → Option (List ℕ)
after_byte s = if is_space_bytes s then some [] else if starts_space s then some s else none

-- `len(bytes.TrimSpace(data)) == 0`, with the bytes of a space so far.
unfoldable pub is_blank : List ℕ → List ℕ → Bool
is_blank [] [] = true
is_blank (s ∷ seen) [] = false
is_blank seen (b ∷ bs) = elim (after_byte (seen ++ (b ∷ []))) [
  | none ↦ false
  | some rest ↦ is_blank rest bs
]

-- `File`; `none` is the zero time.
pub record LoadedFile : Type 0 where
  pub clips : List Clip
  pub mod_time : Option ℕ
  pub version : Text

-- `os.Stat`'s time, if it succeeds, and whether reading and writing succeed.
pub record FileCalls : Type 0 where
  pub can_read : Bool
  pub stat : Option ℕ
  pub can_write : Bool

module _ (codec : Codec) where
  -- `Parse`
  unfoldable pub parse : List ℕ → Option (List Clip)
  parse b = if is_blank [] b then some [] else codec.unmarshal b

  abbrev pub with_clips : Option ℕ → List ℕ → Option (List Clip) → Option LoadedFile
  with_clips t b none = none
  with_clips t b (some clips) =
      some (record { clips = clips; mod_time = t; version = codec.hash b })

  abbrev pub with_stat : Option ℕ → List ℕ → Option LoadedFile
  with_stat none b = none
  with_stat (some t) b = with_clips (some t) b (parse b)

  -- `Load`; `none` is an error.
  unfoldable pub load : FileCalls → Disk → Option LoadedFile
  load calls none = some (record { clips = []; mod_time = none; version = codec.hash [] })
  load calls (some b) = if calls.can_read then with_stat calls.stat b else none

  -- `Encode`
  unfoldable pub encode : List Clip → Option (List ℕ)
  encode clips = elim (codec.marshal clips) [ none ↦ none | some b ↦ some (b ++ (0x0a ∷ [])) ]

  -- `Save`: the new version, if there is no error, and the file.
  unfoldable pub save : FileCalls → List Clip → Disk → Option Text × Disk
  save calls clips disk = elim (encode clips) [
    | none ↦ (none, disk)
    | some b ↦ if calls.can_write then (some (codec.hash b), some b) else (none, disk)
  ]

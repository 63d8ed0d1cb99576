-- ===== src/Backup/Listed.antt =====
-- What `copies` of internal/backup/backup.go lists of a directory that holds no name twice.
use docker_smartclips.Prelude.{
  ◌≡◌, inl, inr, arith, Bool, true, false, ◌&&◌, Bool-cases, List, [], ◌∷◌, All, if◌then◌else◌,
}
use docker_smartclips.Config.Names.{Text, same_text}
use docker_smartclips.Dict.{same_text_refl, Differs, has}
use docker_smartclips.Dict.Distinct.{Distinct, differs_sym}
use docker_smartclips.Nfo.Write.{text_leb}
use docker_smartclips.Backup.Stamp.{is_copy}
use docker_smartclips.Backup.Once.{File, insert_name, copies}
use docker_smartclips.Backup.Kept.{insert_name-All}

abbrev pub names : List File → List Text
names [] = []
names (f ∷ files) = f.name ∷ names files

-- The first file of that name is a copy.
abbrev pub has_copy : List File → Text → Bool
has_copy [] n = false
has_copy (f ∷ files) n =
    if same_text n f.name then f.regular && is_copy f.name else has_copy files n

abbrev pub HasCopy : List File → Text → Type 0
HasCopy files n = has_copy files n ≡ true

-- No name is there twice.
abbrev pub Apart : List Text → Type 0
Apart [] = Unit
Apart (n ∷ l) = All (Differs n) l × Apart l

pub has-All : (n : Text) (l : List Text) → has n l ≡ false → All (Differs n) l
has-All n [] h = tt
has-All n (m ∷ l) h = (ground arith, has-All n l (ground arith))

pub Distinct-Apart : (l : List Text) → Distinct l → Apart l
Distinct-Apart [] h = tt
Distinct-Apart (n ∷ l) h = (has-All n l h.0, Distinct-Apart l h.1)

insert_name-Apart :
    (n : Text) (l : List Text) → All (Differs n) l → Apart l → Apart (insert_name n l)
unfolding insert_name
insert_name-Apart n [] h a = (tt, tt)
insert_name-Apart n (m ∷ l) h a = elim (Bool-cases (text_leb m n)) [
  | inl t ↦ rw t (h, a)
  | inr f ↦
      rw f
        (insert_name-All (Differs m) n l (differs_sym m n h.0) a.0, insert_name-Apart n l h.1 a.1)
]

-- A name that no file has is not listed.
copies-Differs :
    (n : Text) (files : List File) → All (Differs n) (names files) → All (Differs n) (copies files)
unfolding copies
copies-Differs n [] h = tt
copies-Differs n (f ∷ files) h = elim (Bool-cases (f.regular && is_copy f.name)) [
  | inl t ↦
      rw t (insert_name-All (Differs n) f.name (copies files) h.0 (copies-Differs n files h.1))
  | inr g ↦ rw g (copies-Differs n files h.1)
]

pub copies-Apart : (files : List File) → Apart (names files) → Apart (copies files)
unfolding copies
copies-Apart [] a = tt
copies-Apart (f ∷ files) a = elim (Bool-cases (f.regular && is_copy f.name)) [
  | inl t ↦ rw t (
      insert_name-Apart f.name (copies files) (copies-Differs f.name files a.0)
        (copies-Apart files a.1))
  | inr g ↦ rw g (copies-Apart files a.1)
]

HasCopy-cons :
    (f : File) (files : List File) (l : List Text)
    → All (Differs f.name) l
    → All (HasCopy files) l
    → All (HasCopy (f ∷ files)) l
HasCopy-cons f files [] h k = tt
HasCopy-cons f files (m ∷ l) h k =
    let d = differs_sym m f.name h.0 in (rw d k.0, HasCopy-cons f files l h.1 k.1)

pub copies-HasCopy : (files : List File) → Apart (names files) → All (HasCopy files) (copies files)
unfolding copies
copies-HasCopy [] a = tt
copies-HasCopy (f ∷ files) a =
    let k =
      HasCopy-cons f files (copies files) (copies-Differs f.name files a.0)
        (copies-HasCopy files a.1) in
    elim (Bool-cases (f.regular && is_copy f.name)) [
      | inl t ↦ rw t (
          insert_name-All (HasCopy (f ∷ files)) f.name (copies files) (rw (same_text_refl f.name) t)
            k)
      | inr g ↦ rw g k
    ]

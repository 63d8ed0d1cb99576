-- ===== src/Backup/Counted.antt =====
-- How many copies `Once` of internal/backup/backup.go adds and removes.
use docker_smartclips.Prelude.{
  ℕ, zero, suc, ◌+◌, ◌≤◌, ◌≡◌, refl, ap, inl, inr, arith, true, ◌&&◌, Bool-cases, List, [], ◌∷◌,
  drop, length, All, if◌then◌else◌,
}
use docker_smartclips.Config.Names.{Text, same_text}
use docker_smartclips.Dict.{Differs, Differs-same}
use docker_smartclips.Dict.Distinct.{differs_sym}
use docker_smartclips.Nfo.Write.{text_leb}
use docker_smartclips.Backup.Stamp.{is_copy}
use docker_smartclips.Backup.Once.{
  File, System, insert_name, copies, put_file, remove_file, remove_all,
}
use docker_smartclips.Backup.Pruned.{}
use docker_smartclips.Backup.Listed.{HasCopy, Apart}

length-insert_name : (n : Text) (l : List Text) → length (insert_name n l) ≡ suc (length l)
unfolding insert_name
length-insert_name n [] = refl
length-insert_name n (m ∷ l) = elim (Bool-cases (text_leb m n)) [
  | inl t ↦ rw t refl
  | inr f ↦ rw f (ap suc (length-insert_name n l))
]

-- A copy in front counts one more.
length-copies :
    (f : File) (files : List File)
    → length (copies (f ∷ files))
      ≡ (if f.regular && is_copy f.name then suc (length (copies files)) else length (copies files))
unfolding copies
length-copies f files = elim (Bool-cases (f.regular && is_copy f.name)) [
  | inl t ↦ rw t (length-insert_name f.name (copies files))
  | inr g ↦ rw g refl
]

length-remove_file :
    (n : Text) (files : List File)
    → HasCopy files n
    → suc (length (copies (remove_file n files))) ≡ length (copies files)
unfolding remove_file
length-remove_file n [] h = absurd (ground arith)
length-remove_file n (f ∷ files) h = elim (Bool-cases (same_text n f.name)) [
  | inl t ↦ let e = length-copies f files in rw t (ground arith)
  | inr g ↦
      let e = length-copies f files in
      let d = length-copies f (remove_file n files) in
      let r = length-remove_file n files (ground arith) in rw g (ground arith)
]

pub length-put_file :
    (n : Text) (content : List ℕ) (files : List File)
    → length (copies (put_file n content files)) ≤ suc (length (copies files))
unfolding put_file
length-put_file n content [] =
    let e = length-copies (record { name = n; regular = true; content = content }) [] in
    ground arith
length-put_file n content (f ∷ files) = elim (Bool-cases (same_text n f.name)) [
  | inl t ↦
      let e = length-copies (record { name = n; regular = true; content = content }) files in
      let d = length-copies f files in rw t (ground arith)
  | inr g ↦
      let e = length-copies f files in
      let d = length-copies f (put_file n content files) in
      let r = length-put_file n content files in rw g (ground arith)
]

HasCopy-remove_file :
    (n m : Text) (files : List File)
    → Differs n m
    → HasCopy files n
    → HasCopy (remove_file m files) n
unfolding remove_file
HasCopy-remove_file n m [] h k = k
HasCopy-remove_file n m (f ∷ files) h k = elim (Bool-cases (same_text m f.name)) [
  | inl t ↦ let d = Differs-same n m f.name t h in rw t (ground arith)
  | inr g ↦ let r = HasCopy-remove_file n m files h in rw g (ground arith)
]

HasCopy-put_file :
    (n m : Text) (content : List ℕ) (files : List File)
    → Differs n m
    → HasCopy files n
    → HasCopy (put_file m content files) n
unfolding put_file
HasCopy-put_file n m content [] h k = absurd (ground arith)
HasCopy-put_file n m content (f ∷ files) h k = elim (Bool-cases (same_text m f.name)) [
  | inl t ↦ let d = Differs-same n m f.name t h in rw t (ground arith)
  | inr g ↦ let r = HasCopy-put_file n m content files h in rw g (ground arith)
]

All-remove_file :
    (files : List File) (n : Text) (l : List Text)
    → All (Differs n) l
    → All (HasCopy files) l
    → All (HasCopy (remove_file n files)) l
All-remove_file files n [] a h = tt
All-remove_file files n (m ∷ l) a h =
    (HasCopy-remove_file m n files (differs_sym m n a.0) h.0, All-remove_file files n l a.1 h.1)

-- Removing distinct copies takes each of them away.
pub length-remove_all :
    (sys : System) (l : List Text) (files : List File)
    → Apart l
    → All (HasCopy files) l
    → (remove_all sys l files).success ≡ true
    → length (copies (remove_all sys l files).files) + length l ≡ length (copies files)
unfolding remove_all
length-remove_all sys [] files a h e = omega arith
length-remove_all sys (n ∷ l) files a h e = elim (Bool-cases (sys.can_remove n)) [
  | inr g ↦ absurd (ground arith)
  | inl t ↦
      let k = All-remove_file files n l a.0 h.1 in
      let r = length-remove_all sys l (remove_file n files) a.1 k (rw t at e) in
      let d = length-remove_file n files h.0 in rw t (omega arith)
]

pub All-put_file :
    (n : Text) (content : List ℕ) (files : List File) (l : List Text)
    → All (Differs n) l
    → All (HasCopy files) l
    → All (HasCopy (put_file n content files)) l
All-put_file n content files [] h k = tt
All-put_file n content files (m ∷ l) h k = (
  HasCopy-put_file m n content files (differs_sym m n h.0) k.0,
  All-put_file n content files l h.1 k.1,
)

pub Apart-drop : (i : ℕ) (l : List Text) → Apart l → Apart (drop i l)
Apart-drop zero l a = a
Apart-drop (suc i) [] a = a
Apart-drop (suc i) (n ∷ l) a = Apart-drop i l a.1

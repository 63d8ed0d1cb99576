-- ===== src/Backup/Kept.antt =====
-- What a backup keeps: the files that are no copies, and the copy it writes.
use docker_smartclips.Prelude.{
  ℕ, suc, ◌-◌, ◌≡◌, refl, ap, ◌∙◌, inl, inr, arith, true, false, ◌&&◌, Bool-cases, some,
}
use docker_smartclips.Prelude.{List, [], ◌∷◌, min, max, drop, length, All, All-drop, if◌then◌else◌}
use docker_smartclips.Config.Names.{Text, same_text}
use docker_smartclips.Dict.{same_text_refl, same_text_eq, Differs, Differs-same}
use docker_smartclips.Nfo.Write.{text_leb}
use docker_smartclips.Backup.Stamp.{is_copy}
use docker_smartclips.Backup.Once.{
  File, SourceRead, missing, failed, holds, System, insert_name, copies, find_file, put_file,
  remove_file, remove_all, copy_name, write_copy, once,
}

no_copy_differs : (n m : Text) → is_copy n ≡ false → is_copy m ≡ true → same_text n m ≡ false
no_copy_differs n m h k = elim (Bool-cases (same_text n m)) [
  | inl t ↦ absurd (let e = ap is_copy (same_text_eq n m t) in cc)
  | inr f ↦ f
]

module _ (n : Text) where
  pub find_file-put_file :
      (m : Text) (content : List ℕ) (files : List File)
      → Differs n m
      → find_file n (put_file m content files) ≡ find_file n files
  unfolding put_file
  find_file-put_file m content [] h = rw h refl
  find_file-put_file m content (f ∷ files) h = elim (Bool-cases (same_text m f.name)) [
    | inl t ↦ let d = Differs-same n m f.name t h in rw (t, h, d) refl
    | inr g ↦ rw g (
        ap (λ t. if same_text n f.name then some f.content else t)
          (find_file-put_file m content files h))
  ]

  find_file-remove_file :
      (m : Text) (files : List File)
      → Differs n m
      → find_file n (remove_file m files) ≡ find_file n files
  unfolding remove_file
  find_file-remove_file m [] h = refl
  find_file-remove_file m (f ∷ files) h = elim (Bool-cases (same_text m f.name)) [
    | inl t ↦ let d = Differs-same n m f.name t h in rw (t, d) refl
    | inr g ↦ rw g (
        ap (λ t. if same_text n f.name then some f.content else t)
          (find_file-remove_file m files h))
  ]

  pub find_file-remove_all :
      (sys : System) (names : List Text) (files : List File)
      → All (Differs n) names
      → find_file n (remove_all sys names files).files ≡ find_file n files
  unfolding remove_all
  find_file-remove_all sys [] files h = refl
  find_file-remove_all sys (old ∷ names) files h = elim (Bool-cases (sys.can_remove old)) [
    | inl t ↦ rw t (
        find_file-remove_all sys names (remove_file old files) h.1
        ∙ find_file-remove_file old files h.0)
    | inr g ↦ rw g refl
  ]

find_file-put_file_same :
    (n : Text) (content : List ℕ) (files : List File)
    → find_file n (put_file n content files) ≡ some content
unfolding put_file
find_file-put_file_same n content [] = rw (same_text_refl n) refl
find_file-put_file_same n content (f ∷ files) = elim (Bool-cases (same_text n f.name)) [
  | inl t ↦ rw (t, same_text_refl n) refl
  | inr g ↦ rw (g, g) (find_file-put_file_same n content files)
]

pub insert_name-All :
    (P : Text → Type 0) (n : Text) (names : List Text)
    → P n
    → All P names
    → All P (insert_name n names)
unfolding insert_name
insert_name-All P n [] h k = (h, tt)
insert_name-All P n (m ∷ names) h k = elim (Bool-cases (text_leb m n)) [
  | inl t ↦ rw t (h, k)
  | inr f ↦ rw f (k.0, insert_name-All P n names h k.1)
]

abbrev IsCopy : Text → Type 0
IsCopy n = is_copy n ≡ true

copies-IsCopy : (files : List File) → All IsCopy (copies files)
unfolding copies
copies-IsCopy [] = tt
copies-IsCopy (f ∷ files) = elim (Bool-cases (f.regular && is_copy f.name)) [
  | inl t ↦ rw t (insert_name-All IsCopy f.name (copies files) (ground arith) (copies-IsCopy files))
  | inr g ↦ rw g (copies-IsCopy files)
]

module _ (sys : System) (keep : ℕ) (stamp : Text) where
  abbrev pub cut : List Text → List Text
  cut all = drop (min (length all) (max keep 1)) all

  -- The first name stays in front of the cut.
  pub cut-cons :
      (n : Text) (names : List Text)
      → cut (n ∷ names) ≡ drop (min (length (n ∷ names)) (max keep 1) - 1) names
  cut-cons n names =
      let k = min (length (n ∷ names)) (max keep 1) - 1 in
      ap (λ (i : ℕ). drop i (n ∷ names)) {y = suc k} (omega arith)

  write_copy-other :
      (n : Text) (files : List File) (names : List Text) (content : List ℕ)
      → Differs n (copy_name stamp)
      → All (Differs n) names
      → find_file n (write_copy sys keep stamp files names content).files ≡ find_file n files
  unfolding write_copy
  write_copy-other n files names content h k = elim (Bool-cases sys.can_write) [
    | inr f ↦ rw f refl
    | inl t ↦ rw t (
        find_file-remove_all n sys (cut (copy_name stamp ∷ names))
          (put_file (copy_name stamp) content files)
          (All-drop (Differs n) (min (length (copy_name stamp ∷ names)) (max keep 1))
            (copy_name stamp ∷ names) (h, k))
        ∙ find_file-put_file n (copy_name stamp) content files h)
  ]

  pub write_copy-new :
      (files : List File) (names : List Text) (content : List ℕ)
      → All (Differs (copy_name stamp)) names
      → (write_copy sys keep stamp files names content).success ≡ true
      → find_file (copy_name stamp) (write_copy sys keep stamp files names content).files
        ≡ some content
  unfolding write_copy
  write_copy-new files names content k e = elim (Bool-cases sys.can_write) [
    | inr f ↦ absurd (ground arith)
    | inl t ↦ rw t (
        ap
          (λ l.
            find_file (copy_name stamp)
              (remove_all sys l (put_file (copy_name stamp) content files)).files)
          (cut-cons (copy_name stamp) names)
        ∙ find_file-remove_all (copy_name stamp) sys _ (put_file (copy_name stamp) content files) (
            All-drop (Differs (copy_name stamp))
              (min (length (copy_name stamp ∷ names)) (max keep 1) - 1) names k)
        ∙ find_file-put_file_same (copy_name stamp) content files)
  ]

  no_copy-All :
      (n : Text) (names : List Text) → is_copy n ≡ false → All IsCopy names → All (Differs n) names
  no_copy-All n [] h k = tt
  no_copy-All n (m ∷ names) h k = (no_copy_differs n m h k.0, no_copy-All n names h k.1)

  -- A backup, successful or not, neither changes nor removes a file whose name is not that of a copy.
  pub once-keeps_others :
      (source : SourceRead) (files : List File) (n : Text)
      → is_copy (copy_name stamp) ≡ true
      → is_copy n ≡ false
      → find_file n (once sys keep source stamp files).files ≡ find_file n files
  unfolding once
  once-keeps_others missing files n c h = refl
  once-keeps_others failed files n c h = refl
  once-keeps_others (holds content) files n c h =
      let w =
        write_copy-other n files (copies files) content (no_copy_differs n (copy_name stamp) h c)
          (no_copy-All n (copies files) h (copies-IsCopy files)) in
      ground arith

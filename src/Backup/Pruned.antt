-- ===== src/Backup/Pruned.antt =====
-- Which copies `Once` of internal/backup/backup.go removes: the oldest ones.
use docker_smartclips.Prelude.{
  ℕ, zero, suc, ◌≡◌, ◌≢◌, refl, sym, ap, ◌∙◌, inl, inr, arith, true, false, ◌&&◌, ◌||◌, Bool-cases,
  none, List, [], ◌∷◌, drop, All,
}
use docker_smartclips.Config.Names.{Text, same_text}
use docker_smartclips.Dict.{same_text_eq, Differs, has}
use docker_smartclips.Dict.Distinct.{differs_sym}
use docker_smartclips.Nfo.Write.{text_leb}
use docker_smartclips.Backup.Stamp.{is_copy}
use docker_smartclips.Backup.Once.{
  File, System, insert_name, copies, find_file, put_file, remove_file, remove_all,
}
use docker_smartclips.Backup.Listed.{names, HasCopy, Apart}
use docker_smartclips.Backup.Newest.{Descending}

names-put_file :
    (q n : Text) (content : List ℕ) (files : List File)
    → Differs q n
    → All (Differs q) (names files)
    → All (Differs q) (names (put_file n content files))
unfolding put_file
names-put_file q n content [] d h = (d, tt)
names-put_file q n content (f ∷ files) d h = elim (Bool-cases (same_text n f.name)) [
  | inl t ↦ rw t (d, h.1)
  | inr g ↦ rw g (h.0, names-put_file q n content files d h.1)
]

pub names-put_file-Apart :
    (n : Text) (content : List ℕ) (files : List File)
    → Apart (names files)
    → Apart (names (put_file n content files))
unfolding put_file
names-put_file-Apart n content [] a = (tt, tt)
names-put_file-Apart n content (f ∷ files) a = elim (Bool-cases (same_text n f.name)) [
  | inl t ↦ let e = same_text_eq n f.name t in rw t ((rw (sym e) at a.0), a.1)
  | inr g ↦ rw g (
    names-put_file f.name n content files (differs_sym f.name n g) a.0,
    names-put_file-Apart n content files a.1,
  )
]

names-remove_file :
    (q n : Text) (files : List File)
    → All (Differs q) (names files)
    → All (Differs q) (names (remove_file n files))
unfolding remove_file
names-remove_file q n [] h = tt
names-remove_file q n (f ∷ files) h = elim (Bool-cases (same_text n f.name)) [
  | inl t ↦ rw t h.1
  | inr g ↦ rw g (h.0, names-remove_file q n files h.1)
]

names-remove_file-Apart :
    (n : Text) (files : List File) → Apart (names files) → Apart (names (remove_file n files))
unfolding remove_file
names-remove_file-Apart n [] a = tt
names-remove_file-Apart n (f ∷ files) a = elim (Bool-cases (same_text n f.name)) [
  | inl t ↦ rw t a.1
  | inr g ↦ rw g (names-remove_file f.name n files a.0, names-remove_file-Apart n files a.1)
]

not_found :
    (q : Text) (files : List File) → All (Differs q) (names files) → find_file q files ≡ none
not_found q [] h = refl
not_found q (f ∷ files) h = rw h.0 (not_found q files h.1)

removed-not_found :
    (n : Text) (files : List File) → Apart (names files) → find_file n (remove_file n files) ≡ none
unfolding remove_file
removed-not_found n [] a = refl
removed-not_found n (f ∷ files) a = elim (Bool-cases (same_text n f.name)) [
  | inl t ↦ let e = same_text_eq n f.name t in rw t (not_found n files (rw (sym e) at a.0))
  | inr g ↦ rw (g, g) (removed-not_found n files a.1)
]

-- A file that is not there does not come up.
stays_away :
    (q n : Text) (files : List File)
    → find_file q files ≡ none
    → find_file q (remove_file n files) ≡ none
unfolding remove_file
stays_away q n [] h = refl
stays_away q n (f ∷ files) h = elim (Bool-cases (same_text q f.name)) [
  | inl t ↦ absurd (let x = rw t at h in cc)
  | inr g ↦ elim (Bool-cases (same_text n f.name)) [
    | inl t ↦ rw t (rw g at h)
    | inr k ↦ rw (k, g) (stays_away q n files (rw g at h))
  ]
]

stays_away_all :
    (sys : System) (q : Text) (l : List Text) (files : List File)
    → find_file q files ≡ none
    → find_file q (remove_all sys l files).files ≡ none
unfolding remove_all
stays_away_all sys q [] files h = h
stays_away_all sys q (n ∷ l) files h = elim (Bool-cases (sys.can_remove n)) [
  | inl t ↦ rw t (stays_away_all sys q l (remove_file n files) (stays_away q n files h))
  | inr g ↦ rw g h
]

-- What is to be removed is gone.
pub remove_all-not_found :
    (sys : System) (q : Text) (l : List Text) (files : List File)
    → Apart (names files)
    → has q l ≡ true
    → (remove_all sys l files).success ≡ true
    → find_file q (remove_all sys l files).files ≡ none
unfolding remove_all
remove_all-not_found sys q [] files a h e = absurd (cc)
remove_all-not_found sys q (n ∷ l) files a h e = elim (Bool-cases (sys.can_remove n)) [
  | inr g ↦ absurd (ground arith)
  | inl t ↦ elim (Bool-cases (same_text q n)) [
    | inl s ↦
        let same = same_text_eq q n s in
        rw t (
          stays_away_all sys q l (remove_file n files)
            (ap (λ k. find_file k (remove_file n files)) same ∙ removed-not_found n files a))
    | inr d ↦ rw t (
        remove_all-not_found sys q l (remove_file n files) (names-remove_file-Apart n files a)
          (ground arith) (rw t at e))
  ]
]

has-not_after :
    (n q : Text) (i : ℕ) (l : List Text)
    → All (λ m. text_leb m n ≡ true) l
    → has q (drop i l) ≡ true
    → text_leb q n ≡ true
has-not_after n q zero [] h k = absurd (cc)
has-not_after n q (suc i) [] h k = absurd (cc)
has-not_after n q zero (m ∷ l) h k = elim (Bool-cases (same_text q m)) [
  | inl t ↦ ap (λ x. text_leb x n) (same_text_eq q m t) ∙ h.0
  | inr f ↦ has-not_after n q zero l h.1 (ground arith)
]
has-not_after n q (suc i) (m ∷ l) h k = has-not_after n q i l h.1 k

-- In front of a cut of the listing stand the newer copies.
pub older_behind :
    (i : ℕ) (l : List Text) (old kept : Text)
    → Descending l
    → has old (drop i l) ≡ true
    → has kept l ≡ true
    → has kept (drop i l) ≡ false
    → text_leb old kept ≡ true
older_behind zero l old kept d h k n = absurd (cc)
older_behind (suc i) [] old kept d h k n = absurd (cc)
older_behind (suc i) (m ∷ l) old kept d h k n = elim (Bool-cases (same_text kept m)) [
  | inl t ↦ ap (λ x. text_leb old x) (same_text_eq kept m t) ∙ has-not_after m old i l d.0 h
  | inr f ↦ older_behind i l old kept d.1 h (ground arith) n
]

has-insert_name :
    (q n : Text) (l : List Text) → has q (insert_name n l) ≡ (same_text q n || has q l)
unfolding insert_name
has-insert_name q n [] = refl
has-insert_name q n (m ∷ l) = elim (Bool-cases (text_leb m n)) [
  | inl t ↦ rw t refl
  | inr f ↦ rw f (ground (arith, has-insert_name q n l))
]

-- Every copy is listed.
pub HasCopy-listed : (n : Text) (files : List File) → HasCopy files n → has n (copies files) ≡ true
unfolding copies
HasCopy-listed n [] h = absurd (cc)
HasCopy-listed n (f ∷ files) h =
    let e = has-insert_name n f.name (copies files) in
    elim (Bool-cases (same_text n f.name)) [
      | inl t ↦ let c = rw t at h in rw c (e ∙ rw t refl)
      | inr g ↦
          let r = HasCopy-listed n files (rw g at h) in
          elim (Bool-cases (f.regular && is_copy f.name)) [
            | inl c ↦ rw c (e ∙ ground (arith, r))
            | inr c ↦ rw c r
          ]
    ]

pub HasCopy-found : (n : Text) (files : List File) → HasCopy files n → find_file n files ≢ none
HasCopy-found n [] h e = cc
HasCopy-found n (f ∷ files) h e = elim (Bool-cases (same_text n f.name)) [
  | inl t ↦ let x = rw t at e in cc
  | inr g ↦ HasCopy-found n files (rw g at h) (rw g at e)
]

pub Differs-listed : (n q : Text) (l : List Text) → All (Differs n) l → has q l ≡ true → Differs q n
Differs-listed n q [] h k = absurd (cc)
Differs-listed n q (m ∷ l) h k = elim (Bool-cases (same_text q m)) [
  | inl t ↦ differs_sym q n (ap (same_text n) (same_text_eq q m t) ∙ h.0)
  | inr g ↦ Differs-listed n q l h.1 (ground arith)
]

-- ===== src/Backup/Newest.antt =====
-- The order in which `copies` of internal/backup/backup.go lists the copies: the newest one first.
use docker_smartclips.Prelude.{
  ℕ, ◌≡◌, refl, ap, ◌∙◌, inl, inr, arith, true, ◌&&◌, Bool-cases, Option-cases, some, List, [], ◌∷◌,
  All,
}
use docker_smartclips.Config.Names.{Text}
use docker_smartclips.Dict.{same_text_eq}
use docker_smartclips.Nfo.Write.{text_leb}
use docker_smartclips.Nfo.Stable.{text_leb_total, text_leb_trans}
use docker_smartclips.Backup.Stamp.{is_copy}
use docker_smartclips.Backup.Once.{File, System, insert_name, copies, find_file, is_current}
use docker_smartclips.Backup.Kept.{insert_name-All}

-- No copy has a later name.
abbrev pub IsNewest : List File → Text → Type 0
IsNewest files n = All (λ f. (f.regular && is_copy f.name) ≡ true → text_leb f.name n ≡ true) files

abbrev NotAfter : Text → Text → Type 0
NotAfter n m = text_leb m n ≡ true

abbrev pub Descending : List Text → Type 0
Descending [] = Unit
Descending (n ∷ l) = All (NotAfter n) l × Descending l

NotAfter-all :
    (n m : Text) (l : List Text) → text_leb m n ≡ true → All (NotAfter m) l → All (NotAfter n) l
NotAfter-all n m [] h k = tt
NotAfter-all n m (x ∷ l) h k = (text_leb_trans x m n k.0 h, NotAfter-all n m l h k.1)

insert_name-Descending : (n : Text) (l : List Text) → Descending l → Descending (insert_name n l)
unfolding insert_name
insert_name-Descending n [] h = (tt, tt)
insert_name-Descending n (m ∷ l) h = elim (Bool-cases (text_leb m n)) [
  | inl t ↦ rw t ((t, NotAfter-all n m l t h.0), h)
  | inr f ↦
      rw f (
        insert_name-All (NotAfter m) n l (text_leb_total m n f) h.0,
        insert_name-Descending n l h.1,
      )
]

pub copies-Descending : (files : List File) → Descending (copies files)
unfolding copies
copies-Descending [] = tt
copies-Descending (f ∷ files) = elim (Bool-cases (f.regular && is_copy f.name)) [
  | inl t ↦ rw t (insert_name-Descending f.name (copies files) (copies-Descending files))
  | inr g ↦ rw g (copies-Descending files)
]

-- What holds of a list with a name put in holds of the name and of the list.
All-insert_name :
    (P : Text → Type 0) (n : Text) (l : List Text) → All P (insert_name n l) → P n × All P l
unfolding insert_name
All-insert_name P n [] h = h
All-insert_name P n (m ∷ l) h = elim (Bool-cases (text_leb m n)) [
  | inl t ↦ rw t at h
  | inr f ↦ let k = rw f at h in let r = All-insert_name P n l k.1 in (r.0, (k.0, r.1))
]

listed-IsNewest :
    (n : Text) (files : List File) → All (NotAfter n) (copies files) → IsNewest files n
unfolding copies
listed-IsNewest n [] h = tt
listed-IsNewest n (f ∷ files) h = elim (Bool-cases (f.regular && is_copy f.name)) [
  | inl t ↦
      let r = All-insert_name (NotAfter n) f.name (copies files) (rw t at h) in
      (λ c. r.0, listed-IsNewest n files r.1)
  | inr g ↦ (λ c. absurd (cc), listed-IsNewest n files (rw g at h))
]

text_leb_refl : (s : Text) → text_leb s s ≡ true
text_leb_refl [] = refl
text_leb_refl (a ∷ s) = ground (arith, text_leb_refl s)

-- The first name listed is the newest.
first-IsNewest :
    (n : Text) (l : List Text) (files : List File) → copies files ≡ n ∷ l → IsNewest files n
first-IsNewest n l files e =
    let d = rw e at (copies-Descending files) in
    listed-IsNewest n files (rw e (text_leb_refl n, d.0))

-- The copy that a backup finds to hold the content already.
pub record IsHeld (files : List File) (content : List ℕ) : Type 0 where
  pub name : Text
  pub older : List Text
  pub first : copies files ≡ name ∷ older
  pub newest : IsNewest files name
  pub held : find_file name files ≡ some content

is_current-first :
    (sys : System) (files : List File) (content : List ℕ) (l : List Text)
    → copies files ≡ l
    → is_current sys files l content ≡ true
    → IsHeld files content
unfolding is_current
is_current-first sys files content [] e h = absurd (cc)
is_current-first sys files content (n ∷ l) e h = elim (Option-cases (find_file n files)) [
  | inl q ↦ absurd (let x = rw q at h in ground arith)
  | inr (latest, q) ↦
      let x = rw q at h in
      record {
        name = n;
        older = l;
        first = e;
        newest = first-IsNewest n l files e;
        held = q ∙ ap some (same_text_eq latest content (ground arith));
      }
]

-- Where the test of `Once` succeeds, the newest copy holds the content.
pub is_current-IsHeld :
    (sys : System) (files : List File) (content : List ℕ)
    → is_current sys files (copies files) content ≡ true
    → IsHeld files content
is_current-IsHeld sys files content h = is_current-first sys files content (copies files) refl h

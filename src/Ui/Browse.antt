-- ===== src/Ui/Browse.antt =====
-- The listing of a folder by `browse` of internal/ui/server.go, over what `os.ReadDir` and `os.Stat` answer.
use docker_smartclips.Prelude.{
  ℕ, ◌≡◌, refl, sym, inl, inr, arith, Bool, true, false, not, ◌&&◌, ◌||◌, Option, none, some, List,
  [], ◌∷◌, ◌++◌, All, if◌then◌else◌, Bool-cases,
}
use mathlib.Core.List.{Perm}
use mathlib.Core.List.Perm
use docker_smartclips.Config.Names.{Text, dot, starts_with_dot}
use docker_smartclips.Dict.{has}
use docker_smartclips.Nfo.Write.{text_leb}
use docker_smartclips.Nfo.Stable.{text_leb_total, text_leb_trans}
use docker_smartclips.Engine.Build.{ext}

-- An entry of the folder: its name, and whether it is a folder and its size, if `os.Stat` succeeds.
pub record Found : Type 0 where
  pub name : Text
  pub info : Option (Bool × ℕ)

-- `browseEntry`
pub record BrowseEntry : Type 0 where
  pub name : Text
  pub dir : Bool
  pub size : ℕ

-- One entry at most.
abbrev IsSingle : List BrowseEntry → Type 0
IsSingle [] = Unit
IsSingle (e ∷ []) = Unit
IsSingle (e ∷ f ∷ es) = ⊥

-- `VideoExts`
abbrev pub video_exts : List Text
video_exts =
    (dot ∷ 0x6d ∷ 0x6b ∷ 0x76 ∷ [])
    ∷ (dot ∷ 0x6d ∷ 0x70 ∷ 0x34 ∷ [])
    ∷ (dot ∷ 0x6d ∷ 0x34 ∷ 0x76 ∷ [])
    ∷ (dot ∷ 0x61 ∷ 0x76 ∷ 0x69 ∷ [])
    ∷ (dot ∷ 0x74 ∷ 0x73 ∷ [])
    ∷ (dot ∷ 0x6d ∷ 0x6f ∷ 0x76 ∷ [])
    ∷ (dot ∷ 0x77 ∷ 0x65 ∷ 0x62 ∷ 0x6d ∷ [])
    ∷ (dot ∷ 0x6d ∷ 0x6b ∷ 0x33 ∷ 0x64 ∷ [])
    ∷ []

module _ (lower : Text → Text) where
  abbrev pub is_video : Text → Bool
  is_video name = has (lower (ext name)) video_exts

  -- What one entry adds to the listing.
  abbrev pub listed : Text → Option (Bool × ℕ) → List BrowseEntry
  listed name none = []
  listed name (some (true, size)) = record { name = name; dir = true; size = 0 } ∷ []
  listed name (some (false, size)) =
      if is_video name then record { name = name; dir = false; size = size } ∷ [] else []

  -- The order of the listing: folders first, then by the name in lower case.
  abbrev pub comes_before : BrowseEntry → BrowseEntry → Bool
  comes_before a b =
      if a.dir && not b.dir
      then true
      else if not a.dir && b.dir
      then false
      else not (text_leb (lower b.name) (lower a.name))

  -- `sort.Slice`
  unfoldable pub insert_entry : BrowseEntry → List BrowseEntry → List BrowseEntry
  insert_entry e [] = e ∷ []
  insert_entry e (f ∷ es) = if comes_before f e then f ∷ insert_entry e es else e ∷ f ∷ es

  abbrev pub put_listed : List BrowseEntry → List BrowseEntry → List BrowseEntry
  put_listed [] es = es
  put_listed (e ∷ more) es = insert_entry e es

  unfoldable pub browse : List Found → List BrowseEntry
  unfolding insert_entry
  browse [] = []
  browse (f ∷ fs) =
      let rest = browse fs in
      if starts_with_dot f.name then rest else put_listed (listed f.name f.info) rest

  -- `e` may stand before `f`: no folder stands behind a file, and two of a kind are in the order of the
  -- names in lower case.
  pub record IsOrdered (e f : BrowseEntry) : Type 0 where
    pub folders_first : f.dir ≡ true → e.dir ≡ true
    pub by_name : e.dir ≡ f.dir → text_leb (lower e.name) (lower f.name) ≡ true

  abbrev pub IsSorted : List BrowseEntry → Type 0
  IsSorted [] = Unit
  IsSorted (e ∷ es) = All (IsOrdered e) es × IsSorted es

  -- A folder, without a size, or a video, where it is not hidden and can be looked at.
  abbrev pub shown_as : Text → Option (Bool × ℕ) → List BrowseEntry
  shown_as name none = []
  shown_as name (some (dir, size)) =
      if not (starts_with_dot name) && (dir || is_video name)
      then record { name = name; dir = dir; size = if dir then 0 else size } ∷ []
      else []

  -- What is to be shown, in the order of the file system.
  abbrev pub shown : List Found → List BrowseEntry
  shown [] = []
  shown (f ∷ fs) = shown_as f.name f.info ++ shown fs

  listed_shown :
      (name : Text) (info : Option (Bool × ℕ))
      → starts_with_dot name ≡ false
      → listed name info ≡ shown_as name info
  listed_shown name none h = refl
  listed_shown name (some (true, size)) h = rw h refl
  listed_shown name (some (false, size)) h = rw h refl

  hidden_shown :
      (name : Text) (info : Option (Bool × ℕ))
      → starts_with_dot name ≡ true
      → shown_as name info ≡ []
  hidden_shown name none h = refl
  hidden_shown name (some (dir, size)) h = rw h refl

  IsOrdered-before : (e f : BrowseEntry) → comes_before e f ≡ true → IsOrdered e f
  IsOrdered-before e f h = record {
    folders_first = λ d. ground arith;
    by_name = λ d. ground (arith, text_leb_total (lower f.name) (lower e.name));
  }

  IsOrdered-not_before : (e f : BrowseEntry) → comes_before f e ≡ false → IsOrdered e f
  IsOrdered-not_before e f h = record {
    folders_first = λ d. ground arith;
    by_name = λ d. ground arith;
  }

  IsOrdered-trans : (e f g : BrowseEntry) → IsOrdered e f → IsOrdered f g → IsOrdered e g
  IsOrdered-trans e f g h k = record {
    folders_first = λ d. h.folders_first (k.folders_first d);
    by_name = λ d.
        let between : (e.dir ≡ f.dir) × (f.dir ≡ g.dir) =
          same_kind e.dir f.dir g.dir h.folders_first k.folders_first d in
        text_leb_trans (lower e.name) (lower f.name) (lower g.name) (h.by_name between.0)
          (k.by_name between.1);
  }
    where
      same_kind :
          (a b c : Bool) → (b ≡ true → a ≡ true) → (c ≡ true → b ≡ true) → a ≡ c → (a ≡ b) × (b ≡ c)
      same_kind true true true p q r = (refl, refl)
      same_kind true true false p q r = absurd (cc)
      same_kind true false true p q r = absurd (let x = q refl in cc)
      same_kind true false false p q r = absurd (cc)
      same_kind false true c p q r = absurd (let x = p refl in cc)
      same_kind false false true p q r = absurd (cc)
      same_kind false false false p q r = (refl, refl)

  IsOrdered-all :
      (e f : BrowseEntry) (es : List BrowseEntry)
      → IsOrdered e f
      → All (IsOrdered f) es
      → All (IsOrdered e) es
  IsOrdered-all e f [] h k = tt
  IsOrdered-all e f (g ∷ es) h k = (IsOrdered-trans e f g h k.0, IsOrdered-all e f es h k.1)

  insert_entry-All :
      (d e : BrowseEntry) (es : List BrowseEntry)
      → IsOrdered d e
      → All (IsOrdered d) es
      → All (IsOrdered d) (insert_entry e es)
  unfolding insert_entry
  insert_entry-All d e [] h k = (h, tt)
  insert_entry-All d e (f ∷ es) h k = elim (Bool-cases (comes_before f e)) [
    | inl t ↦ rw (t, insert_entry) (k.0, insert_entry-All d e es h k.1)
    | inr n ↦ rw (n, insert_entry) (h, k)
  ]

  insert_entry-IsSorted :
      (e : BrowseEntry) (es : List BrowseEntry) → IsSorted es → IsSorted (insert_entry e es)
  unfolding insert_entry
  insert_entry-IsSorted e [] h = (tt, tt)
  insert_entry-IsSorted e (f ∷ es) h = elim (Bool-cases (comes_before f e)) [
    | inl t ↦
        rw (t, insert_entry)
          (insert_entry-All f e es (IsOrdered-before f e t) h.0, insert_entry-IsSorted e es h.1)
    | inr n ↦
        let o = IsOrdered-not_before e f n in
        rw (n, insert_entry) ((o, IsOrdered-all e f es o h.0), h)
  ]

  insert_entry-Perm : (e : BrowseEntry) (es : List BrowseEntry) → Perm (insert_entry e es) (e ∷ es)
  unfolding insert_entry
  insert_entry-Perm e [] = Perm.refl (e ∷ [])
  insert_entry-Perm e (f ∷ es) = elim (Bool-cases (comes_before f e)) [
    | inl t ↦
        rw (t, insert_entry) (Perm.trans (Perm.cons f (insert_entry-Perm e es)) (Perm.swap e f es))
    | inr n ↦ rw (n, insert_entry) (Perm.refl (e ∷ f ∷ es))
  ]

  put_listed_lem :
      (more es rest : List BrowseEntry)
      → IsSingle more
      → IsSorted es × Perm es rest
      → IsSorted (put_listed more es) × Perm (put_listed more es) (more ++ rest)
  put_listed_lem [] es rest one h = h
  put_listed_lem (e ∷ []) es rest one h =
      (insert_entry-IsSorted e es h.0, Perm.trans (insert_entry-Perm e es) (Perm.cons e h.1))
  put_listed_lem (e ∷ f ∷ more) es rest one h = absurd one

  listed-IsSingle : (name : Text) (info : Option (Bool × ℕ)) → IsSingle (listed name info)
  listed-IsSingle name none = tt
  listed-IsSingle name (some (true, size)) = tt
  listed-IsSingle name (some (false, size)) = elim (Bool-cases (is_video name)) [
    | inl t ↦ rw t tt
    | inr n ↦ rw n tt
  ]

  -- The listing of a folder is made up of its folders and videos that are not hidden, each as often as it
  -- is found, the folders first, and each kind in the order of the names in lower case.
  pub browse-IsSorted : (fs : List Found) → IsSorted (browse fs) × Perm (browse fs) (shown fs)
  unfolding browse
  browse-IsSorted [] = (tt, Perm.nil)
  browse-IsSorted (f ∷ fs) = elim (Bool-cases (starts_with_dot f.name)) [
    | inl t ↦ rw (t, hidden_shown f.name f.info t, browse) (browse-IsSorted fs)
    | inr n ↦
        rw (n, sym (listed_shown f.name f.info n), browse)
          (put_listed_lem (listed f.name f.info) (browse fs) (shown fs)
            (listed-IsSingle f.name f.info) (browse-IsSorted fs))
  ]

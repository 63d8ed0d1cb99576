-- ===== src/Backup/Bound.antt =====
-- What a backup leaves, over a directory that holds no name twice.
use docker_smartclips.Prelude.{
  false, ◌≢◌, ◌∙◌, none, some, ℕ, ◌-◌, ◌≤◌, ◌≡◌, ◌⊎◌, refl, sym, subst, ap, inl, inr, arith, true,
  Bool-cases, List, ◌∷◌, min, max, drop, length, length-drop, All, All-drop,
}
use docker_smartclips.Config.Names.{Text}
use docker_smartclips.Dict.{has, Differs}
use docker_smartclips.Dict.Distinct.{Distinct}
use docker_smartclips.Nfo.Write.{text_leb}
use docker_smartclips.Backup.Once.{
  Outcome, find_file, File, holds, System, copies, put_file, is_current, copy_name, write_copy,
  once,
}
use docker_smartclips.Backup.Kept.{
  find_file-put_file, find_file-remove_all, write_copy-new, cut-cons,
}
use docker_smartclips.Backup.Pruned.{
  names-put_file-Apart, remove_all-not_found, older_behind, HasCopy-listed, HasCopy-found,
  Differs-listed,
}
use docker_smartclips.Backup.Newest.{copies-Descending, IsHeld, is_current-IsHeld}
use docker_smartclips.Backup.Listed.{
  has-All, names, HasCopy, Apart, Distinct-Apart, copies-Apart, copies-HasCopy,
}
use docker_smartclips.Backup.Counted.{length-put_file, length-remove_all, All-put_file, Apart-drop}

module _ (sys : System) (keep : ℕ) (stamp : Text) (content : List ℕ) (files : List File) where
  write_copy-bound :
      (l : List Text)
      → length l ≡ length (copies files)
      → All (Differs (copy_name stamp)) l
      → Apart l
      → All (HasCopy files) l
      → (write_copy sys keep stamp files l content).success ≡ true
      → length (copies (write_copy sys keep stamp files l content).files) ≤ max keep 1
  unfolding write_copy
  write_copy-bound l n k a h e = elim (Bool-cases sys.can_write) [
    | inr f ↦ absurd (ground arith)
    | inl t ↦
        let new = copy_name stamp in
        let i = min (length (new ∷ l)) (max keep 1) in
        let put = put_file new content files in
        let c = sym (cut-cons sys keep stamp new l) in
        let p = length-put_file new content files in
        let r =
          length-remove_all sys (drop i (new ∷ l)) put (subst Apart c (Apart-drop (i - 1) l a))
            (subst (All (HasCopy put)) c
              (All-drop (HasCopy put) (i - 1) l (All-put_file new content files l k h)))
            (rw t at e) in
        let d = length-drop i (new ∷ l) in rw t (omega arith)
  ]

  abbrev written : Outcome
  written = write_copy sys keep stamp files (copies files) content

  -- A copy that is gone is not newer than an earlier one that is left.
  write_copy-oldest :
      Apart (names files)
      → All (Differs (copy_name stamp)) (copies files)
      → written.success ≡ true
      → (old kept : Text) → HasCopy files old
      → HasCopy files kept
      → find_file old written.files ≡ none
      → find_file kept written.files ≢ none
      → text_leb old kept ≡ true
  unfolding write_copy
  write_copy-oldest a d e old kept ho hk gone left = elim (Bool-cases sys.can_write) [
    | inr f ↦ absurd (ground arith)
    | inl t ↦
        let new = copy_name stamp in
        let i = min (length (new ∷ copies files)) (max keep 1) in
        let l = drop i (new ∷ copies files) in
        let put = put_file new content files in
        let c = cut-cons sys keep stamp new (copies files) in
        let listed = HasCopy-listed old files ho in
        let removed : has old l ≡ true = elim (Bool-cases (has old l)) [
          | inl h ↦ h
          | inr h ↦ absurd (
              HasCopy-found old files ho (
                sym (
                  find_file-put_file old new content files
                    (Differs-listed new old (copies files) d listed))
                ∙ sym (find_file-remove_all old sys l put (has-All old l h))
                ∙ (rw t at gone)))
        ] in
        let stays : has kept l ≡ false = elim (Bool-cases (has kept l)) [
          | inr h ↦ h
          | inl h ↦ absurd (
              (rw t at left) (
                remove_all-not_found sys kept l put (names-put_file-Apart new content files a) h
                  (rw t at e)))
        ] in
        older_behind (i - 1) (copies files) old kept (copies-Descending files)
          (ap (has old) (sym c) ∙ removed) (HasCopy-listed kept files hk)
          (ap (has kept) (sym c) ∙ stays)
  ]

  -- The clips are in the copy of this second, at most as many copies are left as are to be kept (one where
  -- none are), and none that is gone is newer than an earlier one that is left.
  pub record IsBackedUp (after : List File) : Type 0 where
    pub held : find_file (copy_name stamp) after ≡ some content
    pub few : length (copies after) ≤ max keep 1
    pub oldest :
        (old kept : Text)
        → HasCopy files old
        → HasCopy files kept
        → find_file old after ≡ none
        → find_file kept after ≢ none
        → text_leb old kept ≡ true

  -- Where the directory holds no name twice and no copy has the name of this second yet, a backup of a
  -- readable clips file that succeeds finds the clips in the newest copy, that whose name is the last of
  -- all copies' names, and changes nothing, or the copy of this second holds them, at most as many copies
  -- are left as are to be kept (one where none are), and of the earlier copies none that is removed is
  -- newer than one that is left.
  pub once-holds :
      Distinct (names files)
      → All (Differs (copy_name stamp)) (copies files)
      → (once sys keep (holds content) stamp files).success ≡ true
      → (IsHeld files content × ((once sys keep (holds content) stamp files).files ≡ files))
        ⊎ IsBackedUp (once sys keep (holds content) stamp files).files
  unfolding once
  once-holds d k e = elim (Bool-cases sys.can_list) [
    | inr f ↦ absurd (ground arith)
    | inl t ↦ elim (Bool-cases (is_current sys files (copies files) content)) [
      | inl c ↦ inl (is_current-IsHeld sys files content c, rw (t, c) refl)
      | inr c ↦
          let a = Distinct-Apart (names files) d in
          let s = rw (t, c) at e in
          inr (
            rw (t, c)
              (record {
                held = write_copy-new sys keep stamp files (copies files) content k s;
                few =
                    write_copy-bound (copies files) refl k (copies-Apart files a)
                      (copies-HasCopy files a) s;
                oldest = write_copy-oldest a k s;
              }))
    ]
  ]

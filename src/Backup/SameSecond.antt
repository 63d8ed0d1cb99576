-- ===== src/Backup/SameSecond.antt =====
-- Two backups in the same second, of which one copy is to be kept.
use docker_smartclips.Prelude.{
  ℕ, ◌≤◌, ◌≡◌, refl, arith, true, false, List, [], ◌∷◌, min, max, length,
}
use docker_smartclips.Config.Names.{Text, same_text}
use docker_smartclips.Backup.Stamp.{is_copy}
use docker_smartclips.Backup.Once.{
  File, holds, System, insert_name, copies, put_file, remove_file, remove_all, is_current,
  copy_name, write_copy, once,
}
use docker_smartclips.Dict.{same_text_refl}

-- Every system call succeeds.
abbrev pub working : System
working = record { can_list = true; can_read = λ n. true; can_write = true; can_remove = λ n. true }

abbrev pub copy_at : Text → List ℕ → File
copy_at stamp content = record { name = copy_name stamp; regular = true; content = content }

module _ (stamp : Text) (old content : List ℕ) (named : is_copy (copy_name stamp) ≡ true) where
  copies-one : copies (copy_at stamp old ∷ []) ≡ copy_name stamp ∷ []
  unfolding copies insert_name
  copies-one = rw named refl

  -- With one copy to keep, a backup of changed clips in the second of the only copy succeeds and leaves
  -- no copy: the copy just written has the name of the old one, which is removed.
  pub once_same_second :
      (keep : ℕ)
      → keep ≤ 1
      → same_text old content ≡ false
      → once working keep (holds content) stamp (copy_at stamp old ∷ [])
        ≡ record { files = []; success = true }
  unfolding once is_current write_copy remove_all remove_file put_file
  once_same_second keep h changed =
      let n = copy_name stamp in
      let one : min (length (n ∷ n ∷ [])) (max keep 1) ≡ 1 = omega arith in
      rw (copies-one, same_text_refl n, changed, one, same_text_refl n) refl

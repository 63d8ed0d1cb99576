-- ===== src/Backup/Tests.antt =====
-- Runs of the functions of internal/backup, and the theorems at concrete inputs.
use docker_smartclips.Prelude.{◌≡◌, ◌⊎◌, refl, arith, true, false, List, [], ◌∷◌, All}
use docker_smartclips.Config.Names.{Text, same_text}
use docker_smartclips.Backup.Stamp.{is_stamp, is_copy}
use docker_smartclips.Backup.Once.{
  File, holds, copies, insert_name, find_file, put_file, remove_file, remove_all, is_current,
  copy_name, write_copy, once,
}
use docker_smartclips.Backup.Kept.{once-keeps_others}
use docker_smartclips.Dict.Distinct.{Distinct}
use docker_smartclips.Backup.Newest.{IsHeld}
use docker_smartclips.Backup.Listed.{names}
use docker_smartclips.Backup.Bound.{IsBackedUp, once-holds}
use docker_smartclips.Backup.SameSecond.{working, copy_at, once_same_second}

-- 20240229T120000Z and 20230229T120000Z, which is no date.
abbrev leap_day : Text
leap_day =
    0x32 ∷ 0x30 ∷ 0x32 ∷ 0x34 ∷ 0x30 ∷ 0x32 ∷ 0x32 ∷ 0x39 ∷ 0x54 ∷ 0x31 ∷ 0x32 ∷ 0x30 ∷ 0x30 ∷ 0x30
    ∷ 0x30 ∷ 0x5a ∷ []

abbrev no_day : Text
no_day =
    0x32 ∷ 0x30 ∷ 0x32 ∷ 0x33 ∷ 0x30 ∷ 0x32 ∷ 0x32 ∷ 0x39 ∷ 0x54 ∷ 0x31 ∷ 0x32 ∷ 0x30 ∷ 0x30 ∷ 0x30
    ∷ 0x30 ∷ 0x5a ∷ []

-- 20240101T120000Z
abbrev new_year : Text
new_year =
    0x32 ∷ 0x30 ∷ 0x32 ∷ 0x34 ∷ 0x30 ∷ 0x31 ∷ 0x30 ∷ 0x31 ∷ 0x54 ∷ 0x31 ∷ 0x32 ∷ 0x30 ∷ 0x30 ∷ 0x30
    ∷ 0x30 ∷ 0x5a ∷ []

copy-leap_day : is_copy (copy_name leap_day) ≡ true
unfolding is_copy is_stamp
copy-leap_day = refl

stamp-no_day : is_stamp no_day ≡ false
unfolding is_stamp
stamp-no_day = refl

-- A note that is no copy, and the copy of new year.
abbrev note : Text
note = 0x6e ∷ []

abbrev kept_files : List File
kept_files =
    record { name = note; regular = true; content = 5 ∷ [] } ∷ copy_at new_year (1 ∷ []) ∷ []

note_is_no_copy : is_copy note ≡ false
unfolding is_copy is_stamp
note_is_no_copy = refl

once-replaces : once working 1 (holds (2 ∷ [])) leap_day kept_files ≡ record {
  files = record { name = note; regular = true; content = 5 ∷ [] } ∷ copy_at leap_day (2 ∷ []) ∷ [];
  success = true;
}
unfolding once copies insert_name is_copy is_stamp is_current write_copy put_file remove_all
    remove_file
once-replaces = refl

once-keeps_others_example :
    find_file note (once working 1 (holds (2 ∷ [])) leap_day kept_files).files
    ≡ find_file note kept_files
once-keeps_others_example =
    once-keeps_others working 1 leap_day (holds (2 ∷ [])) kept_files note copy-leap_day
      note_is_no_copy

fresh : All (λ m. same_text (copy_name leap_day) m ≡ false) (copies kept_files)
unfolding copies insert_name is_copy is_stamp
fresh = (refl, tt)

kept-Distinct : Distinct (names kept_files)
kept-Distinct = (refl, (refl, tt))

once-holds_example :
    (IsHeld kept_files (2 ∷ [])
      × ((once working 1 (holds (2 ∷ [])) leap_day kept_files).files ≡ kept_files))
    ⊎ IsBackedUp working 1 leap_day
        (2 ∷ [])
        kept_files
        (once working 1 (holds (2 ∷ [])) leap_day kept_files).files
once-holds_example =
    once-holds working 1 leap_day (2 ∷ []) kept_files kept-Distinct fresh (rw once-replaces refl)

once_same_second_example :
    once working 1 (holds (2 ∷ [])) leap_day (copy_at leap_day (1 ∷ []) ∷ [])
    ≡ record { files = []; success = true }
once_same_second_example =
    once_same_second leap_day (1 ∷ []) (2 ∷ []) copy-leap_day 1 (omega arith) refl

-- ===== src/Backup/Once.antt =====
-- `copies` and `Once` of internal/backup/backup.go, over a directory as the list of its entries.
use docker_smartclips.Prelude.{
  ℕ, Bool, true, false, ◌&&◌, Option, none, some, List, [], ◌∷◌, ◌++◌, min, max, drop, length,
  if◌then◌else◌,
}
use docker_smartclips.Config.Names.{Text, same_text}
use docker_smartclips.Nfo.Write.{text_leb}
use docker_smartclips.Backup.Stamp.{is_copy, prefix, suffix}

-- A directory entry; `regular` is `Type().IsRegular()`.
pub record File : Type 0 where
  pub name : Text
  pub regular : Bool
  pub content : List ℕ

-- What `os.ReadFile` says of the clips file.
pub data SourceRead : Type 0 where
  missing failed : SourceRead
  holds : List ℕ → SourceRead

-- Which system calls succeed.
pub record System : Type 0 where
  pub can_list : Bool
  pub can_read : Text → Bool
  pub can_write : Bool
  pub can_remove : Text → Bool

-- The directory afterwards, and whether the error is nil.
pub record Outcome : Type 0 where
  pub files : List File
  pub success : Bool

-- `sort.Reverse` of the order of strings.
unfoldable pub insert_name : Text → List Text → List Text
insert_name n [] = n ∷ []
insert_name n (m ∷ names) = if text_leb m n then n ∷ m ∷ names else m ∷ insert_name n names

unfoldable pub copies : List File → List Text
unfolding insert_name
copies [] = []
copies (f ∷ files) =
    let rest = copies files in if f.regular && is_copy f.name then insert_name f.name rest else rest

abbrev pub find_file : Text → List File → Option (List ℕ)
find_file n [] = none
find_file n (f ∷ files) = if same_text n f.name then some f.content else find_file n files

-- `layout.WriteFileAtomic`: the file is replaced as a whole.
unfoldable pub put_file : Text → List ℕ → List File → List File
put_file n content [] = record { name = n; regular = true; content = content } ∷ []
put_file n content (f ∷ files) =
    if same_text n f.name
    then record { name = n; regular = true; content = content } ∷ files
    else f ∷ put_file n content files

unfoldable pub remove_file : Text → List File → List File
remove_file n [] = []
remove_file n (f ∷ files) = if same_text n f.name then files else f ∷ remove_file n files

-- The loop over the old copies.
unfoldable pub remove_all : System → List Text → List File → Outcome
unfolding remove_file
remove_all sys [] files = record { files = files; success = true }
remove_all sys (old ∷ names) files =
    let rest = remove_all sys names (remove_file old files) in
    if sys.can_remove old then rest else record { files = files; success = false }

-- The newest copy can be read and holds the content.
unfoldable pub is_current : System → List File → List Text → List ℕ → Bool
is_current sys files [] content = false
is_current sys files (newest ∷ names) content =
    sys.can_read newest
    && elim (find_file newest files) [ none ↦ false | some latest ↦ same_text latest content ]

-- `stamp` is the formatted time.
abbrev pub copy_name : Text → Text
copy_name stamp = prefix ++ (stamp ++ suffix)

unfoldable pub write_copy : System → ℕ → Text → List File → List Text → List ℕ → Outcome
unfolding remove_all put_file
write_copy sys keep stamp files names content =
    let all = copy_name stamp ∷ names in
    if sys.can_write
    then remove_all sys (drop (min (length all) (max keep 1)) all)
        (put_file (copy_name stamp) content files)
    else record { files = files; success = false }

unfoldable pub once : System → ℕ → SourceRead → Text → List File → Outcome
unfolding write_copy is_current copies
once sys keep missing stamp files = record { files = files; success = true }
once sys keep failed stamp files = record { files = files; success = false }
once sys keep (holds content) stamp files =
    let names = copies files in
    if sys.can_list
    then (if is_current sys files names content
        then record { files = files; success = true }
        else write_copy sys keep stamp files names content)
    else record { files = files; success = false }

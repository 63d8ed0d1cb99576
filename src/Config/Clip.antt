-- ===== src/Config/Clip.antt =====
-- `Clip` and `Clip.Path` of internal/config/config.go, and the name checks of `Validate`.
use docker_smartclips.Prelude.{ℕ, Option, List, [], ◌∷◌, ◌++◌, if◌then◌else◌}
use docker_smartclips.Config.Names.{
  Text, slash, is_empty, trim_slashes, split_slashes, check_name, report, group_problems, NameError,
}
use docker_smartclips.Config.Metadata.{Fields}

-- `start` and `finish` are the bits of float64s; `none` is the nil map.
pub record Clip : Type 0 where
  pub input : Text
  pub output : Text
  pub start : ℕ
  pub finish : ℕ
  pub group : Text
  pub nfo_type : Text
  pub metadata : Option Fields

-- `Clip.Path`
unfoldable pub path : Clip → Text
path c = let g = trim_slashes c.group in if is_empty g then c.output else g ++ (slash ∷ c.output)

-- The problems that `Validate` reports of a clip's names.
unfoldable pub name_problems : Clip → List NameError
unfolding group_problems
name_problems c =
    let g = trim_slashes c.group in
    report (check_name c.output) ++ (if is_empty g then [] else group_problems (split_slashes g))

-- ===== src/Start/Settings.antt =====
-- `env`, `envInt`, the checks of `runMount` on its settings, and `backupFromEnv` of
-- cmd/smartclips/main.go. `os.Getenv`, `strconv.Atoi` and `time.ParseDuration` are given.
use docker_smartclips.Prelude.{
  ℕ, ◌^◌, ◌-◌, Bool, true, false, ◌||◌, Option, none, some, ltb, ◌==◌, if◌then◌else◌,
}
use docker_smartclips.Config.Names.{Text, is_empty}

-- Go's int: `negsuc n` is -(n + 1).
pub data ℤ : Type 0 where
  pos negsuc : ℕ → ℤ

-- `i <= 0`, `i < 0`, `i < n` and `i > n`
abbrev pub not_positive : ℤ → Bool
not_positive (pos n) = n == 0
not_positive (negsuc n) = true

abbrev pub is_negative : ℤ → Bool
is_negative (pos n) = false
is_negative (negsuc n) = true

abbrev pub less_than : ℤ → ℕ → Bool
less_than (pos m) n = ltb m n
less_than (negsuc m) n = true

abbrev pub more_than : ℤ → ℕ → Bool
more_than (pos m) n = ltb n m
more_than (negsuc m) n = false

pub data StartError : Type 0 where
  not_a_number : Text → StartError
  root_user : StartError
  invalid_user : ℤ → ℤ → StartError
  keep_too_small bad_interval : StartError

pub data Setting (A : Type 0) : Type 0 where
  set : A → Setting A
  refused : StartError → Setting A

infixl 5 ◌>>=◌
abbrev pub ◌>>=◌ : {A B : Type 0} → Setting A → (A → Setting B) → Setting B
set a >>= f = f a
refused e >>= f = refused e

-- math.MaxUint32
abbrev pub max_uint32 : ℕ
max_uint32 = 2 ^ 32 - 1

-- One minute in nanoseconds.
abbrev pub minute : ℕ
minute = 60000000000

pub record Environment : Type 0 where
  pub getenv : Text → Text
  pub atoi : Text → Option ℤ
  pub parse_duration : Text → Option ℤ

-- The variables' names.
pub record Names : Type 0 where
  pub workers : Text
  pub recheck : Text
  pub puid : Text
  pub pgid : Text
  pub backup_dir : Text
  pub backup_keep : Text
  pub backup_interval : Text
  -- "1h"
  pub one_hour : Text

pub record MountSettings : Type 0 where
  pub workers : ℤ
  pub recheck : ℤ
  pub uid : ℤ
  pub gid : ℤ

pub record BackupSettings : Type 0 where
  pub dir : Text
  pub keep : ℤ
  pub interval : ℤ

module _ (e : Environment) where
  -- `env`
  unfoldable pub env : Text → Text → Text
  env key default = let v = e.getenv key in if is_empty v then default else v

  abbrev pub number : Text → Option ℤ → Setting ℤ
  number key none = refused (not_a_number key)
  number key (some n) = set n

  -- `envInt`
  unfoldable pub env_int : Text → ℤ → Setting ℤ
  env_int key default =
      let v = e.getenv key in if is_empty v then set default else number key (e.atoi v)

  module _ (names : Names) where
    -- The user and the group to run as: those of PUID and PGID where the program starts as root.
    unfoldable pub mount_user : Bool → ℤ → ℤ → Setting (ℤ × ℤ)
    mount_user as_root uid gid =
        if as_root
        then (do
          u ← env_int names.puid (negsuc 0)
          g ← env_int names.pgid (negsuc 0)
          if not_positive u || not_positive g then refused root_user else set (u, g))
        else set (uid, gid)

    -- `runMount` up to where it loads the clips file.
    unfoldable pub mount_settings : Bool → ℤ → ℤ → Setting MountSettings
    unfolding mount_user
    mount_settings as_root uid gid = do
      workers ← env_int names.workers (pos 2)
      recheck ← env_int names.recheck (pos 15)
      (u, g) ← mount_user as_root uid gid
      if is_negative u || (is_negative g || (more_than u max_uint32 || more_than g max_uint32))
          then refused (invalid_user u g)
          else set (record { workers = workers; recheck = recheck; uid = u; gid = g })

    abbrev pub interval_of : Option ℤ → Setting ℤ
    interval_of none = refused bad_interval
    interval_of (some d) = if less_than d minute then refused bad_interval else set d

    -- `backupFromEnv`; `none` is the nil backup.
    unfoldable pub backup_settings : Setting (Option BackupSettings)
    unfolding env
    backup_settings =
        let dir = e.getenv names.backup_dir in
        if is_empty dir then set none else (do
          keep ← env_int names.backup_keep (pos 30)
          interval ←
              (if less_than keep 1
                then refused keep_too_small
                else interval_of (e.parse_duration (env names.backup_interval names.one_hour)))
          set (some (record { dir = dir; keep = keep; interval = interval })))

-- `New` of internal/engine/engine.go: two workers where none are asked for.
abbrev pub engine_workers : ℤ → ℕ
engine_workers (pos n) = if n == 0 then 2 else n
engine_workers (negsuc n) = 2

-- ===== src/Start/Tests.antt =====
-- Runs of the start of the program, and the theorems at concrete settings and users.
use docker_smartclips.Prelude.{ℕ, ◌≡◌, refl, true, false, Option, none, some, [], ◌∷◌}
use docker_smartclips.Config.Names.{Text, same_text}
use docker_smartclips.Start.Settings.{
  ℤ, pos, set, refused, root_user, Environment, Names, env_int, mount_user, mount_settings,
}
use docker_smartclips.Start.Checked.{WhenSet, IsRunnable, mount_settings-IsRunnable}
use docker_smartclips.Start.Users.{
  body_error, Credentials, with_ids, Kernel, drop, as_user, restore,
}
use docker_smartclips.Start.Switched.{is_restored, acting, as_user_lem}

abbrev names : Names
names = record {
  workers = 1 ∷ [];
  recheck = 2 ∷ [];
  puid = 3 ∷ [];
  pgid = 4 ∷ [];
  backup_dir = 5 ∷ [];
  backup_keep = 6 ∷ [];
  backup_interval = 7 ∷ [];
  one_hour = 8 ∷ [];
}

-- A number is the variable's one character, and a duration that many hours.
abbrev digits : Text → Option ℤ
digits (n ∷ []) = some (pos n)
digits _ = none

-- PUID, PGID and the directory are set.
abbrev values : Text → Text
values key =
    if_same (3 ∷ []) (1000 ∷ []) (if_same (4 ∷ []) (1000 ∷ []) (if_same (5 ∷ []) (9 ∷ []) []))
  where
    if_same : Text → Text → Text → Text
    if_same k v other = elim (same_text key k) [ true ↦ v | false ↦ other ]

abbrev environment : Environment
environment = record {
  getenv = values;
  atoi = digits;
  parse_duration = λ t. some (pos 3600000000000);
}

mount_settings-root :
    mount_settings environment names true (pos 0) (pos 0)
    ≡ set (record { workers = pos 2; recheck = pos 15; uid = pos 1000; gid = pos 1000 })
unfolding mount_settings mount_user env_int
mount_settings-root = refl

mount_user-refused :
    mount_user (record environment { getenv = λ key. [] }) names true (pos 0) (pos 0)
    ≡ refused root_user
unfolding mount_user env_int
mount_user-refused = refl

mount_settings-IsRunnable_example :
    WhenSet
      (IsRunnable environment names true)
      (mount_settings environment names true (pos 0) (pos 0))
mount_settings-IsRunnable_example = mount_settings-IsRunnable environment names true (pos 0) (pos 0)

-- A kernel in which every call succeeds.
abbrev willing : Kernel Credentials
willing = record {
  credentials = λ c. c;
  setgroups = λ gs c. (none, record c { groups = gs });
  setresgid = λ r e s c. (none, record c { group = with_ids r e s c.group });
  setresuid = λ r e s c. (none, record c { user = with_ids r e s c.user });
  setgroups_done = λ gs c h. refl;
  setresgid_done = λ r e s c h. refl;
  setresuid_done = λ r e s c h. refl;
  setresgid_failed = λ r e s c n h. absurd (cc);
  setresuid_failed = λ r e s c n h. absurd (cc);
}

abbrev root_user_credentials : Credentials
root_user_credentials = record {
  user = record { real = 0; effective = 0; saved = 0 };
  group = record { real = 0; effective = 0; saved = 0 };
  groups = 0 ∷ [];
}

drop-succeeds : (drop willing 1000 1000 root_user_credentials).0 ≡ none
unfolding drop
drop-succeeds = refl

-- The body does nothing and fails.
abbrev failing_body : Credentials → Option ℕ × Credentials
failing_body c = (some 5, c)

as_user-restored :
    is_restored (as_user willing 1000 1000 failing_body root_user_credentials).0 ≡ true
unfolding as_user restore
as_user-restored = refl

as_user_lem_example :
    (d : Credentials) × (willing.credentials d
      ≡ acting willing 1000 1000 (willing.credentials root_user_credentials))
    × (as_user willing 1000 1000 failing_body root_user_credentials
        ≡ restore willing (failing_body d).0 (failing_body d).1)
    × ((as_user willing 1000 1000 failing_body root_user_credentials).0
        ≡ body_error willing (failing_body d).0)
    × (willing.credentials (as_user willing 1000 1000 failing_body root_user_credentials).1
        ≡ willing.credentials root_user_credentials)
as_user_lem_example =
    as_user_lem willing 1000 1000 failing_body root_user_credentials refl refl (λ d h. refl)
      as_user-restored

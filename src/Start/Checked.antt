-- ===== src/Start/Checked.antt =====
-- What the settings of cmd/smartclips/main.go that are accepted guarantee.
use docker_smartclips.Prelude.{
  ℕ, ◌≤◌, ◌<◌, ◌≡◌, refl, inl, inr, arith, Bool, true, false, ◌||◌, Option, none, some,
  if◌then◌else◌, Bool-cases, ltb→ge,
}
use docker_smartclips.Config.Names.{is_empty}
use docker_smartclips.Start.Settings.{
  ℤ, pos, negsuc, not_positive, is_negative, less_than, more_than, root_user, invalid_user,
  keep_too_small, Setting, set, refused, ◌>>=◌, max_uint32, minute, Environment, Names,
  MountSettings, BackupSettings, env, env_int, mount_user, mount_settings, interval_of,
  backup_settings, engine_workers,
}

-- What is accepted has the property.
abbrev pub WhenSet : {A : Type 0} → (A → Type 0) → Setting A → Type 0
WhenSet P (set a) = P a
WhenSet P (refused e) = Unit

WhenSet-bind :
    {A B : Type 0} (P : A → Type 0) (Q : B → Type 0) (m : Setting A) (f : A → Setting B)
    → WhenSet P m
    → ((a : A) → P a → WhenSet Q (f a))
    → WhenSet Q (m >>= f)
WhenSet-bind P Q (set a) f h k = k a h
WhenSet-bind P Q (refused e) f h k = tt

trivially : {A : Type 0} (m : Setting A) → WhenSet (λ _. Unit) m
trivially (set a) = tt
trivially (refused e) = tt

-- The number is `i`, and lies in the bounds.
abbrev pub Between : ℕ → ℕ → ℤ → Type 0
Between low high i = (n : ℕ) × (i ≡ pos n) × (low ≤ n) × (n ≤ high)

-- At least `low`.
abbrev pub AtLeast : ℕ → ℤ → Type 0
AtLeast low i = (n : ℕ) × (i ≡ pos n) × (low ≤ n)

-- As root, neither the user nor the group is root's.
abbrev IsUser : Bool → ℤ × ℤ → Type 0
IsUser as_root (u, g) =
    (as_root ≡ true → not_positive u ≡ false) × (as_root ≡ true → not_positive g ≡ false)

module _ (e : Environment) (names : Names) where
  mount_user-IsUser :
      (as_root : Bool) (uid gid : ℤ) → WhenSet (IsUser as_root) (mount_user e names as_root uid gid)
  unfolding mount_user
  mount_user-IsUser false uid gid = (λ h. absurd (cc), λ h. absurd (cc))
  mount_user-IsUser true uid gid =
      WhenSet-bind (λ _. Unit) (IsUser true) (env_int e names.puid (negsuc 0)) _ (trivially _)
        (λ u h.
          WhenSet-bind (λ _. Unit) (IsUser true) (env_int e names.pgid (negsuc 0)) _ (trivially _)
            (λ g k. checked u g))
    where
      checked :
          (u g : ℤ)
          → WhenSet
              (IsUser true)
              (if not_positive u || not_positive g then refused root_user else set (u, g))
      checked u g = elim (Bool-cases (not_positive u)) [
        | inl t ↦ rw t tt
        | inr f ↦ elim (Bool-cases (not_positive g)) [
          | inl t ↦ rw (f, t) tt
          | inr k ↦ rw (f, k) (λ h. f, λ h. k)
        ]
      ]

  -- The user and the group fit in 32 bits, and as root neither is root's.
  pub record IsRunnable (as_root : Bool) (s : MountSettings) : Type 0 where
    pub uid : Between 0 max_uint32 s.uid
    pub gid : Between 0 max_uint32 s.gid
    pub not_root : as_root ≡ true → AtLeast 1 s.uid × AtLeast 1 s.gid

  in_range :
      (i : ℤ) → is_negative i ≡ false → more_than i max_uint32 ≡ false → Between 0 max_uint32 i
  in_range (pos n) a b = (n, refl, omega arith, ltb→ge max_uint32 n b)
  in_range (negsuc n) a b = absurd (cc)

  AtLeast-one : (i : ℤ) → not_positive i ≡ false → AtLeast 1 i
  AtLeast-one (pos n) a = (n, refl, ground arith)
  AtLeast-one (negsuc n) a = absurd (cc)

  checked_user :
      (as_root : Bool) (workers recheck u g : ℤ)
      → IsUser as_root (u, g)
      → WhenSet (IsRunnable as_root) (
          if is_negative u || (is_negative g || (more_than u max_uint32 || more_than g max_uint32))
          then refused (invalid_user u g)
          else set (record { workers = workers; recheck = recheck; uid = u; gid = g }))
  checked_user as_root workers recheck u g h =
      elim (Bool-cases
        (is_negative u || (is_negative g || (more_than u max_uint32 || more_than g max_uint32)))) [
          | inl t ↦ rw t tt
          | inr f ↦ rw f (record {
            uid = in_range u (ground arith) (ground arith);
            gid = in_range g (ground arith) (ground arith);
            not_root = λ r. (AtLeast-one u (h.0 r), AtLeast-one g (h.1 r));
          })
        ]

  -- The settings that `runMount` accepts name a user and a group that fit in 32 bits, so that the
  -- conversions to uint32 keep them, and where it starts as root neither is root's.
  pub mount_settings-IsRunnable :
      (as_root : Bool) (uid gid : ℤ)
      → WhenSet (IsRunnable as_root) (mount_settings e names as_root uid gid)
  unfolding mount_settings
  mount_settings-IsRunnable as_root uid gid =
      WhenSet-bind (λ _. Unit) (IsRunnable as_root) (env_int e names.workers (pos 2)) _
        (trivially _)
        (λ workers h.
          WhenSet-bind (λ _. Unit) (IsRunnable as_root) (env_int e names.recheck (pos 15)) _
            (trivially _)
            (λ recheck k.
              WhenSet-bind (IsUser as_root) (IsRunnable as_root)
                (mount_user e names as_root uid gid) _ (mount_user-IsUser as_root uid gid)
                (λ (u, g) i. checked_user as_root workers recheck u g i)))

  -- One copy is kept at least, and a minute lies between two backups.
  abbrev pub IsSchedule : Option BackupSettings → Type 0
  IsSchedule none = Unit
  IsSchedule (some b) = AtLeast 1 b.keep × AtLeast minute b.interval

  AtLeast-less_than : (n : ℕ) (i : ℤ) → less_than i n ≡ false → AtLeast n i
  AtLeast-less_than n (pos m) h = (m, refl, ltb→ge m n h)
  AtLeast-less_than n (negsuc m) h = absurd (cc)

  interval_lem : (o : Option ℤ) → WhenSet (AtLeast minute) (interval_of e names o)
  interval_lem none = tt
  interval_lem (some d) = elim (Bool-cases (less_than d minute)) [
    | inl t ↦ rw t tt
    | inr f ↦ rw f (AtLeast-less_than minute d f)
  ]

  checked_interval :
      (keep : ℤ)
      → WhenSet
          (λ i. AtLeast 1 keep × AtLeast minute i)
          (if less_than keep 1
            then refused keep_too_small
            else interval_of e names
                (e.parse_duration (env e names.backup_interval names.one_hour)))
  checked_interval keep = elim (Bool-cases (less_than keep 1)) [
    | inl t ↦ rw t tt
    | inr f ↦ rw f (
        paired (interval_of e names (e.parse_duration (env e names.backup_interval names.one_hour)))
          (AtLeast-less_than 1 keep f)
          (interval_lem (e.parse_duration (env e names.backup_interval names.one_hour))))
  ]
    where
      paired :
          (m : Setting ℤ)
          → AtLeast 1 keep
          → WhenSet (AtLeast minute) m
          → WhenSet (λ i. AtLeast 1 keep × AtLeast minute i) m
      paired (set i) a b = (a, b)
      paired (refused x) a b = tt

  -- A backup that is configured keeps one copy at least and runs once a minute at most.
  pub backup_settings-IsSchedule : WhenSet IsSchedule (backup_settings e names)
  unfolding backup_settings
  backup_settings-IsSchedule = elim (Bool-cases (is_empty (e.getenv names.backup_dir))) [
    | inl t ↦ rw (t, backup_settings) tt
    | inr f ↦
        rw (f, backup_settings)
          (WhenSet-bind (λ _. Unit) IsSchedule (env_int e names.backup_keep (pos 30)) _
            (trivially _)
            (λ keep h.
              WhenSet-bind (λ i. AtLeast 1 keep × AtLeast minute i) IsSchedule _ _
                (checked_interval keep) (λ i k. k)))
  ]

-- The engine always has a worker.
pub engine_workers_positive : (i : ℤ) → 0 < engine_workers i
engine_workers_positive (pos n) = ground arith
engine_workers_positive (negsuc n) = omega arith

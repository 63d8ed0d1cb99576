-- ===== src/Start/Users.antt =====
-- `Drop`, `Elevate` and `As` of internal/privs/privs.go. The system calls are given, with what Linux
-- documents of them: a call that succeeds sets the IDs that it names, one that fails sets none.
use docker_smartclips.Prelude.{ℕ, ◌≡◌, Option, none, some, List, [], ◌∷◌}

-- The real, effective and saved ID.
pub record Ids : Type 0 where
  pub real : ℕ
  pub effective : ℕ
  pub saved : ℕ

pub record Credentials : Type 0 where
  pub user : Ids
  pub group : Ids
  pub groups : List ℕ

-- An argument of -1 is `none`: that ID stays.
abbrev pub chosen : Option ℕ → ℕ → ℕ
chosen none old = old
chosen (some n) old = n

abbrev pub with_ids : Option ℕ → Option ℕ → Option ℕ → Ids → Ids
with_ids r e s i = record {
  real = chosen r i.real;
  effective = chosen e i.effective;
  saved = chosen s i.saved;
}

-- The process `C` and its system calls, which answer the error number, if there is one.
pub record Kernel (C : Type 0) : Type 0 where
  pub credentials : C → Credentials
  pub setgroups : List ℕ → C → Option ℕ × C
  pub setresgid : Option ℕ → Option ℕ → Option ℕ → C → Option ℕ × C
  pub setresuid : Option ℕ → Option ℕ → Option ℕ → C → Option ℕ × C
  pub setgroups_done :
      (gs : List ℕ) (c : C)
      → (setgroups gs c).0 ≡ none
      → credentials (setgroups gs c).1 ≡ record (credentials c) { groups = gs }
  pub setresgid_done :
      (r e s : Option ℕ) (c : C)
      → (setresgid r e s c).0 ≡ none
      → credentials (setresgid r e s c).1
        ≡ record (credentials c) { group = with_ids r e s (credentials c).group }
  pub setresuid_done :
      (r e s : Option ℕ) (c : C)
      → (setresuid r e s c).0 ≡ none
      → credentials (setresuid r e s c).1
        ≡ record (credentials c) { user = with_ids r e s (credentials c).user }
  pub setresgid_failed :
      (r e s : Option ℕ) (c : C) (n : ℕ)
      → (setresgid r e s c).0 ≡ some n
      → credentials (setresgid r e s c).1 ≡ credentials c
  pub setresuid_failed :
      (r e s : Option ℕ) (c : C) (n : ℕ)
      → (setresuid r e s c).0 ≡ some n
      → credentials (setresuid r e s c).1 ≡ credentials c

-- `fn` failed, or one of the calls.
pub data SwitchError : Type 0 where
  body_failed groups_failed group_failed user_failed restore_user_failed restore_group_failed :
      ℕ → SwitchError

module _ {C : Type 0} (k : Kernel C) where
  -- The next call where the last one succeeded, or the error.
  abbrev pub after :
      Option ℕ × C → (ℕ → SwitchError) → (C → Option SwitchError × C) → Option SwitchError × C
  after (none, c) wrap next = next c
  after (some n, c) wrap next = (some (wrap n), c)

  -- `Drop`
  unfoldable pub drop : ℕ → ℕ → C → Option SwitchError × C
  drop uid gid c = after (k.setgroups (gid ∷ []) c) groups_failed (λ c1.
      after (k.setresgid (some gid) (some gid) (some gid) c1) group_failed (λ c2.
        after (k.setresuid (some uid) (some uid) (some 0) c2) user_failed (λ c3. (none, c3))))

  -- `Elevate`
  unfoldable pub elevate : C → Option ℕ × C
  elevate c = k.setresuid none (some 0) none c

  abbrev pub body_error : Option ℕ → Option SwitchError
  body_error none = none
  body_error (some n) = some (body_failed n)

  -- Both IDs are restored, or the error that comes in between.
  unfoldable pub restore : Option ℕ → C → Option SwitchError × C
  restore err c = after (k.setresuid none (some 0) none c) restore_user_failed (λ c1.
      after (k.setresgid none (some 0) none c1) restore_group_failed (λ c2. (body_error err, c2)))

  -- Where the user cannot be set, the group is restored.
  abbrev pub switched : (C → Option ℕ × C) → Option ℕ × C → Option SwitchError × C
  switched fn (some n, c) = (some (user_failed n), (k.setresgid none (some 0) none c).1)
  switched fn (none, c) = let (err, c1) = fn c in restore err c1

  -- `As`
  unfoldable pub as_user : ℕ → ℕ → (C → Option ℕ × C) → C → Option SwitchError × C
  as_user uid gid fn c =
      after (k.setresgid none (some gid) none c) group_failed
        (λ c1. switched fn (k.setresuid none (some uid) none c1))

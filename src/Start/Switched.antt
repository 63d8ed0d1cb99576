-- ===== src/Start/Switched.antt =====
-- Which user the process of internal/privs/privs.go runs as, after `Drop` and around the body of `As`.
use docker_smartclips.Prelude.{
  ℕ, ◌≡◌, refl, sym, ap, ap₂, ◌∙◌, Bool, true, false, Option, none, some, [], ◌∷◌,
}
use docker_smartclips.Start.Users.{
  Credentials, with_ids, Kernel, SwitchError, body_failed, groups_failed, group_failed, user_failed,
  restore_user_failed, restore_group_failed, after, body_error, drop, restore, switched, as_user,
}

-- No error, or that of the body.
abbrev pub is_restored : Option SwitchError → Bool
is_restored none = true
is_restored (some (body_failed n)) = true
is_restored _ = false

abbrev pub is_none : Option SwitchError → Bool
is_none none = true
is_none (some e) = false

module _ {C : Type 0} (k : Kernel C) where
  abbrev creds : C → Credentials
  creds = k.credentials

  -- The credentials after `Drop`: root stays the saved user only.
  abbrev pub dropped : ℕ → ℕ → Credentials
  dropped uid gid = record {
    user = record { real = uid; effective = uid; saved = 0 };
    group = record { real = gid; effective = gid; saved = gid };
    groups = gid ∷ [];
  }

  after_none :
      (r : Option ℕ × C) (wrap : ℕ → SwitchError) (next : C → Option SwitchError × C)
      → (after k r wrap next).0 ≡ none
      → (r.0 ≡ none) × (after k r wrap next ≡ next r.1)
  after_none (none, c) wrap next h = (refl, refl)
  after_none (some n, c) wrap next h = absurd (cc)

  -- The calls of `Drop`, where all succeed.
  pub drop_lem :
      (uid gid : ℕ) (c : C)
      → (drop k uid gid c).0 ≡ none
      → creds (drop k uid gid c).1 ≡ dropped uid gid
  unfolding drop
  drop_lem uid gid c h =
      let (d1, e1) = after_none r1 groups_failed _ h in
      let (d2, e2) = after_none r2 group_failed _ (sym (ap (λ x. x.0) e1) ∙ h) in
      let (d3, e3) =
        after_none r3 user_failed _ (sym (ap (λ x. x.0) e2) ∙ sym (ap (λ x. x.0) e1) ∙ h) in
      let a = k.setgroups_done (gid ∷ []) c d1 in
      let b = k.setresgid_done (some gid) (some gid) (some gid) r1.1 d2 in
      let d = k.setresuid_done (some uid) (some uid) (some 0) r2.1 d3 in
      ap (λ x. creds x.1) (e1 ∙ e2 ∙ e3)
      ∙ d
      ∙ ap (λ (x : Credentials). record x { user = with_ids (some uid) (some uid) (some 0) x.user })
          (b
            ∙ ap
                (λ (x : Credentials). record x {
                  group = with_ids (some gid) (some gid) (some gid) x.group;
                })
                a)
    where
      r1 : Option ℕ × C
      r1 = k.setgroups (gid ∷ []) c

      r2 : Option ℕ × C
      r2 = k.setresgid (some gid) (some gid) (some gid) r1.1

      r3 : Option ℕ × C
      r3 = k.setresuid (some uid) (some uid) (some 0) r2.1

  after_restored :
      (r : Option ℕ × C) (wrap : ℕ → SwitchError) (next : C → Option SwitchError × C)
      → ((n : ℕ) → is_restored (some (wrap n)) ≡ false)
      → is_restored (after k r wrap next).0 ≡ true
      → (r.0 ≡ none) × (after k r wrap next ≡ next r.1)
  after_restored (none, c) wrap next f h = (refl, refl)
  after_restored (some n, c) wrap next f h = absurd (let x = f n in cc)

  -- Both effective IDs are root's again.
  abbrev back : Credentials → Credentials
  back x = record x {
    user = with_ids none (some 0) none x.user;
    group = with_ids none (some 0) none x.group;
  }

  restore_lem :
      (err : Option ℕ) (c : C)
      → is_restored (restore k err c).0 ≡ true
      → creds (restore k err c).1 ≡ back (creds c)
  unfolding restore
  restore_lem err c h =
      let (d1, e1) = after_restored r1 restore_user_failed _ (λ n. refl) h in
      let (d2, e2) =
        after_restored r2 restore_group_failed _ (λ n. refl)
          (sym (ap (λ x. is_restored x.0) e1) ∙ h) in
      ap (λ x. creds x.1) (e1 ∙ e2)
      ∙ k.setresgid_done none (some 0) none r1.1 d2
      ∙ ap (λ (x : Credentials). record x { group = with_ids none (some 0) none x.group })
          (k.setresuid_done none (some 0) none c d1)
    where
      r1 : Option ℕ × C
      r1 = k.setresuid none (some 0) none c

      r2 : Option ℕ × C
      r2 = k.setresgid none (some 0) none r1.1

  -- The credentials while the body of `As` runs.
  abbrev pub acting : ℕ → ℕ → Credentials → Credentials
  acting uid gid x = record x {
    user = with_ids none (some uid) none x.user;
    group = with_ids none (some gid) none x.group;
  }

  switched_restored :
      (fn : C → Option ℕ × C) (r : Option ℕ × C)
      → is_restored (switched k fn r).0 ≡ true
      → (r.0 ≡ none)
        × (switched k fn r ≡ restore k (fn r.1).0 (fn r.1).1)
        × (is_restored (restore k (fn r.1).0 (fn r.1).1).0 ≡ true)
  switched_restored fn (some n, c) h = absurd (cc)
  switched_restored fn (none, c) h = (refl, refl, h)

  -- A restoration that does not fail keeps the error of the body.
  restore_error :
      (err : Option ℕ) (c : C)
      → is_restored (restore k err c).0 ≡ true
      → (restore k err c).0 ≡ body_error k err
  unfolding restore
  restore_error err c h =
      let (d1, e1) = after_restored r1 restore_user_failed _ (λ n. refl) h in
      let (d2, e2) =
        after_restored r2 restore_group_failed _ (λ n. refl)
          (sym (ap (λ x. is_restored x.0) e1) ∙ h) in
      ap (λ x. x.0) (e1 ∙ e2)
    where
      r1 : Option ℕ × C
      r1 = k.setresuid none (some 0) none c

      r2 : Option ℕ × C
      r2 = k.setresgid none (some 0) none r1.1

  back-acting :
      (uid gid : ℕ) (x : Credentials)
      → x.user.effective ≡ 0
      → x.group.effective ≡ 0
      → back (acting uid gid x) ≡ x
  back-acting uid gid x a b = ap₂ (λ (u g : ℕ). with_effective x u g) (sym a) (sym b)
    where
      with_effective : Credentials → ℕ → ℕ → Credentials
      with_effective x u g = record x {
        user = with_ids none (some u) none x.user;
        group = with_ids none (some g) none x.group;
      }

  module _ (uid gid : ℕ) (fn : C → Option ℕ × C) (c : C) where
    -- `As`, from root, where neither a switch nor a restoration fails: the body is run from a state that
    -- has the user and the group as its effective ones, what follows is the restoration from the state
    -- the body leaves, the error is that of the body, and the credentials are those from before, if
    -- the body itself does not change those it is given.
    pub as_user_lem :
        (creds c).user.effective ≡ 0
        → (creds c).group.effective ≡ 0
        → ((d : C) → creds d ≡ acting uid gid (creds c) → creds (fn d).1 ≡ creds d)
        → is_restored (as_user k uid gid fn c).0 ≡ true
        → (d : C) × (creds d ≡ acting uid gid (creds c))
          × (as_user k uid gid fn c ≡ restore k (fn d).0 (fn d).1)
          × ((as_user k uid gid fn c).0 ≡ body_error k (fn d).0)
          × (creds (as_user k uid gid fn c).1 ≡ creds c)
    unfolding as_user
    as_user_lem a b body h =
        let (d1, e1) = after_restored r1 group_failed _ (λ n. refl) h in
        let (d2, e2, h2) = switched_restored fn r2 (sym (ap (λ x. is_restored x.0) e1) ∙ h) in
        let running =
          k.setresuid_done none (some uid) none r1.1 d2
          ∙ ap (λ (x : Credentials). record x { user = with_ids none (some uid) none x.user })
              (k.setresgid_done none (some gid) none c d1) in
        (
          r2.1,
          running,
          e1 ∙ e2,
          ap (λ x. x.0) (e1 ∙ e2) ∙ restore_error (fn r2.1).0 (fn r2.1).1 h2,
          ap (λ x. creds x.1) (e1 ∙ e2)
              ∙ restore_lem (fn r2.1).0 (fn r2.1).1 h2
              ∙ ap back (body r2.1 running ∙ running)
              ∙ back-acting uid gid (creds c) a b,
        )
      where
        r1 : Option ℕ × C
        r1 = k.setresgid none (some gid) none c

        r2 : Option ℕ × C
        r2 = k.setresuid none (some uid) none r1.1

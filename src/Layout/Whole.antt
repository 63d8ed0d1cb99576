-- ===== src/Layout/Whole.antt =====
-- The folders that `WriteFileAtomic` of internal/layout/layout.go passes through: the target is the old file or
-- the whole new one in each.
use docker_smartclips.Prelude.{
  ℕ, ◌≡◌, ◌⊎◌, refl, ◌∙◌, inl, inr, Bool, true, false, some, List, [], All, take, if◌then◌else◌,
}
use docker_smartclips.Config.Names.{Text}
use docker_smartclips.Dict.{
  Differs, lookup, insert, erase, lookup-insert_self, lookup-insert_ne, lookup-erase_ne,
}
use docker_smartclips.Layout.Atomic.{
  Saved, on_disk, in_cache, flushed, close_file, Folder, Calls, Trace, go_on, fails, moved, cleanup,
  rename_over, finish_write, write_data, write_file_atomic,
}

module _ (c : Calls) (path : Text) (content : List ℕ) (start : Folder) where
  -- The folder holds the old content or the whole new one, and every other file but the temporary one
  -- is as before.
  pub record IsWhole (f : Folder) : Type 0 where
    pub target : (lookup path f ≡ lookup path start) ⊎ (lookup path f ≡ some (on_disk content))
    pub others : (q : Text) → Differs q path → Differs q c.name → lookup q f ≡ lookup q start

  module _ (other : Differs path c.name) where
    -- A state of the run: all folders so far are whole, and the target is new only after a success.
    pub record IsRun (t : Trace) : Type 0 where
      pub now : IsWhole t.now
      pub before : All IsWhole t.before
      pub failed : t.success ≡ false → lookup path t.now ≡ lookup path start

    -- The temporary file may change.
    temp_whole : (f : Folder) (x : Saved) → IsWhole f → IsWhole (insert c.name x f)
    temp_whole f x h = record {
      target = elim h.target [
        | inl e ↦ inl (lookup-insert_ne path c.name x f other ∙ e)
        | inr e ↦ inr (lookup-insert_ne path c.name x f other ∙ e)
      ];
      others = λ q a b. lookup-insert_ne q c.name x f b ∙ h.others q a b;
    }

    erase_whole : (f : Folder) → IsWhole f → IsWhole (erase c.name f)
    erase_whole f h = record {
      target = elim h.target [
        | inl e ↦ inl (lookup-erase_ne path c.name f other ∙ e)
        | inr e ↦ inr (lookup-erase_ne path c.name f other ∙ e)
      ];
      others = λ q a b. lookup-erase_ne q c.name f b ∙ h.others q a b;
    }

    -- Nothing is new yet.
    record IsUntouched (t : Trace) : Type 0 where
      run : IsRun t
      old : lookup path t.now ≡ lookup path start

    -- The end of a run: a successful one leaves the new content.
    pub record IsEnded (t : Trace) : Type 0 where
      pub run : IsRun t
      pub done : t.success ≡ true → lookup path t.now ≡ some (on_disk content)

    fails-IsEnded : (t : Trace) → IsUntouched t → IsEnded (fails t)
    fails-IsEnded t h = record {
      run = record { now = h.run.now; before = h.run.before; failed = λ e. h.old };
      done = λ e. absurd (cc);
    }

    write-IsUntouched :
        (t : Trace) (x : Saved)
        → t.success ≡ true
        → IsUntouched t
        → IsUntouched (go_on (insert c.name x t.now) t)
    write-IsUntouched t x s h = record {
      run = record {
        now = temp_whole t.now x h.run.now;
        before = (h.run.now, h.run.before);
        failed = λ e. lookup-insert_ne path c.name x t.now other ∙ h.old;
      };
      old = lookup-insert_ne path c.name x t.now other ∙ h.old;
    }

    -- The folder after the rename.
    moved_whole :
        (f : Folder)
        → lookup c.name f ≡ some (on_disk content)
        → IsWhole f
        → IsWhole (moved c.name path (lookup c.name f) f)
    moved_whole f e h = rw e (record {
      target = inr (
          lookup-erase_ne path c.name (insert path (on_disk content) f) other
          ∙ lookup-insert_self path (on_disk content) f);
      others = λ q a b.
          lookup-erase_ne q c.name (insert path (on_disk content) f) b
          ∙ lookup-insert_ne q path (on_disk content) f a
          ∙ h.others q a b;
    })

    either-IsEnded : (b : Bool) (t u : Trace) → IsEnded t → IsEnded u → IsEnded (if b then t else u)
    either-IsEnded true t u h k = h
    either-IsEnded false t u h k = k

    moved_target :
        (f : Folder)
        → lookup c.name f ≡ some (on_disk content)
        → lookup path (moved c.name path (lookup c.name f) f) ≡ some (on_disk content)
    moved_target f e = rw e (
        lookup-erase_ne path c.name (insert path (on_disk content) f) other
        ∙ lookup-insert_self path (on_disk content) f)

    rename-IsEnded :
        (t : Trace)
        → t.success ≡ true
        → lookup c.name t.now ≡ some (on_disk content)
        → IsUntouched t
        → IsEnded (rename_over c path t)
    rename-IsEnded t s e h =
        either-IsEnded c.rename _ (fails t)
          (record {
            run = record {
              now = moved_whole t.now e h.run.now;
              before = (h.run.now, h.run.before);
              failed = λ x. absurd (cc);
            };
            done = λ x. moved_target t.now e;
          })
          (fails-IsEnded t h)

    close_file-IsEnded :
        (t : Trace)
        → t.success ≡ true
        → lookup c.name t.now ≡ some (on_disk content)
        → IsUntouched t
        → IsEnded (close_file c path t)
    close_file-IsEnded t s e h =
        either-IsEnded c.close _ (fails t) (rename-IsEnded t s e h) (fails-IsEnded t h)

    -- Behind `Sync` the temporary file is on the disk.
    flushed-IsEnded :
        (t : Trace)
        → t.success ≡ true
        → lookup c.name t.now ≡ some (in_cache content)
        → IsUntouched t
        → IsEnded (close_file c path (go_on (flushed c.name (lookup c.name t.now) t.now) t))
    flushed-IsEnded t s e h = rw e (
        close_file-IsEnded (go_on (insert c.name (on_disk content) t.now) t) s
          (lookup-insert_self c.name (on_disk content) t.now)
          (write-IsUntouched t (on_disk content) s h))

    finish_write-IsEnded :
        (t : Trace)
        → t.success ≡ true
        → lookup c.name t.now ≡ some (in_cache content)
        → IsUntouched t
        → IsEnded (finish_write c path t)
    finish_write-IsEnded t s e h =
        let failing = fails-IsEnded t h in
        either-IsEnded c.chmod _ (fails t)
          (either-IsEnded c.sync _ (fails t) (flushed-IsEnded t s e h) failing) failing

    write_data-IsEnded :
        (t : Trace) → t.success ≡ true → IsUntouched t → IsEnded (write_data c path content t)
    write_data-IsEnded t s h =
        either-IsEnded c.write _ _
          (finish_write-IsEnded (go_on (insert c.name (in_cache content) t.now) t) s
            (lookup-insert_self c.name (in_cache content) t.now)
            (write-IsUntouched t (in_cache content) s h))
          (fails-IsEnded (go_on (insert c.name (in_cache (take c.written content)) t.now) t)
            (write-IsUntouched t (in_cache (take c.written content)) s h))

    cleanup-IsEnded : (t : Trace) → IsEnded t → IsEnded (cleanup c t)
    cleanup-IsEnded t h =
        either-IsEnded c.remove _ t
          (record {
            run = record {
              now = erase_whole t.now h.run.now;
              before = (h.run.now, h.run.before);
              failed = λ e. lookup-erase_ne path c.name t.now other ∙ h.run.failed e;
            };
            done = λ e. lookup-erase_ne path c.name t.now other ∙ h.done e;
          })
          h

    start-IsUntouched : IsUntouched (record { success = true; now = start; before = [] })
    start-IsUntouched = record {
      run = record {
        now = record { target = inl refl; others = λ q a b. refl };
        before = tt;
        failed = λ e. refl;
      };
      old = refl;
    }

    create-IsUntouched : IsUntouched (
        go_on
          (insert c.name (in_cache []) start)
          (record { success = true; now = start; before = [] }))
    create-IsUntouched = write-IsUntouched _ (in_cache []) refl start-IsUntouched

    pub write_file_atomic-IsEnded : IsEnded (write_file_atomic c path content start)
    unfolding write_file_atomic
    write_file_atomic-IsEnded =
        either-IsEnded c.create _ _
          (cleanup-IsEnded _ (write_data-IsEnded _ refl create-IsUntouched))
          (fails-IsEnded _ start-IsUntouched)

-- ===== src/Layout/Crash.antt =====
-- Whatever happens to `WriteFileAtomic` of internal/layout/layout.go, a reader finds the old content or the
-- new one, after a crash too.
use docker_smartclips.Prelude.{
  ℕ, ◌≡◌, ◌⊎◌, refl, inl, inr, true, false, Option, none, some, List, [], ◌∷◌, All,
}
use docker_smartclips.Config.Names.{Text}
use docker_smartclips.Dict.{Differs, lookup}
use docker_smartclips.Layout.Atomic.{Saved, on_disk, Folder, Calls, write_file_atomic}
use docker_smartclips.Layout.Whole.{IsWhole, write_file_atomic-IsEnded}

-- What a crash leaves of a file: one that is synced is as it was, and no other name comes up.
abbrev pub Survives : Option Saved → Option Saved → Type 0
Survives none o = o ≡ none
Survives (some x) o = x.synced ≡ true → o ≡ some x

abbrev pub IsAfterCrash : Folder → Folder → Type 0
IsAfterCrash f g = (q : Text) → Survives (lookup q f) (lookup q g)

-- The file is on the disk, if there is one.
abbrev pub IsDurable : Option Saved → Type 0
IsDurable none = Unit
IsDurable (some x) = x.synced ≡ true

module _ (c : Calls) (path : Text) (content : List ℕ) (start : Folder) where
  -- So it is after a crash.
  pub record IsSafe (f : Folder) : Type 0 where
    pub whole : IsWhole c path content start f
    pub survives :
        (g : Folder)
        → IsAfterCrash f g
        → (lookup path g ≡ lookup path start) ⊎ (lookup path g ≡ some (on_disk content))

  module _ (other : Differs path c.name) (durable : IsDurable (lookup path start)) where
    -- A crash in a folder that is whole leaves the target whole.
    IsWhole-survives :
        (f g : Folder)
        → IsWhole c path content start f
        → IsAfterCrash f g
        → (lookup path g ≡ lookup path start) ⊎ (lookup path g ≡ some (on_disk content))
    IsWhole-survives f g h crash = elim h.target [
      | inl e ↦ inl (kept (lookup path start) durable (rw e at (crash path)))
      | inr e ↦ inr ((rw e at (crash path)) refl)
    ]
      where
        kept : (o : Option Saved) → IsDurable o → Survives o (lookup path g) → lookup path g ≡ o
        kept none d h = h
        kept (some x) d h = h d

    IsWhole-IsSafe : (f : Folder) → IsWhole c path content start f → IsSafe f
    IsWhole-IsSafe f h = record { whole = h; survives = λ g. IsWhole-survives f g h }

    All-IsSafe : (fs : List Folder) → All (IsWhole c path content start) fs → All IsSafe fs
    All-IsSafe [] h = tt
    All-IsSafe (f ∷ fs) h = (IsWhole-IsSafe f h.0, All-IsSafe fs h.1)

    -- Where the old file, if there is one, is on the disk: in every folder that `WriteFileAtomic` passes
    -- through, and after a crash in any of them, in which a file that is not synced may get lost or get
    -- any content, the file has its old content or the whole new one; before a crash every other
    -- file but the temporary one is as it was. Where the call fails the old content stays, and where
    -- it succeeds the new content stands and is on the disk, whichever of the calls fail and however
    -- much of the data a failing write has written.
    pub write_file_atomic-IsWhole :
        let t = write_file_atomic c path content start in
        IsSafe t.now
        × All IsSafe t.before
        × (t.success ≡ false → lookup path t.now ≡ lookup path start)
        × (t.success ≡ true → lookup path t.now ≡ some (on_disk content))
    write_file_atomic-IsWhole =
        let e = write_file_atomic-IsEnded c path content start other in
        (
          IsWhole-IsSafe (write_file_atomic c path content start).now e.run.now,
          All-IsSafe (write_file_atomic c path content start).before e.run.before,
          e.run.failed,
          e.done,
        )

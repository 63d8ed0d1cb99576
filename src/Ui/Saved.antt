-- ===== src/Ui/Saved.antt =====
-- What saving the clips by internal/ui/server.go guarantees.
use docker_smartclips.Prelude.{
  ℕ, ◌≡◌, ◌≢◌, refl, sym, ap, subst, ◌∙◌, inl, inr, Bool, true, false, Option, none, some, List, [],
  ◌∷◌, All, Bool-cases, Option-cases,
}
use docker_smartclips.Floats.{Floats}
use docker_smartclips.Config.Names.{Text, same_text}
use docker_smartclips.Config.Clip.{Clip}
use docker_smartclips.Config.Validate.{Resolved, Problem, validate}
use docker_smartclips.Config.Accepted.{IsValid, lower_paths, validate-IsValid}
use docker_smartclips.Config.Stored.{
  Codec, Disk, LoadedFile, FileCalls, parse, with_clips, with_stat, load, encode, save,
}
use docker_smartclips.Dict.{same_text_eq}
use docker_smartclips.Dict.Distinct.{Distinct}
use docker_smartclips.Ui.Clips.{
  PutRequest, Response, saved, bad_request, invalid, server_error, conflict, answer_saved,
  save_clips, when_valid, put_clips,
}

-- The bytes that `Version` is taken of; a missing file counts as an empty one.
abbrev pub content_of : Disk → List ℕ
content_of none = []
content_of (some b) = b

module _ (codec : Codec) where
  load_version :
      (calls : FileCalls) (disk : Disk) (f : LoadedFile)
      → load codec calls disk ≡ some f
      → f.version ≡ codec.hash (content_of disk)
  unfolding load
  load_version calls none f e =
      let same : (record { clips = []; mod_time = none; version = codec.hash [] }) ≡ f = cc in
      sym (ap (λ (x : LoadedFile). x.version) same)
  load_version calls (some b) f e = elim (Bool-cases calls.can_read) [
    | inr n ↦ absurd (let x = rw n at e in cc)
    | inl t ↦ at_stat calls.stat (rw t at e)
  ]
    where
      at_clips :
          (t : Option ℕ) (o : Option (List Clip))
          → with_clips codec t b o ≡ some f
          → f.version ≡ codec.hash b
      at_clips t none h = absurd (cc)
      at_clips t (some clips) h =
          let same : (record { clips = clips; mod_time = t; version = codec.hash b }) ≡ f = cc in
          sym (ap (λ (x : LoadedFile). x.version) same)

      at_stat : (o : Option ℕ) → with_stat codec o b ≡ some f → f.version ≡ codec.hash b
      at_stat none h = absurd (cc)
      at_stat (some t) h = at_clips (some t) (parse codec b) h

  -- The file holds the clips' JSON, and `v` is its version.
  pub record IsWritten (clips : List Clip) (v : Text) (after : Disk) : Type 0 where
    pub bytes : List ℕ
    pub encoded : encode codec clips ≡ some bytes
    pub stored : after ≡ some bytes
    pub version : v ≡ codec.hash bytes

-- A request that is saved: its clips are valid and stand under different paths, its version is that of
-- the file before, and the file holds its clips now.
pub record IsSaved (floats : Floats) (lower : Text → Text) (resolve : Text → Resolved)
    (codec : Codec) (req : PutRequest) (v : Text) (before after : Disk) : Type 0 where
  pub valid : All (IsValid floats resolve) req.clips
  pub distinct : Distinct (lower_paths floats lower resolve req.clips)
  pub current : req.version ≡ codec.hash (content_of before)
  pub written : IsWritten codec req.clips v after

-- A request is saved, or the file is as before.
abbrev pub IsHandled :
    Floats
    → (Text → Text)
    → (Text → Resolved)
    → Codec
    → Option PutRequest
    → Disk
    → Response
    → Disk
    → Type 0
IsHandled floats lower resolve codec none before r after = (r ≡ bad_request) × (after ≡ before)
IsHandled floats lower resolve codec (some req) before (saved v) after =
    IsSaved floats lower resolve codec req v before after
IsHandled floats lower resolve codec (some req) before r after = after ≡ before

module _ (floats : Floats) (lower : Text → Text) (resolve : Text → Resolved) (codec : Codec) where
  module _ (calls : FileCalls) (req : PutRequest) (before : Disk) where
    -- What saving owes, once the request is valid and current.
    abbrev Owes : Response × Disk → Type 0
    Owes (r, after) = IsHandled floats lower resolve codec (some req) before r after

    module _ (valid : validate floats lower resolve req.clips ≡ []) where
      handled_save :
          req.version ≡ codec.hash (content_of before)
          → Owes (answer_saved floats lower codec (save codec calls req.clips before))
      unfolding save
      handled_save current = elim (Option-cases (encode codec req.clips)) [
        | inl e ↦ rw (e, save) refl
        | inr (b, e) ↦ elim (Bool-cases calls.can_write) [
          | inr f ↦ rw (e, f, save) refl
          | inl t ↦
              let (all, distinct) = validate-IsValid floats lower resolve req.clips valid in
              rw (e, t, save)
                (record {
                  valid = all;
                  distinct = distinct;
                  current = current;
                  written = record { bytes = b; encoded = e; stored = refl; version = refl };
                })
        ]
      ]

      handled_current : Owes (save_clips floats lower codec calls req before)
      unfolding save_clips
      handled_current = elim (Option-cases (load codec calls before)) [
        | inl e ↦ rw (e, save_clips) refl
        | inr (f, e) ↦ elim (Bool-cases (same_text req.version f.version)) [
          | inr n ↦ rw (e, n, save_clips) refl
          | inl t ↦
              rw (e, t, save_clips)
                (handled_save
                  (same_text_eq req.version f.version t ∙ load_version codec calls before f e))
        ]
      ]

    handled_valid :
        (ps : List Problem)
        → validate floats lower resolve req.clips ≡ ps
        → Owes (when_valid floats lower codec calls req ps before)
    handled_valid [] e = handled_current e
    handled_valid (p ∷ ps) e = refl

  -- `putClips` saves a request only where its clips are valid, stand under different paths and are based
  -- on the version of the file as it is; the file then holds them, and the version that is answered is
  -- the new one. Whatever else is answered, the file is as before.
  pub put_clips-IsHandled :
      (calls : FileCalls) (req : Option PutRequest) (before : Disk)
      → let (r, after) = put_clips floats lower codec resolve calls req before in
        IsHandled floats lower resolve codec req before r after
  unfolding put_clips
  put_clips-IsHandled calls none before = (refl, refl)
  put_clips-IsHandled calls (some req) before =
      handled_valid calls req before (validate floats lower resolve req.clips) refl

  -- The answer says that the clips are saved.
  abbrev pub is_saved : Response → Bool
  is_saved (saved v) = true
  is_saved _ = false

  not_lost :
      (req : PutRequest) (before after : Disk) (r : Response)
      → codec.hash (content_of before) ≢ req.version
      → IsHandled floats lower resolve codec (some req) before r after
      → (is_saved r ≡ false) × (after ≡ before)
  not_lost req before after (saved v) h k = absurd (h (sym k.current))
  not_lost req before after bad_request h k = (refl, k)
  not_lost req before after (invalid ps) h k = (refl, k)
  not_lost req before after server_error h k = (refl, k)
  not_lost req before after conflict h k = (refl, k)

  -- No update is lost: of two requests that are based on the same version, the second is refused once the
  -- first is saved, and the file keeps the first one's clips, where the saved content has another
  -- hash than the content before.
  pub put_clips-keeps_first :
      (calls again : FileCalls) (first second : PutRequest) (before : Disk) (v : Text)
      → first.version ≡ second.version
      → (put_clips floats lower codec resolve calls (some first) before).0 ≡ saved v
      → v ≢ codec.hash (content_of before)
      → let after = (put_clips floats lower codec resolve calls (some first) before).1 in
        (is_saved (put_clips floats lower codec resolve again (some second) after).0 ≡ false)
        × ((put_clips floats lower codec resolve again (some second) after).1 ≡ after)
        × IsWritten codec first.clips v after
  put_clips-keeps_first calls again first second before v same e changed =
      let after = (put_clips floats lower codec resolve calls (some first) before).1 in
      let done =
        subst (λ r. IsHandled floats lower resolve codec (some first) before r after) e
          (put_clips-IsHandled calls (some first) before) in
      let hash =
        done.written.version ∙ sym (ap (λ d. codec.hash (content_of d)) done.written.stored) in
      let (refused, kept) =
        not_lost second after _ _ (λ h. changed (hash ∙ h ∙ sym same ∙ done.current))
          (put_clips-IsHandled again (some second) after) in
      (refused, kept, done.written)

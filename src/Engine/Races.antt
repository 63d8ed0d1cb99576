-- ===== src/Engine/Races.antt =====
-- Two orders of the steps of internal/engine/engine.go: a `Recheck` around an `Apply`, and a worker that
-- looks up a clip that has become invalid.
use docker_smartclips.Prelude.{
  ℕ, ◌≡◌, Bool, true, false, refl, ap, ◌∙◌, inl, inr, Option, some, List, [], ◌∷◌, Bool-cases,
  Option-cases,
}
use docker_smartclips.Config.Names.{Text}
use docker_smartclips.Config.Clip.{Clip}
use docker_smartclips.Config.Validate.{Message}
use docker_smartclips.Dict.{Dict, keys, lookup, lookup-insert_self}
use docker_smartclips.Engine.State.{
  Library, System, File, Failure, failed, open_error, Job, Sink, State, zero_clip,
}
use docker_smartclips.Engine.Update.{is_some}
use docker_smartclips.Engine.Apply.{
  Sorted, invalid_state, drop_clip, drop_clips, mark_invalid, apply_clip, apply_clips, sorted_clips,
  apply,
}
use docker_smartclips.Engine.Work.{begin}
use docker_smartclips.Engine.Build.{not_opened, Builder, not_built, build}
use docker_smartclips.Engine.Step.{
  begin_build, settle, finish_build, Step, applied, read_file, rechecked, Reach, here, next,
}
use docker_smartclips.Engine.Sound.{HasKeys}
use docker_smartclips.Engine.Consistent.{IsConsistent}
use docker_smartclips.Engine.Applied.{apply-IsConsistent}
use docker_smartclips.Engine.Shown.{Shown, apply-Shown}
use docker_smartclips.Engine.Dropped.{drop_clip-none, drop_clip_wanted, drop_clip_unwanted}

module _ (lib : Library) {S : Type 0} (sink : Sink S) where
  -- The file in use and the files that wait to be applied again.
  abbrev files : State S → Option File × List File
  files s = (s.file, s.rechecks)

  drop_clip_files :
      (m : Sorted) (p : Text) (s : State S) → files (drop_clip lib sink m p s) ≡ files s
  drop_clip_files m p s = elim (Option-cases (lookup p s.clips)) [
    | inl e ↦ ap files (drop_clip-none lib sink m p s e)
    | inr (st, e) ↦ elim (Bool-cases (is_some (lookup p m.want))) [
      | inl w ↦ ap files (drop_clip_wanted lib sink m p s w)
      | inr w ↦ ap files (drop_clip_unwanted lib sink m p st s e w)
    ]
  ]

  drop_clips_files :
      (m : Sorted) (ps : List Text) (s : State S) → files (drop_clips lib sink m ps s) ≡ files s
  unfolding drop_clips
  drop_clips_files m [] s = refl
  drop_clips_files m (p ∷ ps) s =
      drop_clips_files m ps (drop_clip lib sink m p s) ∙ drop_clip_files m p s

  mark_invalid_files :
      (want : Dict Clip) (bad : Dict (List Message)) (s : State S)
      → files (mark_invalid lib sink want bad s) ≡ files s
  unfolding mark_invalid
  mark_invalid_files want [] s = refl
  mark_invalid_files want ((p, ms) ∷ bad) s = elim (Bool-cases (is_some (lookup p want))) [
    | inl t ↦ rw (t, mark_invalid) (mark_invalid_files want bad s)
    | inr f ↦ rw (f, mark_invalid) (mark_invalid_files want bad _)
  ]

  apply_clips_files :
      (w : System) (want : Dict Clip) (s : State S)
      → files (apply_clips lib sink w want s) ≡ files s
  unfolding apply_clips apply_clip
  apply_clips_files w [] s = refl
  apply_clips_files w ((p, c) ∷ want) s = apply_clips_files w want (apply_clip lib sink w p c s)

  apply_files :
      (w : System) (f : File) (s : State S) → files (apply lib sink w f s) ≡ (some f, s.rechecks)
  unfolding apply
  apply_files w f s =
      let m = sorted_clips lib sink w f in
      apply_clips_files w m.want _
      ∙ mark_invalid_files m.want m.invalid _
      ∙ drop_clips_files m (keys s.clips) (record s { file = some f })

  -- A step in which a `Recheck` applies the file it has read.
  abbrev pub is_recheck : {workers : ℕ} {s t : State S} → Step lib sink workers s t → Bool
  is_recheck (rechecked w f front rest s e) = true
  is_recheck _ = false

  module _ (hashes : HasKeys lib) where
    -- A `Recheck` that reads the file `old`, where the `Apply` of another file comes before it applies what
    -- it has read: in the state after that `Apply`, which is reached with the newer file in use, the step
    -- in which this `Recheck` applies what it has read is still to come, and it puts `old` back in use and
    -- leaves the other pending ones; what is shown and served then is what `old` asks for, whatever
    -- the newer file holds.
    pub recheck_reverts :
        (workers : ℕ) (w v : System) (old newer : File) (s : State S)
        → IsConsistent sink s
        → s.file ≡ some old
        → let changed = apply lib sink w newer (record s { rechecks = old ∷ s.rechecks }) in
          Reach lib sink workers s changed
          × (changed.file ≡ some newer)
          × (t : State S) × (st : Step lib sink workers changed t) × (is_recheck st ≡ true)
          × (t.file ≡ some old)
          × (t.rechecks ≡ s.rechecks)
          × ((q : Text)
              → Shown
                  (lookup q (sorted_clips lib sink v old).want)
                  (lookup q (sorted_clips lib sink v old).invalid)
                  (sink.served q t.sink)
                  (lookup q t.clips))
    recheck_reverts workers w v old newer s h e = (
      next (next here (read_file old s e)) (applied w newer read),
      ap (λ x. x.0) (apply_files w newer read),
      last,
      again,
      refl,
      ap (λ x. x.0) (apply_files v old ready_again),
      ap (λ x. x.1) (apply_files v old ready_again),
      apply-Shown lib hashes sink v old ready_again consistent,
    )
      where
        read : State S
        read = record s { rechecks = old ∷ s.rechecks }

        changed : State S
        changed = apply lib sink w newer read

        ready_again : State S
        ready_again = record changed { rechecks = s.rechecks }

        last : State S
        last = apply lib sink v old ready_again

        again : Step lib sink workers changed last
        again = rechecked v old [] s.rechecks changed (ap (λ x. x.1) (apply_files w newer read))

        consistent : IsConsistent sink ready_again
        consistent =
            let k =
              apply-IsConsistent lib hashes sink w newer read
                (record { serves = h.serves; tracks = h.tracks; queue = h.queue }) in
            record { serves = k.serves; tracks = k.tracks; queue = k.queue }

  -- The build that a worker begins for an invalid clip.
  abbrev empty_job : Text → Job
  empty_job p = record { path = p; clip = zero_clip; input = []; key = [] }

  build_empty :
      (b : Builder) (p : Text) (e : ℕ)
      → b.open_file [] ≡ not_opened e
      → build lib b (empty_job p) ≡ not_built (open_error e)
  unfolding build
  build_empty b p e h = rw (h, build) refl

  finish_failed :
      (w : System) (p : Text) (ms : List Message) (e : Failure) (others : List Job) (s : State S)
      → lookup p s.clips ≡ some (invalid_state ms)
      → lookup p (finish_build lib sink w (not_built e) (empty_job p) others s).clips
        ≡ some (record (invalid_state ms) { status = failed e })
  unfolding finish_build settle
  finish_failed w p ms e others s at =
      rw (at, finish_build)
        (lookup-insert_self p (record (invalid_state ms) { status = failed e }) s.clips)

  -- A worker that looks up a clip which has become invalid since it was queued builds from the empty
  -- path, and replaces the messages of the validation by the error of opening that path.
  pub invalid_overwritten :
      (w : System) (b : Builder) (p : Text) (ms : List Message) (e : ℕ) (others : List Text)
      (s : State S)
      → lookup p s.clips ≡ some (invalid_state ms)
      → b.open_file [] ≡ not_opened e
      → ((begin_build lib sink p others s).work.jobs ≡ empty_job p ∷ s.work.jobs)
        × (lookup p
              (finish_build lib sink w
                (build lib b (empty_job p))
                (empty_job p)
                s.work.jobs
                (begin_build lib sink p others s)).clips
            ≡ some (record (invalid_state ms) { status = failed (open_error e) }))
  unfolding begin
  invalid_overwritten w b p ms e others s at h = (
    ap (λ o. (begin p others o s.work).jobs) at,
    ap (λ r. lookup p (finish_build lib sink w r (empty_job p) s.work.jobs begun).clips)
          (build_empty b p e h)
        ∙ finish_failed w p ms (open_error e) s.work.jobs begun at,
  )
    where
      begun : State S
      begun = begin_build lib sink p others s

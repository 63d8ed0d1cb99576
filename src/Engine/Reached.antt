-- ===== src/Engine/Reached.antt =====
-- Every reachable state of internal/engine/engine.go is consistent.
use docker_smartclips.Prelude.{ℕ, ◌≡◌, refl, Bool, true, false, none, ◌++◌, if◌then◌else◌}
use docker_smartclips.Config.Names.{Text}
use docker_smartclips.Dict.{}
use docker_smartclips.Engine.State.{Library, Sink, State, new}
use docker_smartclips.Engine.Build.{build}
use docker_smartclips.Engine.Step.{
  report_status, tick, Step, applied, read_file, rechecked, received, began, finished, ticked,
  Reach, here, next,
}
use docker_smartclips.Engine.Queue.{}
use docker_smartclips.Engine.Built.{build-IsKeyed}
use docker_smartclips.Engine.Sound.{HasKeys}
use docker_smartclips.Engine.Consistent.{IsConsistent}
use docker_smartclips.Engine.Applied.{apply-IsConsistent}
use docker_smartclips.Engine.Settled.{
  finish_build-IsConsistent, begin_build-IsConsistent, receive-IsConsistent,
}

module _ (lib : Library) (hashes : HasKeys lib) {S : Type 0} (sink : Sink S) where
  either-IsConsistent :
      (c : Bool) (s t : State S)
      → IsConsistent sink s
      → IsConsistent sink t
      → IsConsistent sink (if c then s else t)
  either-IsConsistent true s t h k = h
  either-IsConsistent false s t h k = k

  tick-IsConsistent :
      (b : Bool) (s : State S) → IsConsistent sink s → IsConsistent sink (tick lib sink b s)
  unfolding tick report_status
  tick-IsConsistent b s h =
      either-IsConsistent _ _ _
        (record { serves = reported.serves; tracks = reported.tracks; queue = reported.queue })
        reported
    where
      reported : IsConsistent sink (report_status lib sink b s)
      reported =
          either-IsConsistent s.dirty _ s
            (record { serves = h.serves; tracks = h.tracks; queue = h.queue }) h

  pub Step-IsConsistent :
      {workers : ℕ} {s t : State S}
      → Step lib sink workers s t
      → IsConsistent sink s
      → IsConsistent sink t
  Step-IsConsistent (applied w f s) h = apply-IsConsistent lib hashes sink w f s h
  Step-IsConsistent (read_file f s e) h = record {
    serves = h.serves;
    tracks = h.tracks;
    queue = h.queue;
  }
  Step-IsConsistent (rechecked w f front rest s e) h =
      apply-IsConsistent lib hashes sink w f (record s { rechecks = front ++ rest })
        (record { serves = h.serves; tracks = h.tracks; queue = h.queue })
  Step-IsConsistent (received p rest s e r) h = receive-IsConsistent lib hashes sink p rest s e h
  Step-IsConsistent (began p front rest s e) h =
      begin_build-IsConsistent lib hashes sink p front rest s e h
  Step-IsConsistent (finished w b j front rest s e) h =
      finish_build-IsConsistent lib hashes sink j front rest s e w (build lib b j)
        (build-IsKeyed lib b hashes j) h
  Step-IsConsistent (ticked written s) h = tick-IsConsistent written s h

  -- In every state that is reached from a consistent one, whatever the system answers and in whatever
  -- order the threads run, the sink serves exactly the layouts that the clips are ready with; each of
  -- them was accepted by `Finalize`; a pending clip is queued, received or built under its key; a clip
  -- with a key has a safe path; the queue holds no path twice, and the counter of builds is right.
  pub Reach-IsConsistent :
      {workers : ℕ} {s t : State S}
      → IsConsistent sink s
      → Reach lib sink workers s t
      → IsConsistent sink t
  Reach-IsConsistent h here = h
  Reach-IsConsistent h (next r st) = Step-IsConsistent st (Reach-IsConsistent h r)

  -- `New`, over a sink that serves nothing.
  pub new-IsConsistent : (s : S) → ((p : Text) → sink.served p s ≡ none) → IsConsistent sink (new s)
  new-IsConsistent s e = record {
    serves = e;
    tracks = λ p. tt;
    queue = record { marked = λ q. refl; once = tt; counted = refl };
  }

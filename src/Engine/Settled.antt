-- ===== src/Engine/Settled.antt =====
-- A worker of internal/engine/engine.go keeps the state consistent: it receives a path, begins the build
-- and settles the clip.
use docker_smartclips.Prelude.{
  ◌≡◌, refl, sym, ap, subst, ◌∙◌, inl, inr, arith, true, false, ◌&&◌, Option, none, some, List, ◌∷◌,
  ◌++◌, Bool-cases, Option-cases,
}
use docker_smartclips.Config.Names.{Text, same_text, is_empty}
use docker_smartclips.Layout.Part.{Layout}
use docker_smartclips.Dict.{
  Differs, lookup, insert, lookup-insert_self, lookup-insert_ne, same_text_eq,
}
use docker_smartclips.Engine.State.{Library, System, Failure, ClipState, Job, Work, Sink, State}
use docker_smartclips.Engine.Update.{publish}
use docker_smartclips.Engine.Work.{receive, begin, end_job}
use docker_smartclips.Engine.Build.{Built, built, not_built}
use docker_smartclips.Engine.Step.{begin_build, failed_state, built_state, settle, finish_build}
use docker_smartclips.Engine.Queue.{
  IsQueue, in_hand, receive-IsQueue, receive_keeps, begin-IsQueue, begin_keeps, begin_here,
  end_job-IsQueue, end_job_keeps,
}
use docker_smartclips.Engine.Built.{WhenBuilt, IsKeyed}
use docker_smartclips.Engine.Sound.{HasKeys, status_of-Shows, ready_waits, set_ready, ready_set}
use docker_smartclips.Engine.UpdateLaws.{withdraw-served_self, withdraw-served_ne}
use docker_smartclips.Engine.Consistent.{
  Holds, ready_of, Tracks, Tracks-change_at, Tracks-change, by_path, IsConsistent,
}

module _ (lib : Library) (hashes : HasKeys lib) {S : Type 0} (sink : Sink S) where
  -- Only the queue changes.
  with_work :
      (s : State S) (k : Work)
      → IsConsistent sink s
      → IsQueue k
      → ((q : Text) → Holds (Tracks q k) (lookup q s.clips))
      → IsConsistent sink (record s { work = k })
  with_work s k h i t = record { serves = h.serves; tracks = t; queue = i }

  -- Consistent but for whether the clip at `p` is tracked.
  record IsUntracked (p : Text) (s : State S) : Type 0 where
    serves : (q : Text) → sink.served q s.sink ≡ ready_of (lookup q s.clips)
    tracks : (q : Text) → Differs q p → Holds (Tracks q s.work) (lookup q s.clips)
    queue : IsQueue s.work

  -- The clip at `p` settles, and is not pending.
  put_settled :
      (p : Text) (st : ClipState) (t : S) (s : State S)
      → IsUntracked p s
      → sink.served p t ≡ st.ready
      → ((q : Text) → Differs q p → sink.served q t ≡ sink.served q s.sink)
      → Tracks p s.work st
      → IsConsistent sink (record s { clips = insert p st s.clips; sink = t })
  put_settled p st t s h same elsewhere k = record {
    serves =
        by_path _ p (same ∙ sym (ap ready_of (lookup-insert_self p st s.clips))) (λ q d.
          elsewhere q d ∙ h.serves q ∙ sym (ap ready_of (lookup-insert_ne q p st s.clips d)));
    tracks =
        by_path _ p (subst (Holds (Tracks p s.work)) (sym (lookup-insert_self p st s.clips)) k)
          (λ q d.
            subst (Holds (Tracks q s.work)) (sym (lookup-insert_ne q p st s.clips d))
              (h.tracks q d));
    queue = h.queue;
  }

  failed-Tracks :
      (p : Text) (k m : Work) (e : Failure) (st : ClipState)
      → Tracks p k st
      → Tracks p m (failed_state lib sink e st)
  failed-Tracks p k m e st h = record {
    sound = record { shows = refl; accepted = tt; keyless = λ e. refl; fresh = λ e. absurd (cc) };
    set = refl;
    waits = λ e. absurd (cc);
    safe = h.safe;
  }

  built-Tracks :
      (p : Text) (k m : Work) (w : System) (j : Job) (l : Layout) (st : ClipState)
      → IsKeyed j l
      → st.key ≡ j.key
      → Tracks p k st
      → Tracks p m (built_state lib sink w l st)
  built-Tracks p k m w j l st a e h = record {
    sound = record {
      shows = status_of-Shows w l;
      accepted = a.0;
      keyless = λ x. absurd (let y = ap is_empty e in let z = a.1 in cc);
      fresh = λ x. absurd (ready_set w l x);
    };
    set = set_ready w l;
    waits = λ x. absurd (ready_waits w l x);
    safe = h.safe;
  }

  -- The clip of a build that has ended is settled; `k` is the work before.
  settle-IsConsistent :
      (w : System) (j : Job) (result : Built) (st : ClipState) (k : Work) (s : State S)
      → IsUntracked j.path s
      → lookup j.path s.clips ≡ some st
      → st.key ≡ j.key
      → WhenBuilt (IsKeyed j) result
      → Tracks j.path k st
      → IsConsistent sink (settle lib sink w j.path result st s)
  unfolding settle publish
  settle-IsConsistent w j (not_built e) st k s h at same b t =
      put_settled j.path (failed_state lib sink e st) _ s h
        (withdraw-served_self lib sink j.path st.ready s.sink (h.serves j.path ∙ ap ready_of at))
        (λ q d. withdraw-served_ne lib sink q j.path st.ready s.sink d)
        (failed-Tracks j.path k s.work e st t)
  settle-IsConsistent w j (built l) st k s h at same b t =
      put_settled j.path (built_state lib sink w l st) _ s h
        (sink.served-set_self j.path l _ _ s.sink)
        (λ q d. sink.served-set_ne q j.path l _ _ s.sink d)
        (built-Tracks j.path k s.work w j l st b same t)

  Holds_found :
      (P : ClipState → Type 0) (o : Option ClipState) (st : ClipState)
      → o ≡ some st
      → Holds P o
      → P st
  Holds_found P none st e h = absurd (cc)
  Holds_found P (some x) st e h = subst P (let y = e in cc) h

  module _ (j : Job) (front rest : List Job) (s : State S)
      (e : s.work.jobs ≡ front ++ (j ∷ rest)) where
    abbrev ended : State S
    ended = record s { work = end_job (front ++ rest) s.work; dirty = true }

    other_build :
        (q key : Text)
        → (same_text q j.path && same_text key j.key) ≡ false
        → in_hand q key s.work ≡ true
        → in_hand q key ended.work ≡ true
    other_build = end_job_keeps j front rest s.work e

    ended-IsUntracked : IsConsistent sink s → IsUntracked j.path ended
    ended-IsUntracked h = record {
      serves = h.serves;
      tracks = λ q d.
          Tracks-change q s.work _ (lookup q s.clips) (λ key. other_build q key (ground arith))
            (h.tracks q);
      queue = end_job-IsQueue j front rest s.work e h.queue;
    }

    -- The clip at the path is gone, or has another key.
    ended-IsConsistent :
        IsConsistent sink s
        → ((st : ClipState) → lookup j.path s.clips ≡ some st → same_text st.key j.key ≡ false)
        → IsConsistent sink ended
    ended-IsConsistent h other = record {
      serves = h.serves;
      tracks =
          by_path _ j.path
            (Tracks-change_at j.path s.work _ (lookup j.path s.clips)
              (λ st at. other_build j.path st.key (let d = other st at in ground arith))
              (h.tracks j.path))
            (λ q d. (ended-IsUntracked h).tracks q d);
      queue = end_job-IsQueue j front rest s.work e h.queue;
    }

    pub finish_build-IsConsistent :
        (w : System) (result : Built)
        → WhenBuilt (IsKeyed j) result
        → IsConsistent sink s
        → IsConsistent sink (finish_build lib sink w result j (front ++ rest) s)
    unfolding finish_build
    finish_build-IsConsistent w result b h = elim (Option-cases (lookup j.path s.clips)) [
      | inl n ↦ rw (n, finish_build) (ended-IsConsistent h (λ st at. absurd (cc)))
      | inr (st, at) ↦ elim (Bool-cases (same_text st.key j.key)) [
        | inl t ↦
            rw (at, t, finish_build)
              (settle-IsConsistent w j result st s.work ended (ended-IsUntracked h) at
                (same_text_eq st.key j.key t) b
                (Holds_found (Tracks j.path s.work) (lookup j.path s.clips) st at
                  (h.tracks j.path)))
        | inr f ↦
            rw (at, f, finish_build)
              (ended-IsConsistent h (λ x y.
                let same : x ≡ st = (let u = sym y ∙ at in cc) in
                ap (λ (z : ClipState). same_text z.key j.key) same ∙ f))
      ]
    ]

  module _ (p : Text) (front rest : List Text) (s : State S)
      (e : s.work.received ≡ front ++ (p ∷ rest)) where
    begin_waits :
        (o : Option ClipState)
        → lookup p s.clips ≡ o
        → Holds (Tracks p s.work) o
        → Holds (Tracks p (begin p (front ++ rest) o s.work)) o
    begin_waits none at h = tt
    begin_waits (some st) at h = record {
      sound = h.sound;
      set = h.set;
      waits = λ x. begin_here p front rest s.work e st;
      safe = h.safe;
    }

    pub begin_build-IsConsistent :
        IsConsistent sink s → IsConsistent sink (begin_build lib sink p (front ++ rest) s)
    begin_build-IsConsistent h =
        with_work s (begin p (front ++ rest) (lookup p s.clips) s.work) h
          (begin-IsQueue p front rest s.work e (lookup p s.clips) h.queue)
          (by_path _ p (begin_waits (lookup p s.clips) refl (h.tracks p)) (λ q d.
            Tracks-change q s.work _ (lookup q s.clips)
              (λ key. begin_keeps p front rest s.work e q key (lookup p s.clips) d) (h.tracks q)))

  pub receive-IsConsistent :
      (p : Text) (rest : List Text) (s : State S)
      → s.work.queue ≡ p ∷ rest
      → IsConsistent sink s
      → IsConsistent sink (record s { work = receive p rest s.work })
  receive-IsConsistent p rest s e h =
      with_work s (receive p rest s.work) h (receive-IsQueue p rest s.work e h.queue) (λ q.
        Tracks-change q s.work _ (lookup q s.clips)
          (λ key x. receive_keeps p rest s.work e q key ∙ x) (h.tracks q))

-- ===== src/Engine/Drained.antt =====
-- The workers of internal/engine/engine.go get through their work, and then every clip is settled.
use docker_smartclips.Prelude.{
  ℕ, zero, suc, ◌+◌, ◌*◌, ◌≤◌, ◌<◌, ◌≡◌, ◌⊎◌, refl, sym, ap, subst, inl, inr, arith, Bool, true,
  false, Option, none, some, List, [], ◌∷◌, ◌++◌, length, Bool-cases, Option-cases, ◌||◌,
}
use docker_smartclips.Config.Names.{Text, same_text}
use docker_smartclips.Dict.{has, lookup}
use docker_smartclips.Engine.State.{
  Library, System, Status, unset, pending, ready, failed, is_pending, is_ready, is_failed,
  ClipState, Job, Work, Sink, State,
}
use docker_smartclips.Engine.Work.{begin, end_job}
use docker_smartclips.Engine.Build.{Builder, Built, built, not_built, build}
use docker_smartclips.Engine.Step.{
  settle, finish_build, Step, received, began, finished, applied, read_file, rechecked, ticked,
  Reach,
}
use docker_smartclips.Engine.Sound.{HasKeys, is_unset}
use docker_smartclips.Engine.Queue.{builds, in_hand, length-middle}
use docker_smartclips.Engine.Consistent.{Holds, Tracks, IsConsistent}
use docker_smartclips.Engine.Reached.{Step-IsConsistent, Reach-IsConsistent}

-- A queued path has three steps before it, a received one two, and a build one.
abbrev pub work_left : Work → ℕ
work_left k = 3 * length k.queue + 2 * length k.received + length k.jobs

-- The clip is ready or has failed.
abbrev pub is_settled : Status → Bool
is_settled s = is_ready s || is_failed s

begin_shorter :
    (p : Text) (front rest : List Text) (o : Option ClipState) (k : Work)
    → k.received ≡ front ++ (p ∷ rest)
    → work_left (begin p (front ++ rest) o k) < work_left k
unfolding begin
begin_shorter p front rest none k e = omega (arith, ap length e, length-middle p front rest)
begin_shorter p front rest (some st) k e = omega (arith, ap length e, length-middle p front rest)

settled_status : (s : Status) → is_unset s ≡ false → is_pending s ≡ false → is_settled s ≡ true
settled_status unset a b = absurd (cc)
settled_status pending a b = absurd (cc)
settled_status (ready k x y z t) a b = refl
settled_status (failed e) a b = refl

module _ (lib : Library) {S : Type 0} (sink : Sink S) where
  settle_work :
      (w : System) (p : Text) (b : Built) (st : ClipState) (s : State S)
      → (settle lib sink w p b st s).work ≡ s.work
  unfolding settle
  settle_work w p (not_built e) st s = refl
  settle_work w p (built l) st s = refl

  finish_work :
      (w : System) (r : Built) (j : Job) (others : List Job) (s : State S)
      → (finish_build lib sink w r j others s).work ≡ end_job others s.work
  unfolding finish_build
  finish_work w r j others s = elim (Option-cases (lookup j.path s.clips)) [
    | inl e ↦ rw (e, finish_build) refl
    | inr (st, e) ↦ elim (Bool-cases (same_text st.key j.key)) [
      | inl t ↦ rw (e, t, finish_build) (settle_work w j.path r st _)
      | inr f ↦ rw (e, f, finish_build) refl
    ]
  ]

  finish_shorter :
      (w : System) (r : Built) (j : Job) (front rest : List Job) (s : State S)
      → s.work.jobs ≡ front ++ (j ∷ rest)
      → work_left (finish_build lib sink w r j (front ++ rest) s).work < work_left s.work
  finish_shorter w r j front rest s e =
      subst (λ k. work_left k < work_left s.work) (sym (finish_work w r j (front ++ rest) s))
        (omega (arith, ap length e, length-middle j front rest))

  -- A step of a worker.
  abbrev pub is_work : {workers : ℕ} {s t : State S} → Step lib sink workers s t → Bool
  is_work (received p rest s e r) = true
  is_work (began p front rest s e) = true
  is_work (finished w b j front rest s e) = true
  is_work _ = false

  -- Each step of a worker leaves less work, so that after 3 steps for a queued path, 2 for a received
  -- one and 1 for a build the workers stand still, unless clips are queued meanwhile.
  pub is_work_shorter :
      {workers : ℕ} {s t : State S} (st : Step lib sink workers s t)
      → is_work st ≡ true
      → work_left t.work < work_left s.work
  is_work_shorter (received p rest s e r) h = omega (arith, ap length e)
  is_work_shorter (began p front rest s e) h =
      begin_shorter p front rest (lookup p s.clips) s.work e
  is_work_shorter (finished w b j front rest s e) h =
      finish_shorter w (build lib b j) j front rest s e
  is_work_shorter (applied w f s) h = absurd (cc)
  is_work_shorter (read_file f s e) h = absurd (cc)
  is_work_shorter (rechecked w f front rest s e) h = absurd (cc)
  is_work_shorter (ticked b s) h = absurd (cc)

  -- In the step the system answers what is given.
  abbrev pub IsAnswered :
      System → Builder → {workers : ℕ} {s t : State S} → Step lib sink workers s t → Type 0
  IsAnswered w b (finished v c j front rest s e) = (v ≡ w) × (c ≡ b)
  IsAnswered w b _ = Unit

  -- A worker's step from the state, with these answers, is possible.
  abbrev pub CanWork : ℕ → System → Builder → State S → Type 0
  CanWork workers w b s =
      (t : State S) × (st : Step lib sink workers s t) × (is_work st ≡ true) × IsAnswered w b st

  -- `n` steps of the workers, and of no other thread; `w i` and `b i` are the answers of the system to the
  -- step behind the first `i` ones.
  pub data Works (workers : ℕ) (w : ℕ → System) (b : ℕ → Builder) (s : State S)
      : ℕ → State S → Type 0 where
    idle : Works workers w b s 0 s
    work :
        {n : ℕ} {t u : State S}
        → Works workers w b s n t
        → (st : Step lib sink workers t u) → is_work st ≡ true
        → IsAnswered (w n) (b n) st
        → Works workers w b s (suc n) u

  next_work :
      (workers : ℕ) (w : System) (b : Builder) (s : State S)
      → 0 < workers
      → (work_left s.work ≡ 0) ⊎ CanWork workers w b s
  next_work workers w b s pos = with_jobs s.work.jobs refl
    where
      with_queue :
          (xs : List Text)
          → s.work.queue ≡ xs
          → s.work.received ≡ []
          → s.work.jobs ≡ []
          → (work_left s.work ≡ 0) ⊎ CanWork workers w b s
      with_queue [] a b' c = inl (omega (arith, ap length a, ap length b', ap length c))
      with_queue (p ∷ rest) a b' c =
          inr (_, received p rest s a (omega (arith, ap length b', ap length c)), refl, tt)

      with_received :
          (xs : List Text)
          → s.work.received ≡ xs
          → s.work.jobs ≡ []
          → (work_left s.work ≡ 0) ⊎ CanWork workers w b s
      with_received [] a c = with_queue s.work.queue refl a c
      with_received (p ∷ rest) a c = inr (_, began p [] rest s a, refl, tt)

      with_jobs :
          (xs : List Job) → s.work.jobs ≡ xs → (work_left s.work ≡ 0) ⊎ CanWork workers w b s
      with_jobs [] a = with_received s.work.received refl a
      with_jobs (j ∷ rest) a = inr (_, finished w b j [] rest s a, refl, (refl, refl))

  -- No clip waits any more.
  abbrev pub AreSettled : State S → Type 0
  AreSettled s = (p : Text) → Holds (λ st. is_settled st.status ≡ true) (lookup p s.clips)

  -- Where no work is left, every clip is ready or has failed.
  idle-AreSettled : (s : State S) → IsConsistent sink s → work_left s.work ≡ 0 → AreSettled s
  idle-AreSettled s h e p = at (lookup p s.clips) (h.tracks p)
    where
      nothing : (k : Work) → work_left k ≡ 0 → (key : Text) → in_hand p key k ≡ false
      nothing k e key = empty k.queue k.received k.jobs (omega arith) (omega arith) (omega arith)
        where
          empty :
              (xs ys : List Text) (js : List Job)
              → length xs ≡ 0
              → length ys ≡ 0
              → length js ≡ 0
              → (has p (xs ++ ys) || builds p key js) ≡ false
          empty [] [] [] a b c = refl
          empty (x ∷ xs) ys js a b c = absurd (omega arith)
          empty [] (y ∷ ys) js a b c = absurd (omega arith)
          empty [] [] (j ∷ js) a b c = absurd (omega arith)

      at :
          (o : Option ClipState)
          → Holds (Tracks p s.work) o
          → Holds (λ st. is_settled st.status ≡ true) o
      at none t = tt
      at (some st) t = settled_status st.status t.set (elim (Bool-cases (is_pending st.status)) [
        | inr f ↦ f
        | inl x ↦ absurd (let a = t.waits x in let b = nothing s.work e st.key in cc)
      ])

  -- The workers cannot go on for longer than there is work.
  Works-bounded :
      {workers : ℕ} {w : ℕ → System} {b : ℕ → Builder} {s : State S} {n : ℕ} {t : State S}
      → Works workers w b s n t
      → n + work_left t.work ≤ work_left s.work
  Works-bounded idle = omega arith
  Works-bounded (work r st h a) = omega (arith, Works-bounded r, is_work_shorter st h)

  module _ (hashes : HasKeys lib) (workers : ℕ) (pos : 0 < workers) where
    settles_in :
        (w : ℕ → System) (b : ℕ → Builder) (left n : ℕ) (s t : State S)
        → Works workers w b s n t
        → work_left t.work ≤ left
        → IsConsistent sink t
        → (m : ℕ) × (u : State S) × Works workers w b s m u × AreSettled u
    settles_in w b zero n s t r le h = (n, t, r, idle-AreSettled t h (omega arith))
    settles_in w b (suc left) n s t r le h = elim (next_work workers (w n) (b n) t pos) [
      | inl e ↦ (n, t, r, idle-AreSettled t h e)
      | inr (u, st, moves, answered) ↦
          settles_in w b left (suc n) s u (work r st moves answered)
            (let x = is_work_shorter st moves in omega arith)
            (Step-IsConsistent lib hashes sink st h)
    ]

    -- With a worker at least, from every consistent state and whatever the system answers at each step:
    -- by steps of the workers alone, given these answers, the clips come to be all ready or failed; no
    -- run of such steps is longer than the work there is; and in every state that is reached, in
    -- whatever order of the threads, either all clips are ready or failed or a worker can take a step,
    -- whatever the answers to it.
    pub AreSettled-reached :
        (w : ℕ → System) (b : ℕ → Builder) (s : State S)
        → IsConsistent sink s
        → ((n : ℕ) × (t : State S) × Works workers w b s n t × AreSettled t)
          × ((n : ℕ) (t : State S) → Works workers w b s n t → n ≤ work_left s.work)
          × ((t : State S)
              → Reach lib sink workers s t
              → (v : System) (c : Builder) → AreSettled t ⊎ CanWork workers v c t)
    AreSettled-reached w b s h = (
      settles_in w b (work_left s.work) 0 s s idle (omega arith) h,
      λ n t r. omega (arith, Works-bounded r),
      λ t r v c. elim (next_work workers v c t pos) [
        | inl e ↦ inl (idle-AreSettled t (Reach-IsConsistent lib hashes sink h r) e)
        | inr can ↦ inr can
      ],
    )

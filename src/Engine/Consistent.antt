-- ===== src/Engine/Consistent.antt =====
-- The invariant of the state of internal/engine/engine.go, and `applyClip` keeping it.
use docker_smartclips.Prelude.{
  ◌≡◌, refl, sym, ap, subst, ◌∙◌, inl, inr, Bool, true, false, Option, none, some, All,
  if◌then◌else◌, Bool-cases, ◌||◌,
}
use docker_smartclips.Config.Names.{Text, same_text, is_empty, split_slashes}
use docker_smartclips.Config.Paths.{IsSafe}
use docker_smartclips.Config.Clip.{Clip}
use docker_smartclips.Dict.{Differs, lookup, lookup-insert_self, lookup-insert_ne, same_text_eq}
use docker_smartclips.Layout.Part.{Layout}
use docker_smartclips.Engine.State.{Library, System, is_pending, ClipState, Work, Sink, State}
use docker_smartclips.Engine.Update.{Outcome}
use docker_smartclips.Engine.Work.{enqueue}
use docker_smartclips.Engine.Queue.{
  IsQueue, builds, in_hand, enqueue-IsQueue, enqueue_here, enqueue_keeps,
}
use docker_smartclips.Engine.Sound.{IsSound, HasKeys, is_unset, zero_state-IsSound}
use docker_smartclips.Engine.UpdateLaws.{Keeps, update-Keeps}
use docker_smartclips.Engine.Apply.{state_or_zero, commit, apply_clip}

-- `P` holds of the state, if there is one.
abbrev pub Holds : (ClipState → Type 0) → Option ClipState → Type 0
Holds P none = Unit
Holds P (some st) = P st

abbrev pub ready_of : Option ClipState → Option Layout
ready_of none = none
ready_of (some st) = st.ready

-- What is kept of the clip at the path `p`: its state is sound and has a status, a pending clip is
-- queued, received or built under its key, and a clip with a key has a safe path.
pub record Tracks (p : Text) (k : Work) (st : ClipState) : Type 0 where
  pub sound : IsSound st
  pub set : is_unset st.status ≡ false
  pub waits : is_pending st.status ≡ true → in_hand p st.key k ≡ true
  pub safe : is_empty st.key ≡ false → All IsSafe (split_slashes p)

pub Tracks-change_at :
    (p : Text) (k m : Work) (o : Option ClipState)
    → ((st : ClipState) → o ≡ some st → in_hand p st.key k ≡ true → in_hand p st.key m ≡ true)
    → Holds (Tracks p k) o
    → Holds (Tracks p m) o
Tracks-change_at p k m none f h = tt
Tracks-change_at p k m (some st) f h = record {
  sound = h.sound;
  set = h.set;
  waits = λ e. f st refl (h.waits e);
  safe = h.safe;
}

pub Tracks-change :
    (p : Text) (k m : Work) (o : Option ClipState)
    → ((key : Text) → in_hand p key k ≡ true → in_hand p key m ≡ true)
    → Holds (Tracks p k) o
    → Holds (Tracks p m) o
Tracks-change p k m o f h = Tracks-change_at p k m o (λ st e. f st.key) h

-- A predicate on all paths, from `p` and the others.
pub by_path :
    (P : Text → Type 0) (p : Text) → P p → ((q : Text) → Differs q p → P q) → (q : Text) → P q
by_path P p h f q = elim (Bool-cases (same_text q p)) [
  | inl t ↦ subst P (sym (same_text_eq q p t)) h
  | inr d ↦ f q d
]

module _ {S : Type 0} (sink : Sink S) where
  -- The sink serves exactly what the clips are ready with, the clips are tracked, and so is the queue.
  pub record IsConsistent (s : State S) : Type 0 where
    pub serves : (p : Text) → sink.served p s.sink ≡ ready_of (lookup p s.clips)
    pub tracks : (p : Text) → Holds (Tracks p s.work) (lookup p s.clips)
    pub queue : IsQueue s.work

  state_ready : (o : Option ClipState) → (state_or_zero o).ready ≡ ready_of o
  state_ready none = refl
  state_ready (some st) = refl

  state-IsSound :
      (p : Text) (k : Work) (o : Option ClipState)
      → Holds (Tracks p k) o
      → IsSound (state_or_zero o)
  state-IsSound p k none h = zero_state-IsSound
  state-IsSound p k (some st) h = h.sound

  state_waits :
      (p : Text) (k : Work) (o : Option ClipState)
      → Holds (Tracks p k) o
      → is_pending (state_or_zero o).status ≡ true
      → in_hand p (state_or_zero o).key k ≡ true
  state_waits p k none h e = absurd (cc)
  state_waits p k (some st) h e = h.waits e

  module _ (lib : Library) (hashes : HasKeys lib) where
    module _ (p : Text) (c : Clip) (s : State S) (o : Outcome S) where
      abbrev old : ClipState
      old = state_or_zero (lookup p s.clips)

      module _ (k : Keeps lib sink s.file p c old s.sink o) where
        commit-IsQueue : IsQueue s.work → IsQueue (if o.waits then enqueue p s.work else s.work)
        commit-IsQueue h = elim (Bool-cases o.waits) [
          | inl t ↦ rw t (enqueue-IsQueue p s.work h)
          | inr f ↦ rw f h
        ]

        commit_keeps :
            (q key : Text)
            → in_hand q key s.work ≡ true
            → in_hand q key (if o.waits then enqueue p s.work else s.work) ≡ true
        commit_keeps q key h = elim (Bool-cases o.waits) [
          | inl t ↦ rw t (enqueue_keeps q p key s.work h)
          | inr f ↦ rw f h
        ]

        commit_waits :
            IsConsistent s
            → is_pending o.state.status ≡ true
            → in_hand p o.state.key (if o.waits then enqueue p s.work else s.work) ≡ true
        commit_waits h e = elim (k.waits e) [
          | inl t ↦ rw t (
              ap (λ (b : Bool). b || builds p o.state.key (enqueue p s.work).jobs)
                (enqueue_here p s.work h.queue))
          | inr (a, b) ↦ commit_keeps p o.state.key (
              ap (λ t. in_hand p t s.work) b
              ∙ state_waits p s.work (lookup p s.clips) (h.tracks p) a)
        ]

        commit-IsConsistent :
            All IsSafe (split_slashes p) → IsConsistent s → IsConsistent (commit lib sink p o s)
        commit-IsConsistent safe h = record {
          serves =
              by_path _ p
                (k.here (h.serves p ∙ sym (state_ready (lookup p s.clips)))
                  ∙ sym (ap ready_of (lookup-insert_self p o.state s.clips)))
                (λ q d.
                  k.elsewhere q d
                  ∙ h.serves q
                  ∙ sym (ap ready_of (lookup-insert_ne q p o.state s.clips d)));
          tracks =
              by_path _ p
                (subst (Holds (Tracks p (commit lib sink p o s).work))
                  (sym (lookup-insert_self p o.state s.clips)) here)
                (λ q d.
                  subst (Holds (Tracks q (commit lib sink p o s).work))
                    (sym (lookup-insert_ne q p o.state s.clips d))
                    (Tracks-change q s.work _ (lookup q s.clips) (commit_keeps q) (h.tracks q)));
          queue = commit-IsQueue h.queue;
        }
          where
            here : Tracks p (commit lib sink p o s).work o.state
            here =
                let (sound, set) =
                  k.sound hashes (state-IsSound p s.work (lookup p s.clips) (h.tracks p)) in
                record { sound = sound; set = set; waits = commit_waits h; safe = λ e. safe }

    pub apply_clip-IsConsistent :
        (w : System) (p : Text) (c : Clip) (s : State S)
        → All IsSafe (split_slashes p)
        → IsConsistent s
        → IsConsistent (apply_clip lib sink w p c s)
    unfolding apply_clip
    apply_clip-IsConsistent w p c s safe h =
        commit-IsConsistent p c s _
          (update-Keeps lib sink s.file p c w (state_or_zero (lookup p s.clips)) s.sink) safe h

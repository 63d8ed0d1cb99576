-- ===== src/Engine/Marked.antt =====
-- What the loops of `Apply` of internal/engine/engine.go over dropped and invalid clips leave alone,
-- and what becomes of an invalid clip.
use docker_smartclips.Prelude.{
  ◌≡◌, ◌⊎◌, refl, sym, ap, subst, ◌∙◌, inl, inr, Bool, true, false, Option, none, some, List, [],
  ◌∷◌, if◌then◌else◌, Bool-cases, Option-cases,
}
use docker_smartclips.Config.Names.{Text, same_text}
use docker_smartclips.Config.Clip.{Clip}
use docker_smartclips.Config.Validate.{Message}
use docker_smartclips.Dict.{
  Differs, Dict, lookup, insert, erase, IsMap, lookup-insert_self, lookup-insert_ne, lookup_fresh,
  same_text_eq, lookup-erase_self, lookup-erase_ne,
}
use docker_smartclips.Engine.State.{Library, ClipState, Sink, State}
use docker_smartclips.Engine.Update.{is_some}
use docker_smartclips.Engine.Apply.{Sorted, invalid_state, drop_clip, drop_clips, mark_invalid}
use docker_smartclips.Engine.Consistent.{Holds}
use docker_smartclips.Engine.Dropped.{drop_clip-none, drop_clip_wanted, drop_clip_unwanted}

abbrev pub marked : Option (List Message) → Option ClipState → Option ClipState
marked none o = o
marked (some ms) o = some (invalid_state ms)

-- The second is the first, or gone.
abbrev pub IsKept : Option ClipState → Option ClipState → Type 0
IsKept o r = (r ≡ o) ⊎ (r ≡ none)

Kept-then : (a b c : Option ClipState) → IsKept a b → IsKept b c → IsKept a c
Kept-then a b c (inl e) (inl f) = inl (f ∙ e)
Kept-then a b c (inl e) (inr f) = inr f
Kept-then a b c (inr e) (inl f) = inr (f ∙ e)
Kept-then a b c (inr e) (inr f) = inr f

pub IsKept-Holds :
    (P : ClipState → Type 0) (a b : Option ClipState) → IsKept a b → Holds P a → Holds P b
IsKept-Holds P a b (inl e) h = subst (Holds P) (sym e) h
IsKept-Holds P a none (inr e) h = tt
IsKept-Holds P a (some st) (inr e) h = absurd (cc)

module _ (lib : Library) {S : Type 0} (sink : Sink S) where
  -- Queue and file are the same, and a clip is as before or gone.
  pub record IsPruned (s t : State S) : Type 0 where
    pub work : t.work ≡ s.work
    pub file : t.file ≡ s.file
    pub clip : (q : Text) → IsKept (lookup q s.clips) (lookup q t.clips)

  IsPruned-refl : (s t : State S) → t ≡ s → IsPruned s t
  IsPruned-refl s t e = record {
    work = ap (λ x. x.work) e;
    file = ap (λ x. x.file) e;
    clip = λ q. inl (ap (λ x. lookup q x.clips) e);
  }

  erase-IsKept :
      (p q : Text) (clips : Dict ClipState) (b : Bool)
      → IsKept (lookup q clips) (lookup q (if b then clips else erase p clips))
  erase-IsKept p q clips true = inl refl
  erase-IsKept p q clips false = elim (Bool-cases (same_text q p)) [
    | inl t ↦
        inr (ap (λ r. lookup r (erase p clips)) (same_text_eq q p t) ∙ lookup-erase_self p clips)
    | inr d ↦ inl (lookup-erase_ne q p clips d)
  ]

  drop_clip-IsPruned : (m : Sorted) (p : Text) (s : State S) → IsPruned s (drop_clip lib sink m p s)
  drop_clip-IsPruned m p s = elim (Option-cases (lookup p s.clips)) [
    | inl e ↦ IsPruned-refl s _ (drop_clip-none lib sink m p s e)
    | inr (st, e) ↦ elim (Bool-cases (is_some (lookup p m.want))) [
      | inl w ↦ IsPruned-refl s _ (drop_clip_wanted lib sink m p s w)
      | inr w ↦ subst (IsPruned s) (sym (drop_clip_unwanted lib sink m p st s e w)) (record {
        work = refl;
        file = refl;
        clip = λ q. erase-IsKept p q s.clips (is_some (lookup p m.invalid));
      })
    ]
  ]

  pub drop_clips-IsPruned :
      (m : Sorted) (ps : List Text) (s : State S) → IsPruned s (drop_clips lib sink m ps s)
  unfolding drop_clips
  drop_clips-IsPruned m [] s = IsPruned-refl s s refl
  drop_clips-IsPruned m (p ∷ ps) s =
      let a = drop_clip-IsPruned m p s in
      let b = drop_clips-IsPruned m ps (drop_clip lib sink m p s) in
      record {
        work = b.work ∙ a.work;
        file = b.file ∙ a.file;
        clip = λ q. Kept-then _ _ _ (a.clip q) (b.clip q);
      }

  abbrev mark_one : Dict Clip → Text → List Message → State S → State S
  mark_one want p ms s =
      if is_some (lookup p want)
      then s
      else record s { clips = insert p (invalid_state ms) s.clips }

  mark_one_same :
      (want : Dict Clip) (p : Text) (ms : List Message) (s : State S)
      → ((mark_one want p ms s).sink ≡ s.sink)
        × ((mark_one want p ms s).work ≡ s.work)
        × ((mark_one want p ms s).file ≡ s.file)
  mark_one_same want p ms s = elim (Bool-cases (is_some (lookup p want))) [
    | inl t ↦ rw t (refl, refl, refl)
    | inr f ↦ rw f (refl, refl, refl)
  ]

  pub mark_invalid_same :
      (want : Dict Clip) (bad : Dict (List Message)) (s : State S)
      → ((mark_invalid lib sink want bad s).sink ≡ s.sink)
        × ((mark_invalid lib sink want bad s).work ≡ s.work)
        × ((mark_invalid lib sink want bad s).file ≡ s.file)
  unfolding mark_invalid
  mark_invalid_same want [] s = (refl, refl, refl)
  mark_invalid_same want ((p, ms) ∷ bad) s =
      let (a, b, c) = mark_one_same want p ms s in
      let (d, e, f) = mark_invalid_same want bad (mark_one want p ms s) in (d ∙ a, e ∙ b, f ∙ c)

  module _ (want : Dict Clip) (q : Text) where
    mark_one_ne :
        (p : Text) (ms : List Message) (s : State S)
        → Differs q p
        → lookup q (mark_one want p ms s).clips ≡ lookup q s.clips
    mark_one_ne p ms s d = elim (Bool-cases (is_some (lookup p want))) [
      | inl t ↦ rw t refl
      | inr f ↦ rw f (lookup-insert_ne q p (invalid_state ms) s.clips d)
    ]

    mark_one_wanted :
        (p : Text) (ms : List Message) (s : State S)
        → is_some (lookup q want) ≡ true
        → lookup q (mark_one want p ms s).clips ≡ lookup q s.clips
    mark_one_wanted p ms s w = elim (Bool-cases (same_text q p)) [
      | inr d ↦ mark_one_ne p ms s d
      | inl t ↦
          let e = ap (λ r. is_some (lookup r want)) (sym (same_text_eq q p t)) ∙ w in rw e refl
    ]

    -- A wanted clip stays as it is.
    pub mark_invalid_wanted :
        (bad : Dict (List Message)) (s : State S)
        → is_some (lookup q want) ≡ true
        → lookup q (mark_invalid lib sink want bad s).clips ≡ lookup q s.clips
    unfolding mark_invalid
    mark_invalid_wanted [] s w = refl
    mark_invalid_wanted ((p, ms) ∷ bad) s w =
        mark_invalid_wanted bad (mark_one want p ms s) w ∙ mark_one_wanted p ms s w

    mark_one_here :
        (p : Text) (ms : List Message) (s : State S)
        → is_some (lookup q want) ≡ false
        → q ≡ p
        → lookup q (mark_one want p ms s).clips ≡ some (invalid_state ms)
    mark_one_here p ms s w e =
        let u = ap (λ r. is_some (lookup r want)) (sym e) ∙ w in
        rw u (
          ap (λ r. lookup r (insert p (invalid_state ms) s.clips)) e
          ∙ lookup-insert_self p (invalid_state ms) s.clips)

    -- Another clip is marked where it is invalid.
    pub mark_invalid_unwanted :
        (bad : Dict (List Message)) (s : State S)
        → IsMap bad
        → is_some (lookup q want) ≡ false
        → lookup q (mark_invalid lib sink want bad s).clips
          ≡ marked (lookup q bad) (lookup q s.clips)
    unfolding mark_invalid
    mark_invalid_unwanted [] s i w = refl
    mark_invalid_unwanted ((p, ms) ∷ bad) s i w = elim (Bool-cases (same_text q p)) [
      | inr d ↦ rw d (
          mark_invalid_unwanted bad (mark_one want p ms s) i.1 w
          ∙ ap (marked (lookup q bad)) (mark_one_ne p ms s d))
      | inl t ↦
          let e = same_text_eq q p t in
          let fresh = ap (λ r. lookup r bad) e ∙ lookup_fresh p bad i.0 in
          rw t (
            mark_invalid_unwanted bad (mark_one want p ms s) i.1 w
            ∙ ap (λ o. marked o (lookup q (mark_one want p ms s).clips)) fresh
            ∙ mark_one_here p ms s w e)
    ]

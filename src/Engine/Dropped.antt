-- ===== src/Engine/Dropped.antt =====
-- The loops of `Apply` of internal/engine/engine.go over the clips that it drops and those that it
-- marks as invalid.
use docker_smartclips.Prelude.{
  ◌≡◌, ◌⊎◌, refl, sym, ap, subst, ◌∙◌, inl, inr, arith, Bool, true, false, Option, none, some, List,
  [], ◌∷◌, if◌then◌else◌, Bool-cases, Option-cases,
}
use docker_smartclips.Config.Names.{Text}
use docker_smartclips.Config.Validate.{Message}
use docker_smartclips.Layout.Part.{Layout}
use docker_smartclips.Dict.{
  Differs, has, Dict, keys, lookup, erase, lookup-erase_self, lookup-erase_ne, lookup_fresh,
  same_text_eq,
}
use docker_smartclips.Engine.State.{Library, ClipState, Sink, State}
use docker_smartclips.Engine.Update.{is_some, withdraw}
use docker_smartclips.Engine.Apply.{Sorted, drop_clip, drop_clips}
use docker_smartclips.Engine.UpdateLaws.{withdraw-served_self, withdraw-served_ne}
use docker_smartclips.Engine.Consistent.{ready_of, by_path}

-- What is served under `p`, and the clip there, after the drop: a wanted clip is served as before; any
-- other is withdrawn, and gone unless it is invalid.
abbrev pub IsDropped : Sorted → Text → Option Layout → Option ClipState → Type 0
IsDropped m p v o =
    (is_some (lookup p m.want) ≡ true → v ≡ ready_of o)
    × (is_some (lookup p m.want) ≡ false
        → (v ≡ none) × (is_some (lookup p m.invalid) ≡ false → o ≡ none))

module _ (lib : Library) {S : Type 0} (sink : Sink S) (m : Sorted) where
  -- Before or after the drop.
  abbrev Either : Text → State S → Type 0
  Either p s =
      (sink.served p s.sink ≡ ready_of (lookup p s.clips))
      ⊎ IsDropped m p (sink.served p s.sink) (lookup p s.clips)

  withdraw-none :
      (p : Text) (r : Option Layout) (s : S)
      → sink.served p s ≡ none
      → sink.served p (withdraw lib sink p r s) ≡ none
  withdraw-none p none s h = h
  withdraw-none p (some l) s h = sink.served-remove_self p s

  erased :
      (p : Text) (clips : Dict ClipState) (o : Option (List Message))
      → is_some o ≡ false
      → lookup p (if is_some o then clips else erase p clips) ≡ none
  erased p clips o h = rw h (lookup-erase_self p clips)

  erased_ne :
      (q p : Text) (clips : Dict ClipState) (b : Bool)
      → Differs q p
      → lookup q (if b then clips else erase p clips) ≡ lookup q clips
  erased_ne q p clips true d = refl
  erased_ne q p clips false d = lookup-erase_ne q p clips d

  pub drop_clip-none :
      (p : Text) (s : State S) → lookup p s.clips ≡ none → drop_clip lib sink m p s ≡ s
  unfolding drop_clip
  drop_clip-none p s h = rw (h, drop_clip) refl

  pub drop_clip_wanted :
      (p : Text) (s : State S) → is_some (lookup p m.want) ≡ true → drop_clip lib sink m p s ≡ s
  unfolding drop_clip
  drop_clip_wanted p s h = elim (Option-cases (lookup p s.clips)) [
    | inl e ↦ rw (e, drop_clip) refl
    | inr (st, e) ↦ rw (e, h, drop_clip) refl
  ]

  abbrev dropped : Text → ClipState → State S → State S
  dropped p st s = record s {
    sink = withdraw lib sink p st.ready s.sink;
    clips = if is_some (lookup p m.invalid) then s.clips else erase p s.clips;
  }

  pub drop_clip_unwanted :
      (p : Text) (st : ClipState) (s : State S)
      → lookup p s.clips ≡ some st
      → is_some (lookup p m.want) ≡ false
      → drop_clip lib sink m p s ≡ dropped p st s
  unfolding drop_clip
  drop_clip_unwanted p st s e h = rw (e, h, drop_clip) refl

  Either-none :
      (p : Text) (v : Option Layout) (o : Option ClipState)
      → o ≡ none
      → (v ≡ ready_of o) ⊎ IsDropped m p v o
      → IsDropped m p v o
  Either-none p v o e (inr d) = d
  Either-none p v o e (inl h) = (λ w. h, λ w. (h ∙ ap ready_of e, λ i. e))

  Either-wanted :
      (p : Text) (v : Option Layout) (o : Option ClipState)
      → is_some (lookup p m.want) ≡ true
      → (v ≡ ready_of o) ⊎ IsDropped m p v o
      → IsDropped m p v o
  Either-wanted p v o e (inr d) = d
  Either-wanted p v o e (inl h) = (λ w. h, λ w. absurd (cc))

  Either-unwanted :
      (p : Text) (st : ClipState) (s : State S)
      → lookup p s.clips ≡ some st
      → is_some (lookup p m.want) ≡ false
      → Either p s
      → sink.served p (withdraw lib sink p st.ready s.sink) ≡ none
  Either-unwanted p st s e w (inl h) =
      withdraw-served_self lib sink p st.ready s.sink (h ∙ ap ready_of e)
  Either-unwanted p st s e w (inr d) = withdraw-none p st.ready s.sink (d.1 w).0

  abbrev After : Text → State S → Type 0
  After p s = IsDropped m p (sink.served p s.sink) (lookup p s.clips)

  drop_clip_here : (p : Text) (s : State S) → Either p s → After p (drop_clip lib sink m p s)
  drop_clip_here p s h = elim (Option-cases (lookup p s.clips)) [
    | inl e ↦ subst (After p) (sym (drop_clip-none p s e)) (Either-none p _ _ e h)
    | inr (st, e) ↦ elim (Bool-cases (is_some (lookup p m.want))) [
      | inl w ↦ subst (After p) (sym (drop_clip_wanted p s w)) (Either-wanted p _ _ w h)
      | inr w ↦ subst (After p) (sym (drop_clip_unwanted p st s e w)) (
        (λ v. absurd (cc)),
        (λ v. (Either-unwanted p st s e w h, erased p s.clips (lookup p m.invalid))),
      )
    ]
  ]

  -- A drop leaves the other paths.
  pub record IsFrame (q : Text) (s t : State S) : Type 0 where
    pub served : sink.served q t.sink ≡ sink.served q s.sink
    pub clip : lookup q t.clips ≡ lookup q s.clips

  IsFrame-refl : (q : Text) (s t : State S) → t ≡ s → IsFrame q s t
  IsFrame-refl q s t e = record {
    served = ap (λ x. sink.served q x.sink) e;
    clip = ap (λ x. lookup q x.clips) e;
  }

  drop_clip-IsFrame :
      (q p : Text) (s : State S) → Differs q p → IsFrame q s (drop_clip lib sink m p s)
  drop_clip-IsFrame q p s d = elim (Option-cases (lookup p s.clips)) [
    | inl e ↦ IsFrame-refl q s _ (drop_clip-none p s e)
    | inr (st, e) ↦ elim (Bool-cases (is_some (lookup p m.want))) [
      | inl w ↦ IsFrame-refl q s _ (drop_clip_wanted p s w)
      | inr w ↦ subst (IsFrame q s) (sym (drop_clip_unwanted p st s e w)) (record {
        served = withdraw-served_ne lib sink q p st.ready s.sink d;
        clip = erased_ne q p s.clips (is_some (lookup p m.invalid)) d;
      })
    ]
  ]

  After-frame : (q : Text) (s t : State S) → IsFrame q s t → After q s → After q t
  After-frame q s t f h =
      subst (λ v. IsDropped m q v (lookup q t.clips)) (sym f.served)
        (subst (λ o. IsDropped m q (sink.served q s.sink) o) (sym f.clip) h)

  Either-frame : (q : Text) (s t : State S) → IsFrame q s t → Either q s → Either q t
  Either-frame q s t f (inl h) = inl (f.served ∙ h ∙ sym (ap ready_of f.clip))
  Either-frame q s t f (inr h) = inr (After-frame q s t f h)

  drop_clip-Either :
      (p : Text) (s : State S)
      → ((q : Text) → Either q s)
      → (q : Text) → Either q (drop_clip lib sink m p s)
  drop_clip-Either p s h =
      by_path _ p (inr (drop_clip_here p s (h p)))
        (λ q d. Either-frame q s _ (drop_clip-IsFrame q p s d) (h q))

  pub drop_clips_outside :
      (q : Text) (ps : List Text) (s : State S)
      → has q ps ≡ false
      → IsFrame q s (drop_clips lib sink m ps s)
  unfolding drop_clips
  drop_clips_outside q [] s h = record { served = refl; clip = refl }
  drop_clips_outside q (p ∷ ps) s h =
      let f = drop_clip-IsFrame q p s (ground arith) in
      let g = drop_clips_outside q ps (drop_clip lib sink m p s) (ground arith) in
      record { served = g.served ∙ f.served; clip = g.clip ∙ f.clip }

  drop_clips_inside :
      (q : Text) (ps : List Text) (s : State S)
      → ((r : Text) → Either r s)
      → has q ps ≡ true
      → After q (drop_clips lib sink m ps s)
  unfolding drop_clips
  drop_clips_inside q [] s h e = absurd (cc)
  drop_clips_inside q (p ∷ ps) s h e = elim (Bool-cases (has q ps)) [
    | inl t ↦ drop_clips_inside q ps (drop_clip lib sink m p s) (drop_clip-Either p s h) t
    | inr f ↦
        let same = same_text_eq q p (ground arith) in
        After-frame q (drop_clip lib sink m p s) _
          (drop_clips_outside q ps (drop_clip lib sink m p s) f)
          (subst (λ r. After r (drop_clip lib sink m p s)) (sym same) (drop_clip_here p s (h p)))
  ]

  -- Once the keys of the clips are gone through, every path is as the drop leaves it.
  pub drop_clips-IsDropped :
      (s : State S)
      → ((q : Text) → sink.served q s.sink ≡ ready_of (lookup q s.clips))
      → (q : Text) → After q (drop_clips lib sink m (keys s.clips) s)
  drop_clips-IsDropped s h q = elim (Bool-cases (has q (keys s.clips))) [
    | inl t ↦ drop_clips_inside q (keys s.clips) s (λ r. inl (h r)) t
    | inr f ↦
        After-frame q s _ (drop_clips_outside q (keys s.clips) s f)
          (Either-none q _ _ (lookup_fresh q s.clips f) (inl (h q)))
  ]

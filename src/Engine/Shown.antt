-- ===== src/Engine/Shown.antt =====
-- What `Apply` of internal/engine/engine.go shows of every path.
use docker_smartclips.Prelude.{
  ◌≡◌, refl, ap, ◌∙◌, inl, inr, arith, false, Option, none, some, List, [], ◌∷◌, Bool-cases,
}
use docker_smartclips.Config.Names.{Text, same_text}
use docker_smartclips.Config.Clip.{Clip}
use docker_smartclips.Config.Validate.{Message}
use docker_smartclips.Layout.Part.{Layout}
use docker_smartclips.Dict.{
  Differs, has, Dict, keys, lookup, IsMap, lookup-insert_self, lookup-insert_ne, same_text_eq,
}
use docker_smartclips.Engine.State.{Library, System, File, ClipState, Sink, State}
use docker_smartclips.Engine.Update.{is_some}
use docker_smartclips.Engine.Apply.{
  Sorted, invalid_state, drop_clips, state_or_zero, apply_clip, apply_clips, sorted_clips, apply,
}
use docker_smartclips.Engine.Sound.{HasKeys}
use docker_smartclips.Engine.UpdateLaws.{update-Keeps}
use docker_smartclips.Engine.Consistent.{ready_of, IsConsistent}
use docker_smartclips.Engine.Dropped.{drop_clips-IsDropped}
use docker_smartclips.Engine.Marked.{marked, mark_invalid_unwanted}
use docker_smartclips.Engine.Applied.{pruned, sorted_maps, apply-IsConsistent}

-- What is served under a path, and its clip, where the file wants this clip there, or marks it with
-- these messages, or neither.
abbrev pub Shown : Option Clip → Option (List Message) → Option Layout → Option ClipState → Type 0
Shown (some c) bad v o = (st : ClipState) × (o ≡ some st) × (st.clip ≡ c) × (v ≡ st.ready)
Shown none (some ms) v o = (o ≡ some (invalid_state ms)) × (v ≡ none)
Shown none none v o = (o ≡ none) × (v ≡ none)

module _ (lib : Library) (hashes : HasKeys lib) {S : Type 0} (sink : Sink S) (w : System) where
  apply_clip_ne :
      (q p : Text) (c : Clip) (s : State S)
      → Differs q p
      → lookup q (apply_clip lib sink w p c s).clips ≡ lookup q s.clips
  unfolding apply_clip
  apply_clip_ne q p c s d = lookup-insert_ne q p _ s.clips d

  apply_clips_outside :
      (q : Text) (want : Dict Clip) (s : State S)
      → has q (keys want) ≡ false
      → lookup q (apply_clips lib sink w want s).clips ≡ lookup q s.clips
  unfolding apply_clips
  apply_clips_outside q [] s h = refl
  apply_clips_outside q ((p, c) ∷ want) s h =
      apply_clips_outside q want (apply_clip lib sink w p c s) (ground arith)
      ∙ apply_clip_ne q p c s (ground arith)

  -- The clip at `q` is `c`.
  abbrev IsAt : Text → Clip → State S → Type 0
  IsAt q c s = (st : ClipState) × (lookup q s.clips ≡ some st) × (st.clip ≡ c)

  apply_clip_here : (p : Text) (c : Clip) (s : State S) → IsAt p c (apply_clip lib sink w p c s)
  unfolding apply_clip
  apply_clip_here p c s =
      let old = state_or_zero (lookup p s.clips) in
      (_, lookup-insert_self p _ s.clips, (update-Keeps lib sink s.file p c w old s.sink).clip)

  apply_clips_inside :
      (q : Text) (c : Clip) (want : Dict Clip) (s : State S)
      → IsMap want
      → lookup q want ≡ some c
      → IsAt q c (apply_clips lib sink w want s)
  unfolding apply_clips
  apply_clips_inside q c [] s m e = absurd (cc)
  apply_clips_inside q c ((p, d) ∷ want) s m e = elim (Bool-cases (same_text q p)) [
    | inr n ↦ apply_clips_inside q c want (apply_clip lib sink w p d s) m.1 (rw n at e)
    | inl t ↦
        let same = same_text_eq q p t in
        let fresh = ap (λ r. has r (keys want)) same ∙ m.0 in
        let (st, at, clip) = apply_clip_here p d s in
        (
          st,
          apply_clips_outside q want (apply_clip lib sink w p d s) fresh
              ∙ ap (λ r. lookup r (apply_clip lib sink w p d s).clips) same
              ∙ at,
          clip ∙ (let x = rw t at e in cc),
        )
  ]

  module _ (f : File) (s : State S) (h : IsConsistent sink s) where
    abbrev m : Sorted
    m = sorted_clips lib sink w f

    abbrev start : State S
    start = record s { file = some f }

    -- The state before the wanted clips are updated.
    abbrev mid : State S
    mid = pruned lib hashes sink m start

    abbrev before : Text → Option ClipState
    before q = lookup q (drop_clips lib sink m (keys s.clips) start).clips

    unwanted :
        (q : Text)
        → lookup q m.want ≡ none
        → lookup q (apply_clips lib sink w m.want mid).clips
          ≡ marked
              (lookup q m.invalid)
              (lookup q (drop_clips lib sink m (keys s.clips) start).clips)
    unwanted q e =
        apply_clips_outside q m.want mid (absent q m.want e)
        ∙ mark_invalid_unwanted lib sink m.want q m.invalid
            (drop_clips lib sink m (keys s.clips) start) (sorted_maps lib hashes sink w f).1
            (ap is_some e)
      where
        absent : (q : Text) (d : Dict Clip) → lookup q d ≡ none → has q (keys d) ≡ false
        absent q [] e = refl
        absent q ((j, c) ∷ d) e = elim (Bool-cases (same_text q j)) [
          | inl t ↦ absurd (let x = rw t at e in cc)
          | inr n ↦ rw n (absent q d (rw n at e))
        ]

    Shown-from :
        (q : Text) (o : Option Clip) (b : Option (List Message)) (final : State S)
        → lookup q m.want ≡ o
        → lookup q m.invalid ≡ b
        → final.clips ≡ (apply_clips lib sink w m.want mid).clips
        → sink.served q final.sink ≡ ready_of (lookup q final.clips)
        → Shown o b (sink.served q final.sink) (lookup q final.clips)
    Shown-from q (some c) b final e i same v =
        let (st, at, clip) =
          apply_clips_inside q c m.want mid (sorted_maps lib hashes sink w f).0 e in
        let here = ap (lookup q) same ∙ at in (st, here, clip, v ∙ ap ready_of here)
    Shown-from q none (some ms) final e i same v =
        let here = ap (lookup q) same ∙ unwanted q e ∙ ap (λ b. marked b (before q)) i in
        (here, v ∙ ap ready_of here)
    Shown-from q none none final e i same v =
        let d = drop_clips-IsDropped lib sink m start h.serves q in
        let (withdrawn, gone) = d.1 (ap is_some e) in
        let here =
          ap (lookup q) same
          ∙ unwanted q e
          ∙ ap (λ b. marked b (before q)) i
          ∙ gone (ap is_some i) in
        (here, v ∙ ap ready_of here)

    pub apply-Shown :
        (q : Text)
        → Shown
            (lookup q m.want)
            (lookup q m.invalid)
            (sink.served q (apply lib sink w f s).sink)
            (lookup q (apply lib sink w f s).clips)
    unfolding apply
    apply-Shown q =
        Shown-from q (lookup q m.want) (lookup q m.invalid) (apply lib sink w f s) refl refl refl
          ((apply-IsConsistent lib hashes sink w f s h).serves q)

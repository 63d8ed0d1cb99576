-- ===== src/Engine/Applied.antt =====
-- `Apply` of internal/engine/engine.go keeps the state consistent.
use docker_smartclips.Prelude.{
  ◌≡◌, refl, sym, ap, subst, ◌∙◌, inl, inr, true, false, Option, none, some, List, [], ◌∷◌,
  Bool-cases, All,
}
use docker_smartclips.Config.Names.{Text, same_text, split_slashes}
use docker_smartclips.Config.Paths.{IsSafe}
use docker_smartclips.Config.Clip.{Clip}
use docker_smartclips.Config.Validate.{Message, validate}
use docker_smartclips.Dict.{
  has, Dict, keys, lookup, IsMap, lookup_fresh, same_text_eq, same_text_refl,
}
use docker_smartclips.Engine.State.{Library, System, File, Work, ClipState, Sink, State}
use docker_smartclips.Engine.Update.{is_some}
use docker_smartclips.Engine.Apply.{
  Sorted, invalid_state, drop_clips, mark_invalid, apply_clip, apply_clips, sorted_clips, apply,
}
use docker_smartclips.Engine.Sound.{HasKeys}
use docker_smartclips.Engine.Queue.{IsQueue}
use docker_smartclips.Engine.Wanted.{sort_clips-IsMap, wanted-IsValid}
use docker_smartclips.Engine.Consistent.{
  Holds, ready_of, Tracks, IsConsistent, apply_clip-IsConsistent,
}
use docker_smartclips.Engine.Dropped.{drop_clips-IsDropped}
use docker_smartclips.Engine.Marked.{
  marked, IsKept-Holds, drop_clips-IsPruned, mark_invalid_same, mark_invalid_wanted,
  mark_invalid_unwanted,
}

abbrev pub AreSafe : Text → Type 0
AreSafe p = All IsSafe (split_slashes p)

has_found {ℓ} :
    {V : Type ℓ} (q : Text) (d : Dict V) (v : V) → lookup q d ≡ some v → has q (keys d) ≡ true
has_found q d v e = elim (Bool-cases (has q (keys d))) [
  | inl t ↦ t
  | inr f ↦ absurd (let x = lookup_fresh q d f in cc)
]

-- A predicate on the keys that are found holds of every entry of a map.
entries_of {ℓ} :
    {V : Type ℓ} (P : Text → Type 0) (d : Dict V)
    → IsMap d
    → ((q : Text) (v : V) → lookup q d ≡ some v → P q)
    → All (λ e. P e.0) d
entries_of P [] m f = tt
entries_of P ((j, w) ∷ d) m f = (
  f j w (rw (same_text_refl j) refl),
  entries_of P d m.1 (λ q v e. elim (Bool-cases (same_text q j)) [
    | inr n ↦ f q v (rw n e)
    | inl t ↦ absurd (
        let h = ap (λ r. has r (keys d)) (sym (same_text_eq q j t)) ∙ has_found q d v e in
        let k = m.0 in cc)
  ]),
)

invalid_state-Tracks : (p : Text) (k : Work) (ms : List Message) → Tracks p k (invalid_state ms)
invalid_state-Tracks p k ms = record {
  sound = record { shows = refl; accepted = tt; keyless = λ e. refl; fresh = λ e. absurd (cc) };
  set = refl;
  waits = λ e. absurd (cc);
  safe = λ e. absurd (cc);
}

marked-Holds :
    (p : Text) (k : Work) (b : Option (List Message)) (o : Option ClipState)
    → Holds (Tracks p k) o
    → Holds (Tracks p k) (marked b o)
marked-Holds p k none o h = h
marked-Holds p k (some ms) o h = invalid_state-Tracks p k ms

marked_ready :
    (b : Option (List Message)) (o : Option ClipState)
    → (is_some b ≡ false → o ≡ none)
    → ready_of (marked b o) ≡ none
marked_ready none o h = ap ready_of (h refl)
marked_ready (some ms) o h = refl

module _ (lib : Library) (hashes : HasKeys lib) {S : Type 0} (sink : Sink S) where
  -- The state between the drop and the update of the wanted clips.
  abbrev pub pruned : Sorted → State S → State S
  pruned m s = mark_invalid lib sink m.want m.invalid (drop_clips lib sink m (keys s.clips) s)

  module _ (m : Sorted) (maps : IsMap m.invalid) (s : State S) (h : IsConsistent sink s) where
    abbrev less : State S
    less = drop_clips lib sink m (keys s.clips) s

    same_sink : (pruned m s).sink ≡ less.sink
    same_sink = (mark_invalid_same lib sink m.want m.invalid less).0

    same_work : (pruned m s).work ≡ s.work
    same_work =
        (mark_invalid_same lib sink m.want m.invalid less).1
        ∙ (drop_clips-IsPruned lib sink m (keys s.clips) s).work

    pruned_serves :
        (q : Text) → sink.served q (pruned m s).sink ≡ ready_of (lookup q (pruned m s).clips)
    pruned_serves q =
        let d = drop_clips-IsDropped lib sink m s h.serves q in
        elim (Bool-cases (is_some (lookup q m.want))) [
          | inl w ↦
              ap (sink.served q) same_sink
              ∙ d.0 w
              ∙ sym (ap ready_of (mark_invalid_wanted lib sink m.want q m.invalid less w))
          | inr w ↦
              let (v, o) = d.1 w in
              ap (sink.served q) same_sink
              ∙ v
              ∙ sym (
                  ap ready_of (mark_invalid_unwanted lib sink m.want q m.invalid less maps w)
                  ∙ marked_ready (lookup q m.invalid) (lookup q less.clips) o)
        ]

    less-Tracks : (q : Text) → Holds (Tracks q s.work) (lookup q less.clips)
    less-Tracks q =
        IsKept-Holds _ _ _ ((drop_clips-IsPruned lib sink m (keys s.clips) s).clip q) (h.tracks q)

    pruned-Tracks : (q : Text) → Holds (Tracks q s.work) (lookup q (pruned m s).clips)
    pruned-Tracks q = elim (Bool-cases (is_some (lookup q m.want))) [
      | inl w ↦
          subst (Holds (Tracks q s.work))
            (sym (mark_invalid_wanted lib sink m.want q m.invalid less w)) (less-Tracks q)
      | inr w ↦
          subst (Holds (Tracks q s.work))
            (sym (mark_invalid_unwanted lib sink m.want q m.invalid less maps w))
            (marked-Holds q s.work (lookup q m.invalid) (lookup q less.clips) (less-Tracks q))
    ]

    pub pruned-IsConsistent : IsConsistent sink (pruned m s)
    pruned-IsConsistent = record {
      serves = pruned_serves;
      tracks = λ q.
          subst (λ k. Holds (Tracks q k) (lookup q (pruned m s).clips)) (sym same_work)
            (pruned-Tracks q);
      queue = subst IsQueue (sym same_work) h.queue;
    }

  pub apply_clips-IsConsistent :
      (w : System) (want : Dict Clip) (s : State S)
      → All (λ e. AreSafe e.0) want
      → IsConsistent sink s
      → IsConsistent sink (apply_clips lib sink w want s)
  unfolding apply_clips
  apply_clips-IsConsistent w [] s a h = h
  apply_clips-IsConsistent w ((p, c) ∷ want) s a h =
      apply_clips-IsConsistent w want (apply_clip lib sink w p c s) a.1
        (apply_clip-IsConsistent sink lib hashes w p c s a.0 h)

  with_file :
      (f : File) (s : State S)
      → IsConsistent sink s
      → IsConsistent sink (record s { file = some f })
  with_file f s h = record { serves = h.serves; tracks = h.tracks; queue = h.queue }

  pub sorted_maps :
      (w : System) (f : File)
      → IsMap (sorted_clips lib sink w f).want × IsMap (sorted_clips lib sink w f).invalid
  sorted_maps w f =
      sort_clips-IsMap (validate lib.floats lib.lower w.resolve f.clips) 0 f.clips
        (record { want = []; invalid = [] }) (tt, tt)

  pub wanted_safe :
      (w : System) (f : File) (q : Text) (c : Clip)
      → lookup q (sorted_clips lib sink w f).want ≡ some c
      → AreSafe q
  wanted_safe w f q c e =
      let (valid, same) = wanted-IsValid lib.floats lib.lower w.resolve f.clips q c e in
      subst AreSafe same valid.names

  pub apply-IsConsistent :
      (w : System) (f : File) (s : State S)
      → IsConsistent sink s
      → IsConsistent sink (apply lib sink w f s)
  unfolding apply
  apply-IsConsistent w f s h =
      let m = sorted_clips lib sink w f in
      let (want, bad) = sorted_maps w f in
      let p = pruned-IsConsistent m bad (record s { file = some f }) (with_file f s h) in
      let a =
        apply_clips-IsConsistent w m.want (pruned m (record s { file = some f }))
          (entries_of AreSafe m.want want (wanted_safe w f)) p in
      record { serves = a.serves; tracks = a.tracks; queue = a.queue }

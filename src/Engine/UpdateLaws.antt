-- ===== src/Engine/UpdateLaws.antt =====
-- What `applyClip` of internal/engine/engine.go keeps of one clip: the sink serves its layout, a clip
-- that waits is queued, its status fits its layout, and its layout is one that `Finalize` accepted.
use docker_smartclips.Prelude.{
  ◌≡◌, ◌⊎◌, refl, ap, ◌∙◌, inl, inr, arith, true, false, not, ◌&&◌, Option, none, some, Bool-cases,
  Option-cases,
}
use docker_smartclips.Config.Names.{Text, same_text, is_empty}
use docker_smartclips.Config.Clip.{Clip}
use docker_smartclips.Config.Validate.{Resolved, found, unresolved}
use docker_smartclips.Dict.{Differs, same_text_eq}
use docker_smartclips.Layout.Part.{FileId, Layout}
use docker_smartclips.Layout.Stored.{
  format_version, StatResult, stat_ok, stat_error, not_regular, stat,
}
use docker_smartclips.Engine.State.{
  Library, System, Failure, input_error, file_error, irregular, is_pending, is_failed, ClipState,
  File, Sink,
}
use docker_smartclips.Engine.Update.{
  data_kept, load_valid, is_replaced, clip_key, withdraw, publish, republish, Outcome, fail, keep,
  load_or_wait, update_from, update, metadata_equal,
}
use docker_smartclips.Engine.Sound.{
  AreAccepted, IsSound, HasKeys, is_unset, load_valid-IsAccepted, status_of-Shows, ready_waits,
  set_ready, ready_set,
}

module _ (lib : Library) {S : Type 0} (sink : Sink S) where
  pub withdraw-served_self :
      (p : Text) (r : Option Layout) (s : S)
      → sink.served p s ≡ r
      → sink.served p (withdraw lib sink p r s) ≡ none
  withdraw-served_self p none s h = h
  withdraw-served_self p (some l) s h = sink.served-remove_self p s

  pub withdraw-served_ne :
      (q p : Text) (r : Option Layout) (s : S)
      → Differs q p
      → sink.served q (withdraw lib sink p r s) ≡ sink.served q s
  withdraw-served_ne q p none s d = refl
  withdraw-served_ne q p (some l) s d = sink.served-remove_ne q p s d

  module _ (file : Option File) (p : Text) (c : Clip) where
    republish-served_self :
        (r : Option Layout) (s : S)
        → sink.served p s ≡ r
        → sink.served p (republish lib sink file p c r s) ≡ r
    unfolding publish
    republish-served_self none s h = h
    republish-served_self (some l) s h = sink.served-set_self p l _ _ s

    republish-served_ne :
        (q : Text) (r : Option Layout) (s : S)
        → Differs q p
        → sink.served q (republish lib sink file p c r s) ≡ sink.served q s
    unfolding publish
    republish-served_ne q none s d = refl
    republish-served_ne q (some l) s d = sink.served-set_ne q p l _ _ s d

    -- What an outcome owes to the clip's state `st` and the sink `s`.
    pub record Keeps (st : ClipState) (s : S) (o : Outcome S) : Type 0 where
      pub here : sink.served p s ≡ st.ready → sink.served p o.sink ≡ o.state.ready
      pub elsewhere : (q : Text) → Differs q p → sink.served q o.sink ≡ sink.served q s
      pub waits :
          is_pending o.state.status ≡ true
          → (o.waits ≡ true) ⊎ ((is_pending st.status ≡ true) × (o.state.key ≡ st.key))
      pub sound : HasKeys lib → IsSound st → IsSound o.state × (is_unset o.state.status ≡ false)
      pub clip : o.state.clip ≡ c

    fail-Keeps : (st : ClipState) (e : Failure) (s : S) → Keeps st s (fail lib sink p c st e s)
    unfolding fail
    fail-Keeps st e s = record {
      here = λ h. withdraw-served_self p st.ready s h;
      elsewhere = λ q d. withdraw-served_ne q p st.ready s d;
      waits = λ h. absurd (cc);
      sound = λ k h. (
        record { shows = refl; accepted = tt; keyless = λ e. refl; fresh = λ e. absurd (cc) },
        refl,
      );
      clip = refl;
    }

    not_unset :
        (st : ClipState) (origin : FileId)
        → HasKeys lib
        → IsSound st
        → st.key ≡ clip_key lib c origin
        → is_unset st.status ≡ false
    not_unset st origin k h e = elim (Bool-cases (is_unset st.status)) [
      | inr f ↦ f
      | inl t ↦ absurd (
          let a = h.fresh t in
          let b = ap is_empty e in let d = k format_version origin c.start c.finish c.output in cc)
    ]

    keep-Keeps :
        (st : ClipState) (origin : FileId) (s : S)
        → same_text st.key (clip_key lib c origin) ≡ true
        → Keeps st s (keep lib sink file p c st s)
    unfolding keep
    keep-Keeps st origin s e = record {
      here = λ h. elim (Bool-cases (metadata_equal lib st.clip c)) [
        | inl t ↦ rw t h
        | inr f ↦ rw f (republish-served_self st.ready s h)
      ];
      elsewhere = λ q d. elim (Bool-cases (metadata_equal lib st.clip c)) [
        | inl t ↦ rw t refl
        | inr f ↦ rw f (republish-served_ne q st.ready s d)
      ];
      waits = λ h. inr (h, refl);
      sound = λ k h. (
        record { shows = h.shows; accepted = h.accepted; keyless = h.keyless; fresh = h.fresh },
        not_unset st origin k h (same_text_eq st.key (clip_key lib c origin) e),
      );
      clip = refl;
    }

    module _ (w : System) (input : Text) (origin : FileId) where
      abbrev key : Text
      key = clip_key lib c origin

      key_missing : HasKeys lib → ¬ (is_empty key ≡ true)
      key_missing k e = let d = k format_version origin c.start c.finish c.output in cc

      -- What a clip with another version owes.
      load_or_wait-Keeps :
          (st : ClipState) (old : Option Layout) (s0 s : S)
          → (sink.served p s0 ≡ st.ready → sink.served p s ≡ old)
          → ((q : Text) → Differs q p → sink.served q s ≡ sink.served q s0)
          → (AreAccepted st.ready → AreAccepted old)
          → Keeps st s0 (load_or_wait lib sink w file p c input key old s)
      unfolding load_or_wait publish
      load_or_wait-Keeps st old s0 s h d a = elim (Option-cases (load_valid w key)) [
        | inl e ↦
            rw (e, load_or_wait)
              (record {
                here = h;
                elsewhere = d;
                waits = λ h. inl refl;
                sound = λ k h. (
                  record {
                    shows = tt;
                    accepted = a h.accepted;
                    keyless = λ e. absurd (key_missing k e);
                    fresh = λ e. absurd (cc);
                  },
                  refl,
                );
                clip = refl;
              })
        | inr (l, e) ↦
            rw (e, load_or_wait)
              (record {
                here = λ h. sink.served-set_self p l _ _ s;
                elsewhere = λ q k. sink.served-set_ne q p l _ _ s k ∙ d q k;
                waits = λ h. absurd (ready_waits w l h);
                sound = λ k h. (
                  record {
                    shows = status_of-Shows w l;
                    accepted = load_valid-IsAccepted w key l e;
                    keyless = λ e. absurd (key_missing k e);
                    fresh = λ e. absurd (ready_set w l e);
                  },
                  set_ready w l,
                );
                clip = refl;
              })
      ]

    update_from-Keeps :
        (w : System) (input : Text) (origin : FileId) (st : ClipState) (s : S)
        → Keeps st s (update_from lib sink w file p c input origin st s)
    unfolding update_from
    update_from-Keeps w input origin st s =
        let key = clip_key lib c origin in
        elim (Bool-cases
          (same_text st.key key && (not (is_failed st.status) && data_kept w st.ready))) [
            | inl t ↦ rw t (keep-Keeps st origin s (ground arith))
            | inr f ↦ elim (Bool-cases (is_replaced origin st.ready)) [
              | inl t ↦
                  rw (f, t)
                    (load_or_wait-Keeps w input origin st none s (sink.remove_clip p s)
                      (λ h. sink.served-remove_self p s) (λ q d. sink.served-remove_ne q p s d)
                      (λ h. tt))
              | inr g ↦
                  rw (f, g)
                    (load_or_wait-Keeps w input origin st st.ready s s (λ h. h) (λ q d. refl)
                      (λ h. h))
            ]
          ]

    -- `applyClip` leaves the sink serving what the clip is ready with and the other clips as they were;
    -- a clip that waits afterwards is queued, or waited before under the same key.
    pub update-Keeps :
        (w : System) (st : ClipState) (s : S) → Keeps st s (update lib sink w file p c st s)
    unfolding update
    update-Keeps w st s = at_input (w.resolve c.input)
      where
        at_origin :
            (input : Text) (r : StatResult)
            → Keeps st s (elim r [
              | stat_error e ↦ fail lib sink p c st (file_error e) s
              | not_regular ↦ fail lib sink p c st irregular s
              | stat_ok origin ↦ update_from lib sink w file p c input origin st s
            ])
        at_origin input (stat_error e) = fail-Keeps st (file_error e) s
        at_origin input not_regular = fail-Keeps st irregular s
        at_origin input (stat_ok origin) = update_from-Keeps w input origin st s

        at_input :
            (r : Resolved)
            → Keeps st s (elim r [
              | unresolved e ↦ fail lib sink p c st (input_error e) s
              | found input ↦ elim (stat w.os_stat input) [
                | stat_error e ↦ fail lib sink p c st (file_error e) s
                | not_regular ↦ fail lib sink p c st irregular s
                | stat_ok origin ↦ update_from lib sink w file p c input origin st s
              ]
            ])
        at_input (unresolved e) = fail-Keeps st (input_error e) s
        at_input (found input) = at_origin input (stat w.os_stat input)

-- ===== src/Engine/Served.antt =====
-- What the mount serves, in every state of internal/engine/engine.go.
use docker_smartclips.Prelude.{ℕ, ◌≡◌, refl, sym, ap, ◌∙◌, inl, inr, Option, none, some, Bool-cases}
use docker_smartclips.Config.Names.{Text, is_empty}
use docker_smartclips.Dict.{lookup}
use docker_smartclips.Io.{ok}
use docker_smartclips.Layout.Part.{Layout}
use docker_smartclips.Engine.State.{Library, ClipState, Work, Sink, State, new}
use docker_smartclips.Engine.Step.{Reach}
use docker_smartclips.Engine.Sound.{AreAccepted, IsAccepted, HasKeys}
use docker_smartclips.Engine.Consistent.{Holds, ready_of, Tracks}
use docker_smartclips.Engine.Applied.{AreSafe}
use docker_smartclips.Engine.Reached.{Reach-IsConsistent, new-IsConsistent}

-- A path that is served is safe, and the engine has a clip there, ready with an accepted layout.
pub record IsServable {S : Type 0} (p : Text) (l : Layout) (s : State S) : Type 0 where
  pub path : AreSafe p
  pub layout : IsAccepted l
  pub clip : (st : ClipState) × (lookup p s.clips ≡ some st) × (st.ready ≡ some l)

servable :
    {S : Type 0} (p : Text) (l : Layout) (k : Work) (s : State S) (o : Option ClipState)
    → lookup p s.clips ≡ o
    → Holds (Tracks p k) o
    → ready_of o ≡ some l
    → IsServable p l s
servable p l k s none e h r = absurd (cc)
servable p l k s (some st) e h r = record {
  path = h.safe (elim (Bool-cases (is_empty st.key)) [
    | inr f ↦ f
    | inl t ↦ absurd (let x = h.sound.keyless t in cc)
  ]);
  layout = accepted st.ready r h.sound.accepted;
  clip = (st, e, r);
}
  where
    accepted : (o : Option Layout) → o ≡ some l → AreAccepted o → IsAccepted l
    accepted none q a = absurd (cc)
    accepted (some m) q a = let same : m ≡ l = cc in (a.0, a.1 ∙ ap ok same)

module _ (lib : Library) (hashes : HasKeys lib) {S : Type 0} (sink : Sink S) where
  -- Whatever the system answers and in whatever order the threads run, from `New` over an empty sink on:
  -- what is served stands under a path whose components are all safe, its layout was accepted by
  -- `Finalize`, and it is the layout that the engine's clip of this path is ready with.
  pub served-IsServable :
      (workers : ℕ) (start : S) (s : State S) (p : Text) (l : Layout)
      → ((q : Text) → sink.served q start ≡ none)
      → Reach lib sink workers (new start) s
      → sink.served p s.sink ≡ some l
      → IsServable p l s
  served-IsServable workers start s p l empty r e =
      let h = Reach-IsConsistent lib hashes sink (new-IsConsistent lib hashes sink start empty) r in
      servable p l s.work s (lookup p s.clips) refl (h.tracks p) (sym (h.serves p) ∙ e)

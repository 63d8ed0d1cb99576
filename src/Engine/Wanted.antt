-- ===== src/Engine/Wanted.antt =====
-- The clips that `Apply` of internal/engine/engine.go wants are the valid clips of the file.
use docker_smartclips.Prelude.{
  ℕ, ◌+◌, ◌≤◌, ◌<◌, ◌≡◌, ◌⊎◌, refl, sym, ap, ap₂, subst, ◌∙◌, inl, inr, arith, true, false, some,
  List, [], ◌∷◌, ◌++◌, ◌==◌, Bool-cases, append-nil,
}
use docker_smartclips.Floats.{Floats}
use docker_smartclips.Config.Names.{Text, same_text}
use docker_smartclips.Config.Clip.{Clip, path}
use docker_smartclips.Config.Validate.{
  Resolved, Message, Problem, see, clip_problems, at_index, validate_loop, validate,
}
use docker_smartclips.Config.Accepted.{IsValid, clip_good}
use docker_smartclips.Dict.{
  Dict, lookup, insert, IsMap, insert-IsMap, same_text_eq, lookup-insert_ne, lookup-insert_self,
}
use docker_smartclips.Engine.Apply.{messages, Sorted, sort_clip, sort_clips}

-- `c` is one of the clips, which stand from `i` on; it has no problem, and its path is `p`.
abbrev pub Wants : List Problem → ℕ → List Clip → Text → Clip → Type 0
Wants ps i [] p c = ⊥
Wants ps i (d ∷ clips) p c =
    ((d ≡ c) × (messages i ps ≡ []) × (path d ≡ p)) ⊎ Wants ps (i + 1) clips p c

wanted_first :
    (ps : List Problem) (i : ℕ) (d : Clip) (ms : List Message) (m : Sorted) (p : Text) (c : Clip)
    → messages i ps ≡ ms
    → lookup p (sort_clip d ms m).want ≡ some c
    → (lookup p m.want ≡ some c) ⊎ ((d ≡ c) × (messages i ps ≡ []) × (path d ≡ p))
wanted_first ps i d (e ∷ es) m p c h k = inl k
wanted_first ps i d [] m p c h k = elim (Bool-cases (same_text p (path d))) [
  | inr f ↦ inl (sym (lookup-insert_ne p (path d) d m.want f) ∙ k)
  | inl t ↦
      let q = same_text_eq p (path d) t in
      inr (
        some_eq (
            sym (lookup-insert_self (path d) d m.want)
            ∙ ap (λ x. lookup x (insert (path d) d m.want)) (sym q)
            ∙ k),
        h,
        sym q,
      )
]
  where
    some_eq : {a b : Clip} → some a ≡ some b → a ≡ b
    some_eq e = cc

pub sort_clips-Wants :
    (ps : List Problem) (i : ℕ) (clips : List Clip) (m : Sorted) (p : Text) (c : Clip)
    → lookup p (sort_clips ps i clips m).want ≡ some c
    → (lookup p m.want ≡ some c) ⊎ Wants ps i clips p c
unfolding sort_clips
sort_clips-Wants ps i [] m p c h = inl h
sort_clips-Wants ps i (d ∷ clips) m p c h =
    elim (sort_clips-Wants ps (i + 1) clips (sort_clip d (messages i ps) m) p c h) [
      | inr r ↦ inr (inr r)
      | inl k ↦ elim (wanted_first ps i d (messages i ps) m p c refl k) [
        | inl a ↦ inl a
        | inr b ↦ inr (inl b)
      ]
    ]

-- Both maps that are sorted out hold no path twice.
AreMaps : Sorted → Type 0
AreMaps m = IsMap m.want × IsMap m.invalid

sort_clip-AreMaps :
    (c : Clip) (ms : List Message) (m : Sorted) → AreMaps m → AreMaps (sort_clip c ms m)
unfolding AreMaps
sort_clip-AreMaps c [] m h = (insert-IsMap (path c) c m.want h.0, h.1)
sort_clip-AreMaps c (e ∷ es) m h = (h.0, insert-IsMap (path c) (e ∷ es) m.invalid h.1)

pub sort_clips-IsMap :
    (ps : List Problem) (i : ℕ) (clips : List Clip) (m : Sorted)
    → IsMap m.want × IsMap m.invalid
    → IsMap (sort_clips ps i clips m).want × IsMap (sort_clips ps i clips m).invalid
unfolding sort_clips AreMaps
sort_clips-IsMap ps i [] m h = h
sort_clips-IsMap ps i (c ∷ clips) m h =
    sort_clips-IsMap ps (i + 1) clips (sort_clip c (messages i ps) m)
      (sort_clip-AreMaps c (messages i ps) m h)

messages-append :
    (i : ℕ) (xs ys : List Problem) → messages i (xs ++ ys) ≡ messages i xs ++ messages i ys
messages-append i [] ys = refl
messages-append i (x ∷ xs) ys = elim (Bool-cases (x.index == i)) [
  | inl t ↦ rw t (ap (λ t. x.message ∷ t) (messages-append i xs ys))
  | inr f ↦ rw f (messages-append i xs ys)
]

module _ (floats : Floats) (lower : Text → Text) (resolve : Text → Resolved) where
  abbrev stated : ℕ → List Message → List Problem
  stated = at_index floats lower resolve

  messages_here : (i : ℕ) (ms : List Message) → messages i (stated i ms) ≡ ms
  messages_here i [] = refl
  messages_here i (m ∷ ms) =
      let e : (i == i) ≡ true = ground arith in rw e (ap (λ t. m ∷ t) (messages_here i ms))

  messages_elsewhere : (k i : ℕ) (ms : List Message) → k < i → messages k (stated i ms) ≡ []
  messages_elsewhere k i [] h = refl
  messages_elsewhere k i (m ∷ ms) h =
      let e : (i == k) ≡ false = ground arith in rw e (messages_elsewhere k i ms h)

  messages_above : (k i : ℕ) (ms : List Message) → i < k → messages k (stated i ms) ≡ []
  messages_above k i [] h = refl
  messages_above k i (m ∷ ms) h =
      let e : (i == k) ≡ false = ground arith in rw e (messages_above k i ms h)

  abbrev found_in : Dict ℕ → Clip → List Message
  found_in seen c = clip_problems floats lower resolve c (lookup (lower (path c)) seen)

  abbrev seen_with : ℕ → Dict ℕ → Clip → Dict ℕ
  seen_with i seen c = see (lower (path c)) i (lookup (lower (path c)) seen) seen

  abbrev loop : ℕ → Dict ℕ → List Clip → List Problem
  loop = validate_loop floats lower resolve

  messages-loop :
      (k i : ℕ) (seen : Dict ℕ) (c : Clip) (clips : List Clip)
      → messages k (loop i seen (c ∷ clips))
        ≡ messages k (stated i (found_in seen c))
          ++ messages k (loop (i + 1) (seen_with i seen c) clips)
  unfolding validate_loop
  messages-loop k i seen c clips =
      messages-append k (stated i (found_in seen c)) (loop (i + 1) (seen_with i seen c) clips)

  -- The loop from clip `i` on reports nothing of the clips before.
  validate_loop_later :
      (k i : ℕ) (seen : Dict ℕ) (clips : List Clip) → k < i → messages k (loop i seen clips) ≡ []
  unfolding validate_loop
  validate_loop_later k i seen [] h = refl
  validate_loop_later k i seen (c ∷ clips) h =
      messages-loop k i seen c clips
      ∙ ap₂ (λ (a b : List Message). a ++ b) (messages_elsewhere k i (found_in seen c) h)
          (validate_loop_later k (i + 1) (seen_with i seen c) clips (omega arith))

  -- Clip `i` is reported with its own problems.
  loop_first :
      (i : ℕ) (seen : Dict ℕ) (c : Clip) (clips : List Clip)
      → messages i (loop i seen (c ∷ clips)) ≡ found_in seen c
  loop_first i seen c clips =
      messages-loop i i seen c clips
      ∙ ap₂ (λ (a b : List Message). a ++ b) (messages_here i (found_in seen c))
          (validate_loop_later i (i + 1) (seen_with i seen c) clips (omega arith))
      ∙ append-nil (found_in seen c)

  loop_next :
      (k i : ℕ) (seen : Dict ℕ) (c : Clip) (clips : List Clip)
      → i < k
      → messages k (loop i seen (c ∷ clips)) ≡ messages k (loop (i + 1) (seen_with i seen c) clips)
  loop_next k i seen c clips h =
      messages-loop k i seen c clips
      ∙ ap (λ (a : List Message). a ++ messages k (loop (i + 1) (seen_with i seen c) clips))
          (messages_above k i (found_in seen c) h)

  Wants-IsValid :
      (ps : List Problem) (i : ℕ) (seen : Dict ℕ) (clips : List Clip) (p : Text) (c : Clip)
      → ((k : ℕ) → i ≤ k → messages k ps ≡ messages k (loop i seen clips))
      → Wants ps i clips p c
      → IsValid floats resolve c × (path c ≡ p)
  Wants-IsValid ps i seen [] p c h w = absurd w
  Wants-IsValid ps i seen (d ∷ clips) p c h (inl (e, m, q)) =
      let reported = h i (omega arith) ∙ loop_first i seen d clips in
      let (dup, valid) =
        clip_good floats lower resolve d (lookup (lower (path d)) seen) (sym reported ∙ m) in
      (subst (IsValid floats resolve) e valid, ap path (sym e) ∙ q)
  Wants-IsValid ps i seen (d ∷ clips) p c h (inr w) =
      Wants-IsValid ps (i + 1) (seen_with i seen d) clips p c
        (λ k b. h k (omega arith) ∙ loop_next k i seen d clips (omega arith)) w

  -- A clip that is wanted after `Validate` is a valid clip of the file, under its path.
  pub wanted-IsValid :
      (clips : List Clip) (p : Text) (c : Clip)
      → lookup p
          (sort_clips
            (validate floats lower resolve clips)
            0
            clips
            (record { want = []; invalid = [] })).want
        ≡ some c
      → IsValid floats resolve c × (path c ≡ p)
  unfolding validate
  wanted-IsValid clips p c h =
      elim (sort_clips-Wants (loop 0 [] clips) 0 clips (record { want = []; invalid = [] }) p c h) [
        | inl e ↦ absurd (cc)
        | inr w ↦ Wants-IsValid (loop 0 [] clips) 0 [] clips p c (λ k b. refl) w
      ]

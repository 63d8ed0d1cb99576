-- ===== src/Mkv/Cues.antt =====
-- `parseCues` sorts the cue points, and `BuildClip` finds the last one at or before the start.
use docker_smartclips.Prelude.{
  ℕ, zero, suc, ◌-◌, ◌<◌, ◌≤◌, ◌≡◌, refl, subst, inl, inr, arith, some, ◌⊎◌,
}
use docker_smartclips.Prelude.{
  List, [], ◌∷◌, length, All, Bool-cases, ltb, leb, lt→ltb, ltb→lt, ltb→ge, leb→le, leb→gt,
  get_elem?,
}
use mathlib.Core.List.{Perm}
use mathlib.Core.List.Perm
use docker_smartclips.Io.{ok}
use docker_smartclips.Io.Search.{search, IsFirst, search-IsFirst}
use docker_smartclips.Mkv.Source.{CuePoint, insert_cue, sort_cues}
use docker_smartclips.Mkv.Build.{time_at, key_cue}

-- Cue points in the order of their times.
abbrev pub IsSorted : List CuePoint → Type 0
IsSorted [] = Unit
IsSorted (c ∷ cues) = All (λ d. c.time ≤ d.time) cues × IsSorted cues

insert_cue-All :
    (P : CuePoint → Type 0) (c : CuePoint) (cues : List CuePoint)
    → P c
    → All P cues
    → All P (insert_cue c cues)
unfolding insert_cue
insert_cue-All P c [] h k = (h, tt)
insert_cue-All P c (d ∷ cues) h k = elim (Bool-cases (leb c.time d.time)) [
  | inl t ↦ rw t (h, k)
  | inr f ↦ rw f (k.0, insert_cue-All P c cues h k.1)
]

All-later :
    (a b : ℕ) (cues : List CuePoint)
    → a ≤ b
    → All (λ d. b ≤ d.time) cues
    → All (λ d. a ≤ d.time) cues
All-later a b [] h k = tt
All-later a b (d ∷ cues) h k = (omega (arith, k.0), All-later a b cues h k.1)

insert_cue-IsSorted :
    (c : CuePoint) (cues : List CuePoint) → IsSorted cues → IsSorted (insert_cue c cues)
unfolding insert_cue
insert_cue-IsSorted c [] h = (tt, tt)
insert_cue-IsSorted c (d ∷ cues) h = elim (Bool-cases (leb c.time d.time)) [
  | inl t ↦ let le = leb→le c.time d.time t in rw t ((le, All-later c.time d.time cues le h.0), h)
  | inr f ↦ rw f (
    insert_cue-All (λ e. d.time ≤ e.time) c cues (omega (arith, leb→gt c.time d.time f)) h.0,
    insert_cue-IsSorted c cues h.1,
  )
]

insert_cue-Perm : (c : CuePoint) (cues : List CuePoint) → Perm (insert_cue c cues) (c ∷ cues)
unfolding insert_cue
insert_cue-Perm c [] = Perm.refl (c ∷ [])
insert_cue-Perm c (d ∷ cues) = elim (Bool-cases (leb c.time d.time)) [
  | inl t ↦ rw t (Perm.refl (c ∷ d ∷ cues))
  | inr f ↦ rw f (Perm.trans (Perm.cons d (insert_cue-Perm c cues)) (Perm.swap c d cues))
]

sort_cues-Perm : (cues : List CuePoint) → Perm (sort_cues cues) cues
unfolding sort_cues
sort_cues-Perm [] = Perm.nil
sort_cues-Perm (c ∷ cues) =
    Perm.trans (insert_cue-Perm c (sort_cues cues)) (Perm.cons c (sort_cues-Perm cues))

sort_cues-IsSorted : (cues : List CuePoint) → IsSorted (sort_cues cues)
unfolding sort_cues
sort_cues-IsSorted [] = tt
sort_cues-IsSorted (c ∷ cues) = insert_cue-IsSorted c (sort_cues cues) (sort_cues-IsSorted cues)

-- Sorting keeps the cue points and puts them in the order of their times.
pub sort_cues_lem : (cues : List CuePoint) → Perm (sort_cues cues) cues × IsSorted (sort_cues cues)
sort_cues_lem cues = (sort_cues-Perm cues, sort_cues-IsSorted cues)

time_at-later :
    (a : ℕ) (cues : List CuePoint) (j : ℕ)
    → All (λ d. a ≤ d.time) cues
    → j < length cues
    → a ≤ time_at cues j
time_at-later a [] j h k = absurd (omega arith)
time_at-later a (d ∷ cues) zero h k = h.0
time_at-later a (d ∷ cues) (suc j) h k = time_at-later a cues j h.1 (omega arith)

-- The times grow with the index.
time_at_mono :
    (cues : List CuePoint) (i j : ℕ)
    → IsSorted cues
    → i ≤ j
    → j < length cues
    → time_at cues i ≤ time_at cues j
time_at_mono [] i j h le k = absurd (omega arith)
time_at_mono (c ∷ cues) zero zero h le k = omega arith
time_at_mono (c ∷ cues) zero (suc j) h le k = time_at-later c.time cues j h.0 (omega arith)
time_at_mono (c ∷ cues) (suc i) zero h le k = absurd (omega arith)
time_at_mono (c ∷ cues) (suc i) (suc j) h le k =
    time_at_mono cues i j h.1 (omega arith) (omega arith)

get_elem?-inside :
    (cues : List CuePoint) (i : ℕ) → i < length cues → (c : CuePoint) × (get_elem? cues i ≡ some c)
get_elem?-inside [] i h = absurd (omega arith)
get_elem?-inside (c ∷ cues) zero h = (c, refl)
get_elem?-inside (c ∷ cues) (suc i) h = get_elem?-inside cues i (omega arith)

-- The keyframe of a start time.
pub record IsLastBefore (cues : List CuePoint) (start : ℕ) : Type 0 where
  pub index : ℕ
  pub cue : CuePoint
  pub answer : key_cue cues start ≡ ok cue
  pub member : get_elem? cues index ≡ some cue
  pub at_or_before : (time_at cues index ≤ start) ⊎ (index ≡ 0)
  pub last : (k : ℕ) → index < k → k < length cues → start < time_at cues k

module _ (cues : List CuePoint) (start : ℕ) (sorted : IsSorted cues)
    (some_cue : 0 < length cues) where
  abbrev first_later : ℕ
  first_later = search (length cues) (λ i. ltb start (time_at cues i))

  first_later-IsFirst : IsFirst (λ i. ltb start (time_at cues i)) (length cues) first_later
  first_later-IsFirst =
      search-IsFirst (λ i. ltb start (time_at cues i)) (length cues)
        (λ a b le k e.
          lt→ltb start (time_at cues b)
            (omega (arith, ltb→lt start (time_at cues a) e, time_at_mono cues a b sorted le k)))

  last_later : (k : ℕ) → first_later - 1 < k → k < length cues → start < time_at cues k
  last_later k above inside =
      let f = first_later-IsFirst in
      omega (
        arith,
        ltb→lt start (time_at cues first_later) (f.after (omega arith)),
        time_at_mono cues first_later k sorted (omega arith) inside,
      )

  before_start : (n : ℕ) → first_later ≡ n → (time_at cues (n - 1) ≤ start) ⊎ (n - 1 ≡ 0)
  before_start zero e = inr (omega arith)
  before_start (suc i) e =
      let f = first_later-IsFirst in
      let b = ltb→ge start (time_at cues i) (f.before i (omega arith)) in
      inl (subst (λ (t : ℕ). time_at cues t ≤ start) {x = i} {y = suc i - 1} (omega arith) b)

  -- In sorted cue points the keyframe that `BuildClip` starts from is one of them; all later ones are
  -- after the start, and it is at or before the start unless it is the first one.
  pub key_cue-IsLastBefore : IsLastBefore cues start
  unfolding key_cue
  key_cue-IsLastBefore =
      let f = first_later-IsFirst in
      let (c, e) = get_elem?-inside cues (first_later - 1) (omega (arith, f.bound)) in
      record {
        index = first_later - 1;
        cue = c;
        answer = rw (key_cue, e) refl;
        member = e;
        at_or_before = before_start first_later refl;
        last = last_later;
      }

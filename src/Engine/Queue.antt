-- ===== src/Engine/Queue.antt =====
-- The queue of internal/engine/engine.go holds no path twice, the set `queued` is what is queued or
-- received, and `building` counts the builds.
use docker_smartclips.Prelude.{
  ℕ, ◌+◌, ◌≡◌, refl, sym, ap, ◌∙◌, inl, inr, arith, Bool, true, false, ◌||◌, ◌&&◌, Option, none,
  some, List, [], ◌∷◌, ◌++◌, length, Bool-cases,
}
use docker_smartclips.Config.Names.{Text, same_text}
use docker_smartclips.Dict.{Differs, has, has-append, same_text_refl, same_text_eq}
use docker_smartclips.Dict.Distinct.{
  Distinct, has-middle, Distinct-receive, Distinct-take_out, Distinct-enqueue,
}
use docker_smartclips.Engine.State.{ClipState, Job, Work}
use docker_smartclips.Engine.Work.{forget, enqueue, receive, begin, end_job}

pub record IsQueue (k : Work) : Type 0 where
  pub marked : (q : Text) → has q k.queued ≡ has q (k.queue ++ k.received)
  pub once : Distinct (k.queue ++ k.received)
  pub counted : k.building ≡ length k.jobs

-- Whether a build of the path under the key is going on.
abbrev pub builds : Text → Text → List Job → Bool
builds p key [] = false
builds p key (j ∷ jobs) = (same_text p j.path && same_text key j.key) || builds p key jobs

-- Whether the path is queued, received or built under the key.
abbrev pub in_hand : Text → Text → Work → Bool
in_hand p key k = has p (k.queue ++ k.received) || builds p key k.jobs

pub builds-middle :
    (p key : Text) (j : Job) (xs ys : List Job)
    → builds p key (xs ++ (j ∷ ys))
      ≡ ((same_text p j.path && same_text key j.key) || builds p key (xs ++ ys))
builds-middle p key j [] ys = refl
builds-middle p key j (x ∷ xs) ys = ground (arith, builds-middle p key j xs ys)

pub length-middle {ℓ} :
    {A : Type ℓ} (x : A) (xs ys : List A) → length (xs ++ (x ∷ ys)) ≡ length (xs ++ ys) + 1
length-middle x [] ys = omega arith
length-middle x (y ∷ xs) ys = omega (arith, length-middle x xs ys)

forget_self : (p : Text) (qs : List Text) → has p (forget p qs) ≡ false
forget_self p [] = refl
forget_self p (q ∷ qs) = elim (Bool-cases (same_text p q)) [
  | inl t ↦ rw t (forget_self p qs)
  | inr f ↦ rw f (rw f (forget_self p qs))
]

forget_ne : (r p : Text) (qs : List Text) → Differs r p → has r (forget p qs) ≡ has r qs
forget_ne r p [] d = refl
forget_ne r p (q ∷ qs) d = elim (Bool-cases (same_text p q)) [
  | inl t ↦
      let g = ap (same_text r) (sym (same_text_eq p q t)) ∙ d in rw (t, g) (forget_ne r p qs d)
  | inr f ↦ rw f (ap (λ (b : Bool). same_text r q || b) (forget_ne r p qs d))
]

has-enqueue :
    (q p : Text) (xs ys : List Text)
    → has q ((xs ++ (p ∷ [])) ++ ys) ≡ (same_text q p || has q (xs ++ ys))
has-enqueue q p [] ys = refl
has-enqueue q p (x ∷ xs) ys = ground (arith, has-enqueue q p xs ys)

pub enqueue-IsQueue : (p : Text) (k : Work) → IsQueue k → IsQueue (enqueue p k)
unfolding enqueue
enqueue-IsQueue p k h = elim (Bool-cases (has p k.queued)) [
  | inl t ↦ rw t h
  | inr f ↦ rw f (record {
    marked = λ q.
        ap (λ (b : Bool). same_text q p || b) (h.marked q)
        ∙ sym (has-enqueue q p k.queue k.received);
    once = Distinct-enqueue p k.queue k.received (sym (h.marked p) ∙ f) h.once;
    counted = h.counted;
  })
]

-- A path that is enqueued is in hand, and the others are as before.
pub enqueue_here :
    (p : Text) (k : Work) → IsQueue k → has p ((enqueue p k).queue ++ (enqueue p k).received) ≡ true
unfolding enqueue
enqueue_here p k h = elim (Bool-cases (has p k.queued)) [
  | inl t ↦ rw (t, enqueue) (sym (h.marked p) ∙ t)
  | inr f ↦ rw (f, enqueue) (has-enqueue p p k.queue k.received ∙ ground (arith, same_text_refl p))
]

pub enqueue_keeps :
    (q p key : Text) (k : Work) → in_hand q key k ≡ true → in_hand q key (enqueue p k) ≡ true
unfolding enqueue
enqueue_keeps q p key k h = elim (Bool-cases (has p k.queued)) [
  | inl t ↦ rw (t, enqueue) h
  | inr f ↦ rw (f, enqueue) (ground (arith, has-enqueue q p k.queue k.received))
]

module _ (p : Text) (rest : List Text) (k : Work) (e : k.queue ≡ p ∷ rest) where
  receive_has : (q : Text) → has q (rest ++ (p ∷ k.received)) ≡ has q (k.queue ++ k.received)
  receive_has q = has-middle q p rest k.received ∙ sym (ap (λ t. has q (t ++ k.received)) e)

  pub receive-IsQueue : IsQueue k → IsQueue (receive p rest k)
  receive-IsQueue h = record {
    marked = λ q. h.marked q ∙ sym (receive_has q);
    once = Distinct-receive p rest k.received (rw e at h.once);
    counted = h.counted;
  }

  pub receive_keeps : (q key : Text) → in_hand q key (receive p rest k) ≡ in_hand q key k
  receive_keeps q key = ap (λ (b : Bool). b || builds q key k.jobs) (receive_has q)

module _ (p : Text) (front rest : List Text) (k : Work) (e : k.received ≡ front ++ (p ∷ rest)) where
  begin_has :
      (q : Text) → Differs q p → has q (k.queue ++ (front ++ rest)) ≡ has q (k.queue ++ k.received)
  begin_has q d =
      has-append q k.queue (front ++ rest)
      ∙ ap (λ (b : Bool). has q k.queue || b)
          (sym (
            ap (has q) e
            ∙ has-middle q p front rest
            ∙ ap (λ (b : Bool). b || has q (front ++ rest)) d))
      ∙ sym (has-append q k.queue k.received)

  abbrev gone :
      IsQueue k
      → (has p (k.queue ++ (front ++ rest)) ≡ false) × Distinct (k.queue ++ (front ++ rest))
  gone h = Distinct-take_out p k.queue front rest (rw e at h.once)

  begin_marked :
      IsQueue k → (q : Text) → has q (forget p k.queued) ≡ has q (k.queue ++ (front ++ rest))
  begin_marked h q = elim (Bool-cases (same_text q p)) [
    | inl t ↦
        ap (λ t. has t (forget p k.queued)) (same_text_eq q p t)
        ∙ forget_self p k.queued
        ∙ sym (gone h).0
        ∙ ap (λ t. has t (k.queue ++ (front ++ rest))) (sym (same_text_eq q p t))
    | inr f ↦ forget_ne q p k.queued f ∙ h.marked q ∙ sym (begin_has q f)
  ]

  pub begin-IsQueue : (o : Option ClipState) → IsQueue k → IsQueue (begin p (front ++ rest) o k)
  unfolding begin
  begin-IsQueue none h = record { marked = begin_marked h; once = (gone h).1; counted = h.counted }
  begin-IsQueue (some st) h = record {
    marked = begin_marked h;
    once = (gone h).1;
    counted = ap (λ (n : ℕ). n + 1) h.counted ∙ omega arith;
  }

  -- What is in hand of another path stays, and that of `p` is now built.
  pub begin_keeps :
      (q key : Text) (o : Option ClipState)
      → Differs q p
      → in_hand q key k ≡ true
      → in_hand q key (begin p (front ++ rest) o k) ≡ true
  unfolding begin
  begin_keeps q key none d h = ground (arith, begin_has q d)
  begin_keeps q key (some st) d h = ground (arith, begin_has q d)

  pub begin_here : (st : ClipState) → in_hand p st.key (begin p (front ++ rest) (some st) k) ≡ true
  unfolding begin
  begin_here st = ground (arith, same_text_refl p, same_text_refl st.key)

module _ (j : Job) (front rest : List Job) (k : Work) (e : k.jobs ≡ front ++ (j ∷ rest)) where
  pub end_job-IsQueue : IsQueue k → IsQueue (end_job (front ++ rest) k)
  end_job-IsQueue h = record {
    marked = h.marked;
    once = h.once;
    counted = omega (arith, h.counted, ap length e, length-middle j front rest);
  }

  -- Another build stays.
  pub end_job_keeps :
      (q key : Text)
      → (same_text q j.path && same_text key j.key) ≡ false
      → in_hand q key k ≡ true
      → in_hand q key (end_job (front ++ rest) k) ≡ true
  end_job_keeps q key d h = ground (arith, ap (builds q key) e, builds-middle q key j front rest)

-- ===== src/Mkv/Keep.antt =====
-- `keepFrom` and `keepUntil` against a description of the blocks that a clip keeps.
use docker_smartclips.Prelude.{
  ℕ, ◌+◌, ◌≡◌, refl, ap, ◌∙◌, inl, inr, arith, Bool, true, false, ◌||◌, ◌&&◌, not,
}
use docker_smartclips.Prelude.{
  List, [], ◌∷◌, ◌++◌, length, drop, drop-front, ◌==◌, if◌then◌else◌, All, Bool-cases,
}
use docker_smartclips.Prelude.Int64.{le_i64}
use docker_smartclips.Mkv.Cluster.{Block}
use docker_smartclips.Mkv.Select.{
  is_key, key_index, from_key_time, keep_from, until_loop, keep_until,
}

-- The blocks that pass a test.
abbrev pub filter_blocks : (Block → Bool) → List Block → List Block
filter_blocks f [] = []
filter_blocks f (b ∷ bs) = if f b then b ∷ filter_blocks f bs else filter_blocks f bs

abbrev pub is_video : ℕ → Block → Bool
is_video video b = b.track == video

abbrev pub is_late : ℕ → Block → Bool
is_late end_t b = le_i64 end_t b.time

-- The blocks in front of the first late one.
abbrev pub before_late : ℕ → List Block → List Block
before_late end_t [] = []
before_late end_t (b ∷ bs) = if is_late end_t b then [] else b ∷ before_late end_t bs

-- A list that keeps some members of another, in their order.
pub data IsSublist : List Block → List Block → Type 0 where
  done : IsSublist [] []
  keep : (b : Block) {xs ys : List Block} → IsSublist xs ys → IsSublist (b ∷ xs) (b ∷ ys)
  skip : (b : Block) {xs ys : List Block} → IsSublist xs ys → IsSublist xs (b ∷ ys)

-- What `keepUntil` keeps of `blocks`.
pub record IsCut (video end_t : ℕ) (blocks kept : List Block) : Type 0 where
  pub order : IsSublist kept blocks
  pub video_blocks :
      filter_blocks (is_video video) kept
      ≡ before_late end_t (filter_blocks (is_video video) blocks)
  pub other_blocks :
      filter_blocks (λ b. not (is_video video b)) kept
      ≡ filter_blocks
          (λ b. not (is_late end_t b))
          (filter_blocks (λ b. not (is_video video b)) blocks)

module _ (video end_t : ℕ) where
  until_loop-sublist :
      (done_ : Bool) (bs : List Block) → IsSublist (until_loop video end_t done_ bs) bs
  unfolding until_loop
  until_loop-sublist d [] = done
  until_loop-sublist d (b ∷ bs) =
      let stop = b.track == video && (d || le_i64 end_t b.time) in
      elim (Bool-cases (stop || (not (b.track == video) && le_i64 end_t b.time))) [
        | inl t ↦ rw t (skip b (until_loop-sublist (d || stop) bs))
        | inr f ↦ rw f (keep b (until_loop-sublist (d || stop) bs))
      ]

  until_loop-other :
      (d : Bool) (bs : List Block)
      → filter_blocks (λ b. not (is_video video b)) (until_loop video end_t d bs)
        ≡ filter_blocks
            (λ b. not (is_late end_t b))
            (filter_blocks (λ b. not (is_video video b)) bs)
  unfolding until_loop
  until_loop-other d [] = refl
  until_loop-other d (b ∷ bs) = elim (Bool-cases (b.track == video)) [
    | inl v ↦ elim (Bool-cases (d || le_i64 end_t b.time)) [
      | inl l ↦ rw (v, l) (until_loop-other (d || true) bs)
      | inr l ↦ rw (v, l, v) (until_loop-other (d || false) bs)
    ]
    | inr v ↦ elim (Bool-cases (le_i64 end_t b.time)) [
      | inl l ↦ rw (v, l) (until_loop-other (d || false) bs)
      | inr l ↦ rw (v, l, v) (ap (λ t. b ∷ t) (until_loop-other (d || false) bs))
    ]
  ]

  -- Once the video is done, no video block is kept.
  until_loop-done :
      (bs : List Block) → filter_blocks (is_video video) (until_loop video end_t true bs) ≡ []
  unfolding until_loop
  until_loop-done [] = refl
  until_loop-done (b ∷ bs) = elim (Bool-cases (b.track == video)) [
    | inl v ↦ rw v (until_loop-done bs)
    | inr v ↦ elim (Bool-cases (le_i64 end_t b.time)) [
      | inl l ↦ rw (v, l) (until_loop-done bs)
      | inr l ↦ rw (v, l, v) (until_loop-done bs)
    ]
  ]

  until_loop-video :
      (bs : List Block)
      → filter_blocks (is_video video) (until_loop video end_t false bs)
        ≡ before_late end_t (filter_blocks (is_video video) bs)
  unfolding until_loop
  until_loop-video [] = refl
  until_loop-video (b ∷ bs) = elim (Bool-cases (b.track == video)) [
    | inl v ↦ elim (Bool-cases (le_i64 end_t b.time)) [
      | inl l ↦ rw (v, l) (until_loop-done bs)
      | inr l ↦ rw (v, l, v) (ap (λ t. b ∷ t) (until_loop-video bs))
    ]
    | inr v ↦ elim (Bool-cases (le_i64 end_t b.time)) [
      | inl l ↦ rw (v, l) (until_loop-video bs)
      | inr l ↦ rw (v, l, v) (until_loop-video bs)
    ]
  ]

  -- `keepUntil` keeps, in their order, the video blocks in front of the first one (in the order of the
  -- file) at or after the end, and the blocks of other tracks that start before the end.
  pub keep_until-IsCut :
      (blocks : List Block) → IsCut video end_t blocks (keep_until video blocks end_t)
  unfolding keep_until
  keep_until-IsCut blocks = record {
    order = until_loop-sublist false blocks;
    video_blocks = until_loop-video blocks;
    other_blocks = until_loop-other false blocks;
  }

-- A keyframe: a block of the video track at the key time.
abbrev pub IsKey : ℕ → ℕ → Block → Type 0
IsKey video key_time b = is_key video key_time b ≡ true

abbrev pub IsNoKey : ℕ → ℕ → Block → Type 0
IsNoKey video key_time b = is_key video key_time b ≡ false

module _ (video key_time : ℕ) where
  key_index-at :
      (i : ℕ) (pre post : List Block) (k : Block)
      → All (IsNoKey video key_time) pre
      → IsKey video key_time k
      → key_index video key_time i (pre ++ (k ∷ post)) ≡ i + length pre
  unfolding key_index
  key_index-at i [] post k none_before key = rw key (omega arith)
  key_index-at i (b ∷ pre) post k none_before key =
      rw none_before.0 (omega (arith, key_index-at (i + 1) pre post k none_before.1 key))

  from_key_time_lem :
      (bs : List Block) → from_key_time key_time bs ≡ filter_blocks (λ b. le_i64 key_time b.time) bs
  unfolding from_key_time
  from_key_time_lem [] = refl
  from_key_time_lem (b ∷ bs) = elim (Bool-cases (le_i64 key_time b.time)) [
    | inl t ↦ rw t (ap (λ t. b ∷ t) (from_key_time_lem bs))
    | inr f ↦ rw f (from_key_time_lem bs)
  ]

  key_not_early : (k : Block) → IsKey video key_time k → le_i64 key_time k.time ≡ true
  key_not_early k key = ground arith

  -- The blocks of a cluster in which `k` is the first keyframe at the key time: what is kept starts
  -- with `k`, and behind it stand the blocks that do not display before the key time.
  pub keep_from-at :
      (pre post : List Block) (k : Block)
      → All (IsNoKey video key_time) pre
      → IsKey video key_time k
      → keep_from video (pre ++ (k ∷ post)) key_time
        ≡ k ∷ filter_blocks (λ b. le_i64 key_time b.time) post
  unfolding keep_from
  keep_from-at pre post k none_before key =
      ap (λ (i : ℕ). from_key_time key_time (drop i (pre ++ (k ∷ post)))) {y = length pre}
        (omega (arith, key_index-at 0 pre post k none_before key))
      ∙ ap (from_key_time key_time) (drop-front pre (k ∷ post))
      ∙ from_key_time_lem (k ∷ post)
      ∙ rw (key_not_early k key) refl

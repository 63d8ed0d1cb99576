-- ===== src/Io/Search.antt =====
-- Go's `sort.Search`: the binary search, and what it finds under a monotone test.
use docker_smartclips.Prelude.{ℕ, zero, suc, ◌+◌, ◌/◌, ◌≤◌, ◌<◌, ◌≡◌, subst, inl, inr, arith}
use docker_smartclips.Prelude.{Bool, true, false, ltb, if◌then◌else◌, Bool-cases}

-- `for i < j { h := (i+j)/2; if !f(h) { i = h+1 } else { j = h } }`; each round shrinks `j - i`.
search_loop : ℕ → ℕ → ℕ → (ℕ → Bool) → ℕ
search_loop zero i j f = i
search_loop (suc fuel) i j f =
    let h = (i + j) / 2 in
    let upper = search_loop fuel (h + 1) j f in
    let lower = search_loop fuel i h f in if ltb i j then (if f h then lower else upper) else i

unfoldable pub search : ℕ → (ℕ → Bool) → ℕ
unfolding search_loop
search n f = search_loop n 0 n f

-- What a search returns: the first index that passes the test, or the end.
pub record IsFirst (f : ℕ → Bool) (n r : ℕ) : Type 0 where
  pub bound : r ≤ n
  pub before : (k : ℕ) → k < r → f k ≡ false
  pub after : r < n → f r ≡ true

module _ (f : ℕ → Bool) (n : ℕ) (mono : (a b : ℕ) → a ≤ b → b < n → f a ≡ true → f b ≡ true) where
  mono_false : (a b : ℕ) → a ≤ b → b < n → f b ≡ false → f a ≡ false
  mono_false a b h k e = elim (Bool-cases (f a)) [
    | inl t ↦ absurd (ground (arith, mono a b h k t))
    | inr u ↦ u
  ]

  search_loop-IsFirst :
      (fuel i j : ℕ)
      → i ≤ j
      → j ≤ n
      → j ≤ i + fuel
      → ((k : ℕ) → k < i → f k ≡ false)
      → (j < n → f j ≡ true)
      → IsFirst f n (search_loop fuel i j f)
  unfolding search_loop
  search_loop-IsFirst zero i j ij jn hf lo hi = record {
    bound = omega arith;
    before = lo;
    after = λ h. let e : j ≡ i = omega arith in subst (λ (k : ℕ). f k ≡ true) e (hi (omega arith));
  }
  search_loop-IsFirst (suc fuel) i j ij jn hf lo hi = elim (Bool-cases (ltb i j)) [
    | inr stop ↦ rw stop (record {
      bound = omega arith;
      before = lo;
      after =
          λ h. let e : j ≡ i = ground arith in subst (λ (k : ℕ). f k ≡ true) e (hi (ground arith));
    })
    | inl go ↦ elim (Bool-cases (f ((i + j) / 2))) [
      | inl t ↦
          rw (go, t)
            (search_loop-IsFirst fuel i ((i + j) / 2) (omega arith) (ground arith) (ground arith) lo
              (λ _. t))
      | inr u ↦
          rw (go, u)
            (search_loop-IsFirst fuel ((i + j) / 2 + 1) j (ground arith) jn (omega arith)
              (λ k h. mono_false k ((i + j) / 2) (omega arith) (ground arith) u) hi)
    ]
  ]

  -- Under a monotone test the search returns the first index that passes it.
  pub search-IsFirst : IsFirst f n (search n f)
  unfolding search
  search-IsFirst =
      search_loop-IsFirst n 0 n (omega arith) (omega arith) (omega arith)
        (λ k h. absurd (omega arith)) (λ h. absurd (omega arith))

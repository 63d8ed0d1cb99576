-- ===== src/Mkv/Collect.antt =====
-- `collectClusters` ends on every file, and what it answers.
use docker_smartclips.Prelude.{
  ℕ, zero, suc, ◌+◌, ◌<◌, ◌≤◌, ◌≡◌, ◌≢◌, sym, ap, ◌∙◌, inl, inr, arith, Option, none, some,
  Option-cases, subst,
}
use docker_smartclips.Prelude.{
  List, [], ◌∷◌, ◌++◌, append-nil, append_assoc, length, All, Bool-cases, ltb, leb, ◌&&◌, true,
  false,
}
use docker_smartclips.Io.{stuck, ok, err, Result-cases, ReaderAt}
use docker_smartclips.Mkv.Source.{Source}
use docker_smartclips.Mkv.Cluster.{
  Cluster, read_cluster, skip_element, collect_loop, collect_clusters,
}
use docker_smartclips.Mkv.Walks.{read_cluster-ReadsAt, read_cluster-ne-stuck, skip_element_takes}

module _ (fuel : ℕ) (r : ReaderAt) (segment_end end_t off : ℕ)
    (again : (next : ℕ) (out : List Cluster)
      → segment_end ≤ next + fuel
      → collect_loop fuel r segment_end end_t next out ≢ err stuck)
    (out : List Cluster) (enough : segment_end ≤ off + suc fuel) where
  found-ne-stuck :
      (found : Option Cluster)
      → read_cluster r off ≡ ok found
      → collect_loop (suc fuel) r segment_end end_t off out ≢ err stuck
  unfolding collect_loop
  found-ne-stuck none q e = elim (Option-cases (skip_element r off)) [
    | inl k ↦ ground arith
    | inr (next, k) ↦ ground (arith, again next out, skip_element_takes r off next k)
  ]
  found-ne-stuck (some c) q e =
      ground (arith, again c.end (out ++ (c ∷ [])), read_cluster-ReadsAt r off c q)

  collect_step-ne-stuck : collect_loop (suc fuel) r segment_end end_t off out ≢ err stuck
  collect_step-ne-stuck e = elim (Result-cases (read_cluster r off)) [
    | inr (x, q) ↦ unfold collect_loop in ground (arith, read_cluster-ne-stuck r off)
    | inl (found, q) ↦ found-ne-stuck found q e
  ]

collect_loop-ne-stuck :
    (fuel : ℕ) (r : ReaderAt) (segment_end end_t off : ℕ) (out : List Cluster)
    → segment_end ≤ off + fuel
    → collect_loop fuel r segment_end end_t off out ≢ err stuck
collect_loop-ne-stuck zero r segment_end end_t off out h e = unfold collect_loop in ground arith
collect_loop-ne-stuck (suc fuel) r segment_end end_t off out h e =
    collect_step-ne-stuck fuel r segment_end end_t off
      (λ next o. collect_loop-ne-stuck fuel r segment_end end_t next o) out h e

-- `collectClusters` ends on every file: neither its loop nor that of `readCluster` runs out of fuel.
pub collect_clusters-ne-stuck :
    (s : Source) (r : ReaderAt) (off end_t : ℕ) → collect_clusters s r off end_t ≢ err stuck
unfolding collect_clusters
collect_clusters-ne-stuck s r off end_t e =
    ground (arith, collect_loop-ne-stuck s.segment_end r s.segment_end end_t off [] (omega arith))

-- Clusters of the file, in its order, from `off` on.
abbrev pub AreClustersFrom : ReaderAt → ℕ → List Cluster → Type 0
AreClustersFrom r off [] = Unit
AreClustersFrom r off (c ∷ cs) =
    (off ≤ c.off) × (read_cluster r c.off ≡ ok (some c)) × AreClustersFrom r c.end cs

abbrev pub IsEarly : ℕ → Cluster → Type 0
IsEarly end_t c = c.timestamp < end_t

-- The members of `more` that do not come first behind `out`.
abbrev pub not_first : List Cluster → List Cluster → List Cluster
not_first [] [] = []
not_first [] (c ∷ more) = more
not_first (o ∷ out) more = more

AreClustersFrom-before :
    (r : ReaderAt) (off next : ℕ) (cs : List Cluster)
    → off ≤ next
    → AreClustersFrom r next cs
    → AreClustersFrom r off cs
AreClustersFrom-before r off next [] le h = tt
AreClustersFrom-before r off next (c ∷ cs) le h = (omega (arith, h.0), h.1, h.2)

-- What the loop adds to `out`.
pub record Collects (r : ReaderAt) (end_t off : ℕ) (out result : List Cluster) : Type 0 where
  pub more : List Cluster
  pub appended : result ≡ out ++ more
  pub in_order : AreClustersFrom r off more
  pub early : All (IsEarly end_t) (not_first out more)

module _ (r : ReaderAt) (end_t off : ℕ) where
  nothing-Collects : (out result : List Cluster) → out ≡ result → Collects r end_t off out result
  nothing-Collects [] result e = record { more = []; appended = sym e; in_order = tt; early = tt }
  nothing-Collects (o ∷ out) result e = record {
    more = [];
    appended = sym e ∙ sym (append-nil (o ∷ out));
    in_order = tt;
    early = tt;
  }

  -- One cluster more, early unless it is the first one.
  cons-Collects :
      (c : Cluster) (out result : List Cluster)
      → read_cluster r off ≡ ok (some c)
      → (ltb 0 (length out) && leb end_t c.timestamp) ≡ false
      → Collects r end_t c.end (out ++ (c ∷ [])) result
      → Collects r end_t off out result
  cons-Collects c [] result q g x =
      let at = read_cluster-ReadsAt r off c q in
      record {
        more = c ∷ x.more;
        appended = x.appended;
        in_order = (omega (arith, at.0), ap (read_cluster r) at.0 ∙ q, x.in_order);
        early = x.early;
      }
  cons-Collects c (o ∷ out) result q g x =
      let at = read_cluster-ReadsAt r off c q in
      record {
        more = c ∷ x.more;
        appended = x.appended ∙ append_assoc (o ∷ out) (c ∷ []) x.more;
        in_order = (omega (arith, at.0), ap (read_cluster r) at.0 ∙ q, x.in_order);
        early = (ground arith, x.early);
      }

module _ (fuel : ℕ) (r : ReaderAt) (segment_end end_t off : ℕ)
    (again : (next : ℕ) (out result : List Cluster)
      → collect_loop fuel r segment_end end_t next out ≡ ok result
      → Collects r end_t next out result)
    (out result : List Cluster) (inside : ltb off segment_end ≡ true) where
  found-Collects :
      (found : Option Cluster)
      → read_cluster r off ≡ ok found
      → collect_loop (suc fuel) r segment_end end_t off out ≡ ok result
      → Collects r end_t off out result
  unfolding collect_loop
  found-Collects none q e = elim (Option-cases (skip_element r off)) [
    | inl k ↦ nothing-Collects r end_t off out result (ground arith)
    | inr (next, k) ↦
        let x = again next out result (ground arith) in
        let le = skip_element_takes r off next k in
        record {
          more = x.more;
          appended = x.appended;
          in_order = AreClustersFrom-before r off next x.more (omega arith) x.in_order;
          early = x.early;
        }
  ]
  found-Collects (some c) q e = elim (Bool-cases (ltb 0 (length out) && leb end_t c.timestamp)) [
    | inl g ↦ nothing-Collects r end_t off out result (ground arith)
    | inr g ↦
        cons-Collects r end_t off c out result q g
          (again c.end (out ++ (c ∷ [])) result (ground arith))
  ]

  collect_step-Collects :
      collect_loop (suc fuel) r segment_end end_t off out ≡ ok result
      → Collects r end_t off out result
  collect_step-Collects e = elim (Result-cases (read_cluster r off)) [
    | inr (x, q) ↦ absurd (unfold collect_loop in ground arith)
    | inl (found, q) ↦ found-Collects found q e
  ]

collect_loop-Collects :
    (fuel : ℕ) (r : ReaderAt) (segment_end end_t off : ℕ) (out result : List Cluster)
    → collect_loop fuel r segment_end end_t off out ≡ ok result
    → Collects r end_t off out result
unfolding collect_loop
collect_loop-Collects zero r segment_end end_t off out result e =
    nothing-Collects r end_t off out result (ground arith)
collect_loop-Collects (suc fuel) r segment_end end_t off out result e =
    elim (Bool-cases (ltb off segment_end)) [
      | inl t ↦
          collect_step-Collects fuel r segment_end end_t off
            (λ next o res. collect_loop-Collects fuel r segment_end end_t next o res) out result t e
      | inr f ↦ nothing-Collects r end_t off out result (ground arith)
    ]

-- What a search for the clusters of a clip finds.
pub record IsCollected (r : ReaderAt) (off end_t : ℕ) (out : List Cluster) : Type 0 where
  pub some_cluster : 0 < length out
  pub in_order : AreClustersFrom r off out
  pub early : All (IsEarly end_t) (not_first [] out)

-- The clusters that `collectClusters` answers are one or more clusters of the file in its order, from
-- the offset on, and all behind the first start before the end of the clip.
pub collect_clusters-IsCollected :
    (s : Source) (r : ReaderAt) (off end_t : ℕ) (out : List Cluster)
    → collect_clusters s r off end_t ≡ ok out
    → IsCollected r off end_t out
unfolding collect_clusters
collect_clusters-IsCollected s r off end_t out e =
    elim (Result-cases (collect_loop s.segment_end r s.segment_end end_t off [])) [
      | inr (x, q) ↦ absurd (ground arith)
      | inl (found, q) ↦
          let x = collect_loop-Collects s.segment_end r s.segment_end end_t off [] found q in
          let same : found ≡ out = ground arith in
          let all = sym same ∙ x.appended in
          record {
            some_cluster = ground arith;
            in_order = subst (AreClustersFrom r off) (sym all) x.in_order;
            early = subst (λ t. All (IsEarly end_t) (not_first [] t)) (sym all) x.early;
          }
    ]

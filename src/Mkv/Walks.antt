-- ===== src/Mkv/Walks.antt =====
-- `readCluster` and `collectClusters` end on every file, and what they collect.
use docker_smartclips.Prelude.{
  ℕ, zero, suc, ◌+◌, ◌≤◌, ◌≡◌, ◌≢◌, refl, inl, inr, arith, Option, none, some,
}
use docker_smartclips.Prelude.{List, [], ◌∷◌}
use docker_smartclips.Io.{IoError, stuck, ok, err, Result-cases, ReaderAt}
use docker_smartclips.Ebml.Read.{
  Size, known, unknown_size, Header, header_of, read_header_at, uint_or_zero,
}
use docker_smartclips.Ebml.Takes.{parse_header_takes, parse_header-ne-stuck}
use docker_smartclips.Mkv.Source.{read_bytes}
use docker_smartclips.Mkv.Cluster.{Cluster, cluster_loop, read_cluster, skip_element}

header_of_takes :
    (got : List ℕ × Option IoError) (h : Header) → header_of got ≡ ok h → 2 ≤ h.header_len
header_of_takes ([], none) h e = (parse_header_takes [] h e).0
header_of_takes ([], some x) h e = absurd (cc)
header_of_takes (b ∷ bs, x) h e = (parse_header_takes (b ∷ bs) h e).0

pub read_header_at_takes :
    (r : ReaderAt) (off : ℕ) (h : Header) → read_header_at r off ≡ ok h → 2 ≤ h.header_len
unfolding read_header_at
read_header_at_takes r off h e = header_of_takes (r off 12) h e

header_of-ne-stuck : (got : List ℕ × Option IoError) → header_of got ≢ err stuck
header_of-ne-stuck ([], none) e = parse_header-ne-stuck [] e
header_of-ne-stuck ([], some x) e = ground arith
header_of-ne-stuck (b ∷ bs, x) e = parse_header-ne-stuck (b ∷ bs) e

pub read_header_at-ne-stuck : (r : ReaderAt) (off : ℕ) → read_header_at r off ≢ err stuck
unfolding read_header_at
read_header_at-ne-stuck r off e = header_of-ne-stuck (r off 12) e

pub read_bytes-ne-stuck : (r : ReaderAt) (off n : ℕ) → read_bytes r off n ≢ err stuck
unfolding read_bytes
read_bytes-ne-stuck r off n e = ground arith

module _ (fuel : ℕ) (r : ReaderAt) (p : ℕ)
    (again : (c : Cluster) (q : ℕ) (t : Option ℕ)
      → c.end ≤ q + fuel
      → cluster_loop fuel r c q t ≢ err stuck)
    (c : Cluster) (time : Option ℕ) (enough : c.end ≤ p + suc fuel) where
  cluster_round-ne-stuck :
      (h : Header) (s : Size)
      → read_header_at r p ≡ ok h
      → h.size ≡ s
      → cluster_loop (suc fuel) r c p time ≢ err stuck
  unfolding cluster_loop
  cluster_round-ne-stuck h unknown_size q z e = ground arith
  cluster_round-ne-stuck h (known n) q z e =
      let two = read_header_at_takes r p h q in
      let next = p + h.header_len + n in
      elim (Result-cases (read_bytes r (p + h.header_len) n)) [
        | inr (x, k) ↦ ground (arith, read_bytes-ne-stuck r (p + h.header_len) n, again c next time)
        | inl (b, k) ↦ ground (
          arith,
          again (record c { timestamp = uint_or_zero b }) next (some (uint_or_zero b)),
          again c next time,
        )
      ]

  cluster_step-ne-stuck : cluster_loop (suc fuel) r c p time ≢ err stuck
  cluster_step-ne-stuck e = elim (Result-cases (read_header_at r p)) [
    | inr (x, q) ↦ unfold cluster_loop in ground (arith, read_header_at-ne-stuck r p)
    | inl (h, q) ↦ cluster_round-ne-stuck h h.size q refl e
  ]

cluster_loop-ne-stuck :
    (fuel : ℕ) (r : ReaderAt) (c : Cluster) (p : ℕ) (time : Option ℕ)
    → c.end ≤ p + fuel
    → cluster_loop fuel r c p time ≢ err stuck
cluster_loop-ne-stuck zero r c p time h e = unfold cluster_loop in ground arith
cluster_loop-ne-stuck (suc fuel) r c p time h e =
    cluster_step-ne-stuck fuel r p (λ d q t. cluster_loop-ne-stuck fuel r d q t) c time h e

-- The loop fills in the timestamp and where the blocks start.
abbrev Same : Cluster → Cluster → Type 0
Same c d = (d.off ≡ c.off) × (d.end ≡ c.end)

module _ (fuel : ℕ) (r : ReaderAt) (p : ℕ)
    (again : (c d : Cluster) (q : ℕ) (t : Option ℕ) → cluster_loop fuel r c q t ≡ ok d → Same c d)
    (c d : Cluster) (time : Option ℕ) where
  cluster_round-Same :
      (h : Header) (s : Size)
      → read_header_at r p ≡ ok h
      → h.size ≡ s
      → cluster_loop (suc fuel) r c p time ≡ ok d
      → Same c d
  unfolding cluster_loop
  cluster_round-Same h unknown_size q z e = ground arith
  cluster_round-Same h (known n) q z e =
      let next = p + h.header_len + n in
      elim (Result-cases (read_bytes r (p + h.header_len) n)) [
        | inr (x, k) ↦ ground (arith, again c d next time)
        | inl (b, k) ↦ ground (
          arith,
          again (record c { timestamp = uint_or_zero b }) d next (some (uint_or_zero b)),
          again c d next time,
        )
      ]

  cluster_step-Same : cluster_loop (suc fuel) r c p time ≡ ok d → Same c d
  cluster_step-Same e = elim (Result-cases (read_header_at r p)) [
    | inr (x, q) ↦ unfold cluster_loop in ground arith
    | inl (h, q) ↦ cluster_round-Same h h.size q refl e
  ]

cluster_loop-Same :
    (fuel : ℕ) (r : ReaderAt) (c d : Cluster) (p : ℕ) (time : Option ℕ)
    → cluster_loop fuel r c p time ≡ ok d
    → Same c d
cluster_loop-Same zero r c d p time e = unfold cluster_loop in ground arith
cluster_loop-Same (suc fuel) r c d p time e =
    cluster_step-Same fuel r p (λ c' d' q t. cluster_loop-Same fuel r c' d' q t) c d time e

abbrev fresh : ℕ → ℕ → Cluster
fresh off end = record {
  off = off;
  end = end;
  blocks_off = 0;
  timestamp = 0;
  new_offset = 0;
  new_header = [];
  body = [];
}

-- A cluster that is read stands where it was looked for, and takes two bytes or more.
abbrev pub ReadsAt : ℕ → Cluster → Type 0
ReadsAt off c = (c.off ≡ off) × (off + 2 ≤ c.end)

module _ (r : ReaderAt) (off : ℕ) where
  read_cluster-at :
      (h : Header) (s : Size) (c : Cluster)
      → read_header_at r off ≡ ok h
      → h.size ≡ s
      → read_cluster r off ≡ ok (some c)
      → ReadsAt off c
  unfolding read_cluster
  read_cluster-at h unknown_size c q z e = ground arith
  read_cluster-at h (known n) c q z e =
      let two = read_header_at_takes r off h q in
      elim (Result-cases
        (cluster_loop n r (fresh off (off + h.header_len + n)) (off + h.header_len) none)) [
          | inr (x, k) ↦ ground arith
          | inl (d, k) ↦ ground (
            arith,
            cluster_loop-Same n r (fresh off (off + h.header_len + n)) d (off + h.header_len) none
                k,
          )
        ]

  pub read_cluster-ReadsAt : (c : Cluster) → read_cluster r off ≡ ok (some c) → ReadsAt off c
  read_cluster-ReadsAt c e = elim (Result-cases (read_header_at r off)) [
    | inr (x, q) ↦ unfold read_cluster in ground arith
    | inl (h, q) ↦ read_cluster-at h h.size c q refl e
  ]

  read_cluster_round-ne-stuck :
      (h : Header) (s : Size)
      → read_header_at r off ≡ ok h
      → h.size ≡ s
      → read_cluster r off ≢ err stuck
  unfolding read_cluster
  read_cluster_round-ne-stuck h unknown_size q z e = ground arith
  read_cluster_round-ne-stuck h (known n) q z e =
      let c = fresh off (off + h.header_len + n) in
      ground (arith, cluster_loop-ne-stuck n r c (off + h.header_len) none (omega arith))

  -- `readCluster` ends at every offset of every file.
  pub read_cluster-ne-stuck : read_cluster r off ≢ err stuck
  read_cluster-ne-stuck e = elim (Result-cases (read_header_at r off)) [
    | inr (x, q) ↦ unfold read_cluster in ground (arith, read_header_at-ne-stuck r off)
    | inl (h, q) ↦ read_cluster_round-ne-stuck h h.size q refl e
  ]

  pub skip_element_takes : (next : ℕ) → skip_element r off ≡ some next → off + 2 ≤ next
  unfolding skip_element
  skip_element_takes next e = elim (Result-cases (read_header_at r off)) [
    | inr (x, q) ↦ ground arith
    | inl (h, q) ↦ ground (arith, read_header_at_takes r off h q)
  ]

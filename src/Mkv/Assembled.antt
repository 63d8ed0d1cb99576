-- ===== src/Mkv/Assembled.antt =====
-- The virtual file that `assemble` lays out: its bytes, its sizes and the positions in its index.
use docker_smartclips.Prelude.{ℕ, ◌+◌, ◌≡◌, refl, sym, ap, ap₂, ◌∙◌, arith, Option, none, some}
use docker_smartclips.Prelude.{
  List, [], ◌∷◌, ◌++◌, append_assoc, length, length-append, All, take, drop, take-front, drop-front,
}
use docker_smartclips.Prelude.Int64.{IsNat64}
use docker_smartclips.Layout.Part.{Part, literal, range, parts_len}
use docker_smartclips.Layout.Content.{contents, contents-append, total, Fits, length-contents}
use docker_smartclips.Mkv.Cluster.{Cluster}
use docker_smartclips.Mkv.Assemble.{
  place_clusters, end_of_clusters, append_body, append_attachments,
}
use docker_smartclips.Mkv.Parts.{total-append, cluster_parts, parts_len_lem}

-- `x` stands at `pos` in `b`.
abbrev pub StandsAt : List ℕ → ℕ → List ℕ → Type 0
StandsAt b pos x = take (length x) (drop pos b) ≡ x

pub stands_at :
    (b pre x post : List ℕ) (pos : ℕ) → b ≡ pre ++ (x ++ post) → pos ≡ length pre → StandsAt b pos x
stands_at b pre x post pos e h =
    ap₂ (λ (n : ℕ) t. take (length x) (drop n t)) h e
    ∙ ap (take (length x)) (drop-front pre (x ++ post))
    ∙ take-front x post

-- A cluster as the clip holds it: the new header and the bytes of its body.
abbrev pub cluster_bytes : List ℕ → Cluster → List ℕ
cluster_bytes file c = c.new_header ++ contents file c.body

abbrev pub clusters_bytes : List ℕ → List Cluster → List ℕ
clusters_bytes file [] = []
clusters_bytes file (c ∷ cs) = cluster_bytes file c ++ clusters_bytes file cs

pub contents-cluster_parts :
    (file : List ℕ) (cs : List Cluster) → contents file (cluster_parts cs) ≡ clusters_bytes file cs
unfolding literal
contents-cluster_parts file [] = refl
contents-cluster_parts file (c ∷ cs) =
    ap (λ t. c.new_header ++ t)
      (contents-append file c.body (cluster_parts cs)
        ∙ ap (λ t. contents file c.body ++ t) (contents-cluster_parts file cs))
    ∙ sym (append_assoc c.new_header (contents file c.body) (clusters_bytes file cs))

pub clusters_bytes-place :
    (file : List ℕ) (pos : ℕ) (cs : List Cluster)
    → clusters_bytes file (place_clusters pos cs) ≡ clusters_bytes file cs
unfolding place_clusters
clusters_bytes-place file pos [] = refl
clusters_bytes-place file pos (c ∷ cs) =
    ap (λ t. cluster_bytes file c ++ t)
      (clusters_bytes-place file (pos + length c.new_header + parts_len c.body) cs)

pub cluster_parts-place :
    (pos : ℕ) (cs : List Cluster) → cluster_parts (place_clusters pos cs) ≡ cluster_parts cs
unfolding place_clusters
cluster_parts-place pos [] = refl
cluster_parts-place pos (c ∷ cs) =
    ap (λ t. (literal c.new_header ∷ c.body) ++ t)
      (cluster_parts-place (pos + length c.new_header + parts_len c.body) cs)

total-cluster_parts :
    (c : Cluster) (cs : List Cluster)
    → total (cluster_parts (c ∷ cs)) ≡ length c.new_header + total c.body + total (cluster_parts cs)
unfolding literal
total-cluster_parts c cs = omega (arith, total-append c.body (cluster_parts cs))

-- The bodies lie in the data file.
abbrev pub BodyFits : ℕ → Cluster → Type 0
BodyFits size c = All (Fits size) c.body

pub end_of_clusters_lem :
    (pos : ℕ) (cs : List Cluster)
    → IsNat64 (total (cluster_parts cs))
    → end_of_clusters pos cs ≡ pos + total (cluster_parts cs)
unfolding end_of_clusters
end_of_clusters_lem pos [] h = omega arith
end_of_clusters_lem pos (c ∷ cs) h =
    let t = total-cluster_parts c cs in
    end_of_clusters_lem (pos + length c.new_header + parts_len c.body) cs (omega arith)
    ∙ omega (arith, parts_len_lem c.body (omega arith))

module _ (file b : List ℕ) where
  pub place_clusters-StandsAt :
      (pre : List ℕ) (pos : ℕ) (cs : List Cluster)
      → b ≡ pre ++ clusters_bytes file cs
      → pos ≡ length pre
      → All (BodyFits (length file)) cs
      → IsNat64 (total (cluster_parts cs))
      → All (λ c. StandsAt b c.new_offset (cluster_bytes file c)) (place_clusters pos cs)
  unfolding place_clusters
  place_clusters-StandsAt pre pos [] e h fit room = tt
  place_clusters-StandsAt pre pos (c ∷ cs) e h fit room =
      let t = total-cluster_parts c cs in
      (
        stands_at b pre (cluster_bytes file c) (clusters_bytes file cs) pos e h,
        place_clusters-StandsAt (pre ++ cluster_bytes file c)
            (pos + length c.new_header + parts_len c.body) cs
            (e ∙ sym (append_assoc pre (cluster_bytes file c) (clusters_bytes file cs)))
            (omega (
              arith,
              length-append pre (cluster_bytes file c),
              length-append c.new_header (contents file c.body),
              length-contents file c.body fit.0,
              parts_len_lem c.body (omega arith),
            ))
            fit.1 (omega arith),
      )

-- The attachments of the source, as a part.
abbrev pub attachment_parts : Option (ℕ × ℕ) → List Part
attachment_parts none = []
attachment_parts (some (off, len)) = range off len ∷ []

pub append_attachments_lem :
    (parts : List Part) (att : Option (ℕ × ℕ))
    → append_attachments parts att ≡ append_body parts (attachment_parts att)
unfolding append_body
append_attachments_lem parts none = refl
append_attachments_lem parts (some (off, len)) = refl

-- ===== src/Mkv/Segment.antt =====
-- The Segment that `assemble` lays out: its body, the positions and the size that its headers state.
use docker_smartclips.Prelude.{ℕ, ◌+◌, ◌≡◌, refl, sym, ap, subst, ◌∙◌, arith, Option}
use docker_smartclips.Prelude.{
  List, [], ◌∷◌, ◌++◌, append_assoc, append-nil, length, length-append, All, All-append,
}
use docker_smartclips.Prelude.Int64.{IsNat64}
use docker_smartclips.Ebml.Ids.{id_segment}
use docker_smartclips.Ebml.Write.{append_id, append_size_width}
use docker_smartclips.Layout.Part.{Part, literal, append_part}
use docker_smartclips.Layout.Content.{contents, contents-append, total, Fits, length-contents}
use docker_smartclips.Mkv.Cluster.{Cluster}
use docker_smartclips.Mkv.Assemble.{
  Cue, end_of_clusters, append_body, Positions, append_attachments, head_bytes, lay_out,
}
use docker_smartclips.Mkv.Parts.{
  Appends, append_body-Appends, total-append, cluster_parts, append_body-append,
  append_clusters_lem,
}
use docker_smartclips.Mkv.Sizes.{length-header}
use docker_smartclips.Mkv.Assembled.{
  clusters_bytes, contents-cluster_parts, cluster_parts-place, BodyFits, end_of_clusters_lem,
  attachment_parts, append_attachments_lem,
}
use docker_smartclips.Mkv.Positions.{
  layout_positions, placed, seek_bytes, cues_bytes, att_bytes, segment_body, positions-ArePositions,
}

cluster_parts-Fits :
    (size : ℕ) (cs : List Cluster) → All (BodyFits size) cs → All (Fits size) (cluster_parts cs)
unfolding literal
cluster_parts-Fits size [] h = tt
cluster_parts-Fits size (c ∷ cs) h =
    (refl, All-append (Fits size) c.body (cluster_parts cs) h.0 (cluster_parts-Fits size cs h.1))

module _ (file ebml_header info tracks : List ℕ) (att : Option (ℕ × ℕ)) (video : ℕ)
    (headed : List Cluster) (cues : List Cue) where
  abbrev pub clip_bytes : List ℕ
  clip_bytes = contents file (lay_out ebml_header info tracks att video headed cues)

  abbrev pub body : List ℕ
  body = segment_body file info tracks att video headed cues

  abbrev pub pos : Positions
  pos = layout_positions file info tracks att video headed cues

  -- The data file and the clip are below 2^63 bytes, the attachments and the bodies lie in the data file.
  pub record IsSourced : Type 0 where
    pub small : IsNat64 (length file)
    pub attachments : All (Fits (length file)) (attachment_parts att)
    pub bodies : All (BodyFits (length file)) headed
    pub room : IsNat64 (length ebml_header + length (append_id [] id_segment) + 8 + length body)

  abbrev pub head : List ℕ
  head = head_bytes ebml_header pos (end_of_clusters pos.clusters headed) info tracks

  abbrev pub tail_parts : List Part
  tail_parts =
      attachment_parts att
      ++ (literal (cues_bytes file info tracks att video headed cues)
          ∷ cluster_parts (placed file info tracks att video headed cues))

  pub lay_out_lem :
      lay_out ebml_header info tracks att video headed cues
      ≡ append_body (literal head ∷ []) tail_parts
  unfolding lay_out append_body
  lay_out_lem =
      let placed_ = placed file info tracks att video headed cues in
      let cues_ = literal (cues_bytes file info tracks att video headed cues) in
      append_clusters_lem (append_part (append_attachments (literal head ∷ []) att) cues_) placed_
      ∙ ap (λ t. append_body (append_part t cues_) (cluster_parts placed_))
          (append_attachments_lem (literal head ∷ []) att)
      ∙ sym (
          append_body-append (literal head ∷ []) (attachment_parts att)
            (cues_ ∷ cluster_parts placed_))

  -- The bytes of the parts, before any are merged.
  tail_contents :
      contents file tail_parts
      ≡ att_bytes file info tracks att video headed cues
        ++ (cues_bytes file info tracks att video headed cues
            ++ clusters_bytes file (placed file info tracks att video headed cues))
  unfolding literal
  tail_contents =
      let placed_ = placed file info tracks att video headed cues in
      let cues_ = cues_bytes file info tracks att video headed cues in
      contents-append file (attachment_parts att) (literal cues_ ∷ cluster_parts placed_)
      ∙ ap (λ t. contents file (attachment_parts att) ++ (cues_ ++ t))
          (contents-cluster_parts file placed_)

  head_split :
      head ++ contents file tail_parts
      ≡ append_size_width (append_id ebml_header id_segment) (end_of_clusters pos.clusters headed) 8
        ++ body
  unfolding head_bytes
  head_split =
      let header =
        append_size_width (append_id ebml_header id_segment) (end_of_clusters pos.clusters headed)
          8 in
      let seek = seek_bytes file info tracks att video headed cues in
      ap (λ t. head ++ t) tail_contents
      ∙ append_assoc header (seek ++ (info ++ tracks)) _
      ∙ ap (λ t. header ++ t)
          (append_assoc seek (info ++ tracks) _ ∙ ap (λ t. seek ++ t) (append_assoc info tracks _))

  pub length-head :
      length head
      ≡ length ebml_header
        + length (append_id [] id_segment)
        + 8
        + (length (seek_bytes file info tracks att video headed cues) + length info + length tracks)
  unfolding head_bytes
  length-head =
      let header =
        append_size_width (append_id ebml_header id_segment) (end_of_clusters pos.clusters headed)
          8 in
      let seek = seek_bytes file info tracks att video headed cues in
      omega (
        arith,
        length-append header (seek ++ (info ++ tracks)),
        length-append seek (info ++ tracks),
        length-append info tracks,
        length-header ebml_header id_segment (end_of_clusters pos.clusters headed) 8,
      )

  module _ (h : IsSourced) where
    placed-Fits :
        All (Fits (length file)) (cluster_parts (placed file info tracks att video headed cues))
    placed-Fits =
        subst (All (Fits (length file))) (sym (cluster_parts-place pos.clusters headed))
          (cluster_parts-Fits (length file) headed h.bodies)

    tail-Fits : All (Fits (length file)) tail_parts
    unfolding literal
    tail-Fits =
        All-append (Fits (length file)) (attachment_parts att) _ h.attachments (refl, placed-Fits)

    pub length-body :
        length body
        ≡ length (seek_bytes file info tracks att video headed cues)
          + length info
          + length tracks
          + total tail_parts
    length-body =
        let tail = contents file tail_parts in
        let seek = seek_bytes file info tracks att video headed cues in
        ap (λ t. length (seek ++ (info ++ (tracks ++ t)))) (sym tail_contents)
        ∙ omega (
          arith,
          length-append seek (info ++ (tracks ++ tail)),
          length-append info (tracks ++ tail),
          length-append tracks tail,
          length-contents file tail_parts tail-Fits,
        )

    pub total-tail :
        total tail_parts
        ≡ total (attachment_parts att)
          + length (cues_bytes file info tracks att video headed cues)
          + total (cluster_parts headed)
    unfolding literal
    total-tail =
        let placed_ = placed file info tracks att video headed cues in
        total-append (attachment_parts att)
          (literal (cues_bytes file info tracks att video headed cues) ∷ cluster_parts placed_)
        ∙ omega (arith, ap total (cluster_parts-place pos.clusters headed))

    segment_size : end_of_clusters pos.clusters headed ≡ length body
    segment_size =
        let p = positions-ArePositions file info tracks video headed cues att in
        end_of_clusters_lem pos.clusters headed (omega (arith, h.room, length-body, total-tail))
        ∙ omega (arith, length-body, total-tail, p.clusters_pos, p.cues_pos)

    pub appended :
        Appends file (literal head ∷ []) tail_parts (append_body (literal head ∷ []) tail_parts)
    unfolding literal
    appended =
        append_body-Appends file h.small (literal head ∷ []) tail_parts (refl, tt) tail-Fits
          (omega (arith, h.room, length-body, length-head))

    pub segment_bytes :
        clip_bytes ≡ append_size_width (append_id ebml_header id_segment) (length body) 8 ++ body
    unfolding literal
    segment_bytes =
        ap (contents file) lay_out_lem
        ∙ appended.bytes
        ∙ ap (λ t. t ++ contents file tail_parts) (append-nil head)
        ∙ head_split
        ∙ ap (λ (n : ℕ). append_size_width (append_id ebml_header id_segment) n 8 ++ body)
            segment_size

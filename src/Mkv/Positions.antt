-- ===== src/Mkv/Positions.antt =====
-- The positions that `assemble` computes are where the elements stand in the body of the Segment.
use docker_smartclips.Prelude.{ℕ, ◌+◌, ◌≡◌, sym, arith, Option, none, some}
use docker_smartclips.Prelude.{List, ◌++◌, length, All}
use docker_smartclips.Layout.Part.{range}
use docker_smartclips.Layout.Content.{contents, total, Fits}
use docker_smartclips.Mkv.Cluster.{Cluster}
use docker_smartclips.Mkv.Assemble.{
  Cue, cues_element, seek_head, place_clusters, positions, Positions,
}
use docker_smartclips.Mkv.Parts.{}
use docker_smartclips.Mkv.Sizes.{length-seek_head-some, length-seek_head-none, length-cues_element}
use docker_smartclips.Mkv.Assembled.{clusters_bytes, attachment_parts}

abbrev FitsAttachments : ℕ → Option (ℕ × ℕ) → Type 0
FitsAttachments size att = All (Fits size) (attachment_parts att)

module _ (file info tracks : List ℕ) (att : Option (ℕ × ℕ)) (video : ℕ) (headed : List Cluster)
    (cues : List Cue) where
  abbrev pub layout_positions : Positions
  layout_positions =
      positions att (length info) (length tracks) (length (cues_element video headed cues))

  abbrev pub placed : List Cluster
  placed = place_clusters layout_positions.clusters headed

  abbrev pub seek_bytes : List ℕ
  seek_bytes =
      seek_head layout_positions.info layout_positions.tracks layout_positions.cues
        layout_positions.att

  abbrev pub cues_bytes : List ℕ
  cues_bytes = cues_element video placed cues

  abbrev pub att_bytes : List ℕ
  att_bytes = contents file (attachment_parts att)

  -- What stands in the Segment.
  abbrev pub segment_body : List ℕ
  segment_body =
      seek_bytes ++ (info ++ (tracks ++ (att_bytes ++ (cues_bytes ++ clusters_bytes file placed))))

  -- The positions are where the elements stand.
  pub record ArePositions : Type 0 where
    pub info_pos : layout_positions.info ≡ length seek_bytes
    pub tracks_pos : layout_positions.tracks ≡ length seek_bytes + length info
    pub cues_pos :
        layout_positions.cues
        ≡ length seek_bytes + length info + length tracks + total (attachment_parts att)
    pub clusters_pos : layout_positions.clusters ≡ layout_positions.cues + length cues_bytes
    pub att_pos :
        (a : ℕ)
        → layout_positions.att ≡ some a
        → a ≡ length seek_bytes + length info + length tracks

module _ (file info tracks : List ℕ) (video : ℕ) (headed : List Cluster) (cues : List Cue) where
  pub positions-ArePositions :
      (att : Option (ℕ × ℕ)) → ArePositions file info tracks att video headed cues
  unfolding positions range
  positions-ArePositions none =
      let pos = layout_positions file info tracks none video headed cues in
      let seek = length-seek_head-none pos.info pos.tracks pos.cues in
      let size = length-cues_element video (place_clusters pos.clusters headed) headed cues in
      record {
        info_pos = sym seek;
        tracks_pos = omega (arith, seek);
        cues_pos = omega (arith, seek);
        clusters_pos = omega (arith, size);
        att_pos = λ a h. absurd (cc);
      }
  positions-ArePositions (some (off, len)) =
      let pos = layout_positions file info tracks (some (off, len)) video headed cues in
      let att = length (seek_head 0 0 0 (some 0)) + length info + length tracks in
      let seek = length-seek_head-some pos.info pos.tracks pos.cues att in
      let size = length-cues_element video (place_clusters pos.clusters headed) headed cues in
      record {
        info_pos = sym seek;
        tracks_pos = omega (arith, seek);
        cues_pos = omega (arith, seek);
        clusters_pos = omega (arith, size);
        att_pos = λ a h. omega (arith, some-injective a att h, seek);
      }
    where
      some-injective : (a b : ℕ) → some b ≡ some a → a ≡ b
      some-injective a b h = cc

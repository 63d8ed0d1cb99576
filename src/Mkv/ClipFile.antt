-- ===== src/Mkv/ClipFile.antt =====
-- The virtual file that `assemble` lays out is a Segment whose headers state its sizes and positions.
use docker_smartclips.Prelude.{
  ℕ, none, [], ◌^◌, ◌<◌, ◌≡◌, refl, sym, ap, subst, ◌∙◌, arith, Option, some,
}
use docker_smartclips.Prelude.{List, ◌++◌, append_assoc, length, length-append, All}
use docker_smartclips.Ebml.Ids.{id_segment}
use docker_smartclips.Ebml.Write.{append_id, append_size_width}
use docker_smartclips.Layout.Content.{Fits, length-contents}
use docker_smartclips.Mkv.Cluster.{Cluster}
use docker_smartclips.Layout.Part.{literal}
use docker_smartclips.Mkv.Assemble.{Cue, Positions, lay_out}
use docker_smartclips.Mkv.Parts.{IsPositive}
use docker_smartclips.Mkv.Assembled.{
  StandsAt, stands_at, cluster_bytes, clusters_bytes, clusters_bytes-place, place_clusters-StandsAt,
  attachment_parts,
}
use docker_smartclips.Mkv.Seek.{entries_of, IsSeekHead, seek_head-IsSeekHead}
use docker_smartclips.Mkv.Positions.{
  placed, seek_bytes, att_bytes, cues_bytes, positions-ArePositions,
}
use docker_smartclips.Mkv.Segment.{
  clip_bytes, body, pos, IsSourced, head, lay_out_lem, length-head, length-body, total-tail,
  appended, segment_bytes,
}

module _ (file ebml_header info tracks : List ℕ) (att : Option (ℕ × ℕ)) (video : ℕ)
    (headed : List Cluster) (cues : List Cue) where
  abbrev clip : List ℕ
  clip = clip_bytes file ebml_header info tracks att video headed cues

  abbrev b : List ℕ
  b = body file ebml_header info tracks att video headed cues

  abbrev at : Positions
  at = pos file ebml_header info tracks att video headed cues

  abbrev att_ : List ℕ
  att_ = att_bytes file info tracks att video headed cues

  abbrev cues_ : List ℕ
  cues_ = cues_bytes file info tracks att video headed cues

  abbrev seek_ : List ℕ
  seek_ = seek_bytes file info tracks att video headed cues

  abbrev placed_ : List Cluster
  placed_ = placed file info tracks att video headed cues

  -- A Segment whose size is that of its body. The body begins with a seek head, in which a reader finds the
  -- positions of Info, Tracks, the attachments and Cues, and these elements stand there; each cluster
  -- stands at its offset; the parts lie in the data file and none is empty.
  pub record IsClipFile : Type 0 where
    pub segment : clip ≡ append_size_width (append_id ebml_header id_segment) (length b) 8 ++ b
    pub seek_at : StandsAt b 0 seek_
    pub seek_head : IsSeekHead seek_ (entries_of at)
    pub info_at : StandsAt b at.info info
    pub tracks_at : StandsAt b at.tracks tracks
    pub att_at : (a : ℕ) → at.att ≡ some a → StandsAt b a att_
    pub cues_at : StandsAt b at.cues cues_
    pub clusters_at : All (λ c. StandsAt b c.new_offset (cluster_bytes file c)) placed_
    pub fit : All (Fits (length file)) (lay_out ebml_header info tracks att video headed cues)
    pub nonempty : All IsPositive (lay_out ebml_header info tracks att video headed cues)

  module _ (h : IsSourced file ebml_header info tracks att video headed cues) where
    head_positive : 0 < length (head file ebml_header info tracks att video headed cues)
    head_positive = omega (arith, length-head file ebml_header info tracks att video headed cues)

    lay_out-Fits : All (Fits (length file)) (lay_out ebml_header info tracks att video headed cues)
    lay_out-Fits =
        subst (All (Fits (length file)))
          (sym (lay_out_lem file ebml_header info tracks att video headed cues))
          (appended file ebml_header info tracks att video headed cues h).fit

    lay_out-IsPositive : All IsPositive (lay_out ebml_header info tracks att video headed cues)
    unfolding literal
    lay_out-IsPositive =
        subst (All IsPositive)
          (sym (lay_out_lem file ebml_header info tracks att video headed cues))
          ((appended file ebml_header info tracks att video headed cues h).positive
            (head_positive, tt))

    -- The positions are inside the body, so that the seek head can hold them.
    positions_fit : All (λ x. x.1 < 2 ^ 64) (entries_of at)
    positions_fit =
        let p = positions-ArePositions file info tracks video headed cues att in
        let size = length-body file ebml_header info tracks att video headed cues h in
        let tail = total-tail file ebml_header info tracks att video headed cues h in
        with_att at.att refl (omega (arith, p.info_pos, h.room, size))
          (omega (arith, p.tracks_pos, h.room, size))
          (omega (arith, p.cues_pos, h.room, size, tail))
          (λ a e. omega (arith, p.att_pos a e, h.room, size))
      where
        with_att :
            (o : Option ℕ)
            → at.att ≡ o
            → at.info < 2 ^ 64
            → at.tracks < 2 ^ 64
            → at.cues < 2 ^ 64
            → ((a : ℕ) → at.att ≡ some a → a < 2 ^ 64)
            → All (λ x. x.1 < 2 ^ 64) (entries_of (record at { att = o }))
        with_att none e i t c a = (i, (t, (c, tt)))
        with_att (some n) e i t c a = (i, (t, (a n e, (c, tt))))

    read_back : IsSeekHead seek_ (entries_of at)
    read_back = seek_head-IsSeekHead at.info at.tracks at.cues at.att at.clusters positions_fit

    -- Where the data file and the clip are below 2^63 bytes and the attachments and the bodies lie in
    -- the data file, the parts of `assemble`, merged as they are, hold the Segment header with the size
    -- of what follows, then the seek head, Info, Tracks, the attachments, Cues and the clusters. The seek
    -- head is read back as one entry each for Info, Tracks, the attachments, if there are any, and Cues,
    -- and each of these stands at the position its entry gives; each cluster stands where its
    -- `newOffset` says; no part is empty or outside the data file.
    pub lay_out-IsClipFile : IsClipFile
    lay_out-IsClipFile =
        let p = positions-ArePositions file info tracks video headed cues att in
        let clusters = clusters_bytes file placed_ in
        let tracks_pre : b ≡ (seek_ ++ info) ++ (tracks ++ (att_ ++ (cues_ ++ clusters))) =
          sym (append_assoc seek_ info _) in
        let att_pre : b ≡ ((seek_ ++ info) ++ tracks) ++ (att_ ++ (cues_ ++ clusters)) =
          tracks_pre ∙ sym (append_assoc (seek_ ++ info) tracks _) in
        let cues_pre : b ≡ (((seek_ ++ info) ++ tracks) ++ att_) ++ (cues_ ++ clusters) =
          att_pre ∙ sym (append_assoc ((seek_ ++ info) ++ tracks) att_ _) in
        let clusters_pre : b ≡ ((((seek_ ++ info) ++ tracks) ++ att_) ++ cues_) ++ clusters =
          cues_pre ∙ sym (append_assoc (((seek_ ++ info) ++ tracks) ++ att_) cues_ clusters) in
        let len_tracks = length-append seek_ info in
        let len_att = length-append (seek_ ++ info) tracks in
        let len_cues = length-append ((seek_ ++ info) ++ tracks) att_ in
        let len_clusters = length-append (((seek_ ++ info) ++ tracks) ++ att_) cues_ in
        let att_len = length-contents file (attachment_parts att) h.attachments in
        record {
          segment = segment_bytes file ebml_header info tracks att video headed cues h;
          seek_at = stands_at b [] seek_ _ 0 refl refl;
          seek_head = read_back;
          info_at = stands_at b seek_ info _ at.info refl p.info_pos;
          tracks_at =
              stands_at b (seek_ ++ info) tracks _ at.tracks tracks_pre
                (omega (arith, p.tracks_pos, len_tracks));
          att_at = λ a e.
              stands_at b ((seek_ ++ info) ++ tracks) att_ _ a att_pre
                (omega (arith, p.att_pos a e, len_tracks, len_att));
          cues_at =
              stands_at b (((seek_ ++ info) ++ tracks) ++ att_) cues_ clusters at.cues cues_pre
                (omega (arith, p.cues_pos, len_tracks, len_att, len_cues, att_len));
          clusters_at =
              place_clusters-StandsAt file b ((((seek_ ++ info) ++ tracks) ++ att_) ++ cues_)
                at.clusters headed
                (clusters_pre
                  ∙ ap (λ t. ((((seek_ ++ info) ++ tracks) ++ att_) ++ cues_) ++ t)
                      (clusters_bytes-place file at.clusters headed))
                (omega (
                  arith, p.cues_pos, p.clusters_pos, len_tracks, len_att, len_cues, len_clusters,
                  att_len,
                ))
                h.bodies
                (omega (
                  arith,
                  h.room,
                  length-body file ebml_header info tracks att video headed cues h,
                  total-tail file ebml_header info tracks att video headed cues h,
                ));
          fit = lay_out-Fits;
          nonempty = lay_out-IsPositive;
        }

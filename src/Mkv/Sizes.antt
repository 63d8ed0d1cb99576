-- ===== src/Mkv/Sizes.antt =====
-- The sizes of the elements that `assemble` writes: they do not depend on the positions.
use docker_smartclips.Prelude.{
  ℕ, zero, suc, ◌+◌, ◌*◌, ◌%◌, ◌^◌, bit_or, ◌≡◌, refl, sym, ap, ap₂, ◌∙◌, inl, inr, arith, none,
  some, ltb,
}
use docker_smartclips.Prelude.{List, [], ◌∷◌, ◌++◌, length, length-append, Bool-cases}
use docker_smartclips.Prelude.Bits.{shl, shr, to_byte}
use docker_smartclips.Ebml.Write.{
  append_id, append_bytes, append_size_width, size_width, append_element, append_uint_width,
  append_uint,
}
use docker_smartclips.Ebml.Bytes.{bytes_of, length-bytes_of}
use docker_smartclips.Ebml.Numbers.{append_uint_width_lem}
use docker_smartclips.Mkv.Cluster.{Cluster}
use docker_smartclips.Mkv.Assemble.{
  Cue, cue_point, cue_points, cues_element, seek_element, seek_head, new_offset_at,
}
use docker_smartclips.Ebml.Ids.{
  id_info, id_tracks, id_cue_track, id_cue_cluster_position, id_cue_track_positions, id_cue_point,
  id_cues, id_seek_id, id_seek_position, id_seek, id_attachments, id_seek_head,
}

length-append_id :
    (dst : List ℕ) (id : ℕ) → length (append_id dst id) ≡ length dst + length (append_id [] id)
unfolding append_id
length-append_id dst id = elim (Bool-cases (ltb 0xffffff id)) [
  | inl a ↦ rw a (omega (arith, length-append dst))
  | inr a ↦ elim (Bool-cases (ltb 0xffff id)) [
    | inl b ↦ rw (a, b) (omega (arith, length-append dst))
    | inr b ↦ elim (Bool-cases (ltb 0xff id)) [
      | inl c ↦ rw (a, b, c) (omega (arith, length-append dst))
      | inr c ↦ rw (a, b, c) (omega (arith, length-append dst))
    ]
  ]
]

length-append_bytes : (dst : List ℕ) (v w : ℕ) → length (append_bytes dst v w) ≡ length dst + w
unfolding append_bytes
length-append_bytes dst v zero = omega arith
length-append_bytes dst v (suc i) = omega (
  arith,
  length-append_bytes (dst ++ (to_byte (shr v (8 * i)) ∷ [])) v i,
  length-append dst (to_byte (shr v (8 * i)) ∷ []),
)

length-append_size_width_any :
    (dst : List ℕ) (n w : ℕ) → length (append_size_width dst n w) ≡ length dst + w
unfolding append_size_width
length-append_size_width_any dst n w =
    length-append_bytes dst (bit_or (n % 2 ^ 64) (shl 64 1 (7 * w))) w

-- A segment's or a cluster's ID and size.
pub length-header :
    (dst : List ℕ) (id n w : ℕ)
    → length (append_size_width (append_id dst id) n w) ≡ length dst + length (append_id [] id) + w
length-header dst id n w =
    length-append_size_width_any (append_id dst id) n w ∙ omega (arith, length-append_id dst id)

length-append_element_any :
    (dst : List ℕ) (id : ℕ) (payload : List ℕ)
    → length (append_element dst id payload)
      ≡ length dst + length (append_id [] id) + size_width (length payload) + length payload
unfolding append_element
length-append_element_any dst id payload = omega (
  arith,
  length-append
      (append_size_width (append_id dst id) (length payload) (size_width (length payload))) payload,
  length-header dst id (length payload) (size_width (length payload)),
)

-- An element's size follows from that of its payload.
length-append_element_eq :
    (d d' : List ℕ) (id : ℕ) (p q : List ℕ)
    → length d ≡ length d'
    → length p ≡ length q
    → length (append_element d id p) ≡ length (append_element d' id q)
length-append_element_eq d d' id p q hd hp =
    length-append_element_any d id p
    ∙ ap₂ (λ (a b : ℕ). a + length (append_id [] id) + size_width b + b) hd hp
    ∙ sym (length-append_element_any d' id q)

length-append_uint_width_eq :
    (d : List ℕ) (id v v' w : ℕ)
    → length (append_uint_width d id v w) ≡ length (append_uint_width d id v' w)
length-append_uint_width_eq d id v v' w =
    ap length (append_uint_width_lem d id v w)
    ∙ length-append_element_eq d d id (bytes_of w v) (bytes_of w v') refl
        (length-bytes_of w v ∙ sym (length-bytes_of w v'))
    ∙ sym (ap length (append_uint_width_lem d id v' w))

length-seek_element :
    (id pos pos' : ℕ) → length (seek_element id pos) ≡ length (seek_element id pos')
unfolding seek_element
length-seek_element id pos pos' = length-append_element_eq [] [] id_seek _ _ refl (
    length-append_uint_width_eq (append_element [] id_seek_id (append_id [] id)) id_seek_position
      pos pos' 8)

length-append_eq :
    (a a' b b' : List ℕ)
    → length a ≡ length a'
    → length b ≡ length b'
    → length (a ++ b) ≡ length (a' ++ b')
length-append_eq a a' b b' h k = omega (arith, length-append a b, length-append a' b')

-- The size of the seek head depends on whether there are attachments only.
pub length-seek_head-some :
    (i t c a : ℕ) → length (seek_head i t c (some a)) ≡ length (seek_head 0 0 0 (some 0))
unfolding seek_head
length-seek_head-some i t c a = length-append_element_eq [] [] id_seek_head _ _ refl (
    length-append_eq (seek_element id_info i) (seek_element id_info 0) _ _
      (length-seek_element id_info i 0)
      (length-append_eq (seek_element id_tracks t) (seek_element id_tracks 0) _ _
        (length-seek_element id_tracks t 0)
        (length-append_eq (seek_element id_attachments a) (seek_element id_attachments 0) _ _
          (length-seek_element id_attachments a 0) (length-seek_element id_cues c 0))))

pub length-seek_head-none :
    (i t c : ℕ) → length (seek_head i t c none) ≡ length (seek_head 0 0 0 none)
unfolding seek_head
length-seek_head-none i t c = length-append_element_eq [] [] id_seek_head _ _ refl (
    length-append_eq (seek_element id_info i) (seek_element id_info 0) _ _
      (length-seek_element id_info i 0)
      (length-append_eq (seek_element id_tracks t) (seek_element id_tracks 0) _ _
        (length-seek_element id_tracks t 0) (length-seek_element id_cues c 0)))

length-cue_point :
    (video : ℕ) (cs ds : List Cluster) (q : Cue)
    → length (cue_point video cs q) ≡ length (cue_point video ds q)
unfolding cue_point
length-cue_point video cs ds q = length-append_element_eq _ _ id_cue_track_positions _ _ refl (
    length-append_uint_width_eq (append_uint [] id_cue_track video) id_cue_cluster_position
      (new_offset_at q.cluster_off cs) (new_offset_at q.cluster_off ds) 8)

length-cue_points :
    (video : ℕ) (cs ds : List Cluster) (cues : List Cue) (a b : List ℕ)
    → length a ≡ length b
    → length (cue_points video cs cues a) ≡ length (cue_points video ds cues b)
unfolding cue_points
length-cue_points video cs ds [] a b h = h
length-cue_points video cs ds (q ∷ cues) a b h =
    length-cue_points video cs ds cues _ _
      (length-append_element_eq a b id_cue_point _ _ h (length-cue_point video cs ds q))

-- The size of the index does not depend on where the clusters stand.
pub length-cues_element :
    (video : ℕ) (cs ds : List Cluster) (cues : List Cue)
    → length (cues_element video cs cues) ≡ length (cues_element video ds cues)
unfolding cues_element
length-cues_element video cs ds cues =
    length-append_element_eq [] [] id_cues _ _ refl (length-cue_points video cs ds cues [] [] refl)

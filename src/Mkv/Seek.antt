-- ===== src/Mkv/Seek.antt =====
-- The seek head that `assemble` of internal/mkv/mkv.go writes is read back with its positions.
use docker_smartclips.Prelude.{
  ℕ, ◌^◌, ◌≤◌, ◌<◌, ◌≡◌, refl, ap, subst, ◌∙◌, arith, Option, none, some, List, [], ◌∷◌, ◌++◌,
  append-nil, length, All,
}
use docker_smartclips.Io.{ok}
use docker_smartclips.Ebml.Ids.{
  id_seek, id_seek_id, id_seek_position, id_seek_head, id_info, id_tracks, id_cues, id_attachments,
}
use docker_smartclips.Ebml.Read.{Element, children, uint}
use docker_smartclips.Ebml.Write.{append_element}
use docker_smartclips.Ebml.IdRoundTrip.{IsId, id_fits}
use docker_smartclips.Ebml.Items.{Item, append_items, elements_of, children-append_items}
use docker_smartclips.Ebml.Numbers.{uint-bytes_of}
use docker_smartclips.Mkv.Assemble.{Positions, seek_element, seek_head}
use docker_smartclips.Mkv.SeekItems.{
  kid_items, seek_items, kid_items-IsItems, length-items_most, seek_items-IsItems, length-seeks,
  seeks-cons,
}

-- A Seek element, as a reader sees it: its two children name the element and give its position.
pub record NamesAt (e : Element) (id pos : ℕ) : Type 0 where
  pub is_seek : e.id ≡ id_seek
  pub name : Element
  pub position : Element
  pub kids : children e.payload ≡ ok (name ∷ position ∷ [])
  pub name_id : name.id ≡ id_seek_id
  pub names : uint name.payload ≡ ok id
  pub position_id : position.id ≡ id_seek_position
  pub value : uint position.payload ≡ ok pos

-- One Seek element for each entry, in the order of the entries.
abbrev pub AreNamed : List Element → List (ℕ × ℕ) → Type 0
AreNamed [] [] = Unit
AreNamed [] (x ∷ xs) = ⊥
AreNamed (e ∷ es) [] = ⊥
AreNamed (e ∷ es) ((id, pos) ∷ xs) = NamesAt e id pos × AreNamed es xs

-- A seek head with these entries, as a reader sees it.
pub record IsSeekHead (bytes : List ℕ) (entries : List (ℕ × ℕ)) : Type 0 where
  pub element : Element
  pub read : children bytes ≡ ok (element ∷ [])
  pub same_id : element.id ≡ id_seek_head
  pub seeks : List Element
  pub kids : children element.payload ≡ ok seeks
  pub named : AreNamed seeks entries

abbrev attachment_entries : Option ℕ → List (ℕ × ℕ)
attachment_entries none = []
attachment_entries (some a) = (id_attachments, a) ∷ []

-- The elements to be found, with their positions.
abbrev pub entries_of : Positions → List (ℕ × ℕ)
entries_of at =
    (id_info, at.info)
    ∷ (id_tracks, at.tracks)
    ∷ (attachment_entries at.att ++ ((id_cues, at.cues) ∷ []))

-- An ID of four bytes, and a position that a uint64 holds.
abbrev pub IsEntry : ℕ × ℕ → Type 0
IsEntry (id, pos) = IsId 4 id × (pos < 2 ^ 64)

seek-NamesAt :
    (id pos : ℕ)
    → IsEntry (id, pos)
    → NamesAt
        (record {
          id = id_seek;
          payload = append_items [] (kid_items id pos);
          raw = append_element [] id_seek (append_items [] (kid_items id pos));
        })
        id
        pos
seek-NamesAt id pos h = record {
  is_seek = refl;
  name = _;
  position = _;
  kids = children-append_items (kid_items id pos) (kid_items-IsItems id pos);
  name_id = refl;
  names = uint-bytes_of 4 id (omega arith) (id_fits 4 id h.0).0;
  position_id = refl;
  value = uint-bytes_of 8 pos (omega arith) (omega (arith, h.1));
}

seeks-AreNamed : (xs : List (ℕ × ℕ)) → All IsEntry xs → AreNamed (elements_of (seek_items xs)) xs
seeks-AreNamed [] h = tt
seeks-AreNamed ((id, pos) ∷ xs) h = (seek-NamesAt id pos h.0, seeks-AreNamed xs h.1)

-- A seek head of a few entries is read back.
seek_head_of :
    (xs : List (ℕ × ℕ))
    → All IsEntry xs
    → length xs ≤ 1000
    → IsSeekHead (append_element [] id_seek_head (append_items [] (seek_items xs))) xs
seek_head_of xs h few =
    let head : Item = record {
      id_len = 4;
      id = id_seek_head;
      payload = append_items [] (seek_items xs);
    } in
    record {
      element = _;
      read = children-append_items (head ∷ []) (
        record {
          well_formed = record {
            shortest = omega arith;
            longest = omega arith;
            above = omega arith;
            below = omega arith;
          };
          small = omega (
            arith,
            length-items_most (seek_items xs) (seek_items-IsItems xs),
            length-seeks xs,
            few,
          );
        },
        tt,
      );
      same_id = refl;
      seeks = elements_of (seek_items xs);
      kids = children-append_items (seek_items xs) (seek_items-IsItems xs);
      named = seeks-AreNamed xs h;
    }

four_bytes : (id : ℕ) → 2 ^ 28 ≤ id → id < 2 ^ 29 → IsId 4 id
four_bytes id a b = record {
  shortest = omega arith;
  longest = omega arith;
  above = omega arith;
  below = omega arith;
}

info-IsId : IsId 4 id_info
info-IsId = four_bytes id_info (omega arith) (omega arith)

tracks-IsId : IsId 4 id_tracks
tracks-IsId = four_bytes id_tracks (omega arith) (omega arith)

cues-IsId : IsId 4 id_cues
cues-IsId = four_bytes id_cues (omega arith) (omega arith)

attachments-IsId : IsId 4 id_attachments
attachments-IsId = four_bytes id_attachments (omega arith) (omega arith)

one_seek :
    (id pos : ℕ) → IsId 4 id → append_items [] (seek_items ((id, pos) ∷ [])) ≡ seek_element id pos
one_seek id pos h = seeks-cons id pos [] h ∙ append-nil (seek_element id pos)

-- `seekHead` writes a seek head in which a reader finds Info, Tracks, Cues and the attachments, if there
-- are any, at the given positions.
pub seek_head-IsSeekHead :
    (info tracks cues : ℕ) (att : Option ℕ) (clusters : ℕ)
    → let at : Positions = record {
      info = info;
      tracks = tracks;
      att = att;
      cues = cues;
      clusters = clusters;
    } in
      All (λ x. x.1 < 2 ^ 64) (entries_of at)
      → IsSeekHead (seek_head info tracks cues att) (entries_of at)
unfolding seek_head
seek_head-IsSeekHead info tracks cues none clusters h =
    let xs = (id_info, info) ∷ (id_tracks, tracks) ∷ (id_cues, cues) ∷ [] in
    subst (λ t. IsSeekHead (append_element [] id_seek_head t) xs)
      (seeks-cons id_info info ((id_tracks, tracks) ∷ (id_cues, cues) ∷ []) info-IsId
        ∙ ap (λ t. seek_element id_info info ++ t)
            (seeks-cons id_tracks tracks ((id_cues, cues) ∷ []) tracks-IsId
              ∙ ap (λ t. seek_element id_tracks tracks ++ t) (one_seek id_cues cues cues-IsId)))
      (seek_head_of xs ((info-IsId, h.0), ((tracks-IsId, h.1.0), ((cues-IsId, h.1.1.0), tt)))
        (omega arith))
seek_head-IsSeekHead info tracks cues (some a) clusters h =
    let xs = (id_info, info) ∷ (id_tracks, tracks) ∷ (id_attachments, a) ∷ (id_cues, cues) ∷ [] in
    let rest = (id_attachments, a) ∷ (id_cues, cues) ∷ [] in
    subst (λ t. IsSeekHead (append_element [] id_seek_head t) xs)
      (seeks-cons id_info info ((id_tracks, tracks) ∷ rest) info-IsId
        ∙ ap (λ t. seek_element id_info info ++ t)
            (seeks-cons id_tracks tracks rest tracks-IsId
              ∙ ap (λ t. seek_element id_tracks tracks ++ t)
                  (seeks-cons id_attachments a ((id_cues, cues) ∷ []) attachments-IsId
                    ∙ ap (λ t. seek_element id_attachments a ++ t)
                        (one_seek id_cues cues cues-IsId))))
      (seek_head_of xs
        (
          (info-IsId, h.0),
          ((tracks-IsId, h.1.0), ((attachments-IsId, h.1.1.0), ((cues-IsId, h.1.1.1.0), tt))),
        )
        (omega arith))

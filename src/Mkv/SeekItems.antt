-- ===== src/Mkv/SeekItems.antt =====
-- The Seek elements that `seekHead` of internal/mkv/mkv.go writes, as items that a reader takes apart.
use docker_smartclips.Prelude.{
  ℕ, ◌+◌, ◌*◌, ◌≤◌, ◌≡◌, sym, ap, ◌∙◌, arith, List, [], ◌∷◌, ◌++◌, length, length-append,
}
use docker_smartclips.Ebml.Ids.{id_seek, id_seek_id, id_seek_position}
use docker_smartclips.Ebml.Write.{append_id, append_element}
use docker_smartclips.Ebml.Bytes.{bytes_of, length-bytes_of}
use docker_smartclips.Ebml.IdRoundTrip.{IsId, append_id_lem}
use docker_smartclips.Ebml.Elements.{IsItem, length-append_element, width_fits}
use docker_smartclips.Ebml.Items.{Item, IsItems, append_items, items-cons}
use docker_smartclips.Ebml.Numbers.{append_uint_width_lem}
use docker_smartclips.Mkv.Assemble.{seek_element}

abbrev pub kid_items : ℕ → ℕ → List Item
kid_items id pos =
    record { id_len = 2; id = id_seek_id; payload = bytes_of 4 id }
    ∷ record { id_len = 2; id = id_seek_position; payload = bytes_of 8 pos }
    ∷ []

abbrev pub seek_item : ℕ × ℕ → Item
seek_item (id, pos) = record {
  id_len = 2;
  id = id_seek;
  payload = append_items [] (kid_items id pos);
}

abbrev pub seek_items : List (ℕ × ℕ) → List Item
seek_items [] = []
seek_items (x ∷ xs) = seek_item x ∷ seek_items xs

pub two_byte-IsId : IsId 2 id_seek_id × IsId 2 id_seek_position × IsId 2 id_seek
two_byte-IsId = (
  record {
    shortest = omega arith;
    longest = omega arith;
    above = omega arith;
    below = omega arith;
  },
  record {
    shortest = omega arith;
    longest = omega arith;
    above = omega arith;
    below = omega arith;
  },
  record {
    shortest = omega arith;
    longest = omega arith;
    above = omega arith;
    below = omega arith;
  },
)

pub kid_items-IsItems : (id pos : ℕ) → IsItems (kid_items id pos)
kid_items-IsItems id pos = (
  record { well_formed = two_byte-IsId.0; small = omega (arith, length-bytes_of 4 id) },
  (record { well_formed = two_byte-IsId.1; small = omega (arith, length-bytes_of 8 pos) }, tt),
)

-- An element has at most eight bytes for its size.
length-element_most :
    (k id : ℕ) (payload : List ℕ)
    → IsItem k id payload
    → length (append_element [] id payload) ≤ k + 8 + length payload
length-element_most k id payload h =
    let w = width_fits k id payload h in omega (arith, length-append_element k id payload h, w.most)

abbrev most_bytes : List Item → ℕ
most_bytes [] = 0
most_bytes (i ∷ items) = i.id_len + 8 + length i.payload + most_bytes items

pub length-items_most :
    (items : List Item) → IsItems items → length (append_items [] items) ≤ most_bytes items
length-items_most [] h = omega arith
length-items_most (i ∷ items) h = omega (
  arith,
  ap length (items-cons i items h),
  length-append (append_element [] i.id i.payload) (append_items [] items),
  length-element_most i.id_len i.id i.payload h.0,
  length-items_most items h.1,
)

pub length-kids : (id pos : ℕ) → length (append_items [] (kid_items id pos)) ≤ 32
length-kids id pos = omega (
  arith,
  length-items_most (kid_items id pos) (kid_items-IsItems id pos),
  length-bytes_of 4 id,
  length-bytes_of 8 pos,
)

pub seek_items-IsItems : (xs : List (ℕ × ℕ)) → IsItems (seek_items xs)
seek_items-IsItems [] = tt
seek_items-IsItems ((id, pos) ∷ xs) = (
  record { well_formed = two_byte-IsId.2; small = omega (arith, length-kids id pos) },
  seek_items-IsItems xs,
)

pub length-seeks : (xs : List (ℕ × ℕ)) → most_bytes (seek_items xs) ≤ 42 * length xs
length-seeks [] = omega arith
length-seeks ((id, pos) ∷ xs) = omega (arith, length-kids id pos, length-seeks xs)

-- A Seek element is written as such an item.
seek_element_lem :
    (id pos : ℕ)
    → IsId 4 id
    → seek_element id pos ≡ append_element [] id_seek (append_items [] (kid_items id pos))
unfolding seek_element
seek_element_lem id pos h = ap (append_element [] id_seek) (
    append_uint_width_lem (append_element [] id_seek_id (append_id [] id)) id_seek_position pos 8
    ∙ ap (λ t. append_element (append_element [] id_seek_id t) id_seek_position (bytes_of 8 pos))
        (append_id_lem [] 4 id h))

pub seeks-cons :
    (id pos : ℕ) (xs : List (ℕ × ℕ))
    → IsId 4 id
    → append_items [] (seek_items ((id, pos) ∷ xs))
      ≡ seek_element id pos ++ append_items [] (seek_items xs)
seeks-cons id pos xs h =
    items-cons (seek_item (id, pos)) (seek_items xs) (seek_items-IsItems ((id, pos) ∷ xs))
    ∙ ap (λ t. t ++ append_items [] (seek_items xs)) (sym (seek_element_lem id pos h))

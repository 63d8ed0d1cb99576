-- ===== src/Ebml/Tests.antt =====
-- Runs of the functions of internal/ebml, and the theorems at concrete inputs.
use docker_smartclips.Prelude.{◌≡◌, refl, List, [], ◌∷◌, ◌++◌, arith}
use docker_smartclips.Io.{ok, err, overrun}
use docker_smartclips.Ebml.Ids.{id_cue_time, id_cluster, id_title}
use docker_smartclips.Ebml.Read.{
  vint_len, shift_in, read_id, size_loop, read_size, known, unknown_size, parse_header, Element,
  children,
}
use docker_smartclips.Ebml.Write.{
  append_id, append_size_width, size_width, append_element, append_uint,
}
use docker_smartclips.Ebml.IdRoundTrip.{IsId}
use docker_smartclips.Ebml.SizeRoundTrip.{read_size-append_size_width}
use docker_smartclips.Ebml.Items.{Item, IsItems, append_items, elements_of, children-append_items}
use docker_smartclips.Ebml.Children.{AreFramed, raws, children_partition}
use docker_smartclips.Ebml.Numbers.{ReadsUint, append_uint-ReadsUint}

-- The reserved value of one byte is the unknown size; the same bits on two bytes are 127.
read_size_reserved : read_size (0xff ∷ []) ≡ ok (unknown_size, 1)
unfolding read_size size_loop vint_len
read_size_reserved = refl

read_size_two : read_size (0x40 ∷ 0x7f ∷ 5 ∷ []) ≡ ok (known 127, 2)
unfolding read_size size_loop vint_len
read_size_two = refl

append_element_title :
    append_element [] id_title (0x68 ∷ 0x69 ∷ []) ≡ 0x7b ∷ 0xa9 ∷ 0x82 ∷ 0x68 ∷ 0x69 ∷ []
unfolding append_element append_id append_size_width size_width
append_element_title = refl

children_two :
    children (0xb3 ∷ 0x81 ∷ 7 ∷ 0xec ∷ 0x80 ∷ [])
    ≡ ok (
        record { id = 0xb3; payload = 7 ∷ []; raw = 0xb3 ∷ 0x81 ∷ 7 ∷ [] }
        ∷ record { id = 0xec; payload = []; raw = 0xec ∷ 0x80 ∷ [] }
        ∷ [])
unfolding children parse_header read_id shift_in read_size size_loop vint_len
children_two = refl

children_cut : children (0xb3 ∷ 0x82 ∷ 7 ∷ []) ≡ err (overrun 0xb3)
unfolding children parse_header read_id shift_in read_size size_loop vint_len
children_cut = refl

cue_time-IsId : IsId 1 id_cue_time
cue_time-IsId = omega arith

abbrev two_items : List Item
two_items =
    record { id_len = 1; id = id_cue_time; payload = 7 ∷ [] }
    ∷ record { id_len = 4; id = id_cluster; payload = [] }
    ∷ []

two_items_fit : IsItems two_items
two_items_fit = omega arith

read_size-append_size_width_example :
    read_size (append_size_width [] 127 8 ++ (9 ∷ [])) ≡ ok (known 127, 8)
read_size-append_size_width_example =
    read_size-append_size_width 127 8 (9 ∷ []) (omega arith) (omega arith) (omega arith)

children-append_items_example : children (append_items [] two_items) ≡ ok (elements_of two_items)
children-append_items_example = children-append_items two_items two_items_fit

abbrev void_element : List Element
void_element = record { id = 0xec; payload = []; raw = 0xec ∷ 0x80 ∷ [] } ∷ []

children_void : children (0xec ∷ 0x80 ∷ []) ≡ ok void_element
unfolding children parse_header read_id shift_in read_size size_loop vint_len
children_void = refl

children_partition_example : (raws void_element ≡ 0xec ∷ 0x80 ∷ []) × AreFramed void_element
children_partition_example = children_partition (0xec ∷ 0x80 ∷ []) void_element children_void

append_uint-ReadsUint_example : ReadsUint (append_uint [] id_cue_time 70000) id_cue_time 70000
append_uint-ReadsUint_example =
    append_uint-ReadsUint 1 id_cue_time 70000 cue_time-IsId (omega arith)

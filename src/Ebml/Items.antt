-- ===== src/Ebml/Items.antt =====
-- `Children` against elements that `AppendElement` writes one after the other.
use docker_smartclips.Prelude.{ℕ, zero, suc, ◌≤◌, ◌≡◌, sym, ap, ◌∙◌, arith}
use docker_smartclips.Prelude.{List, [], ◌∷◌, ◌++◌, append_assoc, append-nil, length, length-append}
use docker_smartclips.Prelude.{All}
use docker_smartclips.Io.{ok}
use docker_smartclips.Ebml.Read.{Element, children_loop, children}
use docker_smartclips.Ebml.Write.{append_element}
use docker_smartclips.Ebml.Elements.{
  IsItem, append_element_lem, length-append_element, element_of, children_loop_end,
  children_loop-item,
}

-- An element to write, with the length of its ID.
pub record Item : Type 0 where
  pub id_len : ℕ
  pub id : ℕ
  pub payload : List ℕ

abbrev pub IsItems : List Item → Type 0
IsItems = All (λ i. IsItem i.id_len i.id i.payload)

abbrev pub append_items : List ℕ → List Item → List ℕ
append_items dst [] = dst
append_items dst (i ∷ items) = append_items (append_element dst i.id i.payload) items

abbrev pub elements_of : List Item → List Element
elements_of [] = []
elements_of (i ∷ items) =
    record { id = i.id; payload = i.payload; raw = append_element [] i.id i.payload }
    ∷ elements_of items

append_items_lem :
    (dst : List ℕ) (items : List Item)
    → IsItems items
    → append_items dst items ≡ dst ++ append_items [] items
append_items_lem dst [] h = sym (append-nil dst)
append_items_lem dst (i ∷ items) h =
    let e = append_element [] i.id i.payload in
    ap (λ t. append_items t items) (append_element_lem i.id_len i.id i.payload h.0 dst)
    ∙ append_items_lem (dst ++ e) items h.1
    ∙ append_assoc dst e (append_items [] items)
    ∙ ap (λ t. dst ++ t) (sym (append_items_lem e items h.1))

pub items-cons :
    (i : Item) (items : List Item)
    → IsItems (i ∷ items)
    → append_items [] (i ∷ items) ≡ append_element [] i.id i.payload ++ append_items [] items
items-cons i items h = append_items_lem (append_element [] i.id i.payload) items h.1

-- The loop at the end of `pre`, with the items still to come.
children_loop-items :
    (items : List Item) (fuel : ℕ) (pre : List ℕ) (out : List Element)
    → IsItems items
    → length items ≤ fuel
    → children_loop fuel (pre ++ append_items [] items) (length pre) out
      ≡ ok (out ++ elements_of items)
children_loop-items [] fuel pre out h enough =
    children_loop_end fuel (pre ++ []) (length pre) out (omega (arith, length-append pre []))
    ∙ ap ok (sym (append-nil out))
children_loop-items (i ∷ items) zero pre out h enough = absurd (omega arith)
children_loop-items (i ∷ items) (suc fuel) pre out h enough =
    let e = append_element [] i.id i.payload in
    ap (λ t. children_loop (suc fuel) (pre ++ t) (length pre) out) (items-cons i items h)
    ∙ children_loop-item fuel i.id_len i.id i.payload h.0 pre (append_items [] items) out
    ∙ children_loop-items items fuel (pre ++ e)
        (out ++ (element_of i.id_len i.id i.payload h.0 ∷ [])) h.1 (omega arith)
    ∙ ap ok (append_assoc out (element_of i.id_len i.id i.payload h.0 ∷ []) (elements_of items))

length-items : (items : List Item) → IsItems items → length items ≤ length (append_items [] items)
length-items [] h = omega arith
length-items (i ∷ items) h = omega (
  arith,
  ap length (items-cons i items h),
  length-append (append_element [] i.id i.payload) (append_items [] items),
  length-append_element i.id_len i.id i.payload h.0,
  h.0.well_formed.shortest,
  length-items items h.1,
)

-- Elements written one after the other are read back as they were written.
pub children-append_items :
    (items : List Item) → IsItems items → children (append_items [] items) ≡ ok (elements_of items)
unfolding children
children-append_items items h =
    children_loop-items items (length (append_items [] items)) [] [] h (length-items items h)

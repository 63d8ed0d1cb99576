-- ===== src/Ebml/Elements.antt =====
-- `ParseHeader` and a round of `Children` against `AppendElement`.
use docker_smartclips.Prelude.{
  ℕ, zero, suc, ◌+◌, ◌-◌, ◌^◌, ◌≤◌, ◌<◌, ◌≡◌, refl, sym, ap, ap₂, ◌∙◌, arith,
}
use docker_smartclips.Prelude.{List, [], ◌∷◌, ◌++◌, append_assoc, length, length-append}
use docker_smartclips.Prelude.{
  take, drop, take-front, drop-front, drop-front_add, drop-append_ge, lt→ltb, ge→ltb,
}
use docker_smartclips.Io.{ok}
use docker_smartclips.Ebml.Read.{known, Header, parse_header, Element, element_at, children_loop}
use docker_smartclips.Ebml.Write.{append_id, append_size_width, size_width, append_element}
use docker_smartclips.Ebml.Bytes.{length-bytes_of}
use docker_smartclips.Ebml.IdRoundTrip.{IsId, append_id_lem, read_id-append_id}
use docker_smartclips.Ebml.SizeRoundTrip.{
  marked, append_size_width_lem, read_size-append_size_width, IsSizeWidth, size_width-IsSizeWidth,
}

-- What the writers are given: an ID of `k` bytes and a payload whose length has an encoding.
pub record IsItem (k id : ℕ) (payload : List ℕ) : Type 0 where
  pub well_formed : IsId k id
  pub small : length payload + 1 < 2 ^ 56

append_size_width_at :
    (dst : List ℕ) (n w : ℕ)
    → IsSizeWidth n w
    → append_size_width dst n w ≡ dst ++ append_size_width [] n w
append_size_width_at dst n zero h = absurd (omega arith)
append_size_width_at dst n (suc i) h =
    append_size_width_lem dst n i (omega (arith, h.most)) (omega (arith, h.fits))
    ∙ ap (λ t. dst ++ t)
        (sym (append_size_width_lem [] n i (omega (arith, h.most)) (omega (arith, h.fits))))

pub length-append_size_width : (n w : ℕ) → IsSizeWidth n w → length (append_size_width [] n w) ≡ w
length-append_size_width n zero h = absurd (omega arith)
length-append_size_width n (suc i) h =
    ap length (append_size_width_lem [] n i (omega (arith, h.most)) (omega (arith, h.fits)))
    ∙ length-bytes_of (suc i) (marked n (suc i))

module _ (k id : ℕ) (payload : List ℕ) (h : IsItem k id payload) where
  abbrev width : ℕ
  width = size_width (length payload)

  pub width_fits : IsSizeWidth (length payload) width
  width_fits = size_width-IsSizeWidth (length payload) h.small

  -- The header and the payload of the element.
  pub append_element_parts :
      (dst : List ℕ)
      → append_element dst id payload
        ≡ dst ++ (append_id [] id ++ (append_size_width [] (length payload) width ++ payload))
  unfolding append_element
  append_element_parts dst =
      rw
        (
          append_size_width_at (append_id dst id) (length payload) width width_fits,
          append_id_lem dst k id h.well_formed,
          append_id_lem [] k id h.well_formed,
        )
        (simp append_assoc)

  -- The writer only appends.
  pub append_element_lem :
      (dst : List ℕ) → append_element dst id payload ≡ dst ++ append_element [] id payload
  append_element_lem dst =
      append_element_parts dst ∙ ap (λ t. dst ++ t) (sym (append_element_parts []))

  abbrev pub element_header : Header
  element_header = record { id = id; size = known (length payload); header_len = k + width }

  length-id : length (append_id [] id) ≡ k
  length-id = ap length (append_id_lem [] k id h.well_formed) ∙ length-bytes_of k id

  drop-id : (tail : List ℕ) → drop k (append_id [] id ++ tail) ≡ tail
  drop-id tail =
      let len = length-id in
      drop-append_ge k (append_id [] id) tail (omega arith)
      ∙ ap (λ (n : ℕ). drop n tail) {x = k - length (append_id [] id)} {y = 0} (omega arith)

  pub length-append_element : length (append_element [] id payload) ≡ k + width + length payload
  length-append_element =
      ap length (append_element_parts [])
      ∙ omega (
        arith,
        length-append (append_id [] id) (append_size_width [] (length payload) width ++ payload),
        length-append (append_size_width [] (length payload) width) payload,
        length-append_size_width (length payload) width width_fits,
        length-id,
      )

  -- The header of an element is read back, and the bytes behind it are left.
  pub parse_header-append_element :
      (rest : List ℕ) → parse_header (append_element [] id payload ++ rest) ≡ ok element_header
  unfolding parse_header
  parse_header-append_element rest =
      let size = append_size_width [] (length payload) width in
      let split : append_element [] id payload ++ rest
          ≡ append_id [] id ++ (size ++ (payload ++ rest)) =
        ap (λ t. t ++ rest) (append_element_parts [])
        ∙ append_assoc (append_id [] id) (size ++ payload) rest
        ∙ ap (λ t. append_id [] id ++ t) (append_assoc size payload rest) in
      rw
        (
          split,
          read_id-append_id k id (size ++ (payload ++ rest)) h.well_formed,
          drop-id (size ++ (payload ++ rest)),
        )
        (rw (
          read_size-append_size_width (length payload) width (payload ++ rest) width_fits.least
            width_fits.most width_fits.fits))

  drop-header :
      (rest : List ℕ) → drop (k + width) (append_element [] id payload ++ rest) ≡ payload ++ rest
  drop-header rest =
      let size = append_size_width [] (length payload) width in
      let split : append_element [] id payload ++ rest
          ≡ (append_id [] id ++ size) ++ (payload ++ rest) =
        ap (λ t. t ++ rest) (append_element_parts [])
        ∙ append_assoc (append_id [] id) (size ++ payload) rest
        ∙ ap (λ t. append_id [] id ++ t) (append_assoc size payload rest)
        ∙ sym (append_assoc (append_id [] id) size (payload ++ rest)) in
      let len : length (append_id [] id ++ size) ≡ k + width =
        length-append (append_id [] id) size
        ∙ ap₂ (λ (a b : ℕ). a + b) length-id
            (length-append_size_width (length payload) width width_fits) in
      ap (λ t. drop (k + width) t) split
      ∙ drop-append_ge (k + width) (append_id [] id ++ size) (payload ++ rest) (omega arith)
      ∙ ap (λ (n : ℕ). drop n (payload ++ rest)) {x = k + width - length (append_id [] id ++ size)}
          {y = 0} (omega arith)

  -- The child that the reader makes of the element.
  abbrev pub element_of : Element
  element_of = record { id = id; payload = payload; raw = append_element [] id payload }

  front-append :
      (pre rest : List ℕ)
      → element_at
          (pre ++ (append_element [] id payload ++ rest))
          (length pre)
          element_header
          (length payload)
        ≡ element_of
  front-append pre rest =
      ap₂ (λ p r. record { id = id; payload = p; raw = r })
        (ap (λ t. take (length payload) t)
            (drop-front_add pre (append_element [] id payload ++ rest) (k + width)
              ∙ drop-header rest)
          ∙ take-front payload rest)
        (ap₂ (λ (n : ℕ) t. take n t) (sym length-append_element)
            (drop-front pre (append_element [] id payload ++ rest))
          ∙ take-front (append_element [] id payload) rest)

-- The loop of `Children` over one element.
pub children_loop_step :
    (fuel : ℕ) (b : List ℕ) (p : ℕ) (out : List Element) (h : Header) (n : ℕ)
    → p < length b
    → parse_header (drop p b) ≡ ok h
    → h.size ≡ known n
    → p + h.header_len + n ≤ length b
    → children_loop (suc fuel) b p out
      ≡ children_loop fuel b (p + h.header_len + n) (out ++ (element_at b p h n ∷ []))
unfolding children_loop
children_loop_step fuel b p out h n inside parsed size fits =
    rw (lt→ltb p (length b) inside, parsed, size)
      (rw (ge→ltb (length b) n (omega arith), ge→ltb (length b) (p + h.header_len + n) fits))

pub children_loop_end :
    (fuel : ℕ) (b : List ℕ) (p : ℕ) (out : List Element)
    → length b ≤ p
    → children_loop fuel b p out ≡ ok out
unfolding children_loop
children_loop_end zero b p out h = rw (ge→ltb p (length b) h)
children_loop_end (suc fuel) b p out h = rw (ge→ltb p (length b) h)

module _ (fuel k id : ℕ) (payload : List ℕ) (h : IsItem k id payload) (pre rest : List ℕ)
    (out : List Element) where
  abbrev written : List ℕ
  written = append_element [] id payload

  written_end : length pre + (k + width k id payload h) + length payload ≡ length (pre ++ written)
  written_end = omega (arith, length-append pre written, length-append_element k id payload h)

  pub children_loop-item :
      children_loop (suc fuel) (pre ++ (written ++ rest)) (length pre) out
      ≡ children_loop fuel
          ((pre ++ written) ++ rest)
          (length (pre ++ written))
          (out ++ (element_of k id payload h ∷ []))
  children_loop-item =
      let b = pre ++ (written ++ rest) in
      let size : length b ≡ length (pre ++ written) + length rest =
        ap length (sym (append_assoc pre written rest)) ∙ length-append (pre ++ written) rest in
      let len = length-append_element k id payload h in
      let one = h.well_formed.shortest in
      children_loop_step fuel b (length pre) out (element_header k id payload h) (length payload)
        (omega (arith, length-append pre written))
        (ap parse_header (drop-front pre (written ++ rest))
          ∙ parse_header-append_element k id payload h rest)
        refl (omega (arith, written_end))
      ∙ ap₂ (λ (p : ℕ) x. children_loop fuel b p (out ++ (x ∷ []))) written_end
          (front-append k id payload h pre rest)
      ∙ ap
          (λ t.
            children_loop fuel t (length (pre ++ written))
              (out ++ (element_of k id payload h ∷ [])))
          (sym (append_assoc pre written rest))

-- ===== src/Ebml/Children.antt =====
-- `Children` on any input: it ends, and what it answers is a partition of its input.
use docker_smartclips.Prelude.{
  ℕ, zero, suc, ◌+◌, ◌≤◌, ◌<◌, ◌≡◌, ◌≢◌, refl, sym, ap, ap₂, subst, ◌∙◌, inl, inr, arith,
}
use docker_smartclips.Prelude.{
  List, [], ◌∷◌, ◌++◌, append_assoc, append-nil, length, take, drop, take-append-drop,
}
use docker_smartclips.Prelude.{
  drop-drop, drop-take, drop_all, length-take, length-drop, Bool-cases, ltb, false, ltb→lt, ltb→ge,
}
use docker_smartclips.Io.{stuck, ok, err, Result-cases}
use docker_smartclips.Ebml.Read.{
  Header, parse_header, Element, element_at, Size, known, unknown_size, children_loop, children,
}
use docker_smartclips.Ebml.Takes.{parse_header_takes, parse_header-ne-stuck}

-- How one round of the loop that succeeds goes on.
pub record Round (fuel : ℕ) (b : List ℕ) (p : ℕ) (out els : List Element) : Type 0 where
  pub header : Header
  pub len : ℕ
  pub parsed : parse_header (drop p b) ≡ ok header
  pub size : header.size ≡ known len
  pub fits : p + header.header_len + len ≤ length b
  pub rest :
      children_loop fuel b (p + header.header_len + len) (out ++ (element_at b p header len ∷ []))
      ≡ ok els

module _ (fuel : ℕ) (b : List ℕ) (p : ℕ) (out els : List Element) (inside : p < length b) where
  Round-of_size :
      (h : Header) (s : Size)
      → parse_header (drop p b) ≡ ok h
      → h.size ≡ s
      → children_loop (suc fuel) b p out ≡ ok els
      → Round fuel b p out els
  unfolding children_loop
  Round-of_size h unknown_size q z e = absurd (ground arith)
  Round-of_size h (known n) q z e = record {
    header = h;
    len = n;
    parsed = q;
    size = z;
    fits = ground arith;
    rest = ground arith;
  }

  round : children_loop (suc fuel) b p out ≡ ok els → Round fuel b p out els
  round e = elim (Result-cases (parse_header (drop p b))) [
    | inr (x, q) ↦ absurd (unfold children_loop in ground arith)
    | inl (h, q) ↦ Round-of_size h h.size q refl e
  ]

-- The raw bytes of elements, one after the other.
abbrev pub raws : List Element → List ℕ
raws [] = []
raws (e ∷ es) = e.raw ++ raws es

-- An element in front of `rest`: `ParseHeader` reads its header there, with its ID and the length of its
-- payload, and its raw bytes are that header, of two bytes or more, and the payload behind it.
pub record IsFramed (e : Element) (rest : List ℕ) : Type 0 where
  pub header : Header
  pub parsed : parse_header (e.raw ++ rest) ≡ ok header
  pub same_id : header.id ≡ e.id
  pub size : header.size ≡ known (length e.payload)
  pub two : 2 ≤ header.header_len
  pub split : drop header.header_len e.raw ≡ e.payload
  pub total : length e.raw ≡ header.header_len + length e.payload

-- Each element in front of those behind it.
abbrev pub AreFramed : List Element → Type 0
AreFramed [] = Unit
AreFramed (e ∷ es) = IsFramed e (raws es) × AreFramed es

-- What the loop appends covers the rest of its input.
pub record Covers (b : List ℕ) (p : ℕ) (out els : List Element) : Type 0 where
  pub more : List Element
  pub appended : els ≡ out ++ more
  pub covered : raws more ≡ drop p b
  pub framed : AreFramed more

children_loop_stop :
    (fuel : ℕ) (b : List ℕ) (p : ℕ) (out els : List Element)
    → ltb p (length b) ≡ false
    → children_loop fuel b p out ≡ ok els
    → out ≡ els
unfolding children_loop
children_loop_stop zero b p out els h e = ground arith
children_loop_stop (suc fuel) b p out els h e = ground arith

stop-Covers :
    (fuel : ℕ) (b : List ℕ) (p : ℕ) (out els : List Element)
    → ltb p (length b) ≡ false
    → children_loop fuel b p out ≡ ok els
    → Covers b p out els
stop-Covers fuel b p out els h e = record {
  more = [];
  appended = sym (children_loop_stop fuel b p out els h e) ∙ sym (append-nil out);
  covered = sym (drop_all p b (ltb→ge p (length b) h));
  framed = tt;
}

module _ (b : List ℕ) (p : ℕ) (h : Header) (n : ℕ) (fits : p + h.header_len + n ≤ length b) where
  element_at-covered : (element_at b p h n).raw ++ drop (p + h.header_len + n) b ≡ drop p b
  element_at-covered =
      ap (λ t. take (h.header_len + n) (drop p b) ++ t)
        (ap (λ (k : ℕ). drop k b) {x = p + h.header_len + n} {y = p + (h.header_len + n)}
            (omega arith)
          ∙ sym (drop-drop (h.header_len + n) p b))
      ∙ take-append-drop (h.header_len + n) (drop p b)

  length-payload : length (element_at b p h n).payload ≡ n
  length-payload =
      omega (arith, length-take n (drop (p + h.header_len) b), length-drop (p + h.header_len) b)

  element_at-IsFramed :
      (rest : List ℕ)
      → parse_header (drop p b) ≡ ok h
      → h.size ≡ known n
      → rest ≡ drop (p + h.header_len + n) b
      → IsFramed (element_at b p h n) rest
  element_at-IsFramed rest parsed size behind = record {
    header = h;
    parsed =
        ap (λ t. parse_header ((element_at b p h n).raw ++ t)) behind
        ∙ ap parse_header element_at-covered
        ∙ parsed;
    same_id = refl;
    size = size ∙ ap known (sym length-payload);
    two = (parse_header_takes (drop p b) h parsed).0;
    split =
        drop-take h.header_len (h.header_len + n) (drop p b)
        ∙ ap₂ (λ (k : ℕ) t. take k t) {y = n} (omega arith) (drop-drop h.header_len p b);
    total = omega (
      arith,
      length-take (h.header_len + n) (drop p b),
      length-drop p b,
      length-take n (drop (p + h.header_len) b),
      length-drop (p + h.header_len) b,
    );
  }

children_loop-Covers :
    (fuel : ℕ) (b : List ℕ) (p : ℕ) (out els : List Element)
    → children_loop fuel b p out ≡ ok els
    → Covers b p out els
children_loop-Covers zero b p out els e = elim (Bool-cases (ltb p (length b))) [
  | inl t ↦ absurd (unfold children_loop in ground arith)
  | inr f ↦ stop-Covers zero b p out els f e
]
children_loop-Covers (suc fuel) b p out els e = elim (Bool-cases (ltb p (length b))) [
  | inr f ↦ stop-Covers (suc fuel) b p out els f e
  | inl t ↦
      let r = round fuel b p out els (ltb→lt p (length b) t) e in
      let x = element_at b p r.header r.len in
      let c =
        children_loop-Covers fuel b (p + r.header.header_len + r.len) (out ++ (x ∷ [])) els
          r.rest in
      record {
        more = x ∷ c.more;
        appended = c.appended ∙ append_assoc out (x ∷ []) c.more;
        covered = ap (λ t. x.raw ++ t) c.covered ∙ element_at-covered b p r.header r.len r.fits;
        framed = (
          element_at-IsFramed b p r.header r.len r.fits (raws c.more) r.parsed r.size c.covered,
          c.framed,
        );
      }
]

-- Where `Children` succeeds, the elements' raw bytes are its input in order, and each element is the
-- header that `ParseHeader` reads at its place, with its ID and the length of its payload, followed by
-- that payload.
pub children_partition :
    (b : List ℕ) (els : List Element) → children b ≡ ok els → (raws els ≡ b) × AreFramed els
unfolding children
children_partition b els e =
    let c = children_loop-Covers (length b) b 0 [] els e in
    (ap raws c.appended ∙ c.covered, subst AreFramed (sym c.appended) c.framed)

module _ (fuel : ℕ) (b : List ℕ) (p : ℕ) (out : List Element)
    (again : (q : ℕ) (o : List Element)
      → length b ≤ q + fuel
      → children_loop fuel b q o ≢ err stuck)
    (enough : length b ≤ p + suc fuel) where
  size-ne-stuck :
      (h : Header) (s : Size)
      → parse_header (drop p b) ≡ ok h
      → h.size ≡ s
      → children_loop (suc fuel) b p out ≢ err stuck
  unfolding children_loop
  size-ne-stuck h unknown_size q z e = ground arith
  size-ne-stuck h (known n) q z e = ground (
    arith,
    again (p + h.header_len + n) (out ++ (element_at b p h n ∷ [])),
    parse_header_takes (drop p b) h q,
  )

  round-ne-stuck : children_loop (suc fuel) b p out ≢ err stuck
  round-ne-stuck e = elim (Result-cases (parse_header (drop p b))) [
    | inr (x, q) ↦ unfold children_loop in ground (arith, parse_header-ne-stuck (drop p b))
    | inl (h, q) ↦ size-ne-stuck h h.size q refl e
  ]

children_loop-ne-stuck :
    (fuel : ℕ) (b : List ℕ) (p : ℕ) (out : List Element)
    → length b ≤ p + fuel
    → children_loop fuel b p out ≢ err stuck
children_loop-ne-stuck zero b p out h e = unfold children_loop in ground arith
children_loop-ne-stuck (suc fuel) b p out h e =
    round-ne-stuck fuel b p out (λ q o. children_loop-ne-stuck fuel b q o) h e

-- `Children` ends on every input: its loop never runs out of fuel.
pub children-ne-stuck : (b : List ℕ) → children b ≢ err stuck
unfolding children
children-ne-stuck b = children_loop-ne-stuck (length b) b 0 [] (omega arith)

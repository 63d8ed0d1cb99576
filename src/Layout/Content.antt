-- ===== src/Layout/Content.antt =====
-- What parts stand for: the bytes of the virtual file, over the bytes of the data file.
use docker_smartclips.Prelude.{
  ℕ, ◌+◌, ◌≤◌, ◌<◌, ◌≡◌, refl, sym, ap, ap₂, ◌∙◌, inl, inr, arith, Option, none, some,
}
use docker_smartclips.Prelude.{
  List, [], ◌∷◌, ◌++◌, append-nil, append_assoc, length, length-append, length-take, length-drop,
}
use docker_smartclips.Prelude.{
  take, drop, take-append-take, drop-drop, All, Bool-cases, ◌==◌, ==_iff,
}
use docker_smartclips.Prelude.Int64.{IsNat64, add_i64_lem, add_i64}
use docker_smartclips.Layout.Part.{Part, merge, append_to, append_last, append_part}

abbrev pub bytes_at : List ℕ → Option (List ℕ) → ℕ → ℕ → List ℕ
bytes_at file (some d) off len = d
bytes_at file none off len = take len (drop off file)

abbrev pub part_bytes : List ℕ → Part → List ℕ
part_bytes file p = bytes_at file p.bytes p.off p.len

abbrev pub contents : List ℕ → List Part → List ℕ
contents file [] = []
contents file (p ∷ parts) = part_bytes file p ++ contents file parts

-- The sum of the lengths, with no wrap.
abbrev pub total : List Part → ℕ
total [] = 0
total (p ∷ parts) = p.len + total parts

-- A part that matches a data file of `size` bytes.
abbrev pub FitsAt : ℕ → Option (List ℕ) → ℕ → ℕ → Type 0
FitsAt size (some d) off len = length d ≡ len
FitsAt size none off len = off + len ≤ size

abbrev pub Fits : ℕ → Part → Type 0
Fits size p = FitsAt size p.bytes p.off p.len

length-bytes_at :
    (file : List ℕ) (o : Option (List ℕ)) (off len : ℕ)
    → FitsAt (length file) o off len
    → length (bytes_at file o off len) ≡ len
length-bytes_at file (some d) off len h = h
length-bytes_at file none off len h =
    omega (arith, length-take len (drop off file), length-drop off file)

pub part_bytes-Fits :
    (file : List ℕ) (p : Part) → Fits (length file) p → length (part_bytes file p) ≡ p.len
part_bytes-Fits file p h = length-bytes_at file p.bytes p.off p.len h

pub length-contents :
    (file : List ℕ) (parts : List Part)
    → All (Fits (length file)) parts
    → length (contents file parts) ≡ total parts
length-contents file [] h = refl
length-contents file (p ∷ parts) h = omega (
  arith,
  length-append (part_bytes file p) (contents file parts),
  part_bytes-Fits file p h.0,
  length-contents file parts h.1,
)

pub contents-append :
    (file : List ℕ) (xs ys : List Part)
    → contents file (xs ++ ys) ≡ contents file xs ++ contents file ys
contents-append file [] ys = refl
contents-append file (p ∷ xs) ys =
    ap (λ t. part_bytes file p ++ t) (contents-append file xs ys)
    ∙ sym (append_assoc (part_bytes file p) (contents file xs) (contents file ys))

-- Parts that stand for the bytes of `parts` followed by those of `p`.
pub record Extends (file : List ℕ) (parts : List Part) (p : Part) (result : List Part)
    : Type 0 where
  pub bytes : contents file result ≡ contents file parts ++ part_bytes file p
  pub fit : All (Fits (length file)) result
  pub sum : total result ≡ total parts + p.len
  pub positive : 0 < p.len → All (λ q. 0 < q.len) parts → All (λ q. 0 < q.len) result

abbrev part_of : Option (List ℕ) → ℕ → ℕ → Part
part_of bytes off len = record { bytes = bytes; off = off; len = len }

module _ (file : List ℕ) (last p : Part) (hl : Fits (length file) last)
    (hp : Fits (length file) p) where
  stays : Extends file (last ∷ []) p (last ∷ p ∷ [])
  stays = record {
    bytes =
        contents-append file (last ∷ []) (p ∷ [])
        ∙ ap (λ t. contents file (last ∷ []) ++ t) (append-nil (part_bytes file p));
    fit = (hl, (hp, tt));
    sum = omega arith;
    positive = λ n h. (h.0, (n, tt));
  }

module _ (file : List ℕ) (lo ll po pl : ℕ) (small : IsNat64 (length file))
    (room : IsNat64 (ll + pl)) where
  ranges-Extends :
      lo + ll ≤ length file
      → po + pl ≤ length file
      → lo + ll ≡ po
      → Extends file
          (part_of none lo ll ∷ [])
          (part_of none po pl)
          (part_of none lo (add_i64 ll pl) ∷ [])
  ranges-Extends hl hp e = record {
    bytes =
        append-nil (take (add_i64 ll pl) (drop lo file))
        ∙ ap (λ (n : ℕ). take n (drop lo file)) (add_i64_lem ll pl room)
        ∙ sym (take-append-take ll pl (drop lo file))
        ∙ ap₂ (λ s t. s ++ t) (sym (append-nil (take ll (drop lo file))))
            (ap (λ t. take pl t) (drop-drop ll lo file ∙ ap (λ (n : ℕ). drop n file) e));
    fit = omega arith;
    sum = omega arith;
    positive = λ n h. (omega arith, tt);
  }

  literals-Extends :
      (c d : List ℕ)
      → length c ≡ ll
      → length d ≡ pl
      → Extends file
          (part_of (some c) lo ll ∷ [])
          (part_of (some d) po pl)
          (part_of (some (c ++ d)) lo (add_i64 ll pl) ∷ [])
  literals-Extends c d hl hp = record {
    bytes = append-nil (c ++ d) ∙ ap (λ t. t ++ d) (sym (append-nil c));
    fit = omega (arith, length-append c d);
    sum = omega arith;
    positive = λ n h. (omega arith, tt);
  }

  append_to-fields :
      (lb pb : Option (List ℕ))
      → Fits (length file) (part_of lb lo ll)
      → Fits (length file) (part_of pb po pl)
      → Extends file
          (part_of lb lo ll ∷ [])
          (part_of pb po pl)
          (append_to (part_of lb lo ll) (part_of pb po pl))
  unfolding merge
  append_to-fields none none hl hp = elim (Bool-cases (add_i64 lo ll == po)) [
    | inl e ↦
        rw (e, append_to) (ranges-Extends hl hp (omega (arith, (==_iff (add_i64 lo ll) po).0 e)))
    | inr n ↦ rw (n, append_to) (stays file (part_of none lo ll) (part_of none po pl) hl hp)
  ]
  append_to-fields none (some d) hl hp =
      stays file (part_of none lo ll) (part_of (some d) po pl) hl hp
  append_to-fields (some c) none hl hp =
      stays file (part_of (some c) lo ll) (part_of none po pl) hl hp
  append_to-fields (some c) (some d) hl hp = literals-Extends c d hl hp

module _ (file : List ℕ) (p : Part) (hp : Fits (length file) p)
    (small : IsNat64 (length file)) where
  append_last-Extends :
      (parts : List Part)
      → All (Fits (length file)) parts
      → IsNat64 (total parts + p.len)
      → Extends file parts p (append_last parts p)
  unfolding append_last
  append_last-Extends [] h room = record {
    bytes = append-nil (part_bytes file p);
    fit = (hp, tt);
    sum = omega arith;
    positive = λ n h. (n, tt);
  }
  append_last-Extends (last ∷ []) h room =
      append_to-fields file last.off last.len p.off p.len small (omega arith) last.bytes p.bytes h.0
        hp
  append_last-Extends (q ∷ r ∷ parts) h room =
      let x = append_last-Extends (r ∷ parts) h.1 (omega arith) in
      record {
        bytes =
            ap (λ t. part_bytes file q ++ t) x.bytes
            ∙ sym
                (append_assoc (part_bytes file q) (contents file (r ∷ parts)) (part_bytes file p));
        fit = (h.0, x.fit);
        sum = omega (arith, x.sum);
        positive = λ n k. (k.0, x.positive n k.1);
      }

  empty-bytes : p.len ≡ 0 → part_bytes file p ≡ []
  empty-bytes e = length_zero (part_bytes file p) (part_bytes-Fits file p hp ∙ e)
    where
      length_zero : (xs : List ℕ) → length xs ≡ 0 → xs ≡ []
      length_zero [] h = refl
      length_zero (x ∷ xs) h = absurd (omega arith)

  -- Adding a part, merged or not, adds its bytes at the end of the virtual file, keeps every part
  -- inside the data file and adds its length to the total.
  pub append_part-Extends :
      (parts : List Part)
      → All (Fits (length file)) parts
      → IsNat64 (total parts + p.len)
      → Extends file parts p (append_part parts p)
  unfolding append_part
  append_part-Extends parts h room = elim (Bool-cases (p.len == 0)) [
    | inr n ↦ rw n (append_last-Extends parts h room)
    | inl z ↦
        let e = (==_iff p.len 0).0 z in
        rw z (record {
          bytes =
              sym (append-nil (contents file parts))
              ∙ ap (λ t. contents file parts ++ t) (sym (empty-bytes e));
          fit = h;
          sum = omega arith;
          positive = λ n k. k;
        })
  ]

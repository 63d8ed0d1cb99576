-- ===== src/Mkv/Parts.antt =====
-- The bytes of the parts that `blockParts` and the last loop of `assemble` add one by one.
use docker_smartclips.Prelude.{ℕ, ◌+◌, ◌<◌, ◌≤◌, ◌≡◌, refl, sym, ap, ◌∙◌, inl, inr, arith}
use docker_smartclips.Prelude.{
  List, [], ◌∷◌, ◌++◌, append_assoc, append-nil, length, All, Bool-cases, ◌==◌, ==_iff, take, drop,
}
use docker_smartclips.Prelude.Int64.{IsNat64, add_i64_lem}
use docker_smartclips.Layout.Part.{Part, literal, range, append_part, parts_len_loop, parts_len}
use docker_smartclips.Layout.Content.{
  contents, total, Fits, part_bytes, Extends, append_part-Extends,
}
use docker_smartclips.Mkv.Cluster.{Cluster, Block}
use docker_smartclips.Mkv.Select.{block_parts_loop, block_parts}
use docker_smartclips.Mkv.Assemble.{append_body, append_clusters}

abbrev pub IsPositive : Part → Type 0
IsPositive p = 0 < p.len

-- Parts that stand for the bytes of `parts` followed by those of `more`.
pub record Appends (file : List ℕ) (parts more result : List Part) : Type 0 where
  pub bytes : contents file result ≡ contents file parts ++ contents file more
  pub fit : All (Fits (length file)) result
  pub sum : total result ≡ total parts + total more
  pub positive : All IsPositive parts → All IsPositive result

pub total-append : (xs ys : List Part) → total (xs ++ ys) ≡ total xs + total ys
total-append [] ys = omega arith
total-append (p ∷ xs) ys = omega (arith, total-append xs ys)

append_part-IsPositive :
    (file : List ℕ) (parts : List Part) (p : Part)
    → Extends file parts p (append_part parts p)
    → All IsPositive parts
    → All IsPositive (append_part parts p)
unfolding append_part
append_part-IsPositive file parts p x h = elim (Bool-cases (p.len == 0)) [
  | inl z ↦ rw z h
  | inr n ↦ x.positive (ground (arith, ==_iff p.len 0)) h
]

module _ (file : List ℕ) (small : IsNat64 (length file)) where
  pub append_body-Appends :
      (parts body : List Part)
      → All (Fits (length file)) parts
      → All (Fits (length file)) body
      → IsNat64 (total parts + total body)
      → Appends file parts body (append_body parts body)
  unfolding append_body
  append_body-Appends parts [] h k room = record {
    bytes = sym (append-nil (contents file parts));
    fit = h;
    sum = omega arith;
    positive = λ q. q;
  }
  append_body-Appends parts (p ∷ body) h k room =
      let x = append_part-Extends file p k.0 small parts h (omega arith) in
      let y = append_body-Appends (append_part parts p) body x.fit k.1 (omega (arith, x.sum)) in
      record {
        bytes =
            y.bytes
            ∙ ap (λ t. t ++ contents file body) x.bytes
            ∙ append_assoc (contents file parts) (part_bytes file p) (contents file body);
        fit = y.fit;
        sum = omega (arith, x.sum, y.sum);
        positive = λ q. y.positive (append_part-IsPositive file parts p x q);
      }

abbrev pub block_ranges : List Block → List Part
block_ranges [] = []
block_ranges (b ∷ bs) = range b.off b.len ∷ block_ranges bs

block_parts_loop_lem :
    (parts : List Part) (bs : List Block)
    → block_parts_loop parts bs ≡ append_body parts (block_ranges bs)
unfolding block_parts_loop append_body
block_parts_loop_lem parts [] = refl
block_parts_loop_lem parts (b ∷ bs) =
    block_parts_loop_lem (append_part parts (range b.off b.len)) bs

-- The bytes of blocks, one after the other, and their length.
abbrev pub blocks_bytes : List ℕ → List Block → List ℕ
blocks_bytes file [] = []
blocks_bytes file (b ∷ bs) = take b.len (drop b.off file) ++ blocks_bytes file bs

abbrev pub blocks_len : List Block → ℕ
blocks_len [] = 0
blocks_len (b ∷ bs) = b.len + blocks_len bs

abbrev pub IsInside : ℕ → Block → Type 0
IsInside size b = b.off + b.len ≤ size

contents-block_ranges :
    (file : List ℕ) (bs : List Block) → contents file (block_ranges bs) ≡ blocks_bytes file bs
unfolding range
contents-block_ranges file [] = refl
contents-block_ranges file (b ∷ bs) =
    ap (λ t. take b.len (drop b.off file) ++ t) (contents-block_ranges file bs)

total-block_ranges : (bs : List Block) → total (block_ranges bs) ≡ blocks_len bs
unfolding range
total-block_ranges [] = refl
total-block_ranges (b ∷ bs) = omega (arith, total-block_ranges bs)

block_ranges-Fits :
    (size : ℕ) (bs : List Block) → All (IsInside size) bs → All (Fits size) (block_ranges bs)
unfolding range
block_ranges-Fits size [] h = tt
block_ranges-Fits size (b ∷ bs) h = (h.0, block_ranges-Fits size bs h.1)

-- The parts of blocks that lie in a file below 2^63 bytes, adjacent blocks merged, hold the bytes of
-- the blocks in their order, lie in the file, and none is empty.
pub block_parts-Appends :
    (file : List ℕ) (bs : List Block)
    → IsNat64 (length file)
    → All (IsInside (length file)) bs
    → IsNat64 (blocks_len bs)
    → (contents file (block_parts bs) ≡ blocks_bytes file bs)
      × All (Fits (length file)) (block_parts bs)
      × All IsPositive (block_parts bs)
unfolding block_parts
block_parts-Appends file bs small inside room = rw (block_parts_loop_lem [] bs) (
    let x =
      append_body-Appends file small [] (block_ranges bs) tt
        (block_ranges-Fits (length file) bs inside) (omega (arith, total-block_ranges bs)) in
    (x.bytes ∙ contents-block_ranges file bs, x.fit, x.positive tt))

-- The parts of clusters, before adjacent ones are merged.
abbrev pub cluster_parts : List Cluster → List Part
cluster_parts [] = []
cluster_parts (c ∷ cs) = (literal c.new_header ∷ c.body) ++ cluster_parts cs

pub append_body-append :
    (parts xs ys : List Part) → append_body parts (xs ++ ys) ≡ append_body (append_body parts xs) ys
unfolding append_body
append_body-append parts [] ys = refl
append_body-append parts (p ∷ xs) ys = append_body-append (append_part parts p) xs ys

pub append_clusters_lem :
    (parts : List Part) (cs : List Cluster)
    → append_clusters parts cs ≡ append_body parts (cluster_parts cs)
unfolding append_clusters append_body
append_clusters_lem parts [] = refl
append_clusters_lem parts (c ∷ cs) =
    append_clusters_lem (append_body (append_part parts (literal c.new_header)) c.body) cs
    ∙ sym (append_body-append (append_part parts (literal c.new_header)) c.body (cluster_parts cs))

parts_len_loop_lem :
    (n : ℕ) (parts : List Part)
    → IsNat64 (n + total parts)
    → parts_len_loop n parts ≡ n + total parts
unfolding parts_len_loop
parts_len_loop_lem n [] h = omega arith
parts_len_loop_lem n (p ∷ parts) h =
    ap (λ (t : ℕ). parts_len_loop t parts) (add_i64_lem n p.len (omega arith))
    ∙ parts_len_loop_lem (n + p.len) parts (omega arith)
    ∙ omega arith

-- `partsLen` is the sum of the lengths.
pub parts_len_lem : (parts : List Part) → IsNat64 (total parts) → parts_len parts ≡ total parts
unfolding parts_len
parts_len_lem parts h = parts_len_loop_lem 0 parts (omega arith) ∙ omega arith

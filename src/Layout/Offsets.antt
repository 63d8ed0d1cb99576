-- ===== src/Layout/Offsets.antt =====
-- The offsets that `Finalize` computes: where each part starts.
use docker_smartclips.Prelude.{ℕ, zero, suc, ◌+◌, ◌≤◌, ◌<◌, ◌≡◌, refl, sym, ap, ◌∙◌, arith}
use docker_smartclips.Prelude.{List, [], ◌∷◌, length, take, drop, get_or, All, All-take}
use docker_smartclips.Layout.Part.{Part}
use docker_smartclips.Layout.Content.{contents, contents-append, total, Fits, length-contents}
use docker_smartclips.Prelude.{take-append-drop, drop-append_ge, ◌-◌}

abbrev pub offsets_of : ℕ → List Part → List ℕ
offsets_of pos [] = []
offsets_of pos (p ∷ parts) = pos ∷ offsets_of (pos + p.len) parts

-- Where part `j` starts.
abbrev pub start_of : ℕ → List Part → ℕ
start_of j parts = total (take j parts)

pub length-offsets_of : (pos : ℕ) (parts : List Part) → length (offsets_of pos parts) ≡ length parts
length-offsets_of pos [] = refl
length-offsets_of pos (p ∷ parts) = ap suc (length-offsets_of (pos + p.len) parts)

pub get_or-offsets_of :
    (j pos : ℕ) (parts : List Part)
    → j < length parts
    → get_or (offsets_of pos parts) j 0 ≡ pos + start_of j parts
get_or-offsets_of j pos [] h = absurd (omega arith)
get_or-offsets_of zero pos (p ∷ parts) h = omega arith
get_or-offsets_of (suc j) pos (p ∷ parts) h =
    omega (arith, get_or-offsets_of j (pos + p.len) parts (omega arith))

pub drop-offsets_of :
    (j pos : ℕ) (parts : List Part)
    → drop j (offsets_of pos parts) ≡ offsets_of (pos + start_of j parts) (drop j parts)
drop-offsets_of zero pos parts = ap (λ (t : ℕ). offsets_of t parts) (omega arith)
drop-offsets_of (suc j) pos [] = refl
drop-offsets_of (suc j) pos (p ∷ parts) =
    drop-offsets_of j (pos + p.len) parts
    ∙ ap (λ (t : ℕ). offsets_of t (drop j parts)) (omega arith)

pub start_of_mono : (i j : ℕ) (parts : List Part) → i ≤ j → start_of i parts ≤ start_of j parts
start_of_mono zero j parts h = omega arith
start_of_mono (suc i) zero parts h = absurd (omega arith)
start_of_mono (suc i) (suc j) [] h = omega arith
start_of_mono (suc i) (suc j) (p ∷ parts) h = omega (arith, start_of_mono i j parts (omega arith))

pub start_of-le_total : (j : ℕ) (parts : List Part) → start_of j parts ≤ total parts
start_of-le_total zero parts = omega arith
start_of-le_total (suc j) [] = omega arith
start_of-le_total (suc j) (p ∷ parts) = omega (arith, start_of-le_total j parts)

pub start_of_all : (j : ℕ) (parts : List Part) → length parts ≤ j → start_of j parts ≡ total parts
start_of_all zero [] h = refl
start_of_all zero (p ∷ parts) h = absurd (omega arith)
start_of_all (suc j) [] h = refl
start_of_all (suc j) (p ∷ parts) h = omega (arith, start_of_all j parts (omega arith))

-- The head of what is left from part `j` on ends where part `j + 1` starts.
pub record HeadAt (j : ℕ) (parts : List Part) : Type 0 where
  pub head : Part
  pub tail : List Part
  pub split : drop j parts ≡ head ∷ tail
  pub next : start_of j parts + head.len ≡ start_of (suc j) parts

pub head_at : (j : ℕ) (parts : List Part) → j < length parts → HeadAt j parts
head_at j [] h = absurd (omega arith)
head_at zero (p ∷ parts) h = record { head = p; tail = parts; split = refl; next = omega arith }
head_at (suc j) (p ∷ parts) h =
    let r = head_at j parts (omega arith) in
    record { head = r.head; tail = r.tail; split = r.split; next = omega (arith, r.next) }

-- The bytes from `off` on, seen from part `j`.
pub drop-contents :
    (file : List ℕ) (parts : List Part) (j off : ℕ)
    → All (Fits (length file)) parts
    → start_of j parts ≤ off
    → drop off (contents file parts) ≡ drop (off - start_of j parts) (contents file (drop j parts))
drop-contents file parts j off h le =
    let front = take j parts in
    let len = length-contents file front (All-take (Fits (length file)) j parts h) in
    ap (λ t. drop off (contents file t)) (sym (take-append-drop j parts))
    ∙ ap (λ t. drop off t) (contents-append file front (drop j parts))
    ∙ drop-append_ge off (contents file front) (contents file (drop j parts)) (omega arith)
    ∙ ap (λ (n : ℕ). drop (off - n) (contents file (drop j parts))) len

pub total-split :
    (j : ℕ) (parts : List Part) → start_of j parts + total (drop j parts) ≡ total parts
total-split zero parts = omega arith
total-split (suc j) [] = omega arith
total-split (suc j) (p ∷ parts) = omega (arith, total-split j parts)

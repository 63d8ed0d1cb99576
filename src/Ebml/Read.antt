-- ===== src/Ebml/Read.antt =====
-- Decoding of internal/ebml/ebml.go: `vintLen`, `ReadID`, `ReadSize`, `ParseHeader`,
-- `ReadHeaderAt`, `Children` and `Uint`. A slice is a list of bytes.
use docker_smartclips.Prelude.{
  ℕ, zero, suc, ◌+◌, ◌-◌, ◌^◌, Bool, ◌&&◌, ◌||◌, Option, some, List, [], ◌∷◌, ◌++◌,
}
use docker_smartclips.Prelude.{bit_and, bit_or, ltb, ◌==◌, if◌then◌else◌, length, take, drop}
use docker_smartclips.Prelude.Bits.{shl, shr}
use docker_smartclips.Io.{Error, short, invalid_id, invalid_size, size_overflow, unknown_child}
use docker_smartclips.Io.{
  overrun, uint_length, stuck, io, IoError, Result, ok, err, ◌>>=◌, ReaderAt,
}

-- `for n := 1; n <= 8; n++`: `left` rounds are left at `n`.
vint_scan : ℕ → ℕ → ℕ → ℕ
vint_scan zero n b0 = 0
vint_scan (suc left) n b0 =
    let rest = vint_scan left (n + 1) b0 in if bit_and b0 (shr 0x80 (n - 1)) == 0 then rest else n

unfoldable pub vint_len : ℕ → ℕ
unfolding vint_scan
vint_len b0 = vint_scan 8 1 b0

-- `v = v<<8 | uintW(b)` over the bytes, in a word of `w` bits.
unfoldable pub shift_in : ℕ → ℕ → List ℕ → ℕ
shift_in w v [] = v
shift_in w v (b ∷ bs) = shift_in w (bit_or (shl w v 8) b) bs

unfoldable pub read_id : List ℕ → Result (ℕ × ℕ)
read_id [] = err short
read_id (b0 ∷ rest) =
    let n = vint_len b0 in
    if n == 0 || ltb 4 n
    then err (invalid_id b0)
    else if ltb (length (b0 ∷ rest)) n
    then err short
    else ok (shift_in 32 0 (take n (b0 ∷ rest)), n)

-- A payload size, or `UnknownSize` (-1 in the source, which no coded size is).
pub data Size : Type 0 where
  known : ℕ → Size
  unknown_size : Size

abbrev pub max_int64 : ℕ
max_int64 = 2 ^ 63 - 1

-- The bytes after the first: the value, and whether all bits were ones.
unfoldable pub size_loop : List ℕ → ℕ → Bool → ℕ × Bool
size_loop [] v all_ones = (v, all_ones)
size_loop (b ∷ bs) v all_ones = size_loop bs (bit_or (shl 64 v 8) b) (all_ones && (b == 0xff))

abbrev pub size_result : ℕ → ℕ × Bool → Result (Size × ℕ)
size_result n (v, all_ones) =
    if all_ones
    then ok (unknown_size, n)
    else if ltb max_int64 v
    then err (size_overflow v)
    else ok (known v, n)

unfoldable pub read_size : List ℕ → Result (Size × ℕ)
read_size [] = err short
read_size (b0 ∷ rest) =
    let n = vint_len b0 in
    let mask = shr 0xff n in
    let v = bit_and b0 mask in
    if n == 0
    then err (invalid_size b0)
    else if ltb (length (b0 ∷ rest)) n
    then err short
    else size_result n (size_loop (take (n - 1) rest) v (v == mask))

pub record Header : Type 0 where
  pub id : ℕ
  pub size : Size
  pub header_len : ℕ

unfoldable pub parse_header : List ℕ → Result Header
parse_header b = do
  (id, il) ← read_id b
  (size, sl) ← read_size (drop il b)
  ok (record { id = id; size = size; header_len = il + sl })

-- An error counts only when nothing was read.
abbrev pub header_of : List ℕ × Option IoError → Result Header
header_of ([], some e) = err (io e)
header_of (buf, e) = parse_header buf

unfoldable pub read_header_at : ReaderAt → ℕ → Result Header
read_header_at r off = header_of (r off 12)

pub record Element : Type 0 where
  pub id : ℕ
  pub payload : List ℕ
  pub raw : List ℕ

-- The size of an element that must have one.
abbrev pub sized : Error → Size → Result ℕ
sized e (known n) = ok n
sized e unknown_size = err e

-- The element with header `h` at `p`: `b[p+h.HeaderLen : end]` and `b[p:end]`.
abbrev pub element_at : List ℕ → ℕ → Header → ℕ → Element
element_at b p h n = record {
  id = h.id;
  payload = take n (drop (p + h.header_len) b);
  raw = take (h.header_len + n) (drop p b);
}

-- The loop at position `p`; `stuck` is no Go value, it says that the fuel ran out.
unfoldable pub children_loop : ℕ → List ℕ → ℕ → List Element → Result (List Element)
children_loop zero b p out = if ltb p (length b) then err stuck else ok out
children_loop (suc fuel) b p out =
    let body = do
      h ← parse_header (drop p b)
      n ← sized (unknown_child h.id) h.size
      let end = p + h.header_len + n
      let rest = children_loop fuel b end (out ++ (element_at b p h n ∷ []))
      if ltb (length b) n || ltb (length b) end then err (overrun h.id) else rest
    in if ltb p (length b) then body else ok out

-- Each round takes two bytes at least, so the length of `b` is fuel enough.
unfoldable pub children : List ℕ → Result (List Element)
unfolding children_loop
children b = children_loop (length b) b 0 []

unfoldable pub uint : List ℕ → Result ℕ
unfolding shift_in
uint b = if ltb 8 (length b) then err (uint_length (length b)) else ok (shift_in 64 0 b)

-- `v, _ := ebml.Uint(b)`: the value is 0 where it fails.
abbrev pub uint_or_zero : List ℕ → ℕ
uint_or_zero b = elim (uint b) [ ok v ↦ v | err e ↦ 0 ]

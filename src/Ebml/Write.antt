-- ===== src/Ebml/Write.antt =====
-- Encoding of internal/ebml/ebml.go: `AppendID`, `AppendSizeWidth`, `SizeWidth`, `AppendElement`,
-- `AppendUint` and `AppendUintWidth`. Lengths and sizes are not negative.
use docker_smartclips.Prelude.{
  ℕ, zero, suc, ◌+◌, ◌-◌, ◌*◌, ◌%◌, ◌^◌, not, List, [], ◌∷◌, ◌++◌, bit_or, ltb, leb, ◌==◌,
}
use docker_smartclips.Prelude.{if◌then◌else◌, length}
use docker_smartclips.Prelude.Bits.{shl, shr, to_byte}

unfoldable pub append_id : List ℕ → ℕ → List ℕ
append_id dst id =
    if ltb 0xffffff id
    then dst ++ (to_byte (shr id 24) ∷ to_byte (shr id 16) ∷ to_byte (shr id 8) ∷ to_byte id ∷ [])
    else if ltb 0xffff id
    then dst ++ (to_byte (shr id 16) ∷ to_byte (shr id 8) ∷ to_byte id ∷ [])
    else if ltb 0xff id
    then dst ++ (to_byte (shr id 8) ∷ to_byte id ∷ [])
    else dst ++ (to_byte id ∷ [])

-- `for i := width - 1; i >= 0; i--`: the argument is `i + 1`.
unfoldable pub append_bytes : List ℕ → ℕ → ℕ → List ℕ
append_bytes dst v zero = dst
append_bytes dst v (suc i) = append_bytes (dst ++ (to_byte (shr v (8 * i)) ∷ [])) v i

unfoldable pub append_size_width : List ℕ → ℕ → ℕ → List ℕ
unfolding append_bytes
append_size_width dst n width = append_bytes dst (bit_or (n % 2 ^ 64) (shl 64 1 (7 * width))) width

-- `for w < 8 && uint64(n) >= 1<<(7*uint(w))-1 { w++ }`: `left` is `8 - w`.
unfoldable pub size_width_loop : ℕ → ℕ → ℕ → ℕ
size_width_loop zero w n = w
size_width_loop (suc left) w n =
    let wider = size_width_loop left (w + 1) n in
    if leb (shl 64 1 (7 * w) - 1) (n % 2 ^ 64) then wider else w

unfoldable pub size_width : ℕ → ℕ
unfolding size_width_loop
size_width n = size_width_loop 7 1 n

unfoldable pub append_element : List ℕ → ℕ → List ℕ → List ℕ
append_element dst id payload =
    append_size_width (append_id dst id) (length payload) (size_width (length payload)) ++ payload

-- `buf[i] = byte(v); v >>= 8` from the last byte to the first: `bytes` are those written so far.
unfoldable pub uint_bytes : ℕ → ℕ → List ℕ → List ℕ
uint_bytes zero v bytes = bytes
uint_bytes (suc i) v bytes = uint_bytes i (shr v 8) (to_byte v ∷ bytes)

unfoldable pub append_uint_width : List ℕ → ℕ → ℕ → ℕ → List ℕ
unfolding uint_bytes
append_uint_width dst id v width = append_element dst id (uint_bytes width v [])

-- `for n < 8 && v>>(8*uint(n)) != 0 { n++ }`: `left` is `8 - n`.
unfoldable pub uint_width_loop : ℕ → ℕ → ℕ → ℕ
uint_width_loop zero n v = n
uint_width_loop (suc left) n v =
    let wider = uint_width_loop left (n + 1) v in if not (shr v (8 * n) == 0) then wider else n

unfoldable pub uint_width : ℕ → ℕ
unfolding uint_width_loop
uint_width v = uint_width_loop 7 1 v

unfoldable pub append_uint : List ℕ → ℕ → ℕ → List ℕ
append_uint dst id v = append_uint_width dst id v (uint_width v)

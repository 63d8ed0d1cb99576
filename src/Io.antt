-- ===== src/Io.antt =====
-- Results with an error, and the readers of Go's `io` and `sort` packages that the program uses.
-- The errors are those of internal/ebml, internal/layout and internal/mkv.
pub mod Search
use docker_smartclips.Prelude.{
  ℕ, ◌≡◌, ◌⊎◌, inl, inr, refl, Bool, true, false, Option, none, some, List,
}
use docker_smartclips.Prelude.{ltb, length, take, drop, if◌then◌else◌, ◌||◌}

-- What a reader reports: `io.EOF`, `io.ErrUnexpectedEOF`, or the system's error number.
pub data IoError : Type 0 where
  eof unexpected_eof : IoError
  errno : ℕ → IoError

-- `errors.Is(err, io.EOF)`
abbrev pub is_eof : IoError → Bool
is_eof eof = true
is_eof _ = false

pub data Error : Type 0 where
  -- ebml: a short buffer, a bad ID byte, a bad size byte, a size that overflows, an element of
  -- unknown size, one that overruns its parent, and payloads of a wrong length
  short : Error
  invalid_id invalid_size size_overflow unknown_child overrun uint_length float_length : ℕ → Error
  -- layout: a literal of the wrong length, a range outside the file, a wrong total
  part_length part_range : ℕ → Error
  size_total : ℕ → ℕ → Error
  -- mkv: a wrong element, `ErrUnsupported`, a malformed block, bad bounds, no cluster
  unexpected_element : ℕ → Error
  unsupported : Error
  malformed_block : ℕ → Error
  end_not_after_start start_past_end no_cluster : Error
  io : IoError → Error
  -- no error of the source: a loop of the model ran out of fuel, or the source panics
  stuck : Error

pub data Result {ℓ} (A : Type ℓ) : Type ℓ where
  ok : A → Result A
  err : Error → Result A

infixl 5 ◌>>=◌
abbrev pub ◌>>=◌ {ℓ κ} : {A : Type ℓ} {B : Type κ} → Result A → (A → Result B) → Result B
ok a >>= f = f a
err e >>= f = err e

pub Result-cases {ℓ} :
    {A : Type ℓ} (r : Result A) → ((a : A) × (r ≡ ok a)) ⊎ ((e : Error) × (r ≡ err e))
Result-cases (ok a) = inl (a, refl)
Result-cases (err e) = inr (e, refl)

-- `io.ReaderAt`: the bytes read at an offset into a buffer of the given length, and the error.
abbrev pub ReaderAt : Type 0
ReaderAt = ℕ → ℕ → List ℕ × Option IoError

-- A file that holds these bytes: a read that cannot fill its buffer reports `io.EOF`.
unfoldable pub file_reader : List ℕ → ReaderAt
file_reader content off n =
    let got = take n (drop off content) in (got, if ltb (length got) n then some eof else none)

-- ===== src/Clipfs/Files.antt =====
-- The files of internal/clipfs/clipfs.go: `fill`, the attributes of the nodes, `Open` and `Read` of the
-- documents and of the clips, and `errno`. What `os.Open` and `Stat` of the open file answer is given.
use docker_smartclips.Prelude.{
  ℕ, ◌+◌, ◌-◌, ◌/◌, ◌%◌, ◌^◌, bit_and, bit_or, min, Bool, true, false, not, ◌&&◌, Option, none,
  some, List, [], length, take, drop, leb, ◌==◌, if◌then◌else◌,
}
use docker_smartclips.Io.{IoError, eof, unexpected_eof, errno, is_eof, ReaderAt}
use docker_smartclips.Config.Names.{Text}
use docker_smartclips.Layout.Part.{FileId, Layout}
use docker_smartclips.Layout.Read.{ReadResult, read_at}

-- EIO and EROFS, and ENOENT, which is `os.ErrNotExist`.
abbrev pub eio : ℕ
eio = 5

abbrev pub erofs : ℕ
erofs = 30

abbrev pub enoent : ℕ
enoent = 2

-- S_IFDIR and S_IFREG, with the permissions 0o555 and 0o444.
abbrev pub dir_mode : ℕ
dir_mode = bit_or 0x4000 365

abbrev pub file_mode : ℕ
file_mode = bit_or 0x8000 292

-- The attributes that `fill` sets; the three times are the same.
pub record Attr : Type 0 where
  pub mode : ℕ
  pub size : ℕ
  pub uid : ℕ
  pub gid : ℕ
  pub nlink : ℕ
  pub time : ℕ
  pub blksize : ℕ
  pub blocks : ℕ

-- The owner of the files and the time of the root.
pub record Root : Type 0 where
  pub uid : ℕ
  pub gid : ℕ
  pub created : ℕ

unfoldable pub fill : Root → ℕ → ℕ → ℕ → Attr
fill r mode size time = record {
  mode = mode;
  size = size;
  uid = r.uid;
  gid = r.gid;
  nlink = 1;
  time = time;
  blksize = 65536;
  blocks = ((size + 511) % 2 ^ 64) / 512;
}

-- `Getattr` of the root and of a directory, of a document and of a clip.
abbrev pub dir_attr : Root → Attr
dir_attr r = fill r dir_mode 0 r.created

abbrev pub static_attr : Root → List ℕ → ℕ → Attr
static_attr r content time = fill r file_mode (length content) time

abbrev pub clip_attr : Root → Layout → Attr
clip_attr r l = fill r file_mode l.size l.built

-- `flags&(syscall.O_WRONLY|syscall.O_RDWR) != 0`
abbrev pub writes : ℕ → Bool
writes flags = not (bit_and flags 3 == 0)

-- `Read` of a document, at an offset that is not negative.
unfoldable pub static_read : List ℕ → ℕ → ℕ → List ℕ
static_read content n off =
    if leb (length content) off
    then []
    else take (min (length content) (off + n) - off) (drop off content)

-- `os.Open`: the error number, if the error has one, or the reader of the file and what its `Stat`
-- answers, which is the size and the time.
pub data Opening : Type 0 where
  not_opened : Option ℕ → Opening
  opened : ReaderAt → Option (ℕ × ℕ) → Opening

-- `errno` of an error with this number, if it has one.
abbrev pub errno_of : Option ℕ → ℕ
errno_of none = eio
errno_of (some e) = e

abbrev pub is_missing : Option ℕ → Bool
is_missing none = false
is_missing (some e) = e == enoent

-- `Matches`
abbrev pub matches : FileId → Option (ℕ × ℕ) → Bool
matches id none = false
matches id (some (size, mod_time)) = size == id.size && mod_time == id.mod_time

-- The handle's reader, or the error number, and whether `onStale` is called.
pub data Handle : Type 0 where
  handle : ReaderAt → Handle
  refused : ℕ → Bool → Handle

-- `Open` of a clip.
unfoldable pub open_clip : (Text → Opening) → Layout → ℕ → Handle
open_clip os_open l flags =
    if writes flags then refused erofs false else elim (os_open l.source.path) [
      | not_opened e ↦ refused (errno_of e) (is_missing e)
      | opened r info ↦ if matches l.source info then handle r else refused eio true
    ]

-- The bytes, or the error number, or a panic of `ReadAt`.
pub data Answer : Type 0 where
  content : List ℕ → Answer
  error : ℕ → Answer
  panic : Answer

-- `errno` of a reader's error.
abbrev pub io_errno : IoError → ℕ
io_errno (errno e) = e
io_errno eof = eio
io_errno unexpected_eof = eio

abbrev pub answer_of : ReadResult → Answer
answer_of none = panic
answer_of (some (got, none)) = content got
answer_of (some (got, some e)) = if is_eof e then content got else error (io_errno e)

-- `Read` of a clip, into a buffer.
unfoldable pub read_clip : Layout → ReaderAt → List ℕ → ℕ → Answer
read_clip l file dest off = answer_of (read_at l dest off file)

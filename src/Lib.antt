-- ===== src/Lib.antt =====
-- SmartClips: a server that shows clips of the films of a library as files of their own. A clip of a
-- Matroska file is a layout: literal bytes (new headers and an index) and byte ranges of the film, so
-- that reading the clip reads the film. This library models the part that computes and serves clips.
--
-- The parts, and the files that model them:
-- * internal/ebml/ebml.go, the element framing of Matroska: Ebml/. Read and Write hold the functions
--   (`ReadID` is read_id, `AppendElement` is append_element, and so on), the other files the laws.
-- * internal/layout/layout.go, virtual files: Layout/. Part holds `Append`, Finalize and Read the
--   methods of the same names; Content says which bytes a list of parts stands for.
-- * internal/mkv/mkv.go, which lays out a clip with the two packages above: Mkv/. Source and Open read
--   the metadata (`Open` is open_source), Cluster walks clusters and blocks, Select chooses blocks,
--   Assemble writes the new headers, Build is `BuildClip`. The laws stand in the files beside them.
-- * internal/config/config.go, the clips, their names and paths, and their validation: Config/.
-- * internal/nfo/nfo.go, the metadata as a document: Nfo/. Markup says what a well-formed one is.
-- * internal/backup/backup.go, copies of the clips file: Backup/.
-- * internal/engine/engine.go, which turns the clips of the clips file into layouts that are served:
--   Engine/. State holds its data, Update is `applyClip`, Work the queue, Apply and Build the methods
--   of these names, and Step the steps of the threads: a step is what one of them does while it holds
--   the lock, so every order of the threads is a run of steps. The laws stand in the other files.
-- * internal/clipfs/clipfs.go, the mounted files: Clipfs/. Entries is the map of clips, which fills
--   the interface Engine.State.Sink that the engine is given; Files holds the nodes.
-- * cmd/smartclips/main.go, the settings, and internal/privs/privs.go, the users: Start/.
-- * internal/ui/server.go, the requests of the web page: Ui/. Clips saves and reads the clips file,
--   whose own functions are Config/Stored, Times checks the times of previews, Browse lists folders.
-- Dict holds Go's maps keyed by strings.
--
-- How the program is modelled. A byte and a number are natural numbers; the int64 of layout and of
-- block times are bit patterns that wrap around (Prelude/Int64), the offsets inside a film in Mkv are
-- plain numbers, since a coded size is below 2^56 and a film below 2^62 bytes. A float64 is its bit
-- pattern, and the operations on it are a parameter (Floats). A file is a reader as in Go's
-- `io.ReaderAt` (Io): any function of an offset and a length, so errors, short reads and files that
-- change are covered. nil and -1 are `none`; an error is a value of Io.Error, without its text.
-- Loops over a position recurse on fuel and answer `err stuck` where it runs out: the length of the
-- input for `Children`, the size of the cluster for `readCluster`, the end of the Segment for
-- `collectClusters` and `Open`, since a header takes two bytes at least.
-- `stuck` stands for a panic in `BuildClip` too; a panic in `ReadAt` is `none`.
-- `sort.Slice` is an insertion sort: Go leaves the order of equal cue times open.
-- A file of `WriteFileAtomic` is synced or not: a crash may lose one that is not, or give it any
-- content. A rename is taken to be atomic, before or after the crash.
--
-- The engine. What the system answers during a step is an argument of the step (System, Builder), so
-- it may differ from step to step. Hashes, `json.Marshal`, `strings.ToLower` and number formats are
-- fixed parameters (Library); that the hash of a key is not empty is a hypothesis (HasKeys): the source
-- writes it as 32 digits. A list stands for the order in which Go ranges over a map. A step of a
-- worker happens where fewer paths are received and built than there are workers; no fuel is needed,
-- since each step of a worker leaves less work.
--
-- Not modelled: the capacity of the engine's queue, 2^16 paths, behind which `enqueue` would wait with
-- the lock held; the arguments of ffmpeg, the directories that `Start` makes, and logs; the tree of
-- inodes of the mounted file system; of the HTTP server the routing, headers, probing and running
-- ffmpeg; of the start-up the mounting, the signals and the health check; of backup the ticker and the report for the page; of
-- config the JSON and the search for the replacement of a missing input.
pub mod Prelude
pub mod Io
pub mod Ebml
pub mod Layout
pub mod Floats
pub mod Mkv
pub mod Config
pub mod Dict
pub mod Nfo
pub mod Backup
pub mod Engine
pub mod Clipfs
pub mod Start
pub mod Ui

-- ===== src/Mkv.antt =====
-- internal/mkv/mkv.go: clip layouts that reuse the clusters of a Matroska file.
pub mod Source
pub mod Open
pub mod Time
pub mod Cluster
pub mod Select
pub mod Assemble
pub mod Build
pub mod Keep
pub mod Parts
pub mod Sizes
pub mod Assembled
pub mod Positions
pub mod Segment
pub mod SeekItems
pub mod Seek
pub mod ClipFile
pub mod Cues
pub mod Walks
pub mod Collect
pub mod Rebase
pub mod Ends
pub mod Opened
pub mod OpenEnds
pub mod Tests

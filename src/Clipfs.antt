-- ===== src/Clipfs.antt =====
-- internal/clipfs/clipfs.go: the clips that are served, and the files that the mount shows for them.
pub mod Entries
pub mod Files
pub mod Serving
pub mod Tests

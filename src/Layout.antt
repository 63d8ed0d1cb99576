-- ===== src/Layout.antt =====
-- internal/layout/layout.go: a clip as literal bytes and byte ranges of a data file.
pub mod Part
pub mod Finalize
pub mod Read
pub mod Content
pub mod Stored
pub mod Atomic
pub mod Whole
pub mod Crash
pub mod Offsets
pub mod Finalized
pub mod ReadLaws
pub mod ReadAt
pub mod Tests

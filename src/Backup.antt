-- ===== src/Backup.antt =====
-- internal/backup/backup.go: timestamped copies of the clips file.
pub mod Stamp
pub mod Once
pub mod Kept
pub mod Listed
pub mod Newest
pub mod Pruned
pub mod Counted
pub mod Bound
pub mod SameSecond
pub mod Tests

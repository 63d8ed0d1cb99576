-- ===== src/Ui.antt =====
-- internal/ui/server.go: the requests that read and save the clips, and the times and folders that a
-- request names.
pub mod Clips
pub mod Saved
pub mod Times
pub mod Browse
pub mod Tests

-- ===== src/Start.antt =====
-- How the program starts: the settings that cmd/smartclips/main.go reads from the environment, and the
-- switch of users of internal/privs/privs.go.
pub mod Settings
pub mod Checked
pub mod Users
pub mod Switched
pub mod Tests

-- ===== src/Config.antt =====
-- internal/config/config.go: the clips, their names and paths below the mount, and their validation.
pub mod Names
pub mod Paths
pub mod Clip
pub mod Metadata
pub mod Nesting
pub mod Tests
pub mod Validate
pub mod Stored
pub mod Inputs
pub mod Accepted

-- ===== src/Nfo.antt =====
-- internal/nfo/nfo.go: the metadata of a clip as an NFO document.
pub mod Write
pub mod Escape
pub mod Markup
pub mod Stable
pub mod Tests

-- ===== src/Ebml.antt =====
-- internal/ebml/ebml.go: the element framing of Matroska.
pub mod Ids
pub mod Read
pub mod Write
pub mod Bytes
pub mod Vint
pub mod SizeRoundTrip
pub mod IdRoundTrip
pub mod Elements
pub mod Items
pub mod Takes
pub mod Children
pub mod Numbers
pub mod Tests

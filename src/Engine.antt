-- ===== src/Engine.antt =====
-- internal/engine/engine.go: the clips, their layouts, the queue and the workers.
pub mod State
pub mod Update
pub mod Work
pub mod Apply
pub mod Build
pub mod Built
pub mod Queue
pub mod Step
pub mod Wanted
pub mod Sound
pub mod UpdateLaws
pub mod Consistent
pub mod Dropped
pub mod Marked
pub mod Applied
pub mod Shown
pub mod Settled
pub mod Reached
pub mod Drained
pub mod Races
pub mod Cleaned
pub mod Served
pub mod Tests

-- ===== src/Game.antt =====
-- internal/game: the rules engine, and what holds of it.
pub mod Defs
pub mod State
pub mod Kinds
pub mod Engine
pub mod Start
pub mod Invariant
pub mod Cards
pub mod Laid
pub mod Show
pub mod Series
pub mod Play
pub mod Card
pub mod Starter
pub mod Throw
pub mod Apply
pub mod Opening
pub mod Log
pub mod Potential
pub mod Gains
pub mod Ending
pub mod Bounded
pub mod Sourcing
pub mod Snapshot
pub mod History
pub mod Runs
pub mod Replayed
pub mod View
pub mod Reconstruct
pub mod Hidden

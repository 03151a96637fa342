-- ===== src/Hand.antt =====
-- internal/scoring/hand: the scorer of the show, and what holds of it.
pub mod Defs
pub mod Runs
pub mod Items
pub mod Equivalence
pub mod Legality

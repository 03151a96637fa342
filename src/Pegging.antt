-- ===== src/Pegging.antt =====
-- internal/scoring/pegging: the scorer of the play phase, and what holds of it.
pub mod Defs
pub mod Equivalence
pub mod Legality

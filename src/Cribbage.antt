-- ===== src/Cribbage.antt =====
-- internal/cribbage: the card types that every other package shares, and what holds of them.
pub mod Defs
pub mod Occurrences
pub mod Notation
pub mod Decks

-- ===== src/Bot.antt =====
-- internal/bot: the bots, and the runner of their matches.
pub mod Defs
pub mod Moves
pub mod Match
pub mod Games
pub mod Random
pub mod Production
pub mod Deals
pub mod Splits
pub mod Ranking
pub mod Ranked
pub mod Compare
pub mod Paired
pub mod Unseen

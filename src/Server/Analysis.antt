-- ===== src/Server/Analysis.antt =====
-- internal/server: the analysis of finished games (analysis.go, analysis2.go).
pub mod Verdicts
pub mod Engines
pub mod Given
pub mod Own
pub mod Rates
pub mod Deals
pub mod Walk
pub mod Kept
pub mod Starts
pub mod Lawful
pub mod Complete
pub mod Aligned
pub mod Totals

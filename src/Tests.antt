-- ===== src/Tests.antt =====
-- Witnesses: each property at a concrete input of the program.
mod Cards
mod Matches
mod Services
mod Bots
mod Servers
mod Analyses
mod Finished
mod Replays

-- ===== src/Game/Snapshot.antt =====
-- internal/game/snapshot.go: the durable form of a game, and back.
use cribbager.Common.{ℕ, List, length}
use cribbager.Cribbage.Defs.{Card}
use cribbager.Game.Defs.{Event}
use cribbager.Game.State.{fold, zero_state}
use cribbager.Game.Engine.{DeckSource, Game}

pub record GameState : Type 0 where
  pub log : List Event
  pub rest : List Card
  pub target : ℕ

unfoldable pub snapshot : Game → GameState
snapshot g = record { log = g.log; rest = g.rest; target = g.target }

-- A fresh source is attached, whose calls are counted anew.
unfoldable pub restore : GameState → DeckSource → Game
restore s src = record {
  target = s.target;
  src = src;
  shuffles = 0;
  log = s.log;
  state = fold s.target zero_state s.log;
  rest = s.rest;
  version = length s.log;
}

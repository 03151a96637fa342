-- ===== src/Game/View.antt =====
-- internal/game/view.go: what a seat is permitted to see of a game.
use cribbager.Common.{ℕ, List, [], Option, none, some, if◌then◌else◌, length}
use cribbager.Cribbage.Defs.{Card}
use cribbager.Game.Defs.{Seat, other, seat_eq, Both, pick, Phase, phase_eq, phase_play}
use cribbager.Game.State.{State, turn, legal_plays}
use cribbager.Game.Engine.{Game}

pub record PlayerView : Type 0 where
  pub you : Seat
  pub dealer : Seat
  pub phase : Phase
  pub scores : Both ℕ
  pub your_hand : List Card
  pub your_discards : Option (Card × Card)
  pub opponent_cards : ℕ
  pub crib_cards : ℕ
  pub starter : Option Card
  pub pile : List Card
  pub your_played : List Card
  pub opponent_played : List Card
  pub count : ℕ
  pub to_play : Option Seat
  pub legal : List Card
  pub winner : Option Seat
  pub version : ℕ

-- `turn` and `playables` are the seat on turn and that seat's legal plays, if it is `seat`.
unfoldable pub view_state : State → ℕ → Seat → PlayerView
view_state s version seat = record {
  you = seat;
  dealer = s.dealer;
  phase = s.phase;
  scores = s.scores;
  your_hand = pick s.hands seat;
  your_discards = if pick s.has_discarded seat then pick s.crib_thrown seat else none;
  opponent_cards = length (pick s.hands (other seat));
  crib_cards = length s.crib;
  starter = if s.has_starter then some s.starter else none;
  pile = s.pile;
  your_played = pick s.played seat;
  opponent_played = pick s.played (other seat);
  count = s.count;
  to_play = if phase_eq s.phase phase_play then some (turn s) else none;
  legal =
      if phase_eq s.phase phase_play
      then (if seat_eq (turn s) seat then legal_plays s seat else [])
      else [];
  winner = s.winner;
  version = version;
}

unfoldable pub view : Game → Seat → PlayerView
unfolding view_state
view g seat = view_state g.state g.version seat

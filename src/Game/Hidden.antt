-- ===== src/Game/Hidden.antt =====
-- internal/game/view.go: what a view depends on.
use cribbager.Common.{◌≡◌, [], none, some, if◌then◌else◌, length}
use cribbager.Game.Defs.{Seat, other, seat_eq, pick, phase_eq, phase_play}
use cribbager.Game.State.{turn, playables}
use cribbager.Game.Engine.{Game}
use cribbager.Game.View.{view, view_state}

-- Two games that a seat cannot tell apart: what lies open, the seat's own cards, the numbers of the
-- hidden cards and the seat on turn are the same. The other seat's hand and discards, the crib, the
-- undealt rest, the log, the target and the deck source may differ.
pub record SameFor (seat : Seat) (g h : Game) : Type 0 where
  pub same_dealer : g.dealer ≡ h.dealer
  pub same_phase : g.phase ≡ h.phase
  pub same_scores : g.scores ≡ h.scores
  pub same_hand : pick g.hands seat ≡ pick h.hands seat
  pub same_discarded : pick g.has_discarded seat ≡ pick h.has_discarded seat
  pub same_thrown : pick g.crib_thrown seat ≡ pick h.crib_thrown seat
  pub same_other_size : length (pick g.hands (other seat)) ≡ length (pick h.hands (other seat))
  pub same_crib_size : length g.crib ≡ length h.crib
  pub same_cut : g.has_starter ≡ h.has_starter
  pub same_starter : g.starter ≡ h.starter
  pub same_pile : g.pile ≡ h.pile
  pub same_played : pick g.played seat ≡ pick h.played seat
  pub same_other_played : pick g.played (other seat) ≡ pick h.played (other seat)
  pub same_count : g.count ≡ h.count
  pub same_winner : g.winner ≡ h.winner
  pub same_version : g.version ≡ h.version
  pub same_turn : turn g.state ≡ turn h.state

-- The view of a seat is a function of what that seat may know: two games that are the same for the
-- seat give it the same view.
pub view-SameFor : (seat : Seat) (g h : Game) → SameFor seat g h → view g seat ≡ view h seat
unfolding view view_state
view-SameFor seat g h s = λ i. record {
  you = seat;
  dealer = s.same_dealer i;
  phase = s.same_phase i;
  scores = s.same_scores i;
  your_hand = s.same_hand i;
  your_discards = if s.same_discarded i then s.same_thrown i else none;
  opponent_cards = s.same_other_size i;
  crib_cards = s.same_crib_size i;
  starter = if s.same_cut i then some (s.same_starter i) else none;
  pile = s.same_pile i;
  your_played = s.same_played i;
  opponent_played = s.same_other_played i;
  count = s.same_count i;
  to_play = if phase_eq (s.same_phase i) phase_play then some (s.same_turn i) else none;
  legal =
      if phase_eq (s.same_phase i) phase_play
      then (if seat_eq (s.same_turn i) seat then playables (s.same_count i) (s.same_hand i) else [])
      else [];
  winner = s.same_winner i;
  version = s.same_version i;
}

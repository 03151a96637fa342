-- ===== src/Tests/Services.antt =====
-- Witnesses on what the server computes: limits, stored results, statistics.
use cribbager.Common.{ℕ, ◌≡◌, refl, true, false, List, [], ◌∷◌, ◌==◌, min, arith}
use cribbager.Cribbage.Defs.{Card}
use cribbager.Game.Defs.{
  seat0, seat1, both, Both, pick, Event, hand_dealt, cut_for_deal, starter_cut, game_won,
}
use cribbager.Game.State.{fold, zero_state}
use cribbager.Server.RateLimit.{new_rate_limiter, allow_all, allow-window, kept}
use cribbager.Server.Results.{Result, BotInfo}
use cribbager.Server.Stats.{game_points}
use cribbager.Server.Tally.{sum_of, game_points-cut}

abbrev card : ℕ → ℕ → Card
card r s = record { rank = r; suit = s }

-- Two events in ten ticks.
allow-window_example :
    allow_all ◌==◌ (new_rate_limiter 2 10) 7 (5 ∷ 6 ∷ 9 ∷ 14 ∷ [])
    ≡ true ∷ true ∷ false ∷ false ∷ []
unfolding new_rate_limiter kept
allow-window_example =
    allow-window ◌==◌ 7 refl (new_rate_limiter 2 10) 5 (6 ∷ 9 ∷ 14 ∷ []) (omega arith) refl
      (omega arith, omega arith, (omega arith, omega arith, (omega arith, omega arith, tt)))

abbrev human : BotInfo
human = record { name = []; version = [] }

-- A finished game of the players 1 and 2.
abbrev finished : Result
finished = record {
  id = 9 ∷ [];
  player_ids = record { at0 = 1 ∷ []; at1 = 2 ∷ [] };
  names = both [];
  scores = record { at0 = 121; at1 = 97 };
  winner = seat0;
  events = [];
  ended_at = 5;
  engine_version = [];
  bots = both human;
}

-- A jack is cut when the dealer needs one point of the target 1: two are counted, one is credited.
abbrev heels_out : List Event
heels_out = starter_cut (card 11 0) 2 ∷ game_won seat1 ∷ []

abbrev cuts : Both Card
cuts = record { at0 = card 5 0; at1 = card 2 0 }

game_points-cut_example :
    pick
      (fold 1 zero_state (cut_for_deal cuts seat1 ∷ hand_dealt seat1 (both []) ∷ heels_out)).scores
      seat1
    ≡ min 1 (
        sum_of
          (game_points (cut_for_deal cuts seat1 ∷ hand_dealt seat1 (both []) ∷ heels_out) seat1))
game_points-cut_example =
    game_points-cut 1 seat1 seat1 seat1 cuts (both []) heels_out (omega arith) refl

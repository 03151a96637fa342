-- ===== src/Tests/Replays.antt =====
-- Witnesses on the log of a game, up to the first card of the play.
use cribbager.Common.{◌≡◌, refl, true, List, ok}
use cribbager.Game.Defs.{Event, play}
use cribbager.Game.State.{turn}
use cribbager.Game.Engine.{Game, Outcome, done, failed, panicked, apply}
use cribbager.Game.Apply.{Accepts, legal_play-Accepts}
use cribbager.Game.History.{Played, moved}
use cribbager.Game.Reconstruct.{PlayDecision, reconstruct_plays, plays_of, Recorded}
use cribbager.Game.Replayed.{reconstruct_plays-Played}
use cribbager.Tests.Matches.{
  card, plain, thrown1, thrown1-Played, thrown1-Inv, thrown1_in_play, legal_three, is_done, game_of,
  events_of, accepted,
}

Accepts-is_done : (m : Outcome (Game × List Event)) → Accepts m → is_done m ≡ true
unfolding is_done
Accepts-is_done (done (g, es)) h = refl
Accepts-is_done (failed e g) h = absurd h
Accepts-is_done panicked h = absurd h

abbrev first_card : Outcome (Game × List Event)
first_card = apply thrown1 (turn thrown1.state) (play (card 3 2))

led-Played : Played plain (game_of thrown1 first_card)
led-Played = moved (turn thrown1.state) (play (card 3 2)) (events_of first_card) thrown1-Played (
    accepted thrown1 first_card (
      Accepts-is_done first_card
        (legal_play-Accepts thrown1 (card 3 2) thrown1-Inv thrown1_in_play legal_three)))

reconstruct_plays-Played_example :
    (ds : List PlayDecision) × (reconstruct_plays (game_of thrown1 first_card).log ≡ ok ds)
    × Recorded (plays_of (game_of thrown1 first_card).log) ds
reconstruct_plays-Played_example = reconstruct_plays-Played led-Played

-- ===== src/Bot/Defs.antt =====
-- internal/bot/bot.go and internal/bot/match.go: what a bot is, and the runner of a match between two.
-- A bot answers a view; within one game each of its answers is to a view of its own version, so a
-- bot that draws random numbers is, for that game, a function of the view too.
use cribbager.Common.{Text, ℕ, zero, suc, List, Option, none, some, length, if◌then◌else◌, ◌==◌}
use cribbager.Common.Int.{pos}
use cribbager.Cribbage.Defs.{Card}
use cribbager.Game.Defs.{
  Seat, seat0, seat1, Both, pick, Phase, phase_discard, phase_play, phase_complete, GameError,
  Event, discard, play,
}
use cribbager.Game.Engine.{DeckSource, Game, Outcome, done, failed, panicked, apply}
use cribbager.Game.View.{PlayerView, view}
use cribbager.Game.Start.{Start, new}

-- A choice, or a panic.
pub record Bot : Type 0 where
  pub name : Text
  pub version : Text
  pub choose_discard : PlayerView → Option (Card × Card)
  pub choose_play : PlayerView → Option Card

unfoldable pub discard_chosen : Game → Seat → Option (Card × Card) → Outcome (Game × List Event)
discard_chosen g seat none = panicked
discard_chosen g seat (some (c, d)) = apply g seat (discard c d)

-- `g.Apply(seat, game.Discard{Cards: b.Discard(g.View(seat))})`.
unfoldable pub discard_move : Bot → Game → Seat → Outcome (Game × List Event)
discard_move b g seat = discard_chosen g seat (b.choose_discard (view g seat))

unfoldable pub play_chosen : Game → Seat → Option Card → Outcome (Game × List Event)
play_chosen g seat none = panicked
play_chosen g seat (some c) = apply g seat (play c)

-- `g.Apply(seat, game.Play{Card: b.Play(g.View(seat))})`.
unfoldable pub play_move : Bot → Game → Seat → Outcome (Game × List Event)
play_move b g seat = play_chosen g seat (b.choose_play (view g seat))

pub record MatchResult : Type 0 where
  pub match_winner : Seat
  pub final_scores : Both ℕ

pub data MatchError : Type 0 where
  illegal_discard : Seat → GameError → MatchError
  illegal_play : Seat → GameError → MatchError
  unexpected_phase : Phase → MatchError

-- One round of the loop of `playOn`: the game moves on, an error stops the match, or a panic does.
pub data Round : Type 0 where
  moved_on : Game → Round
  stopped : MatchError → Round
  round_panics : Round

-- An answer of the engine: the game moves on, or the error made of the engine's stops the match.
unfoldable pub take_answer : (GameError → MatchError) → Outcome (Game × List Event) → Round
take_answer f (done p) = moved_on p.0
take_answer f (failed e g) = stopped (f e)
take_answer f panicked = round_panics

-- The body of the loop over the seats in the discard phase.
unfoldable pub discard_round : Both Bot → Seat → Game → Round
discard_round bots seat g =
    if length (view g seat).your_hand == 6
    then take_answer (illegal_discard seat) (discard_move (pick bots seat) g seat)
    else moved_on g

unfoldable pub then_discard : Both Bot → Seat → Round → Round
then_discard bots seat (moved_on g) = discard_round bots seat g
then_discard bots seat (stopped e) = stopped e
then_discard bots seat round_panics = round_panics

-- A nil `ToPlay` is dereferenced, a panic.
unfoldable pub play_round : Both Bot → Option Seat → Game → Round
play_round bots none g = round_panics
play_round bots (some seat) g = take_answer (illegal_play seat) (play_move (pick bots seat) g seat)

unfoldable pub phase_round : Both Bot → Phase → Game → Round
phase_round bots phase_discard g = then_discard bots seat1 (discard_round bots seat0 g)
phase_round bots phase_play g = play_round bots (view g seat0).to_play g
phase_round bots phase_complete g = stopped (unexpected_phase phase_complete)

-- How a match ends; `unfinished` is no fuel left.
pub data MatchEnd : Type 0 where
  finished : MatchResult → Game → MatchEnd
  match_error : MatchError → MatchEnd
  match_panics : MatchEnd
  unfinished : MatchEnd

-- The winner's return at the top of the loop, and the loop after a round.
unfoldable pub unless_won : Game → Option Seat → MatchEnd → MatchEnd
unless_won g none rest = rest
unless_won g (some w) rest = finished (record { match_winner = w; final_scores = g.scores }) g

unfoldable pub after_round : (Game → MatchEnd) → Round → MatchEnd
after_round next (moved_on g) = next g
after_round next (stopped e) = match_error e
after_round next round_panics = match_panics

-- `playOn`, with at most `fuel` rounds.
unfoldable pub play_on : ℕ → Both Bot → Game → MatchEnd
play_on zero bots g = unless_won g g.winner unfinished
play_on (suc fuel) bots g =
    let rest : MatchEnd =
      after_round (play_on fuel bots) (phase_round bots (view g seat0).phase g) in
    unless_won g g.winner rest

-- `PlayGame` and `PlayGameFrom`, and `PlayGameEvents` with the log of the game that is finished. The
-- option and the outcome are those of `New`.
unfoldable pub play_new : ℕ → Both Bot → Option (Outcome Game) → MatchEnd
play_new fuel bots none = unfinished
play_new fuel bots (some (done g)) = play_on fuel bots g
play_new fuel bots (some (failed e g)) = match_panics
play_new fuel bots (some panicked) = match_panics

unfoldable pub play_game : ℕ → ℕ → Both Bot → DeckSource → MatchEnd
play_game cuts fuel bots deck =
    play_new fuel bots (new cuts (record { deck = deck; target_score = pos 0; start = none }))

unfoldable pub play_game_from : ℕ → ℕ → Both Bot → DeckSource → Start → MatchEnd
play_game_from cuts fuel bots deck start =
    play_new fuel bots (new cuts (record { deck = deck; target_score = pos 0; start = some start }))

-- ===== src/Server/Drive.antt =====
-- `driveBots` of internal/server/session.go: the moves of the seated bots.
use cribbager.Common.{
  ℕ, zero, suc, Bool, true, false, List, Option, none, some, length, ◌==◌, if◌then◌else◌,
}
use cribbager.Game.Defs.{
  Seat, seat0, seat1, pick, Both, Event, Phase, phase_discard, phase_play, phase_complete,
}
use cribbager.Game.Engine.{Game, Outcome, done, failed, panicked}
use cribbager.Game.View.{view}
use cribbager.Bot.Defs.{Bot, discard_move, play_move}

-- `_, _ = s.game.Apply(..)`: the game after a call whose error is ignored; `none` is a panic.
unfoldable pub ignoring_error : Outcome (Game × List Event) → Option Game
ignoring_error (done p) = some p.0
ignoring_error (failed e g) = some g
ignoring_error panicked = none

abbrev acting : Option Game → Option (Game × Bool)
acting none = none
acting (some g) = some (g, true)

-- The body of the loop over the seats, with `acted`.
unfoldable pub drive_discard : Option Bot → Seat → Game → Bool → Option (Game × Bool)
unfolding ignoring_error
drive_discard none seat g acted = some (g, acted)
drive_discard (some b) seat g acted =
    if length (view g seat).your_hand == 6
    then acting (ignoring_error (discard_move b g seat))
    else some (g, acted)

unfoldable pub drive_other : Both (Option Bot) → Option (Game × Bool) → Option (Game × Bool)
drive_other bots none = none
drive_other bots (some (g, acted)) = drive_discard bots.at1 seat1 g acted

-- One round of the loop: the bots moved, they wait for a human or the game is over, or a panic.
pub data DriveRound : Type 0 where
  drove : Game → DriveRound
  rests : Game → DriveRound
  drive_panics : DriveRound

abbrev after_discards : Option (Game × Bool) → DriveRound
after_discards none = drive_panics
after_discards (some (g, acted)) = if acted then drove g else rests g

abbrev after_move : Option Game → DriveRound
after_move none = drive_panics
after_move (some g) = drove g

unfoldable pub drive_play : Option Bot → Seat → Game → DriveRound
unfolding ignoring_error
drive_play none seat g = rests g
drive_play (some b) seat g = after_move (ignoring_error (play_move b g seat))

-- A nil `ToPlay` is dereferenced, a panic.
abbrev drive_turn : Both (Option Bot) → Option Seat → Game → DriveRound
drive_turn bots none g = drive_panics
drive_turn bots (some seat) g = drive_play (pick bots seat) seat g

unfoldable pub drive_round : Both (Option Bot) → Phase → Game → DriveRound
unfolding drive_discard drive_other drive_play
drive_round bots phase_discard g =
    after_discards (drive_other bots (drive_discard bots.at0 seat0 g false))
drive_round bots phase_play g = drive_turn bots (view g seat0).to_play g
drive_round bots phase_complete g = rests g

-- How the loop ends; `drive_unfinished` is no fuel left.
pub data DriveEnd : Type 0 where
  rested : Game → DriveEnd
  driver_panics : DriveEnd
  drive_unfinished : DriveEnd

unfoldable pub drive_unless_won : Game → Option Seat → DriveEnd → DriveEnd
drive_unless_won g none rest = rest
drive_unless_won g (some w) rest = rested g

unfoldable pub after_drive : (Game → DriveEnd) → DriveRound → DriveEnd
after_drive next (drove g) = next g
after_drive next (rests g) = rested g
after_drive next drive_panics = driver_panics

-- `driveBots`, with at most `fuel` rounds.
unfoldable pub drive_bots : ℕ → Both (Option Bot) → Game → DriveEnd
drive_bots zero bots g = drive_unless_won g g.winner drive_unfinished
drive_bots (suc fuel) bots g =
    let rest : DriveEnd =
      after_drive (drive_bots fuel bots) (drive_round bots (view g seat0).phase g) in
    drive_unless_won g g.winner rest

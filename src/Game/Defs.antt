-- ===== src/Game/Defs.antt =====
-- internal/game/seat.go, command.go and event.go: seats, phases, commands, errors and events. A
-- `Seat` is one of the two seats that the server ever passes; an array `[2]T` is a `Both T`.
use cribbager.Common.{ℕ, Bool, true, false, List}
use cribbager.Cribbage.Defs.{Card}
use cribbager.Pegging.Defs.{PegResult, PegError}
use cribbager.Hand.Defs.{HandResult}

pub data Seat : Type 0 where
  seat0 seat1 : Seat

-- `s ^ 1`
abbrev pub other : Seat → Seat
other seat0 = seat1
other seat1 = seat0

abbrev pub seat_eq : Seat → Seat → Bool
seat_eq seat0 seat0 = true
seat_eq seat1 seat1 = true
seat_eq _ _ = false

pub record Both {ℓ} (A : Type ℓ) : Type ℓ where
  pub at0 : A
  pub at1 : A

module _ {ℓ} {A : Type ℓ} where
  -- `b[s]`, and `b[s] = a`
  abbrev pub pick : Both A → Seat → A
  pick b seat0 = b.at0
  pick b seat1 = b.at1

  abbrev pub put : Both A → Seat → A → Both A
  put b seat0 a = record b { at0 = a }
  put b seat1 a = record b { at1 = a }

  abbrev pub both : A → Both A
  both a = record { at0 = a; at1 = a }

pub data Phase : Type 0 where
  phase_discard phase_play phase_complete : Phase

abbrev pub phase_eq : Phase → Phase → Bool
phase_eq phase_discard phase_discard = true
phase_eq phase_play phase_play = true
phase_eq phase_complete phase_complete = true
phase_eq _ _ = false

-- `unknown` stands for a value of the interface that is neither, such as nil.
pub data Command : Type 0 where
  discard : Card → Card → Command
  play : Card → Command
  unknown : Command

pub data GameError : Type 0 where
  game_over wrong_phase not_your_turn already_discarded duplicate_discard unknown_command :
      GameError
  not_in_hand count_exceeds_31 : Card → GameError
  pegging_error : PegError → GameError

pub data Event : Type 0 where
  cut_for_deal : Both Card → Seat → Event
  handicap : Both ℕ → Event
  hand_dealt : Seat → Both (List Card) → Event
  discarded : Seat → Card → Card → Event
  starter_cut : Card → ℕ → Event
  card_played : Seat → Card → PegResult → Event
  pass : Seat → Event
  go_awarded : Seat → ℕ → Event
  series_reset : Seat → Event
  hand_shown : Seat → List Card → HandResult → Event
  crib_shown : List Card → HandResult → Event
  game_won : Seat → Event
  show_not_counted : Seat → List Card → Bool → Event

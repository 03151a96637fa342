-- ===== src/Server/Throws.antt =====
-- The throws of the bots in `driveBots` of internal/server/session.go.
use cribbager.Common.{
  ◌≡◌, refl, ap, ◌∙◌, ◌⊎◌, Bool, true, false, Option, none, some, length, arith, Bool-cases, inl,
  inr,
}
use cribbager.Game.Defs.{Seat, seat0, seat1, pick, Both, phase_discard, phase_play, phase_eq}
use cribbager.Game.State.{turn}
use cribbager.Game.Engine.{Game, is_none}
use cribbager.Game.Invariant.{Inv, Discarding}
use cribbager.Game.Throw.{Inv-Discarding}
use cribbager.Game.View.{view}
use cribbager.Bot.Defs.{Bot}
use cribbager.Bot.Moves.{IsLawful, Moves, Moves-trans, Threw, discard_move-accepted, six_cards}
use cribbager.Bot.Match.{phase_is}
use cribbager.Server.Drive.{
  ignoring_error, drive_discard, drive_other, drive_round, DriveRound, drove, rests, drive_panics,
}

-- A seat's bot, if it has one, keeps to the bot's contract.
abbrev pub SeatLawful : Option Bot → Type 0
SeatLawful none = Unit
SeatLawful (some b) = IsLawful b

abbrev pub SeatsLawful : Both (Option Bot) → Type 0
SeatsLawful bots = SeatLawful bots.at0 × SeatLawful bots.at1

-- No bot has a move: in the discard phase every bot has thrown, and in the play a human is on turn.
pub record Waits (bots : Both (Option Bot)) (g : Game) : Type 0 where
  pub thrown0 :
      phase_eq g.phase phase_discard ≡ true
      → (is_none bots.at0 ≡ true) ⊎ (g.has_discarded.at0 ≡ true)
  pub thrown1 :
      phase_eq g.phase phase_discard ≡ true
      → (is_none bots.at1 ≡ true) ⊎ (g.has_discarded.at1 ≡ true)
  pub on_turn : phase_eq g.phase phase_play ≡ true → is_none (pick bots (turn g.state)) ≡ true

-- What the loop's body does for a seat that may throw.
data SeatDrive (o : Option Bot) (seat : Seat) (g : Game) (acted : Bool) : Type 0 where
  stays :
      drive_discard o seat g acted ≡ some (g, acted)
      → (is_none o ≡ true) ⊎ (pick g.has_discarded seat ≡ true)
      → SeatDrive o seat g acted
  throws :
      (g' : Game)
      → drive_discard o seat g acted ≡ some (g', true)
      → Moves g g'
      → Threw seat g g'
      → SeatDrive o seat g acted

four_stay :
    (o : Option Bot) (seat : Seat) (g : Game) (acted : Bool)
    → length (pick g.hands seat) ≡ 4
    → drive_discard o seat g acted ≡ some (g, acted)
unfolding drive_discard view
four_stay none seat g acted h = refl
four_stay (some b) seat g acted h = rw h refl

four_cards :
    (g : Game) (seat : Seat)
    → Discarding g
    → pick g.has_discarded seat ≡ true
    → length (pick g.hands seat) ≡ 4
four_cards g seat0 s h = ground (arith, s.size0)
four_cards g seat1 s h = ground (arith, s.size1)

seat_drives :
    (o : Option Bot) (seat : Seat) (g : Game) (acted : Bool)
    → SeatLawful o
    → Inv g
    → phase_eq g.phase phase_discard ≡ true
    → SeatDrive o seat g acted
unfolding drive_discard ignoring_error view
seat_drives none seat g acted lawful v right = stays refl (inl refl)
seat_drives (some b) seat g acted lawful v right = elim (Bool-cases (pick g.has_discarded seat)) [
  | inl thrown ↦
      stays
        (four_stay (some b) seat g acted (four_cards g seat (Inv-Discarding g v right).0 thrown))
        (inr thrown)
  | inr owes ↦
      let (p, e, m, t) = discard_move-accepted b g seat lawful v right owes in
      throws p.0 (rw (six_cards g seat v right owes, e) refl) m t
]

abbrev pub Drives : Both (Option Bot) → Game → DriveRound → Type 0
Drives bots g (drove g') = Moves g g'
Drives bots g (rests g') = (g' ≡ g) × Waits bots g
Drives bots g drive_panics = ⊥

pub discards-Drives :
    (bots : Both (Option Bot)) (g : Game)
    → SeatsLawful bots
    → Inv g
    → Discarding g
    → Drives bots g (drive_round bots phase_discard g)
unfolding drive_round drive_other
discards-Drives bots g lawful v s =
    first (seat_drives bots.at0 seat0 g false lawful.0 v (phase_is g s.in_discard))
  where
    second_stays :
        (is_none bots.at0 ≡ true) ⊎ (g.has_discarded.at0 ≡ true)
        → drive_discard bots.at0 seat0 g false ≡ some (g, false)
        → SeatDrive bots.at1 seat1 g false
        → Drives bots g (drive_round bots phase_discard g)
    second_stays w0 e0 (stays e1 w1) =
        rw (e0, e1)
          (
            refl,
            record {
              thrown0 = λ p. w0;
              thrown1 = λ p. w1;
              on_turn = λ p. absurd (ground (arith, s.in_discard));
            },
          )
    second_stays w0 e0 (throws g' e1 m t) = rw (e0, e1) m

    second_moves :
        (g1 : Game)
        → drive_discard bots.at0 seat0 g false ≡ some (g1, true)
        → Moves g g1
        → is_none g1.winner ≡ true
        → SeatDrive bots.at1 seat1 g1 true
        → Drives bots g (drive_round bots phase_discard g)
    second_moves g1 e0 m open_game (stays e1 w1) = rw (e0, e1) m
    second_moves g1 e0 m open_game (throws g2 e1 m2 t) =
        rw (e0, e1) (Moves-trans g g1 g2 open_game m m2)

    first : SeatDrive bots.at0 seat0 g false → Drives bots g (drive_round bots phase_discard g)
    first (stays e w) =
        second_stays w e (seat_drives bots.at1 seat1 g false lawful.1 v (phase_is g s.in_discard))
    first (throws g1 e m t) = elim (Bool-cases g.has_discarded.at1) [
      | inl thrown ↦
          rw
            (
              e,
              four_stay bots.at1 seat1 g1 true
                  (ap length t.other_hand ∙ four_cards g seat1 s thrown),
            )
            m
      | inr owes ↦
          second_moves g1 e m (ap is_none (Inv-Discarding g1 m.inv (t.first owes).0).0.undecided)
            (seat_drives bots.at1 seat1 g1 true lawful.1 m.inv (t.first owes).0)
    ]

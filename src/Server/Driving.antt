-- ===== src/Server/Driving.antt =====
-- `driveBots` of internal/server/session.go comes to rest.
use cribbager.Common.{
  ℕ, zero, suc, ◌<◌, ◌≡◌, refl, ap, sym, subst, ◌⊎◌, true, false, Option, none, some, arith,
  Option-cases, inl, inr,
}
use cribbager.Game.Defs.{Seat, seat0, seat1, pick, Both, phase_play, phase_eq}
use cribbager.Game.State.{turn}
use cribbager.Game.Kinds.{in_hand}
use cribbager.Game.Log.{Grows, Grows-refl, Grows-trans}
use cribbager.Game.Engine.{Game, is_none}
use cribbager.Game.Invariant.{Inv, Resting, discarding, playing, over}
use cribbager.Game.Potential.{potential}
use cribbager.Game.View.{view, view_state}
use cribbager.Bot.Defs.{Bot}
use cribbager.Bot.Moves.{Moves, play_move-accepted}
use cribbager.Server.Drive.{
  ignoring_error, drive_play, drive_round, DriveRound, drove, rests, drive_panics, DriveEnd, rested,
  driver_panics, drive_unfinished, drive_unless_won, after_drive, drive_bots,
}
use cribbager.Server.Throws.{SeatLawful, SeatsLawful, Waits, Drives, discards-Drives}

plays-Drives :
    (bots : Both (Option Bot)) (o : Option Bot) (g : Game)
    → pick bots (turn g.state) ≡ o
    → SeatLawful o
    → Inv g
    → g.phase ≡ phase_play
    → Drives bots g (drive_play o (turn g.state) g)
unfolding drive_play ignoring_error
plays-Drives bots none g e lawful v h = (
  refl,
  record {
    thrown0 = λ p. absurd (ground arith);
    thrown1 = λ p. absurd (ground arith);
    on_turn = λ p. ap is_none e;
  },
)
plays-Drives bots (some b) g e lawful v h =
    let (p, moved, m) = play_move-accepted b g lawful v (ap (λ p. phase_eq p phase_play) h) in
    rw moved m

lawful_seat :
    (bots : Both (Option Bot)) (seat : Seat) → SeatsLawful bots → SeatLawful (pick bots seat)
lawful_seat bots seat0 h = h.0
lawful_seat bots seat1 h = h.1

round-Drives :
    (bots : Both (Option Bot)) (g : Game)
    → SeatsLawful bots
    → Inv g
    → is_none g.winner ≡ true
    → Drives bots g (drive_round bots (view g seat0).phase g)
unfolding view view_state drive_round
round-Drives bots g lawful v open_game = from v.resting
  where
    from : Resting g → Drives bots g (drive_round bots g.phase g)
    from (discarding s b) =
        subst (λ p. Drives bots g (drive_round bots p g)) (sym s.in_discard)
          (discards-Drives bots g lawful v s)
    from (playing s b t) =
        let turned : (view g seat0).to_play ≡ some (turn g.state) = rw s.in_play refl in
        subst (λ p. Drives bots g (drive_round bots p g)) (sym s.in_play)
          (rw turned (
            plays-Drives bots (pick bots (turn g.state)) g refl
              (lawful_seat bots (turn g.state) lawful) v s.in_play))
    from (over w won) = absurd (ground (arith, won.winner_is))

-- Where the loop comes to rest.
abbrev pub Rests : Both (Option Bot) → Game → DriveEnd → Type 0
Rests bots g (rested g') =
    Inv g' × Grows in_hand g g' × ((is_none g'.winner ≡ false) ⊎ Waits bots g')
Rests bots g driver_panics = ⊥
Rests bots g drive_unfinished = ⊥

after_drive-Rests :
    (bots : Both (Option Bot)) (g : Game) (next : Game → DriveEnd) (r : DriveRound)
    → Inv g
    → Drives bots g r
    → ((g' : Game) → Moves g g' → Rests bots g' (next g'))
    → Rests bots g (after_drive next r)
unfolding after_drive
after_drive-Rests bots g next (rests g') v (e, w) k = (
  subst Inv (sym e) v,
  subst (Grows in_hand g) (sym e) (Grows-refl in_hand g),
  inr (subst (Waits bots) (sym e) w),
)
after_drive-Rests bots g next drive_panics v d k = d
after_drive-Rests bots g next (drove g') v m k = later (next g') (k g' m)
  where
    later : (end : DriveEnd) → Rests bots g' end → Rests bots g end
    later (rested h) (inv, grown, w) = (inv, Grows-trans g g' h m.grows grown, w)
    later driver_panics d = d
    later drive_unfinished d = d

won-Rests :
    (bots : Both (Option Bot)) (g : Game) (w : Seat) (rest : DriveEnd)
    → Inv g
    → g.winner ≡ some w
    → Rests bots g (drive_unless_won g (some w) rest)
unfolding drive_unless_won
won-Rests bots g w rest v h = (v, Grows-refl in_hand g, inl (ap is_none h))

open-Rests :
    (bots : Both (Option Bot)) (g : Game) (rest : DriveEnd)
    → Rests bots g rest
    → Rests bots g (drive_unless_won g none rest)
unfolding drive_unless_won
open-Rests bots g rest h = h

-- Bots that keep to the bot's contract, in any of the seats of a game with the invariant, with more rounds than
-- the potential of the game: the loop comes to rest without a panic; the game has the invariant, its log only gained
-- events, and either it is over or no bot has a move, the bots having thrown in the discard phase and a human being
-- on turn in the play.
pub drive_bots-Rests :
    (fuel : ℕ) (bots : Both (Option Bot)) (g : Game)
    → SeatsLawful bots
    → Inv g
    → (is_none g.winner ≡ true → potential g < fuel)
    → Rests bots g (drive_bots fuel bots g)
unfolding drive_bots
drive_bots-Rests zero bots g lawful v h = elim (Option-cases g.winner) [
  | inl e ↦ absurd (omega (arith, h (ap is_none e)))
  | inr (w, e) ↦
      subst (λ o. Rests bots g (drive_unless_won g o drive_unfinished)) (sym e)
        (won-Rests bots g w drive_unfinished v e)
]
drive_bots-Rests (suc fuel) bots g lawful v h =
    let round : DriveRound = drive_round bots (view g seat0).phase g in
    let rest : DriveEnd = after_drive (drive_bots fuel bots) round in
    elim (Option-cases g.winner) [
      | inl e ↦
          subst (λ o. Rests bots g (drive_unless_won g o rest)) (sym e)
            (open-Rests bots g rest (
              after_drive-Rests bots g (drive_bots fuel bots) round v
                (round-Drives bots g lawful v (ap is_none e))
                (λ g' m.
                  drive_bots-Rests fuel bots g' lawful m.inv
                    (λ open_game. omega (arith, m.falls open_game, h (ap is_none e))))))
      | inr (w, e) ↦
          subst (λ o. Rests bots g (drive_unless_won g o rest)) (sym e)
            (won-Rests bots g w rest v e)
    ]

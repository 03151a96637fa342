-- ===== src/Bot/Match.antt =====
-- internal/bot/match.go: a match between two lawful bots comes to its end.
use cribbager.Common.{
  ℕ, zero, suc, ◌<◌, ◌≡◌, refl, ap, sym, subst, ◌∙◌, true, false, none, some, length, arith, inl,
  inr, Bool-cases, Option-cases,
}
use cribbager.Game.Defs.{Seat, seat0, seat1, other, pick, Both, phase_eq, phase_discard, phase_play}
use cribbager.Game.State.{turn}
use cribbager.Game.Engine.{Game, is_none}
use cribbager.Game.Invariant.{Inv, Resting, Discarding, discarding, playing, over}
use cribbager.Game.Throw.{Inv-Discarding}
use cribbager.Game.Potential.{potential}
use cribbager.Game.View.{view, view_state}
use cribbager.Bot.Defs.{
  Bot, Round, moved_on, stopped, round_panics, take_answer, discard_round, then_discard, play_round,
  phase_round, MatchEnd, finished, match_error, match_panics, unfinished, unless_won, after_round,
  play_on,
}
use cribbager.Bot.Moves.{
  IsLawful, Moves, Moves-trans, Threw, discard_move-accepted, play_move-accepted, six_cards,
}

-- A round that brings the game on.
abbrev Advances : Game → Round → Type 0
Advances g (moved_on g') = Moves g g'
Advances g (stopped e) = ⊥
Advances g round_panics = ⊥

abbrev pub BothLawful : Both Bot → Type 0
BothLawful bots = IsLawful bots.at0 × IsLawful bots.at1

IsLawful-pick : (bots : Both Bot) (seat : Seat) → BothLawful bots → IsLawful (pick bots seat)
IsLawful-pick bots seat0 h = h.0
IsLawful-pick bots seat1 h = h.1

takes :
    (bots : Both Bot) (seat : Seat) (g : Game)
    → BothLawful bots
    → Inv g
    → phase_eq g.phase phase_discard ≡ true
    → pick g.has_discarded seat ≡ false
    → (g' : Game) × (discard_round bots seat g ≡ moved_on g') × Moves g g' × Threw seat g g'
unfolding discard_round take_answer view
takes bots seat g lawful v right mine =
    let (p, e, m, t) =
      discard_move-accepted (pick bots seat) g seat (IsLawful-pick bots seat lawful) v right mine in
    (p.0, rw (six_cards g seat v right mine, e) refl, m, t)

pub phase_is : (g : Game) → g.phase ≡ phase_discard → phase_eq g.phase phase_discard ≡ true
phase_is g h = ap (λ p. phase_eq p phase_discard) h

skips :
    (bots : Both Bot) (seat : Seat) (g : Game)
    → length (pick g.hands seat) ≡ 4
    → discard_round bots seat g ≡ moved_on g
unfolding discard_round view
skips bots seat g h = rw h refl

discards-Advances :
    (bots : Both Bot) (g : Game)
    → BothLawful bots
    → Inv g
    → Discarding g
    → Advances g (then_discard bots seat1 (discard_round bots seat0 g))
unfolding then_discard
discards-Advances bots g lawful v s = elim (Bool-cases g.has_discarded.at0) [
  | inl thrown ↦
      let (g', e, m, t) =
        takes bots seat1 g lawful v (phase_is g s.in_discard) (ground (arith, s.waiting)) in
      let four : length g.hands.at0 ≡ 4 = ground (arith, s.size0) in
      rw (skips bots seat0 g four, e) m
  | inr owes ↦
      let (g1, e, m, t) = takes bots seat0 g lawful v (phase_is g s.in_discard) owes in
      elim (Bool-cases g.has_discarded.at1) [
        | inl thrown ↦
            let four : length g.hands.at1 ≡ 4 = ground (arith, s.size1) in
            rw (e, skips bots seat1 g1 (ap length t.other_hand ∙ four)) m
        | inr waits ↦
            let (right, mine) = t.first waits in
            let (g2, e2, m2, t2) = takes bots seat1 g1 lawful m.inv right mine in
            rw (e, e2)
              (Moves-trans g g1 g2 (ap is_none (Inv-Discarding g1 m.inv right).0.undecided) m m2)
      ]
]

plays-Advances :
    (bots : Both Bot) (g : Game)
    → BothLawful bots
    → Inv g
    → g.phase ≡ phase_play
    → Advances g (play_round bots (view g seat0).to_play g)
unfolding play_round take_answer view view_state
plays-Advances bots g lawful v h =
    let right : phase_eq g.phase phase_play ≡ true = ap (λ p. phase_eq p phase_play) h in
    let (p, e, m) =
      play_move-accepted (pick bots (turn g.state)) g (IsLawful-pick bots (turn g.state) lawful) v
        right in
    rw (right, e) m

-- A round of the loop moves a game without a winner.
round-Advances :
    (bots : Both Bot) (g : Game)
    → BothLawful bots
    → Inv g
    → is_none g.winner ≡ true
    → Advances g (phase_round bots (view g seat0).phase g)
unfolding phase_round view view_state
round-Advances bots g lawful v open_game = from v.resting
  where
    from : Resting g → Advances g (phase_round bots g.phase g)
    from (discarding s b) =
        subst (λ p. Advances g (phase_round bots p g)) (sym s.in_discard)
          (discards-Advances bots g lawful v s)
    from (playing s b t) =
        subst (λ p. Advances g (phase_round bots p g)) (sym s.in_play)
          (plays-Advances bots g lawful v s.in_play)
    from (over w won) = absurd (ground (arith, won.winner_is))

-- The match is finished, with the winner on the target and the loser short of it.
abbrev pub Decides : ℕ → MatchEnd → Type 0
Decides target (finished r g) =
    Inv g
    × (g.winner ≡ some r.match_winner)
    × (r.final_scores ≡ g.scores)
    × (pick r.final_scores r.match_winner ≡ target)
    × (pick r.final_scores (other r.match_winner) < target)
Decides target (match_error e) = ⊥
Decides target match_panics = ⊥
Decides target unfinished = ⊥

won-Decides :
    (g : Game) (w : Seat) (rest : MatchEnd)
    → Inv g
    → g.winner ≡ some w
    → Decides g.target (unless_won g (some w) rest)
unfolding unless_won
won-Decides g w rest v h = from v.resting
  where
    from : Resting g → Decides g.target (unless_won g (some w) rest)
    from (discarding s b) = absurd (ground (arith, s.undecided))
    from (playing s b t) = absurd (ground (arith, s.undecided))
    from (over u won) =
        let same : w ≡ u = ground (arith, won.winner_is) in
        (
          v,
          h,
          refl,
          ap (pick g.scores) same ∙ won.reached,
          subst (λ x. pick g.scores (other x) < g.target) (sym same) won.loser_below,
        )

open-Decides :
    (g : Game) (target : ℕ) (rest : MatchEnd)
    → Decides target rest
    → Decides target (unless_won g none rest)
unfolding unless_won
open-Decides g target rest h = h

after_round-Decides :
    (next : Game → MatchEnd) (g : Game) (r : Round)
    → Advances g r
    → ((g' : Game) → Moves g g' → Decides g'.target (next g'))
    → Decides g.target (after_round next r)
unfolding after_round
after_round-Decides next g (moved_on g') m k =
    subst (λ t. Decides t (next g')) m.grows.same_target (k g' m)
after_round-Decides next g (stopped e) m k = m
after_round-Decides next g round_panics m k = m

-- Two bots that keep to the bot's contract, from any game with the invariant, with more rounds than
-- the potential of the game: the match ends with a winner, on the target, over a loser who is short
-- of it, and no move is refused, nothing panics and no phase is unexpected.
pub play_on-Decides :
    (fuel : ℕ) (bots : Both Bot) (g : Game)
    → BothLawful bots
    → Inv g
    → (is_none g.winner ≡ true → potential g < fuel)
    → Decides g.target (play_on fuel bots g)
unfolding play_on
play_on-Decides zero bots g lawful v h = elim (Option-cases g.winner) [
  | inl e ↦ absurd (omega (arith, h (ap is_none e)))
  | inr (w, e) ↦
      subst (λ o. Decides g.target (unless_won g o unfinished)) (sym e)
        (won-Decides g w unfinished v e)
]
play_on-Decides (suc fuel) bots g lawful v h =
    let rest : MatchEnd =
      after_round (play_on fuel bots) (phase_round bots (view g seat0).phase g) in
    elim (Option-cases g.winner) [
      | inl e ↦
          subst (λ o. Decides g.target (unless_won g o rest)) (sym e)
            (open-Decides g g.target rest (
              after_round-Decides (play_on fuel bots) g (phase_round bots (view g seat0).phase g)
                (round-Advances bots g lawful v (ap is_none e))
                (λ g' m.
                  play_on-Decides fuel bots g' lawful m.inv
                    (λ open_game. omega (arith, m.falls open_game, h (ap is_none e))))))
      | inr (w, e) ↦
          subst (λ o. Decides g.target (unless_won g o rest)) (sym e) (won-Decides g w rest v e)
    ]

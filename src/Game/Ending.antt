-- ===== src/Game/Ending.antt =====
-- Every accepted command of internal/game/game.go brings the game nearer to its end.
use cribbager.Common.{
  ℕ, ◌+◌, ◌≤◌, ◌<◌, ◌≡◌, refl, Bool, true, false, ◌&&◌, not, List, length, arith, ◌==◌,
  if◌then◌else◌, ap, subst, Bool-cases, ◌⊎◌, inl, inr,
}
use cribbager.Cribbage.Defs.{Card, pip_value, card_eq}
use cribbager.Pegging.Defs.{PegResult, score, sum_total, itemize, running_count, contains}
use cribbager.Pegging.Legality.{score-IsLegal}
use cribbager.Game.Defs.{
  Seat, seat0, seat1, seat_eq, pick, Both, GameError, game_over, Event, discarded, card_played,
  Command, discard, play, unknown, phase_eq, phase_discard, phase_play,
}
use cribbager.Game.State.{reduce, add_points, playable, turn}
use cribbager.Game.Kinds.{quiet, calm}
use cribbager.Game.Log.{Grows-refl, Grows-quiet, Grows-in_hand, Follows, itself}
use cribbager.Game.Sourcing.{cut_starter-Follows, after_play-Follows, Follows-if}
use cribbager.Game.Engine.{
  ◌>>=◌, Game, Outcome, done, failed, panicked, is_none, emit, after_play, after_card, play_scored,
  apply_play, apply_discard, dispatch, apply, reply,
}
use cribbager.Game.Invariant.{Inv, Below}
use cribbager.Game.Series.{Running, win-cases}
use cribbager.Game.Card.{pile-IsLegal, card_played-Scored}
use cribbager.Game.Starter.{length-thrown}
use cribbager.Game.Throw.{Inv-Discarding}
use cribbager.Game.Apply.{Inv-Running, Replies, apply-Replies}
use cribbager.Game.Potential.{potential, sum_scores, cards_held, Rises, Grows-Rises, Grows-calm}
use cribbager.Game.Gains.{thirty_one-total, Deals, after_play-Deals, Inv-cards, played-step}

-- The potential falls, where the game goes on.
abbrev Shrinks : Game → Outcome Game → Type 0
Shrinks g (done g') = Inv g' → is_none g'.winner ≡ true → potential g' < potential g
Shrinks g (failed e k) = Unit {0}
Shrinks g panicked = Unit {0}

Shrinks-guard :
    (g k : Game) (b : Bool) (e : GameError) (m : Outcome Game)
    → (b ≡ false → Shrinks g m)
    → Shrinks g (if b then failed e k else m)
Shrinks-guard g k true e m h = tt
Shrinks-guard g k false e m h = h refl

-- The play of a card that leaves the game open.
after_play-Shrinks :
    (g g1 : Game) (n : ℕ) (m : Outcome Game)
    → cards_held g1.state + 1 ≡ cards_held g.state
    → g1.target ≡ g.target
    → Rises g.target g.state g1.state
    → sum_scores g.state + 1 ≤ sum_scores g1.state + n
    → Deals n g1 m
    → Follows quiet itself g1 m
    → Shrinks g m
after_play-Shrinks g g1 n (done g') held same r gain d f =
    λ v open_game. fall d.0 d.1 (Inv-cards g' v open_game)
  where
    fall :
        Rises g1.target g1.state g'.state
        → (g'.hands ≡ g1.hands) ⊎ (sum_scores g1.state + n ≤ sum_scores g'.state)
        → cards_held g'.state ≤ 12
        → potential g' < potential g
    fall later (inl kept) size = omega (
      arith,
      f.same_target,
      later.capped.cap0,
      later.capped.cap1,
      later.rise0,
      later.rise1,
      ap (λ (b : Both (List Card)). length b.at0) kept,
      ap (λ (b : Both (List Card)). length b.at1) kept,
      r.rise0,
      r.rise1,
    )
    fall later (inr gained) size =
        omega (arith, f.same_target, later.capped.cap0, later.capped.cap1)
after_play-Shrinks g g1 n (failed e k) held same r gain d f = tt
after_play-Shrinks g g1 n panicked held same r gain d f = tt

-- The count is thirty-one when the pile with the card is.
full_total :
    (g : Game) (seat : Seat) (card : Card) (res : PegResult)
    → Running g
    → ((emit g (card_played seat card res)).count == 31) ≡ true
    → running_count g.pile + pip_value card.rank ≡ 31
unfolding emit reduce add_points
full_total g seat card res r full = ground (arith, r.material.counted)

-- The card scores, unless a later point is to come.
play_gain :
    (g : Game) (seat : Seat) (card : Card)
    → Running g
    → contains (pick g.hands seat) card ≡ true
    → let g1 = emit g (card_played seat card (sum_total (itemize g.pile card))) in
      sum_scores g.state + 1 ≤ sum_scores g1.state + (if g1.count == 31 then 0 else 1)
play_gain g seat card r held =
    let res : PegResult = sum_total (itemize g.pile card) in
    let g1 : Game = emit g (card_played seat card res) in
    let (fewer, rises, point) = played-step g seat card res r held in
    elim (Bool-cases (g1.count == 31)) [
      | inl full ↦
          rw full (
            omega (arith, point (thirty_one-total g.pile card (full_total g seat card res r full))))
      | inr less ↦ rw less (omega (arith, rises.rise0, rises.rise1))
    ]

play_scored-Shrinks :
    (g : Game) (seat : Seat) (card : Card)
    → Running g
    → contains (pick g.hands seat) card ≡ true
    → g.count + pip_value card.rank ≤ 31
    → Shrinks g (play_scored g seat card (score g.pile card))
unfolding play_scored after_card
play_scored-Shrinks g seat card r held fits =
    let res : PegResult = sum_total (itemize g.pile card) in
    let g1 : Game = emit g (card_played seat card res) in
    let (fewer, rises, point) = played-step g seat card res r held in
    rw (score-IsLegal g.pile card (pile-IsLegal g seat card r held fits))
      (elim (win-cases g1 seat (card_played-Scored g seat card res r held fits)) [
        | inl (e, won) ↦
            rw e (λ v open_game. absurd (unfold emit reduce in ground (arith, open_game)))
        | inr (e, on) ↦ rw e (
            after_play-Shrinks g g1 (if g1.count == 31 then 0 else 1) (after_play g1) fewer
              (unfold emit in refl) rises (play_gain g seat card r held) (after_play-Deals g1 on)
              (after_play-Follows g1))
      ])

-- Two cards from the hand.
thrown-step :
    (g : Game) (seat : Seat) (c d : Card)
    → contains (pick g.hands seat) c ≡ true
    → contains (pick g.hands seat) d ≡ true
    → card_eq c d ≡ false
    → let g1 = emit g (discarded seat c d) in
      (cards_held g1.state + 2 ≡ cards_held g.state) × (g1.scores ≡ g.scores)
unfolding emit reduce
thrown-step g seat0 c d hc hd ne = (omega (arith, length-thrown g.hands.at0 c d hc hd ne), refl)
thrown-step g seat1 c d hc hd ne = (omega (arith, length-thrown g.hands.at1 c d hc hd ne), refl)

throw-Shrinks :
    (g : Game) (seat : Seat) (c d : Card) (m : Outcome Game)
    → 0 < g.target
    → Below g
    → contains (pick g.hands seat) c ≡ true
    → contains (pick g.hands seat) d ≡ true
    → card_eq c d ≡ false
    → Follows calm itself (emit g (discarded seat c d)) m
    → Shrinks g m
unfolding emit
throw-Shrinks g seat c d (done g') goal b hc hd ne f = λ v open_game.
    let g1 : Game = emit g (discarded seat c d) in
    let (fewer, same) = thrown-step g seat c d hc hd ne in
    let later : Rises g.target g1.state g'.state =
      Grows-Rises g1 g' goal
        (record {
          cap0 = omega (arith, b.below0, ap (λ (p : Both ℕ). p.at0) same);
          cap1 = omega (arith, b.below1, ap (λ (p : Both ℕ). p.at1) same);
        })
        (Grows-in_hand (Grows-quiet f)) in
    let kept : g'.hands ≡ g1.hands = Grows-calm g1 g' f in
    omega (
      arith,
      f.same_target,
      fewer,
      later.rise0,
      later.rise1,
      ap (λ (p : Both ℕ). p.at0) same,
      ap (λ (p : Both ℕ). p.at1) same,
      ap (λ (p : Both (List Card)). length p.at0) kept,
      ap (λ (p : Both (List Card)). length p.at1) kept,
    )
throw-Shrinks g seat c d (failed e k) goal b hc hd ne f = tt
throw-Shrinks g seat c d panicked goal b hc hd ne f = tt

apply_discard-Shrinks :
    (g : Game) (seat : Seat) (c d : Card) → Inv g → Shrinks g (apply_discard g seat c d)
unfolding apply_discard
apply_discard-Shrinks g seat c d v =
    let thrown : Game = emit g (discarded seat c d) in
    Shrinks-guard g g (not (phase_eq g.phase phase_discard)) _ _ (λ phase.
      Shrinks-guard g g (pick g.has_discarded seat) _ _ (λ mine.
        Shrinks-guard g g (card_eq c d) _ _ (λ ne.
          Shrinks-guard g g (not (contains (pick g.hands seat) c)) _ _ (λ hc.
            Shrinks-guard g g (not (contains (pick g.hands seat) d)) _ _ (λ hd.
              throw-Shrinks g seat c d _ v.goal (Inv-Discarding g v (ground arith)).1 (ground arith)
                (ground arith) ne
                (Follows-if calm thrown (thrown.has_discarded.at0 && thrown.has_discarded.at1) _ _
                  (cut_starter-Follows thrown thrown.rest) (Grows-refl calm thrown)))))))

apply_play-Shrinks :
    (g : Game) (seat : Seat) (card : Card) → Inv g → Shrinks g (apply_play g seat card)
unfolding apply_play
apply_play-Shrinks g seat card v =
    Shrinks-guard g g (not (phase_eq g.phase phase_play)) _ _ (λ phase.
      Shrinks-guard g g (not (seat_eq seat (turn g.state))) _ _ (λ on_turn.
        Shrinks-guard g g (not (contains (pick g.hands seat) card)) _ _ (λ held.
          Shrinks-guard g g (not (playable g.state card)) _ _ (λ fits.
            play_scored-Shrinks g seat card (Inv-Running g v (ground arith)).0 (ground arith)
              (ground arith)))))

dispatch-Shrinks :
    (g : Game) (seat : Seat) (cmd : Command) → Inv g → Shrinks g (dispatch g seat cmd)
unfolding dispatch
dispatch-Shrinks g seat (discard c d) v = apply_discard-Shrinks g seat c d v
dispatch-Shrinks g seat (play c) v = apply_play-Shrinks g seat c v
dispatch-Shrinks g seat unknown v = tt

replied :
    (g : Game) (m : Outcome Game) (g' : Game) (events : List Event)
    → Shrinks g m
    → (m >>= reply g) ≡ done (g', events)
    → Inv g'
    → is_none g'.winner ≡ true
    → potential g' < potential g
replied g (done h) g' events s e =
    subst (λ k. Inv k → is_none k.winner ≡ true → potential k < potential g) (ground arith) s
replied g (failed x k) g' events s e = cc
replied g panicked g' events s e = cc

-- A command that a game with the invariant accepts, and that leaves the game without a winner,
-- strictly lowers its potential: thirteen times what the two players have left to the target, plus
-- the cards in their hands.
pub apply-Shrinks :
    (g : Game) (seat : Seat) (cmd : Command) (g' : Game) (events : List Event)
    → Inv g
    → apply g seat cmd ≡ done (g', events)
    → is_none g'.winner ≡ true
    → potential g' < potential g
unfolding apply
apply-Shrinks g seat cmd g' events v e =
    let answer : Bool → Outcome (Game × List Event) =
      λ b. if b then dispatch g seat cmd >>= reply g else failed game_over g in
    elim (Bool-cases (is_none g.winner)) [
      | inl open_game ↦
          replied g (dispatch g seat cmd) g' events (dispatch-Shrinks g seat cmd v)
            (subst (λ b. answer b ≡ done (g', events)) open_game e)
            (subst (Replies g) e (apply-Replies g seat cmd v))
      | inr ended ↦ cc (subst (λ b. answer b ≡ done (g', events)) ended e)
    ]

-- ===== src/Game/Card.antt =====
-- `applyPlay` of internal/game/game.go: one card played, up to the next decision.
use cribbager.Common.{◌+◌, ◌≤◌, ◌<◌, ◌≡◌, inl, inr, true, List, [], ◌∷◌, length-append, arith}
use cribbager.Cribbage.Defs.{Card, pip_value}
use cribbager.Cribbage.Occurrences.{occ, occ-append, card_eq_iff}
use cribbager.Pegging.Defs.{contains, PegResult, score, sum_total, itemize}
use cribbager.Pegging.Legality.{contains-occ, IsLegal, score-IsLegal}
use cribbager.Game.Defs.{Seat, seat0, seat1, pick, card_played}
use cribbager.Game.State.{reduce, add_points}
use cribbager.Game.Cards.{occ-without, length-without, running_count-append}
use cribbager.Game.Engine.{Game, emit, play_scored, after_card}
use cribbager.Game.Laid.{Good, add_points_bounds}
use cribbager.Game.Series.{Running, Scored, win-cases}
use cribbager.Game.Play.{after_play-Inv}
use cribbager.Game.Invariant.{Inv}

held-occ : (xs : List Card) (c : Card) → contains xs c ≡ true → 0 < occ c xs
held-occ xs c h = ground (arith, contains-occ xs c)

-- A legal card from the hand keeps the table in order, and its points come with it.
pub card_played-Scored :
    (g : Game) (seat : Seat) (card : Card) (res : PegResult)
    → Running g
    → contains (pick g.hands seat) card ≡ true
    → g.count + pip_value card.rank ≤ 31
    → Scored (emit g (card_played seat card res)) seat
unfolding emit reduce add_points
card_played-Scored g seat0 card res r held fits = record {
  fair = r.fair;
  goal = r.goal;
  material = record {
    once = λ c. omega (
      arith,
      r.material.once c,
      occ-without g.hands.at0 card c held,
      occ-append c g.played.at0 (card ∷ []),
    );
    piled = λ c. omega (
      arith,
      r.material.piled c,
      occ-append c g.played.at0 (card ∷ []),
      occ-append c g.pile (card ∷ []),
    );
    counted = omega (arith, r.material.counted, running_count-append g.pile card);
  };
  state_ok = record {
    in_play = r.state_ok.in_play;
    undecided = r.state_ok.undecided;
    is_cut = r.state_ok.is_cut;
    four0 = omega (
      arith,
      r.state_ok.four0,
      length-without g.hands.at0 card held,
      length-append g.played.at0 (card ∷ []),
    );
    four1 = r.state_ok.four1;
    crib_four = r.state_ok.crib_four;
    count_le = fits;
  };
  within = (add_points_bounds g.target g.state seat0 res.total r.goal).0;
  other_below = r.below.below1;
}
card_played-Scored g seat1 card res r held fits = record {
  fair = r.fair;
  goal = r.goal;
  material = record {
    once = λ c. omega (
      arith,
      r.material.once c,
      occ-without g.hands.at1 card c held,
      occ-append c g.played.at1 (card ∷ []),
    );
    piled = λ c. omega (
      arith,
      r.material.piled c,
      occ-append c g.played.at1 (card ∷ []),
      occ-append c g.pile (card ∷ []),
    );
    counted = omega (arith, r.material.counted, running_count-append g.pile card);
  };
  state_ok = record {
    in_play = r.state_ok.in_play;
    undecided = r.state_ok.undecided;
    is_cut = r.state_ok.is_cut;
    four0 = r.state_ok.four0;
    four1 = omega (
      arith,
      r.state_ok.four1,
      length-without g.hands.at1 card held,
      length-append g.played.at1 (card ∷ []),
    );
    crib_four = r.state_ok.crib_four;
    count_le = fits;
  };
  within = (add_points_bounds g.target g.state seat1 res.total r.goal).0;
  other_below = r.below.below0;
}

-- The pile and a card from the hand are all different: the pegging scorer accepts the play.
pub pile-IsLegal :
    (g : Game) (seat : Seat) (card : Card)
    → Running g
    → contains (pick g.hands seat) card ≡ true
    → g.count + pip_value card.rank ≤ 31
    → IsLegal g.pile card
pile-IsLegal g seat0 card r held fits = (
  λ c. ground (
    arith,
    r.material.once c,
    r.material.piled c,
    held-occ g.hands.at0 card held,
    card_eq_iff card c,
  ),
  omega (arith, r.material.counted),
)
pile-IsLegal g seat1 card r held fits = (
  λ c. ground (
    arith,
    r.material.once c,
    r.material.piled c,
    held-occ g.hands.at1 card held,
    card_eq_iff card c,
  ),
  omega (arith, r.material.counted),
)

-- A legal card is accepted and leads to a resting game.
pub play_scored-Inv :
    (g : Game) (seat : Seat) (card : Card)
    → Running g
    → contains (pick g.hands seat) card ≡ true
    → g.count + pip_value card.rank ≤ 31
    → Good Inv (play_scored g seat card (score g.pile card))
unfolding play_scored after_card
play_scored-Inv g seat card r held fits =
    let res : PegResult = sum_total (itemize g.pile card) in
    let g1 : Game = emit g (card_played seat card res) in
    rw (score-IsLegal g.pile card (pile-IsLegal g seat card r held fits))
      (elim (win-cases g1 seat (card_played-Scored g seat card res r held fits)) [
        | inl (e, won) ↦ rw e won
        | inr (e, on) ↦ rw e (after_play-Inv g1 on)
      ])

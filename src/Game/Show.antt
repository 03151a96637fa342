-- ===== src/Game/Show.antt =====
-- `resolveShow` and `dealHand` of internal/game/game.go: the show and the next deal.
use cribbager.Common.{◌+◌, ◌≤◌, ◌<◌, ◌≡◌, refl, Bool, true, false, List, none, some, length, arith}
use cribbager.Cribbage.Defs.{Card}
use cribbager.Cribbage.Occurrences.{occ}
use cribbager.Pegging.Defs.{running_count}
use cribbager.Game.Defs.{Seat, seat0, seat1, other, pick, hand_shown, crib_shown, show_not_counted}
use cribbager.Game.State.{reduce, add_points}
use cribbager.Game.Cards.{deal_cards_lem}
use cribbager.Game.Engine.{
  Game, emit, check_win, emit_show, show_dealer, show_crib, next_hand, resolve_show, deal_hand,
  deal_deck, take_deal,
}
use cribbager.Game.Invariant.{Below, Won, discarding, over, IsFair, Inv}
use cribbager.Game.Laid.{
  Good, Good-bind, must_hand_score-done, Laid, Shown, check_win-Shown, add_points_bounds,
  Below-pick, Laid-hand_shown, Laid-crib_shown, played_four, played_once, crib_once,
}

emit_show-Shown :
    (g : Game) (seat : Seat)
    → Laid g
    → Below g
    → g.winner ≡ none
    → Good Shown (emit_show g seat (pick g.played seat))
unfolding emit_show
emit_show-Shown g seat l b w =
    let cards : List Card = pick g.played seat in
    let (r, e) =
      must_hand_score-done cards g.starter false (played_four g seat l)
        (λ c. played_once g seat c l) in
    rw e (
      check_win-Shown (emit g (hand_shown seat cards r)) seat (Laid-hand_shown g seat cards r l)
        (unfold emit reduce in w)
        (unfold emit reduce in (add_points_bounds g.target g.state seat r.total l.goal).0)
        (unfold emit reduce add_points in
          omega (
            arith,
            (add_points_bounds g.target g.state seat r.total l.goal).1,
            Below-pick g (other seat) b,
          )))

-- A hand revealed without a count changes nothing but the log.
Laid-show_not_counted :
    (g : Game) (seat : Seat) (cards : List Card) (is_crib : Bool)
    → Laid g
    → Laid (emit g (show_not_counted seat cards is_crib))
unfolding emit reduce
Laid-show_not_counted g seat cards is_crib l = record {
  fair = l.fair;
  goal = l.goal;
  material = record {
    once = l.material.once;
    piled = l.material.piled;
    counted = l.material.counted;
  };
  is_cut = l.is_cut;
  four0 = l.four0;
  four1 = l.four1;
  crib_four = l.crib_four;
}

Won-show_not_counted :
    (g : Game) (seat w : Seat) (cards : List Card) (is_crib : Bool)
    → Won g w
    → Won (emit g (show_not_counted seat cards is_crib)) w
unfolding emit reduce
Won-show_not_counted g seat w cards is_crib v = record {
  complete = v.complete;
  winner_is = v.winner_is;
  reached = v.reached;
  loser_below = v.loser_below;
}

show_dealer-Shown : (p : Game × Bool) → Shown p → Good Shown (show_dealer p)
unfolding show_dealer
show_dealer-Shown (g, true) (l, w, v) =
    let cards : List Card = pick g.played g.dealer in
    (
      Laid-show_not_counted g g.dealer cards false l,
      w,
      Won-show_not_counted g g.dealer w cards false v,
    )
show_dealer-Shown (g, false) (l, b, w) = emit_show-Shown g g.dealer l b w

pub Laid-Inv : (g : Game) (w : Seat) → Laid g → Won g w → Inv g
Laid-Inv g w l v = record {
  fair = l.fair;
  goal = l.goal;
  material = l.material;
  resting = over w v;
}

dealt-Inv :
    (g : Game) (dealer : Seat) (p q rest : List Card)
    → IsFair g.src
    → 0 < g.target
    → Below g
    → g.winner ≡ none
    → length p ≡ 6
    → length q ≡ 6
    → 0 < length rest
    → ((c : Card) → occ c p + occ c q + occ c rest ≤ 1)
    → Good Inv (take_deal g dealer (some (p, q, rest)))
unfolding take_deal emit reduce
dealt-Inv g seat0 p q rest fair goal b w lp lq lr o = record {
  fair = fair;
  goal = goal;
  material = record {
    once = λ c. omega (arith, o c);
    piled = λ c. omega arith;
    counted = unfold running_count in refl;
  };
  resting = discarding (ground arith) (ground arith);
}
dealt-Inv g seat1 p q rest fair goal b w lp lq lr o = record {
  fair = fair;
  goal = goal;
  material = record {
    once = λ c. omega (arith, o c);
    piled = λ c. omega arith;
    counted = unfold running_count in refl;
  };
  resting = discarding (ground arith) (ground arith);
}

-- The next deal: six cards each, all different, and the discards open.
pub deal_hand-Inv :
    (g : Game) (dealer : Seat)
    → IsFair g.src
    → 0 < g.target
    → Below g
    → g.winner ≡ none
    → Good Inv (deal_hand g dealer)
unfolding deal_hand deal_deck
deal_hand-Inv g dealer fair goal b w =
    let (d, e, size, distinct) = fair g.shuffles in
    let (p, q, rest, cut, lp, lq, lr, o) = deal_cards_lem 6 d (omega arith) in
    rw (e, cut)
      (dealt-Inv g dealer p q rest fair goal b w lp lq (omega arith)
        (λ c. omega (arith, o c, distinct c)))

next_hand-Inv : (p : Game × Bool) → Shown p → Good Inv (next_hand p)
unfolding next_hand
next_hand-Inv (g, true) (l, w, v) = Laid-Inv g w l v
next_hand-Inv (g, false) (l, b, w) = deal_hand-Inv g (other g.dealer) l.fair l.goal b w

show_crib-Inv : (p : Game × Bool) → Shown p → Good Inv (show_crib p)
unfolding show_crib
show_crib-Inv (g, true) (l, w, v) =
    Laid-Inv (emit g (show_not_counted g.dealer g.crib true)) w
      (Laid-show_not_counted g g.dealer g.crib true l)
      (Won-show_not_counted g g.dealer w g.crib true v)
show_crib-Inv (g, false) (l, b, w) =
    let (r, e) = must_hand_score-done g.crib g.starter true l.crib_four (λ c. crib_once g c l) in
    rw e (
      next_hand-Inv (check_win (emit g (crib_shown g.crib r)) g.dealer) (
        check_win-Shown (emit g (crib_shown g.crib r)) g.dealer (Laid-crib_shown g g.crib r l)
          (unfold emit reduce in w)
          (unfold emit reduce in (add_points_bounds g.target g.state g.dealer r.total l.goal).0)
          (unfold emit reduce add_points in
            omega (
              arith,
              (add_points_bounds g.target g.state g.dealer r.total l.goal).1,
              Below-pick g (other g.dealer) b,
            ))))

-- The show of an open game panics nowhere, and leaves a game that rests: won, or dealt anew.
pub resolve_show-Inv : (g : Game) → Laid g → Below g → g.winner ≡ none → Good Inv (resolve_show g)
unfolding resolve_show
resolve_show-Inv g l b w =
    Good-bind Shown Inv (emit_show g (other g.dealer) (pick g.played (other g.dealer))) _
      (emit_show-Shown g (other g.dealer) l b w)
      λ p shown.
        Good-bind Shown Inv (show_dealer p) show_crib (show_dealer-Shown p shown) show_crib-Inv

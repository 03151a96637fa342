-- ===== src/Game/Gains.antt =====
-- What one play gains: the points after a card, and the cards that left a hand.
use cribbager.Common.{
  ℕ, ◌+◌, ◌≤◌, ◌<◌, ◌≡◌, refl, Bool, true, false, ◌&&◌, not, List, arith, ◌==◌, if◌then◌else◌, sym,
  subst, ◌⊎◌, inl, inr,
}
use cribbager.Cribbage.Defs.{Card, pip_value}
use cribbager.Pegging.Defs.{PegResult, sum_total, itemize, total_core, running_count, contains}
use cribbager.Pegging.Equivalence.{sum_total-itemize}
use cribbager.Game.Defs.{Seat, seat0, seat1, other, pick, card_played, go_awarded, series_reset}
use cribbager.Game.State.{reduce, add_points, can_play, both_hands_empty, leader_after}
use cribbager.Game.Kinds.{in_hand, quiet, calm}
use cribbager.Game.Log.{
  Grows, Grows-refl, Grows-emit, Grows-quiet, Grows-in_hand, Follows, itself, check_win-Grows,
  award-Grows,
}
use cribbager.Game.Sourcing.{show_unless_won-Follows, passed-Grows}
use cribbager.Game.Engine.{
  Game, Outcome, done, failed, panicked, is_none, emit, check_win, show_unless_won, after_play,
}
use cribbager.Game.Invariant.{Inv, Below, Resting, discarding, playing, over}
use cribbager.Game.Series.{Running}
use cribbager.Game.Laid.{Below-pick}
use cribbager.Game.Cards.{length-without}
use cribbager.Game.Potential.{
  sum_scores, cards_held, Capped, Rises, reduce-Rises, Grows-Rises, Grows-calm, award-lt,
}

-- A play that makes thirty-one scores.
pub thirty_one-total :
    (series : List Card) (card : Card)
    → running_count series + pip_value card.rank ≡ 31
    → 0 < (sum_total (itemize series card)).total
unfolding total_core
thirty_one-total series card h = ground (arith, sum_total-itemize series card)

-- What followed since `g`: no point was lost, and either no card left a hand, or at least `n` points
-- were scored on the way to a new deal.
abbrev pub Deals : ℕ → Game → Outcome Game → Type 0
Deals n g (done g') =
    Rises g.target g.state g'.state
    × ((g'.hands ≡ g.hands) ⊎ (sum_scores g.state + n ≤ sum_scores g'.state))
Deals n g (failed e k) = Unit {0}
Deals n g panicked = Unit {0}

Deals-if :
    (n : ℕ) (g : Game) (b : Bool) (m k : Outcome Game)
    → Deals n g m
    → Deals n g k
    → Deals n g (if b then m else k)
Deals-if n g true m k h h' = h
Deals-if n g false m k h h' = h'

Below-Capped : (g : Game) → Below g → Capped g.target g.state
Below-Capped g b = record { cap0 = omega (arith, b.below0); cap1 = omega (arith, b.below1) }

calm-Deals :
    (n : ℕ) (g g' : Game)
    → 0 < g.target
    → Capped g.target g.state
    → Grows calm g g'
    → Deals n g (done g')
calm-Deals n g g' h c r =
    (Grows-Rises g g' h c (Grows-in_hand (Grows-quiet r)), inl (Grows-calm g g' r))

-- From `k`, which `g` has become with at least `n` points more.
quiet-Deals :
    (n : ℕ) (g k : Game) (m : Outcome Game)
    → 0 < g.target
    → k.target ≡ g.target
    → Rises g.target g.state k.state
    → sum_scores g.state + n ≤ sum_scores k.state
    → Follows quiet itself k m
    → Deals n g m
quiet-Deals n g k (done g') h e r le f =
    let later : Rises k.target k.state g'.state =
      Grows-Rises k g' (omega (arith, h, e)) (subst (λ t. Capped t k.state) (sym e) r.capped)
        (Grows-in_hand f) in
    let capped : Capped g.target g'.state = subst (λ t. Capped t g'.state) e later.capped in
    (
      record {
        capped = capped;
        rise0 = omega (arith, r.rise0, later.rise0);
        rise1 = omega (arith, r.rise1, later.rise1);
      },
      inr (omega (arith, later.rise0, later.rise1)),
    )
quiet-Deals n g k (failed x y) h e r le f = tt
quiet-Deals n g k panicked h e r le f = tt

Rises-refl : (g : Game) → Below g → Rises g.target g.state g.state
Rises-refl g b = record { capped = Below-Capped g b; rise0 = omega arith; rise1 = omega arith }

check_win-scores : (g : Game) (seat : Seat) → (check_win g seat).0.scores ≡ g.scores
unfolding check_win emit reduce
check_win-scores g seat = ground arith

check_win-hands : (g : Game) (seat : Seat) → (check_win g seat).0.hands ≡ g.hands
check_win-hands g seat = Grows-calm g (check_win g seat).0 (check_win-Grows g seat)

go_point :
    (g : Game)
    → Running g
    → sum_scores g.state + 1
      ≤ sum_scores (check_win (emit g (go_awarded g.last_player 1)) g.last_player).0.state
go_point g r = rw (check_win-scores (emit g (go_awarded g.last_player 1)) g.last_player) (
    unfold emit reduce in
    omega (
      arith,
      award-lt g.target g.state g.state g.last_player 1 (Below-pick g g.last_player r.below) refl,
    ))

last_card-Deals :
    (g : Game) (full : Bool)
    → Running g
    → Deals (if full then 0 else 1) g (
        show_unless_won (
          if full
          then (g, false)
          else check_win (emit g (go_awarded g.last_player 1)) g.last_player))
last_card-Deals g true r =
    quiet-Deals 0 g g _ r.goal refl (Rises-refl g r.below) (omega arith)
      (show_unless_won-Follows (g, false))
last_card-Deals g false r =
    let lp : Seat = g.last_player in
    let p : Game × Bool = check_win (emit g (go_awarded lp 1)) lp in
    let grown : Grows in_hand g p.0 =
      Grows-in_hand (Grows-quiet (award-Grows g (go_awarded lp 1) lp refl)) in
    quiet-Deals 1 g p.0 _ r.goal grown.same_target
      (Grows-Rises g p.0 r.goal (Below-Capped g r.below) grown) (go_point g r)
      (show_unless_won-Follows p)

pub after_play-Deals :
    (g : Game) → Running g → Deals (if g.count == 31 then 0 else 1) g (after_play g)
unfolding after_play
after_play-Deals g r =
    let n : ℕ = if g.count == 31 then 0 else 1 in
    let c : Capped g.target g.state = Below-Capped g r.below in
    Deals-if n g (both_hands_empty g.state) _ _ (last_card-Deals g (g.count == 31) r) (
      Deals-if n g (g.count == 31) _ _
        (calm-Deals n g _ r.goal c
          (Grows-emit calm g (series_reset (leader_after g.state g.last_player)) refl))
        (Deals-if n g
          (not (pick g.gone (other g.last_player)) && can_play g.state (other g.last_player)) _ _
          (calm-Deals n g g r.goal c (Grows-refl calm g))
          (calm-Deals n g _ r.goal c
            (passed-Grows g g.last_player (pick g.gone (other g.last_player))))))

-- The hands of a game that waits for a command hold twelve cards at most.
pub Inv-cards : (g : Game) → Inv g → is_none g.winner ≡ true → cards_held g.state ≤ 12
Inv-cards g v h = from v.resting
  where
    from : Resting g → cards_held g.state ≤ 12
    from (discarding s b) = ground (arith, s.size0, s.size1)
    from (playing s b t) = ground (arith, s.four0, s.four1)
    from (over w won) = absurd (ground (arith, won.winner_is))

-- A card from the hand, with its points.
pub played-step :
    (g : Game) (seat : Seat) (card : Card) (res : PegResult)
    → Running g
    → contains (pick g.hands seat) card ≡ true
    → let g1 = emit g (card_played seat card res) in
      (cards_held g1.state + 1 ≡ cards_held g.state)
      × Rises g.target g.state g1.state
      × (0 < res.total → sum_scores g.state < sum_scores g1.state)
unfolding emit reduce
played-step g seat card res r h = (
  held seat h,
  reduce-Rises g.target g.state (card_played seat card res) r.goal (Below-Capped g r.below) refl,
  λ pos.
      unfold add_points in
      award-lt g.target g.state g.state seat res.total (Below-pick g seat r.below) refl pos,
)
  where
    held :
        (seat : Seat)
        → contains (pick g.hands seat) card ≡ true
        → cards_held (emit g (card_played seat card res)).state + 1 ≡ cards_held g.state
    held seat0 h = unfold add_points in omega (arith, length-without g.hands.at0 card h)
    held seat1 h = unfold add_points in omega (arith, length-without g.hands.at1 card h)

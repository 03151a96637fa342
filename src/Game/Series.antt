-- ===== src/Game/Series.antt =====
-- The state of an open play between two events: awards, passes and the reset of a series.
use cribbager.Common.{
  ◌≤◌, ◌<◌, ◌≡◌, refl, ◌⊎◌, inl, inr, true, false, List, [], ◌∷◌, arith, Bool-cases,
}
use cribbager.Cribbage.Defs.{Card}
use cribbager.Pegging.Defs.{running_count}
use cribbager.Game.Defs.{Seat, seat0, seat1, other, pick, pass, series_reset, game_won, go_awarded}
use cribbager.Game.State.{
  reduce, add_points, any_playable, can_play, turn, leader_after, both_hands_empty, is_empty,
}
use cribbager.Game.Cards.{any_playable-zero}
use cribbager.Game.Engine.{Game, emit, check_win}
use cribbager.Game.Laid.{check_win-cases, add_points_bounds, Below-pick}
use cribbager.Game.Invariant.{Material, Playing, Below, playing, over, IsFair, Inv}

-- An open game in the play, between two events.
pub record Running (g : Game) : Type 0 where
  pub fair : IsFair g.src
  pub goal : 0 < g.target
  pub material : Material g
  pub state_ok : Playing g
  pub below : Below g

pub any_playable-nonempty : (xs : List Card) → is_empty xs ≡ false → any_playable 0 xs ≡ true
any_playable-nonempty [] h = cc
any_playable-nonempty (x ∷ xs) h = any_playable-zero x xs

-- After a reset the leader has a card, and any card may be led.
reset-turn :
    (g : Game) (lp : Seat)
    → both_hands_empty g.state ≡ false
    → let g' = emit g (series_reset (leader_after g.state lp)) in
      can_play g'.state (turn g'.state) ≡ true
unfolding emit reduce leader_after turn
reset-turn g seat0 h = elim (Bool-cases (is_empty g.hands.at1)) [
  | inl e ↦ ground (arith, any_playable-nonempty g.hands.at0)
  | inr e ↦ ground (arith, any_playable-nonempty g.hands.at1)
]
reset-turn g seat1 h = elim (Bool-cases (is_empty g.hands.at0)) [
  | inl e ↦ ground (arith, any_playable-nonempty g.hands.at1)
  | inr e ↦ ground (arith, any_playable-nonempty g.hands.at0)
]

pub reset-Inv :
    (g : Game) (lp : Seat)
    → Running g
    → both_hands_empty g.state ≡ false
    → Inv (emit g (series_reset (leader_after g.state lp)))
unfolding emit reduce running_count
reset-Inv g lp r h = record {
  fair = r.fair;
  goal = r.goal;
  material = record { once = r.material.once; piled = λ c. omega arith; counted = refl };
  resting =
      playing
        (record {
          in_play = r.state_ok.in_play;
          undecided = r.state_ok.undecided;
          is_cut = r.state_ok.is_cut;
          four0 = r.state_ok.four0;
          four1 = r.state_ok.four1;
          crib_four = r.state_ok.crib_four;
          count_le = omega arith;
        })
        (record { below0 = r.below.below0; below1 = r.below.below1 }) (reset-turn g lp h);
}

pub Running-pass : (g : Game) (seat : Seat) → Running g → Running (emit g (pass seat))
unfolding emit reduce
Running-pass g seat r = record {
  fair = r.fair;
  goal = r.goal;
  material = record {
    once = r.material.once;
    piled = r.material.piled;
    counted = r.material.counted;
  };
  state_ok = record {
    in_play = r.state_ok.in_play;
    undecided = r.state_ok.undecided;
    is_cut = r.state_ok.is_cut;
    four0 = r.state_ok.four0;
    four1 = r.state_ok.four1;
    crib_four = r.state_ok.crib_four;
    count_le = r.state_ok.count_le;
  };
  below = record { below0 = r.below.below0; below1 = r.below.below1 };
}

-- The same just after an award to `seat`, whose score may stand on the target.
pub record Scored (g : Game) (seat : Seat) : Type 0 where
  pub fair : IsFair g.src
  pub goal : 0 < g.target
  pub material : Material g
  pub state_ok : Playing g
  pub within : pick g.scores seat ≤ g.target
  pub other_below : pick g.scores (other seat) < g.target

-- The check for a win after an award: the game is won and over, or it goes on as it was.
pub win-cases :
    (g : Game) (seat : Seat)
    → Scored g seat
    → ((check_win g seat ≡ (emit g (game_won seat), true)) × Inv (emit g (game_won seat)))
      ⊎ ((check_win g seat ≡ (g, false)) × Running g)
win-cases g seat s = elim (check_win-cases g seat s.state_ok.undecided s.within s.other_below) [
  | inl (e, won) ↦ inl (
    e,
    unfold emit reduce in
        (record {
          fair = s.fair;
          goal = s.goal;
          material = record {
            once = s.material.once;
            piled = s.material.piled;
            counted = s.material.counted;
          };
          resting = over seat won;
        }),
  )
  | inr (e, below) ↦ inr (
    e,
    record {
      fair = s.fair;
      goal = s.goal;
      material = s.material;
      state_ok = s.state_ok;
      below = below;
    },
  )
]

pub go_awarded-Scored : (g : Game) (lp : Seat) → Running g → Scored (emit g (go_awarded lp 1)) lp
unfolding emit reduce add_points
go_awarded-Scored g lp r = record {
  fair = r.fair;
  goal = r.goal;
  material = record {
    once = r.material.once;
    piled = r.material.piled;
    counted = r.material.counted;
  };
  state_ok = record {
    in_play = r.state_ok.in_play;
    undecided = r.state_ok.undecided;
    is_cut = r.state_ok.is_cut;
    four0 = r.state_ok.four0;
    four1 = r.state_ok.four1;
    crib_four = r.state_ok.crib_four;
    count_le = r.state_ok.count_le;
  };
  within = (add_points_bounds g.target g.state lp 1 r.goal).0;
  other_below =
      omega (
        arith,
        (add_points_bounds g.target g.state lp 1 r.goal).1,
        Below-pick g (other lp) r.below,
      );
}

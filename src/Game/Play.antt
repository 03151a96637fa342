-- ===== src/Game/Play.antt =====
-- `afterPlay` of internal/game/game.go: what the engine does after a card.
use cribbager.Common.{
  ◌≡◌, refl, inl, inr, Bool, true, false, ◌==◌, if◌then◌else◌, arith, Bool-cases,
}
use cribbager.Game.Defs.{Seat, seat0, seat1, other, Both, pick, put, pass, go_awarded}
use cribbager.Game.State.{reduce, add_points, can_play, turn, both_hands_empty}
use cribbager.Game.Engine.{
  Game, emit, check_win, after_play, after_pass, reset_unless_won, show_unless_won, resolve_show,
}
use cribbager.Game.Laid.{Good, Laid}
use cribbager.Game.Show.{resolve_show-Inv}
use cribbager.Game.Invariant.{playing, Inv}
use cribbager.Game.Series.{Running, reset-Inv, Running-pass, win-cases, go_awarded-Scored}

Running-Laid : (g : Game) → Running g → both_hands_empty g.state ≡ true → Laid g
Running-Laid g r h = record {
  fair = r.fair;
  goal = r.goal;
  material = r.material;
  is_cut = r.state_ok.is_cut;
  four0 = ground (arith, r.state_ok.four0);
  four1 = ground (arith, r.state_ok.four1);
  crib_four = r.state_ok.crib_four;
}

pub Running-Inv : (g : Game) → Running g → can_play g.state (turn g.state) ≡ true → Inv g
Running-Inv g r h = record {
  fair = r.fair;
  goal = r.goal;
  material = r.material;
  resting = playing r.state_ok r.below h;
}

-- The last player goes on if able; else a go is scored and the series starts anew.
pick-put : (b : Both Bool) (s : Seat) → pick (put b s true) s ≡ true
pick-put b seat0 = refl
pick-put b seat1 = refl

after_pass-Inv :
    (g : Game)
    → Running g
    → both_hands_empty g.state ≡ false
    → pick g.gone (other g.last_player) ≡ true
    → Inv (after_pass g g.last_player)
unfolding after_pass reset_unless_won
after_pass-Inv g r h passed = elim (Bool-cases (can_play g.state g.last_player)) [
  | inl can ↦ rw can (Running-Inv g r (unfold turn in ground arith))
  | inr cannot ↦
      rw cannot
        (elim (win-cases (emit g (go_awarded g.last_player 1)) g.last_player
          (go_awarded-Scored g g.last_player r)) [
            | inl (e, won) ↦ rw e won
            | inr (e, on) ↦ rw e (
                reset-Inv (emit g (go_awarded g.last_player 1)) g.last_player on
                  (unfold emit reduce add_points in h))
          ])
]

-- The last card: its point, and the show.
last_card-Inv :
    (g : Game)
    → Running g
    → both_hands_empty g.state ≡ true
    → Good Inv (
        show_unless_won (
          if g.count == 31
          then (g, false)
          else check_win (emit g (go_awarded g.last_player 1)) g.last_player))
unfolding show_unless_won
last_card-Inv g r empty = elim (Bool-cases (g.count == 31)) [
  | inl full ↦ rw full (show g r empty)
  | inr short ↦
      rw short
        (elim (win-cases (emit g (go_awarded g.last_player 1)) g.last_player
          (go_awarded-Scored g g.last_player r)) [
            | inl (e, won) ↦ rw e won
            | inr (e, on) ↦ rw e (
                show (emit g (go_awarded g.last_player 1)) on
                  (unfold emit reduce add_points in empty))
          ])
]
  where
    show : (k : Game) → Running k → both_hands_empty k.state ≡ true → Good Inv (resolve_show k)
    show k run done_playing =
        resolve_show-Inv k (Running-Laid k run done_playing) run.below run.state_ok.undecided

-- What follows a card in a running game (passes, the go, the reset of a series, the last card, the
-- show and the next deal) is no error and no panic, and leaves a game with the invariant.
pub after_play-Inv : (g : Game) → Running g → Good Inv (after_play g)
unfolding after_play emit reduce
after_play-Inv g r = elim (Bool-cases (both_hands_empty g.state)) [
  | inl empty ↦ rw empty (last_card-Inv g r empty)
  | inr more ↦ rw more (elim (Bool-cases (g.count == 31)) [
    | inl full ↦ rw full (reset-Inv g g.last_player r more)
    | inr short ↦ rw short (elim (Bool-cases (pick g.gone (other g.last_player))) [
      | inl gone ↦ rw gone (after_pass-Inv g r more gone)
      | inr there ↦ rw there (elim (Bool-cases (can_play g.state (other g.last_player))) [
        | inl can ↦ rw can (Running-Inv g r (unfold turn in rw (there, can) can))
        | inr cannot ↦ rw cannot (
            after_pass-Inv (emit g (pass (other g.last_player)))
              (Running-pass g (other g.last_player) r) (unfold emit reduce in more) (passed g))
      ])
    ])
  ])
]
  where
    passed :
        (k : Game)
        → let k' = emit k (pass (other k.last_player)) in pick k'.gone (other k'.last_player) ≡ true
    passed k = unfold emit reduce in pick-put k.gone (other k.last_player)

-- ===== src/Server/Analysis/Kept.antt =====
-- internal/server/analysis2.go: the scores of the walk are the engine's, up to the stop at the target.
use cribbager.Common.{
  ℕ, zero, suc, ◌<◌, ◌≡◌, refl, true, List, [], ◌∷◌, ◌++◌, some, min, length, get_elem?, arith,
}
use cribbager.Game.Defs.{
  Seat, seat0, seat1, Both, Event, hand_dealt, starter_cut, card_played, go_awarded, hand_shown,
  crib_shown, cut_for_deal, handicap, discarded, pass, series_reset, game_won, show_not_counted,
}
use cribbager.Game.Kinds.{in_hand}
use cribbager.Game.State.{State, reduce, clamp, add_points}
use cribbager.Server.Analysis.Walk.{Walk, walk_event, scored}

-- A score that stops at the target, beside the one that does not.
abbrev pub Capped : ℕ → Both ℕ → Both ℕ → Type 0
Capped target x y = (x.at0 ≡ min target y.at0) × (x.at1 ≡ min target y.at1)

pub record Keeps (target : ℕ) (w : Walk) (s : State) : Type 0 where
  pub same_dealer : w.dealer ≡ s.dealer
  pub capped : Capped target s.scores w.scores

scored-Keeps :
    (target : ℕ) (w : Walk) (s : State) (to to' : Seat) (pts : ℕ)
    → 0 < target
    → to ≡ to'
    → Capped target s.scores w.scores
    → Capped target (add_points target s to' pts).scores (scored w to pts).scores
unfolding add_points clamp
scored-Keeps target w s seat0 seat0 pts h e (c0, c1) = (ground arith, c1)
scored-Keeps target w s seat1 seat1 pts h e (c0, c1) = (c0, ground arith)
scored-Keeps target w s seat0 seat1 pts h e c = absurd (ground arith)
scored-Keeps target w s seat1 seat0 pts h e c = absurd (ground arith)

pub walk-Keeps :
    (target : ℕ) (seat : Seat) (w : Walk) (s : State) (e : Event)
    → 0 < target
    → in_hand e ≡ true
    → Keeps target w s
    → Keeps target (walk_event seat w e) (reduce target s e)
unfolding walk_event reduce
walk-Keeps target seat w s (cut_for_deal cuts d) h i k = cc
walk-Keeps target seat w s (handicap scores) h i k = cc
walk-Keeps target seat w s (hand_dealt d hands) h i k = record {
  same_dealer = refl;
  capped = k.capped;
}
walk-Keeps target seat w s (discarded x c d) h i k = record {
  same_dealer = k.same_dealer;
  capped = k.capped;
}
walk-Keeps target seat w s (starter_cut c heels) h i k = record {
  same_dealer = unfold add_points in k.same_dealer;
  capped =
      unfold add_points in scored-Keeps target w s w.dealer s.dealer heels h k.same_dealer k.capped;
}
walk-Keeps target seat w s (card_played x c score) h i k = record {
  same_dealer = unfold add_points in k.same_dealer;
  capped = unfold add_points in scored-Keeps target w s x x score.total h refl k.capped;
}
walk-Keeps target seat w s (pass x) h i k = record {
  same_dealer = k.same_dealer;
  capped = k.capped;
}
walk-Keeps target seat w s (go_awarded x points) h i k = record {
  same_dealer = unfold add_points in k.same_dealer;
  capped = scored-Keeps target w s x x points h refl k.capped;
}
walk-Keeps target seat w s (series_reset x) h i k = record {
  same_dealer = k.same_dealer;
  capped = k.capped;
}
walk-Keeps target seat w s (hand_shown x cards score) h i k = record {
  same_dealer = unfold add_points in k.same_dealer;
  capped = scored-Keeps target w s x x score.total h refl k.capped;
}
walk-Keeps target seat w s (crib_shown cards score) h i k = record {
  same_dealer = unfold add_points in k.same_dealer;
  capped = scored-Keeps target w s w.dealer s.dealer score.total h k.same_dealer k.capped;
}
walk-Keeps target seat w s (game_won x) h i k = record {
  same_dealer = k.same_dealer;
  capped = k.capped;
}
walk-Keeps target seat w s (show_not_counted x cards c) h i k = k

pub get_elem-append :
    (xs ys : List (Both ℕ)) (i : ℕ) (x : Both ℕ)
    → get_elem? xs i ≡ some x
    → get_elem? (xs ++ ys) i ≡ some x
get_elem-append [] ys i x h = cc
get_elem-append (y ∷ xs) ys zero x h = h
get_elem-append (y ∷ xs) ys (suc i) x h = get_elem-append xs ys i x h

pub get_elem-last :
    (xs : List (Both ℕ)) (x : Both ℕ) → get_elem? (xs ++ x ∷ []) (length xs) ≡ some x
get_elem-last [] x = refl
get_elem-last (y ∷ xs) x = get_elem-last xs x

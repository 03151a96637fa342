-- ===== src/Game/Laid.antt =====
-- The table at the show, and what an award and the check for a win do to it.
use cribbager.Common.{
  ℕ, ◌+◌, ◌≤◌, ◌<◌, ◌≡◌, refl, ◌⊎◌, inl, inr, Bool, true, false, List, [], ◌∷◌, none, length, arith,
}
use cribbager.Cribbage.Defs.{Card}
use cribbager.Cribbage.Occurrences.{occ}
use cribbager.Hand.Defs.{HandResult, Four, sum_total, itemize}
use cribbager.Hand.Legality.{score-Distinct}
use cribbager.Game.Defs.{Seat, seat0, seat1, other, pick, hand_shown, crib_shown, game_won}
use cribbager.Game.State.{State, reduce, clamp, add_points}
use cribbager.Game.Engine.{
  ◌>>=◌, Game, Outcome, done, failed, panicked, emit, check_win, must_hand_score,
}
use cribbager.Game.Invariant.{Material, Below, Won, IsFair}

-- A result, with no error and no panic, of which `P` holds.
abbrev pub Good {ℓ} : {A : Type ℓ} → (A → Type 0) → Outcome A → Type 0
Good P (done a) = P a
Good P (failed e g) = ⊥
Good P panicked = ⊥

pub Good-done {ℓ} :
    {A : Type ℓ} (P : A → Type 0) (m : Outcome A) → Good P m → (a : A) × (m ≡ done a) × P a
Good-done P (done a) h = (a, refl, h)
Good-done P (failed e g) h = absurd h
Good-done P panicked h = absurd h

pub Good-bind {ℓ κ} :
    {A : Type ℓ} {B : Type κ} (P : A → Type 0) (Q : B → Type 0) (m : Outcome A) (f : A → Outcome B)
    → Good P m
    → ((a : A) → P a → Good Q (f a))
    → Good Q (m >>= f)
Good-bind P Q (done a) f h k = k a h
Good-bind P Q (failed e g) f h k = h
Good-bind P Q panicked f h k = h

pub must_hand_score-done :
    (cards : List Card) (starter : Card) (is_crib : Bool)
    → length cards ≡ 4
    → ((c : Card) → occ c cards + occ c (starter ∷ []) ≤ 1)
    → (r : HandResult) × (must_hand_score cards starter is_crib ≡ done r)
unfolding must_hand_score
must_hand_score-done [] starter is_crib h d = cc
must_hand_score-done (a ∷ []) starter is_crib h d = absurd (omega arith)
must_hand_score-done (a ∷ b ∷ []) starter is_crib h d = absurd (omega arith)
must_hand_score-done (a ∷ b ∷ c ∷ []) starter is_crib h d = absurd (omega arith)
must_hand_score-done (a ∷ b ∷ c ∷ e ∷ []) starter is_crib h d =
    let h4 : Four = record { c0 = a; c1 = b; c2 = c; c3 = e } in
    (
      sum_total (itemize h4 starter is_crib),
      rw (score-Distinct h4 starter is_crib (λ x. omega (arith, d x))),
    )
must_hand_score-done (a ∷ b ∷ c ∷ e ∷ f ∷ more) starter is_crib h d = absurd (omega arith)

-- A check for a win after an award: either the seat stands on the target, or nobody does.
pub check_win-cases :
    (g : Game) (seat : Seat)
    → g.winner ≡ none
    → pick g.scores seat ≤ g.target
    → pick g.scores (other seat) < g.target
    → ((check_win g seat ≡ (emit g (game_won seat), true)) × Won (emit g (game_won seat)) seat)
      ⊎ ((check_win g seat ≡ (g, false)) × Below g)
unfolding check_win emit reduce
check_win-cases g seat0 w le lt = ground arith
check_win-cases g seat1 w le lt = ground arith

-- The table at the show: four cards before each player, four in the crib, and the starter.
pub record Laid (g : Game) : Type 0 where
  pub fair : IsFair g.src
  pub goal : 0 < g.target
  pub material : Material g
  pub is_cut : g.has_starter ≡ true
  pub four0 : length g.played.at0 ≡ 4
  pub four1 : length g.played.at1 ≡ 4
  pub crib_four : length g.crib ≡ 4

-- The show so far, and whether the game has ended.
abbrev pub Shown : Game × Bool → Type 0
Shown (g, true) = Laid g × (w : Seat) × Won g w
Shown (g, false) = Laid g × Below g × (g.winner ≡ none)

Laid-game_won : (g : Game) (w : Seat) → Laid g → Laid (emit g (game_won w))
unfolding emit reduce
Laid-game_won g w l = record {
  fair = l.fair;
  goal = l.goal;
  material = record {
    once = l.material.once;
    piled = l.material.piled;
    counted = l.material.counted;
  };
  is_cut = l.is_cut;
  four0 = l.four0;
  four1 = l.four1;
  crib_four = l.crib_four;
}

pub check_win-Shown :
    (g : Game) (seat : Seat)
    → Laid g
    → g.winner ≡ none
    → pick g.scores seat ≤ g.target
    → pick g.scores (other seat) < g.target
    → Shown (check_win g seat)
check_win-Shown g seat l w le lt = elim (check_win-cases g seat w le lt) [
  | inl (e, won) ↦ rw e (Laid-game_won g seat l, seat, won)
  | inr (e, below) ↦ rw e (l, below, w)
]

clamp-le : (target n : ℕ) → 0 < target → clamp target n ≤ target
unfolding clamp
clamp-le target n h = ground arith

-- An award keeps the score within the target and leaves the other score alone.
pub add_points_bounds :
    (target : ℕ) (s : State) (seat : Seat) (pts : ℕ)
    → 0 < target
    → (pick (add_points target s seat pts).scores seat ≤ target)
      × (pick (add_points target s seat pts).scores (other seat) ≡ pick s.scores (other seat))
unfolding add_points
add_points_bounds target s seat0 pts h = (clamp-le target (s.scores.at0 + pts) h, refl)
add_points_bounds target s seat1 pts h = (clamp-le target (s.scores.at1 + pts) h, refl)

pub Below-pick : (g : Game) (seat : Seat) → Below g → pick g.scores seat < g.target
Below-pick g seat0 b = b.below0
Below-pick g seat1 b = b.below1

pub Laid-hand_shown :
    (g : Game) (seat : Seat) (cards : List Card) (r : HandResult)
    → Laid g
    → Laid (emit g (hand_shown seat cards r))
unfolding emit reduce
Laid-hand_shown g seat cards r l = record {
  fair = l.fair;
  goal = l.goal;
  material = record {
    once = l.material.once;
    piled = l.material.piled;
    counted = l.material.counted;
  };
  is_cut = l.is_cut;
  four0 = l.four0;
  four1 = l.four1;
  crib_four = l.crib_four;
}

pub Laid-crib_shown :
    (g : Game) (cards : List Card) (r : HandResult) → Laid g → Laid (emit g (crib_shown cards r))
unfolding emit reduce
Laid-crib_shown g cards r l = record {
  fair = l.fair;
  goal = l.goal;
  material = record {
    once = l.material.once;
    piled = l.material.piled;
    counted = l.material.counted;
  };
  is_cut = l.is_cut;
  four0 = l.four0;
  four1 = l.four1;
  crib_four = l.crib_four;
}

pub played_four : (g : Game) (seat : Seat) → Laid g → length (pick g.played seat) ≡ 4
played_four g seat0 l = l.four0
played_four g seat1 l = l.four1

-- A player's four cards and the starter are all different.
pub played_once :
    (g : Game) (seat : Seat) (c : Card)
    → Laid g
    → occ c (pick g.played seat) + occ c (g.starter ∷ []) ≤ 1
played_once g seat0 c l = ground (arith, l.material.once c, l.is_cut)
played_once g seat1 c l = ground (arith, l.material.once c, l.is_cut)

pub crib_once : (g : Game) (c : Card) → Laid g → occ c g.crib + occ c (g.starter ∷ []) ≤ 1
crib_once g c l = ground (arith, l.material.once c, l.is_cut)

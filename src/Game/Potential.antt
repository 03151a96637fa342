-- ===== src/Game/Potential.antt =====
-- How the events of internal/game move the scores and the hands, and the potential of a game: what
-- is left to score, thirteen times over, and the cards in hand.
use cribbager.Common.{
  ℕ, ◌+◌, ◌-◌, ◌*◌, ◌≤◌, ◌<◌, ◌≡◌, refl, true, List, [], ◌∷◌, length, arith, ap, ◌∙◌,
}
use cribbager.Game.Defs.{
  Seat, seat0, seat1, pick, Event, cut_for_deal, handicap, hand_dealt, discarded, card_played,
  starter_cut, pass, go_awarded, series_reset, hand_shown, crib_shown, game_won, show_not_counted,
}
use cribbager.Game.State.{State, reduce, fold, add_points, clamp}
use cribbager.Game.Kinds.{in_hand, calm, every}
use cribbager.Game.Log.{Grows}
use cribbager.Game.Engine.{Game}

abbrev pub sum_scores : State → ℕ
sum_scores s = s.scores.at0 + s.scores.at1

abbrev pub cards_held : State → ℕ
cards_held s = length s.hands.at0 + length s.hands.at1

abbrev pub potential : Game → ℕ
potential g = (2 * g.target - sum_scores g.state) * 13 + cards_held g.state

-- Both scores within the target.
pub record Capped (target : ℕ) (s : State) : Type 0 where
  pub cap0 : s.scores.at0 ≤ target
  pub cap1 : s.scores.at1 ≤ target

-- Later scores of the same game.
pub record Rises (target : ℕ) (s s' : State) : Type 0 where
  pub capped : Capped target s'
  pub rise0 : s.scores.at0 ≤ s'.scores.at0
  pub rise1 : s.scores.at1 ≤ s'.scores.at1

-- An award to a state whose scores are those of `s`.
award-Rises :
    (target : ℕ) (s k : State) (seat : Seat) (pts : ℕ)
    → 0 < target
    → Capped target s
    → k.scores ≡ s.scores
    → Rises target s (add_points target k seat pts)
unfolding add_points clamp
award-Rises target s k seat0 pts h c e = ground arith
award-Rises target s k seat1 pts h c e = ground arith

-- A point is a point, below the target.
pub award-lt :
    (target : ℕ) (s k : State) (seat : Seat) (pts : ℕ)
    → pick s.scores seat < target
    → k.scores ≡ s.scores
    → 0 < pts
    → sum_scores s < sum_scores (add_points target k seat pts)
unfolding add_points clamp
award-lt target s k seat0 pts h e c = ground arith
award-lt target s k seat1 pts h e c = ground arith

same-Rises :
    (target : ℕ) (s s' : State) → Capped target s → s'.scores ≡ s.scores → Rises target s s'
same-Rises target s s' c e = ground arith

pub reduce-Rises :
    (target : ℕ) (s : State) (e : Event)
    → 0 < target
    → Capped target s
    → in_hand e ≡ true
    → Rises target s (reduce target s e)
unfolding reduce
reduce-Rises target s (cut_for_deal a b) h c i = cc
reduce-Rises target s (handicap a) h c i = cc
reduce-Rises target s (hand_dealt a b) h c i = same-Rises target s _ c refl
reduce-Rises target s (discarded a b d) h c i = same-Rises target s _ c refl
reduce-Rises target s (starter_cut a heels) h c i = award-Rises target s _ s.dealer heels h c refl
reduce-Rises target s (card_played seat a r) h c i = award-Rises target s _ seat r.total h c refl
reduce-Rises target s (pass a) h c i = same-Rises target s _ c refl
reduce-Rises target s (go_awarded a b) h c i = award-Rises target s s a b h c refl
reduce-Rises target s (series_reset a) h c i = same-Rises target s _ c refl
reduce-Rises target s (hand_shown a b r) h c i = award-Rises target s s a r.total h c refl
reduce-Rises target s (crib_shown a r) h c i = award-Rises target s s s.dealer r.total h c refl
reduce-Rises target s (game_won a) h c i = same-Rises target s _ c refl
reduce-Rises target s (show_not_counted a b d) h c i = same-Rises target s _ c refl

pub fold-Rises :
    (target : ℕ) (s : State) (es : List Event)
    → 0 < target
    → Capped target s
    → every in_hand es ≡ true
    → Rises target s (fold target s es)
unfolding fold
fold-Rises target s [] h c i = record { capped = c; rise0 = omega arith; rise1 = omega arith }
fold-Rises target s (e ∷ es) h c i =
    let first : Rises target s (reduce target s e) = reduce-Rises target s e h c (ground arith) in
    let later : Rises target (reduce target s e) (fold target (reduce target s e) es) =
      fold-Rises target (reduce target s e) es h first.capped (ground arith) in
    record {
      capped = later.capped;
      rise0 = omega (arith, first.rise0, later.rise0);
      rise1 = omega (arith, first.rise1, later.rise1);
    }

pub Grows-Rises :
    (g g' : Game)
    → 0 < g.target
    → Capped g.target g.state
    → Grows in_hand g g'
    → Rises g.target g.state g'.state
Grows-Rises g g' h c r = rw r.folded (fold-Rises g.target g.state r.events h c r.only)

-- Within a deal, and between two moves, the hands stay.
reduce-calm :
    (target : ℕ) (s : State) (e : Event) → calm e ≡ true → (reduce target s e).hands ≡ s.hands
unfolding reduce add_points
reduce-calm target s (cut_for_deal a b) i = cc
reduce-calm target s (handicap a) i = cc
reduce-calm target s (hand_dealt a b) i = cc
reduce-calm target s (discarded a b c) i = cc
reduce-calm target s (starter_cut a b) i = refl
reduce-calm target s (card_played a b c) i = cc
reduce-calm target s (pass a) i = refl
reduce-calm target s (go_awarded a b) i = refl
reduce-calm target s (series_reset a) i = refl
reduce-calm target s (hand_shown a b c) i = refl
reduce-calm target s (crib_shown a b) i = refl
reduce-calm target s (game_won a) i = refl
reduce-calm target s (show_not_counted a b c) i = refl

fold-calm :
    (target : ℕ) (s : State) (es : List Event)
    → every calm es ≡ true
    → (fold target s es).hands ≡ s.hands
unfolding fold
fold-calm target s [] i = refl
fold-calm target s (e ∷ es) i =
    fold-calm target (reduce target s e) es (ground arith) ∙ reduce-calm target s e (ground arith)

pub Grows-calm : (g g' : Game) → Grows calm g g' → g'.hands ≡ g.hands
Grows-calm g g' r = ap (λ s. s.hands) r.folded ∙ fold-calm g.target g.state r.events r.only

-- ===== src/Bot/Unseen.antt =====
-- internal/bot/eval: the cards that a seat cannot see (`unseen` of pegging.go, and the pool of
-- belief.go) and the size of the opponent's hand (oppmodel.go).
use cribbager.Common.{
  ℕ, ◌+◌, ◌≡◌, refl, ap, Bool, true, false, ◌&&◌, List, [], ◌∷◌, Option, none, some, if◌then◌else◌,
  ltb, ◌||◌, ◌≤◌, arith, ◌∙◌, length, Bool-cases, inl, inr,
}
use cribbager.Common.Int.{ℤ, pos, sub_ℕ}
use cribbager.Cribbage.Defs.{Card, card_eq, deck, rank_valid, suit_valid}
use cribbager.Cribbage.Occurrences.{occ, card_eq_iff}
use cribbager.Cribbage.Decks.{occ-deck}
use cribbager.Pegging.Legality.{contains-occ}
use cribbager.Game.Defs.{Seat, seat0, seat1, other, pick}
use cribbager.Game.Engine.{Game}
use cribbager.Game.View.{PlayerView, view}
use cribbager.Game.Invariant.{everywhere, Inv, Playing, cut_cards}
use cribbager.Bot.Splits.{remaining, not_in, in_some}

abbrev pub card_list : Option Card → List Card
card_list none = []
card_list (some c) = c ∷ []

-- `unseen`
unfoldable pub unseen : PlayerView → List Card
unfolding remaining
unseen v =
    remaining (v.your_hand ∷ v.pile ∷ v.your_played ∷ v.opponent_played ∷ card_list v.starter ∷ [])

-- The pool of `calibratedBelief`: the seat's own throw is taken out.
unfoldable pub belief_pool : PlayerView → List Card
unfolding unseen not_in
belief_pool v = elim v.your_discards [
  | none ↦ unseen v
  | some (c, d) ↦ not_in ((c ∷ d ∷ []) ∷ []) (unseen v)
]

-- `oppHandSize`
unfoldable pub opp_hand_size : PlayerView → ℤ
opp_hand_size v = sub_ℕ (length v.your_hand + length v.your_played) (length v.opponent_played)

-- In the filtered list a card stands as often as before, or not at all if it is in a set.
occ-not_in :
    (sets : List (List Card)) (xs : List Card) (c : Card)
    → occ c (not_in sets xs) ≡ (if in_some sets c then 0 else occ c xs)
unfolding not_in
occ-not_in sets [] c = ground arith
occ-not_in sets (x ∷ xs) c = elim (Bool-cases (card_eq x c)) [
  | inl e ↦
      let same : x ≡ c = (card_eq_iff x c).0 e in
      ground (arith, occ-not_in sets xs c, ap (in_some sets) same)
  | inr e ↦ ground (arith, occ-not_in sets xs c)
]

-- The cards that a seat does not see of a game: the other hand, the crib and the stock.
abbrev pub hidden : Card → Game → Seat → ℕ
hidden c g seat = occ c (pick g.hands (other seat)) + occ c g.crib + occ c g.rest

in_some-occ :
    (c : Card) (a b d e f : List Card)
    → in_some (a ∷ b ∷ d ∷ e ∷ f ∷ []) c ≡ (
        ltb 0 (occ c a)
        || (ltb 0 (occ c b)
            || (ltb 0 (occ c d) || (ltb 0 (occ c e) || (ltb 0 (occ c f) || false)))))
unfolding in_some
in_some-occ c a b d e f =
    rw (contains-occ a c, contains-occ b c, contains-occ d c, contains-occ e c, contains-occ f c)
      refl

occ-card_list :
    (c : Card) (has : Bool) (s : Card)
    → occ c (card_list (if has then some s else none)) ≡ occ c (cut_cards has s)
occ-card_list c true s = refl
occ-card_list c false s = refl

-- A card that lies in one place, of which `a`, `d`, `e` and `f` are seen and `h` is not.
one_place :
    (a b d e f h : ℕ)
    → a + d + e + f + h ≡ 1
    → b ≤ d + e
    → (if ltb 0 a || (ltb 0 b || (ltb 0 d || (ltb 0 e || (ltb 0 f || false)))) then 0 else 1) ≡ h
one_place a b d e f h one piled = ground arith

occ-unseen :
    (v : PlayerView) (c : Card) (h : ℕ)
    → rank_valid c.rank && suit_valid c.suit ≡ true
    → occ c v.your_hand
        + occ c v.your_played
        + occ c v.opponent_played
        + occ c (card_list v.starter)
        + h
      ≡ 1
    → occ c v.pile ≤ occ c v.your_played + occ c v.opponent_played
    → occ c (unseen v) ≡ h
unfolding unseen remaining
occ-unseen v c h real one piled =
    occ-not_in (v.your_hand ∷ v.pile ∷ v.your_played ∷ v.opponent_played ∷ card_list v.starter ∷ [])
      deck c
    ∙ rw
        (
          in_some-occ c v.your_hand v.pile v.your_played v.opponent_played (card_list v.starter),
          occ-deck c,
          real,
        )
        (one_place (occ c v.your_hand) (occ c v.pile) (occ c v.your_played)
          (occ c v.opponent_played) (occ c (card_list v.starter)) h one piled)

-- In a game with the invariant, a card of the deck that lies in one place of the game stands among the
-- cards that the seat's evaluator takes for unseen as often as in the other player's hand, the crib and
-- the stock: once if it lies there, and not at all if the seat holds it or it lies open.
pub occ-unseen-hidden :
    (g : Game) (seat : Seat) (c : Card)
    → Inv g
    → (rank_valid c.rank && suit_valid c.suit) ≡ true
    → everywhere c g ≡ 1
    → occ c (unseen (view g seat)) ≡ hidden c g seat
unfolding view
occ-unseen-hidden g seat0 c v real one =
    let starter = occ-card_list c g.has_starter g.starter in
    occ-unseen (view g seat0) c (hidden c g seat0) real (omega (arith, one, starter))
      (omega (arith, v.material.piled c))
occ-unseen-hidden g seat1 c v real one =
    let starter = occ-card_list c g.has_starter g.starter in
    occ-unseen (view g seat1) c (hidden c g seat1) real (omega (arith, one, starter))
      (omega (arith, v.material.piled c))

-- In the play the evaluator has the size of the other player's hand right.
pub opp_hand_size-view :
    (g : Game) (seat : Seat)
    → Playing g
    → opp_hand_size (view g seat) ≡ pos (length (pick g.hands (other seat)))
unfolding opp_hand_size view
opp_hand_size-view g seat0 p = ground (arith, p.four0, p.four1)
opp_hand_size-view g seat1 p = ground (arith, p.four0, p.four1)

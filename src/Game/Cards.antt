-- ===== src/Game/Cards.antt =====
-- How the slice helpers of the engine move cards.
use cribbager.Common.{
  ℕ, zero, suc, ◌+◌, ◌*◌, ◌≤◌, ◌≡◌, refl, true, false, List, [], ◌∷◌, ◌++◌, some, if◌then◌else◌,
  length, arith,
}
use cribbager.Cribbage.Defs.{Card, card_eq, pip_value}
use cribbager.Cribbage.Occurrences.{occ, card_eq_iff}
use cribbager.Pegging.Defs.{contains, running_count}
use cribbager.Game.State.{without, any_playable}
use cribbager.Game.Engine.{deal_cards}

-- A card that is held leaves once.
pub occ-without :
    (xs : List Card) (d c : Card)
    → contains xs d ≡ true
    → occ c xs ≡ occ c (without xs d) + (if card_eq d c then 1 else 0)
unfolding without contains
occ-without [] d c h = cc
occ-without (x ∷ xs) d c h =
    ground (arith, occ-without xs d c, card_eq_iff x d, card_eq_iff x c, card_eq_iff d c)

pub length-without :
    (xs : List Card) (d : Card) → contains xs d ≡ true → length xs ≡ length (without xs d) + 1
unfolding without contains
length-without [] d h = cc
length-without (x ∷ xs) d h = ground (arith, length-without xs d)

-- Another card stays.
pub contains-without :
    (xs : List Card) (d c : Card) → card_eq c d ≡ false → contains (without xs c) d ≡ contains xs d
unfolding without contains
contains-without [] d c h = refl
contains-without (x ∷ xs) d c h =
    ground (arith, contains-without xs d c h, card_eq_iff x d, card_eq_iff x c, card_eq_iff c d)

-- At a count of 0 every card can be played.
pub any_playable-zero : (x : Card) (xs : List Card) → any_playable 0 (x ∷ xs) ≡ true
unfolding any_playable
any_playable-zero x xs = ground arith

pub running_count-append :
    (xs : List Card) (c : Card) → running_count (xs ++ c ∷ []) ≡ running_count xs + pip_value c.rank
unfolding running_count
running_count-append [] c = omega arith
running_count-append (x ∷ xs) c = omega (arith, running_count-append xs c)

-- The deal splits the deck in three, and makes and loses no card.
pub deal_cards_lem :
    (n : ℕ) (d : List Card)
    → 2 * n ≤ length d
    → (p : List Card) × (q : List Card) × (rest : List Card) × (deal_cards n d ≡ some (p, q, rest))
      × (length p ≡ n)
      × (length q ≡ n)
      × (length rest + 2 * n ≡ length d)
      × ((c : Card) → occ c p + occ c q + occ c rest ≡ occ c d)
unfolding deal_cards
deal_cards_lem zero d h = ([], [], d, refl, refl, refl, omega arith, λ c. omega arith)
deal_cards_lem (suc n) [] h = absurd (omega arith)
deal_cards_lem (suc n) (a ∷ []) h = absurd (omega arith)
deal_cards_lem (suc n) (a ∷ b ∷ d) h =
    let (p, q, rest, e, lp, lq, lr, o) = deal_cards_lem n d (omega arith) in
    (a ∷ p, b ∷ q, rest, rw e, omega arith, omega arith, omega arith, λ c. omega (arith, o c))

-- ===== src/Cribbage/Occurrences.antt =====
-- How often a card occurs in a list of cards: the view in which cards are neither made nor lost.
use cribbager.Common.{ℕ, ◌+◌, ◌≤◌, ◌≡◌, ◌↔◌, true, List, [], ◌∷◌, ◌++◌, if◌then◌else◌, arith}
use cribbager.Cribbage.Defs.{Card, card_eq}

abbrev pub occ : Card → List Card → ℕ
occ c [] = 0
occ c (x ∷ xs) = (if card_eq x c then 1 else 0) + occ c xs

pub card_eq_iff : (a b : Card) → (card_eq a b ≡ true) ↔ (a ≡ b)
card_eq_iff a b = ground arith

pub card_eq_refl : (a : Card) → card_eq a a ≡ true
card_eq_refl a = ground arith

pub occ-append : (c : Card) (xs ys : List Card) → occ c (xs ++ ys) ≡ occ c xs + occ c ys
occ-append c [] ys = omega arith
occ-append c (x ∷ xs) ys = omega (arith, occ-append c xs ys)

-- No card stands twice.
abbrev pub Distinct : List Card → Type 0
Distinct xs = (c : Card) → occ c xs ≤ 1

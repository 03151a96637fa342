-- ===== src/Hand/Legality.antt =====
-- internal/scoring/hand/score.go: on which cards the hand scorer fails.
use cribbager.Common.{
  ◌<◌, ◌≡◌, ◌⊎◌, inl, inr, Bool, List, [], ◌∷◌, arith, Option-cases, none, some, Fallible, ok, err,
}
use cribbager.Cribbage.Defs.{Card}
use cribbager.Cribbage.Occurrences.{occ, Distinct, card_eq_iff, card_eq_refl}
use cribbager.Pegging.Legality.{contains-occ}
use cribbager.Hand.Defs.{
  Four, HandError, HandResult, duplicate_card, check_distinct, five_of, score, sum_total, itemize,
}

check_distinct-some :
    (cards : List Card) (c : Card)
    → check_distinct cards ≡ some (duplicate_card c)
    → 1 < occ c cards
unfolding check_distinct
check_distinct-some [] c h = cc
check_distinct-some (x ∷ xs) c h =
    ground (arith, contains-occ xs x, card_eq_refl x, check_distinct-some xs c)

check_distinct-none : (cards : List Card) → check_distinct cards ≡ none → Distinct cards
unfolding check_distinct
check_distinct-none [] h c = omega arith
check_distinct-none (x ∷ xs) h c = ground (
  arith,
  contains-occ xs x,
  card_eq_iff x c,
  λ (e : check_distinct xs ≡ none). check_distinct-none xs e c,
)

pub check_distinct-Distinct : (cards : List Card) → Distinct cards → check_distinct cards ≡ none
check_distinct-Distinct cards d = elim (Option-cases (check_distinct cards)) [
  | inl e ↦ e
  | inr (duplicate_card c, e) ↦ absurd (omega (arith, d c, check_distinct-some cards c e))
]

-- What each outcome says of the five cards: a breakdown means that they are all different, an error
-- names a card that stands twice.
abbrev pub Explains : List Card → Fallible HandError HandResult → Type 0
Explains cards (ok r) = Distinct cards
Explains cards (err (duplicate_card c)) = 1 < occ c cards

-- Five cards that are all different always get their breakdown.
pub score-Distinct :
    (h : Four) (starter : Card) (is_crib : Bool)
    → Distinct (five_of h starter)
    → score h starter is_crib ≡ ok (sum_total (itemize h starter is_crib))
unfolding score
score-Distinct h starter is_crib d = rw (check_distinct-Distinct (five_of h starter) d)

-- The hand scorer's outcome on any five cards: a breakdown is given only when they are all
-- different, and the error names a card that stands at least twice among them.
pub hand-Explains :
    (h : Four) (starter : Card) (is_crib : Bool)
    → Explains (five_of h starter) (score h starter is_crib)
unfolding score
hand-Explains h starter is_crib = explain (Option-cases (check_distinct (five_of h starter)))
  where
    explain :
        (check_distinct (five_of h starter) ≡ none)
          ⊎ ((e : HandError) × (check_distinct (five_of h starter) ≡ some e))
        → Explains (five_of h starter) (score h starter is_crib)
    explain (inl v) = rw v (check_distinct-none (five_of h starter) v)
    explain (inr (duplicate_card c, v)) = rw v (check_distinct-some (five_of h starter) c v)

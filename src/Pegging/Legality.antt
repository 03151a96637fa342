-- ===== src/Pegging/Legality.antt =====
-- internal/scoring/pegging/score.go: which plays the scorer accepts, and its errors for the others.
use cribbager.Common.{
  ◌+◌, ◌≤◌, ◌<◌, ◌≡◌, refl, ◌⊎◌, inl, inr, List, [], ◌∷◌, arith, Option-cases, none, some, ltb,
  Fallible, ok, err,
}
use cribbager.Cribbage.Defs.{Card, pip_value}
use cribbager.Cribbage.Occurrences.{occ, Distinct, card_eq_iff, card_eq_refl}
use cribbager.Pegging.Defs.{
  PegError, PegResult, count_exceeds_31, duplicate_card, contains, find_duplicate, validate,
  running_count, score, itemize, sum_total,
}

-- `contains` finds exactly the cards that occur.
pub contains-occ : (xs : List Card) (c : Card) → contains xs c ≡ ltb 0 (occ c xs)
unfolding contains
contains-occ [] c = refl
contains-occ (x ∷ xs) c = ground (arith, contains-occ xs c)

find_duplicate-none :
    (series : List Card) (card : Card)
    → find_duplicate series card ≡ none
    → Distinct (card ∷ series)
unfolding find_duplicate
find_duplicate-none [] card h c = ground arith
find_duplicate-none (x ∷ xs) card h c = ground (
  arith,
  contains-occ xs x,
  card_eq_iff x card,
  card_eq_iff x c,
  card_eq_iff card c,
  λ (e : find_duplicate xs card ≡ none). find_duplicate-none xs card e c,
)

find_duplicate-some :
    (series : List Card) (card d : Card)
    → find_duplicate series card ≡ some d
    → 1 < occ d (card ∷ series)
unfolding find_duplicate
find_duplicate-some [] card d h = cc
find_duplicate-some (x ∷ xs) card d h = ground (
  arith,
  contains-occ xs x,
  card_eq_iff x card,
  card_eq_refl x,
  card_eq_refl card,
  find_duplicate-some xs card d,
)

-- The play that the rules allow: all cards differ, and the count does not pass 31.
abbrev pub IsLegal : List Card → Card → Type 0
IsLegal series card = Distinct (card ∷ series) × (running_count series + pip_value card.rank ≤ 31)

find_duplicate-Distinct :
    (series : List Card) (card : Card)
    → Distinct (card ∷ series)
    → find_duplicate series card ≡ none
find_duplicate-Distinct series card d = elim (Option-cases (find_duplicate series card)) [
  | inl e ↦ e
  | inr (c, e) ↦ absurd (omega (arith, d c, find_duplicate-some series card c e))
]

pub validate-IsLegal :
    (series : List Card) (card : Card) → IsLegal series card → validate series card ≡ none
unfolding validate
validate-IsLegal series card (d, le) = ground (arith, find_duplicate-Distinct series card d)

pub validate-none :
    (series : List Card) (card : Card) → validate series card ≡ none → IsLegal series card
unfolding validate
validate-none series card h = elim (Option-cases (find_duplicate series card)) [
  | inl e ↦ (find_duplicate-none series card e, ground arith)
  | inr (c, e) ↦ absurd (ground arith)
]

-- What each outcome of `Score` says of the play: a breakdown means that the play is legal, a
-- duplicate error names a card that stands twice, and the count error means that the cards differ
-- but the count would pass 31.
abbrev pub Explains : List Card → Card → Fallible PegError PegResult → Type 0
Explains series card (ok r) = IsLegal series card × (r.count ≤ 31)
Explains series card (err (duplicate_card c)) = 1 < occ c (card ∷ series)
Explains series card (err count_exceeds_31) =
    Distinct (card ∷ series) × (31 < running_count series + pip_value card.rank)

validate-some :
    (series : List Card) (card : Card) (e : PegError)
    → validate series card ≡ some e
    → Explains series card (err e)
unfolding validate
validate-some series card (duplicate_card d) h = elim (Option-cases (find_duplicate series card)) [
  | inl e ↦ absurd (ground arith)
  | inr (c, e) ↦ find_duplicate-some series card d (ground arith)
]
validate-some series card count_exceeds_31 h = elim (Option-cases (find_duplicate series card)) [
  | inl e ↦ (find_duplicate-none series card e, ground arith)
  | inr (c, e) ↦ absurd (ground arith)
]

-- A legal play always gets its breakdown.
pub score-IsLegal :
    (series : List Card) (card : Card)
    → IsLegal series card
    → score series card ≡ ok (sum_total (itemize series card))
unfolding score
score-IsLegal series card l = rw (validate-IsLegal series card l)

-- The pegging scorer's outcome on any series and any card: a breakdown means that the play is legal
-- (all cards differ and the count stays within 31) and its count is at most 31; a duplicate error
-- names a card that stands twice; the count error means that the cards differ but the count would
-- pass 31.
pub play-Explains : (series : List Card) (card : Card) → Explains series card (score series card)
unfolding score
play-Explains series card = explain (Option-cases (validate series card))
  where
    explain :
        (validate series card ≡ none) ⊎ ((e : PegError) × (validate series card ≡ some e))
        → Explains series card (score series card)
    explain (inl v) =
        rw v
          (validate-none series card v, unfold sum_total itemize in (validate-none series card v).1)
    explain (inr (e, v)) = rw v (validate-some series card e v)

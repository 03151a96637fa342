-- ===== src/Tests/Cards.antt =====
-- Witnesses on single cards, pegging plays and hands.
use cribbager.Common.{ℕ, ◌≡◌, refl, false, List, [], ◌∷◌, arith, ok, err}
use cribbager.Cribbage.Defs.{rank_valid, Card, good, card_string, parse_card}
use cribbager.Cribbage.Occurrences.{Distinct}
use cribbager.Cribbage.Notation.{parse_card-card_string}
use cribbager.Pegging.Defs
use cribbager.Pegging.Equivalence.{play_total-score}
use cribbager.Pegging.Legality.{Explains, IsLegal, play-Explains}
use cribbager.Hand.Defs as HandDefs
use cribbager.Hand.Defs.{Four, five_of, sum_ranks, rank_count, run_points, best_run}
use cribbager.Hand.Equivalence.{hand_total-score}

abbrev card : ℕ → ℕ → Card
card r s = record { rank = r; suit = s }

-- The jack of clubs, and its text.
parse_card-card_string_example :
    parse_card (card_string (record { rank = 11; suit = 0 }))
    ≡ good (record { rank = 11; suit = 0 })
parse_card-card_string_example =
    parse_card-card_string (record { rank = 11; suit = 0 }) (omega arith, omega arith, omega arith)

-- A run of three at a count of 15, reached with the 5 played last.
abbrev series : List Card
series = card 6 0 ∷ card 4 1 ∷ []

play_total-score_example :
    Defs.total series (card 5 2)
    ≡ (elim (Defs.score series (card 5 2)) [ ok r ↦ ok r.total | err e ↦ err e ])
play_total-score_example = play_total-score series (card 5 2)

play-Explains_example : Explains series (card 5 2) (Defs.score series (card 5 2))
play-Explains_example = play-Explains series (card 5 2)

-- The cards differ, and 6 + 4 + 5 stays within 31.
series-IsLegal : IsLegal series (card 5 2)
unfolding Defs.running_count
series-IsLegal = (λ c. ground arith, omega arith)

-- The hand of 29 points: three fives, the jack of the starter's suit, and the fourth five.
abbrev best_hand : Four
best_hand = record { c0 = card 5 0; c1 = card 5 1; c2 = card 5 2; c3 = card 11 3 }

hand_total-score_example :
    HandDefs.total best_hand (card 5 3) false
    ≡ (elim (HandDefs.score best_hand (card 5 3) false) [ ok r ↦ ok r.total | err e ↦ err e ])
unfolding rank_valid
hand_total-score_example =
    hand_total-score best_hand (card 5 3) false (refl, (refl, (refl, (refl, (refl, tt)))))

best_hand-Distinct : Distinct (five_of best_hand (card 5 3))
best_hand-Distinct c = ground arith

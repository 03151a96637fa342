-- ===== src/Bot/Splits.antt =====
-- internal/bot/eval/hand.go: the fifteen ways to split six cards, and the points of the kept four
-- over every starter. `[6]Card` is a list of six cards.
use cribbager.Common.{
  ℕ, zero, suc, ◌+◌, ◌*◌, ◌<◌, ◌≡◌, refl, Bool, true, false, ◌&&◌, ◌||◌, List, [], ◌∷◌, ◌++◌, map,
  Option, none, map_option, some, ok, err, Fallible, if◌then◌else◌, ltb, arith, length, sum, All,
  subst, sym,
}
use cribbager.Common.Floats.{Floats}
use cribbager.Cribbage.Defs.{Card, deck}
use cribbager.Game.State.{no_card, is_empty}
use cribbager.Pegging.Defs.{contains}
use cribbager.Hand.Defs.{Four, four_list, HandError, total}

-- `remaining`: the deck's cards in none of the sets.
unfoldable pub in_some : List (List Card) → Card → Bool
in_some [] c = false
in_some (set ∷ sets) c = contains set c || in_some sets c

unfoldable pub not_in : List (List Card) → List Card → List Card
unfolding in_some
not_in sets [] = []
not_in sets (c ∷ cs) = if in_some sets c then not_in sets cs else c ∷ not_in sets cs

unfoldable pub remaining : List (List Card) → List Card
unfolding not_in
remaining excluded = not_in excluded deck

-- `t, _ := hand.Total(keep, s, false)`
abbrev pub points_or_zero : Fallible HandError ℕ → ℕ
points_or_zero (ok t) = t
points_or_zero (err e) = 0

unfoldable pub show_points : Four → Card → ℕ
show_points keep s = points_or_zero (total keep s false)

unfoldable pub sum_points : Four → List Card → ℕ
unfolding show_points
sum_points keep [] = 0
sum_points keep (s ∷ starters) = show_points keep s + sum_points keep starters

-- `ExpectedHandValue`
unfoldable pub expected_hand_value : (F : Floats) → Four → List Card → F.Float
unfolding remaining sum_points
expected_hand_value F keep seen =
    let starters = remaining (seen ∷ four_list keep ∷ []) in
    if is_empty starters
    then F.of_int 0
    else F.over (F.of_int (sum_points keep starters)) (F.of_int (length starters))

-- `HandScoreDistSize` zeros.
abbrev pub no_counts : List ℕ
no_counts =
    0 ∷ 0 ∷ 0 ∷ 0 ∷ 0 ∷ 0 ∷ 0 ∷ 0 ∷ 0 ∷ 0 ∷ 0 ∷ 0 ∷ 0 ∷ 0 ∷ 0 ∷ 0 ∷ 0 ∷ 0 ∷ 0 ∷ 0 ∷ 0 ∷ 0 ∷ 0 ∷ 0
    ∷ 0 ∷ 0 ∷ 0 ∷ 0 ∷ 0 ∷ 0 ∷ []

-- `dist[t]++`, which past the end panics: `none`.
unfoldable pub count_at : List ℕ → ℕ → Option (List ℕ)
count_at [] t = none
count_at (n ∷ ns) zero = some (suc n ∷ ns)
count_at (n ∷ ns) (suc t) = map_option (λ rest. n ∷ rest) (count_at ns t)

-- The loop over the starters.
unfoldable pub count_points : Four → List Card → Option (List ℕ) → Option (List ℕ)
unfolding count_at show_points
count_points keep [] counts = counts
count_points keep (s ∷ starters) none = none
count_points keep (s ∷ starters) (some counts) =
    count_points keep starters (count_at counts (show_points keep s))

-- `HandValueDist`: the counts, then each divided by their number.
unfoldable pub hand_value_counts : Four → List Card → Option (List ℕ)
unfolding count_points remaining
hand_value_counts keep seen =
    count_points keep (remaining (seen ∷ four_list keep ∷ [])) (some no_counts)

unfoldable pub hand_value_dist : (F : Floats) → Four → List Card → Option (List F.Float)
unfolding hand_value_counts remaining
hand_value_dist F keep seen =
    let starters = remaining (seen ∷ four_list keep ∷ []) in
    if is_empty starters
    then some (map F.of_int no_counts)
    else map_option (map (λ n. F.over (F.of_int n) (F.of_int (length starters))))
        (hand_value_counts keep seen)

-- Each element with the others, in order.
unfoldable pub pick_one {ℓ} : {A : Type ℓ} → List A → List (A × List A)
pick_one [] = []
pick_one (x ∷ xs) = (x, xs) ∷ map (λ p. (p.0, x ∷ p.1)) (pick_one xs)

-- Each pair of positions i < j with the others, in the order of the two loops.
unfoldable pub pick_two {ℓ} : {A : Type ℓ} → List A → List ((A × A) × List A)
unfolding pick_one
pick_two [] = []
pick_two (x ∷ xs) =
    map (λ p. ((x, p.0), p.1)) (pick_one xs) ++ map (λ p. (p.0, x ∷ p.1)) (pick_two xs)

-- `var keep [4]Card`, with the cards that are kept.
abbrev pub four_of : List Card → Four
four_of (a ∷ b ∷ c ∷ d ∷ _) = record { c0 = a; c1 = b; c2 = c; c3 = d }
four_of _ = record { c0 = no_card; c1 = no_card; c2 = no_card; c3 = no_card }

-- `discardPairs`, as pairs in place of the two slices.
unfoldable pub discard_pairs : List Card → List ((Card × Card) × Four)
unfolding pick_two
discard_pairs h = map (λ p. (p.0, four_of p.1)) (pick_two h)

-- A score's weight in a histogram whose first entry stands for `from`.
abbrev pub weighted : ℕ → List ℕ → ℕ
weighted from [] = 0
weighted from (n ∷ ns) = n * from + weighted (from + 1) ns

count_at_lem :
    (from : ℕ) (counts : List ℕ) (t : ℕ)
    → t < length counts
    → (d : List ℕ) × (count_at counts t ≡ some d)
      × (length d ≡ length counts)
      × (sum d ≡ sum counts + 1)
      × (weighted from d ≡ weighted from counts + from + t)
unfolding count_at
count_at_lem from [] t h = absurd (omega arith)
count_at_lem from (n ∷ ns) zero h = (suc n ∷ ns, refl, omega arith, omega arith, grind arith)
count_at_lem from (n ∷ ns) (suc t) h =
    let (d, e, l, s, w) = count_at_lem (from + 1) ns t (omega arith) in
    (n ∷ d, rw e refl, omega arith, omega arith, omega arith)

count_points_lem :
    (keep : Four) (starters : List Card) (counts : List ℕ)
    → All (λ s. show_points keep s < length counts) starters
    → (d : List ℕ) × (count_points keep starters (some counts) ≡ some d)
      × (length d ≡ length counts)
      × (sum d ≡ sum counts + length starters)
      × (weighted 0 d ≡ weighted 0 counts + sum_points keep starters)
unfolding count_points sum_points
count_points_lem keep [] counts h = (counts, refl, refl, omega arith, omega arith)
count_points_lem keep (s ∷ starters) counts (hs, h) =
    let (d, e, l, total_, weight) = count_at_lem 0 counts (show_points keep s) hs in
    let (d', e', l', total', weight') =
      count_points_lem keep starters d
        (subst (λ n. All (λ s. show_points keep s < n) starters) (sym l) h) in
    (d', rw e e', omega arith, omega arith, omega arith)

-- The scorer gives every starter fewer points than the histogram has entries.
unfoldable pub fits_histogram : Four → List Card → Bool
unfolding show_points
fits_histogram keep [] = true
fits_histogram keep (s ∷ starters) = ltb (show_points keep s) 30 && fits_histogram keep starters

fits_All :
    (keep : Four) (starters : List Card)
    → fits_histogram keep starters ≡ true
    → All (λ s. show_points keep s < 30) starters
unfolding fits_histogram
fits_All keep [] h = tt
fits_All keep (s ∷ starters) h = (ground arith, fits_All keep starters (ground arith))

-- For four cards whose show no starter takes past 29 points, the histogram of `HandValueDist` has an entry
-- for each starter, and its weighted sum is the sum of points that `ExpectedHandValue` divides.
pub hand_value_counts-sums :
    (keep : Four) (seen : List Card)
    → fits_histogram keep (remaining (seen ∷ four_list keep ∷ [])) ≡ true
    → (d : List ℕ) × (hand_value_counts keep seen ≡ some d)
      × (length d ≡ 30)
      × (sum d ≡ length (remaining (seen ∷ four_list keep ∷ [])))
      × (weighted 0 d ≡ sum_points keep (remaining (seen ∷ four_list keep ∷ [])))
unfolding hand_value_counts
hand_value_counts-sums keep seen fits =
    let starters = remaining (seen ∷ four_list keep ∷ []) in
    let (d, e, l, s, w) = count_points_lem keep starters no_counts (fits_All keep starters fits) in
    (d, e, l, omega (arith, s), omega (arith, w))

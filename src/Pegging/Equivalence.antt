-- ===== src/Pegging/Equivalence.antt =====
-- internal/scoring/pegging/score.go: the two entry points `Total` and `Score` compared.
use mathlib.Core.List.{reverse, reverse-append, map-append}
use cribbager.Common.{
  ◌⊎◌, ℕ, zero, suc, ◌+◌, ◌-◌, ◌*◌, ◌≤◌, ◌≡◌, refl, ap, ◌∙◌, Bool, List, [], ◌∷◌, ◌++◌, map, arith,
  if◌then◌else◌, ◌==◌, drop, length, ok, err, inl,
}
use cribbager.Cribbage.Defs.{Card, pip_value}
use cribbager.Pegging.Defs.{
  Kind, fifteen, thirty_one, Combo, scoring, combos, PegResult, run_suffix_from, run_points_from,
  longest_run_suffix, suffix, trailing_same_rank, leading_rank, total_core, total, score, itemize,
  sum_total, points_of, running_count, pair_combo_of, run_combo_of, count_combo,
}

-- Dropping the combos without points leaves the sum.
points_of-scoring : (cs : List Combo) → points_of (scoring cs) ≡ points_of cs
unfolding scoring
points_of-scoring [] = refl
points_of-scoring (c ∷ cs) = ground (arith, points_of-scoring cs)

map-drop {ℓ κ} :
    {A : Type ℓ} {B : Type κ} (f : A → B) (n : ℕ) (xs : List A)
    → map f (drop n xs) ≡ drop n (map f xs)
map-drop f zero xs = refl
map-drop f (suc n) [] = refl
map-drop f (suc n) (x ∷ xs) = map-drop f n xs

length-map {ℓ κ} :
    {A : Type ℓ} {B : Type κ} (f : A → B) (xs : List A) → length (map f xs) ≡ length xs
length-map f [] = refl
length-map f (x ∷ xs) = ap suc (length-map f xs)

abbrev ranks : List Card → List ℕ
ranks = map (λ c. c.rank)

ranks-suffix : (l : ℕ) (all : List Card) → ranks (suffix l all) ≡ suffix l (ranks all)
ranks-suffix l all =
    rw (length-map (λ (c : Card). c.rank) all)
      (map-drop (λ (c : Card). c.rank) (length all - l) all)

-- Both run loops find the same length.
run_suffix_from-points :
    (l : ℕ) (all : List Card) → (run_suffix_from l all).0 ≡ run_points_from l (ranks all)
unfolding run_suffix_from run_points_from
run_suffix_from-points zero all = refl
run_suffix_from-points (suc l) all =
    ground (arith, ranks-suffix (suc l) all, run_suffix_from-points l all)

run_suffix_from-length :
    (l : ℕ) (all : List Card) → ((run_suffix_from l all).0 ≡ 0) ⊎ (3 ≤ (run_suffix_from l all).0)
unfolding run_suffix_from
run_suffix_from-length zero all = inl refl
run_suffix_from-length (suc l) all = ground (arith, run_suffix_from-length l all)

trailing_same_rank-append :
    (series : List Card) (card : Card)
    → trailing_same_rank (series ++ card ∷ []) ≡ suc (leading_rank card.rank (reverse series))
unfolding trailing_same_rank leading_rank
trailing_same_rank-append series card = rw (reverse-append series (card ∷ [])) (ground arith)

pair_combo_of-points :
    (series : List Card) (card : Card)
    → let k = suc (leading_rank card.rank (reverse series)) in
      (pair_combo_of (series ++ card ∷ [])).points ≡ k * (k - 1)
unfolding pair_combo_of
pair_combo_of-points series card = rw (trailing_same_rank-append series card) (ground arith)

run_combo_of-points :
    (series : List Card) (card : Card)
    → let all = series ++ card ∷ [] in
      (run_combo_of (longest_run_suffix all)).points ≡ run_points_from (length all) (ranks all)
unfolding run_combo_of longest_run_suffix
run_combo_of-points series card =
    let all = series ++ card ∷ [] in
    ground (arith, run_suffix_from-points (length all) all, run_suffix_from-length (length all) all)

points_of-combos :
    (r : PegResult)
    → points_of (combos r)
      ≡ r.fifteen_combo.points + r.thirty_one_combo.points + r.pair_combo.points
        + r.run_combo.points
unfolding combos
points_of-combos r =
    points_of-scoring (r.fifteen_combo ∷ r.thirty_one_combo ∷ r.pair_combo ∷ r.run_combo ∷ [])
    ∙ omega arith

count_combo-points :
    (kind : Kind) (hit : Bool) (all : List Card)
    → (count_combo kind hit all).points ≡ (if hit then 2 else 0)
unfolding count_combo
count_combo-points kind hit all = ground arith

-- Adding the combos up gives the lean total.
pub sum_total-itemize :
    (series : List Card) (card : Card)
    → (sum_total (itemize series card)).total ≡ total_core series card
unfolding sum_total itemize total_core
sum_total-itemize series card =
    let all : List Card = series ++ card ∷ [] in
    let count : ℕ = running_count series + pip_value card.rank in
    let names : ranks all ≡ ranks series ++ card.rank ∷ [] =
      map-append (λ (c : Card). c.rank) series (card ∷ []) in
    let size : length (ranks all) ≡ length all = length-map (λ (c : Card). c.rank) all in
    rw (← names, size)
      (omega (
        arith,
        points_of-combos (itemize series card),
        count_combo-points fifteen (count == 15) all,
        count_combo-points thirty_one (count == 31) all,
        pair_combo_of-points series card,
        run_combo_of-points series card,
      ))

-- `Total` and `Score` agree on every series and card: they accept the same plays, report the same
-- error for the others, and the itemised result's total is `Total`'s.
pub play_total-score :
    (series : List Card) (card : Card)
    → total series card ≡ (elim (score series card) [ ok r ↦ ok r.total | err e ↦ err e ])
unfolding total score
play_total-score series card = ground (arith, sum_total-itemize series card)

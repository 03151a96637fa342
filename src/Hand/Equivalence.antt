-- ===== src/Hand/Equivalence.antt =====
-- internal/scoring/hand/score.go: the two entry points `Total` and `Score` compared.
use cribbager.Common.{
  ℕ, zero, suc, ◌+◌, ◌≤◌, ◌<◌, ◌≡◌, refl, ◌∙◌, inl, inr, Bool, List, [], ◌∷◌, ◌++◌, if◌then◌else◌,
  All, false, true, ◌*◌, ◌-◌, arith, Bool-cases, ltb, ◌==◌, length, ok, err,
}
use cribbager.Cribbage.Defs.{Card, rank_valid}
use cribbager.Hand.Runs.{run_points-five, best_run-Fits, run_value, Fits}
use cribbager.Hand.Items.{
  points_of-append, points_of-sort_combos, score_fifteens-points, pair_combos-points, outside,
  sum_ranks-inside, sum_ranks-outside,
}
use cribbager.Hand.Defs.{
  Combo, Four, points_of, combos, optional, HandResult, sum_ranks, rank_count, best_run, run_of,
  score_run, pair_points, pair_combos, score_pairs, rank_mem, score_flush, score_nobs, flush_points,
  nobs_point, five_of, total_of, total, score, itemize, sum_total,
}

-- One card counts for one rank at most.
one_rank-zero :
    (c : Card) (n r : ℕ) → c.rank < r → sum_ranks (λ k. if c.rank == k then 1 else 0) n r ≡ 0
unfolding sum_ranks
one_rank-zero c zero r h = refl
one_rank-zero c (suc n) r h = ground (arith, one_rank-zero c n (r + 1))

one_rank-le : (c : Card) (n r : ℕ) → sum_ranks (λ k. if c.rank == k then 1 else 0) n r ≤ 1
unfolding sum_ranks
one_rank-le c zero r = omega arith
one_rank-le c (suc n) r = ground (arith, one_rank-le c n (r + 1), one_rank-zero c n (r + 1))

sum_ranks-add :
    (f g : ℕ → ℕ) (n r : ℕ) → sum_ranks (λ k. f k + g k) n r ≡ sum_ranks f n r + sum_ranks g n r
unfolding sum_ranks
sum_ranks-add f g zero r = refl
sum_ranks-add f g (suc n) r = omega (arith, sum_ranks-add f g n (r + 1))

sum_ranks-none : (n r : ℕ) → sum_ranks (rank_count []) n r ≡ 0
unfolding sum_ranks rank_count
sum_ranks-none zero r = refl
sum_ranks-none (suc n) r = omega (arith, sum_ranks-none n (r + 1))

sum_ranks-rank_count :
    (cards : List Card) (n r : ℕ) → sum_ranks (rank_count cards) n r ≤ length cards
unfolding rank_count
sum_ranks-rank_count [] n r = omega (arith, sum_ranks-none n r)
sum_ranks-rank_count (c ∷ cs) n r = omega (
  arith,
  sum_ranks-add (λ k. if c.rank == k then 1 else 0) (rank_count cs) n r,
  one_rank-le c n r,
  sum_ranks-rank_count cs n r,
)

optional-points : (c : Combo) → points_of (optional c) ≡ c.points
unfolding optional
optional-points c = ground arith

points_of-combos :
    (r : HandResult)
    → points_of (combos r)
      ≡ points_of r.fifteens
        + points_of r.pairs
        + points_of r.runs
        + r.flush_combo.points
        + r.nobs_combo.points
unfolding combos
points_of-combos r = omega (
  arith,
  points_of-append r.fifteens
      (r.pairs ++ (r.runs ++ (optional r.flush_combo ++ optional r.nobs_combo))),
  points_of-append r.pairs (r.runs ++ (optional r.flush_combo ++ optional r.nobs_combo)),
  points_of-append r.runs (optional r.flush_combo ++ optional r.nobs_combo),
  points_of-append (optional r.flush_combo) (optional r.nobs_combo),
  optional-points r.flush_combo,
  optional-points r.nobs_combo,
)

score_flush-points :
    (h : Four) (starter : Card) (is_crib : Bool)
    → (score_flush h starter is_crib).points ≡ flush_points h starter is_crib
unfolding score_flush
score_flush-points h starter is_crib = ground arith

score_nobs-points :
    (h : Four) (starter : Card)
    → (score_nobs h starter).points ≡ (if nobs_point h starter then 1 else 0)
unfolding score_nobs nobs_point
score_nobs-points h starter = ground arith

abbrev run_list : Combo → List Combo
run_list c = if ltb 0 c.points then c ∷ [] else []

run_list-points : (c : Combo) → points_of (run_list c) ≡ c.points
run_list-points c = ground arith

-- A card with a rank, from the ace to the king.
abbrev pub HasRank : Card → Type 0
HasRank c = rank_valid c.rank ≡ true

no_zero : (cards : List Card) → All HasRank cards → rank_count cards 0 ≡ 0
unfolding rank_count rank_valid
no_zero [] h = refl
no_zero (c ∷ cs) (hc, h) = ground (arith, no_zero cs h, hc)

score_pairs-points :
    (cards : List Card) (in_run : List ℕ)
    → All HasRank cards
    → points_of (score_pairs cards in_run) ≡ sum_ranks (outside cards in_run) 13 1
unfolding score_pairs sum_ranks
score_pairs-points cards in_run ranked =
    points_of-sort_combos (pair_combos cards in_run 14 0)
    ∙ pair_combos-points cards in_run 14 0
    ∙ none_outside (rank_mem in_run 0) (no_zero cards ranked)
  where
    none_outside : (b : Bool) {n rest : ℕ} → n ≡ 0 → (if b then 0 else n * (n - 1)) + rest ≡ rest
    none_outside true h = omega arith
    none_outside false h = rw h (omega arith)

-- The bundled run and the pairs outside it score what runs and pairs score apart.
run_of-points :
    (cards : List Card) (best : ℕ × ℕ)
    → Fits best
    → (run_of cards best).0.points + sum_ranks (outside cards (run_of cards best).1) 13 1
      ≡ sum_ranks (pair_points (rank_count cards)) 13 1 + run_value (rank_count cards) best
unfolding run_of rank_mem
run_of-points cards (start, len) (inl short) =
    let e : ltb len 3 ≡ true = ground arith in rw e (omega arith)
run_of-points cards (start, len) (inr (lo, hi)) = elim (Bool-cases (ltb len 3)) [
  | inl short ↦ rw short (omega arith)
  | inr long ↦ rw long (
      omega (
        arith,
        sum_ranks-outside cards start len 13 1,
        sum_ranks-inside (pair_points (rank_count cards)) start len lo hi,
      ))
]

-- Before the check for duplicates: adding the combos up gives the lean total.
sum_total-itemize :
    (h : Four) (starter : Card) (is_crib : Bool)
    → All HasRank (five_of h starter)
    → (sum_total (itemize h starter is_crib)).total ≡ total_of (five_of h starter) h starter is_crib
unfolding sum_total itemize total_of score_run
sum_total-itemize h starter is_crib ranked =
    let cards : List Card = five_of h starter in
    let counts : ℕ → ℕ = rank_count cards in
    let best : ℕ × ℕ = best_run counts 13 1 (0, 0) in
    let found : Combo × List ℕ = score_run cards in
    omega (
      arith,
      points_of-combos (itemize h starter is_crib),
      score_fifteens-points cards,
      score_pairs-points cards found.1 ranked,
      run_list-points found.0,
      score_flush-points h starter is_crib,
      score_nobs-points h starter,
      run_of-points cards best (best_run-Fits counts 13 1 (0, 0) (omega arith) (inl (omega arith))),
      run_points-five counts (sum_ranks-rank_count cards 13 1),
    )

-- On five cards with ranks from the ace to the king, and either kind of count, `Total` and `Score`
-- agree: they fail on the same inputs with the same error, and otherwise the breakdown's total, in
-- which a run's pairs are bundled into the run, is the total that counts runs and pairs apart.
pub hand_total-score :
    (h : Four) (starter : Card) (is_crib : Bool)
    → All HasRank (five_of h starter)
    → total h starter is_crib
      ≡ (elim (score h starter is_crib) [ ok r ↦ ok r.total | err e ↦ err e ])
unfolding total score
hand_total-score h starter is_crib ranked =
    ground (arith, sum_total-itemize h starter is_crib ranked)

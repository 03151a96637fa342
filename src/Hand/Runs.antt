-- ===== src/Hand/Runs.antt =====
-- internal/scoring/hand/score.go: the loops of `totalOf` and `scoreRun` over the maximal runs of
-- consecutive ranks.
use cribbager.Common.{
  ℕ, zero, suc, ◌+◌, ◌-◌, ◌*◌, ◌≤◌, ◌<◌, ◌≡◌, refl, ◌∙◌, ◌⊎◌, inl, inr, ◌&&◌, if◌then◌else◌, arith,
  Bool-cases, leb, ltb, ◌==◌,
}
use native.Mathlib.Nat.{zero-add, add-zero, suc-add}
use cribbager.Hand.Defs.{sum_ranks, product_ranks, run_end, run_points, best_run}

pub sum_ranks-append :
    (f : ℕ → ℕ) (a b r : ℕ) → sum_ranks f (a + b) r ≡ sum_ranks f a r + sum_ranks f b (r + a)
unfolding sum_ranks
sum_ranks-append f zero b r = rw (zero-add, add-zero, zero-add)
sum_ranks-append f (suc a) b r =
    let e : r + 1 + a ≡ r + suc a = omega arith in
    rw (suc-add, ← e) (omega (arith, sum_ranks-append f a b (r + 1)))

-- The best run, after a run of `suc k` ranks from `r`.
better : ℕ → ℕ → ℕ × ℕ → ℕ × ℕ
better r k best = if leb 3 (suc k) && ltb best.1 (suc k) then (r, suc k) else best

better_long : (r k : ℕ) → 3 ≤ suc k → better r k (0, 0) ≡ (r, suc k)
unfolding better
better_long r k h = ground arith

better_short : (r k : ℕ) (best : ℕ × ℕ) → suc k < 3 → better r k best ≡ best
unfolding better
better_short r k best h = ground arith

-- A run that counts lies within Ace..King.
abbrev pub Fits : ℕ × ℕ → Type 0
Fits (start, len) = (len < 3) ⊎ ((1 ≤ start) × (start + len ≤ 14))

better-Fits : (r k : ℕ) (best : ℕ × ℕ) → 1 ≤ r → r + k ≤ 13 → Fits best → Fits (better r k best)
unfolding better
better-Fits r k best h le f = ground arith

module _ (counts : ℕ → ℕ) where
  -- A maximal run ends `k` ranks on, at or below the king, and every rank in it has a card.
  pub run_end_lem :
      (n r : ℕ)
      → r ≤ 13
      → 0 < counts r
      → (k : ℕ) × (run_end counts n r ≡ r + k) × (r + k ≤ 13) × (suc k ≤ sum_ranks counts (suc k) r)
  unfolding run_end sum_ranks
  run_end_lem zero r h p = (0, omega arith, omega arith, omega arith)
  run_end_lem (suc n) r h p = elim (Bool-cases (leb (r + 1) 13 && ltb 0 (counts (r + 1)))) [
    | inl more ↦
        let (k, e, le, s) = run_end_lem n (r + 1) (ground arith) (ground arith) in
        (suc k, ground arith, omega arith, omega arith)
    | inr done ↦ (0, ground arith, omega arith, omega arith)
  ]

  -- What a run is worth, by its start and length.
  abbrev pub run_value : ℕ × ℕ → ℕ
  run_value (start, len) = if ltb len 3 then 0 else len * product_ranks counts len start

  -- One round of the two loops, by what the rank holds.
  run_points-past : (n r : ℕ) → 13 < r → run_points counts n r ≡ 0
  unfolding run_points
  run_points-past zero r h = refl
  run_points-past (suc n) r h = ground arith

  run_points-gap :
      (n r : ℕ) → r ≤ 13 → counts r ≡ 0 → run_points counts (suc n) r ≡ run_points counts n (r + 1)
  unfolding run_points
  run_points-gap n r h z = ground arith

  run_points-run :
      (n r k : ℕ)
      → r ≤ 13
      → 0 < counts r
      → run_end counts 13 r ≡ r + k
      → run_points counts (suc n) r ≡ run_value (r, suc k) + run_points counts n (r + suc k)
  unfolding run_points
  run_points-run n r k h p e =
      let len : r + k - r + 1 ≡ suc k = omega arith in
      let next : r + k + 1 ≡ r + suc k = omega arith in rw e (rw (len, next) (ground arith))

  best_run-past : (n r : ℕ) (best : ℕ × ℕ) → 13 < r → best_run counts n r best ≡ best
  unfolding best_run
  best_run-past zero r best h = refl
  best_run-past (suc n) r best h = ground arith

  best_run-gap :
      (n r : ℕ) (best : ℕ × ℕ)
      → r ≤ 13
      → counts r ≡ 0
      → best_run counts (suc n) r best ≡ best_run counts n (r + 1) best
  unfolding best_run
  best_run-gap n r best h z = ground arith

  best_run-run :
      (n r k : ℕ) (best : ℕ × ℕ)
      → r ≤ 13
      → 0 < counts r
      → run_end counts 13 r ≡ r + k
      → best_run counts (suc n) r best ≡ best_run counts n (r + suc k) (better r k best)
  unfolding best_run better
  best_run-run n r k best h p e =
      let len : r + k - r + 1 ≡ suc k = omega arith in
      let next : r + k + 1 ≡ r + suc k = omega arith in rw e (rw (len, next) (ground arith))

  -- The cards of rank `r` and above.
  cards_from : ℕ → ℕ
  cards_from r = sum_ranks counts (14 - r) r

  cards_from-run :
      (r k : ℕ) → r + k ≤ 13 → cards_from r ≡ sum_ranks counts (suc k) r + cards_from (r + suc k)
  unfolding cards_from
  cards_from-run r k h =
      let e : 14 - r ≡ suc k + (14 - (r + suc k)) = omega arith in
      rw e (sum_ranks-append counts (suc k) (14 - (r + suc k)) r)

  cards_from-gap : (r : ℕ) → r ≤ 13 → cards_from r ≡ counts r + cards_from (r + 1)
  unfolding sum_ranks
  cards_from-gap r h = omega (arith, cards_from-run r 0)

  -- Where a rank stands: past the king, without cards, or at the start of a run of `suc k` ranks.
  abbrev At : ℕ → Type 0
  At r =
      (13 < r)
      ⊎ ((r ≤ 13) × (counts r ≡ 0))
      ⊎ ((k : ℕ) × (r ≤ 13)
          × (0 < counts r)
          × (run_end counts 13 r ≡ r + k)
          × (suc k + cards_from (r + suc k) ≤ cards_from r)
          × (r + k ≤ 13))

  at : (r : ℕ) → At r
  at r = elim (Bool-cases (ltb 13 r)) [
    | inl past ↦ inl (ground arith)
    | inr low ↦ elim (Bool-cases (counts r == 0)) [
      | inl gap ↦ inr (inl (ground arith, ground arith))
      | inr some_card ↦
          let (k, e, le, s) = run_end_lem 13 r (ground arith) (ground arith) in
          inr (inr (k, ground arith, ground arith, e, omega (arith, cards_from-run r k le), le))
    ]
  ]

  -- Two cards make no run of three.
  few_cards :
      (n r : ℕ)
      → cards_from r ≤ 2
      → (run_points counts n r ≡ 0) × ((best : ℕ × ℕ) → best_run counts n r best ≡ best)
  few_cards zero r few = (unfold run_points in refl, λ best. unfold best_run in refl)
  few_cards (suc n) r few = elim (at r) [
    | inl past ↦ (run_points-past (suc n) r past, λ best. best_run-past (suc n) r best past)
    | inr (inl (low, gap)) ↦
        let (none_left, same) = few_cards n (r + 1) (omega (arith, cards_from-gap r low)) in
        (run_points-gap n r low gap ∙ none_left, λ best. best_run-gap n r best low gap ∙ same best)
    | inr (inr (k, low, some_card, e, fewer, le)) ↦
        let (none_left, same) = few_cards n (r + suc k) (omega arith) in
        (
          ground (arith, run_points-run n r k low some_card e),
          λ best.
              best_run-run n r k best low some_card e
              ∙ same (better r k best)
              ∙ better_short r k best (omega arith),
        )
  ]

  -- With at most five cards the runs are worth what the best run is worth.
  run_points-best_run :
      (n r : ℕ) → cards_from r ≤ 5 → run_points counts n r ≡ run_value (best_run counts n r (0, 0))
  run_points-best_run zero r h = unfold run_points best_run in refl
  run_points-best_run (suc n) r h = elim (at r) [
    | inl past ↦ rw (run_points-past (suc n) r past, best_run-past (suc n) r (0, 0) past)
    | inr (inl (low, gap)) ↦
        rw (run_points-gap n r low gap, best_run-gap n r (0, 0) low gap)
          (run_points-best_run n (r + 1) (omega (arith, cards_from-gap r low)))
    | inr (inr (k, low, some_card, e, fewer, le)) ↦
        rw (run_points-run n r k low some_card e, best_run-run n r k (0, 0) low some_card e)
          (elim (Bool-cases (leb 3 (suc k))) [
            | inl long ↦
                let (none_left, same) = few_cards n (r + suc k) (ground arith) in
                rw (better_long r k (ground arith), same (r, suc k), none_left) (omega arith)
            | inr short ↦
                let worthless : run_value (r, suc k) ≡ 0 = ground arith in
                rw (better_short r k (0, 0) (ground arith), worthless, zero-add)
                  (run_points-best_run n (r + suc k) (omega arith))
          ])
  ]

  -- Five cards on the ranks Ace..King hold at most one run of three or more.
  pub run_points-five :
      sum_ranks counts 13 1 ≤ 5 → run_points counts 13 1 ≡ run_value (best_run counts 13 1 (0, 0))
  unfolding cards_from
  run_points-five h = run_points-best_run 13 1 h

  pub best_run-Fits : (n r : ℕ) (best : ℕ × ℕ) → 1 ≤ r → Fits best → Fits (best_run counts n r best)
  best_run-Fits zero r best h f = unfold best_run in f
  best_run-Fits (suc n) r best h f = elim (at r) [
    | inl past ↦ rw (best_run-past (suc n) r best past) f
    | inr (inl (low, gap)) ↦
        rw (best_run-gap n r best low gap) (best_run-Fits n (r + 1) best (omega arith) f)
    | inr (inr (k, low, some_card, e, fewer, le)) ↦
        rw (best_run-run n r k best low some_card e) (
          best_run-Fits n (r + suc k) (better r k best) (omega arith) (better-Fits r k best h le f))
  ]

-- ===== src/Hand/Items.antt =====
-- What each part of the hand scorer's breakdown is worth in points.
use cribbager.Common.{
  ℕ, zero, suc, ◌+◌, ◌-◌, ◌*◌, ◌≤◌, ◌≡◌, refl, ◌∙◌, ◌⊎◌, inl, inr, Bool, true, false, ◌&&◌, ◌||◌,
  List, [], ◌∷◌, ◌++◌, if◌then◌else◌, arith, leb, ltb, length,
}
use cribbager.Common.Sort.{sort, insert}
use cribbager.Cribbage.Defs.{Card}
use cribbager.Hand.Runs.{sum_ranks-append}
use cribbager.Hand.Defs.{
  Combo, points_of, fifteen_combos, fifteen_points, score_fifteens, sort_combos, sum_ranks,
  rank_count, pair_points, cards_of_rank, pairs_with, all_pairs, pair_combos, rank_mem, rank_range,
}

pub points_of-append : (xs ys : List Combo) → points_of (xs ++ ys) ≡ points_of xs + points_of ys
points_of-append [] ys = omega arith
points_of-append (x ∷ xs) ys = omega (arith, points_of-append xs ys)

points_of-insert :
    (less : Combo → Combo → Bool) (c : Combo) (cs : List Combo)
    → points_of (insert less c cs) ≡ c.points + points_of cs
unfolding insert
points_of-insert less c [] = refl
points_of-insert less c (x ∷ xs) = ground (arith, points_of-insert less c xs)

-- Sorting keeps the points.
points_of-sort :
    (less : Combo → Combo → Bool) (cs : List Combo) → points_of (sort less cs) ≡ points_of cs
unfolding sort
points_of-sort less [] = refl
points_of-sort less (c ∷ cs) =
    omega (arith, points_of-insert less c (sort less cs), points_of-sort less cs)

pub points_of-sort_combos : (cs : List Combo) → points_of (sort_combos cs) ≡ points_of cs
unfolding sort_combos
points_of-sort_combos cs = points_of-sort _ cs

fifteen_combos-points :
    (n mask : ℕ) (cards : List Card)
    → points_of (fifteen_combos n mask cards) ≡ fifteen_points n mask cards
unfolding fifteen_combos fifteen_points
fifteen_combos-points zero mask cards = refl
fifteen_combos-points (suc n) mask cards = ground (arith, fifteen_combos-points n (mask + 1) cards)

-- The fifteens score what the lean scorer counts for them.
pub score_fifteens-points :
    (cards : List Card) → points_of (score_fifteens cards) ≡ fifteen_points 31 1 cards
unfolding score_fifteens
score_fifteens-points cards =
    points_of-sort_combos (fifteen_combos 31 1 cards) ∙ fifteen_combos-points 31 1 cards

length-cards_of_rank :
    (cards : List Card) (r : ℕ) → length (cards_of_rank cards r) ≡ rank_count cards r
unfolding cards_of_rank rank_count
length-cards_of_rank [] r = refl
length-cards_of_rank (c ∷ cs) r = ground (arith, length-cards_of_rank cs r)

pairs_with-points : (c : Card) (cs : List Card) → points_of (pairs_with c cs) ≡ 2 * length cs
unfolding pairs_with
pairs_with-points c [] = refl
pairs_with-points c (d ∷ ds) = omega (arith, pairs_with-points c ds)

next_pairs : (n : ℕ) → 2 * suc n + suc n * (suc n - 1) ≡ suc (suc n) * (suc (suc n) - 1)
next_pairs n =
    let less : suc n - 1 ≡ n = omega arith in
    let same : suc (suc n) - 1 ≡ suc n = omega arith in rw (less, same) (omega arith)

all_pairs-points : (cs : List Card) → points_of (all_pairs cs) ≡ length cs * (length cs - 1)
unfolding all_pairs
all_pairs-points [] = refl
all_pairs-points (c ∷ []) = unfold pairs_with in refl
all_pairs-points (c ∷ d ∷ ds) = omega (
  arith,
  points_of-append (pairs_with c (d ∷ ds)) (all_pairs (d ∷ ds)),
  pairs_with-points c (d ∷ ds),
  all_pairs-points (d ∷ ds),
  next_pairs (length ds),
)

-- The ranks `start .. start+len-1` are the members of the range.
rank_mem-rank_range :
    (len start r : ℕ) → rank_mem (rank_range len start) r ≡ (leb start r && ltb r (start + len))
unfolding rank_mem rank_range
rank_mem-rank_range zero start r = ground arith
rank_mem-rank_range (suc len) start r = ground (arith, rank_mem-rank_range len (start + 1) r)

-- The pairs of the ranks outside the run.
abbrev pub outside : List Card → List ℕ → ℕ → ℕ
outside cards in_run r = if rank_mem in_run r then 0 else pair_points (rank_count cards) r

group-points :
    (b : Bool) (cs : List Card)
    → points_of (if b || ltb (length cs) 2 then [] else all_pairs cs)
      ≡ (if b then 0 else length cs * (length cs - 1))
group-points true cs = refl
group-points false [] = refl
group-points false (c ∷ []) = refl
group-points false (c ∷ d ∷ ds) = ground (arith, all_pairs-points (c ∷ d ∷ ds))

pub pair_combos-points :
    (cards : List Card) (in_run : List ℕ) (n r : ℕ)
    → points_of (pair_combos cards in_run n r) ≡ sum_ranks (outside cards in_run) n r
unfolding pair_combos sum_ranks
pair_combos-points cards in_run zero r = refl
pair_combos-points cards in_run (suc n) r = rw (
  points_of-append _ (pair_combos cards in_run n (r + 1)),
  group-points (rank_mem in_run r) (cards_of_rank cards r),
  length-cards_of_rank cards r,
  pair_combos-points cards in_run n (r + 1),
)

module _ (f : ℕ → ℕ) (start len : ℕ) where
  abbrev pub inside : ℕ → ℕ
  inside r = if leb start r && ltb r (start + len) then f r else 0

  sum_ranks-within :
      (n r : ℕ) → start ≤ r → r + n ≤ start + len → sum_ranks inside n r ≡ sum_ranks f n r
  unfolding sum_ranks
  sum_ranks-within zero r lo hi = refl
  sum_ranks-within (suc n) r lo hi = ground (arith, sum_ranks-within n (r + 1))

  sum_ranks-without : (n r : ℕ) → (r + n ≤ start) ⊎ (start + len ≤ r) → sum_ranks inside n r ≡ 0
  unfolding sum_ranks
  sum_ranks-without zero r h = refl
  sum_ranks-without (suc n) r (inl h) =
      ground (arith, sum_ranks-without n (r + 1) (inl (omega arith)))
  sum_ranks-without (suc n) r (inr h) =
      ground (arith, sum_ranks-without n (r + 1) (inr (omega arith)))

  pub sum_ranks-inside :
      1 ≤ start → start + len ≤ 14 → sum_ranks inside 13 1 ≡ sum_ranks f len start
  sum_ranks-inside lo hi =
      let before : start - 1 + (14 - start) ≡ 13 = omega arith in
      let after : len + (14 - start - len) ≡ 14 - start = omega arith in
      let first : 1 + (start - 1) ≡ start = omega arith in
      rw (← before, sum_ranks-append inside (start - 1) (14 - start) 1, first)
        (rw (← after, sum_ranks-append inside len (14 - start - len) start)
          (omega (
            arith,
            sum_ranks-without (start - 1) 1 (inl (omega arith)),
            sum_ranks-within len start (omega arith) (omega arith),
            sum_ranks-without (14 - start - len) (start + len) (inr (omega arith)),
          )))

pub sum_ranks-outside :
    (cards : List Card) (start len n r : ℕ)
    → sum_ranks (pair_points (rank_count cards)) n r
      ≡ sum_ranks (inside (pair_points (rank_count cards)) start len) n r
        + sum_ranks (outside cards (rank_range len start)) n r
unfolding sum_ranks
sum_ranks-outside cards start len zero r = refl
sum_ranks-outside cards start len (suc n) r =
    ground (arith, sum_ranks-outside cards start len n (r + 1), rank_mem-rank_range len start r)

-- ===== src/Hand/Defs.antt =====
-- internal/scoring/hand/score.go: the points of a hand or a crib at the show. An array `counts`
-- indexed by rank is the function from a rank to its number of cards.
use Prim.Native.Nat.{bit_and}
use cribbager.Common.{
  ℕ, zero, suc, ◌+◌, ◌-◌, ◌*◌, ◌^◌, Bool, true, false, ◌&&◌, ◌||◌, not, List, [], ◌∷◌, ◌++◌, map,
  leb, ltb, ◌==◌, if◌then◌else◌, Option, none, some, length, sum, Fallible, unless,
}
use cribbager.Common.Sort.{sort}
use cribbager.Cribbage.Defs.{Card, Rank, jack, card_eq, pip_value}
use cribbager.Pegging.Defs.{contains}

pub data Kind : Type 0 where
  fifteen pair run flush nobs : Kind

pub record Combo : Type 0 where
  pub kind : Kind
  pub cards : List Card
  pub points : ℕ
  pub run_length : ℕ
  pub multiplicity : ℕ

-- Go's zero value `Combo{}`.
abbrev pub no_combo : Combo
no_combo = record { kind = fifteen; cards = []; points = 0; run_length = 0; multiplicity = 0 }

abbrev pub plain_combo : Kind → List Card → ℕ → Combo
plain_combo kind cards points = record {
  kind = kind;
  cards = cards;
  points = points;
  run_length = 0;
  multiplicity = 0;
}

pub record HandResult : Type 0 where
  pub total : ℕ
  pub fifteens : List Combo
  pub pairs : List Combo
  pub runs : List Combo
  pub flush_combo : Combo
  pub nobs_combo : Combo

pub data HandError : Type 0 where
  duplicate_card : Card → HandError

-- The array `[4]Card`.
pub record Four : Type 0 where
  pub c0 : Card
  pub c1 : Card
  pub c2 : Card
  pub c3 : Card

abbrev pub four_list : Four → List Card
four_list h = h.c0 ∷ h.c1 ∷ h.c2 ∷ h.c3 ∷ []

abbrev pub five_of : Four → Card → List Card
five_of h starter = h.c0 ∷ h.c1 ∷ h.c2 ∷ h.c3 ∷ starter ∷ []

unfoldable pub optional : Combo → List Combo
optional c = if ltb 0 c.points then c ∷ [] else []

unfoldable pub combos : HandResult → List Combo
combos r = r.fifteens ++ (r.pairs ++ (r.runs ++ (optional r.flush_combo ++ optional r.nobs_combo)))

unfoldable pub check_distinct : List Card → Option HandError
check_distinct [] = none
check_distinct (x ∷ xs) = if contains xs x then some (duplicate_card x) else check_distinct xs

-- The cards of the subset that `mask` names, from index `i` on.
unfoldable pub subset : ℕ → ℕ → List Card → List Card
subset mask i [] = []
subset mask i (c ∷ cs) =
    if bit_and mask (2 ^ i) == 0 then subset mask (i + 1) cs else c ∷ subset mask (i + 1) cs

unfoldable pub subset_sum : ℕ → ℕ → List Card → ℕ
subset_sum mask i [] = 0
subset_sum mask i (c ∷ cs) =
    (if bit_and mask (2 ^ i) == 0 then 0 else pip_value c.rank) + subset_sum mask (i + 1) cs

-- The first loop of `totalOf`, `n` masks from `mask` on.
unfoldable pub fifteen_points : ℕ → ℕ → List Card → ℕ
fifteen_points zero mask cards = 0
fifteen_points (suc n) mask cards =
    (if subset_sum mask 0 cards == 15 then 2 else 0) + fifteen_points n (mask + 1) cards

-- `counts[r]`, of an array for the ranks 0 to 13: no card has a higher rank, which `NewCard` and
-- `ParseCard` refuse and at which the scorer would panic.
unfoldable pub rank_count : List Card → Rank → ℕ
rank_count [] r = 0
rank_count (c ∷ cs) r = (if c.rank == r then 1 else 0) + rank_count cs r

-- The sum and the product of `f` over `n` ranks from `r` on: the counted loops of the scorer.
unfoldable pub sum_ranks : (Rank → ℕ) → ℕ → Rank → ℕ
sum_ranks f zero r = 0
sum_ranks f (suc n) r = f r + sum_ranks f n (r + 1)

unfoldable pub product_ranks : (Rank → ℕ) → ℕ → Rank → ℕ
product_ranks f zero r = 1
product_ranks f (suc n) r = f r * product_ranks f n (r + 1)

-- `for r+1 <= 13 && counts[r+1] > 0 { r++ }` from `r`; `n` bounds the rounds.
unfoldable pub run_end : (Rank → ℕ) → ℕ → Rank → Rank
run_end counts zero r = r
run_end counts (suc n) r =
    let next : Rank = run_end counts n (r + 1) in
    if leb (r + 1) 13 && ltb 0 (counts (r + 1)) then next else r

-- The loop over maximal runs of `totalOf`; `n` bounds its rounds, and 13 are enough.
unfoldable pub run_points : (Rank → ℕ) → ℕ → Rank → ℕ
run_points counts zero r = 0
run_points counts (suc n) r =
    let stop : Rank = run_end counts 13 r in
    let len : ℕ = stop - r + 1 in
    let skip : ℕ = run_points counts n (r + 1) in
    let rest : ℕ = run_points counts n (stop + 1) in
    if ltb 13 r
    then 0
    else if counts r == 0
    then skip
    else (if leb 3 len then len * product_ranks counts len r else 0) + rest

abbrev pub pair_points : (Rank → ℕ) → Rank → ℕ
pair_points counts r = counts r * (counts r - 1)

unfoldable pub flush_points : Four → Card → Bool → ℕ
flush_points h starter is_crib =
    let s : ℕ = h.c0.suit in
    if not (h.c1.suit == s) || not (h.c2.suit == s) || not (h.c3.suit == s)
    then 0
    else if starter.suit == s
    then 5
    else if is_crib
    then 0
    else 4

unfoldable pub nobs_card : List Card → Card → Option Card
nobs_card [] starter = none
nobs_card (c ∷ cs) starter =
    if c.rank == jack && c.suit == starter.suit then some c else nobs_card cs starter

unfoldable pub nobs_point : Four → Card → Bool
unfolding nobs_card
nobs_point h starter = elim (nobs_card (four_list h) starter) [ none ↦ false | some c ↦ true ]

unfoldable pub total_of : List Card → Four → Card → Bool → ℕ
total_of cards h starter is_crib =
    fifteen_points 31 1 cards
    + sum_ranks (pair_points (rank_count cards)) 13 1
    + run_points (rank_count cards) 13 1
    + flush_points h starter is_crib
    + (if nobs_point h starter then 1 else 0)

unfoldable pub total : Four → Card → Bool → Fallible HandError ℕ
total h starter is_crib =
    let cards : List Card = five_of h starter in
    unless (check_distinct cards) (total_of cards h starter is_crib)

unfoldable pub less_card : Card → Card → Bool
less_card a b = if a.rank == b.rank then ltb a.suit b.suit else ltb a.rank b.rank

unfoldable pub less_card_slice : List Card → List Card → Bool
less_card_slice [] [] = false
less_card_slice [] (y ∷ ys) = true
less_card_slice (x ∷ xs) [] = false
less_card_slice (x ∷ xs) (y ∷ ys) = if card_eq x y then less_card_slice xs ys else less_card x y

unfoldable pub sort_cards : List Card → List Card
unfolding less_card
sort_cards = sort less_card

unfoldable pub sort_combos : List Combo → List Combo
unfolding less_card_slice
sort_combos = sort (λ a b. less_card_slice a.cards b.cards)

-- The loop of `scoreFifteens`, `n` masks from `mask` on.
unfoldable pub fifteen_combos : ℕ → ℕ → List Card → List Combo
fifteen_combos zero mask cards = []
fifteen_combos (suc n) mask cards =
    let rest : List Combo = fifteen_combos n (mask + 1) cards in
    if subset_sum mask 0 cards == 15
    then plain_combo fifteen (sort_cards (subset mask 0 cards)) 2 ∷ rest
    else rest

unfoldable pub score_fifteens : List Card → List Combo
score_fifteens cards = sort_combos (fifteen_combos 31 1 cards)

-- The loop of `scoreRun` that finds the longest run; it carries the best start and length.
unfoldable pub best_run : (Rank → ℕ) → ℕ → Rank → Rank × ℕ → Rank × ℕ
best_run counts zero r best = best
best_run counts (suc n) r best =
    let stop : Rank = run_end counts 13 r in
    let len : ℕ = stop - r + 1 in
    let skip : Rank × ℕ = best_run counts n (r + 1) best in
    let longer : Rank × ℕ =
      best_run counts n (stop + 1) (if leb 3 len && ltb best.1 len then (r, len) else best) in
    if ltb 13 r then best else if counts r == 0 then skip else longer

-- The cards of rank `r`, in order.
unfoldable pub cards_of_rank : List Card → Rank → List Card
cards_of_rank [] r = []
cards_of_rank (c ∷ cs) r = if c.rank == r then c ∷ cards_of_rank cs r else cards_of_rank cs r

-- The cards of `n` ranks from `r` on.
unfoldable pub cards_of_ranks : List Card → ℕ → Rank → List Card
cards_of_ranks cards zero r = []
cards_of_ranks cards (suc n) r = cards_of_rank cards r ++ cards_of_ranks cards n (r + 1)

-- `n` ranks from `r` on: the keys of the map `inRun`.
unfoldable pub rank_range : ℕ → Rank → List Rank
rank_range zero r = []
rank_range (suc n) r = r ∷ rank_range n (r + 1)

unfoldable pub rank_mem : List Rank → Rank → Bool
rank_mem [] r = false
rank_mem (x ∷ xs) r = x == r || rank_mem xs r

unfoldable pub run_of : List Card → Rank × ℕ → Combo × List Rank
run_of cards (start, len) =
    let counts : Rank → ℕ = rank_count cards in
    let mult : ℕ = product_ranks counts len start in
    if ltb len 3 then (no_combo, []) else (
      record {
        kind = run;
        cards = sort_cards (cards_of_ranks cards len start);
        points = len * mult + sum_ranks (pair_points counts) len start;
        run_length = len;
        multiplicity = mult;
      },
      rank_range len start,
    )

unfoldable pub score_run : List Card → Combo × List Rank
score_run cards = run_of cards (best_run (rank_count cards) 13 1 (0, 0))

-- The pairs of a rank's cards, `i` before `j`.
unfoldable pub pairs_with : Card → List Card → List Combo
pairs_with c [] = []
pairs_with c (d ∷ ds) = plain_combo pair (sort_cards (c ∷ d ∷ [])) 2 ∷ pairs_with c ds

unfoldable pub all_pairs : List Card → List Combo
all_pairs [] = []
all_pairs (c ∷ cs) = pairs_with c cs ++ all_pairs cs

-- The loop over the map `byRank`. Go leaves the order open and sorts the result; here the ranks
-- rise from 0, which the zero card has, and a rank without cards adds nothing.
unfoldable pub pair_combos : List Card → List Rank → ℕ → Rank → List Combo
pair_combos cards in_run zero r = []
pair_combos cards in_run (suc n) r =
    let cs : List Card = cards_of_rank cards r in
    (if rank_mem in_run r || ltb (length cs) 2 then [] else all_pairs cs)
    ++ pair_combos cards in_run n (r + 1)

unfoldable pub score_pairs : List Card → List Rank → List Combo
score_pairs cards in_run = sort_combos (pair_combos cards in_run 14 0)

unfoldable pub score_flush : Four → Card → Bool → Combo
score_flush h starter is_crib =
    let pts : ℕ = flush_points h starter is_crib in
    if pts == 0
    then no_combo
    else plain_combo flush (sort_cards (four_list h ++ (if pts == 5 then starter ∷ [] else []))) pts

unfoldable pub score_nobs : Four → Card → Combo
score_nobs h starter = elim (nobs_card (four_list h) starter) [
  | none ↦ no_combo
  | some c ↦ plain_combo nobs (c ∷ []) 1
]

abbrev pub points_of : List Combo → ℕ
points_of cs = sum (map (λ c. c.points) cs)

-- The result of `Score` after its check, before its last loop sums the total.
unfoldable pub itemize : Four → Card → Bool → HandResult
itemize h starter is_crib =
    let cards : List Card = five_of h starter in
    let found : Combo × List Rank = score_run cards in
    record {
      total = 0;
      fifteens = score_fifteens cards;
      pairs = score_pairs cards found.1;
      runs = if ltb 0 found.0.points then found.0 ∷ [] else [];
      flush_combo = score_flush h starter is_crib;
      nobs_combo = score_nobs h starter;
    }

unfoldable pub sum_total : HandResult → HandResult
sum_total r = record r { total = points_of (combos r) }

unfoldable pub score : Four → Card → Bool → Fallible HandError HandResult
score h starter is_crib =
    unless (check_distinct (five_of h starter)) (sum_total (itemize h starter is_crib))

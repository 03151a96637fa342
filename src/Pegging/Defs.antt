-- ===== src/Pegging/Defs.antt =====
-- internal/scoring/pegging/score.go: the points of one card played in the play phase.
use mathlib.Core.List.{reverse}
use Prim.Native.Nat.{bit_and, bit_or}
use cribbager.Common.{
  ℕ, zero, suc, ◌+◌, ◌-◌, ◌*◌, ◌%◌, ◌^◌, Bool, false, ◌||◌, List, [], ◌∷◌, ◌++◌, map, leb, ltb,
  ◌==◌, if◌then◌else◌, Option, none, some, drop, length, sum, Fallible, unless,
}
use cribbager.Common.Sort.{sort}
use cribbager.Cribbage.Defs.{Card, card_eq, pip_value}

pub data Kind : Type 0 where
  fifteen thirty_one pair run : Kind

pub record Combo : Type 0 where
  pub kind : Kind
  pub cards : List Card
  pub points : ℕ
  pub run_length : ℕ

-- Go's zero value `Combo{}`.
abbrev pub no_combo : Combo
no_combo = record { kind = fifteen; cards = []; points = 0; run_length = 0 }

pub record PegResult : Type 0 where
  pub total : ℕ
  pub count : ℕ
  pub fifteen_combo : Combo
  pub thirty_one_combo : Combo
  pub pair_combo : Combo
  pub run_combo : Combo

pub data PegError : Type 0 where
  count_exceeds_31 : PegError
  duplicate_card : Card → PegError

-- The loop of `Combos`, and of the hand scorer's: the combos that score.
unfoldable pub scoring : List Combo → List Combo
scoring [] = []
scoring (c ∷ cs) = if ltb 0 c.points then c ∷ scoring cs else scoring cs

unfoldable pub combos : PegResult → List Combo
unfolding scoring
combos r = scoring (r.fifteen_combo ∷ r.thirty_one_combo ∷ r.pair_combo ∷ r.run_combo ∷ [])

unfoldable pub running_count : List Card → ℕ
running_count [] = 0
running_count (c ∷ cs) = pip_value c.rank + running_count cs

-- Whether one of the cards is `c`.
unfoldable pub contains : List Card → Card → Bool
contains [] c = false
contains (x ∷ xs) c = card_eq x c || contains xs c

-- The first two loops of `validate`: the card that is found twice.
unfoldable pub find_duplicate : List Card → Card → Option Card
unfolding contains
find_duplicate [] card = none
find_duplicate (x ∷ xs) card =
    if card_eq x card then some card else if contains xs x then some x else find_duplicate xs card

unfoldable pub validate : List Card → Card → Option PegError
unfolding find_duplicate running_count
validate series card = elim (find_duplicate series card) [
  | some c ↦ some (duplicate_card c)
  | none ↦
      if ltb 31 (running_count series + pip_value card.rank) then some count_exceeds_31 else none
]

-- The loop of `isRun`. `lo` starts at 99; `top` is the source's `hi` plus one, which starts at 0,
-- since `hi` starts at -1. `mask` is a uint16.
unfoldable pub run_scan : ℕ → ℕ → ℕ → ℕ → List ℕ → Bool
run_scan len mask lo top [] = top == lo + len
run_scan len mask lo top (r ∷ rs) =
    let bit : ℕ = 2 ^ r % 2 ^ 16 in
    let rest : Bool =
      run_scan len (bit_or mask bit) (if ltb r lo then r else lo) (if leb top r then r + 1 else top)
        rs in
    if bit_and mask bit == 0 then rest else false

unfoldable pub is_run : List ℕ → Bool
unfolding run_scan
is_run ranks = run_scan (length ranks) 0 99 0 ranks

-- The slice `xs[len(xs)-l:]`.
abbrev pub suffix {ℓ} : {A : Type ℓ} → ℕ → List A → List A
suffix l xs = drop (length xs - l) xs

-- How many cards at the front have rank `r`. The loops that count from the end of a slice run over
-- the reversed list.
unfoldable pub leading_rank : ℕ → List Card → ℕ
leading_rank r [] = 0
leading_rank r (c ∷ cs) = if c.rank == r then suc (leading_rank r cs) else 0

-- The last card's rank, on the reversed list.
unfoldable pub same_as_head : List Card → ℕ
unfolding leading_rank
same_as_head [] = 0
same_as_head (c ∷ cs) = leading_rank c.rank (c ∷ cs)

unfoldable pub trailing_same_rank : List Card → ℕ
unfolding same_as_head
trailing_same_rank all = same_as_head (reverse all)

-- The loop of `longestRunSuffix`, from length `l` down.
unfoldable pub run_suffix_from : ℕ → List Card → ℕ × List Card
run_suffix_from zero all = (0, [])
run_suffix_from (suc l) all =
    let rest : ℕ × List Card = run_suffix_from l all in
    if ltb (suc l) 3
    then (0, [])
    else if is_run (map (λ c. c.rank) (suffix (suc l) all))
    then (suc l, suffix (suc l) all)
    else rest

unfoldable pub longest_run_suffix : List Card → ℕ × List Card
unfolding run_suffix_from
longest_run_suffix all = run_suffix_from (length all) all

-- The last loop of `totalCore`, from length `l` down.
unfoldable pub run_points_from : ℕ → List ℕ → ℕ
run_points_from zero ranks = 0
run_points_from (suc l) ranks =
    let rest : ℕ = run_points_from l ranks in
    if ltb (suc l) 3 then 0 else if is_run (suffix (suc l) ranks) then suc l else rest

-- `totalCore`. Its buffer has room for 32 ranks, more than the 31 cards of a point or more that a count of
-- 31 admits; cards without points, which only rank 0 has, could overflow it, which is left out here.
unfoldable pub total_core : List Card → Card → ℕ
total_core series card =
    let count : ℕ = running_count series + pip_value card.rank in
    let k : ℕ = suc (leading_rank card.rank (reverse series)) in
    let ranks : List ℕ = map (λ c. c.rank) series ++ card.rank ∷ [] in
    (if count == 15 then 2 else 0)
    + (if count == 31 then 2 else 0)
    + k * (k - 1)
    + run_points_from (length ranks) ranks

unfoldable pub total : List Card → Card → Fallible PegError ℕ
total series card = unless (validate series card) (total_core series card)

unfoldable pub less_by_rank : Card → Card → Bool
less_by_rank a b = if a.rank == b.rank then ltb a.suit b.suit else ltb a.rank b.rank

unfoldable pub less_by_suit : Card → Card → Bool
less_by_suit a b = ltb a.suit b.suit

unfoldable pub count_combo : Kind → Bool → List Card → Combo
count_combo kind hit all =
    if hit then record { kind = kind; cards = all; points = 2; run_length = 0 } else no_combo

unfoldable pub pair_combo_of : List Card → Combo
pair_combo_of all =
    let k : ℕ = trailing_same_rank all in
    if leb 2 k
    then record {
      kind = pair;
      cards = sort less_by_suit (suffix k all);
      points = k * (k - 1);
      run_length = 0;
    }
    else no_combo

unfoldable pub run_combo_of : ℕ × List Card → Combo
run_combo_of (l, cards) =
    if leb 3 l
    then record { kind = run; cards = sort less_by_rank cards; points = l; run_length = l }
    else no_combo

-- The result of `Score` after validation, before its last loop sums the total.
unfoldable pub itemize : List Card → Card → PegResult
itemize series card =
    let all : List Card = series ++ card ∷ [] in
    let count : ℕ = running_count series + pip_value card.rank in
    record {
      total = 0;
      count = count;
      fifteen_combo = count_combo fifteen (count == 15) all;
      thirty_one_combo = count_combo thirty_one (count == 31) all;
      pair_combo = pair_combo_of all;
      run_combo = run_combo_of (longest_run_suffix all);
    }

abbrev pub points_of : List Combo → ℕ
points_of cs = sum (map (λ c. c.points) cs)

-- The loop that adds the points of the combos up.
unfoldable pub sum_total : PegResult → PegResult
sum_total r = record r { total = points_of (combos r) }

unfoldable pub score : List Card → Card → Fallible PegError PegResult
score series card = unless (validate series card) (sum_total (itemize series card))

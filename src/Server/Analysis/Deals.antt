-- ===== src/Server/Analysis/Deals.antt =====
-- internal/server/analysis2.go: the grading of one deal (`analyzeDealV2`).
use cribbager.Common.{
  ℕ, ◌+◌, Bool, true, false, not, ◌&&◌, List, [], ◌∷◌, Option, none, some, if◌then◌else◌, ◌==◌,
  get_elem?, ltb, map,
}
use cribbager.Common.Floats.{Floats}
use cribbager.Cribbage.Defs.{Card, Rank, card_eq}
use cribbager.Hand.Defs.{Four, rank_mem}
use cribbager.Game.Defs.{Seat, other, seat_eq, Both, pick}
use cribbager.Game.State.{no_card}
use cribbager.Game.Reconstruct.{PlayDecision}
use cribbager.Bot.Ranking.{same_pair}
use cribbager.Server.Analysis.Verdicts.{DiscardVerdict, PlayVerdict}
use cribbager.Server.Analysis.Engines.{Engine}

-- `distinctRanks`, with the ranks that were seen.
unfoldable pub distinct_from : List Rank → List Card → ℕ
unfolding rank_mem
distinct_from seen [] = 0
distinct_from seen (c ∷ cs) =
    (if rank_mem seen c.rank then 0 else 1) + distinct_from (c.rank ∷ seen) cs

unfoldable pub distinct_ranks : List Card → ℕ
unfolding distinct_from
distinct_ranks cards = distinct_from [] cards

-- The decisions of a deal that the seat was not forced to: `playsByDeal[deal]`.
unfoldable pub plays_by_deal : Seat → ℕ → List PlayDecision → List PlayDecision
unfolding distinct_ranks
plays_by_deal seat deal [] = []
plays_by_deal seat deal (d ∷ ds) =
    if d.deal == deal && (seat_eq d.seat seat && ltb 1 (distinct_ranks d.seen.legal))
    then d ∷ plays_by_deal seat deal ds
    else plays_by_deal seat deal ds

-- `keepOf`: the first four cards that are not thrown, in an array of zero cards.
unfoldable pub not_thrown : Card × Card → List Card → List Card
not_thrown throw [] = []
not_thrown throw (c ∷ cs) =
    if not (card_eq c throw.0) && not (card_eq c throw.1)
    then c ∷ not_thrown throw cs
    else not_thrown throw cs

abbrev pub card_or_zero : Option Card → Card
card_or_zero none = no_card
card_or_zero (some c) = c

unfoldable pub keep_of : List Card → Card × Card → Four
unfolding not_thrown
keep_of h throw =
    let kept = not_thrown throw h in
    record {
      c0 = card_or_zero (get_elem? kept 0);
      c1 = card_or_zero (get_elem? kept 1);
      c2 = card_or_zero (get_elem? kept 2);
      c3 = card_or_zero (get_elem? kept 3);
    }

module _ (F : Floats) where
  -- `throwsAgree` and `playsAgree`; there are three engines, so a first verdict.
  unfoldable pub all_throw : Card × Card → List (DiscardVerdict F) → Bool
  all_throw first [] = true
  all_throw first (v ∷ vs) = same_pair v.best_throw first && all_throw first vs

  unfoldable pub throws_agree : List (DiscardVerdict F) → Bool
  unfolding all_throw
  throws_agree [] = true
  throws_agree (v ∷ vs) = all_throw v.best_throw vs

  unfoldable pub all_play : Rank → List (PlayVerdict F) → Bool
  all_play first [] = true
  all_play first (v ∷ vs) = v.best.rank == first && all_play first vs

  unfoldable pub plays_agree : List (PlayVerdict F) → Bool
  unfolding all_play
  plays_agree [] = true
  plays_agree (v ∷ vs) = all_play v.best.rank vs

  -- `discardDecision`, `playDecision`, `engineRollup` and `dealAnalysis`.
  pub record GradedDiscard : Type 0 where
    pub hand : List Card
    pub throw : Card × Card
    pub keep : Four
    pub engines : List (DiscardVerdict F)
    pub agree : Bool

  pub record GradedPlay : Type 0 where
    pub count : ℕ
    pub pile : List Card
    pub hand : List Card
    pub played : Card
    pub legal : List Card
    pub engines : List (PlayVerdict F)
    pub agree : Bool

  pub record Rollup : Type 0 where
    pub discard_optimal : Bool
    pub pegging_optimal : Bool

  pub record DealAnalysis : Type 0 where
    pub deal : ℕ
    pub dealer : Seat
    pub start_scores : Both ℕ
    pub discard : GradedDiscard
    pub plays : List GradedPlay
    pub rollup : List Rollup

  -- The verdicts of all engines, if each has one.
  abbrev pub cons_both {ℓ} : {A : Type ℓ} → Option A → Option (List A) → Option (List A)
  cons_both none vs = none
  cons_both (some v) none = none
  cons_both (some v) (some vs) = some (v ∷ vs)

  unfoldable pub all_verdicts {ℓ} :
      {V : Type ℓ} → (Engine F → Option V) → List (Engine F) → Option (List V)
  all_verdicts rate [] = some []
  all_verdicts rate (e ∷ es) = cons_both (rate e) (all_verdicts rate es)

  -- The rollups after a play's verdicts: one that is not optimal takes the deal's pegging with it.
  unfoldable pub roll_play : List Rollup → List (PlayVerdict F) → List Rollup
  roll_play [] vs = []
  roll_play (r ∷ rs) [] = r ∷ rs
  roll_play (r ∷ rs) (v ∷ vs) =
      (if v.optimal then r else record r { pegging_optimal = false }) ∷ roll_play rs vs

  unfoldable pub graded_play : PlayDecision → List (PlayVerdict F) → GradedPlay
  unfolding plays_agree
  graded_play d vs = record {
    count = d.seen.count;
    pile = d.seen.pile;
    hand = d.seen.your_hand;
    played = d.played;
    legal = d.seen.legal;
    engines = vs;
    agree = plays_agree vs;
  }

  abbrev pub with_play :
      PlayDecision
      → List (PlayVerdict F)
      → Option (List GradedPlay × List Rollup)
      → Option (List GradedPlay × List Rollup)
  with_play d vs none = none
  with_play d vs (some (ps, rs)) = some (graded_play d vs ∷ ps, rs)

  -- The loop over the plays, with the rollups so far.
  abbrev pub after_verdicts :
      PlayDecision
      → (List Rollup → Option (List GradedPlay × List Rollup))
      → List Rollup
      → Option (List (PlayVerdict F))
      → Option (List GradedPlay × List Rollup)
  after_verdicts d rest rs none = none
  after_verdicts d rest rs (some vs) = with_play d vs (rest (roll_play rs vs))

  unfoldable pub grade_plays :
      List (Engine F) → List PlayDecision → List Rollup → Option (List GradedPlay × List Rollup)
  unfolding all_verdicts graded_play roll_play
  grade_plays engines [] rs = some ([], rs)
  grade_plays engines (d ∷ ds) rs =
      after_verdicts d (grade_plays engines ds) rs
        (all_verdicts (λ e. e.rate_play d.seen d.played) engines)

  abbrev pub fresh_rollup : DiscardVerdict F → Rollup
  fresh_rollup v = record { discard_optimal = v.optimal; pegging_optimal = true }

  -- Where a deal stands: its index, dealer, scores at its start and the seat's six cards.
  pub record DealStart : Type 0 where
    pub deal : ℕ
    pub dealer : Seat
    pub start : Both ℕ
    pub six : List Card

  unfoldable pub deal_analysis :
      DealStart
      → Card × Card
      → List (DiscardVerdict F)
      → List GradedPlay × List Rollup
      → DealAnalysis
  unfolding keep_of throws_agree
  deal_analysis at throw vs (plays, rollup) = record {
    deal = at.deal;
    dealer = at.dealer;
    start_scores = at.start;
    discard = record {
      hand = at.six;
      throw = throw;
      keep = keep_of at.six throw;
      engines = vs;
      agree = throws_agree vs;
    };
    plays = plays;
    rollup = rollup;
  }

  abbrev pub finish_deal :
      DealStart
      → Card × Card
      → List (DiscardVerdict F)
      → Option (List GradedPlay × List Rollup)
      → Option DealAnalysis
  finish_deal at throw vs none = none
  finish_deal at throw vs (some graded) = some (deal_analysis at throw vs graded)

  abbrev pub grade_after_discard :
      List (Engine F)
      → DealStart
      → Card × Card
      → List PlayDecision
      → Option (List (DiscardVerdict F))
      → Option DealAnalysis
  grade_after_discard engines at throw plays none = none
  grade_after_discard engines at throw plays (some vs) =
      finish_deal at throw vs (grade_plays engines plays (map fresh_rollup vs))

  -- `analyzeDealV2`
  unfoldable pub analyze_deal :
      List (Engine F) → Seat → DealStart → Card × Card → List PlayDecision → Option DealAnalysis
  unfolding all_verdicts grade_plays deal_analysis
  analyze_deal engines seat at throw plays = grade_after_discard engines at throw plays (
      all_verdicts
        (λ e.
          e.rate_discard at.six (seat_eq at.dealer seat) (pick at.start seat)
            (pick at.start (other seat)) throw)
        engines)

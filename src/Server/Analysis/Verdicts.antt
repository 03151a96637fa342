-- ===== src/Server/Analysis/Verdicts.antt =====
-- The verdicts of internal/server/analysis2.go, and the analysis of discards in analysis.go.
use cribbager.Common.{
  Text, ℕ, ◌+◌, Bool, List, [], ◌∷◌, Option, none, some, if◌then◌else◌, ◌==◌, length,
}
use cribbager.Common.Floats.{Floats}
use cribbager.Common.Sorting.{find}
use cribbager.Cribbage.Defs.{Card, Rank}
use cribbager.Hand.Defs.{Four}
use cribbager.Game.Defs.{Seat, seat_eq, pick, Event, hand_dealt, discarded}
use cribbager.Bot.Ranking.{RankedDiscard, rank_discards, same_pair}
use cribbager.Server.Results.{Result}

-- "points" and "winprob".
pub data Units : Type 0 where
  units_points units_winprob : Units

abbrev pub beside {ℓ} : {A : Type ℓ} → A → Option A → Option (A × A)
beside best none = none
beside best (some chosen) = some (best, chosen)

module _ (F : Floats) where
  -- `if delta < 0 { delta = 0 }`
  unfoldable pub never_negative : F.Float → F.Float
  never_negative delta = if F.gt (F.of_int 0) delta then F.of_int 0 else delta

  abbrev pub rounded : Units → F.Float → F.Float
  rounded units_points v = F.round4 v
  rounded units_winprob v = F.round6 v

  pub record DiscardVerdict : Type 0 where
    pub best_throw : Card × Card
    pub best_keep : Four
    pub chosen_value : F.Float
    pub best_value : F.Float
    pub delta : F.Float
    pub optimal : Bool
    pub units : Units

  unfoldable pub discard_verdict : Card × Card → Four → F.Float → F.Float → Units → DiscardVerdict
  unfolding never_negative
  discard_verdict best_throw best_keep best chosen units =
      let delta = never_negative (F.minus best chosen) in
      record {
        best_throw = best_throw;
        best_keep = best_keep;
        chosen_value = rounded units chosen;
        best_value = rounded units best;
        delta = rounded units delta;
        optimal = F.negligible delta;
        units = units;
      }

  pub record PlayVerdict : Type 0 where
    pub best : Card
    pub chosen_value : F.Float
    pub best_value : F.Float
    pub delta : F.Float
    pub optimal : Bool
    pub units : Units

  unfoldable pub play_verdict : Card → F.Float → F.Float → Units → PlayVerdict
  unfolding never_negative
  play_verdict best best_val chosen units =
      let delta = never_negative (F.minus best_val chosen) in
      record {
        best = best;
        chosen_value = rounded units chosen;
        best_value = rounded units best_val;
        delta = rounded units delta;
        optimal = F.negligible delta;
        units = units;
      }

  -- `discardAnalysis` of analysis.go
  pub record DiscardAnalysis : Type 0 where
    pub hand : List Card
    pub dealer : Bool
    pub throw : Card × Card
    pub keep : Four
    pub keep_ev : F.Float
    pub best_throw : Card × Card
    pub best_keep : Four
    pub best_ev : F.Float
    pub delta_ev : F.Float
    pub optimal : Bool

  -- What `rateDiscard` makes of the first ranked hold and of the one that was chosen.
  unfoldable pub discard_analysis :
      List Card → Bool → RankedDiscard F → RankedDiscard F → DiscardAnalysis
  unfolding never_negative
  discard_analysis h my_crib best chosen =
      let delta = never_negative (F.minus best.score chosen.score) in
      record {
        hand = h;
        dealer = my_crib;
        throw = chosen.discard;
        keep = chosen.keep;
        keep_ev = F.round4 chosen.score;
        best_throw = best.discard;
        best_keep = best.keep;
        best_ev = F.round4 best.score;
        delta_ev = F.round4 delta;
        optimal = F.below_epsilon delta;
      }

  -- The first hold that throws these cards, beside the first of all.
  unfoldable pub chosen_of :
      Card × Card → List (RankedDiscard F) → Option (RankedDiscard F × RankedDiscard F)
  chosen_of throw [] = none
  chosen_of throw (best ∷ rest) = beside best (find (λ r. same_pair r.discard throw) (best ∷ rest))

  abbrev pub analysis_of :
      List Card → Bool → Option (RankedDiscard F × RankedDiscard F) → Option DiscardAnalysis
  analysis_of h my_crib none = none
  analysis_of h my_crib (some (best, chosen)) = some (discard_analysis h my_crib best chosen)

  -- `analysisSummary`
  pub record AnalysisSummary : Type 0 where
    pub hands : ℕ
    pub optimal_discards : ℕ
    pub total_ev_lost : F.Float

  -- `gameAnalysisResponse`
  pub record GameAnalysisResponse : Type 0 where
    pub game_id : Text
    pub seat : Seat
    pub discards : List DiscardAnalysis
    pub summary : AnalysisSummary

  module _ (table : Rank → Rank → Bool → F.Float) where
    -- `rateDiscard` of analysis.go; six cards have fifteen holds, so there is a first.
    unfoldable pub rate_discard : List Card → Bool → Card × Card → Option DiscardAnalysis
    unfolding chosen_of discard_analysis
    rate_discard h my_crib throw =
        analysis_of h my_crib (chosen_of throw (rank_discards F table h my_crib))

    -- The hand that is dealt and not yet thrown from, with the dealer.
    abbrev pub Held : Type 0
    Held = Option (List Card × Seat)

    abbrev pub held_six : List Card → Seat → Held
    held_six h dealer = if length h == 6 then some (h, dealer) else none

    abbrev pub prepend : Option DiscardAnalysis → List DiscardAnalysis → List DiscardAnalysis
    prepend none rest = rest
    prepend (some da) rest = da ∷ rest

    abbrev pub rated_throw : Seat → Held → Seat → Card × Card → Option DiscardAnalysis
    rated_throw seat none s throw = none
    rated_throw seat (some (h, dealer)) s throw =
        if seat_eq s seat then rate_discard h (seat_eq dealer seat) throw else none

    -- What is held after a throw of the seat `s`.
    abbrev pub held_after : Seat → Held → Seat → Held
    held_after seat held s = if seat_eq s seat then none else held

    -- The loop of `analyzeDiscards`.
    unfoldable pub discards_from : Seat → Held → List Event → List DiscardAnalysis
    unfolding rate_discard
    discards_from seat held [] = []
    discards_from seat held (hand_dealt dealer hands ∷ es) =
        discards_from seat (held_six (pick hands seat) dealer) es
    discards_from seat held (discarded s c d ∷ es) =
        prepend (rated_throw seat held s (c, d)) (discards_from seat (held_after seat held s) es)
    discards_from seat held (e ∷ es) = discards_from seat held es

    abbrev pub count_optimal : List DiscardAnalysis → ℕ
    count_optimal [] = 0
    count_optimal (da ∷ das) = (if da.optimal then 1 else 0) + count_optimal das

    abbrev pub sum_lost : F.Float → List DiscardAnalysis → F.Float
    sum_lost sum [] = sum
    sum_lost sum (da ∷ das) = sum_lost (F.plus sum da.delta_ev) das

    -- `analyzeDiscards`
    unfoldable pub analyze_discards : Result → Seat → GameAnalysisResponse
    unfolding discards_from
    analyze_discards res seat =
        let discards = discards_from seat none res.events in
        record {
          game_id = res.id;
          seat = seat;
          discards = discards;
          summary = record {
            hands = length discards;
            optimal_discards = count_optimal discards;
            total_ev_lost = F.round4 (sum_lost (F.of_int 0) discards);
          };
        }

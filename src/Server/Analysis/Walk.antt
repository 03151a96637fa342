-- ===== src/Server/Analysis/Walk.antt =====
-- internal/server/analysis2.go: the walk along the log of a finished game (`analyzeGameV2`).
use cribbager.Common.{
  Text, ℕ, suc, ◌+◌, ◌-◌, List, [], ◌∷◌, Option, none, some, if◌then◌else◌, ◌==◌, length, map, ok,
  err,
}
use cribbager.Common.Floats.{Floats}
use cribbager.Cribbage.Defs.{Card}
use cribbager.Game.Defs.{
  Seat, seat0, seat_eq, Both, both, pick, put, Event, hand_dealt, starter_cut, card_played,
  go_awarded, hand_shown, crib_shown, cut_for_deal, handicap, discarded, pass, series_reset,
  game_won, show_not_counted,
}
use cribbager.Game.Reconstruct.{PlayDecision, Found, reconstruct_plays}
use cribbager.Server.Analysis.Verdicts.{
  Units, units_points, units_winprob, DiscardVerdict, PlayVerdict,
}
use cribbager.Server.Analysis.Engines.{Engine}
use cribbager.Server.Analysis.Deals.{
  plays_by_deal, GradedPlay, DealStart, DealAnalysis, analyze_deal,
}

-- The loop's variables; `dealt` is `deal + 1`, and `held` the hand while `haveHand`.
pub record Walk : Type 0 where
  pub scores : Both ℕ
  pub dealt : ℕ
  pub dealer : Seat
  pub start : Both ℕ
  pub held : Option (List Card)

abbrev pub first_walk : Walk
first_walk = record { scores = both 0; dealt = 0; dealer = seat0; start = both 0; held = none }

abbrev pub six_of : List Card → Option (List Card)
six_of h = if length h == 6 then some h else none

abbrev pub scored : Walk → Seat → ℕ → Walk
scored w s pts = record w { scores = put w.scores s (pick w.scores s + pts) }

-- What one event does to the variables.
unfoldable pub walk_event : Seat → Walk → Event → Walk
walk_event seat w (handicap scores) = record w { scores = scores }
walk_event seat w (hand_dealt dealer hands) = record w {
  dealt = suc w.dealt;
  dealer = dealer;
  start = w.scores;
  held = six_of (pick hands seat);
}
walk_event seat w (discarded s c d) = record w { held = if seat_eq s seat then none else w.held }
walk_event seat w (starter_cut card heels) = scored w w.dealer heels
walk_event seat w (card_played s card score) = scored w s score.total
walk_event seat w (go_awarded s points) = scored w s points
walk_event seat w (hand_shown s cards score) = scored w s score.total
walk_event seat w (crib_shown cards score) = scored w w.dealer score.total
walk_event seat w (cut_for_deal cuts dealer) = w
walk_event seat w (pass s) = w
walk_event seat w (series_reset s) = w
walk_event seat w (game_won s) = w
walk_event seat w (show_not_counted s cards is_crib) = w

module _ (F : Floats) where
  -- A discard of the seat from the hand that it holds.
  abbrev pub deal_start : Walk → List Card → DealStart F
  deal_start w six = record { deal = w.dealt - 1; dealer = w.dealer; start = w.start; six = six }

  abbrev pub graded_from :
      List (Engine F)
      → Seat
      → List PlayDecision
      → Walk
      → Card × Card
      → Option (List Card)
      → Option (DealAnalysis F)
  graded_from engines seat decisions w throw none = none
  graded_from engines seat decisions w throw (some six) =
      analyze_deal F engines seat (deal_start w six) throw
        (plays_by_deal seat (w.dealt - 1) decisions)

  -- The deal that an event completes for the analysis.
  unfoldable pub graded_by :
      List (Engine F) → Seat → List PlayDecision → Walk → Event → Option (DealAnalysis F)
  unfolding analyze_deal plays_by_deal
  graded_by engines seat decisions w (discarded s c d) =
      if seat_eq s seat then graded_from engines seat decisions w (c, d) w.held else none
  graded_by engines seat decisions w _ = none

  abbrev pub add_graded : Option (DealAnalysis F) → List (DealAnalysis F) → List (DealAnalysis F)
  add_graded none das = das
  add_graded (some da) das = da ∷ das

  unfoldable pub deals_from :
      List (Engine F) → Seat → List PlayDecision → Walk → List Event → List (DealAnalysis F)
  unfolding graded_by walk_event
  deals_from engines seat decisions w [] = []
  deals_from engines seat decisions w (e ∷ es) =
      add_graded (graded_by engines seat decisions w e)
        (deals_from engines seat decisions (walk_event seat w e) es)

  -- `engineSummary`
  pub record Summary : Type 0 where
    pub hands : ℕ
    pub optimal_discards : ℕ
    pub discard_delta_points : F.Float
    pub discard_delta_winprob : F.Float
    pub play_decisions : ℕ
    pub optimal_plays : ℕ
    pub play_delta_points : F.Float
    pub play_delta_winprob : F.Float

  abbrev pub no_summary : Summary
  no_summary = record {
    hands = 0;
    optimal_discards = 0;
    discard_delta_points = F.of_int 0;
    discard_delta_winprob = F.of_int 0;
    play_decisions = 0;
    optimal_plays = 0;
    play_delta_points = F.of_int 0;
    play_delta_winprob = F.of_int 0;
  }

  abbrev pub add_discard_delta : Units → F.Float → Summary → Summary
  add_discard_delta units_points delta s = record s {
    discard_delta_points = F.plus s.discard_delta_points delta;
  }
  add_discard_delta units_winprob delta s = record s {
    discard_delta_winprob = F.plus s.discard_delta_winprob delta;
  }

  unfoldable pub add_discard : Summary → DiscardVerdict F → Summary
  add_discard s v = add_discard_delta v.units v.delta (record s {
    hands = s.hands + 1;
    optimal_discards = s.optimal_discards + (if v.optimal then 1 else 0);
  })

  abbrev pub add_play_delta : Units → F.Float → Summary → Summary
  add_play_delta units_points delta s = record s {
    play_delta_points = F.plus s.play_delta_points delta;
  }
  add_play_delta units_winprob delta s = record s {
    play_delta_winprob = F.plus s.play_delta_winprob delta;
  }

  unfoldable pub add_play : Summary → PlayVerdict F → Summary
  add_play s v = add_play_delta v.units v.delta (record s {
    play_decisions = s.play_decisions + 1;
    optimal_plays = s.optimal_plays + (if v.optimal then 1 else 0);
  })

  -- The engines' summaries, each with its verdict.
  unfoldable pub add_each {ℓ} :
      {V : Type ℓ} → (Summary → V → Summary) → List Summary → List V → List Summary
  add_each add [] vs = []
  add_each add (s ∷ ss) [] = s ∷ ss
  add_each add (s ∷ ss) (v ∷ vs) = add s v ∷ add_each add ss vs

  unfoldable pub add_plays : List Summary → List (GradedPlay F) → List Summary
  unfolding add_each add_play
  add_plays ss [] = ss
  add_plays ss (p ∷ ps) = add_plays (add_each add_play ss p.engines) ps

  unfoldable pub add_deals : List Summary → List (DealAnalysis F) → List Summary
  unfolding add_each add_discard add_plays
  add_deals ss [] = ss
  add_deals ss (da ∷ das) =
      add_deals (add_plays (add_each add_discard ss da.discard.engines) da.plays) das

  abbrev pub rounded_summary : Summary → Summary
  rounded_summary s = record s {
    discard_delta_points = F.round4 s.discard_delta_points;
    discard_delta_winprob = F.round6 s.discard_delta_winprob;
    play_delta_points = F.round4 s.play_delta_points;
    play_delta_winprob = F.round6 s.play_delta_winprob;
  }

  -- `gameAnalysisV2Response`
  pub record GameAnalysis : Type 0 where
    pub game_id : Text
    pub seat : Seat
    pub engines : List (Text × Text)
    pub deals : List (DealAnalysis F)
    pub summary : List Summary

  unfoldable pub analyze_decisions :
      Text → Seat → List Event → List (Engine F) → List PlayDecision → GameAnalysis
  unfolding deals_from add_deals
  analyze_decisions id seat events engines decisions =
      let deals = deals_from engines seat decisions first_walk events in
      record {
        game_id = id;
        seat = seat;
        engines = map (λ (e : Engine F). (e.name, e.version)) engines;
        deals = deals;
        summary =
            map rounded_summary (add_deals (map (λ (e : Engine F). no_summary) engines) deals);
      }

  abbrev pub analyzed : Text → Seat → List Event → List (Engine F) → Found → Option GameAnalysis
  analyzed id seat events engines (err e) = none
  analyzed id seat events engines (ok decisions) =
      some (analyze_decisions id seat events engines decisions)

  -- `analyzeGameV2`
  unfoldable pub analyze_game : Text → Seat → List Event → List (Engine F) → Option GameAnalysis
  unfolding analyze_decisions reconstruct_plays
  analyze_game id seat events engines = analyzed id seat events engines (reconstruct_plays events)

-- ===== src/Tests/Analyses.antt =====
-- Witnesses on the evaluators and on the analysis of finished games, over the natural numbers as the
-- arithmetic.
use cribbager.Common.{
  ℕ, ◌+◌, ◌-◌, ◌/◌, ◌≡◌, refl, Bool, true, ◌||◌, List, [], ◌∷◌, none, some, ltb, leb, ◌==◌, arith,
  All, length, ok, err, if◌then◌else◌,
}
use cribbager.Common.Floats.{Floats, IsFinite}
use cribbager.Common.Int.{pos}
use cribbager.Common.Sorting.{IsSorted}
use cribbager.Cribbage.Defs.{Card, Rank, deck, ranks_from, suits_from}
use cribbager.Pegging.Defs.{contains, PegResult, no_combo}
use cribbager.Hand.Defs.{
  total, total_of, check_distinct, fifteen_points, subset_sum, rank_count, sum_ranks, product_ranks,
  run_end, run_points, flush_points, nobs_point, nobs_card,
}
use cribbager.Game.Defs.{
  phase_play, seat0, seat1, both, Both, Event, cut_for_deal, hand_dealt, discarded, starter_cut,
  card_played,
}
use cribbager.Game.State.{
  zero_state, reduce, fold, without, add_points, clamp, turn, playables, any_playable,
}
use cribbager.Game.View.{PlayerView, view_state}
use cribbager.Game.Reconstruct.{
  reconstruct_plays, reconstruct_from, decisions_of, decide, check_decision, PlayDecision, Found,
}
use cribbager.Bot.Splits.{
  expected_hand_value, discard_pairs, pick_two, pick_one, in_some, remaining, fits_histogram,
  sum_points,
}
use cribbager.Bot.Ranking.{
  RankedDiscard, rank_discards, split_value, crib_ev, rank_plays_with, better_discard,
}
use cribbager.Bot.Ranked.{lists, SplitsOf, rank_discards-Ranked}
use cribbager.Server.Analysis.Verdicts.{units_points}
use cribbager.Server.Analysis.Engines.{
  exact_ev_engine, Evaluators, ListsAll, analysis_engines, rated_throw,
}
use cribbager.Server.Analysis.Given.{rank_plays_with-lists, GivesDiscard, GivesPlay}
use cribbager.Server.Analysis.Own.{rate_discard-IsBest, IsBest, OwnDiscard}
use cribbager.Server.Analysis.Rates.{engines_throw, analysis_engines-Grade}
use cribbager.Server.Analysis.Walk.{analyze_game, GameAnalysis, deals_from, first_walk}
use cribbager.Server.Analysis.Starts.{Started, engine_starts, deals_from-Started}
use cribbager.Server.Analysis.Complete.{lawful_throws, count_discards, analyze_game-engines}
use cribbager.Server.Analysis.Aligned.{Aligned}
use cribbager.Server.Analysis.Totals.{Counted, count_plays, analyze_game-Counted}
use cribbager.Common.Sort.{sort, insert}
use cribbager.Server.DiscardTool.{DiscardEvalRequest, scores_of, ranking_of, handle_discard_eval}
use cribbager.Server.DiscardAnswers.{all_fit, its_ranking, Answers, handle_discard_eval-Answers}
use cribbager.Tests.Matches.{card}

abbrev numbers : Floats
numbers = record {
  Float = ℕ;
  gt = λ a b. ltb b a;
  plus = λ a b. a + b;
  minus = λ a b. a - b;
  over = λ a b. a / b;
  negated = λ a. 0;
  of_int = λ n. n;
  thousandths = λ n. 0;
  negligible = λ v. v == 0;
  below_epsilon = λ v. v == 0;
  at_least_90 = λ v. leb 1 v;
  round4 = λ v. v;
  round6 = λ v. v;
}

numbers-IsFinite : IsFinite numbers
numbers-IsFinite = record {
  asymmetric = λ a b h. ground arith;
  negatively_transitive = λ a b c h k. ground arith;
  irreflexive = λ a. ground arith;
  minus_self = λ a. omega arith;
  zero_negligible = refl;
  zero_below_epsilon = refl;
  round4_keeps_sign = λ a h. h;
  round6_keeps_sign = λ a h. h;
}

abbrev table : Rank → Rank → Bool → ℕ
table lo hi suited = if lo == hi then 2 else 1

abbrev evaluators : Evaluators numbers
evaluators = record {
  table = table;
  rank_discards_win = λ h my_crib my opp. rank_discards numbers table h my_crib;
  rank_plays_win = λ v. rank_plays_with numbers v (λ pile n. 0);
  in_reach = λ my opp dealer. ltb 90 my || ltb 90 opp;
  reply = λ v pile n. 0;
  discard_net = λ keep throw dealer. 0;
  play_net = λ v r. 0;
  ml_version = [];
  champion_version = [];
}

evaluators-ListsAll : ListsAll numbers evaluators
evaluators-ListsAll = record {
  lists_throws = λ h my_crib my opp throw e. e;
  lists_plays = λ v c e. rank_plays_with-lists numbers v (λ pile n. 0) c e;
}

abbrev six : List Card
six = card 5 0 ∷ card 5 1 ∷ card 5 2 ∷ card 11 3 ∷ card 2 0 ∷ card 13 1 ∷ []

rank_discards-Ranked_example :
    (length (rank_discards numbers table six true) ≡ 15)
    × IsSorted (better_discard numbers) (rank_discards numbers table six true)
    × All (SplitsOf numbers six) (rank_discards numbers table six true)
    × (lists numbers (card 13 1, card 2 0) (rank_discards numbers table six true) ≡ true)
unfolding contains
rank_discards-Ranked_example =
    rank_discards-Ranked numbers numbers-IsFinite table true (card 5 0) (card 5 1) (card 5 2)
      (card 11 3) (card 2 0) (card 13 1) (card 13 1) (card 2 0) refl refl refl

-- A view in the play: a king is to be played, or a two.
abbrev facing : PlayerView
facing = record {
  you = seat0;
  dealer = seat1;
  phase = phase_play;
  scores = both 60;
  your_hand = card 2 0 ∷ card 13 1 ∷ [];
  your_discards = none;
  opponent_cards = 2;
  crib_cards = 4;
  starter = none;
  pile = [];
  your_played = [];
  opponent_played = [];
  count = 0;
  to_play = some seat0;
  legal = card 2 0 ∷ card 13 1 ∷ [];
  winner = none;
  version = 9;
}

analysis_engines-Grade_example :
    All
      (λ e.
        GivesDiscard numbers numbers-IsFinite (e.rate_discard six true 60 95 (card 2 0, card 13 1)))
      (analysis_engines numbers evaluators)
    × All
        (λ e. GivesPlay numbers numbers-IsFinite (e.rate_play facing (card 13 1)))
        (analysis_engines numbers evaluators)
unfolding contains
analysis_engines-Grade_example =
    analysis_engines-Grade numbers numbers-IsFinite evaluators evaluators-ListsAll six true 60 95
      (card 2 0) (card 13 1) facing (card 13 1) refl refl refl refl

-- A verdict of the exact-ev engine on a throw.
exact_given : GivesDiscard numbers numbers-IsFinite (
    rated_throw numbers
      (λ rd. rd.score)
      units_points
      (rank_discards numbers table six true)
      (card 2 0, card 13 1))
unfolding contains
exact_given =
    (engines_throw numbers numbers-IsFinite evaluators evaluators-ListsAll six true 60 95 (card 2 0)
      (card 13 1) refl refl refl).1.1.0

rate_discard-IsBest_example :
    ((best : RankedDiscard numbers) × (best.discard ≡ exact_given.0.best_throw)
      × (best.keep ≡ exact_given.0.best_keep)
      × (best.score ≡ exact_given.0.best_value)
      × IsBest numbers numbers-IsFinite best (rank_discards numbers table six true))
    × OwnDiscard numbers numbers-IsFinite
        ((exact_ev_engine numbers evaluators).rate_discard six true 60 95 exact_given.0.best_throw)
        units_points
rate_discard-IsBest_example =
    rate_discard-IsBest numbers numbers-IsFinite evaluators six true 60 95 (card 2 0, card 13 1)
      exact_given.0 exact_given.1

-- A log with the throws of both seats, the starter and the first card.
abbrev other_six : List Card
other_six = card 9 0 ∷ card 9 1 ∷ card 3 2 ∷ card 4 3 ∷ card 7 0 ∷ card 8 1 ∷ []

abbrev pegged : PegResult
pegged = record {
  total = 0;
  count = 9;
  fifteen_combo = no_combo;
  thirty_one_combo = no_combo;
  pair_combo = no_combo;
  run_combo = no_combo;
}

abbrev opening : Event
opening = cut_for_deal (record { at0 = card 1 0; at1 = card 2 0 }) seat0

abbrev hands : Both (List Card)
hands = record { at0 = six; at1 = other_six }

abbrev moves : List Event
moves =
    discarded seat0 (card 2 0) (card 13 1)
    ∷ discarded seat1 (card 7 0) (card 8 1)
    ∷ starter_cut (card 11 2) 2
    ∷ card_played seat1 (card 9 0) pegged
    ∷ []

abbrev log : List Event
log = opening ∷ hand_dealt seat0 hands ∷ moves

abbrev decisions_in : Found → List PlayDecision
decisions_in (ok ds) = ds
decisions_in (err e) = []

log_found : reconstruct_plays log ≡ ok (decisions_in (reconstruct_plays log))
unfolding reconstruct_plays reconstruct_from decisions_of decide check_decision view_state reduce
    fold without add_points clamp turn playables any_playable contains
log_found = refl

log_lawful : lawful_throws seat0 none log ≡ true
unfolding lawful_throws contains
log_lawful = refl

analyze_game-engines_example :
    (r : GameAnalysis numbers) × (analyze_game numbers [] seat0 log
        (analysis_engines numbers evaluators)
      ≡ some r)
    × (length r.deals ≡ count_discards seat0 log)
analyze_game-engines_example =
    analyze_game-engines numbers numbers-IsFinite evaluators evaluators-ListsAll [] seat0 log
      (decisions_in (reconstruct_plays log)) log_found log_lawful

analysed : GameAnalysis numbers
analysed =
    (analyze_game-engines numbers numbers-IsFinite evaluators evaluators-ListsAll [] seat0 log
      (decisions_in (reconstruct_plays log)) log_found log_lawful).0

analysed_lem :
    analyze_game numbers [] seat0 log (analysis_engines numbers evaluators) ≡ some analysed
unfolding analysed
analysed_lem =
    (analyze_game-engines numbers numbers-IsFinite evaluators evaluators-ListsAll [] seat0 log
      (decisions_in (reconstruct_plays log)) log_found log_lawful).1

analyze_game-Counted_example :
    (length analysed.summary ≡ 3)
    × All
        (Counted numbers (length analysed.deals) (count_plays numbers analysed.deals))
        analysed.summary
    × All (Aligned numbers 3) analysed.deals
analyze_game-Counted_example =
    analyze_game-Counted numbers [] seat0 log (analysis_engines numbers evaluators) analysed
      analysed_lem

deals_from-Started_example :
    All
      (Started numbers 121 (engine_starts 121 zero_state log))
      (deals_from numbers (analysis_engines numbers evaluators) seat0 [] first_walk log)
deals_from-Started_example =
    deals_from-Started numbers 121 (analysis_engines numbers evaluators) seat0 [] opening seat0
      hands moves (omega arith) tt refl

-- A request at 100 to 90 points.
abbrev request : DiscardEvalRequest
request = record { hand = six; dealer = true; my_score = some (pos 100); opp_score = some (pos 90) }

abbrev even_chances : ℕ → ℕ → Bool → ℕ
even_chances my opp dealer = 1

request_fits : all_fit numbers six (its_ranking numbers evaluators even_chances request) ≡ true
unfolding ranking_of scores_of rank_discards split_value crib_ev expected_hand_value discard_pairs
    pick_two pick_one sort insert fits_histogram remaining total total_of check_distinct contains
    fifteen_points subset_sum rank_count sum_ranks run_points run_end product_ranks flush_points
    nobs_point nobs_card deck ranks_from suits_from in_some sum_points
request_fits = refl

handle_discard_eval-Answers_example :
    Answers numbers evaluators even_chances request
      (handle_discard_eval numbers evaluators even_chances (some request))
handle_discard_eval-Answers_example =
    handle_discard_eval-Answers numbers evaluators even_chances request request_fits

-- ===== src/Server/DiscardTool.antt =====
-- internal/server/tools.go: `handleDiscardEval`, the grading of the holds of six cards. A body that
-- decodeJSON does not read is `none`; the win objective's evaluators are parameters.
use cribbager.Common.{
  ℕ, suc, ◌-◌, Bool, false, not, ◌||◌, List, [], ◌∷◌, ◌++◌, Option, none, some, if◌then◌else◌, leb,
  ◌==◌, length, map_option,
}
use cribbager.Common.Int.{ℤ, pos, negsuc}
use cribbager.Common.Floats.{Floats}
use cribbager.Cribbage.Defs.{Card}
use cribbager.Pegging.Defs.{contains}
use cribbager.Hand.Defs.{Four}
use cribbager.Bot.Splits.{hand_value_dist}
use cribbager.Bot.Ranking.{RankedDiscard, rank_discards}
use cribbager.Server.Handlers.{Answer, replied, refused, handler_panics}
use cribbager.Server.Analysis.Engines.{Evaluators}

pub record DiscardEvalRequest : Type 0 where
  pub hand : List Card
  pub dealer : Bool
  pub my_score : Option ℤ
  pub opp_score : Option ℤ

unfoldable pub has_duplicate : List Card → Bool
unfolding contains
has_duplicate [] = false
has_duplicate (c ∷ cs) = contains cs c || has_duplicate cs

-- A score between 0 and 120.
abbrev pub score_of : ℤ → Option ℕ
score_of (pos n) = if leb n 120 then some n else none
score_of (negsuc n) = none

-- The scores of a request: none, both, or such that it is refused.
pub data Scores : Type 0 where
  no_scores bad_scores : Scores
  both_scores : ℕ → ℕ → Scores

abbrev pub both_in_range : Option ℕ → Option ℕ → Scores
both_in_range none b = bad_scores
both_in_range (some m) none = bad_scores
both_in_range (some m) (some n) = both_scores m n

unfoldable pub scores_of : Option ℤ → Option ℤ → Scores
scores_of none none = no_scores
scores_of (some m) (some n) = both_in_range (score_of m) (score_of n)
scores_of none (some n) = bad_scores
scores_of (some m) none = bad_scores

module _ (F : Floats) where
  -- What `handUpside` gives.
  pub record Upside : Type 0 where
    pub wire : List F.Float
    pub p_ge_12 : F.Float
    pub p90 : Option ℕ
    pub ceiling : ℕ

  -- The loop, from the score `s` on, with the sum so far; `none` is the -1 of `p90`.
  unfoldable pub upside_from : ℕ → F.Float → Upside → List F.Float → Upside
  upside_from s cum u [] = u
  upside_from s cum u (p ∷ dist) =
      let cum' = F.plus cum p in
      let first = if F.at_least_90 cum' then some s else none in
      upside_from (suc s) cum'
        (record {
          wire = u.wire ++ F.round6 p ∷ [];
          p_ge_12 = if leb 12 s then F.plus u.p_ge_12 p else u.p_ge_12;
          p90 = elim u.p90 [ none ↦ first | some t ↦ some t ];
          ceiling = if F.gt p (F.of_int 0) then s else u.ceiling;
        })
        dist

  unfoldable pub hand_upside : List F.Float → Upside
  unfolding upside_from
  hand_upside dist =
      let u =
        upside_from 0 (F.of_int 0)
          (record { wire = []; p_ge_12 = F.of_int 0; p90 = none; ceiling = 0 }) dist in
      record u { p_ge_12 = F.round6 u.p_ge_12 }

  abbrev pub or_zero : Option ℕ → ℕ
  or_zero none = 0
  or_zero (some n) = n

  -- `rankedHold`
  pub record RankedHold : Type 0 where
    pub throw : Card × Card
    pub keep : Four
    pub hand_ev : F.Float
    pub crib_ev : F.Float
    pub ev : F.Float
    pub win : F.Float
    pub hand_dist : List F.Float
    pub hand_p_ge_12 : F.Float
    pub hand_p90 : ℕ
    pub hand_ceiling : ℕ

  unfoldable pub ranked_hold : RankedDiscard F → List F.Float → RankedHold
  unfolding hand_upside
  ranked_hold rd dist =
      let u = hand_upside dist in
      record {
        throw = rd.discard;
        keep = rd.keep;
        hand_ev = F.round4 rd.e_hand;
        crib_ev = F.round4 rd.crib;
        ev = F.round4 rd.score;
        win = F.round6 rd.win;
        hand_dist = u.wire;
        hand_p_ge_12 = u.p_ge_12;
        hand_p90 = or_zero u.p90;
        hand_ceiling = u.ceiling;
      }

  abbrev pub cons_hold : Option RankedHold → Option (List RankedHold) → Option (List RankedHold)
  cons_hold none hs = none
  cons_hold (some h) none = none
  cons_hold (some h) (some hs) = some (h ∷ hs)

  -- The loop over the ranking; `none` is a panic of `HandValueDist`.
  unfoldable pub holds_of : List Card → List (RankedDiscard F) → Option (List RankedHold)
  unfolding ranked_hold hand_value_dist
  holds_of h [] = some []
  holds_of h (rd ∷ ranked) =
      cons_hold (map_option (ranked_hold rd) (hand_value_dist F rd.keep h)) (holds_of h ranked)

  pub record DiscardSituation : Type 0 where
    pub my_score : ℕ
    pub opp_score : ℕ
    pub my_need : ℕ
    pub opp_need : ℕ
    pub win_prob : F.Float
    pub endgame : Bool

  pub record DiscardEval : Type 0 where
    pub hand : List Card
    pub dealer : Bool
    pub holds : List RankedHold
    pub situation : Option DiscardSituation

  module _ (ev : Evaluators F) (win_prob_of : ℕ → ℕ → Bool → F.Float) where
    unfoldable pub situation_of : Bool → Scores → Option DiscardSituation
    situation_of dealer (both_scores my opp) = some (record {
      my_score = my;
      opp_score = opp;
      my_need = 121 - my;
      opp_need = 121 - opp;
      win_prob = F.round4 (win_prob_of my opp dealer);
      endgame = ev.in_reach my opp dealer;
    })
    situation_of dealer _ = none

    unfoldable pub ranking_of : List Card → Bool → Scores → List (RankedDiscard F)
    unfolding rank_discards
    ranking_of h dealer (both_scores my opp) = ev.rank_discards_win h dealer my opp
    ranking_of h dealer _ = rank_discards F ev.table h dealer

    abbrev pub eval_answer :
        DiscardEvalRequest → Option DiscardSituation → Option (List RankedHold) → Answer DiscardEval
    eval_answer req situation none = handler_panics
    eval_answer req situation (some holds) =
        replied 200
          (record { hand = req.hand; dealer = req.dealer; holds = holds; situation = situation })

    unfoldable pub eval_scores : DiscardEvalRequest → Scores → Answer DiscardEval
    unfolding situation_of ranking_of holds_of
    eval_scores req bad_scores = refused 400
    eval_scores req scores =
        eval_answer req (situation_of req.dealer scores)
          (holds_of req.hand (ranking_of req.hand req.dealer scores))

    -- `handleDiscardEval`
    unfoldable pub handle_discard_eval : Option DiscardEvalRequest → Answer DiscardEval
    unfolding eval_scores scores_of has_duplicate
    handle_discard_eval none = refused 400
    handle_discard_eval (some req) =
        if not (length req.hand == 6) || has_duplicate req.hand
        then refused 400
        else eval_scores req (scores_of req.my_score req.opp_score)

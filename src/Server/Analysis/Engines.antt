-- ===== src/Server/Analysis/Engines.antt =====
-- The engines of internal/server/analysis2.go. The evaluators that need tables and networks are
-- parameters: the win objective's rankings, the price of a reply, the two networks.
use cribbager.Common.{Text, ℕ, ◌≡◌, Bool, true, List, [], ◌∷◌, Option, none, some, if◌then◌else◌}
use cribbager.Common.Floats.{Floats}
use cribbager.Common.Sorting.{any, find}
use cribbager.Cribbage.Defs.{Card, Rank, card_eq}
use cribbager.Pegging.Defs.{contains}
use cribbager.Hand.Defs.{Four}
use cribbager.Game.Defs.{other, seat_eq, pick}
use cribbager.Game.View.{PlayerView}
use cribbager.Bot.Ranking.{
  RankedDiscard, RankedPlay, rank_discards, rank_plays_with, MlDiscardValue, MlPlayValue,
  discard_values, play_values, same_pair,
}
use cribbager.Bot.Ranked.{lists}
use cribbager.Bot.Production.{champion_name}
use cribbager.Server.Analysis.Verdicts.{
  Units, units_points, units_winprob, DiscardVerdict, PlayVerdict, discard_verdict, play_verdict,
  chosen_of, beside,
}

module _ (F : Floats) where
  -- `engineInfo` and `analysisEngine`; `none` is the result that is not ok.
  pub record Engine : Type 0 where
    pub name : Text
    pub version : Text
    pub rate_discard : List Card → Bool → ℕ → ℕ → Card × Card → Option (DiscardVerdict F)
    pub rate_play : PlayerView → Card → Option (PlayVerdict F)

  pub record Evaluators : Type 0 where
    -- `cribEVTable`
    pub table : Rank → Rank → Bool → F.Float
    -- `RankDiscardsWin`, `RankPlaysWin`, `InReach`, and the reply of `RankPlays`.
    pub rank_discards_win : List Card → Bool → ℕ → ℕ → List (RankedDiscard F)
    pub rank_plays_win : PlayerView → List (RankedPlay F)
    pub in_reach : ℕ → ℕ → Bool → Bool
    pub reply : PlayerView → List Card → ℕ → F.Float
    -- The outputs of the ml bot's networks.
    pub discard_net : Four → Card × Card → Bool → F.Float
    pub play_net : PlayerView → Rank → F.Float
    pub ml_version : Text
    pub champion_version : Text

  -- The rankings of the win objective list every throw that `RankDiscards` lists, and every legal play.
  pub record ListsAll (ev : Evaluators) : Type 0 where
    pub lists_throws :
        (h : List Card) (my_crib : Bool) (my opp : ℕ) (throw : Card × Card)
        → lists F throw (rank_discards F ev.table h my_crib) ≡ true
        → lists F throw (ev.rank_discards_win h my_crib my opp) ≡ true
    pub lists_plays :
        (v : PlayerView) (c : Card)
        → contains v.legal c ≡ true
        → any (λ r. card_eq r.card c) (ev.rank_plays_win v) ≡ true

  -- The scan of `mlEngine.rateDiscard`: the first maximum, and the last entry for the throw.
  unfoldable pub scan_discards :
      Card × Card
      → MlDiscardValue F
      → Option (MlDiscardValue F)
      → List (MlDiscardValue F)
      → MlDiscardValue F × Option (MlDiscardValue F)
  scan_discards throw best chosen [] = (best, chosen)
  scan_discards throw best chosen (dv ∷ vals) =
      scan_discards throw (if F.gt dv.value best.value then dv else best)
        (if same_pair dv.discard throw then some dv else chosen) vals

  abbrev pub ml_discard_verdict :
      MlDiscardValue F × Option (MlDiscardValue F) → Option (DiscardVerdict F)
  ml_discard_verdict (best, none) = none
  ml_discard_verdict (best, some chosen) =
      some (discard_verdict F best.discard best.keep best.value chosen.value units_points)

  -- Six cards have fifteen values, so there is a first one.
  unfoldable pub ml_rate_discard : List (MlDiscardValue F) → Card × Card → Option (DiscardVerdict F)
  unfolding scan_discards discard_verdict
  ml_rate_discard [] throw = none
  ml_rate_discard (v ∷ vals) throw = ml_discard_verdict (scan_discards throw v none (v ∷ vals))

  unfoldable pub scan_plays :
      Card
      → MlPlayValue F
      → Option (MlPlayValue F)
      → List (MlPlayValue F)
      → MlPlayValue F × Option (MlPlayValue F)
  scan_plays played best chosen [] = (best, chosen)
  scan_plays played best chosen (pv ∷ vals) =
      scan_plays played (if F.gt pv.value best.value then pv else best)
        (if card_eq pv.card played then some pv else chosen) vals

  abbrev pub ml_play_verdict : MlPlayValue F × Option (MlPlayValue F) → Option (PlayVerdict F)
  ml_play_verdict (best, none) = none
  ml_play_verdict (best, some chosen) =
      some (play_verdict F best.card best.value chosen.value units_points)

  unfoldable pub ml_rate_play : List (MlPlayValue F) → Card → Option (PlayVerdict F)
  unfolding scan_plays play_verdict
  ml_rate_play [] played = none
  ml_rate_play (v ∷ vals) played = ml_play_verdict (scan_plays played v none (v ∷ vals))

  -- "ml" and "exact-ev" with its version.
  abbrev pub ml_name : Text
  ml_name = 109 ∷ 108 ∷ []

  abbrev pub exact_ev_name : Text
  exact_ev_name = 101 ∷ 120 ∷ 97 ∷ 99 ∷ 116 ∷ 45 ∷ 101 ∷ 118 ∷ []

  abbrev pub exact_ev_version : Text
  exact_ev_version = 49 ∷ []

  -- The verdict on a throw by its first entry in a ranking, by a column of the entries.
  abbrev pub throw_verdict :
      (RankedDiscard F → F.Float)
      → Units
      → Option (RankedDiscard F × RankedDiscard F)
      → Option (DiscardVerdict F)
  throw_verdict value units none = none
  throw_verdict value units (some (best, chosen)) =
      some (discard_verdict F best.discard best.keep (value best) (value chosen) units)

  unfoldable pub rated_throw :
      (RankedDiscard F → F.Float)
      → Units
      → List (RankedDiscard F)
      → Card × Card
      → Option (DiscardVerdict F)
  unfolding chosen_of discard_verdict
  rated_throw value units ranked throw = throw_verdict value units (chosen_of F throw ranked)

  abbrev pub verdict_beside : Units → Option (RankedPlay F × RankedPlay F) → Option (PlayVerdict F)
  verdict_beside units none = none
  verdict_beside units (some (best, chosen)) =
      some (play_verdict F best.card best.score chosen.score units)

  -- `ratedPlay`
  unfoldable pub rated_play : List (RankedPlay F) → Card → Units → Option (PlayVerdict F)
  unfolding play_verdict
  rated_play [] played units = none
  rated_play (best ∷ rest) played units =
      verdict_beside units (beside best (find (λ rp. card_eq rp.card played) (best ∷ rest)))

  module _ (ev : Evaluators) where
    abbrev pub ml_engine : Engine
    ml_engine = record {
      name = ml_name;
      version = ev.ml_version;
      rate_discard = λ h my_crib my opp throw.
          ml_rate_discard (discard_values F ev.table ev.discard_net h my_crib) throw;
      rate_play = λ v played. ml_rate_play (play_values F ev.play_net v) played;
    }

    unfoldable pub champion_rate_discard :
        List Card → Bool → ℕ → ℕ → Card × Card → Option (DiscardVerdict F)
    unfolding rated_throw
    champion_rate_discard h my_crib my opp throw =
        let ranked = ev.rank_discards_win h my_crib my opp in
        if ev.in_reach my opp my_crib
        then rated_throw (λ rd. rd.win) units_winprob ranked throw
        else rated_throw (λ rd. rd.score) units_points ranked throw

    unfoldable pub champion_rate_play : PlayerView → Card → Option (PlayVerdict F)
    unfolding rated_play
    champion_rate_play v played = rated_play (ev.rank_plays_win v) played (
        if ev.in_reach (pick v.scores v.you) (pick v.scores (other v.you)) (seat_eq v.dealer v.you)
        then units_winprob
        else units_points)

    abbrev pub champion_engine : Engine
    champion_engine = record {
      name = champion_name;
      version = ev.champion_version;
      rate_discard = champion_rate_discard;
      rate_play = champion_rate_play;
    }

    abbrev pub exact_ev_engine : Engine
    exact_ev_engine = record {
      name = exact_ev_name;
      version = exact_ev_version;
      rate_discard = λ h my_crib my opp throw.
          rated_throw (λ rd. rd.score) units_points (rank_discards F ev.table h my_crib) throw;
      rate_play = λ v played. rated_play (rank_plays_with F v (ev.reply v)) played units_points;
    }

    -- `analysisEngines`
    abbrev pub analysis_engines : List Engine
    analysis_engines = ml_engine ∷ champion_engine ∷ exact_ev_engine ∷ []

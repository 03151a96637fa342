-- ===== src/Server/Analysis/Rates.antt =====
-- The three engines have a verdict on every lawful throw and legal play.
use cribbager.Common.{ℕ, ◌≡◌, refl, Bool, true, false, List, ◌∙◌, inl, inr, Bool-cases, All}
use cribbager.Common.Floats.{Floats, IsFinite}
use cribbager.Common.Sorting.{any-map}
use cribbager.Cribbage.Defs.{Card, card_eq}
use cribbager.Pegging.Defs.{contains}
use cribbager.Game.View.{PlayerView}
use cribbager.Bot.Ranking.{
  rank_discards, rank_plays_with, MlDiscardValue, MlPlayValue, discard_values, play_values,
  same_pair,
}
use cribbager.Bot.Ranked.{rank_discards-lists}
use cribbager.Server.Analysis.Verdicts.{units_points, units_winprob}
use cribbager.Server.Analysis.Engines.{
  Evaluators, ListsAll, champion_rate_discard, champion_rate_play, analysis_engines,
}
use cribbager.Server.Analysis.Given.{
  any_legal, ml_discard-Gives, rated_throw-Gives, ml_play-Gives, rated_play-Gives, GivesDiscard,
  GivesPlay, rank_plays_with-lists,
}

module _ (F : Floats) (finite : IsFinite F) where
  module _ (ev : Evaluators F) where
    pub engines_throw :
        ListsAll F ev
        → (h : List Card) (my_crib : Bool) (my opp : ℕ) (c d : Card) → card_eq c d ≡ false
        → contains h c ≡ true
        → contains h d ≡ true
        → All
            (λ e. GivesDiscard F finite (e.rate_discard h my_crib my opp (c, d)))
            (analysis_engines F ev)
    unfolding champion_rate_discard discard_values
    engines_throw listed h my_crib my opp c d n hc hd =
        let thrown = rank_discards-lists F ev.table h my_crib c d n hc hd in
        let thrown_win = listed.lists_throws h my_crib my opp (c, d) thrown in
        (
          ml_discard-Gives F finite (discard_values F ev.table ev.discard_net h my_crib) (c, d)
              (any-map (λ (dv : MlDiscardValue F). same_pair dv.discard (c, d)) _
                  (rank_discards F ev.table h my_crib)
                ∙ thrown),
          (
            elim (Bool-cases (ev.in_reach my opp my_crib)) [
              | inl e ↦
                  rw e (rated_throw-Gives F finite (λ rd. rd.win) units_winprob _ (c, d) thrown_win)
              | inr e ↦
                  rw e
                    (rated_throw-Gives F finite (λ rd. rd.score) units_points _ (c, d) thrown_win)
            ],
            (rated_throw-Gives F finite (λ rd. rd.score) units_points _ (c, d) thrown, tt),
          ),
        )

    pub engines_play :
        ListsAll F ev
        → (v : PlayerView) (x : Card) → contains v.legal x ≡ true
        → All (λ e. GivesPlay F finite (e.rate_play v x)) (analysis_engines F ev)
    unfolding champion_rate_play play_values
    engines_play listed v x hx = (
      ml_play-Gives F finite (play_values F ev.play_net v) x
          (any_legal (λ (pv : MlPlayValue F). pv.card) _ v x (λ c. refl) hx),
      (
        rated_play-Gives F finite (ev.rank_plays_win v) x _ (listed.lists_plays v x hx),
        (
          rated_play-Gives F finite (rank_plays_with F v (ev.reply v)) x units_points
              (rank_plays_with-lists F v (ev.reply v) x hx),
          tt,
        ),
      ),
    )

    -- With a finite arithmetic and rankings of the win objective that list every throw and play: on two
    -- different cards of a hand and on a legal play each of the three engines gives a verdict, and the
    -- value that it finds lost is not negative.
    pub analysis_engines-Grade :
        ListsAll F ev
        → (h : List Card) (my_crib : Bool) (my opp : ℕ) (c d : Card) (v : PlayerView) (x : Card)
        → card_eq c d ≡ false
        → contains h c ≡ true
        → contains h d ≡ true
        → contains v.legal x ≡ true
        → All
            (λ e. GivesDiscard F finite (e.rate_discard h my_crib my opp (c, d)))
            (analysis_engines F ev)
          × All (λ e. GivesPlay F finite (e.rate_play v x)) (analysis_engines F ev)
    analysis_engines-Grade listed h my_crib my opp c d v x n hc hd hx =
        (engines_throw listed h my_crib my opp c d n hc hd, engines_play listed v x hx)

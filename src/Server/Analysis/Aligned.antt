-- ===== src/Server/Analysis/Aligned.antt =====
-- internal/server/analysis2.go: each analysed deal has a verdict of every engine on every choice.
use cribbager.Common.{
  ℕ, suc, ◌-◌, ◌≡◌, refl, Bool, true, false, List, [], ◌∷◌, Option, none, some, if◌then◌else◌,
  length, All, arith, subst, map,
}
use cribbager.Common.Floats.{Floats}
use cribbager.Cribbage.Defs.{Card}
use cribbager.Game.Defs.{Seat, seat_eq, other, pick, Event, discarded}
use cribbager.Game.Reconstruct.{PlayDecision}
use cribbager.Server.Analysis.Verdicts.{DiscardVerdict, PlayVerdict}
use cribbager.Server.Analysis.Engines.{Engine}
use cribbager.Server.Analysis.Deals.{
  GradedPlay, Rollup, DealStart, DealAnalysis, analyze_deal, all_verdicts, cons_both, grade_plays,
  graded_play, grade_after_discard, after_verdicts, with_play, finish_deal, fresh_rollup, roll_play,
  plays_by_deal, deal_analysis,
}
use cribbager.Server.Analysis.Walk.{
  Walk, walk_event, graded_by, graded_from, deal_start, deals_from, add_graded,
}

module _ (F : Floats) where
  -- A deal has a verdict of each engine on the discard and on every play.
  pub record Aligned (n : ℕ) (da : DealAnalysis F) : Type 0 where
    pub discard_verdicts : length da.discard.engines ≡ n
    pub play_verdicts : All (λ p. length p.engines ≡ n) da.plays

  all_verdicts-length :
      {V : Type 0} (rate : Engine F → Option V) (es : List (Engine F)) (vs : List V)
      → all_verdicts F rate es ≡ some vs
      → length vs ≡ length es
  unfolding all_verdicts
  all_verdicts-length rate [] vs h = ground arith
  all_verdicts-length {V} rate (e ∷ es) vs h =
      joined (rate e) (all_verdicts F rate es) h (all_verdicts-length rate es)
    where
      joined :
          (o : Option V) (more : Option (List V))
          → cons_both F o more ≡ some vs
          → ((ws : List V) → more ≡ some ws → length ws ≡ length es)
          → length vs ≡ suc (length es)
      joined none more k r = cc
      joined (some v) none k r = cc
      joined (some v) (some ws) k r = ground (arith, r ws)

  -- The verdicts of a graded play.
  abbrev AllOf : List (Engine F) → List (GradedPlay F) → Type 0
  AllOf engines ps = All (λ p. length p.engines ≡ length engines) ps

  grade_plays-Aligned :
      (engines : List (Engine F)) (ds : List PlayDecision) (rs : List (Rollup F))
      (g : List (GradedPlay F) × List (Rollup F))
      → grade_plays F engines ds rs ≡ some g
      → AllOf engines g.0
  unfolding grade_plays graded_play
  grade_plays-Aligned engines [] rs (ps, rs') h = none_graded ps (ground arith)
    where
      none_graded : (ps : List (GradedPlay F)) → ps ≡ [] → AllOf engines ps
      none_graded [] e = tt
      none_graded (p ∷ ps) e = cc
  grade_plays-Aligned engines (d ∷ ds) rs (ps, rs') h =
      by_verdicts (all_verdicts F (λ e. e.rate_play d.seen d.played) engines) h
        (all_verdicts-length (λ e. e.rate_play d.seen d.played) engines)
        (grade_plays-Aligned engines ds)
    where
      by_rest :
          (vs : List (PlayVerdict F)) (o : Option (List (GradedPlay F) × List (Rollup F)))
          → with_play F d vs o ≡ some (ps, rs')
          → length vs ≡ length engines
          → ((g : List (GradedPlay F) × List (Rollup F)) → o ≡ some g → AllOf engines g.0)
          → AllOf engines ps
      by_rest vs none k n r = cc
      by_rest vs (some (qs, rs'')) k n r =
          let same : graded_play F d vs ∷ qs ≡ ps = ground arith in
          subst (AllOf engines) same (n, r (qs, rs'') refl)

      by_verdicts :
          (o : Option (List (PlayVerdict F)))
          → after_verdicts F d (grade_plays F engines ds) rs o ≡ some (ps, rs')
          → ((vs : List (PlayVerdict F)) → o ≡ some vs → length vs ≡ length engines)
          → ((rs : List (Rollup F)) (g : List (GradedPlay F) × List (Rollup F))
              → grade_plays F engines ds rs ≡ some g
              → AllOf engines g.0)
          → AllOf engines ps
      by_verdicts none k n r = cc
      by_verdicts (some vs) k n r =
          by_rest vs (grade_plays F engines ds (roll_play F rs vs)) k (n vs refl)
            (r (roll_play F rs vs))

  analyze_deal-Aligned :
      (engines : List (Engine F)) (seat : Seat) (at : DealStart F) (throw : Card × Card)
      (plays : List PlayDecision) (da : DealAnalysis F)
      → analyze_deal F engines seat at throw plays ≡ some da
      → Aligned (length engines) da
  unfolding analyze_deal deal_analysis
  analyze_deal-Aligned engines seat at throw plays da h =
      by_verdicts (all_verdicts F rate engines) h (all_verdicts-length rate engines)
    where
      rate : Engine F → Option (DiscardVerdict F)
      rate e =
          e.rate_discard at.six (seat_eq at.dealer seat) (pick at.start seat)
            (pick at.start (other seat)) throw

      by_plays :
          (vs : List (DiscardVerdict F)) (o : Option (List (GradedPlay F) × List (Rollup F)))
          → finish_deal F at throw vs o ≡ some da
          → length vs ≡ length engines
          → ((g : List (GradedPlay F) × List (Rollup F)) → o ≡ some g → AllOf engines g.0)
          → Aligned (length engines) da
      by_plays vs none e n r = cc
      by_plays vs (some (ps, rs)) e n r =
          let same : deal_analysis F at throw vs (ps, rs) ≡ da = ground arith in
          subst (Aligned (length engines)) same
            (record { discard_verdicts = n; play_verdicts = r (ps, rs) refl })

      by_verdicts :
          (o : Option (List (DiscardVerdict F)))
          → grade_after_discard F engines at throw plays o ≡ some da
          → ((vs : List (DiscardVerdict F)) → o ≡ some vs → length vs ≡ length engines)
          → Aligned (length engines) da
      by_verdicts none e n = cc
      by_verdicts (some vs) e n =
          by_plays vs (grade_plays F engines plays (map (fresh_rollup F) vs)) e (n vs refl)
            (grade_plays-Aligned engines plays (map (fresh_rollup F) vs))

  graded_from-Aligned :
      (engines : List (Engine F)) (seat : Seat) (ds : List PlayDecision) (w : Walk)
      (throw : Card × Card) (held : Option (List Card)) (rest : List (DealAnalysis F))
      → All (Aligned (length engines)) rest
      → All
          (Aligned (length engines))
          (add_graded F (graded_from F engines seat ds w throw held) rest)
  graded_from-Aligned engines seat ds w throw none rest a = a
  graded_from-Aligned engines seat ds w throw (some six) rest a =
      added
        (analyze_deal F engines seat (deal_start F w six) throw
          (plays_by_deal seat (w.dealt - 1) ds))
        (analyze_deal-Aligned engines seat (deal_start F w six) throw
          (plays_by_deal seat (w.dealt - 1) ds))
    where
      added :
          (o : Option (DealAnalysis F))
          → ((da : DealAnalysis F) → o ≡ some da → Aligned (length engines) da)
          → All (Aligned (length engines)) (add_graded F o rest)
      added none h = a
      added (some da) h = (h da refl, a)

  pub deals_from-Aligned :
      (engines : List (Engine F)) (seat : Seat) (ds : List PlayDecision) (w : Walk)
      (es : List Event)
      → All (Aligned (length engines)) (deals_from F engines seat ds w es)
  unfolding deals_from graded_by
  deals_from-Aligned engines seat ds w [] = tt
  deals_from-Aligned engines seat ds w (discarded s c d ∷ es) =
      by_seat (seat_eq s seat) _
        (deals_from-Aligned engines seat ds (walk_event seat w (discarded s c d)) es)
    where
      by_seat :
          (b : Bool) (rest : List (DealAnalysis F))
          → All (Aligned (length engines)) rest
          → All (Aligned (length engines)) (
              add_graded F (if b then graded_from F engines seat ds w (c, d) w.held else none) rest)
      by_seat true rest a = graded_from-Aligned engines seat ds w (c, d) w.held rest a
      by_seat false rest a = a
  deals_from-Aligned engines seat ds w (e ∷ es) =
      deals_from-Aligned engines seat ds (walk_event seat w e) es

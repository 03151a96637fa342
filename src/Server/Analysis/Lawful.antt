-- ===== src/Server/Analysis/Lawful.antt =====
-- internal/server/analysis2.go: one deal is analysed when its throw is lawful and its plays are legal.
use cribbager.Common.{
  ℕ, ◌-◌, ◌≡◌, refl, ap, Bool, true, false, not, ◌&&◌, List, [], ◌∷◌, Option, none, some, All,
  arith, ◌∙◌, map,
}
use cribbager.Common.Floats.{Floats}
use cribbager.Cribbage.Defs.{Card, card_eq}
use cribbager.Pegging.Defs.{contains}
use cribbager.Game.Defs.{Seat, seat_eq, other, pick}
use cribbager.Game.View.{PlayerView}
use cribbager.Game.Reconstruct.{PlayDecision, Recorded}
use cribbager.Server.Analysis.Engines.{Engine}
use cribbager.Server.Analysis.Verdicts.{DiscardVerdict, PlayVerdict}
use cribbager.Server.Analysis.Deals.{
  GradedPlay, Rollup, DealStart, DealAnalysis, analyze_deal, all_verdicts, grade_plays, graded_play,
  grade_after_discard, after_verdicts, with_play, finish_deal, fresh_rollup, roll_play,
  plays_by_deal, deal_analysis,
}
use cribbager.Server.Analysis.Walk.{Walk, graded_from, deal_start}

-- Two different cards of the hand that is held.
abbrev pub lawful_throw : Option (List Card) → Card → Card → Bool
lawful_throw none c d = false
lawful_throw (some six) c d = not (card_eq c d) && (contains six c && contains six d)

abbrev pub Legal : PlayDecision → Type 0
Legal d = contains d.seen.legal d.played ≡ true

pub Recorded-Legal :
    (ps : List (Seat × Card)) (ds : List PlayDecision) → Recorded ps ds → All Legal ds
Recorded-Legal [] [] r = tt
Recorded-Legal [] (d ∷ ds) r = absurd r
Recorded-Legal (p ∷ ps) [] r = absurd r
Recorded-Legal (p ∷ ps) (d ∷ ds) (m, r) = (rw m.same_card m.legal, Recorded-Legal ps ds r)

plays_by_deal-Legal :
    (seat : Seat) (deal : ℕ) (ds : List PlayDecision)
    → All Legal ds
    → All Legal (plays_by_deal seat deal ds)
unfolding plays_by_deal
plays_by_deal-Legal seat deal [] h = tt
plays_by_deal-Legal seat deal (d ∷ ds) (hd, h) =
    ground (arith, hd, plays_by_deal-Legal seat deal ds h)

module _ (F : Floats) where
  -- An engine that has a verdict on every lawful throw and every legal play.
  pub record Rates (e : Engine F) : Type 0 where
    pub rates_throw :
        (h : List Card) (my_crib : Bool) (my opp : ℕ) (c d : Card)
        → card_eq c d ≡ false
        → contains h c ≡ true
        → contains h d ≡ true
        → (v : DiscardVerdict F) × (e.rate_discard h my_crib my opp (c, d) ≡ some v)
    pub rates_play :
        (v : PlayerView) (x : Card)
        → contains v.legal x ≡ true
        → (w : PlayVerdict F) × (e.rate_play v x ≡ some w)

  all_verdicts-some :
      {V : Type 0} (rate : Engine F → Option V) (es : List (Engine F))
      → ((e : Engine F) → Rates e → (v : V) × (rate e ≡ some v))
      → All Rates es
      → (vs : List V) × (all_verdicts F rate es ≡ some vs)
  unfolding all_verdicts
  all_verdicts-some rate [] h a = ([], refl)
  all_verdicts-some rate (e ∷ es) h (r, a) =
      let (v, at) = h e r in
      let (vs, rest) = all_verdicts-some rate es h a in (v ∷ vs, rw at (rw rest refl))

  grade_plays-some :
      (engines : List (Engine F)) (ds : List PlayDecision) (rs : List (Rollup F))
      → All Rates engines
      → All Legal ds
      → (g : List (GradedPlay F) × List (Rollup F)) × (grade_plays F engines ds rs ≡ some g)
  unfolding grade_plays
  grade_plays-some engines [] rs a h = (([], rs), refl)
  grade_plays-some engines (d ∷ ds) rs a (hd, h) =
      let (vs, at) =
        all_verdicts-some (λ e. e.rate_play d.seen d.played) engines
          (λ e r. r.rates_play d.seen d.played hd) a in
      let (g, rest) = grade_plays-some engines ds (roll_play F rs vs) a h in
      (
        (graded_play F d vs ∷ g.0, g.1),
        ap (after_verdicts F d (grade_plays F engines ds) rs) at ∙ ap (with_play F d vs) rest,
      )

  analyze_deal-some :
      (engines : List (Engine F)) (seat : Seat) (at : DealStart F) (c d : Card)
      (ds : List PlayDecision)
      → All Rates engines
      → lawful_throw (some at.six) c d ≡ true
      → All Legal ds
      → (da : DealAnalysis F) × (analyze_deal F engines seat at (c, d) ds ≡ some da)
  unfolding analyze_deal
  analyze_deal-some engines seat at c d ds a lawful h =
      let (vs, rated) =
        all_verdicts-some
          (λ e.
            e.rate_discard at.six (seat_eq at.dealer seat) (pick at.start seat)
              (pick at.start (other seat)) (c, d))
          engines
          (λ e r. r.rates_throw at.six _ _ _ c d (ground arith) (ground arith) (ground arith)) a in
      let (g, graded) = grade_plays-some engines ds (map (fresh_rollup F) vs) a h in
      (
        deal_analysis F at (c, d) vs g,
        ap (grade_after_discard F engines at (c, d) ds) rated
            ∙ ap (finish_deal F at (c, d) vs) graded,
      )

  pub graded_from-some :
      (engines : List (Engine F)) (seat : Seat) (ds : List PlayDecision) (w : Walk) (c d : Card)
      (held : Option (List Card))
      → All Rates engines
      → All Legal ds
      → lawful_throw held c d ≡ true
      → (da : DealAnalysis F) × (graded_from F engines seat ds w (c, d) held ≡ some da)
  graded_from-some engines seat ds w c d none a h lawful = cc
  graded_from-some engines seat ds w c d (some six) a h lawful =
      analyze_deal-some engines seat (deal_start F w six) c d (plays_by_deal seat (w.dealt - 1) ds)
        a lawful (plays_by_deal-Legal seat (w.dealt - 1) ds h)

-- ===== src/Server/Analysis/Complete.antt =====
-- internal/server/analysis2.go: every discard of the seat in a lawful log is analysed.
use cribbager.Common.{
  Text, ℕ, ◌+◌, ◌≡◌, refl, ap, Bool, true, false, ◌&&◌, List, [], ◌∷◌, Option, none, some, ok,
  if◌then◌else◌, length, All, arith,
}
use cribbager.Common.Floats.{Floats, IsFinite}
use cribbager.Cribbage.Defs.{Card}
use cribbager.Game.Defs.{
  Seat, seat_eq, pick, Event, hand_dealt, starter_cut, card_played, go_awarded, hand_shown,
  crib_shown, cut_for_deal, handicap, discarded, pass, series_reset, game_won, show_not_counted,
}
use cribbager.Game.Reconstruct.{
  PlayDecision, reconstruct_plays, plays_of, reconstruct_plays-Recorded,
}
use cribbager.Server.Analysis.Engines.{
  Engine, Evaluators, ListsAll, ml_engine, champion_engine, exact_ev_engine, analysis_engines,
}
use cribbager.Server.Analysis.Rates.{engines_throw, engines_play}
use cribbager.Server.Analysis.Verdicts.{DiscardVerdict, PlayVerdict}
use cribbager.Server.Analysis.Deals.{DealAnalysis}
use cribbager.Server.Analysis.Walk.{
  Walk, first_walk, walk_event, six_of, graded_by, graded_from, deals_from, add_graded,
  GameAnalysis, analyze_game, analyzed, analyze_decisions,
}
use cribbager.Server.Analysis.Lawful.{lawful_throw, Legal, Recorded-Legal, Rates, graded_from-some}

-- Each discard of the seat is two different cards of the six dealt to it, once a deal.
unfoldable pub lawful_throws : Seat → Option (List Card) → List Event → Bool
lawful_throws seat held [] = true
lawful_throws seat held (hand_dealt dealer hands ∷ es) =
    lawful_throws seat (six_of (pick hands seat)) es
lawful_throws seat held (discarded s c d ∷ es) =
    (if seat_eq s seat then lawful_throw held c d else true)
    && lawful_throws seat (if seat_eq s seat then none else held) es
lawful_throws seat held (e ∷ es) = lawful_throws seat held es

abbrev pub count_discards : Seat → List Event → ℕ
count_discards seat [] = 0
count_discards seat (discarded s c d ∷ es) =
    (if seat_eq s seat then 1 else 0) + count_discards seat es
count_discards seat (e ∷ es) = count_discards seat es

module _ (F : Floats) where
  given_discard :
      {o : Option (DiscardVerdict F)}
      → (v : DiscardVerdict F) × (o ≡ some v) × (F.gt (F.of_int 0) v.delta ≡ false)
      → (v : DiscardVerdict F) × (o ≡ some v)
  given_discard (v, e, sign) = (v, e)

  given_play :
      {o : Option (PlayVerdict F)}
      → (v : PlayVerdict F) × (o ≡ some v) × (F.gt (F.of_int 0) v.delta ≡ false)
      → (v : PlayVerdict F) × (o ≡ some v)
  given_play (v, e, sign) = (v, e)

  deals_from-length :
      (engines : List (Engine F)) (seat : Seat) (ds : List PlayDecision) (w : Walk)
      (es : List Event)
      → All (Rates F) engines
      → All Legal ds
      → lawful_throws seat w.held es ≡ true
      → length (deals_from F engines seat ds w es) ≡ count_discards seat es
  unfolding deals_from graded_by walk_event lawful_throws
  deals_from-length engines seat ds w [] a h lawful = refl
  deals_from-length engines seat ds w (hand_dealt dealer hands ∷ es) a h lawful =
      deals_from-length engines seat ds (walk_event seat w (hand_dealt dealer hands)) es a h lawful
  deals_from-length engines seat ds w (discarded s c d ∷ es) a h lawful =
      by_seat (seat_eq s seat) _ lawful (
        deals_from-length engines seat ds (walk_event seat w (discarded s c d)) es a h
          (and_right _ _ lawful))
    where
      and_right : (x y : Bool) → (x && y) ≡ true → y ≡ true
      and_right true y e = e
      and_right false y e = cc

      rest : List (DealAnalysis F)
      rest = deals_from F engines seat ds (walk_event seat w (discarded s c d)) es

      by_seat :
          (b more : Bool)
          → ((if b then lawful_throw w.held c d else true) && more) ≡ true
          → length rest ≡ count_discards seat es
          → length (
              add_graded F (if b then graded_from F engines seat ds w (c, d) w.held else none) rest)
            ≡ (if b then 1 else 0) + count_discards seat es
      by_seat true more e n =
          let (da, found) = graded_from-some F engines seat ds w c d w.held a h (ground arith) in
          rw found (omega (arith, n))
      by_seat false more e n = omega (arith, n)
  deals_from-length engines seat ds w (starter_cut a1 b1 ∷ es) a h lawful =
      deals_from-length engines seat ds (walk_event seat w (starter_cut a1 b1)) es a h lawful
  deals_from-length engines seat ds w (card_played a1 b1 c1 ∷ es) a h lawful =
      deals_from-length engines seat ds (walk_event seat w (card_played a1 b1 c1)) es a h lawful
  deals_from-length engines seat ds w (pass a1 ∷ es) a h lawful =
      deals_from-length engines seat ds (walk_event seat w (pass a1)) es a h lawful
  deals_from-length engines seat ds w (go_awarded a1 b1 ∷ es) a h lawful =
      deals_from-length engines seat ds (walk_event seat w (go_awarded a1 b1)) es a h lawful
  deals_from-length engines seat ds w (series_reset a1 ∷ es) a h lawful =
      deals_from-length engines seat ds (walk_event seat w (series_reset a1)) es a h lawful
  deals_from-length engines seat ds w (hand_shown a1 b1 c1 ∷ es) a h lawful =
      deals_from-length engines seat ds (walk_event seat w (hand_shown a1 b1 c1)) es a h lawful
  deals_from-length engines seat ds w (crib_shown a1 b1 ∷ es) a h lawful =
      deals_from-length engines seat ds (walk_event seat w (crib_shown a1 b1)) es a h lawful
  deals_from-length engines seat ds w (game_won a1 ∷ es) a h lawful =
      deals_from-length engines seat ds (walk_event seat w (game_won a1)) es a h lawful
  deals_from-length engines seat ds w (show_not_counted a1 b1 c1 ∷ es) a h lawful =
      deals_from-length engines seat ds (walk_event seat w (show_not_counted a1 b1 c1)) es a h
        lawful
  deals_from-length engines seat ds w (cut_for_deal a1 b1 ∷ es) a h lawful =
      deals_from-length engines seat ds (walk_event seat w (cut_for_deal a1 b1)) es a h lawful
  deals_from-length engines seat ds w (handicap a1 ∷ es) a h lawful =
      deals_from-length engines seat ds (walk_event seat w (handicap a1)) es a h lawful

  -- With engines that have a verdict on every lawful throw and legal play, and a log that the
  -- reconstruction accepts and in which the seat discards lawfully: the analysis succeeds, and has one
  -- deal for each discard of the seat.
  pub analyze_game_complete :
      (engines : List (Engine F)) (id : Text) (seat : Seat) (es : List Event)
      (ds : List PlayDecision)
      → All (Rates F) engines
      → reconstruct_plays es ≡ ok ds
      → lawful_throws seat none es ≡ true
      → (r : GameAnalysis F) × (analyze_game F id seat es engines ≡ some r)
        × (length r.deals ≡ count_discards seat es)
  unfolding analyze_game analyze_decisions
  analyze_game_complete engines id seat es ds a found lawful = (
    analyze_decisions F id seat es engines ds,
    ap (analyzed F id seat es engines) found,
    deals_from-length engines seat ds first_walk es a
        (Recorded-Legal (plays_of es) ds (reconstruct_plays-Recorded es ds found)) lawful,
  )

  -- The three engines of the server have such verdicts.
  module _ (finite : IsFinite F) (ev : Evaluators F) (listed : ListsAll F ev) where
    ml-Rates : Rates F (ml_engine F ev)
    ml-Rates = record {
      rates_throw = λ h my_crib my opp c d n hc hd.
          given_discard ((engines_throw F finite ev listed h my_crib my opp c d n hc hd).0);
      rates_play = λ v x hx. given_play ((engines_play F finite ev listed v x hx).0);
    }

    champion-Rates : Rates F (champion_engine F ev)
    champion-Rates = record {
      rates_throw = λ h my_crib my opp c d n hc hd.
          given_discard ((engines_throw F finite ev listed h my_crib my opp c d n hc hd).1.0);
      rates_play = λ v x hx. given_play ((engines_play F finite ev listed v x hx).1.0);
    }

    exact_ev-Rates : Rates F (exact_ev_engine F ev)
    exact_ev-Rates = record {
      rates_throw = λ h my_crib my opp c d n hc hd.
          given_discard ((engines_throw F finite ev listed h my_crib my opp c d n hc hd).1.1.0);
      rates_play = λ v x hx. given_play ((engines_play F finite ev listed v x hx).1.1.0);
    }

    pub analysis_engines-Rates : All (Rates F) (analysis_engines F ev)
    analysis_engines-Rates = (ml-Rates, (champion-Rates, (exact_ev-Rates, tt)))

    -- With a finite arithmetic and rankings of the win objective that list every throw and play, on a log
    -- that the reconstruction accepts and in which each discard of the seat is two different cards of
    -- its six: the analysis by the three engines succeeds, with one deal for each discard.
    pub analyze_game-engines :
        (id : Text) (seat : Seat) (es : List Event) (ds : List PlayDecision)
        → reconstruct_plays es ≡ ok ds
        → lawful_throws seat none es ≡ true
        → (r : GameAnalysis F) × (analyze_game F id seat es (analysis_engines F ev) ≡ some r)
          × (length r.deals ≡ count_discards seat es)
    analyze_game-engines id seat es ds found lawful =
        analyze_game_complete (analysis_engines F ev) id seat es ds analysis_engines-Rates found
          lawful

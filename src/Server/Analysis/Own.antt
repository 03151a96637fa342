-- ===== src/Server/Analysis/Own.antt =====
-- The verdict on an engine's own choice: the best by a ranking has the highest score, and is graded
-- optimal.
use cribbager.Common.{
  ℕ, ◌≡◌, refl, ap, Bool, true, List, [], ◌∷◌, Option, none, some, if◌then◌else◌, arith, subst, All,
  false,
}
use mathlib.Core.List.{Mem, mem-cons_self}
use cribbager.Common.Floats.{Floats, IsFinite}
use cribbager.Common.Sorting.{find, IsSorted}
use cribbager.Cribbage.Defs.{Card}
use cribbager.Cribbage.Occurrences.{card_eq_refl}
use cribbager.Bot.Ranking.{RankedDiscard, rank_discards, same_pair, better_discard}
use cribbager.Bot.Ranked.{rank_discards-IsSorted}
use cribbager.Server.Analysis.Verdicts.{
  Units, units_points, rounded, never_negative, DiscardVerdict, discard_verdict, chosen_of, beside,
}
use cribbager.Server.Analysis.Engines.{exact_ev_engine, Evaluators, rated_throw, throw_verdict}

module _ (F : Floats) (finite : IsFinite F) where
  -- The verdict on the engine's own choice: no loss, and optimal.
  abbrev pub OwnDiscard : Option (DiscardVerdict F) → Units → Type 0
  OwnDiscard o units =
      (v : DiscardVerdict F) × (o ≡ some v)
      × (v.optimal ≡ true)
      × (v.delta ≡ rounded F units (F.of_int 0))

  nothing_lost : (v : F.Float) → never_negative F (F.minus v v) ≡ F.of_int 0
  unfolding never_negative
  nothing_lost v = rw (finite.minus_self v) (rw (finite.irreflexive (F.of_int 0)) refl)

  own_first :
      (value : RankedDiscard F → F.Float) (units : Units) (best : RankedDiscard F)
      (rest : List (RankedDiscard F))
      → OwnDiscard (rated_throw F value units (best ∷ rest) best.discard) units
  unfolding rated_throw chosen_of discard_verdict
  own_first value units best rest =
      let same : same_pair best.discard best.discard ≡ true =
        rw (card_eq_refl best.discard.0) (rw (card_eq_refl best.discard.1) refl) in
      (
        discard_verdict F best.discard best.keep (value best) (value best) units,
        ap
            (λ b. throw_verdict F value units (
              beside best
                (if b then some best else find (λ r. same_pair r.discard best.discard) rest)))
            same,
        rw (nothing_lost (value best)) finite.zero_negligible,
        rw (nothing_lost (value best)) refl,
      )

  own_throw :
      (value : RankedDiscard F → F.Float) (units : Units) (ranked : List (RankedDiscard F))
      (throw : Card × Card) (v : DiscardVerdict F)
      → rated_throw F value units ranked throw ≡ some v
      → OwnDiscard (rated_throw F value units ranked v.best_throw) units
  unfolding rated_throw chosen_of discard_verdict
  own_throw value units [] throw v h = cc
  own_throw value units (best ∷ rest) throw v h =
      from (find (λ r. same_pair r.discard throw) (best ∷ rest)) h
    where
      from :
          (o : Option (RankedDiscard F))
          → throw_verdict F value units (beside best o) ≡ some v
          → OwnDiscard (rated_throw F value units (best ∷ rest) v.best_throw) units
      from none e = cc
      from (some chosen) e =
          let is_best : best.discard ≡ v.best_throw = ground arith in
          subst (λ t. OwnDiscard (rated_throw F value units (best ∷ rest) t) units) is_best
            (own_first value units best rest)

  -- An entry of a ranking by the score is the best of it: none has a higher score.
  abbrev pub IsBest : RankedDiscard F → List (RankedDiscard F) → Type 0
  IsBest best ranked = Mem best ranked × All (λ rd. F.gt rd.score best.score ≡ false) ranked

  IsBest-entry :
      (ranked : List (RankedDiscard F)) (throw : Card × Card) (v : DiscardVerdict F)
      → IsSorted (better_discard F) ranked
      → rated_throw F (λ rd. rd.score) units_points ranked throw ≡ some v
      → (best : RankedDiscard F) × (best.discard ≡ v.best_throw)
        × (best.keep ≡ v.best_keep)
        × (F.round4 best.score ≡ v.best_value)
        × IsBest best ranked
  unfolding rated_throw chosen_of discard_verdict
  IsBest-entry [] throw v s h = cc
  IsBest-entry (best ∷ rest) throw v (tops, s) h =
      from (find (λ r. same_pair r.discard throw) (best ∷ rest)) h
    where
      from :
          (o : Option (RankedDiscard F))
          → throw_verdict F (λ rd. rd.score) units_points (beside best o) ≡ some v
          → (b : RankedDiscard F) × (b.discard ≡ v.best_throw)
            × (b.keep ≡ v.best_keep)
            × (F.round4 b.score ≡ v.best_value)
            × IsBest b (best ∷ rest)
      from none e = cc
      from (some chosen) e = (
        best,
        ground arith,
        ground arith,
        ground arith,
        (mem-cons_self, (finite.irreflexive best.score, tops)),
      )

  module _ (ev : Evaluators F) where
    -- With a finite arithmetic, on any hand: the throw, the cards kept and the value that a verdict of the
    -- exact-ev engine names as best are those of an entry of the ranking of the hand's throws, of which
    -- no entry has a higher score; and the engine grades that throw optimal, with nothing lost.
    pub rate_discard-IsBest :
        (h : List Card) (my_crib : Bool) (my opp : ℕ) (throw : Card × Card) (v : DiscardVerdict F)
        → (exact_ev_engine F ev).rate_discard h my_crib my opp throw ≡ some v
        → ((best : RankedDiscard F) × (best.discard ≡ v.best_throw)
            × (best.keep ≡ v.best_keep)
            × (F.round4 best.score ≡ v.best_value)
            × IsBest best (rank_discards F ev.table h my_crib))
          × OwnDiscard
              ((exact_ev_engine F ev).rate_discard h my_crib my opp v.best_throw)
              units_points
    rate_discard-IsBest h my_crib my opp throw v e = (
      IsBest-entry (rank_discards F ev.table h my_crib) throw v
          (rank_discards-IsSorted F finite ev.table h my_crib) e,
      own_throw (λ rd. rd.score) units_points (rank_discards F ev.table h my_crib) throw v e,
    )

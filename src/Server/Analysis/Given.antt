-- ===== src/Server/Analysis/Given.antt =====
-- Verdicts are given on every choice that a ranking lists, and no choice is worth more than the best by
-- them.
use cribbager.Common.{
  ℕ, ◌≡◌, refl, ap, true, false, ◌||◌, List, [], ◌∷◌, Option, none, some, if◌then◌else◌, ◌∙◌, ◌⊎◌,
  inl, inr, Bool-cases, map,
}
use cribbager.Common.Floats.{Floats, IsFinite}
use cribbager.Common.Sorting.{any, any-map, any-sort, any-weaken, find-any}
use cribbager.Cribbage.Defs.{Card, card_eq}
use cribbager.Pegging.Defs.{contains}
use cribbager.Game.View.{PlayerView}
use cribbager.Bot.Ranking.{
  RankedDiscard, RankedPlay, better_play, ranked_play, rank_plays_with, MlDiscardValue, MlPlayValue,
  same_pair,
}
use cribbager.Bot.Ranked.{lists}
use cribbager.Server.Analysis.Verdicts.{
  Units, units_points, units_winprob, rounded, never_negative, DiscardVerdict, PlayVerdict,
  discard_verdict, play_verdict, chosen_of, beside,
}
use cribbager.Server.Analysis.Engines.{
  scan_discards, ml_rate_discard, scan_plays, ml_rate_play, rated_throw, rated_play, throw_verdict,
  verdict_beside,
}

contains-any : (xs : List Card) (c : Card) → any (λ x. card_eq x c) xs ≡ contains xs c
unfolding contains
contains-any [] c = refl
contains-any (x ∷ xs) c = ap (λ b. card_eq x c || b) (contains-any xs c)

pub any_legal :
    {A : Type 0} (card_of : A → Card) (make : Card → A) (v : PlayerView) (x : Card)
    → ((c : Card) → card_of (make c) ≡ c)
    → contains v.legal x ≡ true
    → any (λ a. card_eq (card_of a) x) (map make v.legal) ≡ true
any_legal card_of make v x same h =
    any-map (λ a. card_eq (card_of a) x) make v.legal
    ∙ any-weaken (λ c. card_eq c x) (λ c. card_eq (card_of (make c)) x) v.legal
        (λ c e. rw (same c) e) (contains-any v.legal x ∙ h)

-- Every legal play stands in a ranking of the plays.
pub rank_plays_with-lists :
    (F : Floats) (v : PlayerView) (reply : List Card → ℕ → F.Float) (x : Card)
    → contains v.legal x ≡ true
    → any (λ r. card_eq r.card x) (rank_plays_with F v reply) ≡ true
unfolding rank_plays_with ranked_play
rank_plays_with-lists F v reply x hx =
    any-sort (better_play F) (λ r. card_eq r.card x) (map (ranked_play F v reply) v.legal)
    ∙ any_legal (λ (r : RankedPlay F). r.card) (ranked_play F v reply) v x (λ c. refl) hx

module _ (F : Floats) (finite : IsFinite F) where
  abbrev pub NotNegative : F.Float → Type 0
  NotNegative v = F.gt (F.of_int 0) v ≡ false

  never_negative-NotNegative : (v : F.Float) → NotNegative (never_negative F v)
  unfolding never_negative
  never_negative-NotNegative v = elim (Bool-cases (F.gt (F.of_int 0) v)) [
    | inl less ↦ rw less (finite.irreflexive (F.of_int 0))
    | inr fine ↦ rw fine fine
  ]

  rounded-NotNegative : (u : Units) (v : F.Float) → NotNegative v → NotNegative (rounded F u v)
  rounded-NotNegative units_points v h = finite.round4_keeps_sign v h
  rounded-NotNegative units_winprob v h = finite.round6_keeps_sign v h

  delta-NotNegative : (u : Units) (v : F.Float) → NotNegative (rounded F u (never_negative F v))
  delta-NotNegative u v = rounded-NotNegative u (never_negative F v) (never_negative-NotNegative v)

  -- A verdict is given, and its loss is not negative.
  abbrev pub GivesDiscard : Option (DiscardVerdict F) → Type 0
  GivesDiscard o = (v : DiscardVerdict F) × (o ≡ some v) × NotNegative v.delta

  abbrev pub GivesPlay : Option (PlayVerdict F) → Type 0
  GivesPlay o = (v : PlayVerdict F) × (o ≡ some v) × NotNegative v.delta

  pub rated_throw-Gives :
      (value : RankedDiscard F → F.Float) (units : Units) (ranked : List (RankedDiscard F))
      (throw : Card × Card)
      → lists F throw ranked ≡ true
      → GivesDiscard (rated_throw F value units ranked throw)
  unfolding rated_throw chosen_of discard_verdict
  rated_throw-Gives value units [] throw h = cc
  rated_throw-Gives value units (best ∷ rest) throw h =
      let (chosen, found, same) = find-any (λ r. same_pair r.discard throw) (best ∷ rest) h in
      (
        discard_verdict F best.discard best.keep (value best) (value chosen) units,
        ap (λ o. throw_verdict F value units (beside best o)) found,
        delta-NotNegative units (F.minus (value best) (value chosen)),
      )

  pub rated_play-Gives :
      (ranked : List (RankedPlay F)) (c : Card) (units : Units)
      → any (λ r. card_eq r.card c) ranked ≡ true
      → GivesPlay (rated_play F ranked c units)
  unfolding rated_play play_verdict
  rated_play-Gives [] c units h = cc
  rated_play-Gives (best ∷ rest) c units h =
      let (chosen, found, same) = find-any (λ r. card_eq r.card c) (best ∷ rest) h in
      (
        play_verdict F best.card best.score chosen.score units,
        ap (λ o. verdict_beside F units (beside best o)) found,
        delta-NotNegative units (F.minus best.score chosen.score),
      )

  scan_discards-some :
      (throw : Card × Card) (best : MlDiscardValue F) (chosen : Option (MlDiscardValue F))
      (vals : List (MlDiscardValue F))
      → ((dv : MlDiscardValue F) × (chosen ≡ some dv))
        ⊎ (any (λ dv. same_pair dv.discard throw) vals ≡ true)
      → (dv : MlDiscardValue F) × ((scan_discards F throw best chosen vals).1 ≡ some dv)
  unfolding scan_discards
  scan_discards-some throw best chosen [] (inl h) = h
  scan_discards-some throw best chosen [] (inr h) = cc
  scan_discards-some throw best chosen (dv ∷ vals) (inl h) =
      scan_discards-some throw (if F.gt dv.value best.value then dv else best)
        (if same_pair dv.discard throw then some dv else chosen) vals
        (inl (elim (Bool-cases (same_pair dv.discard throw)) [
          | inl e ↦ rw e (dv, refl)
          | inr e ↦ rw e h
        ]))
  scan_discards-some throw best chosen (dv ∷ vals) (inr h) =
      scan_discards-some throw (if F.gt dv.value best.value then dv else best)
        (if same_pair dv.discard throw then some dv else chosen) vals
        (elim (Bool-cases (same_pair dv.discard throw)) [
          | inl e ↦ inl (rw e (dv, refl))
          | inr e ↦ inr (rw e at h)
        ])

  pub ml_discard-Gives :
      (vals : List (MlDiscardValue F)) (throw : Card × Card)
      → any (λ dv. same_pair dv.discard throw) vals ≡ true
      → GivesDiscard (ml_rate_discard F vals throw)
  unfolding ml_rate_discard discard_verdict
  ml_discard-Gives [] throw h = cc
  ml_discard-Gives (v ∷ vals) throw h =
      let (chosen, found) = scan_discards-some throw v none (v ∷ vals) (inr h) in
      let best = (scan_discards F throw v none (v ∷ vals)).0 in
      (
        discard_verdict F best.discard best.keep best.value chosen.value units_points,
        rw found refl,
        delta-NotNegative units_points (F.minus best.value chosen.value),
      )

  scan_plays-some :
      (c : Card) (best : MlPlayValue F) (chosen : Option (MlPlayValue F))
      (vals : List (MlPlayValue F))
      → ((pv : MlPlayValue F) × (chosen ≡ some pv)) ⊎ (any (λ pv. card_eq pv.card c) vals ≡ true)
      → (pv : MlPlayValue F) × ((scan_plays F c best chosen vals).1 ≡ some pv)
  unfolding scan_plays
  scan_plays-some c best chosen [] (inl h) = h
  scan_plays-some c best chosen [] (inr h) = cc
  scan_plays-some c best chosen (pv ∷ vals) (inl h) =
      scan_plays-some c (if F.gt pv.value best.value then pv else best)
        (if card_eq pv.card c then some pv else chosen) vals
        (inl (elim (Bool-cases (card_eq pv.card c)) [ inl e ↦ rw e (pv, refl) | inr e ↦ rw e h ]))
  scan_plays-some c best chosen (pv ∷ vals) (inr h) =
      scan_plays-some c (if F.gt pv.value best.value then pv else best)
        (if card_eq pv.card c then some pv else chosen) vals
        (elim (Bool-cases (card_eq pv.card c)) [
          | inl e ↦ inl (rw e (pv, refl))
          | inr e ↦ inr (rw e at h)
        ])

  pub ml_play-Gives :
      (vals : List (MlPlayValue F)) (c : Card)
      → any (λ pv. card_eq pv.card c) vals ≡ true
      → GivesPlay (ml_rate_play F vals c)
  unfolding ml_rate_play play_verdict
  ml_play-Gives [] c h = cc
  ml_play-Gives (v ∷ vals) c h =
      let (chosen, found) = scan_plays-some c v none (v ∷ vals) (inr h) in
      let best = (scan_plays F c v none (v ∷ vals)).0 in
      (
        play_verdict F best.card best.value chosen.value units_points,
        rw found refl,
        delta-NotNegative units_points (F.minus best.value chosen.value),
      )

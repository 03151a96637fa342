-- ===== src/Server/Analysis/Totals.antt =====
-- internal/server/analysis2.go: the engines' summaries count the verdicts of the deals.
use cribbager.Common.{
  Text, ℕ, suc, ◌+◌, ◌≤◌, ◌≡◌, refl, ap, List, [], ◌∷◌, some, ok, err, length, All, arith, ◌∙◌,
  subst, map,
}
use cribbager.Common.Floats.{Floats}
use cribbager.Game.Defs.{Seat, Event}
use cribbager.Game.Reconstruct.{Found, reconstruct_plays}
use cribbager.Server.Analysis.Verdicts.{
  Units, units_points, units_winprob, DiscardVerdict, PlayVerdict,
}
use cribbager.Server.Analysis.Engines.{Engine}
use cribbager.Server.Analysis.Deals.{GradedPlay, DealAnalysis}
use cribbager.Server.Analysis.Aligned.{Aligned, deals_from-Aligned}
use cribbager.Server.Analysis.Walk.{
  first_walk, deals_from, Summary, no_summary, rounded_summary, add_discard, add_discard_delta,
  add_play, add_play_delta, add_each, add_plays, add_deals, GameAnalysis, analyze_game, analyzed,
  analyze_decisions,
}

module _ (F : Floats) where
  -- What a summary has counted, with no more optimal choices than choices.
  pub record Counted (hands plays : ℕ) (s : Summary F) : Type 0 where
    pub hands_are : s.hands ≡ hands
    pub plays_are : s.play_decisions ≡ plays
    pub optimal_discards_le : s.optimal_discards ≤ hands
    pub optimal_plays_le : s.optimal_plays ≤ plays

  add_discard_delta-Counted :
      (h p : ℕ) (u : Units) (delta : F.Float) (s : Summary F)
      → Counted h p s
      → Counted h p (add_discard_delta F u delta s)
  add_discard_delta-Counted h p units_points delta s c = ground arith
  add_discard_delta-Counted h p units_winprob delta s c = ground arith

  add_play_delta-Counted :
      (h p : ℕ) (u : Units) (delta : F.Float) (s : Summary F)
      → Counted h p s
      → Counted h p (add_play_delta F u delta s)
  add_play_delta-Counted h p units_points delta s c = ground arith
  add_play_delta-Counted h p units_winprob delta s c = ground arith

  add_discard-Counted :
      (h p : ℕ) (s : Summary F) (v : DiscardVerdict F)
      → Counted h p s
      → Counted (h + 1) p (add_discard F s v)
  unfolding add_discard
  add_discard-Counted h p s v c = add_discard_delta-Counted (h + 1) p v.units v.delta _ (record {
    hands_are = omega (arith, c.hands_are);
    plays_are = c.plays_are;
    optimal_discards_le = ground (arith, c.optimal_discards_le);
    optimal_plays_le = c.optimal_plays_le;
  })

  add_play-Counted :
      (h p : ℕ) (s : Summary F) (v : PlayVerdict F)
      → Counted h p s
      → Counted h (p + 1) (add_play F s v)
  unfolding add_play
  add_play-Counted h p s v c = add_play_delta-Counted h (p + 1) v.units v.delta _ (record {
    hands_are = c.hands_are;
    plays_are = omega (arith, c.plays_are);
    optimal_discards_le = c.optimal_discards_le;
    optimal_plays_le = ground (arith, c.optimal_plays_le);
  })

  add_each-All :
      {V : Type 0} (P Q : Summary F → Type 0) (add : Summary F → V → Summary F)
      (ss : List (Summary F)) (vs : List V)
      → ((s : Summary F) (v : V) → P s → Q (add s v))
      → length vs ≡ length ss
      → All P ss
      → All Q (add_each F add ss vs) × (length (add_each F add ss vs) ≡ length ss)
  unfolding add_each
  add_each-All P Q add [] vs h n a = (tt, refl)
  add_each-All P Q add (s ∷ ss) [] h n a = absurd (omega (arith, n))
  add_each-All P Q add (s ∷ ss) (v ∷ vs) h n (p, a) =
      let (all, same) = add_each-All P Q add ss vs h (omega (arith, n)) a in
      ((h s v p, all), omega (arith, same))

  abbrev pub count_plays : List (DealAnalysis F) → ℕ
  count_plays [] = 0
  count_plays (da ∷ das) = length da.plays + count_plays das

  add_plays-Counted :
      (n h p : ℕ) (ss : List (Summary F)) (ps : List (GradedPlay F))
      → length ss ≡ n
      → All (λ q. length q.engines ≡ n) ps
      → All (Counted h p) ss
      → All (Counted h (p + length ps)) (add_plays F ss ps) × (length (add_plays F ss ps) ≡ n)
  unfolding add_plays
  add_plays-Counted n h p ss [] l a c = (subst (λ k. All (Counted h k) ss) (omega arith) c, l)
  add_plays-Counted n h p ss (q ∷ ps) l (m, a) c =
      let (c', same) =
        add_each-All (Counted h p) (Counted h (p + 1)) (add_play F) ss q.engines
          (add_play-Counted h p) (omega (arith, m, l)) c in
      let (c'', same') =
        add_plays-Counted n h (p + 1) (add_each F (add_play F) ss q.engines) ps (same ∙ l) a c' in
      (
        subst (λ k. All (Counted h k) (add_plays F (add_each F (add_play F) ss q.engines) ps))
            (omega arith) c'',
        same',
      )

  add_deals-Counted :
      (n h p : ℕ) (ss : List (Summary F)) (das : List (DealAnalysis F))
      → length ss ≡ n
      → All (Aligned F n) das
      → All (Counted h p) ss
      → All (Counted (h + length das) (p + count_plays das)) (add_deals F ss das)
        × (length (add_deals F ss das) ≡ n)
  unfolding add_deals
  add_deals-Counted n h p ss [] l a c = (
    subst (λ k. All (Counted k (p + 0)) ss) (omega arith)
        (subst (λ k. All (Counted h k) ss) (omega arith) c),
    l,
  )
  add_deals-Counted n h p ss (da ∷ das) l (m, a) c =
      let (c', same) =
        add_each-All (Counted h p) (Counted (h + 1) p) (add_discard F) ss da.discard.engines
          (add_discard-Counted h p) (omega (arith, m.discard_verdicts, l)) c in
      let (c'', same') =
        add_plays-Counted n (h + 1) p (add_each F (add_discard F) ss da.discard.engines) da.plays
          (same ∙ l) m.play_verdicts c' in
      let next = add_plays F (add_each F (add_discard F) ss da.discard.engines) da.plays in
      let (c3, same3) = add_deals-Counted n (h + 1) (p + length da.plays) next das same' a c'' in
      (
        subst (λ k. All (Counted k (p + count_plays (da ∷ das))) (add_deals F next das))
            (omega arith)
            (subst (λ k. All (Counted (h + 1 + length das) k) (add_deals F next das)) (omega arith)
              c3),
        same3,
      )

  length-map : {A B : Type 0} (f : A → B) (xs : List A) → length (map f xs) ≡ length xs
  length-map f [] = refl
  length-map f (x ∷ xs) = ap suc (length-map f xs)

  rounded-All :
      (h p : ℕ) (ss : List (Summary F))
      → All (Counted h p) ss
      → All (Counted h p) (map (rounded_summary F) ss)
  rounded-All h p [] a = tt
  rounded-All h p (s ∷ ss) (c, a) = (
    record {
      hands_are = c.hands_are;
      plays_are = c.plays_are;
      optimal_discards_le = c.optimal_discards_le;
      optimal_plays_le = c.optimal_plays_le;
    },
    rounded-All h p ss a,
  )

  none-Counted : {A : Type 0} (xs : List A) → All (Counted 0 0) (map (λ (x : A). no_summary F) xs)
  none-Counted [] = tt
  none-Counted (x ∷ xs) = (
    record {
      hands_are = refl;
      plays_are = refl;
      optimal_discards_le = omega arith;
      optimal_plays_le = omega arith;
    },
    none-Counted xs,
  )

  from_zero :
      (h p : ℕ) (ss : List (Summary F)) → All (Counted (0 + h) (0 + p)) ss → All (Counted h p) ss
  from_zero h p ss a =
      subst (λ k. All (Counted k p) ss) (omega arith)
        (subst (λ k. All (Counted (0 + h) k) ss) (omega arith) a)

  -- An analysis of a log by any engines: there is a summary for each engine, in which the hands are the
  -- analysed deals, the play decisions those of the deals, and neither count of optimal choices is
  -- above that of the choices; and every deal has a verdict of each engine on its discard and plays.
  pub analyze_game-Counted :
      (id : Text) (seat : Seat) (es : List Event) (engines : List (Engine F)) (r : GameAnalysis F)
      → analyze_game F id seat es engines ≡ some r
      → (length r.summary ≡ length engines)
        × All (Counted (length r.deals) (count_plays r.deals)) r.summary
        × All (Aligned F (length engines)) r.deals
  unfolding analyze_game analyze_decisions
  analyze_game-Counted id seat es engines r h = by_decisions (reconstruct_plays es) h
    where
      got : {x : GameAnalysis F} → some x ≡ some r → x ≡ r
      got e = cc

      by_decisions :
          (o : Found)
          → analyzed F id seat es engines o ≡ some r
          → (length r.summary ≡ length engines)
            × All (Counted (length r.deals) (count_plays r.deals)) r.summary
            × All (Aligned F (length engines)) r.deals
      by_decisions (err e) k = cc
      by_decisions (ok ds) k =
          let deals = deals_from F engines seat ds first_walk es in
          let blank = map (λ (e : Engine F). no_summary F) engines in
          let aligned = deals_from-Aligned F engines seat ds first_walk es in
          let (counted, same) =
            add_deals-Counted (length engines) 0 0 blank deals
              (length-map (λ e. no_summary F) engines) aligned (none-Counted engines) in
          subst
            (λ (x : GameAnalysis F).
              (length x.summary ≡ length engines)
              × All (Counted (length x.deals) (count_plays x.deals)) x.summary
              × All (Aligned F (length engines)) x.deals)
            (got k)
            (
              length-map (rounded_summary F) (add_deals F blank deals) ∙ same,
              rounded-All (length deals) (count_plays deals) (add_deals F blank deals)
                  (from_zero (length deals) (count_plays deals) (add_deals F blank deals) counted),
              aligned,
            )

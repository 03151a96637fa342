-- ===== src/Server/Analysis/Starts.antt =====
-- internal/server/analysis2.go: the scores at the start of each analysed deal are the engine's.
use cribbager.Common.{
  ℕ, ◌-◌, ◌≤◌, ◌<◌, ◌≡◌, refl, sym, Bool, true, false, List, [], ◌∷◌, ◌++◌, Option, none, some,
  if◌then◌else◌, length, get_elem?, length-append, All, arith, Bool-cases, inl, inr, subst,
  append_assoc, ◌==◌,
}
use cribbager.Common.Floats.{Floats}
use cribbager.Cribbage.Defs.{Card}
use cribbager.Game.Defs.{
  Seat, seat_eq, Both, pick, Event, hand_dealt, starter_cut, card_played, go_awarded, hand_shown,
  crib_shown, cut_for_deal, handicap, discarded, pass, series_reset, game_won, show_not_counted,
}
use cribbager.Game.Kinds.{in_hand, every}
use cribbager.Game.State.{State, zero_state, reduce}
use cribbager.Game.Reconstruct.{PlayDecision}
use cribbager.Server.Analysis.Engines.{Engine}
use cribbager.Server.Analysis.Verdicts.{DiscardVerdict}
use cribbager.Server.Analysis.Deals.{
  GradedPlay, Rollup, DealStart, DealAnalysis, analyze_deal, grade_after_discard, finish_deal,
  plays_by_deal, deal_analysis,
}
use cribbager.Server.Analysis.Walk.{
  Walk, first_walk, walk_event, six_of, graded_by, graded_from, deal_start, deals_from, add_graded,
}
use cribbager.Server.Analysis.Kept.{Capped, Keeps, walk-Keeps, get_elem-append, get_elem-last}

-- The scores of the engine's fold at each deal of a log.
abbrev pub engine_starts : ℕ → State → List Event → List (Both ℕ)
engine_starts target s [] = []
engine_starts target s (hand_dealt dealer hands ∷ es) =
    s.scores ∷ engine_starts target (reduce target s (hand_dealt dealer hands)) es
engine_starts target s (e ∷ es) = engine_starts target (reduce target s e) es

module _ (F : Floats) where
  -- An analysed deal starts from the engine's scores at the deal of its index.
  abbrev pub Started : ℕ → List (Both ℕ) → DealAnalysis F → Type 0
  Started target starts da =
      (x : Both ℕ) × (get_elem? starts da.deal ≡ some x) × Capped target x da.start_scores

  analyze_deal-start :
      (engines : List (Engine F)) (seat : Seat) (at : DealStart F) (throw : Card × Card)
      (plays : List PlayDecision) (da : DealAnalysis F)
      → analyze_deal F engines seat at throw plays ≡ some da
      → (da.deal ≡ at.deal) × (da.start_scores ≡ at.start)
  unfolding analyze_deal deal_analysis
  analyze_deal-start engines seat at throw plays da h = by_verdicts _ h
    where
      by_plays :
          (vs : List (DiscardVerdict F)) (o : Option (List (GradedPlay F) × List (Rollup F)))
          → finish_deal F at throw vs o ≡ some da
          → (da.deal ≡ at.deal) × (da.start_scores ≡ at.start)
      by_plays vs none e = cc
      by_plays vs (some graded) e = (ground arith, ground arith)

      by_verdicts :
          (o : Option (List (DiscardVerdict F)))
          → grade_after_discard F engines at throw plays o ≡ some da
          → (da.deal ≡ at.deal) × (da.start_scores ≡ at.start)
      by_verdicts none e = cc
      by_verdicts (some vs) e = by_plays vs _ e

  -- While a hand is held, the last deal so far is the one that it was dealt in.
  abbrev HeldIn : ℕ → List (Both ℕ) → Walk → Option (List Card) → Type 0
  HeldIn target starts w none = Unit
  HeldIn target starts w (some six) =
      (x : Both ℕ) × (get_elem? starts (w.dealt - 1) ≡ some x) × Capped target x w.start

  add_graded-All :
      (P : DealAnalysis F → Type 0) (o : Option (DealAnalysis F)) (das : List (DealAnalysis F))
      → ((da : DealAnalysis F) → o ≡ some da → P da)
      → All P das
      → All P (add_graded F o das)
  add_graded-All P none das h a = a
  add_graded-All P (some da) das h a = (h da refl, a)

  graded_from-Started :
      (target : ℕ) (starts more : List (Both ℕ)) (engines : List (Engine F)) (seat : Seat)
      (decisions : List PlayDecision) (w : Walk) (throw : Card × Card) (held : Option (List Card))
      → HeldIn target starts w held
      → (da : DealAnalysis F) → graded_from F engines seat decisions w throw held ≡ some da
      → Started target (starts ++ more) da
  graded_from-Started target starts more engines seat decisions w throw none h da e = cc
  graded_from-Started target starts more engines seat decisions w throw (some six) (x, at, c) da e =
      let (deal, start) =
        analyze_deal-start engines seat (deal_start F w six) throw
          (plays_by_deal seat (w.dealt - 1) decisions) da e in
      (
        x,
        rw deal (get_elem-append starts more (w.dealt - 1) x at),
        subst (Capped target x) (sym start) c,
      )

  held_six_in :
      (target : ℕ) (starts : List (Both ℕ)) (w : Walk) (six : List Card) (x : Both ℕ)
      → get_elem? starts (w.dealt - 1) ≡ some x
      → Capped target x w.start
      → HeldIn target starts w (six_of six)
  held_six_in target starts w six x at c = elim (Bool-cases (length six == 6)) [
    | inl e ↦ rw e (x, at, c)
    | inr e ↦ rw e tt
  ]

  starts_from :
      (target : ℕ) (starts : List (Both ℕ)) (engines : List (Engine F)) (seat : Seat)
      (decisions : List PlayDecision) (w : Walk) (s : State) (es : List Event)
      → 0 < target
      → every in_hand es ≡ true
      → length starts ≡ w.dealt
      → HeldIn target starts w w.held
      → Keeps target w s
      → All
          (Started target (starts ++ engine_starts target s es))
          (deals_from F engines seat decisions w es)
  unfolding deals_from graded_by walk_event
  starts_from target starts engines seat decisions w s [] h i n held k = tt
  starts_from target starts engines seat decisions w s (hand_dealt dealer hands ∷ es) h i n held k =
      let w' = walk_event seat w (hand_dealt dealer hands) in
      let s' = reduce target s (hand_dealt dealer hands) in
      subst (λ l. All (Started target l) (deals_from F engines seat decisions w' es))
        (append_assoc starts (s.scores ∷ []) (engine_starts target s' es))
        (starts_from target (starts ++ s.scores ∷ []) engines seat decisions w' s' es h i
          (omega (arith, length-append starts (s.scores ∷ []), n))
          (held_six_in target (starts ++ s.scores ∷ []) w' (pick hands seat) s.scores
            (subst (λ m. get_elem? (starts ++ s.scores ∷ []) m ≡ some s.scores) (omega (arith, n))
              (get_elem-last starts s.scores))
            k.capped)
          (walk-Keeps target seat w s (hand_dealt dealer hands) h refl k))
  starts_from target starts engines seat decisions w s (discarded x c d ∷ es) h i n held k =
      let rest =
        starts_from target starts engines seat decisions (walk_event seat w (discarded x c d))
          (reduce target s (discarded x c d)) es h i n (after_discard (seat_eq x seat))
          (walk-Keeps target seat w s (discarded x c d) h refl k) in
      add_graded-All (Started target (starts ++ engine_starts target s (discarded x c d ∷ es)))
        (graded_by F engines seat decisions w (discarded x c d)) _ (graded_here (seat_eq x seat))
        rest
    where
      after_discard : (b : Bool) → HeldIn target starts w (if b then none else w.held)
      after_discard true = tt
      after_discard false = held

      graded_here :
          (b : Bool) (da : DealAnalysis F)
          → (if b then graded_from F engines seat decisions w (c, d) w.held else none) ≡ some da
          → Started target (starts ++ engine_starts target s (discarded x c d ∷ es)) da
      graded_here true da e =
          graded_from-Started target starts (engine_starts target s (discarded x c d ∷ es)) engines
            seat decisions w (c, d) w.held held da e
      graded_here false da e = cc
  starts_from target starts engines seat decisions w s (cut_for_deal a b ∷ es) h i n held k = cc
  starts_from target starts engines seat decisions w s (handicap a ∷ es) h i n held k = cc
  starts_from target starts engines seat decisions w s (starter_cut a b ∷ es) h i n held k =
      starts_from target starts engines seat decisions (walk_event seat w (starter_cut a b))
        (reduce target s (starter_cut a b)) es h i n held
        (walk-Keeps target seat w s (starter_cut a b) h refl k)
  starts_from target starts engines seat decisions w s (card_played a b c ∷ es) h i n held k =
      starts_from target starts engines seat decisions (walk_event seat w (card_played a b c))
        (reduce target s (card_played a b c)) es h i n held
        (walk-Keeps target seat w s (card_played a b c) h refl k)
  starts_from target starts engines seat decisions w s (pass a ∷ es) h i n held k =
      starts_from target starts engines seat decisions (walk_event seat w (pass a))
        (reduce target s (pass a)) es h i n held (walk-Keeps target seat w s (pass a) h refl k)
  starts_from target starts engines seat decisions w s (go_awarded a b ∷ es) h i n held k =
      starts_from target starts engines seat decisions (walk_event seat w (go_awarded a b))
        (reduce target s (go_awarded a b)) es h i n held
        (walk-Keeps target seat w s (go_awarded a b) h refl k)
  starts_from target starts engines seat decisions w s (series_reset a ∷ es) h i n held k =
      starts_from target starts engines seat decisions (walk_event seat w (series_reset a))
        (reduce target s (series_reset a)) es h i n held
        (walk-Keeps target seat w s (series_reset a) h refl k)
  starts_from target starts engines seat decisions w s (hand_shown a b c ∷ es) h i n held k =
      starts_from target starts engines seat decisions (walk_event seat w (hand_shown a b c))
        (reduce target s (hand_shown a b c)) es h i n held
        (walk-Keeps target seat w s (hand_shown a b c) h refl k)
  starts_from target starts engines seat decisions w s (crib_shown a b ∷ es) h i n held k =
      starts_from target starts engines seat decisions (walk_event seat w (crib_shown a b))
        (reduce target s (crib_shown a b)) es h i n held
        (walk-Keeps target seat w s (crib_shown a b) h refl k)
  starts_from target starts engines seat decisions w s (game_won a ∷ es) h i n held k =
      starts_from target starts engines seat decisions (walk_event seat w (game_won a))
        (reduce target s (game_won a)) es h i n held
        (walk-Keeps target seat w s (game_won a) h refl k)
  starts_from target starts engines seat decisions w s (show_not_counted a b c ∷ es) h i n held k =
      starts_from target starts engines seat decisions (walk_event seat w (show_not_counted a b c))
        (reduce target s (show_not_counted a b c)) es h i n held
        (walk-Keeps target seat w s (show_not_counted a b c) h refl k)

  -- A first event with which a game begins: a cut, or a preset position up to the target.
  abbrev pub Opens : ℕ → Event → Type 0
  Opens target (cut_for_deal cuts dealer) = Unit
  Opens target (handicap scores) = (scores.at0 ≤ target) × (scores.at1 ≤ target)
  Opens target _ = ⊥

  -- In a log that opens with a cut or a preset position up to the target, and then a deal, with no later
  -- cut for the deal or preset position: every deal that is analysed starts from the scores of the
  -- engine's own fold at that deal of the log, up to the engine's stop at the target.
  pub deals_from-Started :
      (target : ℕ) (engines : List (Engine F)) (seat : Seat) (decisions : List PlayDecision)
      (opening : Event) (dealer : Seat) (hands : Both (List Card)) (es : List Event)
      → 0 < target
      → Opens target opening
      → every in_hand es ≡ true
      → All
          (Started target
            (engine_starts target zero_state (opening ∷ hand_dealt dealer hands ∷ es)))
          (deals_from F engines seat decisions first_walk (opening ∷ hand_dealt dealer hands ∷ es))
  unfolding deals_from graded_by walk_event reduce
  deals_from-Started target engines seat decisions (cut_for_deal cuts cutter) dealer hands es h o
        i =
      starts_from target [] engines seat decisions first_walk zero_state
        (hand_dealt dealer hands ∷ es) h i refl tt
        (record { same_dealer = refl; capped = (omega arith, omega arith) })
  deals_from-Started target engines seat decisions (handicap scores) dealer hands es h (o0, o1) i =
      starts_from target [] engines seat decisions (walk_event seat first_walk (handicap scores))
        (reduce target zero_state (handicap scores)) (hand_dealt dealer hands ∷ es) h i refl tt
        (record { same_dealer = refl; capped = (omega (arith, o0), omega (arith, o1)) })
  deals_from-Started target engines seat decisions _ dealer hands es h o i = absurd o

-- ===== src/Server/DiscardAnswers.antt =====
-- internal/server/tools.go: what `handleDiscardEval` answers.
use cribbager.Common.{
  Option, none, leb, ◌<◌, ◌≤◌, ◌+◌, ℕ, ◌≡◌, refl, ap, ◌∙◌, Bool, true, false, not, ◌&&◌, ◌||◌, List,
  [], ◌∷◌, some, map, ◌==◌, length, map_option, arith, Bool-cases, inl, inr, ◌⊎◌,
}
use cribbager.Common.Floats.{Floats}
use cribbager.Common.Int.{ℤ, pos, negsuc}
use cribbager.Cribbage.Defs.{Card}
use cribbager.Cribbage.Occurrences.{occ, Distinct, card_eq_iff, card_eq_refl}
use cribbager.Pegging.Defs.{contains}
use cribbager.Pegging.Legality.{contains-occ}
use cribbager.Hand.Defs.{Four, four_list}
use cribbager.Game.State.{is_empty}
use cribbager.Bot.Splits.{
  hand_value_dist, fits_histogram, remaining, hand_value_counts-sums, no_counts,
}
use cribbager.Bot.Ranking.{RankedDiscard, rank_discards}
use cribbager.Server.Handlers.{Answer, replied, refused}
use cribbager.Server.Analysis.Engines.{Evaluators}
use cribbager.Server.DiscardTool.{
  DiscardEvalRequest, has_duplicate, Scores, no_scores, bad_scores, both_scores, scores_of,
  score_of, both_in_range, DiscardSituation, RankedHold, ranked_hold, cons_hold, holds_of,
  DiscardEval, situation_of, ranking_of, eval_answer, eval_scores, handle_discard_eval,
}

abbrev pub is_bad : Scores → Bool
is_bad bad_scores = true
is_bad _ = false

-- A score that no player can have before the end of the game.
abbrev pub Outside : ℤ → Type 0
Outside (pos n) = 120 < n
Outside (negsuc n) = Unit

-- One score without the other, or a score that is outside.
abbrev pub BadScores : Option ℤ → Option ℤ → Type 0
BadScores none none = ⊥
BadScores none (some y) = Unit
BadScores (some x) none = Unit
BadScores (some x) (some y) = Outside x ⊎ Outside y

-- Why a request is refused.
pub data Unratable (req : DiscardEvalRequest) : Type 0 where
  not_six : (length req.hand == 6) ≡ false → Unratable req
  twice : (c : Card) → 1 < occ c req.hand → Unratable req
  bad : BadScores req.my_score req.opp_score → Unratable req

dup-Distinct : (cards : List Card) → has_duplicate cards ≡ false → Distinct cards
unfolding has_duplicate
dup-Distinct [] h c = ground arith
dup-Distinct (x ∷ xs) h c = ground (
  arith,
  contains-occ xs x,
  card_eq_iff x c,
  λ (e : has_duplicate xs ≡ false). dup-Distinct xs e c,
)

dup-twice : (cards : List Card) → has_duplicate cards ≡ true → (c : Card) × (1 < occ c cards)
unfolding has_duplicate
dup-twice [] h = cc
dup-twice (x ∷ xs) h = elim (Bool-cases (contains xs x)) [
  | inl e ↦ (x, ground (arith, contains-occ xs x, card_eq_refl x))
  | inr e ↦ let (c, n) = dup-twice xs (rw e at h) in (c, omega (arith, n))
]

scores_of-bad : (a b : Option ℤ) → scores_of a b ≡ bad_scores → BadScores a b
unfolding scores_of
scores_of-bad none none h = cc
scores_of-bad none (some y) h = tt
scores_of-bad (some x) none h = tt
scores_of-bad (some (negsuc m)) (some y) h = inl tt
scores_of-bad (some (pos m)) (some (negsuc n)) h = inr tt
scores_of-bad (some (pos m)) (some (pos n)) h = elim (Bool-cases (leb m 120)) [
  | inr big ↦ inl (ground arith)
  | inl fits ↦ elim (Bool-cases (leb n 120)) [
    | inr big ↦ inr (ground arith)
    | inl fits' ↦ cc (rw (fits, fits') at h)
  ]
]

scores_of-none : (a b : Option ℤ) → scores_of a b ≡ no_scores → (a ≡ none) × (b ≡ none)
unfolding scores_of
scores_of-none none none h = (refl, refl)
scores_of-none none (some y) h = cc
scores_of-none (some x) none h = cc
scores_of-none (some x) (some y) h = absurd (never (score_of x) (score_of y) h)
  where
    never : (o p : Option ℕ) → both_in_range o p ≡ no_scores → ⊥
    never none p e = cc
    never (some m) none e = cc
    never (some m) (some n) e = cc

scores_of-both :
    (a b : Option ℤ) (m n : ℕ)
    → scores_of a b ≡ both_scores m n
    → (a ≡ some (pos m)) × (b ≡ some (pos n)) × (m ≤ 120) × (n ≤ 120)
unfolding scores_of
scores_of-both none none m n h = cc
scores_of-both none (some y) m n h = cc
scores_of-both (some x) none m n h = cc
scores_of-both (some (negsuc x)) (some y) m n h = cc
scores_of-both (some (pos x)) (some (negsuc y)) m n h = absurd (never (score_of (pos x)) h)
  where
    never : (o : Option ℕ) → both_in_range o none ≡ both_scores m n → ⊥
    never none e = cc
    never (some k) e = cc
scores_of-both (some (pos x)) (some (pos y)) m n h = elim (Bool-cases (leb x 120)) [
  | inr big ↦ cc (rw big at h)
  | inl fits ↦ elim (Bool-cases (leb y 120)) [
    | inr big ↦ cc (rw (fits, big) at h)
    | inl fits' ↦ (
      ap (λ k. some (pos k)) (scores_same (rw (fits, fits') at h)).0,
      ap (λ k. some (pos k)) (scores_same (rw (fits, fits') at h)).1,
      ground (arith, (scores_same (rw (fits, fits') at h)).0, fits),
      ground (arith, (scores_same (rw (fits, fits') at h)).1, fits'),
    )
  ]
]
  where
    scores_same : both_scores x y ≡ both_scores m n → (x ≡ m) × (y ≡ n)
    scores_same e = (cc, cc)

module _ (F : Floats) where
  -- No hold of a ranking can show more than 29 points.
  abbrev pub all_fit : List Card → List (RankedDiscard F) → Bool
  all_fit h [] = true
  all_fit h (rd ∷ ranked) =
      fits_histogram rd.keep (remaining (h ∷ four_list rd.keep ∷ [])) && all_fit h ranked

  dist-some :
      (keep : Four) (h : List Card)
      → fits_histogram keep (remaining (h ∷ four_list keep ∷ [])) ≡ true
      → (d : List F.Float) × (hand_value_dist F keep h ≡ some d)
  unfolding hand_value_dist
  dist-some keep h fits = elim (Bool-cases (is_empty (remaining (h ∷ four_list keep ∷ [])))) [
    | inl e ↦ (map F.of_int no_counts, rw e refl)
    | inr e ↦
        let (d, found, l, s, w) = hand_value_counts-sums keep h fits in
        let share = λ (ns : List ℕ).
          map (λ n. F.over (F.of_int n) (F.of_int (length (remaining (h ∷ four_list keep ∷ [])))))
            ns in
        (share d, rw e (ap (map_option share) found))
  ]

  -- What a hold shows of an entry of a ranking.
  abbrev pub held : RankedHold F → (Card × Card) × Four × F.Float × F.Float
  held x = (x.throw, x.keep, x.ev, x.win)

  abbrev pub entry : RankedDiscard F → (Card × Card) × Four × F.Float × F.Float
  entry rd = (rd.discard, rd.keep, F.round4 rd.score, F.round6 rd.win)

  -- The holds are those of the ranking, in its order.
  holds_of-some :
      (h : List Card) (ranked : List (RankedDiscard F))
      → all_fit h ranked ≡ true
      → (hs : List (RankedHold F)) × (holds_of F h ranked ≡ some hs)
        × (map held hs ≡ map entry ranked)
  unfolding holds_of ranked_hold
  holds_of-some h [] fits = ([], refl, refl)
  holds_of-some h (rd ∷ ranked) fits =
      let (d, found) = dist-some rd.keep h (ground arith) in
      let (hs, rest, throws) = holds_of-some h ranked (ground arith) in
      (
        ranked_hold F rd d ∷ hs,
        ap (λ o. cons_hold F (map_option (ranked_hold F rd) o) (holds_of F h ranked)) found
            ∙ ap (cons_hold F (some (ranked_hold F rd d))) rest,
        ap (λ l. entry rd ∷ l) throws,
      )

  module _ (ev : Evaluators F) (win_prob_of : ℕ → ℕ → Bool → F.Float) where
    -- The ranking for a request.
    abbrev pub its_ranking : DiscardEvalRequest → List (RankedDiscard F)
    its_ranking req =
        ranking_of F ev win_prob_of req.hand req.dealer (scores_of req.my_score req.opp_score)

    -- The situation at `m` points to `n`.
    pub record Situated (dealer : Bool) (m n : ℕ) (s : DiscardSituation F) : Type 0 where
      pub mine : s.my_score ≡ m
      pub theirs : s.opp_score ≡ n
      pub my_way : s.my_need + m ≡ 121
      pub their_way : s.opp_need + n ≡ 121
      pub chance : s.win_prob ≡ F.round4 (win_prob_of m n dealer)
      pub near : s.endgame ≡ ev.in_reach m n dealer

    -- An answer without scores has the holds by points and no situation; one with both scores, each of
    -- at most 120, has the holds by the win objective at these scores, and their situation.
    pub data Graded (req : DiscardEvalRequest) (r : DiscardEval F) : Type 0 where
      by_points :
          req.my_score ≡ none
          → req.opp_score ≡ none
          → map held r.holds ≡ map entry (rank_discards F ev.table req.hand req.dealer)
          → r.situation ≡ none
          → Graded req r
      by_winning :
          (m n : ℕ) (s : DiscardSituation F)
          → req.my_score ≡ some (pos m)
          → req.opp_score ≡ some (pos n)
          → m ≤ 120
          → n ≤ 120
          → map held r.holds ≡ map entry (ev.rank_discards_win req.hand req.dealer m n)
          → r.situation ≡ some s
          → Situated req.dealer m n s
          → Graded req r

    abbrev pub Answers : DiscardEvalRequest → Answer (DiscardEval F) → Type 0
    Answers req a =
        ((a ≡ refused 400) × Unratable req)
        ⊎ ((r : DiscardEval F) × (a ≡ replied 200 r)
            × (length req.hand ≡ 6)
            × Distinct req.hand
            × Graded req r)

    graded_scores :
        (req : DiscardEvalRequest) (s : Scores)
        → is_bad s ≡ false
        → all_fit req.hand (ranking_of F ev win_prob_of req.hand req.dealer s) ≡ true
        → (r : DiscardEval F) × (eval_scores F ev win_prob_of req s ≡ replied 200 r)
          × (map held r.holds ≡ map entry (ranking_of F ev win_prob_of req.hand req.dealer s))
          × (r.situation ≡ situation_of F ev win_prob_of req.dealer s)
    unfolding eval_scores
    graded_scores req bad_scores good fits = cc
    graded_scores req no_scores good fits =
        let (hs, found, throws) =
          holds_of-some req.hand (ranking_of F ev win_prob_of req.hand req.dealer no_scores) fits in
        (
          record {
            hand = req.hand;
            dealer = req.dealer;
            holds = hs;
            situation = situation_of F ev win_prob_of req.dealer no_scores;
          },
          ap (eval_answer F ev win_prob_of req (situation_of F ev win_prob_of req.dealer no_scores))
              found,
          throws,
          refl,
        )
    graded_scores req (both_scores m n) good fits =
        let (hs, found, throws) =
          holds_of-some req.hand (ranking_of F ev win_prob_of req.hand req.dealer (both_scores m n))
            fits in
        (
          record {
            hand = req.hand;
            dealer = req.dealer;
            holds = hs;
            situation = situation_of F ev win_prob_of req.dealer (both_scores m n);
          },
          ap
              (eval_answer F ev win_prob_of req
                (situation_of F ev win_prob_of req.dealer (both_scores m n)))
              found,
          throws,
          refl,
        )

    refused_scores :
        (req : DiscardEvalRequest) (s : Scores)
        → is_bad s ≡ true
        → eval_scores F ev win_prob_of req s ≡ refused 400
    unfolding eval_scores
    refused_scores req bad_scores h = refl
    refused_scores req no_scores h = cc
    refused_scores req (both_scores m n) h = cc

    six_cards :
        (req : DiscardEvalRequest)
        → (not (length req.hand == 6) || has_duplicate req.hand) ≡ false
        → (length req.hand ≡ 6) × Distinct req.hand
    six_cards req e = (ground arith, dup-Distinct req.hand (ground arith))

    answered :
        (req : DiscardEvalRequest) (s : Scores)
        → scores_of req.my_score req.opp_score ≡ s
        → all_fit req.hand (ranking_of F ev win_prob_of req.hand req.dealer s) ≡ true
        → (length req.hand ≡ 6) × Distinct req.hand
        → Answers req (eval_scores F ev win_prob_of req s)
    unfolding ranking_of situation_of
    answered req bad_scores e fits six =
        inl (refused_scores req bad_scores refl, bad (scores_of-bad req.my_score req.opp_score e))
    answered req no_scores e fits (len, distinct) =
        let (r, found, holds, situated) = graded_scores req no_scores refl fits in
        let (my, opp) = scores_of-none req.my_score req.opp_score e in
        inr (r, found, len, distinct, by_points my opp holds situated)
    answered req (both_scores m n) e fits (len, distinct) =
        let (r, found, holds, situated) = graded_scores req (both_scores m n) refl fits in
        let (my, opp, lo, lo') = scores_of-both req.my_score req.opp_score m n e in
        inr (
          r,
          found,
          len,
          distinct,
          by_winning m n _ my opp lo lo' holds situated (record {
            mine = refl;
            theirs = refl;
            my_way = omega (arith, lo);
            their_way = omega (arith, lo');
            chance = refl;
            near = refl;
          }),
        )

    refused_hand :
        (req : DiscardEvalRequest)
        → (not (length req.hand == 6) || has_duplicate req.hand) ≡ true
        → Unratable req
    refused_hand req e = elim (Bool-cases (length req.hand == 6)) [
      | inr other_number ↦ not_six other_number
      | inl six ↦ let (c, n) = dup-twice req.hand (rw six at e) in twice c n
    ]

    -- When no hold of its ranking can show more than 29 points, a request is either refused with 400, and
    -- then it has not six cards, or has a card twice, or one score without the other, or a score
    -- outside 0 to 120; or it has six different cards and is answered: without scores, with the holds of
    -- the ranking by points, in its order, and no situation; with both scores in range, with the holds
    -- of the ranking by the win objective at these scores, and the situation that they make.
    pub handle_discard_eval-Answers :
        (req : DiscardEvalRequest)
        → all_fit req.hand (its_ranking req) ≡ true
        → Answers req (handle_discard_eval F ev win_prob_of (some req))
    unfolding handle_discard_eval
    handle_discard_eval-Answers req fits =
        elim (Bool-cases (not (length req.hand == 6) || has_duplicate req.hand)) [
          | inl e ↦ rw e (inl (refl, refused_hand req e))
          | inr e ↦
              rw e (answered req (scores_of req.my_score req.opp_score) refl fits (six_cards req e))
        ]

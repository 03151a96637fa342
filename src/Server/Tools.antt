-- ===== src/Server/Tools.antt =====
-- internal/server/tools.go: `handleScoreHand`, the calculator of a hand's points. A body that
-- decodeJSON does not read is `none`.
use cribbager.Common.{
  ℕ, ◌≡◌, refl, ap, sym, ◌∙◌, Bool, true, false, not, ◌&&◌, ◌||◌, List, [], ◌∷◌, Option, none, some,
  if◌then◌else◌, map, Fallible, ok, err, sum, inl, inr, ◌⊎◌, ◌<◌, arith, Bool-cases, length, ◌==◌,
  unless, subst, All,
}
use cribbager.Cribbage.Defs.{Card, rank_valid, suit_valid}
use cribbager.Cribbage.Occurrences.{occ, Distinct}
use cribbager.Hand.Defs as Hand
use cribbager.Hand.Defs.{Four, four_list, five_of, HandError, HandResult, duplicate_card}
use cribbager.Hand.Equivalence.{HasRank, hand_total-score}
use cribbager.Hand.Legality.{Explains, hand-Explains}
use cribbager.Server.Wire.{ComboWord, hand_word}
use cribbager.Server.Handlers.{Answer, replied, refused}

pub record ScoreHandRequest : Type 0 where
  pub hand : List Card
  pub starter : Card
  pub crib : Bool

pub record ScoredCombo : Type 0 where
  pub kind : ComboWord
  pub cards : List Card
  pub points : ℕ
  pub run_length : ℕ
  pub multiplicity : ℕ

pub record ScoreHandResponse : Type 0 where
  pub hand : List Card
  pub starter : Card
  pub crib : Bool
  pub total : ℕ
  pub combos : List ScoredCombo

abbrev pub scored_combo : Hand.Combo → ScoredCombo
scored_combo c = record {
  kind = hand_word c.kind;
  cards = c.cards;
  points = c.points;
  run_length = c.run_length;
  multiplicity = c.multiplicity;
}

abbrev pub score_response : Four → Card → Bool → HandResult → ScoreHandResponse
score_response h starter crib r = record {
  hand = four_list h;
  starter = starter;
  crib = crib;
  total = r.total;
  combos = map scored_combo (Hand.combos r);
}

abbrev pub score_answer :
    Four → Card → Bool → Fallible HandError HandResult → Answer ScoreHandResponse
score_answer h starter crib (err e) = refused 400
score_answer h starter crib (ok r) = replied 200 (score_response h starter crib r)

-- Past the test of the length.
unfoldable pub score_four : Four → Card → Bool → Answer ScoreHandResponse
unfolding rank_valid suit_valid
score_four h starter crib =
    if not (rank_valid starter.rank) || not (suit_valid starter.suit)
    then refused 400
    else score_answer h starter crib (Hand.score h starter crib)

unfoldable pub score_list : List Card → Card → Bool → Answer ScoreHandResponse
unfolding score_four
score_list (a ∷ b ∷ c ∷ d ∷ []) starter crib =
    score_four (record { c0 = a; c1 = b; c2 = c; c3 = d }) starter crib
score_list _ starter crib = refused 400

-- `handleScoreHand`
unfoldable pub handle_score_hand : Option ScoreHandRequest → Answer ScoreHandResponse
unfolding score_list
handle_score_hand none = refused 400
handle_score_hand (some req) = score_list req.hand req.starter req.crib

-- A starter of the deck.
abbrev pub real_card : Card → Bool
real_card c = rank_valid c.rank && suit_valid c.suit

-- Why a request is refused: not four cards, a starter that is none, or a card that is there twice.
pub data Unscorable (req : ScoreHandRequest) : Type 0 where
  not_four : (length req.hand == 4) ≡ false → Unscorable req
  no_starter : real_card req.starter ≡ false → Unscorable req
  twice :
      (h : Four) (c : Card)
      → req.hand ≡ four_list h
      → 1 < occ c (five_of h req.starter)
      → Unscorable req

-- What an answer with points says.
pub record Scored (req : ScoreHandRequest) (r : ScoreHandResponse) : Type 0 where
  pub cards : Four
  pub four : req.hand ≡ four_list cards
  pub real : real_card req.starter ≡ true
  pub distinct : Distinct (five_of cards req.starter)
  pub arithmetic : Hand.total cards req.starter req.crib ≡ ok r.total
  pub itemised : sum (map (λ c. c.points) r.combos) ≡ r.total

abbrev pub Answers : ScoreHandRequest → Answer ScoreHandResponse → Type 0
Answers req a =
    ((a ≡ refused 400) × Unscorable req)
    ⊎ ((r : ScoreHandResponse) × (a ≡ replied 200 r) × Scored req r)

combo_points :
    (cs : List Hand.Combo) → sum (map (λ c. c.points) (map scored_combo cs)) ≡ Hand.points_of cs
combo_points [] = refl
combo_points (c ∷ cs) = omega (arith, combo_points cs)

sum_total-points :
    (o : Option HandError) (r s : HandResult)
    → unless o (Hand.sum_total s) ≡ ok r
    → r.total ≡ Hand.points_of (Hand.combos r)
unfolding Hand.sum_total Hand.combos
sum_total-points none r s h = ground arith
sum_total-points (some e) r s h = cc

score_total :
    (h : Four) (starter : Card) (crib : Bool) (r : HandResult)
    → All HasRank (five_of h starter)
    → Hand.score h starter crib ≡ ok r
    → (r.total ≡ Hand.points_of (Hand.combos r)) × (Hand.total h starter crib ≡ ok r.total)
unfolding Hand.score
score_total h starter crib r ranked e = (
  sum_total-points (Hand.check_distinct (five_of h starter)) r (Hand.itemize h starter crib) e,
  hand_total-score h starter crib ranked ∙ ap total_of_score e,
)
  where
    total_of_score : Fallible HandError HandResult → Fallible HandError ℕ
    total_of_score o = elim o [ ok r ↦ ok r.total | err e ↦ err e ]

four-Answers :
    (h : Four) (starter : Card) (crib : Bool) (o : Fallible HandError HandResult)
    → Hand.score h starter crib ≡ o
    → real_card starter ≡ true
    → All HasRank (five_of h starter)
    → Answers
        (record { hand = four_list h; starter = starter; crib = crib })
        (score_answer h starter crib o)
four-Answers h starter crib (err (duplicate_card c)) e real ranked =
    inl
      (refl, twice h c refl (subst (Explains (five_of h starter)) e (hand-Explains h starter crib)))
four-Answers h starter crib (ok r) e real ranked =
    let (points, arithmetic) = score_total h starter crib r ranked e in
    inr (
      score_response h starter crib r,
      refl,
      record {
        cards = h;
        four = refl;
        real = real;
        distinct = subst (Explains (five_of h starter)) e (hand-Explains h starter crib);
        arithmetic = arithmetic;
        itemised = combo_points (Hand.combos r) ∙ sym points;
      },
    )

checked-Answers :
    (h : Four) (starter : Card) (crib : Bool)
    → All HasRank (four_list h)
    → Answers
        (record { hand = four_list h; starter = starter; crib = crib })
        (score_four h starter crib)
unfolding score_four
checked-Answers h starter crib (r0, (r1, (r2, (r3, _)))) =
    elim (Bool-cases (rank_valid starter.rank)) [
      | inr bad ↦ rw bad (inl (refl, no_starter (rw bad refl)))
      | inl good ↦ elim (Bool-cases (suit_valid starter.suit)) [
        | inr bad ↦ rw good (rw bad (inl (refl, no_starter (rw good bad))))
        | inl fine ↦ rw good (
            rw fine (
              four-Answers h starter crib (Hand.score h starter crib) refl (rw good fine)
                (r0, (r1, (r2, (r3, (good, tt)))))))
      ]
    ]

list-Answers :
    (cards : List Card) (starter : Card) (crib : Bool)
    → All HasRank cards
    → Answers
        (record { hand = cards; starter = starter; crib = crib })
        (score_list cards starter crib)
unfolding score_list
list-Answers [] starter crib ranked = inl (refl, not_four refl)
list-Answers (a ∷ []) starter crib ranked = inl (refl, not_four refl)
list-Answers (a ∷ b ∷ []) starter crib ranked = inl (refl, not_four refl)
list-Answers (a ∷ b ∷ c ∷ []) starter crib ranked = inl (refl, not_four refl)
list-Answers (a ∷ b ∷ c ∷ d ∷ []) starter crib ranked =
    checked-Answers (record { c0 = a; c1 = b; c2 = c; c3 = d }) starter crib ranked
list-Answers (a ∷ b ∷ c ∷ d ∷ e ∷ rest) starter crib ranked = inl (refl, not_four (ground arith))

-- Every request to score a hand of cards with ranks is either refused, for not having four cards, for a starter that is
-- no card of the deck or for a card that it has twice, or answered with the points: the total is the
-- arithmetic one of these five different cards, and the itemised points add up to it.
pub handle_score_hand-Answers :
    (req : ScoreHandRequest) → All HasRank req.hand → Answers req (handle_score_hand (some req))
unfolding handle_score_hand
handle_score_hand-Answers req ranked = list-Answers req.hand req.starter req.crib ranked

-- ===== src/Bot/Ranking.antt =====
-- The rankings of internal/bot/eval (discard.go, and the loop of oppmodel.go), and the values of the
-- ml bot (mlbot.go). The table of crib values, the price of a reply and the networks are parameters.
use cribbager.Common.{
  ℕ, ◌+◌, ◌-◌, Bool, not, ◌&&◌, ◌||◌, List, [], ◌∷◌, ◌++◌, map, Fallible, ok, err, if◌then◌else◌,
  ltb, ◌==◌,
}
use cribbager.Common.Floats.{Floats}
use cribbager.Common.Sort.{sort}
use cribbager.Cribbage.Defs.{Card, Rank, card_eq, pip_value}
use cribbager.Pegging.Defs.{PegResult, PegError, contains}
use cribbager.Pegging.Defs as Pegging
use cribbager.Hand.Defs.{Four}
use cribbager.Game.View.{PlayerView}
use cribbager.Bot.Splits.{discard_pairs, expected_hand_value}

-- `r, _ := pegging.Score(pile, card)`
abbrev pub total_or_zero : Fallible PegError PegResult → ℕ
total_or_zero (ok r) = r.total
total_or_zero (err e) = 0

-- `PlayValue`
unfoldable pub play_value : List Card → Card → ℕ
play_value pile card = total_or_zero (Pegging.score pile card)

module _ (F : Floats) where
  pub record RankedDiscard : Type 0 where
    pub discard : Card × Card
    pub keep : Four
    pub e_hand : F.Float
    pub crib : F.Float
    pub score : F.Float
    pub win : F.Float

  -- `sort.SliceStable` by falling scores.
  abbrev pub better_discard : RankedDiscard → RankedDiscard → Bool
  better_discard a b = F.gt a.score b.score

  -- `CribEV`, with its table by the lower rank, the higher one and whether the two are suited.
  unfoldable pub crib_ev : (Rank → Rank → Bool → F.Float) → Card → Card → F.Float
  crib_ev table a b =
      let suited = a.suit == b.suit && not (a.rank == b.rank) in
      if ltb b.rank a.rank then table b.rank a.rank suited else table a.rank b.rank suited

  unfoldable pub split_value :
      (Rank → Rank → Bool → F.Float) → List Card → Bool → (Card × Card) × Four → RankedDiscard
  unfolding crib_ev expected_hand_value
  split_value table h my_crib (discard, keep) =
      let e_hand = expected_hand_value F keep h in
      let ev = crib_ev table discard.0 discard.1 in
      let crib = if my_crib then ev else F.negated ev in
      record {
        discard = discard;
        keep = keep;
        e_hand = e_hand;
        crib = crib;
        score = F.plus e_hand crib;
        win = F.of_int 0;
      }

  -- `RankDiscards`
  unfoldable pub rank_discards :
      (Rank → Rank → Bool → F.Float) → List Card → Bool → List RankedDiscard
  unfolding split_value discard_pairs
  rank_discards table h my_crib =
      sort better_discard (map (split_value table h my_crib) (discard_pairs h))

  pub record RankedPlay : Type 0 where
    pub card : Card
    pub mine : ℕ
    pub reply : F.Float
    pub score : F.Float
    pub win : F.Float

  abbrev pub better_play : RankedPlay → RankedPlay → Bool
  better_play a b = F.gt a.score b.score

  -- `pegTieBreak`
  unfoldable pub peg_tie_break : Card → F.Float
  peg_tie_break c = F.thousandths (13 - pip_value c.rank)

  unfoldable pub ranked_play : PlayerView → (List Card → ℕ → F.Float) → Card → RankedPlay
  unfolding play_value peg_tie_break
  ranked_play v reply c =
      let mine = play_value v.pile c in
      let count = v.count + pip_value c.rank in
      let rep = if count == 31 then F.of_int 0 else reply (v.pile ++ c ∷ []) count in
      record {
        card = c;
        mine = mine;
        reply = rep;
        score = F.plus (F.minus (F.of_int mine) rep) (peg_tie_break c);
        win = F.of_int 0;
      }

  -- `rankPlaysWith`
  unfoldable pub rank_plays_with : PlayerView → (List Card → ℕ → F.Float) → List RankedPlay
  unfolding ranked_play
  rank_plays_with v reply = sort better_play (map (ranked_play v reply) v.legal)

  -- `MLDiscardValue`, and `discardValues` with the network's output.
  pub record MlDiscardValue : Type 0 where
    pub discard : Card × Card
    pub keep : Four
    pub value : F.Float

  unfoldable pub discard_values :
      (Rank → Rank → Bool → F.Float)
      → (Four → Card × Card → Bool → F.Float)
      → List Card
      → Bool
      → List MlDiscardValue
  unfolding rank_discards
  discard_values table net h dealer =
      map
        (λ (rd : RankedDiscard). record {
          discard = rd.discard;
          keep = rd.keep;
          value = F.plus rd.score (net rd.keep rd.discard dealer);
        })
        (rank_discards table h dealer)

  -- `MLPlayValue`, and `playValues` with the network's output for each rank.
  pub record MlPlayValue : Type 0 where
    pub card : Card
    pub value : F.Float

  unfoldable pub play_values : (PlayerView → Rank → F.Float) → PlayerView → List MlPlayValue
  play_values net v = map (λ (c : Card). record { card = c; value = net v c.rank }) v.legal

-- `samePair` of internal/server/analysis.go
abbrev pub same_pair : Card × Card → Card × Card → Bool
same_pair a b = (card_eq a.0 b.0 && card_eq a.1 b.1) || (card_eq a.0 b.1 && card_eq a.1 b.0)

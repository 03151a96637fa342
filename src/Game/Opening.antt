-- ===== src/Game/Opening.antt =====
-- `New` and `cutForDeal` of internal/game/game.go: the first game, and the end of the cut.
use cribbager.Common.{
  ℕ, zero, suc, ◌+◌, ◌-◌, ◌≤◌, ◌<◌, ◌≡◌, refl, subst, ap, ◌∙◌, ◌≢◌, ◌⊎◌, inl, inr, true, false,
  List, [], ◌∷◌, Option, none, some, leb, ltb, ◌==◌, if◌then◌else◌, length, arith, Bool-cases,
}
use cribbager.Common.Int.{ℤ, pos, negsuc}
use cribbager.Cribbage.Defs.{Card}
use cribbager.Game.Defs.{Seat, seat0, seat1, cut_for_deal, handicap}
use cribbager.Game.State.{reduce}
use cribbager.Game.Engine.{
  DeckSource, Game, Outcome, done, panicked, emit, deal_hand, deal_deck, deal_cards, take_deal,
}
use cribbager.Game.Start.{
  Options, Start, Cut, cut, cut_panics, all_tied, cut_deal, cut_round, begin, new, blank, start_at,
  start_score, target_of, deal_after_cut,
}
use cribbager.Game.Laid.{Good, Good-done}
use cribbager.Game.Show.{deal_hand-Inv}
use cribbager.Game.Invariant.{Below, IsFair, Inv}

-- Shuffle `k` is no tie.
abbrev pub Differs : DeckSource → ℕ → Type 0
Differs src k =
    (a : Card) × (b : Card) × (d : List Card) × (src k ≡ some (a ∷ b ∷ d)) × (a.rank ≢ b.rank)

pub target_of-pos : (t : ℤ) → 0 < target_of t
unfolding target_of
target_of-pos (pos zero) = omega arith
target_of-pos (pos (suc n)) = omega arith
target_of-pos (negsuc n) = omega arith

-- The lower rank deals.
abbrev Cuts : Cut → Type 0
Cuts (cut cuts seat0 next) = cuts.at0.rank < cuts.at1.rank
Cuts (cut cuts seat1 next) = cuts.at1.rank < cuts.at0.rank
Cuts cut_panics = ⊥
Cuts all_tied = ⊥

two_cards :
    (d : List Card) → 2 ≤ length d → (a : Card) × (b : Card) × (r : List Card) × (d ≡ a ∷ b ∷ r)
two_cards [] h = absurd (omega arith)
two_cards (a ∷ []) h = absurd (omega arith)
two_cards (a ∷ b ∷ r) h = (a, b, r, refl)

-- Past a tie the cut that is none still lies ahead.
past_tie :
    (src : DeckSource) (i k : ℕ) (a b : Card) (r : List Card)
    → Differs src (i + k)
    → src i ≡ some (a ∷ b ∷ r)
    → (a.rank == b.rank) ≡ true
    → (0 < k) × Differs src (suc i + (k - 1))
past_tie src i zero a b r (x, y, d, found, ne) e tie =
    let here : i + 0 ≡ i = omega arith in
    let found' : src i ≡ some (x ∷ y ∷ d) = subst (λ n. src n ≡ some (x ∷ y ∷ d)) here found in
    absurd (ne (ground arith))
past_tie src i (suc k) a b r differs e tie =
    let next : i + suc k ≡ suc i + (suc k - 1) = omega arith in
    (omega arith, subst (Differs src) next differs)

-- On real decks the loop ends at the first cut that is no tie.
cut_deal-Cuts :
    (fuel : ℕ) (src : DeckSource) (i k : ℕ)
    → IsFair src
    → Differs src (i + k)
    → k < fuel
    → Cuts (cut_deal fuel src i)
unfolding cut_deal cut_round
cut_deal-Cuts zero src i k fair differs h = absurd (omega arith)
cut_deal-Cuts (suc fuel) src i k fair differs h =
    let (d, e, size, distinct) = fair i in
    let (a, b, r, ed) = two_cards d (omega arith) in
    rw (e, ed)
      (elim (Bool-cases (a.rank == b.rank)) [
        | inl tie ↦ rw tie (
            let (later, differs') = past_tie src i k a b r differs (e ∙ ap some ed) tie in
            cut_deal-Cuts fuel src (suc i) (k - 1) fair differs' (omega arith))
        | inr differ ↦ rw differ (lower a b differ)
      ])
  where
    lower :
        (a b : Card)
        → (a.rank == b.rank) ≡ false
        → Cuts
            (cut (record { at0 = a; at1 = b }) (if ltb b.rank a.rank then seat1 else seat0) (suc i))
    lower a b differ = elim (Bool-cases (ltb b.rank a.rank)) [
      | inl higher ↦ rw higher (ground arith)
      | inr not_higher ↦ rw not_higher (ground arith)
    ]

cut-Inv :
    (g : Game) (c : Cut)
    → IsFair g.src
    → 0 < g.target
    → Below g
    → g.winner ≡ none
    → Cuts c
    → (o : Outcome Game) × (deal_after_cut g c ≡ some o) × Good Inv o
unfolding deal_after_cut
cut-Inv g (cut cuts dealer next) fair goal b w h = (
  deal_hand (emit (record g { shuffles = next }) (cut_for_deal cuts dealer)) dealer,
  refl,
  deal_hand-Inv (emit (record g { shuffles = next }) (cut_for_deal cuts dealer)) dealer
      (unfold emit in fair) (unfold emit in goal)
      (unfold emit reduce in (record { below0 = b.below0; below1 = b.below1 }))
      (unfold emit reduce in w),
)
cut-Inv g cut_panics fair goal b w h = absurd h
cut-Inv g all_tied fair goal b w h = absurd h

-- `New` without a preset position, on decks of 52 different cards: where the shuffle `k` gives two
-- different ranks on top, fuel above `k` is enough, and the result is a game with the invariant, not
-- a panic.
pub new-Inv :
    (fuel k : ℕ) (opts : Options)
    → IsFair opts.deck
    → opts.start ≡ none
    → Differs opts.deck k
    → k < fuel
    → (o : Outcome Game) × (new fuel opts ≡ some o) × Good Inv o
unfolding new blank begin
new-Inv fuel k opts fair fresh differs enough = rw fresh (
    cut-Inv (blank (target_of opts.target_score) opts.deck) (cut_deal fuel opts.deck 0) fair
      (target_of-pos opts.target_score)
      (record {
        below0 = target_of-pos opts.target_score;
        below1 = target_of-pos opts.target_score;
      })
      refl
      (cut_deal-Cuts fuel opts.deck 0 k fair (subst (Differs opts.deck) (omega arith) differs)
        enough))

-- A deal keeps the scores and names its dealer.
take_deal-scores :
    (g : Game) (dealer : Seat) (cards : Option (List Card × List Card × List Card)) (g' : Game)
    → take_deal g dealer cards ≡ done g'
    → (g'.scores ≡ g.scores) × (g'.dealer ≡ dealer)
unfolding take_deal emit reduce
take_deal-scores g dealer none g' h = cc
take_deal-scores g dealer (some (p, q, rest)) g' h = ground arith

deal_hand-scores :
    (g : Game) (dealer : Seat) (d : Option (List Card)) (g' : Game)
    → deal_deck g dealer d ≡ done g'
    → (g'.scores ≡ g.scores) × (g'.dealer ≡ dealer)
unfolding deal_deck
deal_hand-scores g dealer none g' h = cc
deal_hand-scores g dealer (some d) g' h = take_deal-scores g dealer (deal_cards 6 d) g' h

begin-Start :
    (fuel n m : ℕ) (dealer : Seat) (g : Game)
    → n < g.target
    → m < g.target
    → begin fuel g (some (record { scores = record { at0 = pos n; at1 = pos m }; dealer = dealer }))
      ≡ some (deal_hand (emit g (handicap (record { at0 = n; at1 = m }))) dealer)
unfolding begin start_at start_score
begin-Start fuel n m dealer g hn hm =
    let low_n : leb g.target n ≡ false = ground arith in
    let low_m : leb g.target m ≡ false = ground arith in rw (low_n, low_m)

-- `New` at a preset position with both scores below the target, on decks of 52 different cards: it
-- returns a game with the invariant, these scores and this dealer.
pub new-Start :
    (fuel n m : ℕ) (dealer : Seat) (opts : Options)
    → IsFair opts.deck
    → opts.start ≡ some (record { scores = record { at0 = pos n; at1 = pos m }; dealer = dealer })
    → n < target_of opts.target_score
    → m < target_of opts.target_score
    → (g : Game) × (new fuel opts ≡ some (done g))
      × Inv g
      × (g.scores ≡ record { at0 = n; at1 = m })
      × (g.dealer ≡ dealer)
unfolding new blank
new-Start fuel n m dealer opts fair preset hn hm =
    let g0 : Game =
      emit (blank (target_of opts.target_score) opts.deck)
        (handicap (record { at0 = n; at1 = m })) in
    let (g, e, v) = Good-done Inv (deal_hand g0 dealer) (
      deal_hand-Inv g0 dealer (unfold emit in fair) (unfold emit in target_of-pos opts.target_score)
        (unfold emit reduce in (record { below0 = hn; below1 = hm }))
        (unfold emit reduce in refl)) in
    let (kept, led) = deal_hand-scores g0 dealer (g0.src g0.shuffles) g (unfold deal_hand in e) in
    (
      g,
      ap (begin fuel (blank (target_of opts.target_score) opts.deck)) preset
          ∙ begin-Start fuel n m dealer (blank (target_of opts.target_score) opts.deck) hn hm
          ∙ ap some e,
      v,
      kept ∙ unfold emit reduce in refl,
      led,
    )

-- A preset score that is negative or not below the target panics.
pub new-Start_invalid :
    (fuel : ℕ) (opts : Options) (s : Start)
    → opts.start ≡ some s
    → (start_score (target_of opts.target_score) s.scores.at0 ≡ none)
      ⊎ (start_score (target_of opts.target_score) s.scores.at1 ≡ none)
    → new fuel opts ≡ some panicked
unfolding new blank begin start_at
new-Start_invalid fuel opts s preset bad = ground arith

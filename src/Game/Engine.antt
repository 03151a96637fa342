-- ===== src/Game/Engine.antt =====
-- internal/game/game.go: a game, its commands, and what the engine does between two decisions. A
-- method that changes the game returns the new one; a panic is a result of its own.
use cribbager.Common.{
  ℕ, zero, suc, ◌+◌, Bool, true, false, ◌&&◌, not, List, [], ◌∷◌, ◌++◌, Option, none, some, leb,
  ◌==◌, if◌then◌else◌, length, drop, Fallible, ok, err,
}
use cribbager.Cribbage.Defs.{Card, jack, card_eq}
use cribbager.Pegging.Defs.{PegResult, contains}
use cribbager.Pegging.Defs
use cribbager.Hand.Defs.{HandResult, Four}
use cribbager.Hand.Defs as HandDefs
use cribbager.Game.Defs.{
  Seat, other, seat_eq, pick, put, both, phase_eq, phase_discard, phase_play, Command, discard,
  play, unknown, GameError, game_over, wrong_phase, not_your_turn, already_discarded,
  duplicate_discard, unknown_command, not_in_hand, count_exceeds_31, pegging_error, Event,
  hand_dealt, discarded, starter_cut, card_played, pass, go_awarded, series_reset, hand_shown,
  crib_shown, game_won, show_not_counted,
}
use cribbager.Game.State.{State, reduce, playable, can_play, turn, both_hands_empty, leader_after}

-- The deck that each call of `Shuffle` returns, by the number of the call; `none` is a panic, as of
-- a scripted source that has run out.
abbrev pub DeckSource : Type 0
DeckSource = ℕ → Option (List Card)

pub record Game : Type 0 where
  pub target : ℕ
  pub src : DeckSource
  pub shuffles : ℕ
  pub log : List Event
  pub state : State
  pub open state use *
  pub rest : List Card
  pub version : ℕ

-- A result, an error with the game as the failing call leaves it, or a panic.
pub data Outcome {ℓ} (A : Type ℓ) : Type ℓ where
  done : A → Outcome A
  failed : GameError → Game → Outcome A
  panicked : Outcome A

infixl 5 ◌>>=◌
abbrev pub ◌>>=◌ {ℓ κ} : {A : Type ℓ} {B : Type κ} → Outcome A → (A → Outcome B) → Outcome B
done a >>= f = f a
failed e g >>= f = failed e g
panicked >>= f = panicked

unfoldable pub emit : Game → Event → Game
emit g e = record g {
  state = reduce g.target g.state e;
  log = g.log ++ e ∷ [];
  version = g.version + 1;
}

abbrev pub is_none {ℓ} : {A : Type ℓ} → Option A → Bool
is_none none = true
is_none (some a) = false

unfoldable pub check_win : Game → Seat → Game × Bool
check_win g seat =
    if is_none g.winner && leb g.target (pick g.scores seat)
    then (emit g (game_won seat), true)
    else (g, false)

-- The loop of `dealHand`: `n` rounds, each a card to the non-dealer and one to the dealer.
unfoldable pub deal_cards : ℕ → List Card → Option (List Card × List Card × List Card)
deal_cards zero d = some ([], [], d)
deal_cards (suc n) [] = none
deal_cards (suc n) (a ∷ []) = none
deal_cards (suc n) (a ∷ b ∷ d) = elim (deal_cards n d) [
  | none ↦ none
  | some (p, q, rest) ↦ some (a ∷ p, b ∷ q, rest)
]

-- `d[12:]` and the two hands, as the deal leaves them.
unfoldable pub take_deal : Game → Seat → Option (List Card × List Card × List Card) → Outcome Game
take_deal g dealer none = panicked
take_deal g dealer (some (p, q, rest)) = done (
    emit (record g { rest = rest; shuffles = suc g.shuffles })
      (hand_dealt dealer (put (put (both []) (other dealer) p) dealer q)))

-- `dealHand` with the deck that `Shuffle` returned.
unfoldable pub deal_deck : Game → Seat → Option (List Card) → Outcome Game
deal_deck g dealer none = panicked
deal_deck g dealer (some d) = take_deal g dealer (deal_cards 6 d)

unfoldable pub deal_hand : Game → Seat → Outcome Game
deal_hand g dealer = deal_deck g dealer (g.src g.shuffles)

scored : Fallible HandDefs.HandError HandResult → Outcome HandResult
scored (ok r) = done r
scored (err e) = panicked

unfoldable pub must_hand_score : List Card → Card → Bool → Outcome HandResult
unfolding scored
must_hand_score [] starter is_crib = panicked
must_hand_score (a ∷ []) starter is_crib = panicked
must_hand_score (a ∷ b ∷ []) starter is_crib = panicked
must_hand_score (a ∷ b ∷ c ∷ []) starter is_crib = panicked
must_hand_score (a ∷ b ∷ c ∷ d ∷ []) starter is_crib =
    scored (HandDefs.score (record { c0 = a; c1 = b; c2 = c; c3 = d }) starter is_crib)
must_hand_score (a ∷ b ∷ c ∷ d ∷ e ∷ more) starter is_crib = panicked

unfoldable pub emit_show : Game → Seat → List Card → Outcome (Game × Bool)
emit_show g seat cards = do
  res ← must_hand_score cards g.starter false
  done (check_win (emit g (hand_shown seat cards res)) seat)

-- The dealer's hand at the show: revealed without a score once the game has ended.
unfoldable pub show_dealer : Game × Bool → Outcome (Game × Bool)
show_dealer (g, true) =
    done (emit g (show_not_counted g.dealer (pick g.played g.dealer) false), true)
show_dealer (g, false) = emit_show g g.dealer (pick g.played g.dealer)

unfoldable pub next_hand : Game × Bool → Outcome Game
next_hand (g, true) = done g
next_hand (g, false) = deal_hand g (other g.dealer)

unfoldable pub show_crib : Game × Bool → Outcome Game
show_crib (g, true) = done (emit g (show_not_counted g.dealer g.crib true))
show_crib (g, false) = do
  res ← must_hand_score g.crib g.starter true
  next_hand (check_win (emit g (crib_shown g.crib res)) g.dealer)

unfoldable pub resolve_show : Game → Outcome Game
resolve_show g = do
  pone_shown ← emit_show g (other g.dealer) (pick g.played (other g.dealer))
  dealer_shown ← show_dealer pone_shown
  show_crib dealer_shown

-- The point for the last card, and the show.
unfoldable pub show_unless_won : Game × Bool → Outcome Game
show_unless_won (g, true) = done g
show_unless_won (g, false) = resolve_show g

unfoldable pub reset_unless_won : Game × Bool → Seat → Game
reset_unless_won (g, true) lp = g
reset_unless_won (g, false) lp = emit g (series_reset (leader_after g.state lp))

-- What follows once the opponent of the last player `lp` is known to pass.
unfoldable pub after_pass : Game → Seat → Game
after_pass g lp =
    if can_play g.state lp then g else reset_unless_won (check_win (emit g (go_awarded lp 1)) lp) lp

unfoldable pub after_play : Game → Outcome Game
after_play g =
    let lp : Seat = g.last_player in
    let opp : Seat = other lp in
    if both_hands_empty g.state
    then show_unless_won
        (if g.count == 31 then (g, false) else check_win (emit g (go_awarded lp 1)) lp)
    else if g.count == 31
    then done (emit g (series_reset (leader_after g.state lp)))
    else if not (pick g.gone opp) && can_play g.state opp
    then done g
    else done (after_pass (if pick g.gone opp then g else emit g (pass opp)) lp)

-- The cut card, off the undealt rest.
unfoldable pub cut_starter : Game → List Card → Outcome Game
cut_starter g [] = panicked
cut_starter g (starter ∷ rest) =
    let heels : ℕ = if starter.rank == jack then 2 else 0 in
    let cut : Game = emit (record g { rest = rest }) (starter_cut starter heels) in
    done (check_win cut cut.dealer).0

unfoldable pub apply_discard : Game → Seat → Card → Card → Outcome Game
apply_discard g seat c d =
    if not (phase_eq g.phase phase_discard)
    then failed wrong_phase g
    else if pick g.has_discarded seat
    then failed already_discarded g
    else if card_eq c d
    then failed duplicate_discard g
    else if not (contains (pick g.hands seat) c)
    then failed (not_in_hand c) g
    else if not (contains (pick g.hands seat) d)
    then failed (not_in_hand d) g
    else let thrown : Game = emit g (discarded seat c d) in
      if thrown.has_discarded.at0 && thrown.has_discarded.at1
      then cut_starter thrown thrown.rest
      else done thrown

unfoldable pub after_card : Game × Bool → Outcome Game
after_card (g, true) = done g
after_card (g, false) = after_play g

unfoldable pub play_scored : Game → Seat → Card → Fallible Defs.PegError PegResult → Outcome Game
play_scored g seat card (err e) = failed (pegging_error e) g
play_scored g seat card (ok res) = after_card (check_win (emit g (card_played seat card res)) seat)

unfoldable pub apply_play : Game → Seat → Card → Outcome Game
apply_play g seat card =
    if not (phase_eq g.phase phase_play)
    then failed wrong_phase g
    else if not (seat_eq seat (turn g.state))
    then failed not_your_turn g
    else if not (contains (pick g.hands seat) card)
    then failed (not_in_hand card) g
    else if not (playable g.state card)
    then failed (count_exceeds_31 card) g
    else play_scored g seat card (Defs.score g.pile card)

unfoldable pub dispatch : Game → Seat → Command → Outcome Game
dispatch g seat (discard c d) = apply_discard g seat c d
dispatch g seat (play c) = apply_play g seat c
dispatch g seat unknown = failed unknown_command g

-- The new game with the events that its log gained.
abbrev pub reply : Game → Game → Outcome (Game × List Event)
reply g g' = done (g', drop (length g.log) g'.log)

unfoldable pub apply : Game → Seat → Command → Outcome (Game × List Event)
apply g seat cmd = if is_none g.winner then dispatch g seat cmd >>= reply g else failed game_over g

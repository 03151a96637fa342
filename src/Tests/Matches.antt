-- ===== src/Tests/Matches.antt =====
-- Witnesses on games: a match to 121 from a given position, played from the unshuffled deck.
use cribbager.Common.{
  ℕ, ◌≡◌, refl, Bool, true, false, List, [], ◌∷◌, ◌++◌, Option, none, some, arith, ap,
}
use cribbager.Common.Int.{pos}
use cribbager.Cribbage.Defs.{Card, deck, ranks_from, suits_from}
use cribbager.Cribbage.Decks.{occ-deck, length-deck}
use cribbager.Cribbage.Occurrences.{occ, Distinct, occ-append}
use cribbager.Pegging.Defs.{contains}
use cribbager.Game.Defs.{seat0, seat1, discard, play, phase_play, Event, phase_eq}
use cribbager.Game.State.{reduce, turn, legal_plays, without, playables, any_playable}
use cribbager.Game.Engine.{
  DeckSource, Game, Outcome, done, failed, panicked, emit, is_none, apply, dispatch, apply_discard,
  cut_starter, check_win, deal_hand, deal_deck, take_deal, deal_cards,
}
use cribbager.Game.Start.{Options, Start, new, begin, blank, start_at, start_score, target_of}
use cribbager.Game.Snapshot.{snapshot, restore}
use cribbager.Game.View.{view}
use cribbager.Game.Hidden.{SameFor, view-SameFor}
use cribbager.Game.Invariant.{IsFair, Inv}
use cribbager.Game.Laid.{Good}
use cribbager.Game.Series.{Running}
use cribbager.Game.Sourcing.{Appends, apply-Appends}
use cribbager.Game.Apply.{Replies, Accepts, Inv-Running, apply-Replies, legal_play-Accepts}
use cribbager.Game.History.{
  Played, begun, moved, Played-Inv, restore-snapshot, Scoreboard, Played-Scoreboard,
}
use cribbager.Game.Opening.{new-Inv}

abbrev pub card : ℕ → ℕ → Card
card r s = record { rank = r; suit = s }

-- A source that never shuffles.
abbrev pub plain : DeckSource
plain i = some deck

deck-Distinct : Distinct deck
deck-Distinct c = ground (arith, occ-deck c)

pub plain-IsFair : IsFair plain
plain-IsFair i = (deck, refl, length-deck, deck-Distinct)

abbrev position : Start
position = record { scores = record { at0 = pos 3; at1 = pos 7 }; dealer = seat1 }

abbrev pub options : Options
options = record { deck = plain; target_score = pos 0; start = some position }

-- The position of the witnesses: the deal, each seat's discards to the crib, and the first card.
unfoldable pub game_of : Game → Outcome (Game × List Event) → Game
game_of g (done (h, events)) = h
game_of g (failed e h) = h
game_of g panicked = g

unfoldable pub events_of : Outcome (Game × List Event) → List Event
events_of (done (h, events)) = events
events_of (failed e h) = []
events_of panicked = []

unfoldable pub is_done : Outcome (Game × List Event) → Bool
is_done (done p) = true
is_done (failed e h) = false
is_done panicked = false

unfoldable pub new_of : Option (Outcome Game) → Game
new_of (some (done g)) = g
new_of _ = blank 0 plain

unfoldable pub dealt : Game
unfolding new_of
dealt = new_of (new 0 options)

pub dealt_lem : new 0 options ≡ some (done dealt)
unfolding dealt new_of new begin blank start_at start_score target_of deal_hand deal_deck take_deal
    deal_cards deck ranks_from suits_from emit
dealt_lem = refl

pub accepted :
    (g : Game) (m : Outcome (Game × List Event))
    → is_done m ≡ true
    → m ≡ done (game_of g m, events_of m)
unfolding is_done game_of events_of
accepted g (done (h, events)) e = refl
accepted g (failed x h) e = cc
accepted g panicked e = cc

unfoldable pub thrown0 : Game
unfolding game_of
thrown0 = game_of dealt (apply dealt seat0 (discard (card 1 0) (card 1 2)))

unfoldable pub thrown1 : Game
unfolding game_of
thrown1 = game_of thrown0 (apply thrown0 seat1 (discard (card 1 1) (card 1 3)))

pub thrown0_lem : is_done (apply dealt seat0 (discard (card 1 0) (card 1 2))) ≡ true
unfolding is_done dealt new_of new begin blank start_at start_score target_of deal_hand deal_deck
    take_deal deal_cards deck ranks_from suits_from emit apply reduce dispatch apply_discard
    contains
thrown0_lem = refl

pub thrown1_lem : is_done (apply thrown0 seat1 (discard (card 1 1) (card 1 3))) ≡ true
unfolding is_done dealt new_of new begin blank start_at start_score target_of deal_hand deal_deck
    take_deal deal_cards deck ranks_from suits_from emit apply reduce dispatch apply_discard
    contains thrown0 cut_starter
thrown1_lem = refl

pub thrown0_open : is_none thrown0.winner ≡ true
unfolding is_done dealt new_of new begin blank start_at start_score target_of deal_hand deal_deck
    take_deal deal_cards deck ranks_from suits_from emit apply reduce dispatch apply_discard
    contains thrown0 game_of
thrown0_open = refl

pub thrown1_in_play : thrown1.phase ≡ phase_play
unfolding is_done dealt new_of new begin blank start_at start_score target_of deal_hand deal_deck
    take_deal deal_cards deck ranks_from suits_from emit apply reduce dispatch apply_discard
    contains thrown0 thrown1 cut_starter check_win game_of
thrown1_in_play = refl

pub legal_three : contains (legal_plays thrown1.state (turn thrown1.state)) (card 3 2) ≡ true
unfolding is_done dealt new_of new begin blank start_at start_score target_of deal_hand deal_deck
    take_deal deal_cards deck ranks_from suits_from emit apply reduce dispatch apply_discard
    contains thrown0 thrown1 cut_starter check_win game_of turn playables any_playable without
legal_three = refl

pub dealt-Played : Played plain dealt
dealt-Played = begun 0 options refl dealt_lem

pub thrown0-Played : Played plain thrown0
unfolding thrown0
thrown0-Played =
    moved seat0 (discard (card 1 0) (card 1 2))
      (events_of (apply dealt seat0 (discard (card 1 0) (card 1 2)))) dealt-Played
      (accepted dealt (apply dealt seat0 (discard (card 1 0) (card 1 2))) thrown0_lem)

pub thrown1-Played : Played plain thrown1
unfolding thrown1
thrown1-Played =
    moved seat1 (discard (card 1 1) (card 1 3))
      (events_of (apply thrown0 seat1 (discard (card 1 1) (card 1 3)))) thrown0-Played
      (accepted thrown0 (apply thrown0 seat1 (discard (card 1 1) (card 1 3))) thrown1_lem)

pub thrown1-Inv : Inv thrown1
thrown1-Inv = Played-Inv plain-IsFair thrown1-Played

-- The first card of the play.
apply-Replies_example : Replies thrown1 (apply thrown1 seat0 (play (card 3 2)))
apply-Replies_example = apply-Replies thrown1 seat0 (play (card 3 2)) thrown1-Inv

Played-Inv_example : Inv thrown1
Played-Inv_example = Played-Inv plain-IsFair thrown1-Played

Played-Scoreboard_example : Scoreboard thrown1
Played-Scoreboard_example = Played-Scoreboard plain-IsFair thrown1-Played

restore-snapshot_example :
    restore (snapshot thrown1) (λ i. none) ≡ record thrown1 { src = λ i. none; shuffles = 0 }
restore-snapshot_example = restore-snapshot (λ i. none) thrown1-Played

legal_play-Accepts_example : Accepts (apply thrown1 (turn thrown1.state) (play (card 3 2)))
legal_play-Accepts_example =
    legal_play-Accepts thrown1 (card 3 2) thrown1-Inv thrown1_in_play legal_three

apply-Appends_example :
    Appends thrown0 thrown1 (events_of (apply thrown0 seat1 (discard (card 1 1) (card 1 3))))
unfolding thrown1
apply-Appends_example =
    apply-Appends thrown0 seat1 (discard (card 1 1) (card 1 3)) thrown1
      (events_of (apply thrown0 seat1 (discard (card 1 1) (card 1 3))))
      (accepted thrown0 (apply thrown0 seat1 (discard (card 1 1) (card 1 3))) thrown1_lem)

thrown1-Running : Running thrown1
thrown1-Running =
    (Inv-Running thrown1 thrown1-Inv (ap (λ p. phase_eq p phase_play) thrown1_in_play)).0

-- Seat 1 sees the same game whatever lies in the crib and in the undealt rest.
abbrev other_crib : Game
other_crib = record thrown1 {
  rest = [];
  state = record thrown1.state { crib = card 9 0 ∷ card 9 1 ∷ card 9 2 ∷ card 9 3 ∷ [] };
}

other_crib-SameFor : SameFor seat1 thrown1 other_crib
unfolding is_done dealt new_of new begin blank start_at start_score target_of deal_hand deal_deck
    take_deal deal_cards deck ranks_from suits_from emit apply reduce dispatch apply_discard
    contains thrown0 thrown1 cut_starter check_win game_of turn
other_crib-SameFor = record {
  same_dealer = refl;
  same_phase = refl;
  same_scores = refl;
  same_hand = refl;
  same_discarded = refl;
  same_thrown = refl;
  same_other_size = refl;
  same_crib_size = refl;
  same_cut = refl;
  same_starter = refl;
  same_pile = refl;
  same_played = refl;
  same_other_played = refl;
  same_count = refl;
  same_winner = refl;
  same_version = refl;
  same_turn = refl;
}

view-SameFor_example : view thrown1 seat1 ≡ view other_crib seat1
view-SameFor_example = view-SameFor seat1 thrown1 other_crib other_crib-SameFor

-- A start score on the target.
abbrev finished : Start
finished = record { scores = record { at0 = pos 121; at1 = pos 7 }; dealer = seat1 }

abbrev bad_options : Options
bad_options = record { deck = plain; target_score = pos 0; start = some finished }

-- The deck with the first three aces at the bottom: the cut decides at once.
abbrev pub aces : List Card
aces = card 1 0 ∷ card 1 1 ∷ card 1 2 ∷ []

abbrev turned_deck : List Card
turned_deck = card 1 3 ∷ ranks_from 12 2 ++ aces

abbrev pub turned : DeckSource
turned i = some turned_deck

turned_deck-occ : (c : Card) → occ c turned_deck ≡ occ c deck
unfolding deck ranks_from suits_from
turned_deck-occ c = omega (
  arith,
  occ-append c (card 1 3 ∷ ranks_from 12 2) aces,
  occ-append c aces (card 1 3 ∷ ranks_from 12 2),
)

pub turned-IsFair : IsFair turned
unfolding deck ranks_from suits_from
turned-IsFair i = (turned_deck, refl, refl, λ c. omega (arith, turned_deck-occ c, deck-Distinct c))

abbrev cut_options : Options
cut_options = record { deck = turned; target_score = pos 0; start = none }

new-Inv_example : (o : Outcome Game) × (new 1 cut_options ≡ some o) × Good Inv o
unfolding deck ranks_from suits_from
new-Inv_example =
    new-Inv 1 0 cut_options turned-IsFair refl
      (
        card 1 3,
        card 2 0,
        card 2 1 ∷ card 2 2 ∷ card 2 3 ∷ ranks_from 11 3 ++ aces,
        refl,
        λ e. omega (arith, e),
      )
      (omega arith)

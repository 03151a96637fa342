-- ===== src/Server/Wire.antt =====
-- internal/server/wire.go: the events of a game as the deltas of the wire, for one seat and for a
-- replay. The wire's words are constructors; an optional field is an option, and a nil slice [].
use cribbager.Common.{
  ℕ, ◌+◌, Bool, false, List, [], ◌∷◌, Option, none, some, map, length, if◌then◌else◌,
}
use cribbager.Cribbage.Defs.{Card}
use cribbager.Pegging.Defs.{PegResult}
use cribbager.Pegging.Defs as Peg
use cribbager.Hand.Defs.{HandResult}
use cribbager.Hand.Defs as Hand
use cribbager.Game.Defs.{
  Seat, seat0, other, seat_eq, pick, Event, cut_for_deal, handicap, hand_dealt, discarded,
  starter_cut, card_played, pass, go_awarded, series_reset, hand_shown, crib_shown, game_won,
  show_not_counted,
}

-- `Kind.String` of both scorers.
pub data ComboWord : Type 0 where
  fifteen_word thirty_one_word pair_word run_word flush_word nobs_word : ComboWord

pub record ScoreCombo : Type 0 where
  pub kind : ComboWord
  pub points : ℕ
  pub length : ℕ

-- `Delta.Type`; the empty word is that of an event without a case.
pub data DeltaWord : Type 0 where
  no_word cut_for_deal_word hand_dealt_word discarded_word starter_cut_word card_played_word
        pass_word go_word series_reset_word hand_shown_word crib_shown_word game_won_word
        show_uncounted_word players_word :
      DeltaWord

pub record PlayerInfo (Name : Type 0) : Type 0 where
  pub seat : Seat
  pub name : Name
  pub connected : Bool
  pub left : Bool

-- A delta of a game event: `Scores` and `Players`, which no event sets, are left out.
pub record Delta : Type 0 where
  pub seq : ℕ
  pub word : DeltaWord
  pub seat : Option Seat
  pub dealer : Option Seat
  pub card : Option Card
  pub cards : List Card
  pub hand : List Card
  pub cut : List Card
  pub hands : List (List Card)
  pub opponent_cards : ℕ
  pub points : ℕ
  pub count : ℕ
  pub total : ℕ
  pub is_crib : Bool
  pub combos : List ScoreCombo

-- `Delta{Seq: seq}` with its type.
abbrev pub bare : ℕ → DeltaWord → Delta
bare seq word = record {
  seq = seq;
  word = word;
  seat = none;
  dealer = none;
  card = none;
  cards = [];
  hand = [];
  cut = [];
  hands = [];
  opponent_cards = 0;
  points = 0;
  count = 0;
  total = 0;
  is_crib = false;
  combos = [];
}

abbrev pub peg_word : Peg.Kind → ComboWord
peg_word Peg.fifteen = fifteen_word
peg_word Peg.thirty_one = thirty_one_word
peg_word Peg.pair = pair_word
peg_word Peg.run = run_word

abbrev pub hand_word : Hand.Kind → ComboWord
hand_word Hand.fifteen = fifteen_word
hand_word Hand.pair = pair_word
hand_word Hand.run = run_word
hand_word Hand.flush = flush_word
hand_word Hand.nobs = nobs_word

unfoldable pub peg_combos : PegResult → List ScoreCombo
peg_combos r =
    map (λ c. record { kind = peg_word c.kind; points = c.points; length = c.run_length })
      (Peg.combos r)

unfoldable pub hand_combos : HandResult → List ScoreCombo
hand_combos r =
    map (λ c. record { kind = hand_word c.kind; points = c.points; length = c.run_length })
      (Hand.combos r)

unfoldable pub project_event : Seat → Event → ℕ → Delta
project_event viewer (cut_for_deal cuts dealer) seq = record (bare seq cut_for_deal_word) {
  cut = cuts.at0 ∷ cuts.at1 ∷ [];
  dealer = some dealer;
}
project_event viewer (handicap scores) seq = bare seq no_word
project_event viewer (hand_dealt dealer hands) seq = record (bare seq hand_dealt_word) {
  dealer = some dealer;
  hand = pick hands viewer;
  opponent_cards = length (pick hands (other viewer));
}
project_event viewer (discarded seat c d) seq = record (bare seq discarded_word) {
  seat = some seat;
  cards = if seat_eq seat viewer then c ∷ d ∷ [] else [];
}
project_event viewer (starter_cut card heels) seq = record (bare seq starter_cut_word) {
  card = some card;
  points = heels;
}
project_event viewer (card_played seat card score) seq = record (bare seq card_played_word) {
  seat = some seat;
  card = some card;
  points = score.total;
  count = score.count;
  combos = peg_combos score;
}
project_event viewer (pass seat) seq = record (bare seq pass_word) { seat = some seat }
project_event viewer (go_awarded seat points) seq = record (bare seq go_word) {
  seat = some seat;
  points = points;
}
project_event viewer (series_reset leader) seq = bare seq series_reset_word
project_event viewer (hand_shown seat cards score) seq = record (bare seq hand_shown_word) {
  seat = some seat;
  cards = cards;
  total = score.total;
  combos = hand_combos score;
}
project_event viewer (crib_shown cards score) seq = record (bare seq crib_shown_word) {
  cards = cards;
  total = score.total;
  combos = hand_combos score;
}
project_event viewer (game_won seat) seq = record (bare seq game_won_word) { seat = some seat }
project_event viewer (show_not_counted seat cards is_crib) seq =
    record (bare seq show_uncounted_word) { seat = some seat; cards = cards; is_crib = is_crib }

-- `baseSeq+1+i` for the event `i`.
unfoldable pub project_events : Seat → List Event → ℕ → List Delta
project_events viewer [] base_seq = []
project_events viewer (e ∷ es) base_seq =
    project_event viewer e (base_seq + 1) ∷ project_events viewer es (base_seq + 1)

unfoldable pub project_replay_event : Event → ℕ → Delta
project_replay_event (hand_dealt dealer hands) seq = record (bare seq hand_dealt_word) {
  dealer = some dealer;
  hands = hands.at0 ∷ hands.at1 ∷ [];
}
project_replay_event (discarded seat c d) seq = record (bare seq discarded_word) {
  seat = some seat;
  cards = c ∷ d ∷ [];
}
project_replay_event e seq = project_event seat0 e seq

unfoldable pub project_replay_events : List Event → ℕ → List Delta
project_replay_events [] base_seq = []
project_replay_events (e ∷ es) base_seq =
    project_replay_event e (base_seq + 1) ∷ project_replay_events es (base_seq + 1)

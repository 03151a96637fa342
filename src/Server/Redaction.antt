-- ===== src/Server/Redaction.antt =====
-- What internal/server/wire.go hides from a seat, and what a replay shows.
use cribbager.Common.{
  ℕ, ◌+◌, ◌≡◌, refl, false, List, [], ◌∷◌, length, Option, none, some, map, if◌then◌else◌,
}
use cribbager.Cribbage.Defs.{Card}
use cribbager.Game.Defs.{
  Seat, other, seat_eq, Both, pick, Event, hand_dealt, discarded, seat0, seat1, cut_for_deal,
  handicap, starter_cut, card_played, pass, go_awarded, series_reset, hand_shown, crib_shown,
  game_won, show_not_counted,
}
use cribbager.Server.Wire.{
  Delta, DeltaWord, hand_dealt_word, discarded_word, project_event, project_events,
  project_replay_event, project_replay_events,
}

-- Events that a seat may not tell apart: deals with the same hand for it and as many cards for the
-- other, and the other's discards.
pub data Alike (viewer : Seat) : Event → Event → Type 0 where
  equal : {e : Event} → Alike viewer e e
  deals :
      {dealer : Seat} {hands hands' : Both (List Card)}
      → pick hands viewer ≡ pick hands' viewer
      → length (pick hands (other viewer)) ≡ length (pick hands' (other viewer))
      → Alike viewer (hand_dealt dealer hands) (hand_dealt dealer hands')
  throws :
      {seat : Seat} {c d c' d' : Card}
      → seat_eq seat viewer ≡ false
      → Alike viewer (discarded seat c d) (discarded seat c' d')

pub data AlikeLogs (viewer : Seat) : List Event → List Event → Type 0 where
  no_events : AlikeLogs viewer [] []
  alike_then :
      {e e' : Event} {es es' : List Event}
      → Alike viewer e e'
      → AlikeLogs viewer es es'
      → AlikeLogs viewer (e ∷ es) (e' ∷ es')

project_event-Alike :
    (viewer : Seat) (e e' : Event) (seq : ℕ)
    → Alike viewer e e'
    → project_event viewer e seq ≡ project_event viewer e' seq
unfolding project_event
project_event-Alike viewer e e' seq equal = refl
project_event-Alike viewer e e' seq (deals h k) = rw (h, k) refl
project_event-Alike viewer e e' seq (throws h) = rw h refl

-- The stream of a seat is a function of what the seat may know: two logs that differ only in the
-- other seat's dealt cards, not in their number, and in the other seat's discards give the same
-- deltas.
pub project_events-Alike :
    (viewer : Seat) (es es' : List Event) (base : ℕ)
    → AlikeLogs viewer es es'
    → project_events viewer es base ≡ project_events viewer es' base
unfolding project_events
project_events-Alike viewer es es' base no_events = refl
project_events-Alike viewer es es' base
      (alike_then {e = e} {e' = e'} {es = rest} {es' = rest'} h k) =
    rw
      (
        project_event-Alike viewer e e' (base + 1) h,
        project_events-Alike viewer rest rest' (base + 1) k,
      )
      refl

-- What the live stream does to a replay's delta: of the two hands dealt the seat gets its own and
-- the number of the other's cards, and of the discards its own.
abbrev own_hand : Seat → List (List Card) → List Card
own_hand seat0 (h ∷ hands) = h
own_hand seat1 (h ∷ k ∷ hands) = k
own_hand _ _ = []

abbrev own_cards : Seat → Option Seat → List Card → List Card
own_cards viewer (some seat) cards = if seat_eq seat viewer then cards else []
own_cards viewer none cards = cards

abbrev pub redact : Seat → Delta → Delta
redact viewer d = redact_as viewer d d.word
  where
    redact_as : Seat → Delta → DeltaWord → Delta
    redact_as viewer d hand_dealt_word = record d {
      hands = [];
      hand = own_hand viewer d.hands;
      opponent_cards = length (own_hand (other viewer) d.hands);
    }
    redact_as viewer d discarded_word = record d { cards = own_cards viewer d.seat d.cards }
    redact_as viewer d _ = d

project_event-redact :
    (viewer : Seat) (e : Event) (seq : ℕ)
    → project_event viewer e seq ≡ redact viewer (project_replay_event e seq)
unfolding project_event project_replay_event
project_event-redact viewer (cut_for_deal cuts dealer) seq = refl
project_event-redact viewer (handicap scores) seq = refl
project_event-redact seat0 (hand_dealt dealer hands) seq = refl
project_event-redact seat1 (hand_dealt dealer hands) seq = refl
project_event-redact viewer (discarded seat c d) seq = refl
project_event-redact viewer (starter_cut card heels) seq = refl
project_event-redact viewer (card_played seat card score) seq = refl
project_event-redact viewer (pass seat) seq = refl
project_event-redact viewer (go_awarded seat points) seq = refl
project_event-redact viewer (series_reset leader) seq = refl
project_event-redact viewer (hand_shown seat cards score) seq = refl
project_event-redact viewer (crib_shown cards score) seq = refl
project_event-redact viewer (game_won seat) seq = refl
project_event-redact viewer (show_not_counted seat cards is_crib) seq = refl

-- A seat's live deltas are the replay's, redacted: the two projections of any log agree in number, order,
-- sequence numbers and every field, but for the hands of a deal and the other seat's discards.
pub project_events-redact :
    (viewer : Seat) (es : List Event) (base : ℕ)
    → project_events viewer es base ≡ map (redact viewer) (project_replay_events es base)
unfolding project_events project_replay_events
project_events-redact viewer [] base = refl
project_events-redact viewer (e ∷ es) base =
    rw (project_event-redact viewer e (base + 1), project_events-redact viewer es (base + 1)) refl

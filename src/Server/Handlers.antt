-- ===== src/Server/Handlers.antt =====
-- The handlers of games in internal/server/server.go, on the server's registry and stores. What a
-- request brings from outside is an argument: the fresh tokens, the clock, the deck, the user that
-- is logged in, and the fuel of the loops.
-- A handler starts from the decoded body: one that decodeJSON does not read is answered 400 before
-- anything changes.
use cribbager.Common.{
  Text, text_eq, ℕ, true, ◌||◌, not, List, [], ◌∷◌, Option, none, some, if◌then◌else◌,
}
use cribbager.Common.Int.{ℤ}
use cribbager.Cribbage.Defs.{Card}
use cribbager.Game.Defs.{
  Seat, seat1, put, Command, discard, play, GameError, game_over, wrong_phase, not_your_turn,
  already_discarded,
}
use cribbager.Game.Engine.{is_none}
use cribbager.Game.View.{PlayerView, view}
use cribbager.Server.Results.{Result}
use cribbager.Server.Session.{Session, Record, seat_for, bump_roster, record_of}
use cribbager.Server.Registry.{find_session, put_session, save_record}

pub record Server : Type 0 where
  pub reg : List Session
  pub subscribers : ℕ
  pub store : List Record
  pub results : List Result

-- The answer to a request: a status with what the body holds, an error's status, a panic, or no fuel left.
pub data Answer (A : Type 0) : Type 0 where
  replied : ℕ → A → Answer A
  refused : ℕ → Answer A
  handler_panics : Answer A
  handler_unfinished : Answer A

-- A user who is logged in, by id and display name.
abbrev pub User : Type 0
User = Text × Text

-- `seatIdentity`, with the typed name as `cleanName` leaves it.
unfoldable pub seat_identity : Session → Seat → Option User → Text → Session
seat_identity s seat none typed = record s { names = put s.names seat typed }
seat_identity s seat (some (id, display)) typed = record s {
  player_ids = put s.player_ids seat id;
  names = put s.names seat display;
}

-- `persist`
unfoldable pub persist : Server → Session → Server
persist srv s = record srv { store = save_record srv.store (record_of s) }

-- `authed`: the session and the seat, or the error's status.
pub data Authed : Type 0 where
  authed_as : Session → Seat → Authed
  not_authed : ℕ → Authed

unfoldable pub authed_seat : Session → Option Seat → Authed
authed_seat s none = not_authed 401
authed_seat s (some seat) = authed_as s seat

unfoldable pub authed_session : Option Session → Text → Authed
unfolding authed_seat
authed_session none token = not_authed 404
authed_session (some s) token = authed_seat s (seat_for s token)

unfoldable pub authed : Server → Text → Text → Authed
unfolding authed_session
authed srv id token = authed_session (find_session srv.reg id) token

-- `handleSnapshot`
unfoldable pub snapshot_as : Server → ℕ → Authed → Server × Answer PlayerView
snapshot_as srv now (not_authed status) = (srv, refused status)
snapshot_as srv now (authed_as s seat) = (
  record srv { reg = put_session srv.reg (record s { last_seen = now }) },
  replied 200 (view s.game seat),
)

unfoldable pub handle_snapshot : Server → Text → Text → ℕ → Server × Answer PlayerView
unfolding snapshot_as
handle_snapshot srv id token now = snapshot_as srv now (authed srv id token)

-- `handleAbandon`
unfoldable pub abandon_as : Server → ℕ → Authed → Server × Answer Unit
unfolding persist bump_roster
abandon_as srv now (not_authed status) = (srv, refused status)
abandon_as srv now (authed_as s seat) =
    let gone : Session = record (bump_roster (record s { left = put s.left seat true })) {
      last_seen = now;
    } in
    (persist (record srv { reg = put_session srv.reg gone }) gone, replied 204 tt)

unfoldable pub handle_abandon : Server → Text → Text → ℕ → Server × Answer Unit
unfolding abandon_as
handle_abandon srv id token now = abandon_as srv now (authed srv id token)

-- `handleJoin`
unfoldable pub join_session :
    Server → Option Session → Text → Option User → Text → ℕ → Server × Answer Text
unfolding persist seat_identity bump_roster
join_session srv none token user typed now = (srv, refused 404)
join_session srv (some s) token user typed now =
    let joined : Session =
      bump_roster
        (record (seat_identity (record s { tokens = put s.tokens seat1 token }) seat1 user typed) {
          last_seen = now;
        }) in
    if not (text_eq s.tokens.at1 []) || not (is_none s.bots.at1)
    then (srv, refused 409)
    else (persist (record srv { reg = put_session srv.reg joined }) joined, replied 200 token)

unfoldable pub handle_join : Server → Text → Text → Option User → Text → ℕ → Server × Answer Text
unfolding join_session
handle_join srv id token user typed now =
    join_session srv (find_session srv.reg id) token user typed now

-- "discard" and "play".
abbrev pub discard_text : Text
discard_text = 100 ∷ 105 ∷ 115 ∷ 99 ∷ 97 ∷ 114 ∷ 100 ∷ []

abbrev pub play_text : Text
play_text = 112 ∷ 108 ∷ 97 ∷ 121 ∷ []

pub record ActionRequest : Type 0 where
  pub type : Text
  pub cards : List Card
  pub card : Option Card
  pub expected_version : Option ℤ

two_cards : List Card → Option Command
two_cards (c ∷ d ∷ []) = some (discard c d)
two_cards _ = none

one_card : Option Card → Option Command
one_card none = none
one_card (some c) = some (play c)

-- `command`; an error is a bad request.
unfoldable pub command : ActionRequest → Option Command
unfolding two_cards one_card
command req =
    if text_eq req.type discard_text
    then two_cards req.cards
    else if text_eq req.type play_text
    then one_card req.card
    else none

-- `statusForGameErr`
unfoldable pub status_for_game_err : GameError → ℕ
status_for_game_err not_your_turn = 409
status_for_game_err wrong_phase = 409
status_for_game_err already_discarded = 409
status_for_game_err game_over = 409
status_for_game_err _ = 422

-- ===== src/Server/Finished.antt =====
-- Finished games on internal/server: who may see one (`finishedGameSubject` of analysis2.go), its
-- replay (replay.go) and its analysis (analysis.go, analysis2.go). The user that is logged in is an
-- argument; the result store is the one in memory, which reports no errors.
use cribbager.Common.{Text, text_eq, ℕ, Bool, not, List, [], Option, none, some, if◌then◌else◌}
use cribbager.Common.Floats.{Floats}
use cribbager.Cribbage.Defs.{Rank}
use cribbager.Game.Defs.{Seat, seat0, seat1, Both, Event}
use cribbager.Game.Engine.{is_none}
use cribbager.Server.Results.{Result, result_by_id, involves}
use cribbager.Server.Wire.{Delta, project_replay_events}
use cribbager.Server.Session.{Session, seat_for}
use cribbager.Server.Registry.{find_session}
use cribbager.Server.Handlers.{Server, Answer, replied, refused, User}
use cribbager.Server.Analysis.Engines.{Engine}
use cribbager.Server.Analysis.Verdicts as Discards
use cribbager.Server.Analysis.Walk as Games

pub record ParticipantGame : Type 0 where
  pub events : List Event
  pub seat : Seat
  pub names : Both Text
  pub bots : Both Bool
  pub winner : Seat

-- A game that the request may see, or the error's status.
pub data Subject : Type 0 where
  subject : ParticipantGame → Subject
  denied : ℕ → Subject

unfoldable pub participant_game_from_result : Result → Seat → ParticipantGame
unfolding text_eq
participant_game_from_result r seat = record {
  events = r.events;
  seat = seat;
  names = r.names;
  bots = record { at0 = not (text_eq r.bots.at0.name []); at1 = not (text_eq r.bots.at1.name []) };
  winner = r.winner;
}

-- The live game of a seat, by its winner.
unfoldable pub live_game : Session → Seat → Option Seat → Subject
live_game s seat none = denied 409
live_game s seat (some winner) = subject (record {
  events = s.game.log;
  seat = seat;
  names = s.names;
  bots = record { at0 = not (is_none s.bots.at0); at1 = not (is_none s.bots.at1) };
  winner = winner;
})

-- `seat := Seat0; if res.PlayerIDs[1] == u.ID { seat = Seat1 }`
abbrev pub seat_of_player : Result → Text → Seat
seat_of_player r player = if text_eq r.player_ids.at1 player then seat1 else seat0

abbrev pub stored_game : Option Result → Text → Subject
stored_game none player = denied 404
stored_game (some r) player =
    if involves r player
    then subject (participant_game_from_result r (seat_of_player r player))
    else denied 404

-- The login, when the token has opened no seat.
unfoldable pub by_login : Server → Text → Text → Option User → Subject
unfolding result_by_id participant_game_from_result involves
by_login srv id token none = if text_eq token [] then denied 401 else denied 404
by_login srv id token (some (player, display)) = stored_game (result_by_id srv.results id) player

abbrev pub by_seat : Session → Option Seat → Subject → Subject
by_seat s none otherwise = otherwise
by_seat s (some seat) otherwise = live_game s seat s.game.winner

abbrev pub by_session : Option Session → Text → Subject → Subject
by_session none token otherwise = otherwise
by_session (some s) token otherwise = by_seat s (seat_for s token) otherwise

-- `finishedGameSubject`
unfoldable pub finished_game_subject : Server → Text → Text → Option User → Subject
unfolding by_login live_game
finished_game_subject srv id token user =
    if text_eq token []
    then by_login srv id token user
    else by_session (find_session srv.reg id) token (by_login srv id token user)

-- `gameReplayResponse`
pub record GameReplay : Type 0 where
  pub game_id : Text
  pub seats : Both (Text × Bool)
  pub winner : Seat
  pub target : ℕ
  pub events : List Delta

unfoldable pub replay_response_for : Text → ParticipantGame → GameReplay
unfolding project_replay_events
replay_response_for id pg = record {
  game_id = id;
  seats = record { at0 = (pg.names.at0, pg.bots.at0); at1 = (pg.names.at1, pg.bots.at1) };
  winner = pg.winner;
  target = 121;
  events = project_replay_events pg.events 0;
}

abbrev pub replayed : Text → Subject → Answer GameReplay
replayed id (denied status) = refused status
replayed id (subject pg) = replied 200 (replay_response_for id pg)

-- `handleGameReplayV2`
unfoldable pub handle_game_replay_v2 : Server → Text → Text → Option User → Answer GameReplay
unfolding finished_game_subject replay_response_for
handle_game_replay_v2 srv id token user = replayed id (finished_game_subject srv id token user)

-- What the endpoints below a login make of a stored game in which the user has a seat.
abbrev pub of_own {ℓ} : {A : Type ℓ} → (Result → A) → Option Result → Text → Option A
of_own f none player = none
of_own f (some r) player = if involves r player then some (f r) else none

abbrev pub found_or_404 : {A : Type 0} → Option A → Answer A
found_or_404 none = refused 404
found_or_404 (some a) = replied 200 a

-- `handleGameReplay`
unfoldable pub handle_game_replay : Server → Text → Option User → Answer GameReplay
unfolding replay_response_for participant_game_from_result result_by_id
handle_game_replay srv id none = refused 401
handle_game_replay srv id (some (player, display)) = found_or_404 (
    of_own (λ r. replay_response_for r.id (participant_game_from_result r seat0))
      (result_by_id srv.results id) player)

module _ (F : Floats) where
  -- `handleGameAnalysis`
  unfoldable pub handle_game_analysis :
      (Rank → Rank → Bool → F.Float)
      → Server
      → Text
      → Option User
      → Answer (Discards.GameAnalysisResponse F)
  handle_game_analysis table srv id none = refused 401
  handle_game_analysis table srv id (some (player, display)) = found_or_404 (
      of_own (λ r. Discards.analyze_discards F table r (seat_of_player r player))
        (result_by_id srv.results id) player)

  -- A log that cannot be reconstructed is an error of the server.
  abbrev pub found_or_500 : Option (Games.GameAnalysis F) → Answer (Games.GameAnalysis F)
  found_or_500 none = refused 500
  found_or_500 (some r) = replied 200 r

  abbrev pub analysed : Text → List (Engine F) → Subject → Answer (Games.GameAnalysis F)
  analysed id engines (denied status) = refused status
  analysed id engines (subject pg) =
      found_or_500 (Games.analyze_game F id pg.seat pg.events engines)

  -- `handleGameAnalysisV2`
  unfoldable pub handle_game_analysis_v2 :
      List (Engine F) → Server → Text → Text → Option User → Answer (Games.GameAnalysis F)
  unfolding finished_game_subject
  handle_game_analysis_v2 engines srv id token user =
      analysed id engines (finished_game_subject srv id token user)

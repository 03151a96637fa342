-- ===== src/Server/Upkeep.antt =====
-- The lobby, the counts, the reaping and the start of internal/server/server.go.
use cribbager.Common.{Text, ℕ, ◌+◌, ◌&&◌, List, [], ◌∷◌, length, leb, ltb, if◌then◌else◌}
use cribbager.Game.Defs.{Seat, seat1}
use cribbager.Game.Engine.{DeckSource}
use cribbager.Bot.Production.{Production}
use cribbager.Server.Session.{
  Session, Record, joinable_lobby, session_from_record, subscribe, unsubscribe,
}
use cribbager.Server.Registry.{add_session, put_session, reap_sessions, delete_records}
use cribbager.Server.Handlers.{Server}

pub record LobbyGame : Type 0 where
  pub game_id : Text
  pub host_name : Text
  pub created_at : ℕ
  pub open_seat : Seat

-- The listing of `handleLobby`, before it is sorted by age.
unfoldable pub lobby_games : List Session → List LobbyGame
lobby_games [] = []
lobby_games (s ∷ ss) =
    let rest : List LobbyGame = lobby_games ss in
    if joinable_lobby s
    then record {
      game_id = s.id;
      host_name = s.names.at0;
      created_at = s.created_at;
      open_seat = seat1;
    }
      ∷ rest
    else rest

-- `Stats`
unfoldable pub stats : Server → ℕ × ℕ
stats srv = (length srv.reg, srv.subscribers)

pub record Counters : Type 0 where
  pub reqs2 : ℕ
  pub reqs3 : ℕ
  pub reqs4 : ℕ
  pub reqs5 : ℕ
  pub reqs_other : ℕ

-- `countStatus`
unfoldable pub count_status : Counters → ℕ → Counters
count_status c code =
    if leb 200 code && ltb code 300
    then record c { reqs2 = c.reqs2 + 1 }
    else if leb 300 code && ltb code 400
    then record c { reqs3 = c.reqs3 + 1 }
    else if leb 400 code && ltb code 500
    then record c { reqs4 = c.reqs4 + 1 }
    else if leb 500 code
    then record c { reqs5 = c.reqs5 + 1 }
    else record c { reqs_other = c.reqs_other + 1 }

-- The sessions and the store of `Reap`.
unfoldable pub reaped : Server → List Session × List Text → Server
reaped srv (kept, gone) = record srv { reg = kept; store = delete_records srv.store gone }

unfoldable pub reap : ℕ → ℕ → Server → Server
unfolding reaped
reap ttl now srv = reaped srv (reap_sessions ttl now srv.reg)

-- The loop of `Restore`: a session above the cap is not loaded.
unfoldable pub restore_sessions :
    Production → DeckSource → List Record → List Session → List Session
restore_sessions made crypto_deck [] reg = reg
restore_sessions made crypto_deck (r ∷ rs) reg =
    restore_sessions made crypto_deck rs
      (add_session reg (session_from_record made crypto_deck r)).0

-- A new process on the stores of an old one: `Restore` into an empty registry.
unfoldable pub restart : Production → DeckSource → Server → Server
unfolding restore_sessions
restart made crypto_deck srv = record {
  reg = restore_sessions made crypto_deck srv.store [];
  subscribers = 0;
  store = srv.store;
  results = srv.results;
}

-- A stream that opens, and one that closes, on a session of the registry.
unfoldable pub open_stream : Server → Session → Seat → Server
open_stream srv s seat =
    let (joined, gauge, key) = subscribe s seat srv.subscribers in
    record srv { reg = put_session srv.reg joined; subscribers = gauge }

unfoldable pub close_stream : Server → Session → ℕ → Seat → Server
close_stream srv s key seat =
    let (gone, gauge) = unsubscribe s key seat srv.subscribers in
    record srv { reg = put_session srv.reg gone; subscribers = gauge }

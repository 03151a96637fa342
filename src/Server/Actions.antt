-- ===== src/Server/Actions.antt =====
-- The moves of internal/server/server.go (`handleAction`), the result of a finished game
-- (result_handlers.go), and the creation of games (`handleCreate`).
use cribbager.Common.{
  Text, text_eq, ℕ, Bool, true, false, not, List, [], ◌∷◌, Option, none, some, drop, ◌==◌, ◌&&◌,
  if◌then◌else◌,
}
use cribbager.Common.Int.{ℤ, pos, negsuc}
use cribbager.Game.Defs.{Seat, seat0, seat1, put, both, Event, Command}
use cribbager.Game.Engine.{DeckSource, Game, Outcome, done, failed, panicked, apply}
use cribbager.Game.Start.{new, target_of}
use cribbager.Bot.Defs.{Bot}
use cribbager.Bot.Production.{Production, default_name, valid, new_bot}
use cribbager.Server.Results.{Result, BotInfo, save_result}
use cribbager.Server.Wire.{Delta, project_events}
use cribbager.Server.Session.{Session, notify}
use cribbager.Server.Drive.{DriveEnd, rested, driver_panics, drive_unfinished, drive_bots}
use cribbager.Server.Registry.{put_session, add_session}
use cribbager.Server.Handlers.{
  Server, Answer, replied, refused, handler_panics, handler_unfinished, User, seat_identity,
  persist, Authed, authed_as, not_authed, authed, ActionRequest, command, status_for_game_err,
}

unfoldable pub bot_info : Option Bot → BotInfo
bot_info none = record { name = []; version = [] }
bot_info (some b) = record { name = b.name; version = b.version }

-- "1", the engine's version.
abbrev pub engine_version : Text
engine_version = 49 ∷ []

unfoldable pub result_of : Session → Seat → ℕ → Result
unfolding bot_info
result_of s winner now = record {
  id = s.id;
  player_ids = s.player_ids;
  names = s.names;
  scores = s.game.scores;
  winner = winner;
  events = s.game.log;
  ended_at = now;
  engine_version = engine_version;
  bots = record { at0 = bot_info s.bots.at0; at1 = bot_info s.bots.at1 };
}

-- `recordResult`, by the winner: nothing of a game between guests.
unfoldable pub record_result : Server → Session → Option Seat → ℕ → Server
unfolding result_of
record_result srv s none now = srv
record_result srv s (some winner) now =
    if text_eq s.player_ids.at0 [] && text_eq s.player_ids.at1 []
    then srv
    else record srv { results = save_result srv.results (result_of s winner now) }

unfoldable pub version_conflict : Option ℤ → ℕ → Bool
version_conflict none version = false
version_conflict (some (pos n)) version = not (n == version)
version_conflict (some (negsuc n)) version = true

pub record ActionResponse : Type 0 where
  pub version : ℕ
  pub deltas : List Delta

-- What follows once the bots have answered a move: the session, the stores and the deltas since
-- the version `base`.
unfoldable pub finish_action :
    Server → Session → Seat → ℕ → ℕ → DriveEnd → Server × Answer ActionResponse
unfolding persist record_result notify
finish_action srv s seat base now (rested g) =
    let moved : Session = notify (record s { game = g; last_seen = now }) in
    (
      record_result (persist (record srv { reg = put_session srv.reg moved }) moved) moved g.winner
          now,
      replied 200
          (record { version = g.version; deltas = project_events seat (drop base g.log) base }),
    )
finish_action srv s seat base now driver_panics = (srv, handler_panics)
finish_action srv s seat base now drive_unfinished = (srv, handler_unfinished)

-- A failing call leaves its game in the session.
unfoldable pub act :
    ℕ → Server → Session → Seat → ℕ → Outcome (Game × List Event) → Server × Answer ActionResponse
unfolding finish_action
act fuel srv s seat now (done (g, events)) =
    finish_action srv s seat s.game.version now (drive_bots fuel s.bots g)
act fuel srv s seat now (failed e g) = (
  record srv { reg = put_session srv.reg (record s { game = g }) },
  refused (status_for_game_err e),
)
act fuel srv s seat now panicked = (srv, handler_panics)

unfoldable pub run_command :
    ℕ → Server → Session → Seat → ℕ → Option Command → Server × Answer ActionResponse
unfolding act
run_command fuel srv s seat now none = (srv, refused 400)
run_command fuel srv s seat now (some cmd) = act fuel srv s seat now (apply s.game seat cmd)

unfoldable pub action_as : ℕ → Server → ℕ → ActionRequest → Authed → Server × Answer ActionResponse
unfolding version_conflict run_command
action_as fuel srv now req (not_authed status) = (srv, refused status)
action_as fuel srv now req (authed_as s seat) =
    if version_conflict req.expected_version s.game.version
    then (srv, refused 409)
    else run_command fuel srv s seat now (command req)

-- `handleAction`
unfoldable pub handle_action :
    ℕ → Server → Text → Text → ActionRequest → ℕ → Server × Answer ActionResponse
unfolding action_as
handle_action fuel srv id token req now = action_as fuel srv now req (authed srv id token)

-- "bot" and "open".
abbrev pub bot_mode : Text
bot_mode = 98 ∷ 111 ∷ 116 ∷ []

abbrev pub open_mode : Text
open_mode = 111 ∷ 112 ∷ 101 ∷ 110 ∷ []

pub record CreateRequest : Type 0 where
  pub mode : Text
  pub target : ℤ
  pub typed_name : Text
  pub bot : Text
  pub public : Bool

pub record CreateResponse : Type 0 where
  pub game_id : Text
  pub player_token : Text
  pub seat : Seat

-- The session that `handleCreate` builds around a new game.
unfoldable pub new_session : Text → Text → Game → Option User → Text → ℕ → Session
unfolding seat_identity
new_session id token g user typed now =
    seat_identity
      (record {
        id = id;
        game = g;
        tokens = record { at0 = token; at1 = [] };
        bots = both none;
        names = both [];
        player_ids = both [];
        public = false;
        created_at = now;
        last_seen = now;
        subs = [];
        next_id = 0;
        sub_count = both 0;
        left = both false;
        roster_ver = 0;
      })
      seat0 user typed

-- The registration of the session at the end of `handleCreate`.
unfoldable pub register : Server → Session → List Session × Bool → Server × Answer CreateResponse
unfolding persist
register srv s (reg, false) = (srv, refused 503)
register srv s (reg, true) = (
  persist (record srv { reg = reg }) s,
  replied 201 (record { game_id = s.id; player_token = s.tokens.at0; seat = seat0 }),
)

unfoldable pub register_session : Server → Session → Server × Answer CreateResponse
unfolding register
register_session srv s = register srv s (add_session srv.reg s)

unfoldable pub create_driven : Server → Session → DriveEnd → Server × Answer CreateResponse
unfolding register_session
create_driven srv s (rested g) = register_session srv (record s { game = g })
create_driven srv s driver_panics = (srv, handler_panics)
create_driven srv s drive_unfinished = (srv, handler_unfinished)

-- A game against a bot: the bot takes its opening action.
unfoldable pub create_bot_game :
    Production → ℕ → Server → Session → Text → Server × Answer CreateResponse
unfolding create_driven
create_bot_game made fuel srv s name =
    let seated : Session = record s { bots = put s.bots seat1 (some (new_bot made name)) } in
    create_driven srv seated (drive_bots fuel seated.bots seated.game)

unfoldable pub create_in :
    Production → ℕ → Server → Session → CreateRequest → Server × Answer CreateResponse
unfolding create_bot_game register_session
create_in made fuel srv s req =
    let name : Text = if text_eq req.bot [] then default_name else req.bot in
    if text_eq req.mode bot_mode
    then (if valid name then create_bot_game made fuel srv s name else (srv, refused 400))
    else if text_eq req.mode open_mode
    then register_session srv (record s { public = req.public })
    else (srv, refused 400)

-- `handleCreate`, by what `game.New` gives.
unfoldable pub create_with :
    Production
    → ℕ
    → Server
    → Option (Outcome Game)
    → Text
    → Text
    → CreateRequest
    → Option User
    → ℕ
    → Server × Answer CreateResponse
unfolding create_in new_session
create_with made fuel srv (some (done g)) id token req user now =
    create_in made fuel srv (new_session id token g user req.typed_name now) req
create_with made fuel srv (some (failed e g)) id token req user now = (srv, handler_panics)
create_with made fuel srv (some panicked) id token req user now = (srv, handler_panics)
create_with made fuel srv none id token req user now = (srv, handler_unfinished)

unfoldable pub handle_create :
    Production
    → ℕ
    → ℕ
    → Server
    → DeckSource
    → Text
    → Text
    → CreateRequest
    → Option User
    → ℕ
    → Server × Answer CreateResponse
handle_create made cuts fuel srv crypto_deck id token req user now =
    create_with made fuel srv
      (new cuts
        (record { deck = crypto_deck; target_score = pos (target_of req.target); start = none }))
      id token req user now

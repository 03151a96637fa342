-- ===== src/Server/Acting.antt =====
-- `handleAction` of internal/server/server.go on a sound server.
use cribbager.Common.{
  Text, ℕ, ◌+◌, ◌*◌, ◌≤◌, ◌<◌, ◌≡◌, ◌⊎◌, refl, ap, subst, ◌∙◌, false, ◌&&◌, List, [], Option, none,
  some, length, drop, drop-append, All, arith, Bool-cases, inl, inr, text_eq,
}
use cribbager.Game.Defs.{Seat, Event, Command}
use cribbager.Game.Kinds.{in_hand}
use cribbager.Game.Log.{Grows, Grows-trans}
use cribbager.Game.Engine.{Game, Outcome, done, failed, panicked, apply, is_none}
use cribbager.Game.History.{IsFolded-Grows}
use cribbager.Game.Apply.{Replies, apply-Replies}
use cribbager.Game.Gains.{Inv-cards}
use cribbager.Bot.Moves.{Moves, apply-Moves}
use cribbager.Server.Wire.{project_events}
use cribbager.Server.Session.{Session, notify, record_of, seat_for}
use cribbager.Server.Drive.{DriveEnd, rested, driver_panics, drive_unfinished, drive_bots}
use cribbager.Server.Throws.{Waits}
use cribbager.Server.Driving.{Rests, drive_bots-Rests}
use cribbager.Server.Registry.{max_sessions, find_session, put_session}
use cribbager.Server.Handlers.{
  Server, Answer, replied, refused, handler_panics, handler_unfinished, persist, authed,
  authed_session, authed_seat, ActionRequest, command,
}
use cribbager.Server.Actions.{
  ActionResponse, record_result, finish_action, act, run_command, action_as, handle_action,
  version_conflict,
}
use cribbager.Server.Sound.{
  SessionOk, RecordOk, record_of-Ok, find_session-All, put_session-All, save_record-All,
  put_session-same, length-put_session,
}

-- Every session's game is sound, every record gives a sound game again, and the registry is within its cap.
pub record ServerOk (srv : Server) : Type 0 where
  pub sessions : All SessionOk srv.reg
  pub records : All RecordOk srv.store
  pub capped : length srv.reg ≤ max_sessions

pub put_persist-Ok :
    (srv : Server) (s : Session)
    → ServerOk srv
    → SessionOk s
    → ServerOk (persist (record srv { reg = put_session srv.reg s }) s)
unfolding persist
put_persist-Ok srv s o k = record {
  sessions = put_session-All SessionOk srv.reg s o.sessions k;
  records = save_record-All RecordOk srv.store (record_of s) o.records (record_of-Ok s k);
  capped = omega (arith, o.capped, length-put_session srv.reg s);
}

record_result-Ok :
    (srv : Server) (s : Session) (o : Option Seat) (now : ℕ)
    → ServerOk srv
    → ServerOk (record_result srv s o now)
unfolding record_result
record_result-Ok srv s none now k = k
record_result-Ok srv s (some w) now k =
    elim (Bool-cases (text_eq s.player_ids.at0 [] && text_eq s.player_ids.at1 [])) [
      | inl guests ↦ rw guests k
      | inr known ↦
          rw known (record { sessions = k.sessions; records = k.records; capped = k.capped })
    ]

record_result-reg :
    (srv : Server) (s : Session) (o : Option Seat) (now : ℕ)
    → (record_result srv s o now).reg ≡ srv.reg
unfolding record_result
record_result-reg srv s none now = refl
record_result-reg srv s (some w) now = ground arith

-- What an accepted action did: the session with the id has a later game, in which the request's
-- command of the token's seat came first, and which is over or waits for a human; the answer holds
-- the later events for that seat, with their numbers.
pub record Acted (srv srv' : Server) (id token : Text) (req : ActionRequest) (now : ℕ)
    (r : ActionResponse) : Type 0 where
  pub session : Session
  pub seat : Seat
  pub move : Command
  pub moved : Game
  pub first : List Event
  pub later : Game
  pub found : find_session srv.reg id ≡ some session
  pub seated : seat_for session token ≡ some seat
  pub up_to_date : version_conflict req.expected_version session.game.version ≡ false
  pub asked : command req ≡ some move
  pub applied : apply session.game seat move ≡ done (moved, first)
  pub bots_follow : Grows in_hand moved later
  pub grows : Grows in_hand session.game later
  pub waits : (is_none later.winner ≡ false) ⊎ Waits session.bots later
  pub reg_is :
      srv'.reg ≡ put_session srv.reg (notify (record session { game = later; last_seen = now }))
  pub deltas_are : r.deltas ≡ project_events seat grows.events session.game.version
  pub version_is : r.version ≡ session.game.version + length grows.events

-- The answer to an action: an accepted one leaves a sound server, a refused one leaves the server as
-- it was, and there is no panic and no endless loop.
abbrev pub Acts : Server → Text → Text → ActionRequest → ℕ → Server × Answer ActionResponse → Type 0
Acts srv id token req now (srv', replied status r) =
    (status ≡ 200) × ServerOk srv' × Acted srv srv' id token req now r
Acts srv id token req now (srv', refused status) = srv' ≡ srv
Acts srv id token req now (srv', handler_panics) = ⊥
Acts srv id token req now (srv', handler_unfinished) = ⊥

-- A request that has passed the guards of the handler up to the command.
record Asks (srv : Server) (id token : Text) (req : ActionRequest) (s : Session) (seat : Seat)
    (cmd : Command) : Type 0 where
  found : find_session srv.reg id ≡ some s
  seated : seat_for s token ≡ some seat
  up_to_date : version_conflict req.expected_version s.game.version ≡ false
  asked : command req ≡ some cmd

finish_action-Acts :
    (srv : Server) (id token : Text) (req : ActionRequest) (s : Session) (seat : Seat)
    (cmd : Command) (now : ℕ) (g : Game) (events : List Event) (end : DriveEnd)
    → ServerOk srv
    → SessionOk s
    → Asks srv id token req s seat cmd
    → apply s.game seat cmd ≡ done (g, events)
    → Grows in_hand s.game g
    → Rests s.bots g end
    → Acts srv id token req now (finish_action srv s seat s.game.version now end)
unfolding finish_action notify
finish_action-Acts srv id token req s seat cmd now g events (rested h) o k q e r (inv, grown, w) =
    let all : Grows in_hand s.game h = Grows-trans s.game g h r grown in
    let moved : Session = notify (record s { game = h; last_seen = now }) in
    let moved-Ok : SessionOk moved = record {
      inv = inv;
      folded = IsFolded-Grows in_hand s.game h all k.folded;
      lawful = k.lawful;
    } in
    let saved : Server = persist (record srv { reg = put_session srv.reg moved }) moved in
    (
      refl,
      record_result-Ok saved moved h.winner now (put_persist-Ok srv moved o moved-Ok),
      record {
        session = s;
        seat = seat;
        move = cmd;
        moved = g;
        first = events;
        later = h;
        found = q.found;
        seated = q.seated;
        up_to_date = q.up_to_date;
        asked = q.asked;
        applied = e;
        bots_follow = grown;
        grows = all;
        waits = w;
        reg_is = record_result-reg saved moved h.winner now ∙ (unfold persist in refl);
        deltas_are = ap (λ es. project_events seat es s.game.version) (gained all);
        version_is = all.counted;
      },
    )
  where
    gained : (all : Grows in_hand s.game h) → drop s.game.version h.log ≡ all.events
    gained all =
        ap (λ n. drop n h.log) k.folded.counted
        ∙ ap (drop (length s.game.log)) all.log_is
        ∙ drop-append s.game.log all.events
finish_action-Acts srv id token req s seat cmd now g events driver_panics o k q e r d = d
finish_action-Acts srv id token req s seat cmd now g events drive_unfinished o k q e r d = d

act-Acts :
    (fuel : ℕ) (srv : Server) (id token : Text) (req : ActionRequest) (s : Session) (seat : Seat)
    (now : ℕ) (cmd : Command)
    → ServerOk srv
    → Asks srv id token req s seat cmd
    → 26 * s.game.target + 12 < fuel
    → Acts srv id token req now (act fuel srv s seat now (apply s.game seat cmd))
unfolding act
act-Acts fuel srv id token req s seat now cmd o q enough = answer (apply s.game seat cmd) refl
  where
    k : SessionOk s
    k = find_session-All SessionOk srv.reg id s o.sessions q.found

    answer :
        (m : Outcome (Game × List Event))
        → apply s.game seat cmd ≡ m
        → Acts srv id token req now (act fuel srv s seat now m)
    answer (done (g, events)) e =
        let m : Moves s.game g =
          apply-Moves s.game seat cmd (g, events) k.inv e
            (subst (Replies s.game) e (apply-Replies s.game seat cmd k.inv)) in
        finish_action-Acts srv id token req s seat cmd now g events (drive_bots fuel s.bots g) o k q
          e m.grows
          (drive_bots-Rests fuel s.bots g k.lawful m.inv
            (λ open_game. omega (arith, Inv-cards g m.inv open_game, m.grows.same_target, enough)))
    answer (failed x h) e =
        let same : h ≡ s.game = subst (Replies s.game) e (apply-Replies s.game seat cmd k.inv) in
        ap (λ g. record srv { reg = put_session srv.reg (record s { game = g }) }) same
        ∙ ap (λ reg. record srv { reg = reg }) (put_session-same srv.reg id s q.found)
    answer panicked e = subst (Replies s.game) e (apply-Replies s.game seat cmd k.inv)

-- Any action request to a sound server, with more rounds for the bots than 26 times the target of the
-- session's game and a deal of cards. A refused request leaves the whole server as it was. An accepted
-- one, with status 200, leaves a sound server, in whose registry only the session with the request's id
-- changed: the request's command, of the seat that its token opens and at the version that it may
-- expect, was applied to the session's game and the bots followed, until the game is over or waits for
-- a human; and the answer's deltas are exactly the events that the log gained, as that seat may see
-- them, numbered from the old version to the new. Nothing panics or loops.
pub handle_action-Acts :
    (fuel : ℕ) (srv : Server) (id token : Text) (req : ActionRequest) (now : ℕ)
    → ServerOk srv
    → ((s : Session) → find_session srv.reg id ≡ some s → 26 * s.game.target + 12 < fuel)
    → Acts srv id token req now (handle_action fuel srv id token req now)
unfolding handle_action action_as authed authed_session authed_seat run_command
handle_action-Acts fuel srv id token req now o enough = by_session (find_session srv.reg id) refl
  where
    by_command :
        (s : Session) (seat : Seat) (c : Option Command)
        → find_session srv.reg id ≡ some s
        → seat_for s token ≡ some seat
        → version_conflict req.expected_version s.game.version ≡ false
        → command req ≡ c
        → Acts srv id token req now (run_command fuel srv s seat now c)
    by_command s seat none found seated current asked = refl
    by_command s seat (some cmd) found seated current asked =
        act-Acts fuel srv id token req s seat now cmd o
          (record { found = found; seated = seated; up_to_date = current; asked = asked })
          (enough s found)

    by_seat :
        (s : Session) (seat : Option Seat)
        → find_session srv.reg id ≡ some s
        → seat_for s token ≡ seat
        → Acts srv id token req now (action_as fuel srv now req (authed_seat s seat))
    by_seat s none found seated = refl
    by_seat s (some seat) found seated =
        elim (Bool-cases (version_conflict req.expected_version s.game.version)) [
          | inl conflict ↦ rw conflict refl
          | inr current ↦ rw current (by_command s seat (command req) found seated current refl)
        ]

    by_session :
        (o : Option Session)
        → find_session srv.reg id ≡ o
        → Acts srv id token req now (action_as fuel srv now req (authed_session o token))
    by_session none e = refl
    by_session (some s) e = by_seat s (seat_for s token) e refl

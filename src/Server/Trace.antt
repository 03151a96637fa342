-- ===== src/Server/Trace.antt =====
-- The requests to internal/server as steps of the server, and what every run of them keeps.
use cribbager.Common.{
  Text, ℕ, ◌≤◌, ◌≡◌, List, [], ◌∷◌, some, length, leb, All, arith, Bool-cases, inl, inr,
}
use cribbager.Game.Defs.{Seat}
use cribbager.Game.Engine.{DeckSource}
use cribbager.Game.Invariant.{IsFair}
use cribbager.Bot.Production.{Production}
use cribbager.Server.Session.{
  Session, Record, bump_roster, subscribe, unsubscribe, session_from_record,
}
use cribbager.Server.Registry.{max_sessions, find_session, add_session, reap_sessions, stale}
use cribbager.Server.Handlers.{Server}
use cribbager.Server.Actions.{handle_action}
use cribbager.Server.Upkeep.{reap, restart, restore_sessions, reaped, open_stream, close_stream}
use cribbager.Server.Sound.{
  Lawful, SessionOk, RecordOk, session_from_record-Ok, find_session-All, set_session-All,
  delete_records-All, length-add_session,
}
use cribbager.Server.Acting.{ServerOk, handle_action-Acts}
use cribbager.Server.Steps.{
  creates, joins, looks, acts, abandons, streams, hangs_up, reaps, restarts, Step, same_game-Ok,
  put-Ok, joins-Ok, looks-Ok, abandons-Ok, Acts-Ok,
}
use cribbager.Server.Creating.{creates-Ok}

reaps-All :
    (ttl now : ℕ) (reg : List Session)
    → All SessionOk reg
    → All SessionOk (reap_sessions ttl now reg).0
      × (length (reap_sessions ttl now reg).0 ≤ length reg)
unfolding reap_sessions
reaps-All ttl now [] h = (tt, omega arith)
reaps-All ttl now (s ∷ ss) (h, hs) =
    let (kept, fewer) = reaps-All ttl now ss hs in
    elim (Bool-cases (stale ttl now s)) [
      | inl old ↦ rw old (kept, omega (arith, fewer))
      | inr fresh ↦ rw fresh ((h, kept), omega (arith, fewer))
    ]

add_session-All :
    (reg : List Session) (s : Session)
    → All SessionOk reg
    → SessionOk s
    → All SessionOk (add_session reg s).0
unfolding add_session
add_session-All reg s h k = elim (Bool-cases (leb max_sessions (length reg))) [
  | inl full ↦ rw full h
  | inr room ↦ rw room (set_session-All SessionOk reg s h k)
]

restores-Ok :
    (made : Production) (deck : DeckSource) (rs : List Record) (reg : List Session)
    → Lawful made
    → IsFair deck
    → All RecordOk rs
    → All SessionOk reg
    → length reg ≤ max_sessions
    → All SessionOk (restore_sessions made deck rs reg)
      × (length (restore_sessions made deck rs reg) ≤ max_sessions)
unfolding restore_sessions add_session
restores-Ok made deck [] reg l fair h k cap = (k, cap)
restores-Ok made deck (r ∷ rs) reg l fair (h, hs) k cap =
    let s : Session = session_from_record made deck r in
    restores-Ok made deck rs (add_session reg s).0 l fair hs
      (add_session-All reg s k (session_from_record-Ok made deck r l fair h))
      (length-add_session reg s cap)

subscribe-Ok :
    (s : Session) (seat : Seat) (gauge : ℕ) → SessionOk s → SessionOk (subscribe s seat gauge).0
unfolding subscribe bump_roster
subscribe-Ok s seat gauge k =
    same_game-Ok s (subscribe s seat gauge).0 (ground arith) (ground arith) k

unsubscribe-Ok :
    (s : Session) (key : ℕ) (seat : Seat) (gauge : ℕ)
    → SessionOk s
    → SessionOk (unsubscribe s key seat gauge).0
unfolding unsubscribe bump_roster
unsubscribe-Ok s key seat gauge k =
    same_game-Ok s (unsubscribe s key seat gauge).0 (ground arith) (ground arith) k

gauge-Ok : (srv : Server) (n : ℕ) → ServerOk srv → ServerOk (record srv { subscribers = n })
gauge-Ok srv n o = record { sessions = o.sessions; records = o.records; capped = o.capped }

found_session :
    (srv : Server) (id : Text) (s : Session)
    → ServerOk srv
    → find_session srv.reg id ≡ some s
    → SessionOk s
found_session srv id s o found = find_session-All SessionOk srv.reg id s o.sessions found

-- Every request to a sound server, and every act of upkeep, leaves it sound: a game that is created, joined, moved
-- in, watched, abandoned, reaped or restored.
pub Step-Ok :
    {made : Production} {srv srv' : Server}
    → Lawful made
    → Step made srv srv'
    → ServerOk srv
    → ServerOk srv'
unfolding open_stream close_stream reap reaped restart
Step-Ok {made = made} l (creates srv cuts fuel deck id token req user now fair enough) o =
    creates-Ok made srv cuts fuel deck id token req user now l fair enough o
Step-Ok l (joins srv id token user typed now) o = joins-Ok srv id token user typed now o
Step-Ok l (looks srv id token now) o = looks-Ok srv id token now o
Step-Ok l (acts srv fuel id token req now enough) o =
    Acts-Ok srv id token req now (handle_action fuel srv id token req now) o
      (handle_action-Acts fuel srv id token req now o enough)
Step-Ok l (abandons srv id token now) o = abandons-Ok srv id token now o
Step-Ok l (streams srv id s seat found) o =
    gauge-Ok _ _
      (put-Ok srv _ o (subscribe-Ok s seat srv.subscribers (found_session srv id s o found)))
Step-Ok l (hangs_up srv id s key seat found) o =
    gauge-Ok _ _
      (put-Ok srv _ o (unsubscribe-Ok s key seat srv.subscribers (found_session srv id s o found)))
Step-Ok l (reaps srv ttl now) o =
    let (kept, fewer) = reaps-All ttl now srv.reg o.sessions in
    record {
      sessions = kept;
      records = delete_records-All RecordOk srv.store (reap_sessions ttl now srv.reg).1 o.records;
      capped = omega (arith, fewer, o.capped);
    }
Step-Ok {made = made} l (restarts srv deck fair) o =
    let (sessions, capped) = restores-Ok made deck srv.store [] l fair o.records tt (omega arith) in
    record { sessions = sessions; records = o.records; capped = capped }

-- A server that some run of requests and restarts has come to, from an empty one.
pub data Reached (made : Production) : Server → Type 0 where
  booted : Reached made (record { reg = []; subscribers = 0; store = []; results = [] })
  stepped : {srv srv' : Server} → Reached made srv → Step made srv srv' → Reached made srv'

-- With production bots that keep to the bot's contract, a server that has answered any requests in any order, with
-- streams, reaping and restarts from its store among them, has at most 5000 sessions, each with a game that has the
-- invariant and is the fold of its log; and every record of its store gives such a game again.
pub Reached-Ok : {made : Production} {srv : Server} → Lawful made → Reached made srv → ServerOk srv
Reached-Ok l booted = record { sessions = tt; records = tt; capped = omega arith }
Reached-Ok l (stepped r step) = Step-Ok l step (Reached-Ok l r)

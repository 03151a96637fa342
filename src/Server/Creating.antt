-- ===== src/Server/Creating.antt =====
-- `handleCreate` of internal/server/server.go on a sound server.
use cribbager.Common.{
  Text, ℕ, zero, suc, ◌+◌, ◌*◌, ◌≤◌, ◌<◌, ◌≡◌, refl, ap, false, [], Option, none, some, length, leb,
  if◌then◌else◌, arith, Bool-cases, inl, inr, text_eq,
}
use cribbager.Common.Int.{ℤ, pos, negsuc}
use cribbager.Game.Defs.{seat1, Both, put}
use cribbager.Game.Engine.{DeckSource, Game, Outcome, done, failed, panicked}
use cribbager.Game.Invariant.{Inv, IsFair}
use cribbager.Game.Start.{Options, new, target_of}
use cribbager.Game.History.{
  begun, IsFolded, Played-IsFolded, new-done-Inv, new-target, IsFolded-Grows,
}
use cribbager.Game.Kinds.{in_hand}
use cribbager.Game.Gains.{Inv-cards}
use cribbager.Bot.Defs.{Bot}
use cribbager.Bot.Production.{Production, new_bot, valid, default_name}
use cribbager.Server.Session.{Session}
use cribbager.Server.Drive.{DriveEnd, rested, driver_panics, drive_unfinished, drive_bots}
use cribbager.Server.Throws.{SeatsLawful, SeatLawful}
use cribbager.Server.Driving.{Rests, drive_bots-Rests}
use cribbager.Server.Registry.{max_sessions, set_session, add_session}
use cribbager.Server.Handlers.{Server, User, seat_identity, persist}
use cribbager.Server.Actions.{
  CreateRequest, handle_create, create_with, create_in, create_bot_game, create_driven, register,
  register_session, new_session, bot_mode, open_mode,
}
use cribbager.Server.Sound.{
  Lawful, SessionOk, RecordOk, record_of-Ok, set_session-All, save_record-All, length-set_session,
  new_bot-IsLawful,
}
use cribbager.Server.Acting.{ServerOk}
use cribbager.Server.Steps.{same_game-Ok}

register-Ok :
    (srv : Server) (s : Session) → ServerOk srv → SessionOk s → ServerOk (register_session srv s).0
unfolding register_session register add_session persist
register-Ok srv s o k = elim (Bool-cases (leb max_sessions (length srv.reg))) [
  | inl full ↦ rw full o
  | inr room ↦ rw room (record {
    sessions = set_session-All SessionOk srv.reg s o.sessions k;
    records = save_record-All RecordOk srv.store _ o.records (record_of-Ok s k);
    capped = fits room;
  })
]
  where
    fits : leb max_sessions (length srv.reg) ≡ false → length (set_session srv.reg s) ≤ max_sessions
    fits room = ground (arith, length-set_session srv.reg s)

bot_game-Ok :
    (made : Production) (fuel : ℕ) (srv : Server) (s : Session) (name : Text)
    → Lawful made
    → ServerOk srv
    → SessionOk s
    → SeatLawful s.bots.at0
    → 26 * s.game.target + 12 < fuel
    → ServerOk (create_bot_game made fuel srv s name).0
unfolding create_bot_game create_driven
bot_game-Ok made fuel srv s name l o k l0 enough = by_end (drive_bots fuel bots s.game) (
    drive_bots-Rests fuel bots s.game lawful k.inv
      (λ open_game. omega (arith, Inv-cards s.game k.inv open_game, enough)))
  where
    bots : Both (Option Bot)
    bots = put s.bots seat1 (some (new_bot made name))

    lawful : SeatsLawful bots
    lawful = (l0, new_bot-IsLawful made name l)

    by_end :
        (end : DriveEnd)
        → Rests bots s.game end
        → ServerOk (create_driven srv (record s { bots = bots }) end).0
    by_end (rested g) (inv, grown, w) =
        register-Ok srv (record s { bots = bots; game = g }) o
          (record {
            inv = inv;
            folded = IsFolded-Grows in_hand s.game g grown k.folded;
            lawful = lawful;
          })
    by_end driver_panics d = absurd d
    by_end drive_unfinished d = absurd d

create_in-Ok :
    (made : Production) (fuel : ℕ) (srv : Server) (s : Session) (req : CreateRequest)
    → Lawful made
    → ServerOk srv
    → SessionOk s
    → SeatLawful s.bots.at0
    → 26 * s.game.target + 12 < fuel
    → ServerOk (create_in made fuel srv s req).0
unfolding create_in
create_in-Ok made fuel srv s req l o k l0 enough =
    let name : Text = if text_eq req.bot [] then default_name else req.bot in
    elim (Bool-cases (text_eq req.mode bot_mode)) [
      | inl bot ↦ elim (Bool-cases (valid name)) [
        | inl known ↦ rw (bot, known) (bot_game-Ok made fuel srv s name l o k l0 enough)
        | inr unknown ↦ rw (bot, unknown) o
      ]
      | inr other ↦ elim (Bool-cases (text_eq req.mode open_mode)) [
        | inl open_game ↦
            rw (other, open_game)
              (register-Ok srv (record s { public = req.public }) o (same_game-Ok s _ refl refl k))
        | inr neither ↦ rw (other, neither) o
      ]
    ]

new_session-Ok :
    (id token : Text) (g : Game) (user : Option User) (typed : Text) (now : ℕ)
    → Inv g
    → IsFolded g
    → let s = new_session id token g user typed now in
      SessionOk s × (s.game ≡ g) × SeatLawful s.bots.at0
unfolding new_session seat_identity
new_session-Ok id token g none typed now v f =
    (record { inv = v; folded = f; lawful = (tt, tt) }, refl, tt)
new_session-Ok id token g (some u) typed now v f =
    (record { inv = v; folded = f; lawful = (tt, tt) }, refl, tt)

target_of-twice : (z : ℤ) → target_of (pos (target_of z)) ≡ target_of z
unfolding target_of
target_of-twice (pos zero) = refl
target_of-twice (pos (suc n)) = refl
target_of-twice (negsuc n) = refl

pub creates-Ok :
    (made : Production) (srv : Server) (cuts fuel : ℕ) (deck : DeckSource) (id token : Text)
    (req : CreateRequest) (user : Option User) (now : ℕ)
    → Lawful made
    → IsFair deck
    → 26 * target_of req.target + 12 < fuel
    → ServerOk srv
    → ServerOk (handle_create made cuts fuel srv deck id token req user now).0
unfolding handle_create create_with
creates-Ok made srv cuts fuel deck id token req user now l fair enough o =
    by_new (new cuts opts) refl
  where
    opts : Options
    opts = record { deck = deck; target_score = pos (target_of req.target); start = none }

    by_game :
        (g : Game)
        → new cuts opts ≡ some (done g)
        → ServerOk (create_in made fuel srv (new_session id token g user req.typed_name now) req).0
    by_game g e =
        let begins : Session = new_session id token g user req.typed_name now in
        let (k, same, l0) =
          new_session-Ok id token g user req.typed_name now (new-done-Inv cuts opts g fair e)
            (Played-IsFolded (begun cuts opts refl e)) in
        create_in-Ok made fuel srv begins req l o k l0 (
          omega (
            arith,
            enough,
            new-target cuts opts g e,
            target_of-twice req.target,
            ap (λ (h : Game). h.target) same,
          ))

    by_new :
        (m : Option (Outcome Game))
        → new cuts opts ≡ m
        → ServerOk (create_with made fuel srv m id token req user now).0
    by_new none e = o
    by_new (some (failed x g)) e = o
    by_new (some panicked) e = o
    by_new (some (done g)) e = by_game g e

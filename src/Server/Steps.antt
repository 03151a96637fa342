-- ===== src/Server/Steps.antt =====
-- The requests to internal/server as steps of the server, and those on a session that is there.
use cribbager.Common.{
  Text, ℕ, ◌+◌, ◌*◌, ◌<◌, ◌≡◌, refl, sym, subst, [], Option, none, some, arith, Bool-cases, inl,
  inr, text_eq, ◌||◌, not,
}
use cribbager.Game.Defs.{Seat, seat1, put}
use cribbager.Game.Engine.{DeckSource, is_none}
use cribbager.Game.Invariant.{Inv, IsFair}
use cribbager.Game.Start.{target_of}
use cribbager.Game.History.{IsFolded}
use cribbager.Bot.Production.{Production}
use cribbager.Server.Session.{Session, bump_roster, seat_for}
use cribbager.Server.Throws.{SeatsLawful}
use cribbager.Server.Registry.{find_session, put_session}
use cribbager.Server.Handlers.{
  Server, User, authed, authed_session, authed_seat, seat_identity, handle_snapshot, snapshot_as,
  handle_abandon, abandon_as, handle_join, join_session, ActionRequest, Answer, replied, refused,
  handler_panics, handler_unfinished,
}
use cribbager.Server.Actions.{CreateRequest, handle_action, handle_create, ActionResponse}
use cribbager.Server.Upkeep.{reap, restart, open_stream, close_stream}
use cribbager.Server.Sound.{SessionOk, find_session-All, put_session-All, length-put_session}
use cribbager.Server.Acting.{ServerOk, put_persist-Ok, Acts}

-- One request, or one act of upkeep, with real decks and fuel for the loops of the bots.
pub data Step (made : Production) : Server → Server → Type 0 where
  creates :
      (srv : Server) (cuts fuel : ℕ) (deck : DeckSource) (id token : Text) (req : CreateRequest)
      (user : Option User) (now : ℕ)
      → IsFair deck
      → 26 * target_of req.target + 12 < fuel
      → Step made srv (handle_create made cuts fuel srv deck id token req user now).0
  joins :
      (srv : Server) (id token : Text) (user : Option User) (typed : Text) (now : ℕ)
      → Step made srv (handle_join srv id token user typed now).0
  looks :
      (srv : Server) (id token : Text) (now : ℕ)
      → Step made srv (handle_snapshot srv id token now).0
  acts :
      (srv : Server) (fuel : ℕ) (id token : Text) (req : ActionRequest) (now : ℕ)
      → ((s : Session) → find_session srv.reg id ≡ some s → 26 * s.game.target + 12 < fuel)
      → Step made srv (handle_action fuel srv id token req now).0
  abandons :
      (srv : Server) (id token : Text) (now : ℕ) → Step made srv (handle_abandon srv id token now).0
  streams :
      (srv : Server) (id : Text) (s : Session) (seat : Seat)
      → find_session srv.reg id ≡ some s
      → Step made srv (open_stream srv s seat)
  hangs_up :
      (srv : Server) (id : Text) (s : Session) (key : ℕ) (seat : Seat)
      → find_session srv.reg id ≡ some s
      → Step made srv (close_stream srv s key seat)
  reaps : (srv : Server) (ttl now : ℕ) → Step made srv (reap ttl now srv)
  restarts :
      (srv : Server) (deck : DeckSource) → IsFair deck → Step made srv (restart made deck srv)

-- A session with the same game and the same bots.
pub same_game-Ok : (s t : Session) → t.game ≡ s.game → t.bots ≡ s.bots → SessionOk s → SessionOk t
same_game-Ok s t g b k = record {
  inv = subst Inv (sym g) k.inv;
  folded = subst IsFolded (sym g) k.folded;
  lawful = subst SeatsLawful (sym b) k.lawful;
}

identity-Ok :
    (s : Session) (seat : Seat) (user : Option User) (typed : Text)
    → SessionOk s
    → SessionOk (seat_identity s seat user typed)
unfolding seat_identity
identity-Ok s seat none typed k = same_game-Ok s _ refl refl k
identity-Ok s seat (some u) typed k = same_game-Ok s _ refl refl k

pub put-Ok :
    (srv : Server) (s : Session)
    → ServerOk srv
    → SessionOk s
    → ServerOk (record srv { reg = put_session srv.reg s })
put-Ok srv s o k = record {
  sessions = put_session-All SessionOk srv.reg s o.sessions k;
  records = o.records;
  capped = omega (arith, o.capped, length-put_session srv.reg s);
}

-- By the session of a request, where there is one.
found-Ok :
    (P : Option Session → Type 0) (srv : Server) (id : Text)
    → ServerOk srv
    → P none
    → ((s : Session) → SessionOk s → P (some s))
    → P (find_session srv.reg id)
found-Ok P srv id o no_session each = from (find_session srv.reg id) refl
  where
    from : (m : Option Session) → find_session srv.reg id ≡ m → P m
    from none e = no_session
    from (some s) e = each s (find_session-All SessionOk srv.reg id s o.sessions e)

pub joins-Ok :
    (srv : Server) (id token : Text) (user : Option User) (typed : Text) (now : ℕ)
    → ServerOk srv
    → ServerOk (handle_join srv id token user typed now).0
unfolding handle_join join_session bump_roster
joins-Ok srv id token user typed now o =
    found-Ok (λ m. ServerOk (join_session srv m token user typed now).0) srv id o o
      (λ s k. elim (Bool-cases (not (text_eq s.tokens.at1 []) || not (is_none s.bots.at1))) [
        | inl taken ↦ rw taken o
        | inr free ↦
            let named : Session =
              seat_identity (record s { tokens = put s.tokens seat1 token }) seat1 user typed in
            rw free (
              put_persist-Ok srv _ o (
                same_game-Ok named _ refl refl (
                  identity-Ok (record s { tokens = put s.tokens seat1 token }) seat1 user typed
                    (same_game-Ok s _ refl refl k))))
      ])

pub looks-Ok :
    (srv : Server) (id token : Text) (now : ℕ)
    → ServerOk srv
    → ServerOk (handle_snapshot srv id token now).0
unfolding handle_snapshot snapshot_as authed authed_session
looks-Ok srv id token now o =
    found-Ok (λ m. ServerOk (snapshot_as srv now (authed_session m token)).0) srv id o o
      (λ s k. by_seat s k (seat_for s token))
  where
    by_seat :
        (s : Session)
        → SessionOk s
        → (o : Option Seat) → ServerOk (snapshot_as srv now (authed_seat s o)).0
    by_seat s k none = o
    by_seat s k (some seat) = put-Ok srv _ o (same_game-Ok s _ refl refl k)

pub abandons-Ok :
    (srv : Server) (id token : Text) (now : ℕ)
    → ServerOk srv
    → ServerOk (handle_abandon srv id token now).0
unfolding handle_abandon abandon_as authed authed_session bump_roster
abandons-Ok srv id token now o =
    found-Ok (λ m. ServerOk (abandon_as srv now (authed_session m token)).0) srv id o o
      (λ s k. by_seat s k (seat_for s token))
  where
    by_seat :
        (s : Session)
        → SessionOk s
        → (o : Option Seat) → ServerOk (abandon_as srv now (authed_seat s o)).0
    by_seat s k none = o
    by_seat s k (some seat) = put_persist-Ok srv _ o (same_game-Ok s _ refl refl k)

pub Acts-Ok :
    (srv : Server) (id token : Text) (req : ActionRequest) (now : ℕ)
    (p : Server × Answer ActionResponse)
    → ServerOk srv
    → Acts srv id token req now p
    → ServerOk p.0
Acts-Ok srv id token req now (srv', replied status r) o h = h.1
Acts-Ok srv id token req now (srv', refused status) o h = subst ServerOk (sym h) o
Acts-Ok srv id token req now (srv', handler_panics) o h = absurd h
Acts-Ok srv id token req now (srv', handler_unfinished) o h = absurd h

-- ===== src/Server/Access.antt =====
-- Who sees a finished game of internal/server, by `finishedGameSubject` of analysis2.go.
use cribbager.Common.{
  Text, text_eq, ℕ, ◌≡◌, refl, ap, sym, true, false, not, [], Option, none, some, arith, Bool-cases,
  inl, inr, ◌∙◌,
}
use cribbager.Game.Defs.{Seat, Both}
use cribbager.Game.Engine.{is_none}
use cribbager.Bot.Defs.{Bot}
use cribbager.Server.Results.{Result, result_by_id, involves}
use cribbager.Server.Session.{Session, seat_for}
use cribbager.Server.Registry.{find_session}
use cribbager.Server.Handlers.{Server, replied, User}
use cribbager.Server.Actions.{result_of, bot_info}
use cribbager.Server.Finished.{
  Subject, subject, denied, participant_game_from_result, live_game, seat_of_player, stored_game,
  by_login, by_seat, by_session, finished_game_subject, replay_response_for, replayed,
  handle_game_replay_v2,
}

-- The token opens no seat of the session, if there is one.
abbrev pub Outside : Option Session → Text → Type 0
Outside none token = Unit
Outside (some s) token = seat_for s token ≡ none

-- The user has no seat in the stored game, if there is one.
abbrev pub Stranger : Option Result → Option User → Type 0
Stranger none user = Unit
Stranger (some r) none = Unit
Stranger (some r) (some (player, display)) = involves r player ≡ false

by_session-Outside :
    (o : Option Session) (token : Text) (otherwise : Subject)
    → Outside o token
    → by_session o token otherwise ≡ otherwise
by_session-Outside none token otherwise h = refl
by_session-Outside (some s) token otherwise h = ap (λ o. by_seat s o otherwise) h

stored_game-Stranger :
    (o : Option Result) (player display : Text)
    → Stranger o (some (player, display))
    → stored_game o player ≡ denied 404
stored_game-Stranger none player display h = refl
stored_game-Stranger (some r) player display h = rw h refl

by_login-Stranger :
    (srv : Server) (id token : Text) (user : Option User)
    → Stranger (result_by_id srv.results id) user
    → by_login srv id token user ≡ by_login (record srv { reg = []; results = [] }) id token user
unfolding by_login result_by_id
by_login-Stranger srv id token none h = refl
by_login-Stranger srv id token (some (player, display)) h =
    stored_game-Stranger (result_by_id srv.results id) player display h

-- A request whose token opens no seat of the session with that id, and whose user, if one is logged
-- in, has no seat in the stored game with that id, is answered as by a server that has no games.
pub finished_game_subject-hides :
    (srv : Server) (id token : Text) (user : Option User)
    → Outside (find_session srv.reg id) token
    → Stranger (result_by_id srv.results id) user
    → finished_game_subject srv id token user
      ≡ finished_game_subject (record srv { reg = []; results = [] }) id token user
unfolding finished_game_subject find_session
finished_game_subject-hides srv id token user out strange =
    let same = by_login-Stranger srv id token user strange in
    elim (Bool-cases (text_eq token [])) [
      | inl e ↦ rw e same
      | inr e ↦ rw e (
          by_session-Outside (find_session srv.reg id) token (by_login srv id token user) out
          ∙ same)
    ]

-- A bot has a name, if there is one.
abbrev pub Named : Option Bot → Type 0
Named none = Unit
Named (some b) = text_eq b.name [] ≡ false

bot_info-seated : (o : Option Bot) → Named o → not (text_eq (bot_info o).name []) ≡ not (is_none o)
unfolding bot_info text_eq
bot_info-seated none h = refl
bot_info-seated (some b) h = rw h refl

both_eq :
    {A : Type 0} {a b c d : A}
    → a ≡ b
    → c ≡ d
    → ◌≡◌ {A = Both A} (record { at0 = a; at1 = c }) (record { at0 = b; at1 = d })
both_eq p q = cc

-- The stored result of a finished session projects to what the live session shows.
stored_as_live :
    (s : Session) (winner seat seat' : Seat) (id : Text) (now : ℕ)
    → Named s.bots.at0
    → Named s.bots.at1
    → replayed id (live_game s seat' (some winner))
      ≡ replied 200
          (replay_response_for id (participant_game_from_result (result_of s winner now) seat))
unfolding live_game replay_response_for participant_game_from_result result_of
stored_as_live s winner seat seat' id now h0 h1 =
    cc (bot_info-seated s.bots.at0 h0, bot_info-seated s.bots.at1 h1)

seat_for-token :
    (s : Session) (token : Text) (seat : Seat)
    → seat_for s token ≡ some seat
    → text_eq token [] ≡ false
unfolding seat_for
seat_for-token s token seat h = ground arith

-- A finished game whose session is live and whose result is stored, with named bots: the replay that
-- a seat's token opens is the replay that the login of a player of the game opens.
pub handle_game_replay_v2-same :
    (srv : Server) (id token player display : Text) (s : Session) (seat winner : Seat) (now : ℕ)
    → find_session srv.reg id ≡ some s
    → seat_for s token ≡ some seat
    → s.game.winner ≡ some winner
    → result_by_id srv.results id ≡ some (result_of s winner now)
    → involves (result_of s winner now) player ≡ true
    → Named s.bots.at0
    → Named s.bots.at1
    → handle_game_replay_v2 srv id token none
      ≡ handle_game_replay_v2 srv id [] (some (player, display))
unfolding handle_game_replay_v2 finished_game_subject by_login text_eq
handle_game_replay_v2-same srv id token player display s seat winner now live held won stored own h0
      h1 =
    ap (replayed id) by_token
    ∙ stored_as_live s winner (seat_of_player (result_of s winner now) player) seat id now h0 h1
    ∙ sym (ap (replayed id) by_player)
  where
    by_token : finished_game_subject srv id token none ≡ live_game s seat (some winner)
    by_token = rw (seat_for-token s token seat held) (
        ap (λ o. by_session o token (denied 404)) live
        ∙ ap (λ o. by_seat s o (denied 404)) held
        ∙ ap (live_game s seat) won)

    by_player :
        finished_game_subject srv id [] (some (player, display))
        ≡ subject (
            participant_game_from_result
              (result_of s winner now)
              (seat_of_player (result_of s winner now) player))
    by_player = ap (λ o. stored_game o player) stored ∙ rw own refl

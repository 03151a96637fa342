-- ===== src/Tests/Servers.antt =====
-- Witnesses on the server: the match of Tests/Matches against a random bot, and the accounts.
use cribbager.Common.{
  Text, text_eq, ℕ, ◌+◌, ◌≡◌, refl, ap, true, false, List, [], ◌∷◌, Option, none, some, arith, map,
}
use cribbager.Common.Int.{pos}
use cribbager.Game.Defs.{both, seat0, seat1, Event, pass, hand_dealt, discarded}
use cribbager.Game.Start.{target_of}
use cribbager.Game.History.{Played-IsFolded}
use cribbager.Bot.Production.{Production}
use cribbager.Server.Wire.{project_events, project_replay_events}
use cribbager.Server.Redaction.{
  deals, throws, no_events, alike_then, redact, project_events-Alike, project_events-redact,
}
use cribbager.Server.Stream.{run_stream, logs_from, run_stream-once}
use cribbager.Server.Session.{Session}
use cribbager.Server.Registry.{find_session}
use cribbager.Server.Handlers.{Server, ActionRequest, discard_text, Answer, replied}
use cribbager.Server.Actions.{CreateRequest, handle_action, handle_create, open_mode}
use cribbager.Server.Sound.{Lawful}
use cribbager.Server.Acting.{ServerOk, Acts, handle_action-Acts}
use cribbager.Server.Steps.{creates}
use cribbager.Server.Trace.{booted, stepped, Reached-Ok}
use cribbager.Server.RateLimit.{RateLimiter}
use cribbager.Server.Auth.Store.{empty_store, create_user, taken, reset_token_by_id}
use cribbager.Server.Auth.Requests.{
  Library, AuthState, Request, SignupBody, ResetBody, LoggedIn, session_ttl, start_session,
  valid_username, valid_email, username_bytes, has_space, index_byte, last_index_byte,
}
use cribbager.Server.Auth.Handlers.{
  sign_up, handle_signup, reset_password, with_hash, created, consumed, reset_with,
}
use cribbager.Server.Auth.Apart.{Apart}
use cribbager.Server.Auth.Accounts.{signs_up, opened, went, AuthReached-Apart}
use cribbager.Server.Auth.Resets.{ResetDone, reset_password-ResetDone}
use cribbager.Server.Auth.Logins.{KnownUntil, sign_up-Known}
use cribbager.Tests.Matches.{card, dealt, dealt-Played, turned, turned-IsFair}
use cribbager.Tests.Bots.{dealt-Inv, dealt_target, lazy, lazy-IsLawful, one_bot}

-- Two deals that seat 0 cannot tell apart, and seat 1's discards in each.
abbrev deal_a : List Event
deal_a =
    hand_dealt seat0 (record { at0 = card 1 0 ∷ []; at1 = card 5 0 ∷ card 6 0 ∷ [] })
    ∷ discarded seat1 (card 5 0) (card 6 0)
    ∷ []

abbrev deal_b : List Event
deal_b =
    hand_dealt seat0 (record { at0 = card 1 0 ∷ []; at1 = card 9 0 ∷ card 9 1 ∷ [] })
    ∷ discarded seat1 (card 9 0) (card 9 1)
    ∷ []

project_events-Alike_example : project_events seat0 deal_a 3 ≡ project_events seat0 deal_b 3
project_events-Alike_example =
    project_events-Alike seat0 deal_a deal_b 3
      (alike_then (deals refl refl) (alike_then (throws refl) no_events))

project_events-redact_example :
    project_events seat0 deal_a 3 ≡ map (redact seat0) (project_replay_events deal_a 3)
project_events-redact_example = project_events-redact seat0 deal_a 3

-- A client that has seen the deal, then nothing new, then two passes.
run_stream-once_example :
    run_stream seat0 2 (logs_from deal_a ([] ∷ (pass seat0 ∷ pass seat1 ∷ []) ∷ []))
    ≡ project_events seat0 (pass seat0 ∷ pass seat1 ∷ []) 2
run_stream-once_example = run_stream-once seat0 deal_a ([] ∷ (pass seat0 ∷ pass seat1 ∷ []) ∷ [])

abbrev secret : Text
secret = 115 ∷ []

abbrev against_bot : Session
against_bot = record {
  id = 103 ∷ [];
  game = dealt;
  tokens = record { at0 = secret; at1 = [] };
  bots = one_bot;
  names = both [];
  player_ids = both [];
  public = false;
  created_at = 0;
  last_seen = 0;
  subs = [];
  next_id = 0;
  sub_count = both 0;
  left = both false;
  roster_ver = 0;
}

abbrev serving : Server
serving = record { reg = against_bot ∷ []; subscribers = 0; store = []; results = [] }

serving-Ok : ServerOk serving
serving-Ok = record {
  sessions = (
    record { inv = dealt-Inv; folded = Played-IsFolded dealt-Played; lawful = (tt, lazy-IsLawful) },
    tt,
  );
  records = tt;
  capped = omega arith;
}

abbrev throw_two : ActionRequest
throw_two = record {
  type = discard_text;
  cards = card 1 0 ∷ card 1 2 ∷ [];
  card = none;
  expected_version = none;
}

target_in : Option Session → ℕ
target_in none = 0
target_in (some s) = s.game.target

handle_action-Acts_example :
    Acts serving
      (103 ∷ [])
      secret
      throw_two
      5
      (handle_action 3159 serving (103 ∷ []) secret throw_two 5)
unfolding find_session text_eq target_in
handle_action-Acts_example =
    handle_action-Acts 3159 serving (103 ∷ []) secret throw_two 5 serving-Ok
      (λ s found. omega (arith, dealt_target, ap (λ (o : Option Session). target_in o) found))

abbrev made : Production
made = record { random = lazy; champion = lazy; ml = lazy }

made-Lawful : Lawful made
made-Lawful = record {
  random_ok = lazy-IsLawful;
  champion_ok = lazy-IsLawful;
  ml_ok = lazy-IsLawful;
}

abbrev public_game : CreateRequest
public_game = record { mode = open_mode; target = pos 61; typed_name = []; bot = []; public = true }

abbrev nobody : Server
nobody = record { reg = []; subscribers = 0; store = []; results = [] }

Reached-Ok_example :
    ServerOk (handle_create made 1 1599 nobody turned (103 ∷ []) secret public_game none 0).0
Reached-Ok_example = Reached-Ok made-Lawful (
    stepped booted (
      creates nobody 1 1599 turned (103 ∷ []) secret public_game none 0 turned-IsFair
        (unfold target_of in omega arith)))

-- A library without trimming and hashing.
abbrev plain_library : Library
plain_library = record {
  trim = λ t. t;
  lower = λ t. t;
  fold_eq = text_eq;
  hash_password = λ p. some p;
  check_password = text_eq;
}

text_eq_comm : (s t : Text) → text_eq s t ≡ text_eq t s
unfolding text_eq
text_eq_comm [] [] = refl
text_eq_comm [] (b ∷ t) = refl
text_eq_comm (a ∷ s) [] = refl
text_eq_comm (a ∷ s) (b ∷ t) = ground (arith, text_eq_comm s t)

abbrev limiter : RateLimiter Text
limiter = record { max_hits = 10; window = 60; hits = λ k. none }

abbrev no_accounts : AuthState
no_accounts = record { store = empty_store; login_limiter = limiter; auth_limiter = limiter }

-- "ann", "a@b.c" and eight bytes.
abbrev ann : SignupBody
ann = record {
  username = 97 ∷ 110 ∷ 110 ∷ [];
  email = 97 ∷ 64 ∷ 98 ∷ 46 ∷ 99 ∷ [];
  password = 1 ∷ 2 ∷ 3 ∷ 4 ∷ 5 ∷ 6 ∷ 7 ∷ 8 ∷ [];
  display_name = [];
}

abbrev ann_request : Request SignupBody
ann_request = record { same_origin = true; client_ip = []; now = 5; body = some ann }

AuthReached-Apart_example :
    Apart text_eq
      (handle_signup plain_library no_accounts ann_request (117 ∷ []) secret).0.store.users
AuthReached-Apart_example =
    AuthReached-Apart plain_library text_eq_comm
      (went (opened limiter limiter) (signs_up no_accounts ann_request (117 ∷ []) secret))

-- Ann signs up, and a token resets her password.
signed_up : AuthState
signed_up = (sign_up plain_library 5 (117 ∷ []) secret no_accounts ann).0

answer_of : Answer LoggedIn → LoggedIn
answer_of (replied status r) = r
answer_of a = record {
  cookie = [];
  user = record { id = []; username = []; email = []; display_name = [] };
}

signed_up_lem : sign_up plain_library 5 (117 ∷ []) secret no_accounts ann ≡ (
  signed_up,
  replied 201 (answer_of (sign_up plain_library 5 (117 ∷ []) secret no_accounts ann).1),
)
unfolding signed_up answer_of sign_up valid_username valid_email with_hash created create_user taken
    start_session username_bytes has_space index_byte last_index_byte
signed_up_lem = refl

sign_up-Known_example :
    KnownUntil
      (5 + session_ttl)
      signed_up
      (answer_of (sign_up plain_library 5 (117 ∷ []) secret no_accounts ann).1)
unfolding text_eq
sign_up-Known_example =
    sign_up-Known plain_library 5 (117 ∷ []) secret no_accounts signed_up ann
      (answer_of (sign_up plain_library 5 (117 ∷ []) secret no_accounts ann).1) refl signed_up_lem

abbrev mailed : AuthState
mailed = record no_accounts {
  store = record empty_store {
    resets = record { id = 116 ∷ []; user_id = 117 ∷ []; expires_at = 100 } ∷ [];
  };
}

abbrev new_pass : ResetBody
new_pass = record { token = 116 ∷ []; password = 1 ∷ 2 ∷ 3 ∷ 4 ∷ 5 ∷ 6 ∷ 7 ∷ 8 ∷ [] }

after_reset : AuthState
after_reset = (reset_password plain_library 7 mailed new_pass).0

after_reset_lem : reset_password plain_library 7 mailed new_pass ≡ (after_reset, replied 204 tt)
unfolding after_reset reset_password consumed reset_with reset_token_by_id text_eq
after_reset_lem = refl

reset_password-ResetDone_example : ResetDone plain_library 7 mailed after_reset new_pass
reset_password-ResetDone_example =
    reset_password-ResetDone plain_library 7 mailed after_reset new_pass after_reset_lem

-- ===== src/Server/Session.antt =====
-- internal/server/session.go: a session, its subscribers, its record, and the bots' moves. A
-- channel of capacity one is whether a wake-up waits in it; a time is a number.
use cribbager.Common.{
  Text, text_eq, ℕ, ◌+◌, ◌-◌, Bool, true, false, ◌&&◌, ◌||◌, not, List, [], ◌∷◌, Option, none, some,
  length, ltb, ◌==◌, if◌then◌else◌,
}
use cribbager.Game.Defs.{Seat, seat0, seat1, Both, pick, put, both}
use cribbager.Game.Engine.{DeckSource, Game, is_none}
use cribbager.Game.Snapshot.{GameState, snapshot, restore}
use cribbager.Bot.Defs.{Bot}
use cribbager.Bot.Production.{Production, champion_name, new_bot}
use cribbager.Server.Wire.{PlayerInfo}

pub record Subscriber : Type 0 where
  pub key : ℕ
  pub woken : Bool

pub record Session : Type 0 where
  pub id : Text
  pub game : Game
  pub tokens : Both Text
  pub bots : Both (Option Bot)
  pub names : Both Text
  pub player_ids : Both Text
  pub public : Bool
  pub created_at : ℕ
  pub last_seen : ℕ
  pub subs : List Subscriber
  pub next_id : ℕ
  pub sub_count : Both ℕ
  pub left : Both Bool
  pub roster_ver : ℕ

-- A seat's token is one that is set and the one given.
unfoldable pub holds : Text → Text → Bool
holds held token = not (text_eq held []) && text_eq held token

-- `seatFor`: the last seat that matches.
unfoldable pub seat_for : Session → Text → Option Seat
unfolding holds
seat_for s token =
    if text_eq token []
    then none
    else if holds s.tokens.at1 token
    then some seat1
    else if holds s.tokens.at0 token
    then some seat0
    else none

-- `notify`: a wake-up in every channel.
unfoldable pub wake_all : List Subscriber → List Subscriber
wake_all [] = []
wake_all (c ∷ cs) = record { key = c.key; woken = true } ∷ wake_all cs

unfoldable pub notify : Session → Session
unfolding wake_all
notify s = record s { subs = wake_all s.subs }

unfoldable pub bump_roster : Session → Session
unfolding notify
bump_roster s = notify (record s { roster_ver = s.roster_ver + 1 })

-- `subscribe`, with the server-wide gauge: the new session and gauge, and the id.
unfoldable pub subscribe : Session → Seat → ℕ → Session × ℕ × ℕ
unfolding bump_roster
subscribe s seat gauge =
    let joined : Session = record s {
      next_id = s.next_id + 1;
      subs = record { key = s.next_id; woken = false } ∷ s.subs;
      sub_count = put s.sub_count seat (pick s.sub_count seat + 1);
    } in
    (if pick joined.sub_count seat == 1 then bump_roster joined else joined, gauge + 1, s.next_id)

unfoldable pub delete_sub : List Subscriber → ℕ → List Subscriber
delete_sub [] key = []
delete_sub (c ∷ cs) key = if c.key == key then delete_sub cs key else c ∷ delete_sub cs key

-- `unsubscribe`; the gauge goes down by one, and stands above 0 while anyone is subscribed.
unfoldable pub unsubscribe : Session → ℕ → Seat → ℕ → Session × ℕ
unfolding delete_sub bump_roster
unsubscribe s key seat gauge =
    let gone : Session = record s { subs = delete_sub s.subs key } in
    let fewer : Session = record gone {
      sub_count = put s.sub_count seat (pick s.sub_count seat - 1);
    } in
    (
      if ltb 0 (pick s.sub_count seat)
          then (if pick fewer.sub_count seat == 0 then bump_roster fewer else fewer)
          else gone,
      gauge - 1,
    )

-- "Anonymous".
abbrev pub anonymous : Text
anonymous = 65 ∷ 110 ∷ 111 ∷ 110 ∷ 121 ∷ 109 ∷ 111 ∷ 117 ∷ 115 ∷ []

unfoldable pub player_info : Session → Seat → PlayerInfo Text
player_info s seat =
    let is_bot : Bool = not (is_none (pick s.bots seat)) in
    let seated : Bool = not (text_eq (pick s.tokens seat) []) || is_bot in
    record {
      seat = seat;
      name = if text_eq (pick s.names seat) [] && seated then anonymous else pick s.names seat;
      connected = ltb 0 (pick s.sub_count seat) || is_bot;
      left = pick s.left seat;
    }

unfoldable pub roster : Session → List (PlayerInfo Text)
unfolding player_info
roster s = player_info s seat0 ∷ player_info s seat1 ∷ []

unfoldable pub has_subscribers : Session → Bool
has_subscribers s = ltb 0 (length s.subs)

unfoldable pub joinable_lobby : Session → Bool
joinable_lobby s =
    if not s.public
    then false
    else if not (is_none s.bots.at0) || not (is_none s.bots.at1)
    then false
    else if not (text_eq s.tokens.at1 [])
    then false
    else if s.left.at0 || s.left.at1
    then false
    else is_none s.game.winner

unfoldable pub bot_name : Option Bot → Text
bot_name none = []
bot_name (some b) = b.name

-- `Record` of store.go.
pub record Record : Type 0 where
  pub id : Text
  pub game : GameState
  pub tokens : Both Text
  pub names : Both Text
  pub player_ids : Both Text
  pub left : Both Bool
  pub bots : Both Bool
  pub bot_names : Both Text
  pub public : Bool
  pub created_at : ℕ
  pub last_seen : ℕ

unfoldable pub record_of : Session → Record
unfolding bot_name
record_of s = record {
  id = s.id;
  game = snapshot s.game;
  tokens = s.tokens;
  names = s.names;
  player_ids = s.player_ids;
  left = s.left;
  bots = record { at0 = not (is_none s.bots.at0); at1 = not (is_none s.bots.at1) };
  bot_names = record { at0 = bot_name s.bots.at0; at1 = bot_name s.bots.at1 };
  public = s.public;
  created_at = s.created_at;
  last_seen = s.last_seen;
}

-- The bot of a seat: the champion where a row has no name.
unfoldable pub seat_bot : Production → Bool → Text → Option Bot
seat_bot made false name = none
seat_bot made true name = some (new_bot made (if text_eq name [] then champion_name else name))

unfoldable pub session_from_record : Production → DeckSource → Record → Session
unfolding seat_bot
session_from_record made crypto_deck r = record {
  id = r.id;
  game = restore r.game crypto_deck;
  tokens = r.tokens;
  bots = record {
    at0 = seat_bot made r.bots.at0 r.bot_names.at0;
    at1 = seat_bot made r.bots.at1 r.bot_names.at1;
  };
  names = r.names;
  player_ids = r.player_ids;
  public = r.public;
  created_at = r.created_at;
  last_seen = r.last_seen;
  subs = [];
  next_id = 0;
  sub_count = both 0;
  left = r.left;
  roster_ver = 0;
}

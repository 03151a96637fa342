-- ===== src/Tests/Finished.antt =====
-- Witnesses on finished games, the comparison of bots and the unseen cards.
use cribbager.Common.{
  text_eq, ℕ, ◌+◌, ◌≡◌, refl, Bool, true, false, Fallible, err, List, [], ◌∷◌, none, some, arith,
  All, ok, max,
}
use cribbager.Common.Int.{pos}
use cribbager.Common.Sorting.{count}
use cribbager.Cribbage.Defs.{deck, ranks_from, suits_from, rank_valid, suit_valid}
use cribbager.Cribbage.Occurrences.{occ}
use cribbager.Game.Defs.{seat0, seat1, both, phase_complete}
use cribbager.Game.State.{zero_state, reduce}
use cribbager.Game.Engine.{Game, deal_hand, deal_deck, take_deal, deal_cards, emit}
use cribbager.Game.Start.{new, begin, blank, start_at, start_score, target_of}
use cribbager.Game.View.{view}
use cribbager.Bot.Defs.{
  MatchResult, MatchEnd, finished, match_error, match_panics, unfinished, play_game,
}
use cribbager.Bot.Compare.{Tally, PlayOn, compare}
use cribbager.Bot.Paired.{EndsAlike, compare_self}
use cribbager.Bot.Unseen.{unseen, hidden, occ-unseen-hidden}
use cribbager.Server.Results.{Result, result_by_id, involves}
use cribbager.Server.Session.{Session, seat_for, holds}
use cribbager.Server.Registry.{find_session}
use cribbager.Server.Handlers.{Server, replied}
use cribbager.Server.Actions.{result_of}
use cribbager.Server.Finished.{finished_game_subject, handle_game_replay_v2}
use cribbager.Server.Access.{finished_game_subject-hides, handle_game_replay_v2-same}
use cribbager.Server.History.{UserGames, GameSummary, handle_user_games}
use cribbager.Server.Ledger.{NewestFirst, played_as, handle_user_games-Agrees}
use cribbager.Tests.Matches.{turned, turned-IsFair, card, dealt, new_of, plain}
use cribbager.Tests.Bots.{dealt-Inv, lazy, lazy-IsLawful, turned-Differs}
use cribbager.Bot.Match.{Decides}
use cribbager.Bot.Games.{play_game-Decides}
use cribbager.Game.Invariant.{everywhere}

-- A finished game between two players, 1 and 2, live and stored.
abbrev over : Game
over = record (blank 121 plain) {
  state = record zero_state { winner = some seat1; phase = phase_complete };
}

abbrev live : Session
live = record {
  id = 7 ∷ [];
  game = over;
  tokens = record { at0 = 5 ∷ []; at1 = 6 ∷ [] };
  bots = both none;
  names = both [];
  player_ids = record { at0 = 1 ∷ []; at1 = 2 ∷ [] };
  public = false;
  created_at = 0;
  last_seen = 0;
  subs = [];
  next_id = 0;
  sub_count = both 0;
  left = both false;
  roster_ver = 0;
}

abbrev stored : List Result
stored = result_of live seat1 9 ∷ []

abbrev ended : Server
ended = record { reg = live ∷ []; subscribers = 0; store = []; results = stored }

-- The player 3 with a token of another game.
finished_game_subject-hides_example :
    finished_game_subject ended (7 ∷ []) (8 ∷ []) (some (3 ∷ [], []))
    ≡ finished_game_subject
        (record ended { reg = []; results = [] })
        (7 ∷ [])
        (8 ∷ [])
        (some (3 ∷ [], []))
unfolding find_session seat_for holds text_eq result_by_id involves result_of
finished_game_subject-hides_example =
    finished_game_subject-hides ended (7 ∷ []) (8 ∷ []) (some (3 ∷ [], [])) refl refl

handle_game_replay_v2-same_example :
    handle_game_replay_v2 ended (7 ∷ []) (5 ∷ []) none
    ≡ handle_game_replay_v2 ended (7 ∷ []) [] (some (2 ∷ [], []))
unfolding find_session seat_for holds text_eq result_by_id involves result_of blank
handle_game_replay_v2-same_example =
    handle_game_replay_v2-same ended (7 ∷ []) (5 ∷ []) (2 ∷ []) [] live seat0 seat1 9 refl refl refl
      refl refl tt tt

-- Player 1 has lost the stored game from seat 0.
handle_user_games-Agrees_example :
    (u : UserGames) × (handle_user_games stored (some (1 ∷ [], [])) ≡ replied 200 u)
    × ((p : GameSummary → Bool) → count p u.games ≡ played_as p (1 ∷ []) stored)
    × NewestFirst u.games
    × (u.total ≡ played_as (λ g. true) (1 ∷ []) stored)
    × (u.wins ≡ played_as (λ g. g.won) (1 ∷ []) stored)
    × (u.wins + u.losses ≡ u.total)
unfolding text_eq result_of
handle_user_games-Agrees_example =
    handle_user_games-Agrees stored (1 ∷ []) [] refl (refl, tt) (omega arith)

-- The match runner on one order of the cards for every seed; the bots remember nothing.
result_of_match : MatchEnd → Fallible ℕ MatchResult
result_of_match (finished r g) = ok r
result_of_match _ = err 0

abbrev runner : PlayOn Bool ℕ
runner w a b ds = (w, result_of_match (play_game 1 3159 (record { at0 = a; at1 = b }) turned))

decided_match : (m : MatchEnd) → Decides 121 m → (r : MatchResult) × (result_of_match m ≡ ok r)
unfolding result_of_match
decided_match (finished r g) h = (r, refl)
decided_match (match_error e) h = absurd h
decided_match match_panics h = absurd h
decided_match unfinished h = absurd h

runner-EndsAlike : EndsAlike runner lazy
runner-EndsAlike ds =
    let (r, e) = decided_match (play_game 1 3159 (both lazy) turned) (
      play_game-Decides 1 0 3159 (both lazy) turned (lazy-IsLawful, lazy-IsLawful) turned-IsFair
        turned-Differs (omega arith) (omega arith)) in
    (r, λ w. e)

compare_self_example :
    (t : Tally) × (compare runner lazy lazy 3 42 true ≡ ok t)
    × (t.split ≡ max 3 1)
    × (t.a_points ≡ t.b_points)
    × All (λ m. m ≡ pos 0) t.margins
    × All (λ m. m ≡ pos 0) t.win_diffs
compare_self_example = compare_self runner lazy 3 42 true runner-EndsAlike

-- The last king of the deck is in the stock of the deal.
last_once : everywhere (card 13 3) dealt ≡ 1
unfolding dealt new_of new begin blank start_at start_score target_of deal_hand deal_deck take_deal
    deal_cards deck ranks_from suits_from emit reduce
last_once = refl

occ-unseen-hidden_example :
    occ (card 13 3) (unseen (view dealt seat0)) ≡ hidden (card 13 3) dealt seat0
unfolding rank_valid suit_valid
occ-unseen-hidden_example = occ-unseen-hidden dealt seat0 (card 13 3) dealt-Inv refl last_once

-- ===== src/Server/History.antt =====
-- A player's finished games on internal/server: the list of result.go and the handler of
-- result_handlers.go, and the retries of a save. A time is a number.
use cribbager.Common.{
  Text, text_eq, ℕ, zero, suc, ◌+◌, ◌-◌, ◌*◌, Bool, false, not, ◌&&◌, List, [], ◌∷◌, Option, none,
  some, if◌then◌else◌, ltb, map, take, length,
}
use cribbager.Common.Sort.{sort}
use cribbager.Game.Defs.{Seat, seat0, seat1, seat_eq, other, pick}
use cribbager.Server.Results.{Result, involves, player_stats}
use cribbager.Server.Handlers.{Answer, replied, refused, User}

-- `r.Events = nil`, for the player's results.
unfoldable pub player_results : List Result → Text → List Result
unfolding involves
player_results [] player = []
player_results (r ∷ rs) player =
    if involves r player
    then record r { events = [] } ∷ player_results rs player
    else player_results rs player

-- `out[i].EndedAt.After(out[j].EndedAt)`
abbrev pub ended_after : Result → Result → Bool
ended_after a b = ltb b.ended_at a.ended_at

-- `ResultsForPlayer`; games that ended at one time stand in the order of the store, which the source
-- leaves open.
unfoldable pub results_for_player : List Result → Text → ℕ → List Result
unfolding player_results
results_for_player store player limit =
    let out = sort ended_after (player_results store player) in
    if ltb 0 limit && ltb limit (length out) then take limit out else out

pub record GameSummary : Type 0 where
  pub id : Text
  pub opponent : Text
  pub your_score : ℕ
  pub opponent_score : ℕ
  pub won : Bool
  pub ended_at : ℕ

-- `summarize`
unfoldable pub summarize : Text → Result → GameSummary
summarize player r =
    let me : Seat = if not (text_eq r.player_ids.at0 player) then seat1 else seat0 in
    record {
      id = r.id;
      opponent = pick r.names (other me);
      your_score = pick r.scores me;
      opponent_score = pick r.scores (other me);
      won = seat_eq r.winner me;
      ended_at = r.ended_at;
    }

pub record UserGames : Type 0 where
  pub games : List GameSummary
  pub total : ℕ
  pub wins : ℕ
  pub losses : ℕ

-- `handleUserGames`, with the store in memory, which reports no errors.
unfoldable pub handle_user_games : List Result → Option User → Answer UserGames
unfolding results_for_player player_stats summarize
handle_user_games store none = refused 401
handle_user_games store (some (player, display)) =
    let (total, wins) = player_stats store player in
    replied 200 (record {
      games = map (summarize player) (results_for_player store player 50);
      total = total;
      wins = wins;
      losses = total - wins;
    })

-- `saveResultRetrying`: whether each attempt from the given one on fails, the rounds that are left, the
-- milliseconds slept between attempts; the result is whether the last attempt failed.
unfoldable pub save_attempts : (ℕ → Bool) → ℕ → ℕ → Bool × List ℕ
save_attempts fails attempt zero = (false, [])
save_attempts fails attempt (suc zero) = (fails attempt, [])
save_attempts fails attempt (suc (suc left)) =
    let rest = save_attempts fails (attempt + 1) (suc left) in
    if fails attempt then (rest.0, (attempt * 100) ∷ rest.1) else (false, [])

unfoldable pub save_result_retrying : (ℕ → Bool) → Bool × List ℕ
unfolding save_attempts
save_result_retrying fails = save_attempts fails 1 5

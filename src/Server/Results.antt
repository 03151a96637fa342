-- ===== src/Server/Results.antt =====
-- internal/server/result.go: finished games and their in-memory store. A text is the list of its
-- bytes, a time is a number; the map keyed by id is an association list without repeated ids, whose
-- order stands for the map's unspecified one.
use cribbager.Common.{
  Text, text_eq, text_eq-eq, ℕ, ◌+◌, ◌≤◌, ◌≡◌, refl, Bool, false, ◌&&◌, ◌||◌, not, List, [], ◌∷◌,
  ◌++◌, Option, none, some, if◌then◌else◌, arith, Bool-cases, inl, inr, Option-cases, subst, length,
}
use cribbager.Game.Defs.{Seat, Both, pick, Event}

pub record BotInfo : Type 0 where
  pub name : Text
  pub version : Text

pub record Result : Type 0 where
  pub id : Text
  pub player_ids : Both Text
  pub names : Both Text
  pub scores : Both ℕ
  pub winner : Seat
  pub events : List Event
  pub ended_at : ℕ
  pub engine_version : Text
  pub bots : Both BotInfo

-- `ResultByID`
unfoldable pub result_by_id : List Result → Text → Option Result
result_by_id [] id = none
result_by_id (r ∷ rs) id = if text_eq r.id id then some r else result_by_id rs id

-- `SaveResult`, by what the map holds under the id.
unfoldable pub save_unless : Option Result → List Result → Result → List Result
save_unless none store r = store ++ r ∷ []
save_unless (some old) store r = store

unfoldable pub save_result : List Result → Result → List Result
unfolding save_unless result_by_id
save_result store r = save_unless (result_by_id store r.id) store r

unfoldable pub involves : Result → Text → Bool
unfolding text_eq
involves r player =
    not (text_eq player []) && (text_eq r.player_ids.at0 player || text_eq r.player_ids.at1 player)

-- `ResultsForPlayerWithEvents`
unfoldable pub results_with_events : List Result → Text → List Result
results_with_events [] player = []
results_with_events (r ∷ rs) player =
    if involves r player then r ∷ results_with_events rs player else results_with_events rs player

-- `PlayerStats`: the games and the wins.
unfoldable pub player_stats : List Result → Text → ℕ × ℕ
player_stats [] player = (0, 0)
player_stats (r ∷ rs) player =
    let (total, wins) = player_stats rs player in
    if not (involves r player)
    then (total, wins)
    else (total + 1, if text_eq (pick r.player_ids r.winner) player then wins + 1 else wins)

-- The result that the id has after a save of `r`, by what it had before.
abbrev pub first_saved : Option Result → Result → Text → Option Result
first_saved none r id = if text_eq r.id id then some r else none
first_saved (some old) r id = some old

result_by_id-append :
    (store : List Result) (r : Result) (id : Text)
    → result_by_id (store ++ r ∷ []) id ≡ first_saved (result_by_id store id) r id
unfolding result_by_id
result_by_id-append [] r id = refl
result_by_id-append (x ∷ xs) r id = ground (arith, result_by_id-append xs r id)

-- A lookup after a save, for every id: a result that was stored before is found unchanged, also
-- under the saved id; otherwise the saved result is found under its id, and nothing under another.
pub result_by_id-save_result :
    (store : List Result) (r : Result) (id : Text)
    → result_by_id (save_result store r) id ≡ first_saved (result_by_id store id) r id
unfolding save_result save_unless
result_by_id-save_result store r id = elim (Option-cases (result_by_id store r.id)) [
  | inl e ↦ rw e (result_by_id-append store r id)
  | inr (old, e) ↦ rw e (elim (Bool-cases (text_eq r.id id)) [
    | inl same ↦
        let found : result_by_id store id ≡ some old =
          subst (λ x. result_by_id store x ≡ some old) (text_eq-eq r.id id same) e in
        rw found refl
    | inr different ↦ unchanged (result_by_id store id) different
  ])
]
  where
    unchanged : (o : Option Result) → text_eq r.id id ≡ false → o ≡ first_saved o r id
    unchanged none d = rw d refl
    unchanged (some x) d = refl

-- A player's counts: the games are those that `ResultsForPlayerWithEvents` lists, and the wins are
-- no more than the games.
pub player_stats-results_with_events :
    (store : List Result) (player : Text)
    → ((player_stats store player).0 ≡ length (results_with_events store player))
      × ((player_stats store player).1 ≤ (player_stats store player).0)
unfolding player_stats results_with_events
player_stats-results_with_events [] player = (refl, omega arith)
player_stats-results_with_events (r ∷ rs) player =
    ground (arith, player_stats-results_with_events rs player)

-- ===== src/Server/Ledger.antt =====
-- What the list and the counts of a player's finished games say together, and what a retried save
-- does: internal/server, result.go and result_handlers.go.
use cribbager.Common.{
  Text, text_eq, ℕ, suc, ◌+◌, ◌-◌, ◌≤◌, ◌≡◌, refl, ap, sym, ◌∙◌, Bool, true, false, not, ◌&&◌, ◌||◌,
  List, [], ◌∷◌, some, if◌then◌else◌, ltb, arith, map, length, Bool-cases, inl, inr, All, sum,
  subst,
}
use cribbager.Common.Sort.{sort}
use cribbager.Common.Sorting.{count, count-sort, length-sort, All-map, IsSorted, sort-IsSorted}
use cribbager.Game.Defs.{Seat, seat0, seat1, seat_eq, pick, other}
use cribbager.Server.Results.{Result, involves, player_stats}
use cribbager.Server.Handlers.{replied}
use cribbager.Server.History.{
  player_results, ended_after, results_for_player, GameSummary, summarize, UserGames,
  handle_user_games, save_attempts, save_result_retrying,
}

-- No result has the player in both seats.
abbrev pub OneSeat : Text → List Result → Type 0
OneSeat player rs =
    All (λ r. (text_eq r.player_ids.at0 player && text_eq r.player_ids.at1 player) ≡ false) rs

-- The result that the player won, as the list shows it.
abbrev won_by : Text → Result → Bool
won_by player r = (summarize player r).won

won_by-stats :
    (player : Text) (winner : Seat) (is0 is1 : Bool)
    → (is0 && is1) ≡ false
    → (is0 || is1) ≡ true
    → seat_eq winner (if not is0 then seat1 else seat0)
      ≡ (if seat_eq winner seat0 then is0 else is1)
won_by-stats player seat0 true true o i = cc
won_by-stats player seat0 true false o i = refl
won_by-stats player seat0 false true o i = refl
won_by-stats player seat0 false false o i = cc
won_by-stats player seat1 true true o i = cc
won_by-stats player seat1 true false o i = refl
won_by-stats player seat1 false true o i = refl
won_by-stats player seat1 false false o i = cc

won_iff :
    (player : Text) (r : Result)
    → (text_eq r.player_ids.at0 player && text_eq r.player_ids.at1 player) ≡ false
    → involves r player ≡ true
    → won_by player (record r { events = [] }) ≡ text_eq (pick r.player_ids r.winner) player
unfolding summarize involves
won_iff player r one own =
    won_by-stats player r.winner (text_eq r.player_ids.at0 player) (text_eq r.player_ids.at1 player)
      one (seated (not (text_eq player [])) own)
    ∙ picked r.winner
  where
    seated : (b : Bool) {c : Bool} → (b && c) ≡ true → c ≡ true
    seated true e = e
    seated false e = cc

    picked :
        (w : Seat)
        → (if seat_eq w seat0
            then text_eq r.player_ids.at0 player
            else text_eq r.player_ids.at1 player)
          ≡ text_eq (pick r.player_ids w) player
    picked seat0 = refl
    picked seat1 = refl

-- The counts are those of the list: its length, and the results in it that the player won.
player_stats-list :
    (store : List Result) (player : Text)
    → OneSeat player store
    → ((player_stats store player).0 ≡ length (player_results store player))
      × ((player_stats store player).1 ≡ count (won_by player) (player_results store player))
unfolding player_stats player_results
player_stats-list [] player one = (refl, refl)
player_stats-list (r ∷ rs) player (o, one) =
    let (total, wins) = player_stats-list rs player one in
    elim (Bool-cases (involves r player)) [
      | inr not_in ↦ rw not_in (total, wins)
      | inl own ↦ rw own (omega (arith, total), one_more (won_iff player r o own) wins)
    ]
  where
    one_more :
        {won is : Bool} {n m : ℕ}
        → won ≡ is
        → n ≡ m
        → (if is then n + 1 else n) ≡ (if won then 1 else 0) + m
    one_more e k = ground arith

count-map :
    {A B : Type 0} (p : B → Bool) (f : A → B) (xs : List A)
    → count p (map f xs) ≡ count (λ x. p (f x)) xs
count-map p f [] = refl
count-map p f (x ∷ xs) = ap (λ n. (if p (f x) then 1 else 0) + n) (count-map p f xs)

length-map : {A B : Type 0} (f : A → B) (xs : List A) → length (map f xs) ≡ length xs
length-map f [] = refl
length-map f (x ∷ xs) = ap suc (length-map f xs)

count-le : {A : Type 0} (p : A → Bool) (xs : List A) → count p xs ≤ length xs
count-le p [] = omega arith
count-le p (x ∷ xs) = ground (arith, count-le p xs)

-- Nothing in the list ended before what follows it.
abbrev pub NewestFirst : List GameSummary → Type 0
NewestFirst gs = IsSorted (λ a b. ltb b.ended_at a.ended_at) gs

newest_first :
    (player : Text) (rs : List Result)
    → IsSorted ended_after rs
    → NewestFirst (map (summarize player) rs)
unfolding summarize
newest_first player [] h = tt
newest_first player (r ∷ rs) (t, h) = (
  All-map (λ g. ltb r.ended_at g.ended_at ≡ false) (summarize player) rs t,
  newest_first player rs h,
)

results-IsSorted : (rs : List Result) → IsSorted ended_after (sort ended_after rs)
results-IsSorted rs =
    sort-IsSorted ended_after (λ a b h. ground arith) (λ a b c h k. ground arith) rs

all_results :
    (store : List Result) (player : Text)
    → length (player_results store player) ≤ 50
    → results_for_player store player 50 ≡ sort ended_after (player_results store player)
unfolding results_for_player
all_results store player few =
    let same = length-sort ended_after (player_results store player) in
    let fits : ltb 50 (length (sort ended_after (player_results store player))) ≡ false =
      ground (arith, same) in
    rw fits refl

-- A result as the player of a seat sees it.
abbrev pub summary_for : Seat → Result → GameSummary
summary_for seat r = record {
  id = r.id;
  opponent = pick r.names (other seat);
  your_score = pick r.scores seat;
  opponent_score = pick r.scores (other seat);
  won = seat_eq r.winner seat;
  ended_at = r.ended_at;
}

-- How many of the stored games pass a test, as the player sees each from a seat of the player's own.
abbrev pub played_as : (GameSummary → Bool) → Text → List Result → ℕ
played_as p player [] = 0
played_as p player (r ∷ rs) =
    (if text_eq r.player_ids.at0 player && p (summary_for seat0 r) then 1 else 0)
    + (if text_eq r.player_ids.at1 player && p (summary_for seat1 r) then 1 else 0)
    + played_as p player rs

summarize-seat :
    (player : Text) (r : Result) (is0 : Bool)
    → text_eq r.player_ids.at0 player ≡ is0
    → summarize player (record r { events = [] }) ≡ summary_for (if is0 then seat0 else seat1) r
unfolding summarize
summarize-seat player r true e = rw e refl
summarize-seat player r false e = rw e refl

seat_count :
    (p0 p1 is0 is1 : Bool) (rest : ℕ)
    → (is0 && is1) ≡ false
    → (is0 || is1) ≡ true
    → (if (if is0 then p0 else p1) then 1 else 0) + rest
      ≡ (if is0 && p0 then 1 else 0) + (if is1 && p1 then 1 else 0) + rest
seat_count p0 p1 true true rest o i = cc
seat_count p0 p1 true false rest o i = omega arith
seat_count p0 p1 false true rest o i = omega arith
seat_count p0 p1 false false rest o i = cc

count-player_results :
    (p : GameSummary → Bool) (store : List Result) (player : Text)
    → text_eq player [] ≡ false
    → OneSeat player store
    → count (λ r. p (summarize player r)) (player_results store player) ≡ played_as p player store
unfolding player_results involves
count-player_results p [] player named one = refl
count-player_results p (r ∷ rs) player named (o, one) =
    by_seats (text_eq r.player_ids.at0 player) (text_eq r.player_ids.at1 player)
      (count-player_results p rs player named one) refl refl
  where
    by_seats :
        (is0 is1 : Bool)
        → count (λ r. p (summarize player r)) (player_results rs player) ≡ played_as p player rs
        → text_eq r.player_ids.at0 player ≡ is0
        → text_eq r.player_ids.at1 player ≡ is1
        → count (λ r. p (summarize player r)) (player_results (r ∷ rs) player)
          ≡ played_as p player (r ∷ rs)
    by_seats true true rest e0 e1 = absurd (both_seats e0 e1 o)
      where
        both_seats : {a b : Bool} → a ≡ true → b ≡ true → (a && b) ≡ false → ⊥
        both_seats x y z = cc
    by_seats true false rest e0 e1 =
        rw (named, e0, e1)
          (ap
              (λ s.
                (if p s then 1 else 0)
                + count (λ r. p (summarize player r)) (player_results rs player))
              (summarize-seat player r true e0)
            ∙ omega (arith, rest))
    by_seats false true rest e0 e1 =
        rw (named, e0, e1)
          (ap
              (λ s.
                (if p s then 1 else 0)
                + count (λ r. p (summarize player r)) (player_results rs player))
              (summarize-seat player r false e0)
            ∙ omega (arith, rest))
    by_seats false false rest e0 e1 = rw (named, e0, e1) (omega (arith, rest))

count-every : {A : Type 0} (xs : List A) → count (λ x. true) xs ≡ length xs
count-every [] = refl
count-every (x ∷ xs) = omega (arith, count-every xs)

-- A player with an id, who is in no stored game on both sides and in at most fifty: the answer lists the
-- stored games in which the player has a seat and no others, each as often as it is stored and as
-- seen from that seat, the newest first; the total is their number, the wins are those that the seat
-- won, and wins and losses add up to the total.
pub handle_user_games-Agrees :
    (store : List Result) (player display : Text)
    → text_eq player [] ≡ false
    → OneSeat player store
    → played_as (λ g. true) player store ≤ 50
    → (u : UserGames) × (handle_user_games store (some (player, display)) ≡ replied 200 u)
      × ((p : GameSummary → Bool) → count p u.games ≡ played_as p player store)
      × NewestFirst u.games
      × (u.total ≡ played_as (λ g. true) player store)
      × (u.wins ≡ played_as (λ g. g.won) player store)
      × (u.wins + u.losses ≡ u.total)
unfolding handle_user_games
handle_user_games-Agrees store player display named one few =
    let rs = player_results store player in
    let (total, wins) = player_stats-list store player one in
    let every_game =
      sym (count-every rs) ∙ count-player_results (λ g. true) store player named one in
    let listed = all_results store player (omega (arith, every_game, few)) in
    (
      record {
        games = map (summarize player) (results_for_player store player 50);
        total = (player_stats store player).0;
        wins = (player_stats store player).1;
        losses = (player_stats store player).0 - (player_stats store player).1;
      },
      refl,
      λ p.
          ap (λ l. count p (map (summarize player) l)) listed
          ∙ count-map p (summarize player) (sort ended_after rs)
          ∙ count-sort ended_after (λ r. p (summarize player r)) rs
          ∙ count-player_results p store player named one,
      subst (λ l. NewestFirst (map (summarize player) l)) (sym listed)
          (newest_first player (sort ended_after rs) (results-IsSorted rs)),
      total ∙ every_game,
      wins ∙ count-player_results (λ g. g.won) store player named one,
      omega (arith, total, wins, count-le (won_by player) rs),
    )

-- A save is retried until an attempt succeeds, five times at most: it fails exactly when all five do,
-- and the sleeps add up to a second at most.
pub save_result_retrying-five :
    (fails : ℕ → Bool)
    → ((save_result_retrying fails).0 ≡ (fails 1 && (fails 2 && (fails 3 && (fails 4 && fails 5)))))
      × (sum (save_result_retrying fails).1 ≤ 1000)
unfolding save_result_retrying save_attempts
save_result_retrying-five fails = ground arith

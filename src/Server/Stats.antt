-- ===== src/Server/Stats.antt =====
-- internal/server/stats.go: a player's points by category, computed from the logs of finished games.
-- The average `avg` is a float: `mean` stands for `round2` of the float division of its two arguments.
use cribbager.Common.{Text, text_eq, ℕ, ◌+◌, not, List, [], ◌∷◌, ltb, if◌then◌else◌, length}
use cribbager.Game.Defs.{
  Seat, seat0, seat1, seat_eq, Event, hand_dealt, starter_cut, card_played, go_awarded, hand_shown,
  crib_shown, cut_for_deal, handicap, discarded, pass, series_reset, game_won, show_not_counted,
}
use cribbager.Server.Results.{Result, involves}

pub record Points : Type 0 where
  pub pegging : ℕ
  pub hand : ℕ
  pub crib : ℕ

abbrev pub no_points : Points
no_points = record { pegging = 0; hand = 0; crib = 0 }

-- One round of the loop of `gamePoints`, with the dealer it tracks.
unfoldable pub count_event : Seat → Seat × Points → Event → Seat × Points
count_event seat (dealer, p) (hand_dealt d hands) = (d, p)
count_event seat (dealer, p) (starter_cut card heels) =
    (dealer, if seat_eq dealer seat then record p { pegging = p.pegging + heels } else p)
count_event seat (dealer, p) (card_played s card score) =
    (dealer, if seat_eq s seat then record p { pegging = p.pegging + score.total } else p)
count_event seat (dealer, p) (go_awarded s points) =
    (dealer, if seat_eq s seat then record p { pegging = p.pegging + points } else p)
count_event seat (dealer, p) (hand_shown s cards score) =
    (dealer, if seat_eq s seat then record p { hand = p.hand + score.total } else p)
count_event seat (dealer, p) (crib_shown cards score) =
    (dealer, if seat_eq dealer seat then record p { crib = p.crib + score.total } else p)
count_event seat (dealer, p) (cut_for_deal cuts d) = (dealer, p)
count_event seat (dealer, p) (handicap scores) = (dealer, p)
count_event seat (dealer, p) (discarded s c d) = (dealer, p)
count_event seat (dealer, p) (pass s) = (dealer, p)
count_event seat (dealer, p) (series_reset s) = (dealer, p)
count_event seat (dealer, p) (game_won s) = (dealer, p)
count_event seat (dealer, p) (show_not_counted s cards is_crib) = (dealer, p)

unfoldable pub count_events : Seat → Seat × Points → List Event → Seat × Points
unfolding count_event
count_events seat acc [] = acc
count_events seat acc (e ∷ es) = count_events seat (count_event seat acc e) es

unfoldable pub game_points : List Event → Seat → Points
unfolding count_events
game_points events seat = (count_events seat (seat0, no_points) events).1

-- The loop of `summarizeCategory`, with the least, the greatest and the total so far.
unfoldable pub summarize_from : ℕ → ℕ → ℕ → List ℕ → ℕ × ℕ × ℕ
summarize_from lo hi sum [] = (lo, hi, sum)
summarize_from lo hi sum (v ∷ vs) =
    summarize_from (if ltb v lo then v else lo) (if ltb hi v then v else hi) (sum + v) vs

-- The points of each game that the player is in, in the order of the results.
unfoldable pub player_points : List Result → Text → List Points
unfolding game_points involves text_eq
player_points [] player = []
player_points (r ∷ rs) player =
    if not (involves r player)
    then player_points rs player
    else game_points r.events (if text_eq r.player_ids.at1 player then seat1 else seat0)
      ∷ player_points rs player

unfoldable pub column : (Points → ℕ) → List Points → List ℕ
column f [] = []
column f (p ∷ ps) = f p ∷ column f ps

module _ {ℓ} {A : Type ℓ} (zero_mean : A) (mean : ℕ → ℕ → A) where
  pub record CategoryStats : Type ℓ where
    pub min : ℕ
    pub max : ℕ
    pub avg : A
    pub total : ℕ

  unfoldable pub summarize_category : List ℕ → CategoryStats
  unfolding summarize_from
  summarize_category [] = record { min = 0; max = 0; avg = zero_mean; total = 0 }
  summarize_category (v ∷ vs) =
      let (lo, hi, sum) = summarize_from v v 0 (v ∷ vs) in
      record { min = lo; max = hi; avg = mean sum (length (v ∷ vs)); total = sum }

  pub record PointStats : Type ℓ where
    pub games : ℕ
    pub pegging : CategoryStats
    pub hand : CategoryStats
    pub crib : CategoryStats

  unfoldable pub compute_point_stats : List Result → Text → PointStats
  unfolding player_points column summarize_category
  compute_point_stats results player =
      let points = player_points results player in
      let peg = column (λ p. p.pegging) points in
      record {
        games = length peg;
        pegging = summarize_category peg;
        hand = summarize_category (column (λ p. p.hand) points);
        crib = summarize_category (column (λ p. p.crib) points);
      }

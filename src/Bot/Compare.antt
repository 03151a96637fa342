-- ===== src/Bot/Compare.antt =====
-- internal/bot/compare.go: two bots over duplicate deals. The counts, the points and the differences
-- of each pair are modelled; the means and standard errors of the differences are floats and are not.
use cribbager.Common.{
  ℕ, zero, suc, ◌+◌, ◌%◌, ◌^◌, List, [], ◌∷◌, ◌++◌, if◌then◌else◌, ◌==◌, max, Fallible, ok, err,
}
use cribbager.Common.Int.{ℤ, sub_ℕ}
use cribbager.Game.Defs.{seat0, seat1, seat_eq}
use cribbager.Bot.Defs.{Bot, MatchResult}

-- The variables of the loop; the last two lists are in the order of the pairs.
pub record Tally : Type 0 where
  pub a_wins : ℕ
  pub a_points : ℕ
  pub b_points : ℕ
  pub a_both : ℕ
  pub split : ℕ
  pub b_both : ℕ
  pub margins : List ℤ
  pub win_diffs : List ℤ

abbrev pub no_tally : Tally
no_tally = record {
  a_wins = 0;
  a_points = 0;
  b_points = 0;
  a_both = 0;
  split = 0;
  b_both = 0;
  margins = [];
  win_diffs = [];
}

-- How many of a pair's games `a` won: the first from seat 0, the second from seat 1.
unfoldable pub pair_wins : MatchResult → MatchResult → ℕ
pair_wins g1 g2 =
    (if seat_eq g1.match_winner seat0 then 1 else 0)
    + (if seat_eq g2.match_winner seat1 then 1 else 0)

unfoldable pub add_pair : Tally → MatchResult → MatchResult → Tally
unfolding pair_wins
add_pair t g1 g2 =
    let wins = pair_wins g1 g2 in
    record {
      a_wins = t.a_wins + wins;
      a_points = t.a_points + (g1.final_scores.at0 + g2.final_scores.at1);
      b_points = t.b_points + (g1.final_scores.at1 + g2.final_scores.at0);
      a_both = if wins == 2 then t.a_both + 1 else t.a_both;
      split = if wins == 1 then t.split + 1 else t.split;
      b_both = if wins == 0 then t.b_both + 1 else t.b_both;
      margins =
          t.margins
          ++ sub_ℕ (g1.final_scores.at0 + g2.final_scores.at1)
              (g1.final_scores.at1 + g2.final_scores.at0)
            ∷ [];
      win_diffs = t.win_diffs ++ sub_ℕ wins 1 ∷ [];
    }

-- A game between two bots on a seed, with Go's error. The bots are reused from game to game: what
-- they remember, such as how far a random generator has advanced, is a state that each game changes.
abbrev pub PlayOn {ℓ κ} : Type ℓ → Type κ → Type (ℓ ⊔ κ)
PlayOn W E = W → Bot → Bot → ℕ → W × Fallible E MatchResult

module _ {κ} {E : Type κ} where
  -- The second game of a pair, and the pairs after it.
  abbrev pub after_second :
      (Tally → Fallible E Tally) → Tally → MatchResult → Fallible E MatchResult → Fallible E Tally
  after_second next t g1 (err e) = err e
  after_second next t g1 (ok g2) = next (add_pair t g1 g2)

  abbrev pub after_first :
      (Tally → Fallible E Tally)
      → Tally
      → Fallible E MatchResult
      → Fallible E MatchResult
      → Fallible E Tally
  after_first next t (err e) second = err e
  after_first next t (ok g1) second = after_second next t g1 second

module _ {ℓ κ} {W : Type ℓ} {E : Type κ} where
  -- The loop, with the number of pairs left and the number of the next one; a seed is an int64.
  unfoldable pub compare_from : PlayOn W E → Bot → Bot → ℕ → ℕ → ℕ → W → Tally → Fallible E Tally
  unfolding add_pair
  compare_from play a b seed zero p w t = ok t
  compare_from play a b seed (suc left) p w t =
      let ds = (seed + p) % 2 ^ 64 in
      let first = play w a b ds in
      let second = play first.0 b a ds in
      after_first (compare_from play a b seed left (p + 1) second.0) t first.1 second.1

  -- `compare`, for a number of pairs that is not negative.
  unfoldable pub compare : PlayOn W E → Bot → Bot → ℕ → ℕ → W → Fallible E Tally
  unfolding compare_from
  compare play a b pairs seed w = compare_from play a b seed (max pairs 1) 0 w no_tally

-- ===== src/Bot/Paired.antt =====
-- What the counts of internal/bot/compare.go add up to, and a bot against itself.
use cribbager.Common.{
  ℕ, zero, suc, ◌+◌, ◌*◌, ◌%◌, ◌^◌, ◌≡◌, refl, ap, List, [], ◌∷◌, ◌++◌, max, ok, length,
  length-append, arith, All, ◌∙◌, subst, sym, Fallible, if◌then◌else◌, ◌==◌,
}
use cribbager.Common.Int.{ℤ, pos, sub_ℕ}
use cribbager.Game.Defs.{Seat, seat0, seat1, seat_eq}
use cribbager.Bot.Defs.{Bot, MatchResult}
use cribbager.Bot.Compare.{
  Tally, no_tally, pair_wins, add_pair, PlayOn, after_first, after_second, compare_from, compare,
}

-- What the counts of `n` pairs add up to.
pub record Adds (n : ℕ) (t : Tally) : Type 0 where
  pub pairs : t.a_both + t.split + t.b_both ≡ n
  pub wins : t.a_wins ≡ 2 * t.a_both + t.split
  pub margin_of_each : length t.margins ≡ n
  pub diff_of_each : length t.win_diffs ≡ n

add_pair-Adds :
    (n : ℕ) (t : Tally) (g1 g2 : MatchResult) → Adds n t → Adds (n + 1) (add_pair t g1 g2)
unfolding add_pair pair_wins
add_pair-Adds n t g1 g2 h = record {
  pairs = ground (arith, h.pairs);
  wins = ground (arith, h.wins);
  margin_of_each = omega (arith, length-append {0} t.margins, h.margin_of_each);
  diff_of_each = omega (arith, length-append {0} t.win_diffs, h.diff_of_each);
}

-- A pair in which both games ended the same way, with the players' seats swapped, changes no difference.
record Even (t : Tally) : Type 0 where
  none_won_both : (t.a_both ≡ 0) × (t.b_both ≡ 0)
  same_points : t.a_points ≡ t.b_points
  no_margin : All (λ m. m ≡ pos 0) t.margins
  no_diff : All (λ m. m ≡ pos 0) t.win_diffs

All-last : (P : ℤ → Type 0) (xs : List ℤ) (x : ℤ) → All P xs → P x → All P (xs ++ x ∷ [])
All-last P [] x a h = (h, tt)
All-last P (y ∷ xs) x (hy, a) h = (hy, All-last P xs x a h)

same_game-Even : (t : Tally) (g : MatchResult) → Even t → Even (add_pair t g g)
unfolding add_pair pair_wins
same_game-Even t g h = record {
  none_won_both =
      (one_each g.match_winner h.none_won_both.0, none_each g.match_winner h.none_won_both.1);
  same_points = omega (arith, h.same_points);
  no_margin = All-last (λ m. m ≡ pos 0) t.margins _ h.no_margin (ground arith);
  no_diff = All-last (λ m. m ≡ pos 0) t.win_diffs _ h.no_diff (no_diff_of g.match_winner);
}
  where
    wins : Seat → ℕ
    wins w = (if seat_eq w seat0 then 1 else 0) + (if seat_eq w seat1 then 1 else 0)

    one_each : (w : Seat) → t.a_both ≡ 0 → (if wins w == 2 then t.a_both + 1 else t.a_both) ≡ 0
    one_each seat0 e = e
    one_each seat1 e = e

    none_each : (w : Seat) → t.b_both ≡ 0 → (if wins w == 0 then t.b_both + 1 else t.b_both) ≡ 0
    none_each seat0 e = e
    none_each seat1 e = e

    no_diff_of : (w : Seat) → sub_ℕ (wins w) 1 ≡ pos 0
    no_diff_of seat0 = refl
    no_diff_of seat1 = refl

module _ {ℓ κ} {W : Type ℓ} {E : Type κ} (play : PlayOn W E) where
  -- Every game of the two bots ends without an error, whatever they remember.
  abbrev pub Ends : Bot → Bot → Type (ℓ ⊔ κ)
  Ends a b = (w : W) (ds : ℕ) → (g : MatchResult) × ((play w a b ds).1 ≡ ok g)

  -- The games of a bot against itself end without errors, and what it remembers changes none.
  abbrev pub EndsAlike : Bot → Type (ℓ ⊔ κ)
  EndsAlike a = (ds : ℕ) → (g : MatchResult) × ((w : W) → (play w a a ds).1 ≡ ok g)

  -- The comparison has a result, with what each pair keeps of the variables.
  compare_from-keeps :
      (P : ℕ → Tally → Type 0) (a b : Bot) (seed left p : ℕ) (w : W) (t : Tally)
      → Ends a b
      → Ends b a
      → ((n : ℕ) (t : Tally) (v v' : W) (ds : ℕ) (g1 g2 : MatchResult)
          → (play v a b ds).1 ≡ ok g1
          → (play v' b a ds).1 ≡ ok g2
          → P n t
          → P (n + 1) (add_pair t g1 g2))
      → P p t
      → (t' : Tally) × (compare_from play a b seed left p w t ≡ ok t') × P (p + left) t'
  unfolding compare_from
  compare_from-keeps P a b seed zero p w t ab ba keep h =
      (t, refl, subst (λ n. P n t) (omega arith) h)
  compare_from-keeps P a b seed (suc left) p w t ab ba keep h =
      let ds = (seed + p) % 2 ^ 64 in
      let first = play w a b ds in
      let second = play first.0 b a ds in
      let (g1, e1) = ab w ds in
      let (g2, e2) = ba first.0 ds in
      let next = compare_from play a b seed left (p + 1) second.0 in
      let (t', e, h') =
        compare_from-keeps P a b seed left (p + 1) second.0 (add_pair t g1 g2) ab ba keep
          (keep p t w first.0 ds g1 g2 e1 e2 h) in
      (
        t',
        ap (λ x. after_first next t x second.1) e1 ∙ ap (after_second next t g1) e2 ∙ e,
        subst (λ n. P n t') (omega arith) h',
      )

  -- Bots whose games end without errors, whatever they remember of earlier games: the comparison has a
  -- result, in which the pairs are split into those that one bot won both games of and those that
  -- each won one of, the wins are those of the pairs, and there is a margin and a difference in wins
  -- for each pair.
  pub compare-Adds :
      (a b : Bot) (pairs seed : ℕ) (w : W)
      → Ends a b
      → Ends b a
      → (t : Tally) × (compare play a b pairs seed w ≡ ok t) × Adds (max pairs 1) t
  unfolding compare
  compare-Adds a b pairs seed w ab ba =
      let (t, e, h) =
        compare_from-keeps Adds a b seed (max pairs 1) 0 w no_tally ab ba
          (λ n t v v' ds g1 g2 e1 e2. add_pair-Adds n t g1 g2)
          (record { pairs = refl; wins = refl; margin_of_each = refl; diff_of_each = refl }) in
      (t, e, subst (λ n. Adds n t) (omega arith) h)

  -- A bot against itself, when its games end without errors and depend on the seed only, not on what it
  -- remembers of earlier games: each pair is split, and the margins, the differences in wins and the
  -- difference in points are all zero.
  pub compare_self :
      (a : Bot) (pairs seed : ℕ) (w : W)
      → EndsAlike a
      → (t : Tally) × (compare play a a pairs seed w ≡ ok t)
        × (t.split ≡ max pairs 1)
        × (t.a_points ≡ t.b_points)
        × All (λ m. m ≡ pos 0) t.margins
        × All (λ m. m ≡ pos 0) t.win_diffs
  unfolding compare
  compare_self a pairs seed w alike =
      let ends : Ends a a = λ v ds. ((alike ds).0, (alike ds).1 v) in
      let (t, e, (adds, even)) =
        compare_from-keeps (λ n t. Adds n t × Even t) a a seed (max pairs 1) 0 w no_tally ends ends
          (λ n t v v' ds g1 g2 e1 e2 h. (
            add_pair-Adds n t g1 g2 h.0,
            subst (λ g. Even (add_pair t g1 g)) (same_result v v' e1 e2) (same_game-Even t g1 h.1),
          ))
          (
            record { pairs = refl; wins = refl; margin_of_each = refl; diff_of_each = refl },
            record {
              none_won_both = (refl, refl);
              same_points = refl;
              no_margin = tt;
              no_diff = tt;
            },
          ) in
      (
        t,
        e,
        omega (arith, adds.pairs, even.none_won_both.0, even.none_won_both.1),
        even.same_points,
        even.no_margin,
        even.no_diff,
      )
    where
      ok_same :
          {g1 g2 g : MatchResult}
          → ◌≡◌ {A = Fallible E MatchResult} (ok g1) (ok g)
          → ◌≡◌ {A = Fallible E MatchResult} (ok g2) (ok g)
          → g1 ≡ g2
      ok_same e1 e2 = cc

      same_result :
          (v v' : W) {ds : ℕ} {g1 g2 : MatchResult}
          → (play v a a ds).1 ≡ ok g1
          → (play v' a a ds).1 ≡ ok g2
          → g1 ≡ g2
      same_result v v' {ds = ds} e1 e2 =
          ok_same (sym e1 ∙ (alike ds).1 v) (sym e2 ∙ (alike ds).1 v')

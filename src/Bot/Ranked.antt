-- ===== src/Bot/Ranked.antt =====
-- What the rankings of internal/bot/eval hold: every throw of the hand, with the kept cards beside
-- it, and the best first.
use cribbager.Common.{
  ℕ, ◌≡◌, refl, Bool, true, false, ◌||◌, List, [], ◌∷◌, map, arith, ◌∙◌, Bool-cases, inl, inr, ◌⊎◌,
  All, length,
}
use cribbager.Common.Floats.{Floats, IsFinite}
use cribbager.Common.Sorting.{
  any, any-append, any-weaken, any-map, All-map, any-sort, IsSorted, sort-IsSorted, All-sort,
  length-sort,
}
use cribbager.Cribbage.Defs.{Card, Rank, card_eq}
use cribbager.Cribbage.Occurrences.{occ, card_eq_iff}
use cribbager.Pegging.Defs.{contains}
use cribbager.Hand.Defs.{Four, four_list}
use cribbager.Game.View.{PlayerView}
use cribbager.Bot.Splits.{pick_one, pick_two, four_of, discard_pairs}
use cribbager.Bot.Ranking.{
  RankedDiscard, better_discard, rank_discards, split_value, same_pair, rank_plays_with,
  ranked_play, better_play,
}

any-pick_one :
    (c : Card) (xs : List Card)
    → contains xs c ≡ true
    → any (λ (p : Card × List Card). card_eq p.0 c) (pick_one xs) ≡ true
unfolding pick_one contains
any-pick_one c [] h = cc
any-pick_one c (x ∷ xs) h =
    rw (any-map (λ (p : Card × List Card). card_eq p.0 c) (λ p. (p.0, x ∷ p.1)) (pick_one xs))
      (ground (arith, any-pick_one c xs))

or_true : (a b : Bool) → (a ≡ true) ⊎ (b ≡ true) → (a || b) ≡ true
or_true true b h = refl
or_true false b (inl h) = cc
or_true false b (inr h) = h

-- Two cards of which the second is in the rest are thrown together, in either order.
first_throw :
    (c d x y : Card) (xs : List Card)
    → contains xs y ≡ true
    → ((z : Card) → card_eq z y ≡ true → same_pair (x, z) (c, d) ≡ true)
    → any
        (λ (p : (Card × Card) × List Card). same_pair p.0 (c, d))
        (map (λ (p : Card × List Card). ((x, p.0), p.1)) (pick_one xs))
      ≡ true
first_throw c d x y xs h same =
    rw
      (any-map (λ (p : (Card × Card) × List Card). same_pair p.0 (c, d))
        (λ (p : Card × List Card). ((x, p.0), p.1)) (pick_one xs))
      (any-weaken (λ (p : Card × List Card). card_eq p.0 y)
        (λ (p : Card × List Card). same_pair (x, p.0) (c, d)) (pick_one xs) (λ p. same p.0)
        (any-pick_one y xs h))

-- Two different cards of a hand are thrown together in one of its splits.
splits_throw :
    (c d : Card) (xs : List Card)
    → card_eq c d ≡ false
    → contains xs c ≡ true
    → contains xs d ≡ true
    → any (λ (p : (Card × Card) × List Card). same_pair p.0 (c, d)) (pick_two xs) ≡ true
unfolding pick_two contains
splits_throw c d [] n hc hd = cc
splits_throw c d (x ∷ xs) n hc hd =
    let test = λ (p : (Card × Card) × List Card). same_pair p.0 (c, d) in
    rw
      (any-append test (map (λ (p : Card × List Card). ((x, p.0), p.1)) (pick_one xs))
        (map (λ (p : (Card × Card) × List Card). (p.0, x ∷ p.1)) (pick_two xs)))
      (or_true _ _ (elim (Bool-cases (card_eq x c)) [
        | inl is_c ↦ inl (
            first_throw c d x d xs (ground (arith, card_eq_iff x c, card_eq_iff x d))
              (λ z e. ground arith))
        | inr not_c ↦ elim (Bool-cases (card_eq x d)) [
          | inl is_d ↦ inl (first_throw c d x c xs (ground arith) (λ z e. ground arith))
          | inr not_d ↦ inr (
              rw (any-map test (λ (p : (Card × Card) × List Card). (p.0, x ∷ p.1)) (pick_two xs))
                (splits_throw c d xs n (ground arith) (ground arith)))
        ]
      ]))

-- A throw is listed with the other cards of the hand.
abbrev pub Splits : List Card → (Card × Card) × Four → Type 0
Splits h s = (x : Card) → occ x (s.0.0 ∷ s.0.1 ∷ four_list s.1) ≡ occ x h

six-Splits :
    (a b c d e f : Card)
    → All (Splits (a ∷ b ∷ c ∷ d ∷ e ∷ f ∷ [])) (discard_pairs (a ∷ b ∷ c ∷ d ∷ e ∷ f ∷ []))
unfolding discard_pairs
six-Splits a b c d e f = (
  λ x. omega arith,
  (
    λ x. omega arith,
    (
      λ x. omega arith,
      (
        λ x. omega arith,
        (
          λ x. omega arith,
          (
            λ x. omega arith,
            (
              λ x. omega arith,
              (
                λ x. omega arith,
                (
                  λ x. omega arith,
                  (
                    λ x. omega arith,
                    (
                      λ x. omega arith,
                      (
                        λ x. omega arith,
                        (λ x. omega arith, (λ x. omega arith, (λ x. omega arith, tt))),
                      ),
                    ),
                  ),
                ),
              ),
            ),
          ),
        ),
      ),
    ),
  ),
)

module _ (F : Floats) (finite : IsFinite F) where
  open F use {gt}
  open finite use {asymmetric, negatively_transitive}

  pub rank_discards-IsSorted :
      (table : Rank → Rank → Bool → F.Float) (h : List Card) (my_crib : Bool)
      → IsSorted (better_discard F) (rank_discards F table h my_crib)
  unfolding rank_discards
  rank_discards-IsSorted table h my_crib =
      sort-IsSorted (better_discard F) (λ a b. asymmetric a.score b.score)
        (λ a b c. negatively_transitive a.score b.score c.score)
        (map (split_value F table h my_crib) (discard_pairs h))

  pub rank_plays_with-IsSorted :
      (v : PlayerView) (reply : List Card → ℕ → F.Float)
      → IsSorted (better_play F) (rank_plays_with F v reply)
  unfolding rank_plays_with
  rank_plays_with-IsSorted v reply =
      sort-IsSorted (better_play F) (λ a b. asymmetric a.score b.score)
        (λ a b c. negatively_transitive a.score b.score c.score)
        (map (ranked_play F v reply) v.legal)

-- The throw of a ranked discard stands among its splits.
abbrev pub lists : (F : Floats) → Card × Card → List (RankedDiscard F) → Bool
lists F throw ranked = any (λ r. same_pair r.discard throw) ranked

pub rank_discards-lists :
    (F : Floats) (table : Rank → Rank → Bool → F.Float) (h : List Card) (my_crib : Bool)
    (c d : Card)
    → card_eq c d ≡ false
    → contains h c ≡ true
    → contains h d ≡ true
    → lists F (c, d) (rank_discards F table h my_crib) ≡ true
unfolding rank_discards discard_pairs
rank_discards-lists F table h my_crib c d n hc hd =
    any-sort (better_discard F) (λ r. same_pair r.discard (c, d))
      (map (split_value F table h my_crib) (discard_pairs h))
    ∙ any-map (λ (r : RankedDiscard F). same_pair r.discard (c, d)) (split_value F table h my_crib)
        (discard_pairs h)
    ∙ split_throws
  where
    split_throws :
        any (λ s. same_pair (split_value F table h my_crib s).discard (c, d)) (discard_pairs h)
        ≡ true
    split_throws =
        unfold split_value in
        any-map (λ (s : (Card × Card) × Four). same_pair s.0 (c, d)) (λ p. (p.0, four_of p.1))
          (pick_two h)
        ∙ splits_throw c d h n hc hd

abbrev pub SplitsOf : (F : Floats) → List Card → RankedDiscard F → Type 0
SplitsOf F h r = Splits h (r.discard, r.keep)

length_fifteen :
    (F : Floats) (table : Rank → Rank → Bool → F.Float) (my_crib : Bool) (a b c d e f : Card)
    → length (rank_discards F table (a ∷ b ∷ c ∷ d ∷ e ∷ f ∷ []) my_crib) ≡ 15
unfolding rank_discards discard_pairs
length_fifteen F table my_crib a b c d e f =
    let h = a ∷ b ∷ c ∷ d ∷ e ∷ f ∷ [] in
    length-sort (better_discard F) (map (split_value F table h my_crib) (discard_pairs h))

rank_discards-Splits :
    (F : Floats) (table : Rank → Rank → Bool → F.Float) (my_crib : Bool) (h : List Card)
    → All (Splits h) (discard_pairs h)
    → All (SplitsOf F h) (rank_discards F table h my_crib)
unfolding rank_discards split_value
rank_discards-Splits F table my_crib h splits =
    All-sort (better_discard F) (SplitsOf F h)
      (map (split_value F table h my_crib) (discard_pairs h))
      (All-map (SplitsOf F h) (split_value F table h my_crib) (discard_pairs h) splits)

-- With a finite arithmetic, the ranking of six cards has fifteen entries, none before another with a
-- higher score; each entry's throw and keep are together the hand; and any two different cards of
-- the hand are the throw of one of the entries.
pub rank_discards-Ranked :
    (F : Floats) (finite : IsFinite F) (table : Rank → Rank → Bool → F.Float) (my_crib : Bool)
    (a b c d e f x y : Card)
    → card_eq x y ≡ false
    → contains (a ∷ b ∷ c ∷ d ∷ e ∷ f ∷ []) x ≡ true
    → contains (a ∷ b ∷ c ∷ d ∷ e ∷ f ∷ []) y ≡ true
    → (length (rank_discards F table (a ∷ b ∷ c ∷ d ∷ e ∷ f ∷ []) my_crib) ≡ 15)
      × IsSorted (better_discard F) (rank_discards F table (a ∷ b ∷ c ∷ d ∷ e ∷ f ∷ []) my_crib)
      × All
          (SplitsOf F (a ∷ b ∷ c ∷ d ∷ e ∷ f ∷ []))
          (rank_discards F table (a ∷ b ∷ c ∷ d ∷ e ∷ f ∷ []) my_crib)
      × (lists F (x, y) (rank_discards F table (a ∷ b ∷ c ∷ d ∷ e ∷ f ∷ []) my_crib) ≡ true)
rank_discards-Ranked F finite table my_crib a b c d e f x y n hx hy =
    let h = a ∷ b ∷ c ∷ d ∷ e ∷ f ∷ [] in
    (
      length_fifteen F table my_crib a b c d e f,
      rank_discards-IsSorted F finite table h my_crib,
      rank_discards-Splits F table my_crib h (six-Splits a b c d e f),
      rank_discards-lists F table h my_crib x y n hx hy,
    )

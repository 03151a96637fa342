-- ===== src/Server/Tally.antt =====
-- internal/server/stats.go: the counted points beside the scores of the engine, and the summary.
use cribbager.Common.{
  ℕ, ◌+◌, ◌≤◌, ◌<◌, ◌≡◌, refl, true, List, [], ◌∷◌, ltb, if◌then◌else◌, min, ◌∙◌, arith,
}
use cribbager.Cribbage.Defs.{Card}
use cribbager.Game.Defs.{
  Seat, seat0, seat1, seat_eq, pick, Both, both, Event, hand_dealt, starter_cut, card_played,
  go_awarded, hand_shown, crib_shown, cut_for_deal, handicap, discarded, pass, series_reset,
  game_won, show_not_counted,
}
use cribbager.Game.Kinds.{in_hand, every}
use cribbager.Game.State.{State, zero_state, reduce, fold, clamp, add_points}
use cribbager.Server.Stats.{
  Points, no_points, count_event, count_events, game_points, summarize_from, summarize_category,
}

abbrev pub sum_of : Points → ℕ
sum_of p = p.pegging + p.hand + p.crib

-- The fold and the count agree so far: on the dealer, and on the seat's points up to the target.
record Agrees (target start : ℕ) (seat : Seat) (s : State) (acc : Seat × Points) : Type 0 where
  same_dealer : acc.0 ≡ s.dealer
  same_points : pick s.scores seat ≡ min target (start + sum_of acc.1)

-- An award to the seat `to` that is counted for the seat `d`, the same one, as `q` in place of `p`.
credit :
    (target start : ℕ) (seat to d : Seat) (s : State) (pts : ℕ) (p q : Points)
    → 0 < target
    → d ≡ to
    → sum_of q ≡ sum_of p + pts
    → pick s.scores seat ≡ min target (start + sum_of p)
    → pick (add_points target s to pts).scores seat
      ≡ min target (start + sum_of (if seat_eq d seat then q else p))
unfolding add_points clamp
credit target start seat0 seat0 d s pts p q h same more e = rw same (ground (arith, more, e))
credit target start seat0 seat1 d s pts p q h same more e = rw same (ground (arith, more, e))
credit target start seat1 seat0 d s pts p q h same more e = rw same (ground (arith, more, e))
credit target start seat1 seat1 d s pts p q h same more e = rw same (ground (arith, more, e))

step :
    (target start : ℕ) (seat : Seat) (s : State) (d : Seat) (p : Points) (e : Event)
    → 0 < target
    → in_hand e ≡ true
    → Agrees target start seat s (d, p)
    → Agrees target start seat (reduce target s e) (count_event seat (d, p) e)
unfolding reduce count_event
step target start seat s d p (cut_for_deal cuts x) h i a = cc
step target start seat s d p (handicap scores) h i a = cc
step target start seat s d p (hand_dealt x hands) h i a = record {
  same_dealer = refl;
  same_points = a.same_points;
}
step target start seat s d p (discarded x c c') h i a = record {
  same_dealer = a.same_dealer;
  same_points = a.same_points;
}
step target start seat s d p (starter_cut c heels) h i a = record {
  same_dealer = a.same_dealer;
  same_points =
      unfold add_points clamp in
      credit target start seat s.dealer d s heels p (record p { pegging = p.pegging + heels }) h
        a.same_dealer (omega arith) a.same_points;
}
step target start seat s d p (card_played x c score) h i a = record {
  same_dealer = a.same_dealer;
  same_points =
      unfold add_points clamp in
      credit target start seat x x s score.total p (record p { pegging = p.pegging + score.total })
        h refl (omega arith) a.same_points;
}
step target start seat s d p (pass x) h i a = record {
  same_dealer = a.same_dealer;
  same_points = a.same_points;
}
step target start seat s d p (go_awarded x points) h i a = record {
  same_dealer = unfold add_points in a.same_dealer;
  same_points =
      credit target start seat x x s points p (record p { pegging = p.pegging + points }) h refl
        (omega arith) a.same_points;
}
step target start seat s d p (series_reset x) h i a = record {
  same_dealer = a.same_dealer;
  same_points = a.same_points;
}
step target start seat s d p (hand_shown x cards score) h i a = record {
  same_dealer = unfold add_points in a.same_dealer;
  same_points =
      credit target start seat x x s score.total p (record p { hand = p.hand + score.total }) h refl
        (omega arith) a.same_points;
}
step target start seat s d p (crib_shown cards score) h i a = record {
  same_dealer = unfold add_points in a.same_dealer;
  same_points =
      credit target start seat s.dealer d s score.total p (record p { crib = p.crib + score.total })
        h a.same_dealer (omega arith) a.same_points;
}
step target start seat s d p (game_won x) h i a = record {
  same_dealer = a.same_dealer;
  same_points = a.same_points;
}
step target start seat s d p (show_not_counted x cards c) h i a = a

steps :
    (target start : ℕ) (seat : Seat) (s : State) (acc : Seat × Points) (es : List Event)
    → 0 < target
    → every in_hand es ≡ true
    → Agrees target start seat s acc
    → Agrees target start seat (fold target s es) (count_events seat acc es)
unfolding fold count_events
steps target start seat s acc [] h i a = a
steps target start seat s (d, p) (e ∷ es) h i a =
    steps target start seat (reduce target s e) (count_event seat (d, p) e) es h (ground arith)
      (step target start seat s d p e h (ground arith) a)

no_score : (seat : Seat) → pick {A = ℕ} (both 0) seat ≡ 0
no_score seat0 = refl
no_score seat1 = refl

-- On a log that opens with a cut for the deal and a deal, with no later cut or preset position, and with
-- a target above 0: a seat's final score is the sum of the three categories that the statistics count
-- for it, cut off at the target.
pub game_points-cut :
    (target : ℕ) (seat dealer d : Seat) (cuts : Both Card) (hands : Both (List Card))
    (es : List Event)
    → 0 < target
    → every in_hand es ≡ true
    → pick (fold target zero_state (cut_for_deal cuts dealer ∷ hand_dealt d hands ∷ es)).scores seat
      ≡ min target (sum_of (game_points (cut_for_deal cuts dealer ∷ hand_dealt d hands ∷ es) seat))
unfolding fold game_points count_events count_event reduce
game_points-cut target seat dealer d cuts hands es h i =
    let agrees =
      steps target 0 seat
        (reduce target (reduce target zero_state (cut_for_deal cuts dealer)) (hand_dealt d hands))
        (d, no_points) es h i
        (record { same_dealer = refl; same_points = omega (arith, no_score seat) }) in
    omega (arith, agrees.same_points)

-- The log of a game with a preset position: the score is the preset one and what is counted, cut
-- off at the target, where the preset score is not past it.
pub game_points-handicap :
    (target : ℕ) (seat d : Seat) (scores : Both ℕ) (hands : Both (List Card)) (es : List Event)
    → 0 < target
    → pick scores seat ≤ target
    → every in_hand es ≡ true
    → pick (fold target zero_state (handicap scores ∷ hand_dealt d hands ∷ es)).scores seat
      ≡ min target
          (pick scores seat + sum_of (game_points (handicap scores ∷ hand_dealt d hands ∷ es) seat))
unfolding fold game_points count_events count_event reduce
game_points-handicap target seat d scores hands es h le i =
    (steps target (pick scores seat) seat
      (reduce target (reduce target zero_state (handicap scores)) (hand_dealt d hands))
      (d, no_points) es h i (record { same_dealer = refl; same_points = omega arith })).same_points

abbrev pub sum_all : List ℕ → ℕ
sum_all [] = 0
sum_all (v ∷ vs) = v + sum_all vs

abbrev pub AllWithin : ℕ → ℕ → List ℕ → Type 0
AllWithin lo hi [] = Unit
AllWithin lo hi (v ∷ vs) = (lo ≤ v) × (v ≤ hi) × AllWithin lo hi vs

-- What the loop returns for the least, the greatest and the total it starts from.
abbrev Summary : ℕ → ℕ → ℕ → List ℕ → ℕ × ℕ × ℕ → Type 0
Summary lo hi sum vs (lo', hi', sum') =
    (lo' ≤ lo) × (hi ≤ hi') × AllWithin lo' hi' vs × (sum' ≡ sum + sum_all vs)

summarize_from-Summary :
    (lo hi sum : ℕ) (vs : List ℕ) → Summary lo hi sum vs (summarize_from lo hi sum vs)
unfolding summarize_from
summarize_from-Summary lo hi sum [] = (omega arith, omega arith, tt, omega arith)
summarize_from-Summary lo hi sum (v ∷ vs) = ground (
  arith,
  summarize_from-Summary (if ltb v lo then v else lo) (if ltb hi v then v else hi) (sum + v) vs,
)

-- The summary of a category over at least one game: no game lies below the minimum or above the
-- maximum, and the total is the sum.
pub summarize_category-AllWithin {ℓ} :
    {A : Type ℓ} (zero_mean : A) (mean : ℕ → ℕ → A) (v : ℕ) (vs : List ℕ)
    → AllWithin
        (summarize_category zero_mean mean (v ∷ vs)).min
        (summarize_category zero_mean mean (v ∷ vs)).max
        (v ∷ vs)
      × ((summarize_category zero_mean mean (v ∷ vs)).total ≡ sum_all (v ∷ vs))
unfolding summarize_category
summarize_category-AllWithin zero_mean mean v vs =
    let (lo, hi, inside, sum) = summarize_from-Summary v v 0 (v ∷ vs) in (inside, sum ∙ omega arith)

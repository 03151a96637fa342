-- ===== src/Bot/Deals.antt =====
-- internal/bot/dealstats.go: the points of each deal of a log, and the points of the statistics.
use cribbager.Common.{
  ℕ, ◌+◌, ◌≡◌, refl, ap, Bool, true, false, List, [], ◌∷◌, ◌++◌, not, ◌&&◌, Option, none, some,
  ◌==◌, if◌then◌else◌, arith,
}
use cribbager.Game.Defs.{
  Seat, seat0, seat1, seat_eq, Both, both, pick, put, Event, hand_dealt, starter_cut, card_played,
  go_awarded, hand_shown, crib_shown, cut_for_deal, handicap, discarded, pass, series_reset,
  game_won, show_not_counted,
}
use cribbager.Cribbage.Defs.{Card}
use cribbager.Pegging.Defs.{PegResult}
use cribbager.Hand.Defs.{HandResult}
use cribbager.Game.Kinds.{in_hand}
use cribbager.Server.Stats.{Points, no_points, count_event, count_events, game_points}
use cribbager.Server.Tally.{sum_of}

pub record Increment : Type 0 where
  pub seat : Seat
  pub pts : ℕ

pub record DealStat : Type 0 where
  pub dealer : Seat
  pub heels : ℕ
  pub peg : Both ℕ
  pub hand : Both ℕ
  pub crib : ℕ
  pub increments : List Increment
  pub complete : Bool

-- `DealStat.Total`
unfoldable pub deal_total : DealStat → Seat → ℕ
deal_total d s = pick d.peg s + pick d.hand s + (if seat_eq s d.dealer then d.heels + d.crib else 0)

abbrev pub new_deal : Seat → DealStat
new_deal dealer = record {
  dealer = dealer;
  heels = 0;
  peg = both 0;
  hand = both 0;
  crib = 0;
  increments = [];
  complete = false;
}

unfoldable pub add_increment : DealStat → Seat → ℕ → DealStat
add_increment d seat pts =
    if pts == 0
    then d
    else record d { increments = d.increments ++ record { seat = seat; pts = pts } ∷ [] }

-- The body of the loop within a deal.
unfoldable pub deal_event : DealStat → Event → DealStat
unfolding add_increment
deal_event d (starter_cut card heels) = add_increment (record d { heels = heels }) d.dealer heels
deal_event d (card_played seat card score) =
    add_increment (record d { peg = put d.peg seat (pick d.peg seat + score.total) }) seat
      score.total
deal_event d (go_awarded seat points) =
    add_increment (record d { peg = put d.peg seat (pick d.peg seat + points) }) seat points
deal_event d (hand_shown seat cards score) =
    add_increment (record d { hand = put d.hand seat (pick d.hand seat + score.total) }) seat
      score.total
deal_event d (crib_shown cards score) =
    record (add_increment (record d { crib = d.crib + score.total }) d.dealer score.total) {
      complete = true;
    }
deal_event d _ = d

-- The loop from a deal on.
unfoldable pub deals_from : DealStat → List Event → List DealStat
unfolding deal_event
deals_from d [] = d ∷ []
deals_from d (hand_dealt dealer hands ∷ es) = d ∷ deals_from (new_deal dealer) es
deals_from d (e ∷ es) = deals_from (deal_event d e) es

-- `DealStats`; points before any deal index the empty slice, a panic.
unfoldable pub deal_stats : List Event → Option (List DealStat)
unfolding deals_from
deal_stats [] = some []
deal_stats (hand_dealt dealer hands ∷ es) = some (deals_from (new_deal dealer) es)
deal_stats (card_played seat card score ∷ es) = none
deal_stats (go_awarded seat points ∷ es) = none
deal_stats (hand_shown seat cards score ∷ es) = none
deal_stats (crib_shown cards score ∷ es) = none
deal_stats (e ∷ es) = deal_stats es

abbrev pub sum_deals : Seat → List DealStat → ℕ
sum_deals seat [] = 0
sum_deals seat (d ∷ ds) = deal_total d seat + sum_deals seat ds

-- At most one cut of a starter in each deal; the flag is whether this deal has had its own.
abbrev pub cut_once : Bool → List Event → Bool
cut_once had [] = true
cut_once had (hand_dealt dealer hands ∷ es) = cut_once false es
cut_once had (starter_cut card heels ∷ es) = not had && cut_once true es
cut_once had (e ∷ es) = cut_once had es

-- What an event within a deal adds is what the statistics count.
abbrev Counts : Seat → DealStat → Points → Event → Type 0
Counts seat d p e =
    ((deal_event d e).dealer ≡ d.dealer)
    × ((count_event seat (d.dealer, p) e).0 ≡ d.dealer)
    × (deal_total (deal_event d e) seat + sum_of p
        ≡ deal_total d seat + sum_of (count_event seat (d.dealer, p) e).1)

cut-Counts :
    (seat : Seat) (d : DealStat) (p : Points) (card : Card) (heels : ℕ)
    → d.heels ≡ 0
    → Counts seat d p (starter_cut card heels)
unfolding deal_event add_increment count_event deal_total
cut-Counts seat d p card heels h = ground arith

played-Counts :
    (seat : Seat) (d : DealStat) (p : Points) (s : Seat) (card : Card) (score : PegResult)
    → Counts seat d p (card_played s card score)
unfolding deal_event add_increment count_event deal_total
played-Counts seat0 d p seat0 card score = ground arith
played-Counts seat0 d p seat1 card score = ground arith
played-Counts seat1 d p seat0 card score = ground arith
played-Counts seat1 d p seat1 card score = ground arith

go-Counts :
    (seat : Seat) (d : DealStat) (p : Points) (s : Seat) (points : ℕ)
    → Counts seat d p (go_awarded s points)
unfolding deal_event add_increment count_event deal_total
go-Counts seat0 d p seat0 points = ground arith
go-Counts seat0 d p seat1 points = ground arith
go-Counts seat1 d p seat0 points = ground arith
go-Counts seat1 d p seat1 points = ground arith

hand-Counts :
    (seat : Seat) (d : DealStat) (p : Points) (s : Seat) (cards : List Card) (score : HandResult)
    → Counts seat d p (hand_shown s cards score)
unfolding deal_event add_increment count_event deal_total
hand-Counts seat0 d p seat0 cards score = ground arith
hand-Counts seat0 d p seat1 cards score = ground arith
hand-Counts seat1 d p seat0 cards score = ground arith
hand-Counts seat1 d p seat1 cards score = ground arith

seat_eq_comm : (s t : Seat) → seat_eq s t ≡ seat_eq t s
seat_eq_comm seat0 seat0 = refl
seat_eq_comm seat0 seat1 = refl
seat_eq_comm seat1 seat0 = refl
seat_eq_comm seat1 seat1 = refl

crib-Counts :
    (seat : Seat) (d : DealStat) (p : Points) (cards : List Card) (score : HandResult)
    → Counts seat d p (crib_shown cards score)
unfolding deal_event add_increment count_event deal_total
crib-Counts seat d p cards score = ground (arith, seat_eq_comm seat d.dealer)

-- The sums from an event on, from those after it.
shifted :
    (seat : Seat) (d d' : DealStat) (p p' : Points) (es : List Event)
    → d'.dealer ≡ d.dealer
    → deal_total d' seat + sum_of p ≡ deal_total d seat + sum_of p'
    → sum_deals seat (deals_from d' es) + sum_of p'
      ≡ sum_of (count_events seat (d'.dealer, p') es).1 + deal_total d' seat
    → sum_deals seat (deals_from d' es) + sum_of p
      ≡ sum_of (count_events seat (d.dealer, p') es).1 + deal_total d seat
shifted seat d d' p p' es same total rest =
    omega (arith, total, rest, ap (λ k. sum_of (count_events seat (k, p') es).1) same)

new_total : (seat dealer : Seat) → deal_total (new_deal dealer) seat ≡ 0
unfolding deal_total
new_total seat0 dealer = ground arith
new_total seat1 dealer = ground arith

deals_from-count :
    (seat : Seat) (had : Bool) (d : DealStat) (p : Points) (es : List Event)
    → (had ≡ false → d.heels ≡ 0)
    → cut_once had es ≡ true
    → sum_deals seat (deals_from d es) + sum_of p
      ≡ sum_of (count_events seat (d.dealer, p) es).1 + deal_total d seat
unfolding deals_from count_events deal_event add_increment count_event
deals_from-count seat had d p [] h once = omega arith
deals_from-count seat had d p (hand_dealt dealer hands ∷ es) h once = omega (
  arith,
  deals_from-count seat false (new_deal dealer) p es (λ e. refl) once,
  new_total seat dealer,
)
deals_from-count seat had d p (starter_cut card heels ∷ es) h once =
    let (same, counted, total) = cut-Counts seat d p card heels (h (ground arith)) in
    shifted seat d (deal_event d (starter_cut card heels)) p _ es same total (
      deals_from-count seat true (deal_event d (starter_cut card heels)) _ es (λ e. cc)
        (ground arith))
deals_from-count seat had d p (card_played s card score ∷ es) h once =
    let (same, counted, total) = played-Counts seat d p s card score in
    shifted seat d (deal_event d (card_played s card score)) p _ es same total (
      deals_from-count seat had (deal_event d (card_played s card score)) _ es
        (λ e. ground (arith, h e)) once)
deals_from-count seat had d p (go_awarded s points ∷ es) h once =
    let (same, counted, total) = go-Counts seat d p s points in
    shifted seat d (deal_event d (go_awarded s points)) p _ es same total (
      deals_from-count seat had (deal_event d (go_awarded s points)) _ es (λ e. ground (arith, h e))
        once)
deals_from-count seat had d p (hand_shown s cards score ∷ es) h once =
    let (same, counted, total) = hand-Counts seat d p s cards score in
    shifted seat d (deal_event d (hand_shown s cards score)) p _ es same total (
      deals_from-count seat had (deal_event d (hand_shown s cards score)) _ es
        (λ e. ground (arith, h e)) once)
deals_from-count seat had d p (crib_shown cards score ∷ es) h once =
    let (same, counted, total) = crib-Counts seat d p cards score in
    shifted seat d (deal_event d (crib_shown cards score)) p _ es same total (
      deals_from-count seat had (deal_event d (crib_shown cards score)) _ es
        (λ e. ground (arith, h e)) once)
deals_from-count seat had d p (cut_for_deal a b ∷ es) h once =
    deals_from-count seat had d p es h once
deals_from-count seat had d p (handicap a ∷ es) h once = deals_from-count seat had d p es h once
deals_from-count seat had d p (discarded a b c ∷ es) h once =
    deals_from-count seat had d p es h once
deals_from-count seat had d p (pass a ∷ es) h once = deals_from-count seat had d p es h once
deals_from-count seat had d p (series_reset a ∷ es) h once = deals_from-count seat had d p es h once
deals_from-count seat had d p (game_won a ∷ es) h once = deals_from-count seat had d p es h once
deals_from-count seat had d p (show_not_counted a b c ∷ es) h once =
    deals_from-count seat had d p es h once

total_from :
    (seat dealer : Seat) (es : List Event)
    → cut_once false es ≡ true
    → sum_deals seat (deals_from (new_deal dealer) es)
      ≡ sum_of (count_events seat (dealer, no_points) es).1
total_from seat dealer es once = omega (
  arith,
  deals_from-count seat false (new_deal dealer) no_points es (λ e. refl) once,
  new_total seat dealer,
)

-- On a log that opens with a cut for the deal or a preset position and then a deal, and in which no deal
-- has two starters cut: the deals' totals for a seat add up to the points that the statistics count
-- for it over all categories.
pub deal_stats-game_points :
    (seat : Seat) (opening : Event) (dealer : Seat) (hands : Both (List Card)) (es : List Event)
    → in_hand opening ≡ false
    → cut_once false es ≡ true
    → (ds : List DealStat) × (deal_stats (opening ∷ hand_dealt dealer hands ∷ es) ≡ some ds)
      × (sum_deals seat ds ≡ sum_of (game_points (opening ∷ hand_dealt dealer hands ∷ es) seat))
unfolding deal_stats game_points count_events count_event
deal_stats-game_points seat (cut_for_deal a b) dealer hands es o once =
    (deals_from (new_deal dealer) es, refl, total_from seat dealer es once)
deal_stats-game_points seat (handicap a) dealer hands es o once =
    (deals_from (new_deal dealer) es, refl, total_from seat dealer es once)
deal_stats-game_points seat _ dealer hands es o once = absurd (ground arith)

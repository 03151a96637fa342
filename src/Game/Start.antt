-- ===== src/Game/Start.antt =====
-- `New` of internal/game/game.go: the options, the cut for the deal, and the first hand.
use cribbager.Common.{
  ℕ, zero, suc, List, [], ◌∷◌, Option, none, some, leb, ltb, ◌==◌, if◌then◌else◌,
}
use cribbager.Common.Int.{ℤ, pos, negsuc}
use cribbager.Cribbage.Defs.{Card}
use cribbager.Game.Defs.{Seat, seat0, seat1, Both, cut_for_deal, handicap}
use cribbager.Game.State.{zero_state}
use cribbager.Game.Engine.{DeckSource, Game, Outcome, panicked, emit, deal_hand}

pub record Start : Type 0 where
  pub scores : Both ℤ
  pub dealer : Seat

pub record Options : Type 0 where
  pub deck : DeckSource
  pub target_score : ℤ
  pub start : Option Start

abbrev pub default_target : ℕ
default_target = 121

unfoldable pub target_of : ℤ → ℕ
target_of (pos zero) = default_target
target_of (pos (suc n)) = suc n
target_of (negsuc n) = default_target

-- A start score in [0, target), or none.
unfoldable pub start_score : ℕ → ℤ → Option ℕ
start_score target (pos n) = if leb target n then none else some n
start_score target (negsuc n) = none

-- The result of the cut: the cuts, the dealer and the number of the next shuffle; a panic; or no
-- fuel left while every cut was a tie.
pub data Cut : Type 0 where
  cut : Both Card → Seat → ℕ → Cut
  cut_panics : Cut
  all_tied : Cut

-- One round of the loop of `cutForDeal` on shuffle `i`; `again` is the rest of the loop.
unfoldable pub cut_round : Option (List Card) → ℕ → Cut → Cut
cut_round none i again = cut_panics
cut_round (some []) i again = cut_panics
cut_round (some (a ∷ [])) i again = cut_panics
cut_round (some (a ∷ b ∷ d)) i again =
    if a.rank == b.rank
    then again
    else cut (record { at0 = a; at1 = b }) (if ltb b.rank a.rank then seat1 else seat0) (suc i)

-- The loop of `cutForDeal`, from shuffle `i` on.
unfoldable pub cut_deal : ℕ → DeckSource → ℕ → Cut
cut_deal zero src i = all_tied
cut_deal (suc fuel) src i = let again : Cut = cut_deal fuel src (suc i) in cut_round (src i) i again

unfoldable pub blank : ℕ → DeckSource → Game
blank target src = record {
  target = target;
  src = src;
  shuffles = 0;
  log = [];
  state = zero_state;
  rest = [];
  version = 0;
}

unfoldable pub start_at : Game → Seat → Option ℕ → Option ℕ → Outcome Game
start_at g dealer (some n) (some m) =
    deal_hand (emit g (handicap (record { at0 = n; at1 = m }))) dealer
start_at g dealer _ _ = panicked

-- `none` only where the fuel ran out in the cut.
unfoldable pub deal_after_cut : Game → Cut → Option (Outcome Game)
deal_after_cut g (cut cuts dealer next) =
    some (deal_hand (emit (record g { shuffles = next }) (cut_for_deal cuts dealer)) dealer)
deal_after_cut g cut_panics = some panicked
deal_after_cut g all_tied = none

-- `New` with the target and the start position settled.
unfoldable pub begin : ℕ → Game → Option Start → Option (Outcome Game)
begin fuel g (some s) =
    some
      (start_at g s.dealer (start_score g.target s.scores.at0) (start_score g.target s.scores.at1))
begin fuel g none = deal_after_cut g (cut_deal fuel g.src 0)

unfoldable pub new : ℕ → Options → Option (Outcome Game)
new fuel opts = begin fuel (blank (target_of opts.target_score) opts.deck) opts.start

-- ===== src/Cribbage/Decks.antt =====
-- internal/cribbage/deck.go: how often each card stands in `Deck`.
use cribbager.Common.{
  ℕ, zero, suc, ◌+◌, ◌≡◌, refl, ◌∙◌, Bool, ◌&&◌, ◌==◌, if◌then◌else◌, arith, leb, ltb, length,
}
use cribbager.Cribbage.Defs.{Card, rank_valid, suit_valid, deck, suits_from, ranks_from}
use cribbager.Cribbage.Occurrences.{occ, occ-append}

abbrev between : ℕ → ℕ → ℕ → Bool
between lo n x = leb lo x && ltb x (lo + n)

occ-suits_from :
    (n r s : ℕ) (c : Card)
    → occ c (suits_from n r s) ≡ (if c.rank == r && between s n c.suit then 1 else 0)
unfolding suits_from
occ-suits_from zero r s c = ground arith
occ-suits_from (suc n) r s c = ground (arith, occ-suits_from n r (s + 1) c)

occ-ranks_from :
    (n r : ℕ) (c : Card)
    → occ c (ranks_from n r) ≡ (if between r n c.rank && leb c.suit 3 then 1 else 0)
unfolding ranks_from
occ-ranks_from zero r c = ground arith
occ-ranks_from (suc n) r c = ground (
  arith,
  occ-append c (suits_from 4 r 0) (ranks_from n (r + 1)),
  occ-suits_from 4 r 0 c,
  occ-ranks_from n (r + 1) c,
)

-- Each valid card stands in the deck once, and no other card stands there.
pub occ-deck : (c : Card) → occ c deck ≡ (if rank_valid c.rank && suit_valid c.suit then 1 else 0)
unfolding deck rank_valid suit_valid
occ-deck c = occ-ranks_from 13 1 c ∙ ground arith

-- The deck has 52 cards.
pub length-deck : length deck ≡ 52
unfolding deck ranks_from suits_from
length-deck = refl

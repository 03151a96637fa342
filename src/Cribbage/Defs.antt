-- ===== src/Cribbage/Defs.antt =====
-- internal/cribbage/card.go and deck.go: suits, ranks, cards, their two-letter notation, the deck.
-- `Rank` and `Suit` are uint8 values, kept as numbers; a text is the list of its bytes; an error
-- carries no message.
use cribbager.Common.{
  ℕ, zero, suc, ◌+◌, ◌-◌, ◌≤◌, min, Bool, not, ◌&&◌, List, [], ◌∷◌, ◌++◌, leb, ◌==◌, if◌then◌else◌,
  Option, none, some, get_elem?,
}

abbrev pub Rank : Type 0
Rank = ℕ

abbrev pub Suit : Type 0
Suit = ℕ

abbrev pub clubs : Suit
clubs = 0

abbrev pub spades : Suit
spades = 3

abbrev pub ace : Rank
ace = 1

abbrev pub jack : Rank
jack = 11

abbrev pub king : Rank
king = 13

pub record Card : Type 0 where
  pub rank : Rank
  pub suit : Suit

pub data CardError : Type 0 where
  invalid_rank invalid_suit bad_card_text : CardError

-- What a Go function with results `(T, error)` returns.
pub data Checked {ℓ} (A : Type ℓ) : Type ℓ where
  good : A → Checked A
  bad : CardError → Checked A

unfoldable pub rank_valid : Rank → Bool
rank_valid r = leb ace r && leb r king

unfoldable pub suit_valid : Suit → Bool
suit_valid s = leb s spades

-- The cards of a real deck.
abbrev pub IsCard : Card → Type 0
IsCard c = (ace ≤ c.rank) × (c.rank ≤ king) × (c.suit ≤ spades)

unfoldable pub new_card : Rank → Suit → Checked Card
unfolding rank_valid suit_valid
new_card rank suit =
    if not (rank_valid rank)
    then bad invalid_rank
    else if not (suit_valid suit)
    then bad invalid_suit
    else good (record { rank = rank; suit = suit })

abbrev pub pip_value : Rank → ℕ
pip_value r = min r 10

-- Go's `==` on two cards.
abbrev pub card_eq : Card → Card → Bool
card_eq a b = a.rank == b.rank && a.suit == b.suit

abbrev pub rank_letters : List ℕ
rank_letters =
    b'A' ∷ b'2' ∷ b'3' ∷ b'4' ∷ b'5' ∷ b'6' ∷ b'7' ∷ b'8' ∷ b'9' ∷ b'T' ∷ b'J' ∷ b'Q' ∷ b'K' ∷ []

abbrev pub suit_letters : List ℕ
suit_letters = b'C' ∷ b'D' ∷ b'H' ∷ b'S' ∷ []

-- The one-letter text of a table's entry. The callers check the index, so the table has it.
unfoldable pub letter_at : List ℕ → ℕ → List ℕ
letter_at letters i = elim (get_elem? letters i) [ none ↦ [] | some b ↦ b ∷ [] ]

unfoldable pub rank_string : Rank → List ℕ
unfolding rank_valid
rank_string r = if rank_valid r then letter_at rank_letters (r - 1) else b'?' ∷ []

unfoldable pub suit_string : Suit → List ℕ
unfolding suit_valid
suit_string s = if suit_valid s then letter_at suit_letters s else b'?' ∷ []

unfoldable pub card_string : Card → List ℕ
card_string c = rank_string c.rank ++ suit_string c.suit

-- The loop `for i, letter := range letters` of both searches, from index `i` on.
unfoldable pub letter_index : List ℕ → ℕ → ℕ → Option ℕ
letter_index [] i b = none
letter_index (letter ∷ rest) i b = if letter == b then some i else letter_index rest (i + 1) b

unfoldable pub rank_from_byte : ℕ → Option Rank
unfolding letter_index
rank_from_byte b = elim (letter_index rank_letters 0 b) [ none ↦ none | some i ↦ some (i + 1) ]

unfoldable pub suit_from_byte : ℕ → Option Suit
unfolding letter_index
suit_from_byte b = letter_index suit_letters 0 b

-- `ParseCard` past its length test.
parse_letters : ℕ → ℕ → Checked Card
unfolding rank_from_byte suit_from_byte
parse_letters r s = elim (rank_from_byte r) [
  | none ↦ bad invalid_rank
  | some rank ↦ elim (suit_from_byte s) [
    | none ↦ bad invalid_suit
    | some suit ↦ good (record { rank = rank; suit = suit })
  ]
]

unfoldable pub parse_card : List ℕ → Checked Card
unfolding parse_letters
parse_card [] = bad bad_card_text
parse_card (r ∷ []) = bad bad_card_text
parse_card (r ∷ s ∷ []) = parse_letters r s
parse_card (r ∷ s ∷ t ∷ rest) = bad bad_card_text

-- The inner loop of `Deck`: `n` suits of rank `r`, from suit `s` on.
unfoldable pub suits_from : ℕ → Rank → Suit → List Card
suits_from zero r s = []
suits_from (suc n) r s = record { rank = r; suit = s } ∷ suits_from n r (s + 1)

-- The outer loop: `n` ranks, from rank `r` on, each with the suits Clubs..Spades.
unfoldable pub ranks_from : ℕ → Rank → List Card
unfolding suits_from
ranks_from zero r = []
ranks_from (suc n) r = suits_from 4 r clubs ++ ranks_from n (r + 1)

unfoldable pub deck : List Card
deck = ranks_from 13 ace

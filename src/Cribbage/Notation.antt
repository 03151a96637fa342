-- ===== src/Cribbage/Notation.antt =====
-- internal/cribbage/card.go: the two-letter notation of `ParseCard` and `Card.String`.
use cribbager.Common.{
  ℕ, suc, ◌+◌, ◌-◌, ◌≤◌, ◌<◌, ◌≡◌, refl, sym, ap, subst, length, get_elem?, ◌⊎◌, inl, inr, Bool,
  true, false, List, [], ◌∷◌, ◌==◌, arith, Bool-cases, Option-cases, some, all_below,
  all_below-true,
}
use cribbager.Cribbage.Defs.{
  letter_at, Rank, Suit, Card, IsCard, Checked, good, bad, invalid_rank, new_card, card_eq,
  card_string, rank_string, suit_string, parse_card, rank_from_byte, suit_from_byte, letter_index,
  rank_letters, suit_letters,
}
use cribbager.Cribbage.Occurrences.{card_eq_iff}

-- `NewCard` accepts exactly the ranks Ace..King with the suits Clubs..Spades, and returns that card;
-- an invalid rank is reported before an invalid suit.
pub new_card_lem :
    (c : Card)
    → (IsCard c → new_card c.rank c.suit ≡ good c)
      × ((d : Card) → new_card c.rank c.suit ≡ good d → IsCard d × (d ≡ c))
      × ((c.rank ≡ 0) ⊎ (13 < c.rank) → new_card c.rank c.suit ≡ bad invalid_rank)
unfolding new_card
new_card_lem c = (ground arith, (λ d h. ground arith), ground arith)

parses_as : Card → Checked Card → Bool
parses_as c (good d) = card_eq d c
parses_as c (bad e) = false

notation_table :
    all_below 13 (λ r. all_below 4 (λ s.
      let c : Card = record { rank = r + 1; suit = s } in parses_as c (parse_card (card_string c))))
    ≡ true
unfolding all_below parses_as parse_card card_string rank_string suit_string letter_at
notation_table = refl

parses_as-true : (c : Card) (r : Checked Card) → parses_as c r ≡ true → r ≡ good c
unfolding parses_as
parses_as-true c (good d) h = ap good ((card_eq_iff d c).0 h)
parses_as-true c (bad e) h = cc

-- Every valid card's text parses back to that card.
pub parse_card-card_string : (c : Card) → IsCard c → parse_card (card_string c) ≡ good c
parse_card-card_string c h =
    let c' : Card = record { rank = c.rank - 1 + 1; suit = c.suit } in
    let e : c' ≡ c = ground arith in
    subst (λ x. parse_card (card_string x) ≡ good x) e
      (parses_as-true c' (parse_card (card_string c')) (
        all_below-true 4
          (λ s.
            parses_as (record { rank = c.rank - 1 + 1; suit = s })
              (parse_card (card_string (record { rank = c.rank - 1 + 1; suit = s }))))
          c.suit
          (all_below-true 13
            (λ r. all_below 4 (λ s.
              parses_as (record { rank = r + 1; suit = s })
                (parse_card (card_string (record { rank = r + 1; suit = s })))))
            (c.rank - 1) notation_table (omega arith))
          (omega arith)))

-- What a letter's index means: the table has the letter there.
letter_index-get_elem? :
    (letters : List ℕ) (i b j : ℕ)
    → letter_index letters i b ≡ some j
    → (k : ℕ) × (j ≡ i + k) × (get_elem? letters k ≡ some b) × (k < length letters)
unfolding letter_index
letter_index-get_elem? [] i b j h = cc
letter_index-get_elem? (x ∷ rest) i b j h = elim (Bool-cases (x == b)) [
  | inl hit ↦ (0, ground arith, ground arith, omega arith)
  | inr miss ↦
      let (k, e, g, l) = letter_index-get_elem? rest (i + 1) b j (ground arith) in
      (suc k, omega arith, g, omega arith)
]

letter_at-eq :
    (letters : List ℕ) (k b : ℕ) → get_elem? letters k ≡ some b → letter_at letters k ≡ b ∷ []
unfolding letter_at
letter_at-eq letters k b h = rw (h, letter_at)

rank_from_byte-string :
    (b : ℕ) (r : Rank) → rank_from_byte b ≡ some r → (1 ≤ r) × (r ≤ 13) × (rank_string r ≡ b ∷ [])
unfolding rank_from_byte rank_string
rank_from_byte-string b r h = elim (Option-cases (letter_index rank_letters 0 b)) [
  | inl missing ↦ ground arith
  | inr (i, found) ↦
      let (k, e, g, l) = letter_index-get_elem? rank_letters 0 b i found in
      let er : r ≡ suc k = ground arith in
      (
        omega arith,
        omega arith,
        rank_of (r - 1) (subst (λ t. get_elem? rank_letters t ≡ some b) (omega arith) g)
            (omega arith) (omega arith),
      )
]
  where
    rank_of :
        (m : ℕ) → get_elem? rank_letters m ≡ some b → m + 1 ≡ r → m < 13 → rank_string r ≡ b ∷ []
    rank_of m at e lt = ground (arith, letter_at-eq rank_letters m b at)

suit_from_byte-string :
    (b : ℕ) (s : Suit) → suit_from_byte b ≡ some s → (s ≤ 3) × (suit_string s ≡ b ∷ [])
unfolding suit_from_byte suit_string
suit_from_byte-string b s h =
    let (k, e, g, l) = letter_index-get_elem? suit_letters 0 b s h in
    let es : s ≡ k = omega arith in
    (
      omega arith,
      ground (
        arith,
        letter_at-eq suit_letters s b (subst (λ t. get_elem? suit_letters t ≡ some b) (sym es) g),
      ),
    )

-- A text that parses is the text of the card that it parses to, and that card is valid.
pub card_string-parse_card :
    (s : List ℕ) (c : Card) → parse_card s ≡ good c → IsCard c × (card_string c ≡ s)
unfolding parse_card card_string
card_string-parse_card [] c h = cc
card_string-parse_card (r ∷ []) c h = cc
card_string-parse_card (r ∷ t ∷ []) c h = elim (Option-cases (rank_from_byte r)) [
  | inl e ↦ ground arith
  | inr (rank, er) ↦ elim (Option-cases (suit_from_byte t)) [
    | inl e ↦ ground arith
    | inr (suit, es) ↦
        let (lo, hi, tr) = rank_from_byte-string r rank er in
        let (top, ts) = suit_from_byte-string t suit es in
        let e : c ≡ record { rank = rank; suit = suit } = ground arith in
        rw e ((lo, hi, top), rw (tr, ts))
  ]
]
card_string-parse_card (r ∷ t ∷ u ∷ rest) c h = cc

-- ===== src/Bot/Random.antt =====
-- internal/bot/bots.go: the random bot. `draw v k n` is the result of `Intn(n)` in the k-th call of the
-- generator for the view `v`.
use cribbager.Common.{
  Text, ℕ, zero, suc, ◌+◌, ◌-◌, ◌≤◌, ◌<◌, ◌≡◌, refl, true, false, List, [], ◌∷◌, Option, none, some,
  length, get_elem?, ltb, leb, if◌then◌else◌, arith, Bool-cases, inl, inr, ap, sym, ◌∙◌, ◌==◌,
}
use cribbager.Cribbage.Defs.{Card, card_eq}
use cribbager.Cribbage.Occurrences.{occ, Distinct, card_eq_iff, card_eq_refl}
use cribbager.Pegging.Defs.{contains}
use cribbager.Game.View.{PlayerView}
use cribbager.Bot.Defs.{Bot}
use cribbager.Bot.Moves.{IsLawful}

abbrev pub Draw : Type 0
Draw = PlayerView → ℕ → ℕ → ℕ

-- Two elements of the hand, or the panic of an index out of range.
both_of : Option Card → Option Card → Option (Card × Card)
both_of none q = none
both_of (some c) none = none
both_of (some c) (some d) = some (c, d)

unfoldable pub random_discard : Draw → PlayerView → Option (Card × Card)
unfolding both_of
random_discard draw v =
    let h : List Card = v.your_hand in
    let i : ℕ = draw v 0 (length h) in
    let k : ℕ = draw v 1 (length h - 1) in
    let j : ℕ = if leb i k then k + 1 else k in
    if ltb (length h) 2 then none else both_of (get_elem? h i) (get_elem? h j)

unfoldable pub random_play : Draw → PlayerView → Option Card
random_play draw v = get_elem? v.legal (draw v 0 (length v.legal))

-- "random", and the version "1".
abbrev pub random_name : Text
random_name = 114 ∷ 97 ∷ 110 ∷ 100 ∷ 111 ∷ 109 ∷ []

abbrev pub random_bot : Draw → Bot
random_bot draw = record {
  name = random_name;
  version = 49 ∷ [];
  choose_discard = random_discard draw;
  choose_play = random_play draw;
}

get_elem?-some :
    (xs : List Card) (i : ℕ)
    → i < length xs
    → (x : Card) × (get_elem? xs i ≡ some x) × (contains xs x ≡ true)
unfolding contains
get_elem?-some [] i h = absurd (omega arith)
get_elem?-some (x ∷ xs) zero h = (x, refl, ground (arith, card_eq_refl x))
get_elem?-some (x ∷ xs) (suc i) h =
    let (y, e, c) = get_elem?-some xs i (omega arith) in (y, e, ground (arith, c))

once : (xs : List Card) (j : ℕ) (x : Card) → get_elem? xs j ≡ some x → 1 ≤ occ x xs
once [] j x h = cc
once (y ∷ xs) zero x h = ground (arith, card_eq_iff y x)
once (y ∷ xs) (suc j) x h = omega (arith, once xs j x h)

twice :
    (xs : List Card) (i j : ℕ) (x : Card)
    → i < j
    → get_elem? xs i ≡ some x
    → get_elem? xs j ≡ some x
    → 2 ≤ occ x xs
twice [] i j x h e k = cc
twice (y ∷ xs) i zero x h e k = absurd (omega arith)
twice (y ∷ xs) zero (suc j) x h e k = ground (arith, once xs j x k, card_eq_iff y x)
twice (y ∷ xs) (suc i) (suc j) x h e k = omega (arith, twice xs i j x (omega arith) e k)

differ :
    (xs : List Card) (i j : ℕ) (x y : Card)
    → Distinct xs
    → (i == j) ≡ false
    → get_elem? xs i ≡ some x
    → get_elem? xs j ≡ some y
    → card_eq x y ≡ false
differ xs i j x y once_each ne e k = elim (Bool-cases (card_eq x y)) [
  | inr differs ↦ differs
  | inl equal ↦
      let same : x ≡ y = (card_eq_iff x y).0 equal in
      let k' : get_elem? xs j ≡ some x = k ∙ ap some (sym same) in
      elim (Bool-cases (ltb i j)) [
        | inl lt ↦ absurd (omega (arith, once_each x, twice xs i j x (ground arith) e k'))
        | inr ge ↦ absurd (omega (arith, once_each x, twice xs j i x (ground arith) k' e))
      ]
]

six_enough : (h : List Card) → length h ≡ 6 → ltb (length h) 2 ≡ false
six_enough h e = ground arith

contains-length : (xs : List Card) (c : Card) → contains xs c ≡ true → 0 < length xs
unfolding contains
contains-length [] c h = cc
contains-length (x ∷ xs) c h = omega arith

-- A generator whose draws lie in their range makes a random bot that keeps to the bot's contract: it throws two
-- different cards of a hand of six different ones, and plays a legal card whenever there is one.
pub random_bot-IsLawful :
    (draw : Draw)
    → ((v : PlayerView) (k n : ℕ) → 0 < n → draw v k n < n)
    → IsLawful (random_bot draw)
unfolding random_discard random_play both_of
random_bot-IsLawful draw in_range = record { discards = throws; plays = picks }
  where
    throws :
        (v : PlayerView)
        → length v.your_hand ≡ 6
        → Distinct v.your_hand
        → (p : Card × Card) × (random_discard draw v ≡ some p)
          × (contains v.your_hand p.0 ≡ true)
          × (contains v.your_hand p.1 ≡ true)
          × (card_eq p.0 p.1 ≡ false)
    throws v six once_each =
        let h : List Card = v.your_hand in
        let i : ℕ = draw v 0 (length h) in
        let k : ℕ = draw v 1 (length h - 1) in
        let j : ℕ = if leb i k then k + 1 else k in
        let hi : i < length h = in_range v 0 (length h) (omega (arith, six)) in
        let hk : k < length h - 1 = in_range v 1 (length h - 1) (omega (arith, six)) in
        let (c, ec, hc) = get_elem?-some h i hi in
        let (d, ed, hd) = get_elem?-some h j (ground arith) in
        (
          (c, d),
          rw (six_enough h six, ec, ed) refl,
          hc,
          hd,
          differ h i j c d once_each (ground arith) ec ed,
        )

    picks :
        (v : PlayerView)
        → (c : Card) × (contains v.legal c ≡ true)
        → (c : Card) × (random_play draw v ≡ some c) × (contains v.legal c ≡ true)
    picks v (c, held) =
        get_elem?-some v.legal (draw v 0 (length v.legal))
          (in_range v 0 (length v.legal) (contains-length v.legal c held))

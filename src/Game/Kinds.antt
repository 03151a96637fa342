-- ===== src/Game/Kinds.antt =====
-- Which events of internal/game/event.go a part of the engine may emit.
use cribbager.Common.{◌≡◌, refl, Bool, true, false, ◌&&◌, List, [], ◌∷◌, ◌++◌, arith}
use cribbager.Game.Defs.{
  Event, cut_for_deal, handicap, hand_dealt, discarded, card_played, starter_cut, pass, go_awarded,
  series_reset, hand_shown, crib_shown, game_won, show_not_counted,
}

-- An event that does not open the game.
abbrev pub in_hand : Event → Bool
in_hand (cut_for_deal cuts d) = false
in_hand (handicap scores) = false
in_hand _ = true

-- An event that follows from a move, and is no move itself.
abbrev pub quiet : Event → Bool
quiet (cut_for_deal cuts d) = false
quiet (handicap scores) = false
quiet (discarded s c d) = false
quiet (card_played s c r) = false
quiet _ = true

-- The same within one deal.
abbrev pub calm : Event → Bool
calm (hand_dealt d hands) = false
calm e = quiet e

-- An event that plays no card.
abbrev pub idle : Event → Bool
idle (card_played s c r) = false
idle _ = true

abbrev pub every : (Event → Bool) → List Event → Bool
every P [] = true
every P (e ∷ es) = P e && every P es

pub every-append :
    (P : Event → Bool) (xs ys : List Event)
    → every P xs ≡ true
    → every P ys ≡ true
    → every P (xs ++ ys) ≡ true
every-append P [] ys h k = k
every-append P (x ∷ xs) ys h k = ground (arith, every-append P xs ys)

pub every-weaken :
    (P Q : Event → Bool) (xs : List Event)
    → ((e : Event) → P e ≡ true → Q e ≡ true)
    → every P xs ≡ true
    → every Q xs ≡ true
every-weaken P Q [] w h = refl
every-weaken P Q (x ∷ xs) w h = ground (arith, w x, every-weaken P Q xs w)

pub quiet-in_hand : (e : Event) → quiet e ≡ true → in_hand e ≡ true
quiet-in_hand (cut_for_deal a b) h = h
quiet-in_hand (handicap a) h = h
quiet-in_hand (hand_dealt a b) h = refl
quiet-in_hand (discarded a b c) h = refl
quiet-in_hand (starter_cut a b) h = refl
quiet-in_hand (card_played a b c) h = refl
quiet-in_hand (pass a) h = refl
quiet-in_hand (go_awarded a b) h = refl
quiet-in_hand (series_reset a) h = refl
quiet-in_hand (hand_shown a b c) h = refl
quiet-in_hand (crib_shown a b) h = refl
quiet-in_hand (game_won a) h = refl
quiet-in_hand (show_not_counted a b c) h = refl

pub calm-quiet : (e : Event) → calm e ≡ true → quiet e ≡ true
calm-quiet (cut_for_deal a b) h = h
calm-quiet (handicap a) h = h
calm-quiet (hand_dealt a b) h = refl
calm-quiet (discarded a b c) h = h
calm-quiet (starter_cut a b) h = refl
calm-quiet (card_played a b c) h = h
calm-quiet (pass a) h = refl
calm-quiet (go_awarded a b) h = refl
calm-quiet (series_reset a) h = refl
calm-quiet (hand_shown a b c) h = refl
calm-quiet (crib_shown a b) h = refl
calm-quiet (game_won a) h = refl
calm-quiet (show_not_counted a b c) h = refl

pub quiet-idle : (e : Event) → quiet e ≡ true → idle e ≡ true
quiet-idle (cut_for_deal a b) h = refl
quiet-idle (handicap a) h = refl
quiet-idle (hand_dealt a b) h = refl
quiet-idle (discarded a b c) h = refl
quiet-idle (starter_cut a b) h = refl
quiet-idle (card_played a b c) h = h
quiet-idle (pass a) h = refl
quiet-idle (go_awarded a b) h = refl
quiet-idle (series_reset a) h = refl
quiet-idle (hand_shown a b c) h = refl
quiet-idle (crib_shown a b) h = refl
quiet-idle (game_won a) h = refl
quiet-idle (show_not_counted a b c) h = refl

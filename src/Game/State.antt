-- ===== src/Game/State.antt =====
-- The foldable state of internal/game/game.go, the fold `reduce`, and the turn and legality helpers
-- that read it. `winner` is -1 or a seat in the source, an option here.
use cribbager.Common.{
  ℕ, ◌+◌, Bool, true, false, ◌&&◌, ◌||◌, not, List, [], ◌∷◌, ◌++◌, Option, none, some, leb, ltb,
  if◌then◌else◌,
}
use cribbager.Cribbage.Defs.{Card, card_eq, pip_value}
use cribbager.Game.Defs.{
  Seat, seat0, other, Both, pick, put, both, Phase, phase_discard, phase_play, phase_complete,
  Event, cut_for_deal, handicap, hand_dealt, discarded, starter_cut, card_played, pass, go_awarded,
  series_reset, hand_shown, crib_shown, game_won, show_not_counted,
}

pub record State : Type 0 where
  pub dealer : Seat
  pub scores : Both ℕ
  pub phase : Phase
  pub hands : Both (List Card)
  pub played : Both (List Card)
  pub crib : List Card
  pub starter : Card
  pub has_starter : Bool
  pub has_discarded : Both Bool
  pub crib_thrown : Both (Option (Card × Card))
  pub pile : List Card
  pub count : ℕ
  pub gone : Both Bool
  pub last_player : Seat
  pub winner : Option Seat

-- Go's zero value `cribbage.Card{}`.
abbrev pub no_card : Card
no_card = record { rank = 0; suit = 0 }

-- The foldable part of `&Game{winner: -1}`.
abbrev pub zero_state : State
zero_state = record {
  dealer = seat0;
  scores = both 0;
  phase = phase_discard;
  hands = both [];
  played = both [];
  crib = [];
  starter = no_card;
  has_starter = false;
  has_discarded = both false;
  crib_thrown = both none;
  pile = [];
  count = 0;
  gone = both false;
  last_player = seat0;
  winner = none;
}

-- `without` for one card: the first occurrence is dropped.
unfoldable pub without : List Card → Card → List Card
without [] c = []
without (x ∷ xs) c = if card_eq x c then xs else x ∷ without xs c

-- A score stops at the target; a target of 0 stops nothing.
unfoldable pub clamp : ℕ → ℕ → ℕ
clamp target n = if ltb 0 target && ltb target n then target else n

unfoldable pub add_points : ℕ → State → Seat → ℕ → State
unfolding clamp
add_points target s seat pts = record s {
  scores = put s.scores seat (clamp target (pick s.scores seat + pts));
}

unfoldable pub reduce : ℕ → State → Event → State
unfolding without add_points
reduce target s (cut_for_deal cuts dealer) = record s { dealer = dealer }
reduce target s (handicap scores) = record s { scores = scores }
reduce target s (hand_dealt dealer hands) = record s {
  dealer = dealer;
  hands = hands;
  played = both [];
  crib = [];
  starter = no_card;
  has_starter = false;
  has_discarded = both false;
  crib_thrown = both none;
  pile = [];
  count = 0;
  gone = both false;
  last_player = dealer;
  phase = phase_discard;
}
reduce target s (discarded seat c d) = record s {
  hands = put s.hands seat (without (without (pick s.hands seat) c) d);
  crib = s.crib ++ c ∷ d ∷ [];
  has_discarded = put s.has_discarded seat true;
  crib_thrown = put s.crib_thrown seat (some (c, d));
}
reduce target s (starter_cut card heels) =
    add_points target (record s { starter = card; has_starter = true; phase = phase_play }) s.dealer
      heels
reduce target s (card_played seat card score) =
    add_points target
      (record s {
        hands = put s.hands seat (without (pick s.hands seat) card);
        played = put s.played seat (pick s.played seat ++ card ∷ []);
        pile = s.pile ++ card ∷ [];
        count = s.count + pip_value card.rank;
        last_player = seat;
      })
      seat score.total
reduce target s (pass seat) = record s { gone = put s.gone seat true }
reduce target s (go_awarded seat points) = add_points target s seat points
reduce target s (series_reset leader) = record s {
  pile = [];
  count = 0;
  gone = both false;
  last_player = other leader;
}
reduce target s (hand_shown seat cards score) = add_points target s seat score.total
reduce target s (crib_shown cards score) = add_points target s s.dealer score.total
reduce target s (game_won seat) = record s { winner = some seat; phase = phase_complete }
reduce target s (show_not_counted seat cards is_crib) = s

-- The fold of a log.
unfoldable pub fold : ℕ → State → List Event → State
fold target s [] = s
fold target s (e ∷ es) = fold target (reduce target s e) es

abbrev pub playable : State → Card → Bool
playable s c = leb (s.count + pip_value c.rank) 31

-- The loop of `canPlay` at a count, and that of `legalPlays`.
unfoldable pub any_playable : ℕ → List Card → Bool
any_playable count [] = false
any_playable count (c ∷ cs) = leb (count + pip_value c.rank) 31 || any_playable count cs

unfoldable pub playables : ℕ → List Card → List Card
playables count [] = []
playables count (c ∷ cs) =
    if leb (count + pip_value c.rank) 31 then c ∷ playables count cs else playables count cs

abbrev pub legal_plays : State → Seat → List Card
legal_plays s seat = playables s.count (pick s.hands seat)

abbrev pub can_play : State → Seat → Bool
can_play s seat = any_playable s.count (pick s.hands seat)

unfoldable pub turn : State → Seat
turn s =
    let opp : Seat = other s.last_player in
    if not (pick s.gone opp) && can_play s opp then opp else s.last_player

abbrev pub is_empty {ℓ} : {A : Type ℓ} → List A → Bool
is_empty [] = true
is_empty (x ∷ xs) = false

abbrev pub both_hands_empty : State → Bool
both_hands_empty s = is_empty s.hands.at0 && is_empty s.hands.at1

-- The other player leads, unless out of cards.
unfoldable pub leader_after : State → Seat → Seat
leader_after s last = if is_empty (pick s.hands (other last)) then last else other last

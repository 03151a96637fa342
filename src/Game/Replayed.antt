-- ===== src/Game/Replayed.antt =====
-- internal/game/reconstruct.go: the reconstruction accepts the log of every game. It folds the log
-- without a target, so its scores may pass the engine's; nothing else in its state differs.
use cribbager.Common.{
  ℕ, zero, suc, ◌+◌, ◌≡◌, refl, sym, ap, ◌∙◌, subst, true, List, [], ◌∷◌, none, ok, arith, leb,
  ◌++◌,
}
use cribbager.Cribbage.Defs.{Card, pip_value}
use cribbager.Cribbage.Occurrences.{card_eq_iff}
use cribbager.Pegging.Defs.{contains}
use cribbager.Game.Defs.{
  Seat, seat0, seat1, seat_eq, both, pick, phase_eq, phase_play, Event, card_played, hand_dealt,
  cut_for_deal, handicap, discarded, starter_cut, pass, go_awarded, series_reset, hand_shown,
  crib_shown, game_won, show_not_counted,
}
use cribbager.Game.State.{State, zero_state, reduce, add_points, turn, playables, without}
use cribbager.Game.View.{view_state}
use cribbager.Game.Engine.{DeckSource, Game}
use cribbager.Game.History.{Played}
use cribbager.Game.Runs.{LawfulIn, Runs, Played-Runs}
use cribbager.Game.Reconstruct.{
  PlayDecision, Found, check_decision, found_by, decide, decisions_of, dealt_after, joined,
  reconstruct_from, reconstruct_plays, plays_of, Recorded, reconstruct_plays-Recorded,
}

-- The state but for its scores.
abbrev unscored : State → State
unscored s = record s { scores = both 0 }

reduce-unscored :
    (target : ℕ) (s : State) (e : Event)
    → unscored (reduce target s e) ≡ unscored (reduce 0 (unscored s) e)
unfolding reduce add_points
reduce-unscored target s (cut_for_deal a b) = refl
reduce-unscored target s (handicap a) = refl
reduce-unscored target s (hand_dealt a b) = refl
reduce-unscored target s (discarded a b c) = refl
reduce-unscored target s (starter_cut a b) = refl
reduce-unscored target s (card_played a b c) = refl
reduce-unscored target s (pass a) = refl
reduce-unscored target s (go_awarded a b) = refl
reduce-unscored target s (series_reset a) = refl
reduce-unscored target s (hand_shown a b c) = refl
reduce-unscored target s (crib_shown a b) = refl
reduce-unscored target s (game_won a) = refl
reduce-unscored target s (show_not_counted a b c) = refl

same_step :
    (target : ℕ) (s s' : State) (e : Event)
    → unscored s ≡ unscored s'
    → unscored (reduce 0 s e) ≡ unscored (reduce target s' e)
same_step target s s' e h =
    reduce-unscored 0 s e ∙ ap (λ x. unscored (reduce 0 x e)) h ∙ sym (reduce-unscored target s' e)

-- A play is lawful or not whatever the scores.
abbrev Guards : State → Seat → Card → Type 0
Guards s seat card =
    (phase_eq s.phase phase_play ≡ true)
    × (seat_eq seat (turn s) ≡ true)
    × (contains (pick s.hands seat) card ≡ true)
    × (leb (s.count + pip_value card.rank) 31 ≡ true)

unscored-Guards :
    (s s' : State) (seat : Seat) (card : Card)
    → unscored s ≡ unscored s'
    → Guards s' seat card
    → Guards s seat card
unfolding turn
unscored-Guards s s' seat card h g = subst (λ x. Guards x seat card) (sym h) g

contains-playables :
    (count : ℕ) (cards : List Card) (c : Card)
    → contains cards c ≡ true
    → leb (count + pip_value c.rank) 31 ≡ true
    → contains (playables count cards) c ≡ true
unfolding playables contains
contains-playables count [] c h k = cc
contains-playables count (x ∷ xs) c h k =
    ground (arith, contains-playables count xs c, card_eq_iff x c)

seat_eq-swap : (a b : Seat) → seat_eq a b ≡ true → seat_eq b a ≡ true
seat_eq-swap seat0 seat0 h = refl
seat_eq-swap seat1 seat1 h = refl
seat_eq-swap seat0 seat1 h = cc
seat_eq-swap seat1 seat0 h = cc

accepted :
    (s : State) (version : ℕ) (seat : Seat) (card : Card)
    → Guards s seat card
    → check_decision (view_state s version seat) seat card ≡ none
unfolding check_decision view_state
accepted s version seat card (in_play, turned, held, fits) =
    rw
      (
        in_play,
        seat_eq-swap seat (turn s) turned,
        contains-playables s.count (pick s.hands seat) card held fits,
      )
      refl

-- Before the first deal nobody holds a card.
abbrev Undealt : ℕ → State → Type 0
Undealt n s = n ≡ 0 → s.hands ≡ both []

no_throw :
    (s : State) (seat : Seat) (c d : Card)
    → s.hands ≡ both []
    → (reduce 0 s (discarded seat c d)).hands ≡ both []
unfolding reduce without
no_throw s seat0 c d h = rw h refl
no_throw s seat1 c d h = rw h refl

no_play :
    (s : State) (seat : Seat) (card : Card)
    → s.hands ≡ both []
    → contains (pick s.hands seat) card ≡ true
    → ⊥
unfolding contains
no_play s seat0 card h held = cc
no_play s seat1 card h held = cc

step-Undealt :
    (n : ℕ) (s : State) (e : Event)
    → LawfulIn s e
    → Undealt n s
    → Undealt (dealt_after n e) (reduce 0 s e)
unfolding reduce add_points
step-Undealt n s (cut_for_deal a b) g h z = h z
step-Undealt n s (handicap a) g h z = h z
step-Undealt n s (hand_dealt a b) g h z = absurd (omega (arith, z))
step-Undealt n s (discarded a b c) g h z = no_throw s a b c (h z)
step-Undealt n s (starter_cut a b) g h z = h z
step-Undealt n s (card_played a b c) (x, y, held, w) h z = absurd (no_play s a b (h z) held)
step-Undealt n s (pass a) g h z = h z
step-Undealt n s (go_awarded a b) g h z = h z
step-Undealt n s (series_reset a) g h z = h z
step-Undealt n s (hand_shown a b c) g h z = h z
step-Undealt n s (crib_shown a b) g h z = h z
step-Undealt n s (game_won a) g h z = h z
step-Undealt n s (show_not_counted a b c) g h z = h z

same-LawfulIn : (s s' : State) (e : Event) → unscored s ≡ unscored s' → LawfulIn s' e → LawfulIn s e
same-LawfulIn s s' (card_played a b c) h g = unscored-Guards s s' a b h g
same-LawfulIn s s' (cut_for_deal a b) h g = tt
same-LawfulIn s s' (handicap a) h g = tt
same-LawfulIn s s' (hand_dealt a b) h g = tt
same-LawfulIn s s' (discarded a b c) h g = tt
same-LawfulIn s s' (starter_cut a b) h g = tt
same-LawfulIn s s' (pass a) h g = tt
same-LawfulIn s s' (go_awarded a b) h g = tt
same-LawfulIn s s' (series_reset a) h g = tt
same-LawfulIn s s' (hand_shown a b c) h g = tt
same-LawfulIn s s' (crib_shown a b) h g = tt
same-LawfulIn s s' (game_won a) h g = tt
same-LawfulIn s s' (show_not_counted a b c) h g = tt

abbrev IsFound : Found → Type 0
IsFound m = (ds : List PlayDecision) × (m ≡ ok ds)

decide-IsFound :
    (s : State) (version n : ℕ) (seat : Seat) (card : Card)
    → Guards s seat card
    → Undealt n s
    → IsFound (decide (view_state s version seat) n seat card)
unfolding decide
decide-IsFound s version zero seat card (x, y, held, z) h =
    absurd (no_play s seat card (h refl) held)
decide-IsFound s version (suc deal) seat card g h =
    let d : PlayDecision = record {
      deal = deal;
      seat = seat;
      seen = view_state s version seat;
      played = card;
    } in
    (d ∷ [], ap (λ o. found_by o d) (accepted s version seat card g))

decisions-IsFound :
    (s : State) (version n : ℕ) (e : Event)
    → LawfulIn s e
    → Undealt n s
    → IsFound (decisions_of s version n e)
unfolding decisions_of
decisions-IsFound s version n (card_played a b c) g h = decide-IsFound s version n a b g h
decisions-IsFound s version n (cut_for_deal a b) g h = ([], refl)
decisions-IsFound s version n (handicap a) g h = ([], refl)
decisions-IsFound s version n (hand_dealt a b) g h = ([], refl)
decisions-IsFound s version n (discarded a b c) g h = ([], refl)
decisions-IsFound s version n (starter_cut a b) g h = ([], refl)
decisions-IsFound s version n (pass a) g h = ([], refl)
decisions-IsFound s version n (go_awarded a b) g h = ([], refl)
decisions-IsFound s version n (series_reset a) g h = ([], refl)
decisions-IsFound s version n (hand_shown a b c) g h = ([], refl)
decisions-IsFound s version n (crib_shown a b) g h = ([], refl)
decisions-IsFound s version n (game_won a) g h = ([], refl)
decisions-IsFound s version n (show_not_counted a b c) g h = ([], refl)

joined-IsFound : (m rest : Found) → IsFound m → IsFound rest → IsFound (joined m rest)
joined-IsFound m rest (d, e) (ds, es) = (d ++ ds, ap (λ x. joined x rest) e ∙ ap (joined (ok d)) es)

Runs-IsFound :
    (target : ℕ) (s s' : State) (version n : ℕ) (es : List Event)
    → unscored s ≡ unscored s'
    → Undealt n s
    → Runs target s' es
    → IsFound (reconstruct_from s version n es)
unfolding reconstruct_from
Runs-IsFound target s s' version n [] h u r = ([], refl)
Runs-IsFound target s s' version n (e ∷ es) h u (now, later) =
    let here = same-LawfulIn s s' e h now in
    joined-IsFound _ _ (decisions-IsFound s version n e here u) (
      Runs-IsFound target (reduce 0 s e) (reduce target s' e) (version + 1) (dealt_after n e) es
        (same_step target s s' e h) (step-Undealt n s e here u) later)

-- The log of every game that was begun and played, on whatever decks, is accepted by the
-- reconstruction, which returns one decision for each play, in order, with the seat and card of the play;
-- each view is that seat's own, in the play phase with that seat on turn, and lists the card as legal.
pub reconstruct_plays-Played :
    {src : DeckSource} {g : Game}
    → Played src g
    → (ds : List PlayDecision) × (reconstruct_plays g.log ≡ ok ds) × Recorded (plays_of g.log) ds
unfolding reconstruct_plays
reconstruct_plays-Played {g = g} p =
    let (ds, found) =
      Runs-IsFound g.target zero_state zero_state 0 0 g.log refl (λ z. refl) (Played-Runs p) in
    (ds, found, reconstruct_plays-Recorded g.log ds found)

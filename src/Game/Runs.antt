-- ===== src/Game/Runs.antt =====
-- Logs in which every card played is lawful where it stands (the guards of `applyPlay` of
-- internal/game/game.go), and that the log of every game is one.
use cribbager.Common.{
  ℕ, ◌≡◌, refl, sym, ap, ◌∙◌, subst, Bool, true, false, not, List, [], ◌∷◌, ◌++◌, if◌then◌else◌,
  drop, drop-append, length, arith, Bool-cases, inl, inr, append_assoc, Fallible, ok, err,
}
use cribbager.Cribbage.Defs.{Card}
use cribbager.Pegging.Defs.{contains, PegResult, PegError}
use cribbager.Pegging.Defs
use cribbager.Game.Defs.{
  Seat, seat_eq, pick, phase_eq, phase_play, Command, discard, play, unknown, Event, card_played,
  hand_dealt, cut_for_deal, handicap, discarded, starter_cut, pass, go_awarded, series_reset,
  hand_shown, crib_shown, game_won, show_not_counted,
}
use cribbager.Game.State.{State, zero_state, reduce, fold, turn, playable}
use cribbager.Game.Kinds.{idle, quiet, every, quiet-idle, calm-quiet}
use cribbager.Game.Log.{Follows, itself}
use cribbager.Game.Engine.{
  ◌>>=◌, DeckSource, Game, Outcome, done, failed, panicked, is_none, emit, play_scored, apply_play,
  apply_discard, dispatch, apply, reply,
}
use cribbager.Game.Sourcing.{apply_discard-Follows, after_move-Follows, apply-Appends}
use cribbager.Game.History.{Played, begun, moved, new-idle, Played-IsFolded}

-- A card is played in the play, by the seat on turn, from its hand and within the count.
abbrev pub LawfulIn : State → Event → Type 0
LawfulIn s (card_played seat card score) =
    (phase_eq s.phase phase_play ≡ true)
    × (seat_eq seat (turn s) ≡ true)
    × (contains (pick s.hands seat) card ≡ true)
    × (playable s card ≡ true)
LawfulIn s _ = Unit

abbrev pub Runs : ℕ → State → List Event → Type 0
Runs target s [] = Unit
Runs target s (e ∷ es) = LawfulIn s e × Runs target (reduce target s e) es

Runs-append :
    (target : ℕ) (s : State) (xs ys : List Event)
    → Runs target s xs
    → Runs target (fold target s xs) ys
    → Runs target s (xs ++ ys)
unfolding fold
Runs-append target s [] ys h k = k
Runs-append target s (x ∷ xs) ys (hx, h) k = (hx, Runs-append target (reduce target s x) xs ys h k)

idle-LawfulIn : (s : State) (e : Event) → idle e ≡ true → LawfulIn s e
idle-LawfulIn s (cut_for_deal a b) h = tt
idle-LawfulIn s (handicap a) h = tt
idle-LawfulIn s (hand_dealt a b) h = tt
idle-LawfulIn s (discarded a b c) h = tt
idle-LawfulIn s (starter_cut a b) h = tt
idle-LawfulIn s (card_played a b c) h = cc
idle-LawfulIn s (pass a) h = tt
idle-LawfulIn s (go_awarded a b) h = tt
idle-LawfulIn s (series_reset a) h = tt
idle-LawfulIn s (hand_shown a b c) h = tt
idle-LawfulIn s (crib_shown a b) h = tt
idle-LawfulIn s (game_won a) h = tt
idle-LawfulIn s (show_not_counted a b c) h = tt

idle-Runs : (target : ℕ) (s : State) (es : List Event) → every idle es ≡ true → Runs target s es
idle-Runs target s [] h = tt
idle-Runs target s (e ∷ es) h =
    (idle-LawfulIn s e (ground arith), idle-Runs target (reduce target s e) es (ground arith))

quiet-Runs : (target : ℕ) (s : State) (es : List Event) → every quiet es ≡ true → Runs target s es
quiet-Runs target s [] h = tt
quiet-Runs target s (e ∷ es) h = (
  idle-LawfulIn s e (quiet-idle e (ground arith)),
  quiet-Runs target (reduce target s e) es (ground arith),
)

-- Whatever game a result holds has a log that goes on from that of `g` with lawful plays.
abbrev GoesOn : Game → Outcome Game → Type 0
GoesOn g (done h) = (es : List Event) × (h.log ≡ g.log ++ es) × Runs g.target g.state es
GoesOn g (failed e h) = Unit
GoesOn g panicked = Unit

idle-GoesOn : (g : Game) (m : Outcome Game) → Follows idle itself g m → GoesOn g m
idle-GoesOn g (done h) r = (r.events, r.log_is, idle-Runs g.target g.state r.events r.only)
idle-GoesOn g (failed e h) r = tt
idle-GoesOn g panicked r = tt

move-GoesOn :
    (g : Game) (e : Event) (m : Outcome Game)
    → LawfulIn g.state e
    → Follows quiet itself (emit g e) m
    → GoesOn g m
unfolding emit
move-GoesOn g e (done h) lawful r = (
  e ∷ r.events,
  r.log_is ∙ append_assoc g.log (e ∷ []) r.events,
  (lawful, quiet-Runs g.target (reduce g.target g.state e) r.events r.only),
)
move-GoesOn g e (failed x h) lawful r = tt
move-GoesOn g e panicked lawful r = tt

-- A guard: its error, or what follows when it is not met.
guarded :
    (g : Game) (b : Bool) (m n : Outcome Game)
    → GoesOn g m
    → (b ≡ false → GoesOn g n)
    → GoesOn g (if b then m else n)
guarded g true m n h k = h
guarded g false m n h k = k refl

play_scored-GoesOn :
    (g : Game) (seat : Seat) (card : Card) (m : Fallible PegError PegResult)
    → ((r : PegResult) → LawfulIn g.state (card_played seat card r))
    → GoesOn g (play_scored g seat card m)
unfolding play_scored
play_scored-GoesOn g seat card (err e) lawful = tt
play_scored-GoesOn g seat card (ok res) lawful =
    move-GoesOn g (card_played seat card res) _ (lawful res)
      (after_move-Follows (emit g (card_played seat card res)) seat)

unmet : (b : Bool) → not b ≡ false → b ≡ true
unmet b h = ground arith

apply_play-GoesOn : (g : Game) (seat : Seat) (card : Card) → GoesOn g (apply_play g seat card)
unfolding apply_play
apply_play-GoesOn g seat card = guarded g (not (phase_eq g.phase phase_play)) _ _ tt (λ in_play.
    guarded g (not (seat_eq seat (turn g.state))) _ _ tt (λ on_turn.
      guarded g (not (contains (pick g.hands seat) card)) _ _ tt (λ held.
        guarded g (not (playable g.state card)) _ _ tt (λ fits.
          play_scored-GoesOn g seat card (Defs.score g.pile card)
            (λ r. (unmet _ in_play, unmet _ on_turn, unmet _ held, unmet _ fits))))))

dispatch-GoesOn : (g : Game) (seat : Seat) (cmd : Command) → GoesOn g (dispatch g seat cmd)
unfolding dispatch
dispatch-GoesOn g seat (discard c d) =
    idle-GoesOn g (apply_discard g seat c d)
      (apply_discard-Follows idle g seat c d (λ e h. quiet-idle e (calm-quiet e h)) refl)
dispatch-GoesOn g seat (play c) = apply_play-GoesOn g seat c
dispatch-GoesOn g seat unknown = tt

returned-Runs :
    (g : Game) (m : Outcome Game) (g' : Game) (events : List Event)
    → GoesOn g m
    → (m >>= reply g) ≡ done (g', events)
    → Runs g.target g.state events
returned-Runs g (done h) g' events (es, log_is, runs) e =
    let gained : drop (length g.log) h.log ≡ events = ground arith in
    subst (Runs g.target g.state)
      (sym (drop-append g.log es) ∙ ap (drop (length g.log)) (sym log_is) ∙ gained) runs
returned-Runs g (failed x k) g' events r e = cc
returned-Runs g panicked g' events r e = cc

apply-Runs :
    (g : Game) (seat : Seat) (cmd : Command) (g' : Game) (events : List Event)
    → apply g seat cmd ≡ done (g', events)
    → Runs g.target g.state events
unfolding apply
apply-Runs g seat cmd g' events e = elim (Bool-cases (is_none g.winner)) [
  | inl open_game ↦
      returned-Runs g (dispatch g seat cmd) g' events (dispatch-GoesOn g seat cmd)
        (rw open_game at e)
  | inr ended ↦ absurd (ground arith)
]

-- In the log of a game that was begun and played, on whatever decks, every card played is lawful in
-- the state to which the log before it folds.
pub Played-Runs : {src : DeckSource} {g : Game} → Played src g → Runs g.target zero_state g.log
Played-Runs {g = g} (begun fuel opts same b) =
    idle-Runs g.target zero_state g.log (new-idle fuel opts g b)
Played-Runs (moved {g = h} {g' = g} seat cmd events p e) =
    let a = apply-Appends h seat cmd g events e in
    subst (λ t. Runs t zero_state g.log) (sym a.same_target)
      (subst (Runs h.target zero_state) (sym a.log_is) (
        Runs-append h.target zero_state h.log events (Played-Runs p) (
          subst (λ s. Runs h.target s events) (Played-IsFolded p).folded
            (apply-Runs h seat cmd g events e))))

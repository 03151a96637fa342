-- ===== src/Game/Apply.antt =====
-- `Apply` of internal/game/game.go on games with the invariant: its answers to every command, and the
-- plays of the seat on turn.
use cribbager.Common.{ℕ, ◌+◌, ◌≤◌, ◌≡◌, refl, inl, inr, true, List, [], ◌∷◌, leb, arith, Bool-cases}
use cribbager.Cribbage.Defs.{Card, pip_value}
use cribbager.Cribbage.Occurrences.{card_eq_iff}
use cribbager.Pegging.Defs.{contains}
use cribbager.Pegging.Defs
use cribbager.Game.Defs.{
  Seat, seat0, seat1, seat_eq, pick, phase_eq, phase_play, Event, Command, discard, play, unknown,
}
use cribbager.Game.State.{playable, can_play, turn, any_playable, playables, legal_plays}
use cribbager.Game.Engine.{
  ◌>>=◌, Game, Outcome, done, failed, panicked, apply_play, play_scored, dispatch, apply, reply,
  is_none,
}
use cribbager.Game.Laid.{Good}
use cribbager.Game.Series.{Running}
use cribbager.Game.Card.{play_scored-Inv}
use cribbager.Game.Starter.{Answers}
use cribbager.Game.Throw.{Good-Answers, apply_discard-Answers}
use cribbager.Game.Invariant.{Resting, discarding, playing, over, Inv}

-- A resting game in the play runs, and its player on turn can play.
pub Inv-Running :
    (g : Game)
    → Inv g
    → phase_eq g.phase phase_play ≡ true
    → Running g × (can_play g.state (turn g.state) ≡ true)
Inv-Running g v h = from v.resting
  where
    from : Resting g → Running g × (can_play g.state (turn g.state) ≡ true)
    from (discarding s b) = absurd (ground (arith, s.in_discard))
    from (playing s b t) =
        (record { fair = v.fair; goal = v.goal; material = v.material; state_ok = s; below = b }, t)
    from (over w won) = absurd (ground (arith, won.complete))

apply_play-Answers :
    (g : Game) (seat : Seat) (card : Card) → Inv g → Answers g (apply_play g seat card)
unfolding apply_play
apply_play-Answers g seat card v = elim (Bool-cases (phase_eq g.phase phase_play)) [
  | inr wrong ↦ rw wrong refl
  | inl right ↦ elim (Bool-cases (seat_eq seat (turn g.state))) [
    | inr not_turn ↦ rw (right, not_turn) refl
    | inl on_turn ↦ elim (Bool-cases (contains (pick g.hands seat) card)) [
      | inr lacks ↦ rw (right, on_turn, lacks) refl
      | inl held ↦ elim (Bool-cases (playable g.state card)) [
        | inr over_31 ↦ rw (right, on_turn, held, over_31) refl
        | inl fits ↦
            rw (right, on_turn, held, fits)
              (Good-Answers g _
                (play_scored-Inv g seat card (Inv-Running g v right).0 held (ground arith)))
      ]
    ]
  ]
]

dispatch-Answers :
    (g : Game) (seat : Seat) (cmd : Command) → Inv g → Answers g (dispatch g seat cmd)
unfolding dispatch
dispatch-Answers g seat (discard c d) v = apply_discard-Answers g seat c d v
dispatch-Answers g seat (play c) v = apply_play-Answers g seat c v
dispatch-Answers g seat unknown v = refl

-- The answer to a command: no panic; a refusal leaves the game as it was; an accepted command leaves
-- a game with the invariant.
abbrev pub Replies : Game → Outcome (Game × List Event) → Type 0
Replies g (done (g', events)) = Inv g'
Replies g (failed e h) = h ≡ g
Replies g panicked = ⊥

Answers-Replies : (g : Game) (m : Outcome Game) → Answers g m → Replies g (m >>= reply g)
Answers-Replies g (done g') h = h
Answers-Replies g (failed e k) h = h
Answers-Replies g panicked h = h

-- Any command of any seat to a game with the invariant, which includes that its source deals 52
-- different cards at each shuffle: the engine does not panic; a refused command leaves the game
-- exactly as it was; an accepted one leaves a game with the invariant.
pub apply-Replies : (g : Game) (seat : Seat) (cmd : Command) → Inv g → Replies g (apply g seat cmd)
unfolding apply
apply-Replies g seat cmd v = elim (Bool-cases (is_none g.winner)) [
  | inl open_game ↦
      rw open_game (Answers-Replies g (dispatch g seat cmd) (dispatch-Answers g seat cmd v))
  | inr ended ↦ rw ended refl
]

playables-contains :
    (count : ℕ) (cards : List Card) (c : Card)
    → contains (playables count cards) c ≡ true
    → (contains cards c ≡ true) × (count + pip_value c.rank ≤ 31)
unfolding playables contains
playables-contains count [] c h = cc
playables-contains count (x ∷ xs) c h =
    ground (arith, playables-contains count xs c, card_eq_iff x c)

pub any_playable-playables :
    (count : ℕ) (cards : List Card)
    → any_playable count cards ≡ true
    → (c : Card) × (contains (playables count cards) c ≡ true)
unfolding playables any_playable contains
any_playable-playables count [] h = cc
any_playable-playables count (x ∷ xs) h = elim (Bool-cases (leb (count + pip_value x.rank) 31)) [
  | inl fits ↦ (x, ground arith)
  | inr big ↦ let (c, e) = any_playable-playables count xs (ground arith) in (c, ground (arith, e))
]

-- An accepted command.
abbrev pub Accepts : Outcome (Game × List Event) → Type 0
Accepts m = Good (λ p. Inv p.0) m

pub Good-Accepts : (g : Game) (m : Outcome Game) → Good Inv m → Accepts (m >>= reply g)
Good-Accepts g (done g') h = h
Good-Accepts g (failed e k) h = h
Good-Accepts g panicked h = h

pub seat_eq_refl : (s : Seat) → seat_eq s s ≡ true
seat_eq_refl seat0 = refl
seat_eq_refl seat1 = refl

-- Every card that `legalPlays` lists for the seat on turn is accepted in the play phase, and the
-- game then keeps the invariant.
pub legal_play-Accepts :
    (g : Game) (c : Card)
    → Inv g
    → g.phase ≡ phase_play
    → contains (legal_plays g.state (turn g.state)) c ≡ true
    → Accepts (apply g (turn g.state) (play c))
unfolding apply dispatch apply_play
legal_play-Accepts g c v h legal =
    let (r, can) = Inv-Running g v (ground arith) in
    let (held, fits) = playables-contains g.count (pick g.hands (turn g.state)) c legal in
    let right : phase_eq g.phase phase_play ≡ true = ground arith in
    let open_game : is_none g.winner ≡ true = ground (arith, r.state_ok.undecided) in
    let small : playable g.state c ≡ true = ground arith in
    rw (open_game, right, seat_eq_refl (turn g.state), held, small)
      (Good-Accepts g (play_scored g (turn g.state) c (Defs.score g.pile c))
        (play_scored-Inv g (turn g.state) c r held fits))

-- The play never gets stuck: in the play phase of a game with the invariant, the seat on turn has a
-- legal play that the engine accepts, and the game then keeps the invariant.
pub turn-never_stuck :
    (g : Game)
    → Inv g
    → g.phase ≡ phase_play
    → (c : Card) × (contains (legal_plays g.state (turn g.state)) c ≡ true)
      × Accepts (apply g (turn g.state) (play c))
turn-never_stuck g v h =
    let (c, legal) =
      any_playable-playables g.count (pick g.hands (turn g.state))
        (Inv-Running g v (ground arith)).1 in
    (c, legal, legal_play-Accepts g c v h legal)

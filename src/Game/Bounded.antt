-- ===== src/Game/Bounded.antt =====
-- internal/game/game.go: how many commands a game takes until its end.
use cribbager.Common.{
  ℕ, zero, suc, ◌+◌, ◌≤◌, ◌<◌, ◌≡◌, true, List, arith, Bool-cases, inl, inr, subst,
}
use cribbager.Game.Defs.{Seat, Command, Event}
use cribbager.Game.Engine.{Game, done, apply, is_none}
use cribbager.Game.Invariant.{Inv, Resting, discarding, playing, over}
use cribbager.Game.Apply.{Replies, apply-Replies}
use cribbager.Game.Potential.{potential}
use cribbager.Game.Ending.{apply-Shrinks}

-- Some `n` commands, accepted one after the other, lead from the one game to the other.
pub data Commands : ℕ → Game → Game → Type 0 where
  start : {g : Game} → Commands zero g g
  next :
      {n : ℕ} {f g h : Game} (seat : Seat) (cmd : Command) (events : List Event)
      → Commands n f g
      → apply g seat cmd ≡ done (h, events)
      → Commands (suc n) f h

accepted-open :
    (g : Game) (seat : Seat) (cmd : Command) (h : Game) (events : List Event)
    → apply g seat cmd ≡ done (h, events)
    → is_none g.winner ≡ true
unfolding apply
accepted-open g seat cmd h events e = elim (Bool-cases (is_none g.winner)) [
  | inl open_game ↦ open_game
  | inr ended ↦ absurd (ground arith)
]

potential-pos : (g : Game) → Inv g → is_none g.winner ≡ true → 0 < potential g
potential-pos g v open_game = from v.resting
  where
    from : Resting g → 0 < potential g
    from (discarding s b) = omega (arith, b.below0, b.below1)
    from (playing s b t) = omega (arith, b.below0, b.below1)
    from (over w won) = absurd (ground (arith, won.winner_is))

-- The invariant at the end of the commands, and what they have used up of the potential.
record Spent (n : ℕ) (f g : Game) : Type 0 where
  inv : Inv g
  within : n ≤ potential f
  used : is_none g.winner ≡ true → n + potential g ≤ potential f

Commands-Spent : {n : ℕ} {f g : Game} → Inv f → Commands n f g → Spent n f g
Commands-Spent {f = f} v start = record { inv = v; within = omega arith; used = λ h. omega arith }
Commands-Spent {f = f} {g = h} v (next {n = n} {g = g} seat cmd events c e) =
    let s = Commands-Spent v c in
    let open_game = accepted-open g seat cmd h events e in
    record {
      inv = subst (Replies g) e (apply-Replies g seat cmd s.inv);
      within = omega (arith, s.used open_game, potential-pos g s.inv open_game);
      used =
          λ still. omega (arith, s.used open_game, apply-Shrinks g seat cmd h events s.inv e still);
    }

-- From a game with the invariant, any accepted commands, one after the other, are at most as many as
-- its potential: thirteen times what the two players have left to the target, plus the cards in their
-- hands. Each of them that leaves no winner lowers the potential by at least one.
pub Commands-potential :
    {n : ℕ} {f g : Game}
    → Inv f
    → Commands n f g
    → (n ≤ potential f) × (is_none g.winner ≡ true → n + potential g ≤ potential f)
Commands-potential v c = let s = Commands-Spent v c in (s.within, s.used)

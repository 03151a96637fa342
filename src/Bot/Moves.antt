-- ===== src/Bot/Moves.antt =====
-- What a bot owes the engine, and what its moves then do to a game.
use cribbager.Common.{
  ◌<◌, ◌≡◌, refl, ap, drop, ◌∙◌, subst, true, false, List, some, length, arith, if◌then◌else◌, ◌&&◌,
}
use cribbager.Cribbage.Defs.{Card, card_eq}
use cribbager.Cribbage.Occurrences.{Distinct}
use cribbager.Pegging.Defs.{contains}
use cribbager.Game.Defs.{
  Seat, seat0, seat1, other, pick, Both, Command, Phase, Event, discarded, discard, play, phase_eq,
  phase_discard, phase_play,
}
use cribbager.Game.State.{reduce, legal_plays, turn}
use cribbager.Game.Engine.{
  ◌>>=◌, Game, Outcome, done, apply, apply_discard, dispatch, cut_starter, emit, reply, is_none,
}
use cribbager.Game.Invariant.{Inv}
use cribbager.Game.Kinds.{calm, in_hand}
use cribbager.Game.Log.{Grows, Grows-refl, Grows-trans, Follows, itself}
use cribbager.Game.Sourcing.{cut_starter-Follows, Follows-if, apply-Appends, Appends-Grows}
use cribbager.Game.Laid.{Good, Good-done}
use cribbager.Game.Throw.{throw-Inv, thrown_both, Inv-Discarding}
use cribbager.Game.Apply.{
  Accepts, Inv-Running, legal_play-Accepts, seat_eq_refl, any_playable-playables,
}
use cribbager.Game.Potential.{potential, Grows-calm}
use cribbager.Game.Ending.{apply-Shrinks}
use cribbager.Game.View.{PlayerView, view, view_state}
use cribbager.Bot.Defs.{Bot, discard_move, play_move, discard_chosen, play_chosen}

-- A discard is two different cards of a hand of six different cards; a play is one of the legal ones,
-- where there are any.
pub record IsLawful (b : Bot) : Type 0 where
  pub discards :
      (v : PlayerView)
      → length v.your_hand ≡ 6
      → Distinct v.your_hand
      → (p : Card × Card) × (b.choose_discard v ≡ some p)
        × (contains v.your_hand p.0 ≡ true)
        × (contains v.your_hand p.1 ≡ true)
        × (card_eq p.0 p.1 ≡ false)
  pub plays :
      (v : PlayerView)
      → (c : Card) × (contains v.legal c ≡ true)
      → (c : Card) × (b.choose_play v ≡ some c) × (contains v.legal c ≡ true)

-- A game, and the later one that an accepted command makes of it.
pub record Moves (g g' : Game) : Type 0 where
  pub inv : Inv g'
  pub grows : Grows in_hand g g'
  pub falls : is_none g'.winner ≡ true → potential g' < potential g

pub apply-Moves :
    (g : Game) (seat : Seat) (cmd : Command) (p : Game × List Event)
    → Inv g
    → apply g seat cmd ≡ done p
    → Inv p.0
    → Moves g p.0
apply-Moves g seat cmd p v e inv = record {
  inv = inv;
  grows = Appends-Grows g p.0 p.1 (apply-Appends g seat cmd p.0 p.1 e);
  falls = apply-Shrinks g seat cmd p.0 p.1 v e;
}

accepted :
    (g : Game) (seat : Seat) (cmd : Command)
    → Inv g
    → Accepts (apply g seat cmd)
    → (p : Game × List Event) × (apply g seat cmd ≡ done p) × Moves g p.0
accepted g seat cmd v a =
    let (p, e, inv) = Good-done (λ (p : Game × List Event). Inv p.0) (apply g seat cmd) a in
    (p, e, apply-Moves g seat cmd p v e inv)

-- A throw leaves the other hand, and the first of the two leaves the phase.
pub record Threw (seat : Seat) (g g' : Game) : Type 0 where
  pub other_hand : pick g'.hands (other seat) ≡ pick g.hands (other seat)
  pub first :
      pick g.has_discarded (other seat) ≡ false
      → (phase_eq g'.phase phase_discard ≡ true) × (pick g'.has_discarded (other seat) ≡ false)

thrown_rest : Game → Seat → Card → Card → Outcome Game
thrown_rest g seat c d =
    let thrown : Game = emit g (discarded seat c d) in
    if thrown.has_discarded.at0 && thrown.has_discarded.at1
    then cut_starter thrown thrown.rest
    else done thrown

first_throw :
    (g : Game) (seat : Seat) (c d : Card) (g' : Game)
    → thrown_rest g seat c d ≡ done g'
    → pick g.has_discarded (other seat) ≡ false
    → g' ≡ emit g (discarded seat c d)
unfolding thrown_rest
first_throw g seat c d g' e r =
    let thrown : Game = emit g (discarded seat c d) in
    let kept : done thrown ≡ done g' =
      subst (λ b. (if b then cut_starter thrown thrown.rest else done thrown) ≡ done g')
        (thrown_both g seat c d false r) e in
    cc

thrown-Threw :
    (g : Game) (seat : Seat) (c d : Card) (g' : Game)
    → phase_eq g.phase phase_discard ≡ true
    → Grows calm (emit g (discarded seat c d)) g'
    → (pick g.has_discarded (other seat) ≡ false → g' ≡ emit g (discarded seat c d))
    → Threw seat g g'
unfolding emit reduce
thrown-Threw g seat0 c d g' h f k = record {
  other_hand =
      ap (λ (b : Both (List Card)). b.at1) (Grows-calm (emit g (discarded seat0 c d)) g' f);
  first = λ r. (
    ap (λ (k : Game). phase_eq k.phase phase_discard) (k r) ∙ h,
    ap (λ (k : Game). k.has_discarded.at1) (k r) ∙ r,
  );
}
thrown-Threw g seat1 c d g' h f k = record {
  other_hand =
      ap (λ (b : Both (List Card)). b.at0) (Grows-calm (emit g (discarded seat1 c d)) g' f);
  first = λ r. (
    ap (λ (k : Game). phase_eq k.phase phase_discard) (k r) ∙ h,
    ap (λ (k : Game). k.has_discarded.at0) (k r) ∙ r,
  );
}

-- Two different cards of the hand are accepted from a seat that has not thrown.
discard-accepted :
    (g : Game) (seat : Seat) (c d : Card)
    → Inv g
    → phase_eq g.phase phase_discard ≡ true
    → pick g.has_discarded seat ≡ false
    → contains (pick g.hands seat) c ≡ true
    → contains (pick g.hands seat) d ≡ true
    → card_eq c d ≡ false
    → (p : Game × List Event) × (apply g seat (discard c d) ≡ done p)
      × Moves g p.0
      × Threw seat g p.0
unfolding apply dispatch apply_discard thrown_rest
discard-accepted g seat c d v right mine hc hd ne =
    let (s, b) = Inv-Discarding g v right in
    let thrown : Game = emit g (discarded seat c d) in
    let good : Good Inv (thrown_rest g seat c d) =
      throw-Inv g seat c d
        (record { fair = v.fair; goal = v.goal; material = v.material; below = b }) s mine hc hd
        ne in
    let (g', e, inv) = Good-done Inv (thrown_rest g seat c d) good in
    let open_game : is_none g.winner ≡ true = ground (arith, s.undecided) in
    let grown : Grows calm thrown g' = subst (Follows calm itself thrown) e (
      Follows-if calm thrown (thrown.has_discarded.at0 && thrown.has_discarded.at1) _ _
        (cut_starter-Follows thrown thrown.rest) (Grows-refl calm thrown)) in
    let answered : apply g seat (discard c d) ≡ reply g g' =
      rw (open_game, right, mine, ne, hc, hd) (ap (λ m. m >>= reply g) e) in
    (
      (g', drop (length g.log) g'.log),
      answered,
      apply-Moves g seat (discard c d) (g', drop (length g.log) g'.log) v answered inv,
      thrown-Threw g seat c d g' right grown (first_throw g seat c d g' e),
    )

pub six_cards :
    (g : Game) (seat : Seat)
    → Inv g
    → phase_eq g.phase phase_discard ≡ true
    → pick g.has_discarded seat ≡ false
    → length (pick g.hands seat) ≡ 6
six_cards g seat0 v right mine = ground (arith, (Inv-Discarding g v right).0.size0)
six_cards g seat1 v right mine = ground (arith, (Inv-Discarding g v right).0.size1)

hand-Distinct : (g : Game) (seat : Seat) → Inv g → Distinct (pick g.hands seat)
hand-Distinct g seat0 v c = omega (arith, v.material.once c)
hand-Distinct g seat1 v c = omega (arith, v.material.once c)

phase_eq-eq : (a b : Phase) → phase_eq a b ≡ true → a ≡ b
phase_eq-eq a b h = ground arith

-- The discard of a lawful bot, in a game that waits for its seat's.
pub discard_move-accepted :
    (b : Bot) (g : Game) (seat : Seat)
    → IsLawful b
    → Inv g
    → phase_eq g.phase phase_discard ≡ true
    → pick g.has_discarded seat ≡ false
    → (p : Game × List Event) × (discard_move b g seat ≡ done p) × Moves g p.0 × Threw seat g p.0
unfolding discard_move discard_chosen view
discard_move-accepted b g seat lawful v right mine =
    let ((c, d), chosen, hc, hd, ne) =
      lawful.discards (view g seat) (six_cards g seat v right mine) (hand-Distinct g seat v) in
    rw chosen (discard-accepted g seat c d v right mine hc hd ne)

-- The play of a lawful bot on turn.
pub play_move-accepted :
    (b : Bot) (g : Game)
    → IsLawful b
    → Inv g
    → phase_eq g.phase phase_play ≡ true
    → (p : Game × List Event) × (play_move b g (turn g.state) ≡ done p) × Moves g p.0
unfolding play_move play_chosen view view_state
play_move-accepted b g lawful v right =
    let seat : Seat = turn g.state in
    let shown : (view g seat).legal ≡ legal_plays g.state seat =
      rw (right, seat_eq_refl seat) refl in
    let (one, held) =
      any_playable-playables g.count (pick g.hands seat) (Inv-Running g v right).1 in
    let (c, chosen, legal) =
      lawful.plays (view g seat) (one, ap (λ xs. contains xs one) shown ∙ held) in
    rw chosen (
      accepted g seat (play c) v (
        legal_play-Accepts g c v (phase_eq-eq g.phase phase_play right)
          (subst (λ xs. contains xs c ≡ true) shown legal)))

pub Moves-trans : (g h k : Game) → is_none h.winner ≡ true → Moves g h → Moves h k → Moves g k
Moves-trans g h k open_game m n = record {
  inv = n.inv;
  grows = Grows-trans g h k m.grows n.grows;
  falls = λ e. omega (arith, m.falls open_game, n.falls e);
}

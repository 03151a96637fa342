-- ===== src/Game/Throw.antt =====
-- The discards: two cards to the crib, and the starter once both seats have thrown.
use cribbager.Common.{
  ◌≡◌, refl, inl, inr, Bool, true, false, ◌&&◌, if◌then◌else◌, arith, Bool-cases,
}
use cribbager.Cribbage.Defs.{Card, card_eq}
use cribbager.Pegging.Defs.{contains}
use cribbager.Game.Defs.{Seat, seat0, seat1, other, pick, phase_eq, phase_discard, discarded}
use cribbager.Game.State.{reduce}
use cribbager.Game.Engine.{Game, Outcome, done, failed, panicked, emit, cut_starter, apply_discard}
use cribbager.Game.Laid.{Good}
use cribbager.Game.Invariant.{Material, Discarding, Below, Resting, discarding, playing, over, Inv}
use cribbager.Game.Starter.{
  Open, thrown-Material, first_throw-Discarding, second_throw-Thrown, cut_starter-Inv, Answers,
}

pub Good-Answers : (g : Game) (m : Outcome Game) → Good Inv m → Answers g m
Good-Answers g (done g') h = h
Good-Answers g (failed e k) h = absurd h
Good-Answers g panicked h = h

pub thrown_both :
    (g : Game) (seat : Seat) (c d : Card) (b : Bool)
    → pick g.has_discarded (other seat) ≡ b
    → let thrown = emit g (discarded seat c d) in
      (thrown.has_discarded.at0 && thrown.has_discarded.at1) ≡ b
unfolding emit reduce
thrown_both g seat0 c d b h = h
thrown_both g seat1 c d b h = ground arith

thrown-Open :
    (g : Game) (seat : Seat) (c d : Card)
    → Open g
    → Material (emit g (discarded seat c d))
    → Open (emit g (discarded seat c d))
unfolding emit reduce
thrown-Open g seat c d o m = record {
  fair = o.fair;
  goal = o.goal;
  material = m;
  below = record { below0 = o.below.below0; below1 = o.below.below1 };
}

-- Two cards that the guards let through, from a seat that has not thrown.
pub throw-Inv :
    (g : Game) (seat : Seat) (c d : Card)
    → Open g
    → Discarding g
    → pick g.has_discarded seat ≡ false
    → contains (pick g.hands seat) c ≡ true
    → contains (pick g.hands seat) d ≡ true
    → card_eq c d ≡ false
    → let thrown = emit g (discarded seat c d) in
      Good Inv (
        if thrown.has_discarded.at0 && thrown.has_discarded.at1
        then cut_starter thrown thrown.rest
        else done thrown)
throw-Inv g seat c d o s mine hc hd ne = elim (Bool-cases (pick g.has_discarded (other seat))) [
  | inl both_thrown ↦ rw (thrown_both g seat c d true both_thrown) (
      cut_starter-Inv (emit g (discarded seat c d)) (emit g (discarded seat c d)).rest after
        (second_throw-Thrown g seat c d s mine both_thrown hc hd ne) refl)
  | inr first ↦ rw (thrown_both g seat c d false first) (record {
    fair = after.fair;
    goal = after.goal;
    material = after.material;
    resting = discarding (first_throw-Discarding g seat c d s mine first hc hd ne) after.below;
  })
]
  where
    after : Open (emit g (discarded seat c d))
    after = thrown-Open g seat c d o (thrown-Material g seat c d o.material hc hd ne)

-- A resting game in the discard phase is open for discards.
pub Inv-Discarding :
    (g : Game) → Inv g → phase_eq g.phase phase_discard ≡ true → Discarding g × Below g
Inv-Discarding g v h = from v.resting
  where
    from : Resting g → Discarding g × Below g
    from (discarding s b) = (s, b)
    from (playing s b t) = absurd (ground (arith, s.in_play))
    from (over w won) = absurd (ground (arith, won.complete))

-- Every discard is answered: the guards refuse it without a change, or the game comes to rest.
pub apply_discard-Answers :
    (g : Game) (seat : Seat) (c d : Card) → Inv g → Answers g (apply_discard g seat c d)
unfolding apply_discard
apply_discard-Answers g seat c d v = elim (Bool-cases (phase_eq g.phase phase_discard)) [
  | inr wrong ↦ rw wrong refl
  | inl right ↦ elim (Bool-cases (pick g.has_discarded seat)) [
    | inl already ↦ rw (right, already) refl
    | inr mine ↦ elim (Bool-cases (card_eq c d)) [
      | inl same ↦ rw (right, mine, same) refl
      | inr ne ↦ elim (Bool-cases (contains (pick g.hands seat) c)) [
        | inr lacks ↦ rw (right, mine, ne, lacks) refl
        | inl hc ↦ elim (Bool-cases (contains (pick g.hands seat) d)) [
          | inr lacks ↦ rw (right, mine, ne, hc, lacks) refl
          | inl hd ↦
              let (s, b) = Inv-Discarding g v right in
              rw (right, mine, ne, hc, hd)
                (Good-Answers g _ (
                  throw-Inv g seat c d
                    (record { fair = v.fair; goal = v.goal; material = v.material; below = b }) s
                    mine hc hd ne))
        ]
      ]
    ]
  ]
]

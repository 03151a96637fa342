-- ===== src/Game/Starter.antt =====
-- The cut of the starter after both discards: heels, a win by heels, and the opening of the play.
use cribbager.Common.{
  ℕ, ◌+◌, ◌<◌, ◌≡◌, refl, ap, ◌∙◌, inl, inr, true, false, List, [], ◌∷◌, none, ◌==◌, if◌then◌else◌,
  length, length-append, arith,
}
use cribbager.Cribbage.Defs.{Card, card_eq, jack}
use cribbager.Cribbage.Occurrences.{occ, occ-append}
use cribbager.Pegging.Defs.{contains}
use cribbager.Game.Defs.{Seat, seat0, seat1, other, pick, both, discarded, starter_cut}
use cribbager.Game.State.{State, reduce, add_points, without, can_play, turn}
use cribbager.Game.Cards.{occ-without, length-without, contains-without}
use cribbager.Game.Engine.{Game, Outcome, done, failed, panicked, emit, cut_starter}
use cribbager.Game.Laid.{Good, add_points_bounds, Below-pick}
use cribbager.Game.Series.{Scored, win-cases, any_playable-nonempty}
use cribbager.Game.Play.{Running-Inv}
use cribbager.Game.Invariant.{Material, Discarding, Below, IsFair, Inv}

-- An open game in the discards.
pub record Open (g : Game) : Type 0 where
  pub fair : IsFair g.src
  pub goal : 0 < g.target
  pub material : Material g
  pub below : Below g

-- Two different cards from a hand go to the crib.
pub thrown-Material :
    (g : Game) (seat : Seat) (c d : Card)
    → Material g
    → contains (pick g.hands seat) c ≡ true
    → contains (pick g.hands seat) d ≡ true
    → card_eq c d ≡ false
    → Material (emit g (discarded seat c d))
unfolding emit reduce
thrown-Material g seat0 c d m hc hd ne = record {
  once = λ x. omega (
    arith,
    m.once x,
    occ-without g.hands.at0 c x hc,
    occ-without (without g.hands.at0 c) d x (contains-without g.hands.at0 d c ne ∙ hd),
    occ-append x g.crib (c ∷ d ∷ []),
  );
  piled = m.piled;
  counted = m.counted;
}
thrown-Material g seat1 c d m hc hd ne = record {
  once = λ x. omega (
    arith,
    m.once x,
    occ-without g.hands.at1 c x hc,
    occ-without (without g.hands.at1 c) d x (contains-without g.hands.at1 d c ne ∙ hd),
    occ-append x g.crib (c ∷ d ∷ []),
  );
  piled = m.piled;
  counted = m.counted;
}

pub length-thrown :
    (xs : List Card) (c d : Card)
    → contains xs c ≡ true
    → contains xs d ≡ true
    → card_eq c d ≡ false
    → length xs ≡ length (without (without xs c) d) + 2
length-thrown xs c d hc hd ne = omega (
  arith,
  length-without xs c hc,
  length-without (without xs c) d (contains-without xs d c ne ∙ hd),
)

-- The first throw leaves the other seat's to come.
pub first_throw-Discarding :
    (g : Game) (seat : Seat) (c d : Card)
    → Discarding g
    → pick g.has_discarded seat ≡ false
    → pick g.has_discarded (other seat) ≡ false
    → contains (pick g.hands seat) c ≡ true
    → contains (pick g.hands seat) d ≡ true
    → card_eq c d ≡ false
    → Discarding (emit g (discarded seat c d))
unfolding emit reduce
first_throw-Discarding g seat0 c d s mine theirs hc hd ne =
    ground (arith, length-thrown g.hands.at0 c d hc hd ne, length-append g.crib (c ∷ d ∷ []))
first_throw-Discarding g seat1 c d s mine theirs hc hd ne =
    ground (arith, length-thrown g.hands.at1 c d hc hd ne, length-append g.crib (c ∷ d ∷ []))

-- The game between the second throw and the cut.
pub record Thrown (g : Game) : Type 0 where
  pub undecided : g.winner ≡ none
  pub uncut : g.has_starter ≡ false
  pub four0 : length g.hands.at0 ≡ 4
  pub four1 : length g.hands.at1 ≡ 4
  pub crib_four : length g.crib ≡ 4
  pub unplayed0 : g.played.at0 ≡ []
  pub unplayed1 : g.played.at1 ≡ []
  pub no_pile : g.pile ≡ []
  pub no_count : g.count ≡ 0
  pub none_gone : g.gone ≡ both false
  pub undealt : 0 < length g.rest

pub second_throw-Thrown :
    (g : Game) (seat : Seat) (c d : Card)
    → Discarding g
    → pick g.has_discarded seat ≡ false
    → pick g.has_discarded (other seat) ≡ true
    → contains (pick g.hands seat) c ≡ true
    → contains (pick g.hands seat) d ≡ true
    → card_eq c d ≡ false
    → Thrown (emit g (discarded seat c d))
unfolding emit reduce
second_throw-Thrown g seat0 c d s mine theirs hc hd ne =
    ground (arith, length-thrown g.hands.at0 c d hc hd ne, length-append g.crib (c ∷ d ∷ []))
second_throw-Thrown g seat1 c d s mine theirs hc hd ne =
    ground (arith, length-thrown g.hands.at1 c d hc hd ne, length-append g.crib (c ∷ d ∷ []))

cut-Scored :
    (g : Game) (starter : Card) (rest : List Card) (heels : ℕ)
    → Open g
    → Thrown g
    → g.rest ≡ starter ∷ rest
    → let g1 = emit (record g { rest = rest }) (starter_cut starter heels) in Scored g1 g1.dealer
unfolding emit reduce add_points
cut-Scored g starter rest heels o t e = record {
  fair = o.fair;
  goal = o.goal;
  material = record {
    once = λ c. ground (arith, o.material.once c, t.uncut, ap (occ c) e);
    piled = o.material.piled;
    counted = o.material.counted;
  };
  state_ok = record {
    in_play = refl;
    undecided = t.undecided;
    is_cut = refl;
    four0 = ground (arith, t.four0, t.unplayed0);
    four1 = ground (arith, t.four1, t.unplayed1);
    crib_four = t.crib_four;
    count_le = omega (arith, t.no_count);
  };
  within = (add_points_bounds g.target g.state g.dealer heels o.goal).0;
  other_below = omega (
    arith,
    (add_points_bounds g.target g.state g.dealer heels o.goal).1,
    Below-pick g (other g.dealer) o.below,
  );
}

-- With no card played, whoever is on turn may lead any card.
lead-turn :
    (s : State)
    → length s.hands.at0 ≡ 4
    → length s.hands.at1 ≡ 4
    → s.count ≡ 0
    → s.gone ≡ both false
    → can_play s (turn s) ≡ true
unfolding turn
lead-turn s l0 l1 c gone =
    ground (arith, any_playable-nonempty s.hands.at0, any_playable-nonempty s.hands.at1)

cut-turn :
    (g : Game) (starter : Card) (rest : List Card) (heels : ℕ)
    → Thrown g
    → let g1 = emit (record g { rest = rest }) (starter_cut starter heels) in
      can_play g1.state (turn g1.state) ≡ true
unfolding emit reduce add_points
cut-turn g starter rest heels t =
    lead-turn (emit (record g { rest = rest }) (starter_cut starter heels)).state t.four0 t.four1
      t.no_count t.none_gone

pub cut_starter-Inv :
    (g : Game) (rest : List Card)
    → Open g
    → Thrown g
    → g.rest ≡ rest
    → Good Inv (cut_starter g rest)
unfolding cut_starter
cut_starter-Inv g [] o t e = absurd (omega (arith, t.undealt, ap length e))
cut_starter-Inv g (starter ∷ rest) o t e =
    let heels : ℕ = if starter.rank == jack then 2 else 0 in
    let g1 : Game = emit (record g { rest = rest }) (starter_cut starter heels) in
    elim (win-cases g1 g1.dealer (cut-Scored g starter rest heels o t e)) [
      | inl (w, won) ↦ rw w won
      | inr (w, on) ↦ rw w (Running-Inv g1 on (cut-turn g starter rest heels t))
    ]

-- What a command may do to a game: leave a game that rests again, or refuse and change nothing.
abbrev pub Answers : Game → Outcome Game → Type 0
Answers g (done g') = Inv g'
Answers g (failed e h) = h ≡ g
Answers g panicked = ⊥

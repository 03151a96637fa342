-- ===== src/Game/Log.antt =====
-- The log of internal/game/game.go: how the state, the log and the version of a game move together
-- through the helpers of the engine.
use cribbager.Common.{
  ℕ, suc, ◌+◌, ◌≡◌, refl, sym, ap, ◌∙◌, Bool, true, false, ◌&&◌, List, [], ◌∷◌, ◌++◌, Option, none,
  some, length, length-append, arith, Bool-cases, append_assoc, append-nil, inl, inr, leb,
}
use cribbager.Cribbage.Defs.{Card}
use cribbager.Hand.Defs.{HandResult}
use cribbager.Game.Defs.{
  Seat, other, pick, put, both, Event, hand_shown, crib_shown, show_not_counted, game_won,
  hand_dealt,
}
use cribbager.Game.State.{State, fold, reduce}
use cribbager.Game.Kinds.{
  in_hand, quiet, calm, every, every-append, every-weaken, quiet-in_hand, calm-quiet,
}
use cribbager.Game.Engine.{
  ◌>>=◌, Game, Outcome, done, failed, panicked, is_none, emit, check_win, take_deal, deal_deck,
  deal_cards, deal_hand, must_hand_score, emit_show, show_dealer, next_hand, show_crib,
  resolve_show,
}

pub fold-append :
    (target : ℕ) (s : State) (xs ys : List Event)
    → fold target s (xs ++ ys) ≡ fold target (fold target s xs) ys
unfolding fold
fold-append target s [] ys = refl
fold-append target s (x ∷ xs) ys = fold-append target (reduce target s x) xs ys

-- A later state of the game, reached by appending events of the kind `P`.
pub record Grows (P : Event → Bool) (g g' : Game) : Type 0 where
  pub events : List Event
  pub only : every P events ≡ true
  pub log_is : g'.log ≡ g.log ++ events
  pub folded : g'.state ≡ fold g.target g.state events
  pub counted : g'.version ≡ g.version + length events
  pub same_target : g'.target ≡ g.target
  pub same_src : g'.src ≡ g.src

pub Grows-refl : (P : Event → Bool) (g : Game) → Grows P g g
unfolding fold
Grows-refl P g = record {
  events = [];
  only = refl;
  log_is = sym (append-nil g.log);
  folded = refl;
  counted = omega arith;
  same_target = refl;
  same_src = refl;
}

pub Grows-trans : {P : Event → Bool} (f g h : Game) → Grows P f g → Grows P g h → Grows P f h
Grows-trans {P} f g h a b = record {
  events = a.events ++ b.events;
  only = every-append P a.events b.events a.only b.only;
  log_is = b.log_is ∙ ap (λ l. l ++ b.events) a.log_is ∙ append_assoc f.log a.events b.events;
  folded =
      b.folded
      ∙ ap (λ t. fold t g.state b.events) a.same_target
      ∙ ap (λ s. fold f.target s b.events) a.folded
      ∙ sym (fold-append f.target f.state a.events b.events);
  counted = omega (arith, b.counted, a.counted, length-append a.events b.events);
  same_target = b.same_target ∙ a.same_target;
  same_src = b.same_src ∙ a.same_src;
}

pub Grows-weaken :
    (P Q : Event → Bool) {g g' : Game}
    → ((e : Event) → P e ≡ true → Q e ≡ true)
    → Grows P g g'
    → Grows Q g g'
Grows-weaken P Q w r = record {
  events = r.events;
  only = every-weaken P Q r.events w r.only;
  log_is = r.log_is;
  folded = r.folded;
  counted = r.counted;
  same_target = r.same_target;
  same_src = r.same_src;
}

pub Grows-quiet : {g g' : Game} → Grows calm g g' → Grows quiet g g'
Grows-quiet = Grows-weaken calm quiet calm-quiet

pub Grows-in_hand : {g g' : Game} → Grows quiet g g' → Grows in_hand g g'
Grows-in_hand = Grows-weaken quiet in_hand quiet-in_hand

-- Taking cards off the undealt rest emits nothing.
pub Grows-emit_rest :
    (P : Event → Bool) (g : Game) (rest : List Card) (shuffles : ℕ) (e : Event)
    → P e ≡ true
    → Grows P g (emit (record g { rest = rest; shuffles = shuffles }) e)
unfolding emit fold
Grows-emit_rest P g rest shuffles e h = record {
  events = e ∷ [];
  only = ground arith;
  log_is = refl;
  folded = refl;
  counted = refl;
  same_target = refl;
  same_src = refl;
}

pub Grows-emit : (P : Event → Bool) (g : Game) (e : Event) → P e ≡ true → Grows P g (emit g e)
Grows-emit P g e h = Grows-emit_rest P g g.rest g.shuffles e h

-- Whatever game a result holds grows out of `g`.
abbrev pub Follows {ℓ} : {A : Type ℓ} → (Event → Bool) → (A → Game) → Game → Outcome A → Type 0
Follows P at g (done a) = Grows P g (at a)
Follows P at g (failed e h) = Unit {0}
Follows P at g panicked = Unit {0}

abbrev pub itself : Game → Game
itself g = g

abbrev pub flagged : Game × Bool → Game
flagged p = p.0

pub Follows-trans {ℓ} :
    {A : Type ℓ} (P : Event → Bool) (at : A → Game) (g h : Game) (m : Outcome A)
    → Grows P g h
    → Follows P at h m
    → Follows P at g m
Follows-trans P at g h (done a) r f = Grows-trans g h (at a) r f
Follows-trans P at g h (failed e k) r f = tt
Follows-trans P at g h panicked r f = tt

pub Follows-weaken {ℓ} :
    {A : Type ℓ} (P Q : Event → Bool) (at : A → Game) (g : Game) (m : Outcome A)
    → ((e : Event) → P e ≡ true → Q e ≡ true)
    → Follows P at g m
    → Follows Q at g m
Follows-weaken P Q at g (done a) w r = Grows-weaken P Q w r
Follows-weaken P Q at g (failed e k) w r = tt
Follows-weaken P Q at g panicked w r = tt

Follows-bind {ℓ κ} :
    {A : Type ℓ} {B : Type κ} (P : Event → Bool) (at : A → Game) (bt : B → Game) (g : Game)
    (m : Outcome A) (f : A → Outcome B)
    → Follows P at g m
    → ((a : A) → Follows P bt (at a) (f a))
    → Follows P bt g (m >>= f)
Follows-bind P at bt g (done a) f h k = Follows-trans P bt g (at a) (f a) h (k a)
Follows-bind P at bt g (failed e k') f h k = tt
Follows-bind P at bt g panicked f h k = tt

pub check_win-Grows : (g : Game) (seat : Seat) → Grows calm g (check_win g seat).0
unfolding check_win
check_win-Grows g seat = elim (Bool-cases (is_none g.winner && leb g.target (pick g.scores seat))) [
  | inl won ↦ rw won (Grows-emit calm g (game_won seat) refl)
  | inr on ↦ rw on (Grows-refl calm g)
]

pub award-Grows :
    (g : Game) (e : Event) (seat : Seat)
    → calm e ≡ true
    → Grows calm g (check_win (emit g e) seat).0
award-Grows g e seat h =
    Grows-trans g (emit g e) (check_win (emit g e) seat).0 (Grows-emit calm g e h)
      (check_win-Grows (emit g e) seat)

pub deal_hand-Follows : (g : Game) (dealer : Seat) → Follows quiet itself g (deal_hand g dealer)
unfolding deal_hand
deal_hand-Follows g dealer = deck (g.src g.shuffles)
  where
    taken :
        (cards : Option (List Card × List Card × List Card))
        → Follows quiet itself g (take_deal g dealer cards)
    taken none = unfold take_deal in tt
    taken (some (p, q, rest)) =
        unfold take_deal in
        Grows-emit_rest quiet g rest (suc g.shuffles)
          (hand_dealt dealer (put (put (both []) (other dealer) p) dealer q)) refl

    deck : (d : Option (List Card)) → Follows quiet itself g (deal_deck g dealer d)
    deck none = unfold deal_deck in tt
    deck (some d) = unfold deal_deck in taken (deal_cards 6 d)

-- A hand score is read, not emitted.
with_score :
    (g : Game) (m : Outcome HandResult) (f : HandResult → Outcome (Game × Bool))
    → ((r : HandResult) → Follows quiet flagged g (f r))
    → Follows quiet flagged g (m >>= f)
with_score g (done r) f h = h r
with_score g (failed e k) f h = tt
with_score g panicked f h = tt

emit_show-Follows :
    (g : Game) (seat : Seat) (cards : List Card) → Follows quiet flagged g (emit_show g seat cards)
unfolding emit_show
emit_show-Follows g seat cards =
    with_score g (must_hand_score cards g.starter false)
      (λ r. done (check_win (emit g (hand_shown seat cards r)) seat))
      (λ r. Grows-quiet (award-Grows g (hand_shown seat cards r) seat refl))

show_dealer-Follows : (p : Game × Bool) → Follows quiet flagged p.0 (show_dealer p)
unfolding show_dealer
show_dealer-Follows (g, true) =
    Grows-emit quiet g (show_not_counted g.dealer (pick g.played g.dealer) false) refl
show_dealer-Follows (g, false) = emit_show-Follows g g.dealer (pick g.played g.dealer)

next_hand-Follows : (p : Game × Bool) → Follows quiet itself p.0 (next_hand p)
unfolding next_hand
next_hand-Follows (g, true) = Grows-refl quiet g
next_hand-Follows (g, false) = deal_hand-Follows g (other g.dealer)

show_crib-Follows : (p : Game × Bool) → Follows quiet itself p.0 (show_crib p)
unfolding show_crib
show_crib-Follows (g, true) = Grows-emit quiet g (show_not_counted g.dealer g.crib true) refl
show_crib-Follows (g, false) = scored (must_hand_score g.crib g.starter true)
  where
    scored :
        (m : Outcome HandResult)
        → Follows quiet itself g
            (m >>= (λ r. next_hand (check_win (emit g (crib_shown g.crib r)) g.dealer)))
    scored (done r) =
        let shown : Game × Bool = check_win (emit g (crib_shown g.crib r)) g.dealer in
        Follows-trans quiet itself g shown.0 (next_hand shown)
          (Grows-quiet (award-Grows g (crib_shown g.crib r) g.dealer refl))
          (next_hand-Follows shown)
    scored (failed e k) = tt
    scored panicked = tt

pub resolve_show-Follows : (g : Game) → Follows quiet itself g (resolve_show g)
unfolding resolve_show
resolve_show-Follows g =
    Follows-bind quiet flagged itself g
      (emit_show g (other g.dealer) (pick g.played (other g.dealer))) _
      (emit_show-Follows g (other g.dealer) (pick g.played (other g.dealer)))
      λ p.
        Follows-bind quiet flagged itself p.0 (show_dealer p) show_crib (show_dealer-Follows p)
          show_crib-Follows

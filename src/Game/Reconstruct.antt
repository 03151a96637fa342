-- ===== src/Game/Reconstruct.antt =====
-- internal/game/reconstruct.go: the pegging decisions of a log, each with the view that the deciding
-- seat had. An error carries the kind of the violation and no text.
use cribbager.Common.{
  ℕ, zero, suc, ◌+◌, ◌≡◌, refl, Bool, true, false, not, List, [], ◌∷◌, ◌++◌, Option, none, some,
  if◌then◌else◌, Fallible, ok, err, arith, inl, inr, Option-cases, subst, sym,
}
use cribbager.Cribbage.Defs.{Card}
use cribbager.Pegging.Defs.{contains}
use cribbager.Game.Defs.{
  Seat, seat_eq, phase_eq, phase_play, Event, card_played, hand_dealt, cut_for_deal, handicap,
  discarded, starter_cut, pass, go_awarded, series_reset, hand_shown, crib_shown, game_won,
  show_not_counted,
}
use cribbager.Game.State.{State, reduce, zero_state}
use cribbager.Game.View.{PlayerView, view_state}

pub record PlayDecision : Type 0 where
  pub deal : ℕ
  pub seat : Seat
  pub seen : PlayerView
  pub played : Card

pub data ReconstructError : Type 0 where
  before_deal out_of_phase out_of_turn not_legal : ReconstructError

-- The result with Go's error.
abbrev pub Found : Type 0
Found = Fallible ReconstructError (List PlayDecision)

abbrev pub on_turn : Option Seat → Seat → Bool
on_turn none seat = false
on_turn (some s) seat = seat_eq s seat

-- `checkDecision`
unfoldable pub check_decision : PlayerView → Seat → Card → Option ReconstructError
unfolding contains
check_decision v seat card =
    if not (phase_eq v.phase phase_play)
    then some out_of_phase
    else if not (on_turn v.to_play seat)
    then some out_of_turn
    else if not (contains v.legal card)
    then some not_legal
    else none

abbrev pub found_by : Option ReconstructError → PlayDecision → Found
found_by (some e) d = err e
found_by none d = ok (d ∷ [])

-- The decision of a `CardPlayed`, when `dealt` hands have been dealt.
unfoldable pub decide : PlayerView → ℕ → Seat → Card → Found
unfolding check_decision
decide v zero seat card = err before_deal
decide v (suc deal) seat card =
    found_by (check_decision v seat card)
      (record { deal = deal; seat = seat; seen = v; played = card })

unfoldable pub decisions_of : State → ℕ → ℕ → Event → Found
unfolding decide view_state
decisions_of s version dealt (card_played seat card score) =
    decide (view_state s version seat) dealt seat card
decisions_of s version dealt _ = ok []

abbrev pub dealt_after : ℕ → Event → ℕ
dealt_after dealt (hand_dealt dealer hands) = suc dealt
dealt_after dealt _ = dealt

abbrev pub joined : Found → Found → Found
joined (err e) rest = err e
joined (ok d) (err e) = err e
joined (ok d) (ok ds) = ok (d ++ ds)

-- The loop, with the folded game (its target is 0), its version and the number of hands dealt.
unfoldable pub reconstruct_from : State → ℕ → ℕ → List Event → Found
unfolding decisions_of reduce
reconstruct_from s version dealt [] = ok []
reconstruct_from s version dealt (e ∷ es) =
    joined (decisions_of s version dealt e)
      (reconstruct_from (reduce 0 s e) (version + 1) (dealt_after dealt e) es)

unfoldable pub reconstruct_plays : List Event → Found
unfolding reconstruct_from
reconstruct_plays log = reconstruct_from zero_state 0 0 log

-- The plays of a log, in order.
abbrev pub plays_of : List Event → List (Seat × Card)
plays_of [] = []
plays_of (card_played seat card score ∷ es) = (seat, card) ∷ plays_of es
plays_of (_ ∷ es) = plays_of es

-- A decision that matches a play, and is lawful in its view.
pub record Matches (p : Seat × Card) (d : PlayDecision) : Type 0 where
  pub same_seat : d.seat ≡ p.0
  pub same_card : d.played ≡ p.1
  pub own_view : d.seen.you ≡ p.0
  pub in_play : d.seen.phase ≡ phase_play
  pub at_turn : d.seen.to_play ≡ some p.0
  pub legal : contains d.seen.legal p.1 ≡ true

-- Decisions that match the plays one by one.
abbrev pub Recorded : List (Seat × Card) → List PlayDecision → Type 0
Recorded [] [] = Unit
Recorded [] (d ∷ ds) = ⊥
Recorded (p ∷ ps) [] = ⊥
Recorded (p ∷ ps) (d ∷ ds) = Matches p d × Recorded ps ds

check_decision-none :
    (v : PlayerView) (seat : Seat) (card : Card)
    → check_decision v seat card ≡ none
    → (v.phase ≡ phase_play) × (v.to_play ≡ some seat) × (contains v.legal card ≡ true)
unfolding check_decision
check_decision-none v seat card h = ground arith

joined-ok :
    (m rest : Found) (ds : List PlayDecision)
    → joined m rest ≡ ok ds
    → (d : List PlayDecision) × (es : List PlayDecision) × (m ≡ ok d)
      × (rest ≡ ok es)
      × (ds ≡ d ++ es)
joined-ok (err e) rest ds h = cc
joined-ok (ok d) (err e) ds h = cc
joined-ok (ok d) (ok es) ds h = (d, es, refl, refl, ground arith)

decided :
    (s : State) (version deal : ℕ) (seat : Seat) (card : Card) (d : List PlayDecision)
    → decide (view_state s version seat) (suc deal) seat card ≡ ok d
    → (x : PlayDecision) × (d ≡ x ∷ []) × Matches (seat, card) x
unfolding decide
decided s version deal seat card d h =
    let v : PlayerView = view_state s version seat in
    elim (Option-cases (check_decision v seat card)) [
      | inr (e, found) ↦ absurd (refused e (rw found at h))
      | inl fine ↦
          let (phase, turn, legal) = check_decision-none v seat card fine in
          (
            record { deal = deal; seat = seat; seen = v; played = card },
            accepted (rw fine at h),
            record {
              same_seat = refl;
              same_card = refl;
              own_view = unfold view_state in refl;
              in_play = phase;
              at_turn = turn;
              legal = legal;
            },
          )
    ]
  where
    refused : (e : ReconstructError) → ◌≡◌ {A = Found} (err e) (ok d) → ⊥
    refused e k = cc

    accepted : {xs : List PlayDecision} → ◌≡◌ {A = Found} (ok xs) (ok d) → d ≡ xs
    accepted k = ground arith

decided_after_deal :
    (s : State) (version dealt : ℕ) (seat : Seat) (card : Card) (d rest : List PlayDecision)
    (ps : List (Seat × Card))
    → decide (view_state s version seat) dealt seat card ≡ ok d
    → Recorded ps rest
    → Recorded ((seat, card) ∷ ps) (d ++ rest)
unfolding decide
decided_after_deal s version zero seat card d rest ps h r = cc
decided_after_deal s version (suc deal) seat card d rest ps h r =
    let (x, e, m) = decided s version deal seat card d h in
    subst (λ l. Recorded ((seat, card) ∷ ps) (l ++ rest)) (sym e) (m, r)

silent :
    (d rest : List PlayDecision) (ps : List (Seat × Card))
    → ◌≡◌ {A = Found} (ok []) (ok d)
    → Recorded ps rest
    → Recorded ps (d ++ rest)
silent [] rest ps h r = r
silent (x ∷ d) rest ps h r = cc

event-Recorded :
    (s : State) (version dealt : ℕ) (e : Event) (es : List Event) (d rest : List PlayDecision)
    → decisions_of s version dealt e ≡ ok d
    → Recorded (plays_of es) rest
    → Recorded (plays_of (e ∷ es)) (d ++ rest)
unfolding decisions_of
event-Recorded s v n (card_played seat card score) es d rest h r =
    decided_after_deal s v n seat card d rest (plays_of es) h r
event-Recorded s v n (cut_for_deal a b) es d rest h r = silent d rest (plays_of es) h r
event-Recorded s v n (handicap a) es d rest h r = silent d rest (plays_of es) h r
event-Recorded s v n (hand_dealt a b) es d rest h r = silent d rest (plays_of es) h r
event-Recorded s v n (discarded a b c) es d rest h r = silent d rest (plays_of es) h r
event-Recorded s v n (starter_cut a b) es d rest h r = silent d rest (plays_of es) h r
event-Recorded s v n (pass a) es d rest h r = silent d rest (plays_of es) h r
event-Recorded s v n (go_awarded a b) es d rest h r = silent d rest (plays_of es) h r
event-Recorded s v n (series_reset a) es d rest h r = silent d rest (plays_of es) h r
event-Recorded s v n (hand_shown a b c) es d rest h r = silent d rest (plays_of es) h r
event-Recorded s v n (crib_shown a b) es d rest h r = silent d rest (plays_of es) h r
event-Recorded s v n (game_won a) es d rest h r = silent d rest (plays_of es) h r
event-Recorded s v n (show_not_counted a b c) es d rest h r = silent d rest (plays_of es) h r

reconstruct_from-Recorded :
    (s : State) (version dealt : ℕ) (es : List Event) (ds : List PlayDecision)
    → reconstruct_from s version dealt es ≡ ok ds
    → Recorded (plays_of es) ds
unfolding reconstruct_from
reconstruct_from-Recorded s version dealt [] [] h = tt
reconstruct_from-Recorded s version dealt [] (x ∷ ds) h = cc
reconstruct_from-Recorded s version dealt (e ∷ es) ds h =
    let (d, rest, now, later, split) =
      joined-ok (decisions_of s version dealt e)
        (reconstruct_from (reduce 0 s e) (version + 1) (dealt_after dealt e) es) ds h in
    subst (Recorded (plays_of (e ∷ es))) (sym split) (
      event-Recorded s version dealt e es d rest now (
        reconstruct_from-Recorded (reduce 0 s e) (version + 1) (dealt_after dealt e) es rest later))

-- What a reconstruction returns: exactly one decision for each play of the log, in order, by the
-- seat and with the card of the play, whose view is that seat's own, is in the play phase with that
-- seat on turn, and lists the card as legal. A log with an unlawful play is an error instead.
pub reconstruct_plays-Recorded :
    (log : List Event) (ds : List PlayDecision)
    → reconstruct_plays log ≡ ok ds
    → Recorded (plays_of log) ds
unfolding reconstruct_plays
reconstruct_plays-Recorded log ds h = reconstruct_from-Recorded zero_state 0 0 log ds h

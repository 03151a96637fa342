-- ===== src/Game/Sourcing.antt =====
-- Event sourcing in internal/game/game.go: what `Apply` returns, and what it appends to the log.
use cribbager.Common.{
  ◌+◌, ◌≡◌, refl, sym, ap, ◌∙◌, subst, Bool, true, false, ◌&&◌, not, List, [], ◌∷◌, ◌++◌,
  if◌then◌else◌, length, drop, drop-append, arith, Bool-cases, inl, inr, Fallible, ok, err, ◌==◌,
}
use cribbager.Cribbage.Defs.{Card, card_eq, jack}
use cribbager.Pegging.Defs.{contains, PegResult, PegError}
use cribbager.Pegging.Defs
use cribbager.Game.Defs.{
  Seat, seat_eq, other, pick, phase_eq, phase_discard, phase_play, Command, discard, play, unknown,
  Event, card_played, discarded, starter_cut, go_awarded, pass, series_reset,
}
use cribbager.Game.State.{fold, turn, playable, can_play, both_hands_empty, leader_after}
use cribbager.Game.Kinds.{in_hand, quiet, calm, every, quiet-in_hand, calm-quiet}
use cribbager.Game.Log.{
  Follows-weaken, Grows-quiet, Grows, Grows-refl, Grows-trans, Grows-emit_rest, Grows-emit, Follows,
  Follows-trans, check_win-Grows, award-Grows, itself, resolve_show-Follows,
}
use cribbager.Game.Engine.{
  ◌>>=◌, Game, Outcome, done, failed, panicked, is_none, emit, check_win, show_unless_won,
  reset_unless_won, after_pass, after_play, cut_starter, apply_discard, after_card, play_scored,
  apply_play, dispatch, apply, reply,
}

reset_unless_won-Grows : (p : Game × Bool) (lp : Seat) → Grows calm p.0 (reset_unless_won p lp)
unfolding reset_unless_won
reset_unless_won-Grows (g, true) lp = Grows-refl calm g
reset_unless_won-Grows (g, false) lp =
    Grows-emit calm g (series_reset (leader_after g.state lp)) refl

pub show_unless_won-Follows : (p : Game × Bool) → Follows quiet itself p.0 (show_unless_won p)
unfolding show_unless_won
show_unless_won-Follows (g, true) = Grows-refl quiet g
show_unless_won-Follows (g, false) = resolve_show-Follows g

pub after_pass-Grows : (g : Game) (lp : Seat) → Grows calm g (after_pass g lp)
unfolding after_pass
after_pass-Grows g lp = elim (Bool-cases (can_play g.state lp)) [
  | inl can ↦ rw can (Grows-refl calm g)
  | inr cannot ↦
      let awarded : Game × Bool = check_win (emit g (go_awarded lp 1)) lp in
      rw cannot (
        Grows-trans g awarded.0 (reset_unless_won awarded lp)
          (award-Grows g (go_awarded lp 1) lp refl) (reset_unless_won-Grows awarded lp))
]

pub passed-Grows :
    (g : Game) (lp : Seat) (gone : Bool)
    → Grows calm g (after_pass (if gone then g else emit g (pass (other lp))) lp)
passed-Grows g lp true = after_pass-Grows g lp
passed-Grows g lp false =
    Grows-trans g (emit g (pass (other lp))) (after_pass (emit g (pass (other lp))) lp)
      (Grows-emit calm g (pass (other lp)) refl) (after_pass-Grows (emit g (pass (other lp))) lp)

last_card-Follows :
    (g : Game) (lp : Seat) (full : Bool)
    → Follows quiet itself g
        (show_unless_won (if full then (g, false) else check_win (emit g (go_awarded lp 1)) lp))
last_card-Follows g lp true = show_unless_won-Follows (g, false)
last_card-Follows g lp false =
    let awarded : Game × Bool = check_win (emit g (go_awarded lp 1)) lp in
    Follows-trans quiet itself g awarded.0 (show_unless_won awarded)
      (Grows-quiet (award-Grows g (go_awarded lp 1) lp refl)) (show_unless_won-Follows awarded)

-- A choice between two results that both follow.
pub Follows-if :
    (P : Event → Bool) (g : Game) (b : Bool) (m n : Outcome Game)
    → Follows P itself g m
    → Follows P itself g n
    → Follows P itself g (if b then m else n)
Follows-if P g true m n h k = h
Follows-if P g false m n h k = k

pub after_play-Follows : (g : Game) → Follows quiet itself g (after_play g)
unfolding after_play
after_play-Follows g =
    Follows-if quiet g (both_hands_empty g.state) _ _
      (last_card-Follows g g.last_player (g.count == 31))
      (Follows-if quiet g (g.count == 31) _ _
        (Grows-emit quiet g (series_reset (leader_after g.state g.last_player)) refl)
        (Follows-if quiet g
          (not (pick g.gone (other g.last_player)) && can_play g.state (other g.last_player)) _ _
          (Grows-refl quiet g)
          (Grows-quiet (passed-Grows g g.last_player (pick g.gone (other g.last_player))))))

calm-in_hand : (e : Event) → calm e ≡ true → in_hand e ≡ true
calm-in_hand e h = quiet-in_hand e (calm-quiet e h)

pub cut_starter-Follows : (g : Game) (rest : List Card) → Follows calm itself g (cut_starter g rest)
unfolding cut_starter
cut_starter-Follows g [] = tt
cut_starter-Follows g (starter ∷ rest) =
    let e : Event = starter_cut starter (if starter.rank == jack then 2 else 0) in
    let cut_game : Game = emit (record g { rest = rest }) e in
    Grows-trans g cut_game (check_win cut_game cut_game.dealer).0
      (Grows-emit_rest calm g rest g.shuffles e refl) (check_win-Grows cut_game cut_game.dealer)

-- A discard is followed by calm events.
pub apply_discard-Follows :
    (P : Event → Bool) (g : Game) (seat : Seat) (c d : Card)
    → ((e : Event) → calm e ≡ true → P e ≡ true)
    → P (discarded seat c d) ≡ true
    → Follows P itself g (apply_discard g seat c d)
unfolding apply_discard
apply_discard-Follows P g seat c d w h =
    let thrown : Game = emit g (discarded seat c d) in
    let threw : Grows P g thrown = Grows-emit P g (discarded seat c d) h in
    Follows-if P g (not (phase_eq g.phase phase_discard)) _ _ tt (
      Follows-if P g (pick g.has_discarded seat) _ _ tt (
        Follows-if P g (card_eq c d) _ _ tt (
          Follows-if P g (not (contains (pick g.hands seat) c)) _ _ tt (
            Follows-if P g (not (contains (pick g.hands seat) d)) _ _ tt (
              Follows-if P g (thrown.has_discarded.at0 && thrown.has_discarded.at1) _ _
                (Follows-trans P itself g thrown (cut_starter thrown thrown.rest) threw (
                  Follows-weaken calm P itself thrown (cut_starter thrown thrown.rest) w
                    (cut_starter-Follows thrown thrown.rest)))
                threw)))))

after_card-Follows : (p : Game × Bool) → Follows quiet itself p.0 (after_card p)
unfolding after_card
after_card-Follows (g, true) = Grows-refl quiet g
after_card-Follows (g, false) = after_play-Follows g

-- A card that is played is followed by quiet events.
pub after_move-Follows :
    (moved : Game) (seat : Seat) → Follows quiet itself moved (after_card (check_win moved seat))
after_move-Follows moved seat =
    Follows-trans quiet itself moved (check_win moved seat).0 (after_card (check_win moved seat))
      (Grows-quiet (check_win-Grows moved seat)) (after_card-Follows (check_win moved seat))

play_scored-Follows :
    (g : Game) (seat : Seat) (card : Card) (m : Fallible PegError PegResult)
    → Follows in_hand itself g (play_scored g seat card m)
unfolding play_scored
play_scored-Follows g seat card (err e) = tt
play_scored-Follows g seat card (ok res) =
    let moved : Game = emit g (card_played seat card res) in
    Follows-trans in_hand itself g moved (after_card (check_win moved seat))
      (Grows-emit in_hand g (card_played seat card res) refl)
      (Follows-weaken quiet in_hand itself moved (after_card (check_win moved seat)) quiet-in_hand
        (after_move-Follows moved seat))

apply_play-Follows :
    (g : Game) (seat : Seat) (card : Card) → Follows in_hand itself g (apply_play g seat card)
unfolding apply_play
apply_play-Follows g seat card = Follows-if in_hand g (not (phase_eq g.phase phase_play)) _ _ tt (
    Follows-if in_hand g (not (seat_eq seat (turn g.state))) _ _ tt (
      Follows-if in_hand g (not (contains (pick g.hands seat) card)) _ _ tt (
        Follows-if in_hand g (not (playable g.state card)) _ _ tt
          (play_scored-Follows g seat card (Defs.score g.pile card)))))

dispatch-Follows :
    (g : Game) (seat : Seat) (cmd : Command) → Follows in_hand itself g (dispatch g seat cmd)
unfolding dispatch
dispatch-Follows g seat (discard c d) = apply_discard-Follows in_hand g seat c d calm-in_hand refl
dispatch-Follows g seat (play c) = apply_play-Follows g seat c
dispatch-Follows g seat unknown = tt

-- What an accepted command does to a game, by the events that it returns: they are what the log
-- gains, the state is their fold over the old state, and the version counts them.
pub record Appends (g g' : Game) (events : List Event) : Type 0 where
  pub only : every in_hand events ≡ true
  pub log_is : g'.log ≡ g.log ++ events
  pub folded : g'.state ≡ fold g.target g.state events
  pub counted : g'.version ≡ g.version + length events
  pub same_target : g'.target ≡ g.target
  pub same_src : g'.src ≡ g.src

pub Appends-Grows : (g g' : Game) (events : List Event) → Appends g g' events → Grows in_hand g g'
Appends-Grows g g' events r = record {
  events = events;
  only = r.only;
  log_is = r.log_is;
  folded = r.folded;
  counted = r.counted;
  same_target = r.same_target;
  same_src = r.same_src;
}

returned :
    (g : Game) (m : Outcome Game) (g' : Game) (events : List Event)
    → Follows in_hand itself g m
    → (m >>= reply g) ≡ done (g', events)
    → Appends g g' events
returned g (done h) g' events r e =
    let same : h ≡ g' = ground arith in
    let gained : drop (length g.log) h.log ≡ events = ground arith in
    let found : r.events ≡ events =
      sym (drop-append g.log r.events) ∙ ap (drop (length g.log)) (sym r.log_is) ∙ gained in
    subst (λ k. Appends g k events) same
      (subst (λ es. Appends g h es) found
        (record {
          only = r.only;
          log_is = r.log_is;
          folded = r.folded;
          counted = r.counted;
          same_target = r.same_target;
          same_src = r.same_src;
        }))
returned g (failed x k) g' events r e = cc
returned g panicked g' events r e = cc

-- Every accepted command of any game appends exactly the events that it returns to the log, moves
-- the state by their fold and by nothing else, raises the version by their number, and keeps the
-- target.
pub apply-Appends :
    (g : Game) (seat : Seat) (cmd : Command) (g' : Game) (events : List Event)
    → apply g seat cmd ≡ done (g', events)
    → Appends g g' events
unfolding apply
apply-Appends g seat cmd g' events e = elim (Bool-cases (is_none g.winner)) [
  | inl open_game ↦
      returned g (dispatch g seat cmd) g' events (dispatch-Follows g seat cmd) (rw open_game at e)
  | inr ended ↦ absurd (ground arith)
]

-- ===== src/Game/History.antt =====
-- Games begun by `New` and played by `Apply` (internal/game/game.go, snapshot.go), by induction on
-- their history.
use cribbager.Common.{
  Bool, true, ℕ, ◌≤◌, ◌<◌, ◌≡◌, refl, sym, subst, ap, ◌∙◌, ◌↔◌, false, List, Option, none, some,
  length, length-append, arith,
}
use cribbager.Common.Int.{ℤ, pos, negsuc}
use cribbager.Game.Defs.{Seat, seat0, seat1, Command, Event, cut_for_deal, handicap, phase_complete}
use cribbager.Game.State.{fold, reduce, zero_state}
use cribbager.Game.Engine.{DeckSource, Game, done, emit, deal_hand, apply, is_none}
use cribbager.Game.Start.{
  Options, Start, Cut, cut, cut_panics, all_tied, new, begin, blank, start_at, start_score,
  target_of, deal_after_cut, cut_deal,
}
use cribbager.Game.Snapshot.{snapshot, restore}
use cribbager.Game.Laid.{Good}
use cribbager.Game.Show.{deal_hand-Inv}
use cribbager.Game.Opening.{target_of-pos}
use cribbager.Game.Apply.{Replies, apply-Replies}
use cribbager.Game.Log.{
  fold-append, Grows, Grows-weaken, Grows-emit, Grows-emit_rest, Follows, itself, deal_hand-Follows,
}
use cribbager.Game.Sourcing.{Appends-Grows, apply-Appends}
use cribbager.Game.Kinds.{in_hand, quiet, idle, every, every-append, quiet-idle}
use cribbager.Game.Invariant.{IsFair, Inv, Resting, discarding, playing, over}

-- Some run of `New` and accepted commands ends in the game.
pub data Played (src : DeckSource) : Game → Type 0 where
  begun :
      {g : Game} (fuel : ℕ) (opts : Options)
      → opts.deck ≡ src
      → new fuel opts ≡ some (done g)
      → Played src g
  moved :
      {g g' : Game} (seat : Seat) (cmd : Command) (events : List Event)
      → Played src g
      → apply g seat cmd ≡ done (g', events)
      → Played src g'

-- What starts a game: the blank game after its first event.
start_score-lt : (target : ℕ) (z : ℤ) (n : ℕ) → start_score target z ≡ some n → n < target
unfolding start_score
start_score-lt target (pos m) n h = ground arith
start_score-lt target (negsuc m) n h = cc

start_at-Good :
    (target : ℕ) (src : DeckSource) (dealer : Seat) (o p : Option ℕ) (g : Game)
    → IsFair src
    → 0 < target
    → ((n : ℕ) → o ≡ some n → n < target)
    → ((n : ℕ) → p ≡ some n → n < target)
    → start_at (blank target src) dealer o p ≡ done g
    → Inv g
unfolding start_at
start_at-Good target src dealer (some n) (some m) g fair goal hn hm e = subst (Good Inv) e (
    deal_hand-Inv (emit (blank target src) (handicap (record { at0 = n; at1 = m }))) dealer
      (unfold emit blank in fair) (unfold emit blank in goal)
      (unfold emit reduce blank in (record { below0 = hn n refl; below1 = hm m refl }))
      (unfold emit reduce blank in refl))
start_at-Good target src dealer none p g fair goal hn hm e = cc
start_at-Good target src dealer (some n) none g fair goal hn hm e = cc

deal_after_cut-Good :
    (target : ℕ) (src : DeckSource) (c : Cut) (g : Game)
    → IsFair src
    → 0 < target
    → deal_after_cut (blank target src) c ≡ some (done g)
    → Inv g
unfolding deal_after_cut
deal_after_cut-Good target src (cut cuts dealer next) g fair goal e =
    let g0 : Game =
      emit (record (blank target src) { shuffles = next }) (cut_for_deal cuts dealer) in
    let e' : deal_hand g0 dealer ≡ done g = ground arith in
    subst (Good Inv) e' (
      deal_hand-Inv g0 dealer (unfold emit blank in fair) (unfold emit blank in goal)
        (unfold emit reduce blank in (record { below0 = goal; below1 = goal }))
        (unfold emit reduce blank in refl))
deal_after_cut-Good target src cut_panics g fair goal e = absurd (ground arith)
deal_after_cut-Good target src all_tied g fair goal e = cc

begin-Inv :
    (fuel target : ℕ) (src : DeckSource) (start : Option Start) (g : Game)
    → IsFair src
    → 0 < target
    → begin fuel (blank target src) start ≡ some (done g)
    → Inv g
begin-Inv fuel target src none g fair goal e =
    deal_after_cut-Good target src (cut_deal fuel src 0) g fair goal (unfold begin blank in e)
begin-Inv fuel target src (some s) g fair goal e =
    start_at-Good target src s.dealer (start_score target s.scores.at0)
      (start_score target s.scores.at1) g fair goal (start_score-lt target s.scores.at0)
      (start_score-lt target s.scores.at1) (unfold begin blank in ground arith)

pub new-done-Inv :
    (fuel : ℕ) (opts : Options) (g : Game)
    → IsFair opts.deck
    → new fuel opts ≡ some (done g)
    → Inv g
unfolding new
new-done-Inv fuel opts g fair e =
    begin-Inv fuel (target_of opts.target_score) opts.deck opts.start g fair
      (target_of-pos opts.target_score) e

-- Every game that was begun by `New` and played by accepted commands, with a source whose decks are
-- all 52 different cards, has the invariant.
pub Played-Inv : {src : DeckSource} {g : Game} → IsFair src → Played src g → Inv g
Played-Inv {g = g} fair (begun fuel opts e b) =
    new-done-Inv fuel opts g (subst IsFair (sym e) fair) b
Played-Inv fair (moved {g = h} {g' = g} seat cmd events p e) =
    subst (Replies h) e (apply-Replies h seat cmd (Played-Inv fair p))

-- What the invariant says of the scores and the end of a game.
pub record Scoreboard (g : Game) : Type 0 where
  pub capped0 : g.scores.at0 ≤ g.target
  pub capped1 : g.scores.at1 ≤ g.target
  pub ended0 : (g.winner ≡ some seat0) ↔ (g.scores.at0 ≡ g.target)
  pub ended1 : (g.winner ≡ some seat1) ↔ (g.scores.at1 ≡ g.target)
  pub phase_ended : (g.phase ≡ phase_complete) ↔ (is_none g.winner ≡ false)

Inv-Scoreboard : (g : Game) → Inv g → Scoreboard g
Inv-Scoreboard g v = from v.resting
  where
    from : Resting g → Scoreboard g
    from (discarding s b) = ground arith
    from (playing s b t) = ground (arith, s.in_play, s.undecided)
    from (over seat0 won) = ground arith
    from (over seat1 won) = ground arith

-- The state is the fold of the log, and the version counts it.
pub record IsFolded (g : Game) : Type 0 where
  pub folded : g.state ≡ fold g.target zero_state g.log
  pub counted : g.version ≡ length g.log

pub IsFolded-Grows : (P : Event → Bool) (g g' : Game) → Grows P g g' → IsFolded g → IsFolded g'
IsFolded-Grows P g g' r f = record {
  folded =
      r.folded
      ∙ ap (λ s. fold g.target s r.events) f.folded
      ∙ sym (fold-append g.target zero_state g.log r.events)
      ∙ ap (fold g.target zero_state) (sym r.log_is)
      ∙ ap (λ t. fold t zero_state g'.log) (sym r.same_target);
  counted = omega (arith, r.counted, f.counted, length-append g.log r.events, ap length r.log_is);
}

-- What `New` leaves: a log that tells the state and has no card played, and the target.
record Opened (target : ℕ) (g : Game) : Type 0 where
  is_folded : IsFolded g
  on_target : g.target ≡ target
  idle_log : every idle g.log ≡ true

Opened-Grows : (target : ℕ) (g g' : Game) → Grows idle g g' → Opened target g → Opened target g'
Opened-Grows target g g' r f = record {
  is_folded = IsFolded-Grows idle g g' r f.is_folded;
  on_target = r.same_target ∙ f.on_target;
  idle_log = ap (every idle) r.log_is ∙ every-append idle g.log r.events f.idle_log r.only;
}

blank-Opened : (target : ℕ) (src : DeckSource) → Opened target (blank target src)
unfolding blank fold
blank-Opened target src = record {
  is_folded = record { folded = refl; counted = refl };
  on_target = refl;
  idle_log = refl;
}

dealt-Opened :
    (target : ℕ) (g0 : Game) (dealer : Seat) (g : Game)
    → Opened target g0
    → deal_hand g0 dealer ≡ done g
    → Opened target g
dealt-Opened target g0 dealer g f e =
    Opened-Grows target g0 g
      (Grows-weaken quiet idle quiet-idle
        (subst (Follows quiet itself g0) e (deal_hand-Follows g0 dealer)))
      f

deal_after_cut-Opened :
    (target : ℕ) (src : DeckSource) (c : Cut) (g : Game)
    → deal_after_cut (blank target src) c ≡ some (done g)
    → Opened target g
unfolding deal_after_cut
deal_after_cut-Opened target src (cut cuts dealer next) g e =
    let b : Game = blank target src in
    let g0 : Game = emit (record b { shuffles = next }) (cut_for_deal cuts dealer) in
    dealt-Opened target g0 dealer g
      (Opened-Grows target b g0 (Grows-emit_rest idle b b.rest next (cut_for_deal cuts dealer) refl)
        (blank-Opened target src))
      (ground arith)
deal_after_cut-Opened target src cut_panics g e = absurd (ground arith)
deal_after_cut-Opened target src all_tied g e = cc

start_at-Opened :
    (target : ℕ) (src : DeckSource) (dealer : Seat) (o p : Option ℕ) (g : Game)
    → start_at (blank target src) dealer o p ≡ done g
    → Opened target g
unfolding start_at
start_at-Opened target src dealer (some n) (some m) g e =
    let b : Game = blank target src in
    let h : Event = handicap (record { at0 = n; at1 = m }) in
    dealt-Opened target (emit b h) dealer g
      (Opened-Grows target b (emit b h) (Grows-emit idle b h refl) (blank-Opened target src)) e
start_at-Opened target src dealer none p g e = cc
start_at-Opened target src dealer (some n) none g e = cc

begin-Opened :
    (fuel target : ℕ) (src : DeckSource) (start : Option Start) (g : Game)
    → begin fuel (blank target src) start ≡ some (done g)
    → Opened target g
begin-Opened fuel target src none g e =
    deal_after_cut-Opened target src (cut_deal fuel src 0) g (unfold begin blank in e)
begin-Opened fuel target src (some s) g e =
    start_at-Opened target src s.dealer (start_score target s.scores.at0)
      (start_score target s.scores.at1) g (unfold begin blank in ground arith)

-- A new game plays to the target of its options.
pub new-target :
    (fuel : ℕ) (opts : Options) (g : Game)
    → new fuel opts ≡ some (done g)
    → g.target ≡ target_of opts.target_score
unfolding new
new-target fuel opts g e =
    (begin-Opened fuel (target_of opts.target_score) opts.deck opts.start g e).on_target

-- A new game has no card played.
pub new-idle :
    (fuel : ℕ) (opts : Options) (g : Game) → new fuel opts ≡ some (done g) → every idle g.log ≡ true
unfolding new
new-idle fuel opts g e =
    (begin-Opened fuel (target_of opts.target_score) opts.deck opts.start g e).idle_log

-- The live state of a game is the fold of its log: from `New` on, through every accepted command.
pub Played-IsFolded : {src : DeckSource} {g : Game} → Played src g → IsFolded g
Played-IsFolded {g = g} (begun fuel opts same b) =
    (begin-Opened fuel (target_of opts.target_score) opts.deck opts.start g
      (unfold new in b)).is_folded
Played-IsFolded (moved {g = h} {g' = g} seat cmd events p e) =
    IsFolded-Grows in_hand h g (Appends-Grows h g events (apply-Appends h seat cmd g events e))
      (Played-IsFolded p)

-- A snapshot of a game that was begun and played restores that game, up to its source of decks.
pub restore-snapshot :
    {src : DeckSource} {g : Game} (fresh : DeckSource)
    → Played src g
    → restore (snapshot g) fresh ≡ record g { src = fresh; shuffles = 0 }
unfolding restore snapshot
restore-snapshot {g = g} fresh p =
    ground (arith, (Played-IsFolded p).folded, (Played-IsFolded p).counted)

-- In a game begun and played with decks of 52 different cards no score passes the target, a seat has won exactly when
-- its score stands on the target, and the game is complete exactly when somebody has won.
pub Played-Scoreboard : {src : DeckSource} {g : Game} → IsFair src → Played src g → Scoreboard g
Played-Scoreboard {g = g} fair p = Inv-Scoreboard g (Played-Inv fair p)

-- ===== src/Server/Sound.antt =====
-- What holds of the sessions and the records of internal/server, and the maps that keep it.
use cribbager.Common.{
  Text, text_eq, text_eq-eq, text_eq_refl, ◌+◌, ◌≤◌, ◌≡◌, refl, ap, sym, subst, ◌∙◌, Bool, true,
  false, List, [], ◌∷◌, some, length, All, arith, Bool-cases, inl, inr,
}
use cribbager.Game.Engine.{DeckSource, Game}
use cribbager.Game.Invariant.{Inv, IsFair, Resting, discarding, playing, over}
use cribbager.Game.History.{IsFolded}
use cribbager.Game.Snapshot.{snapshot, restore}
use cribbager.Bot.Production.{Production, new_bot, build}
use cribbager.Bot.Moves.{IsLawful}
use cribbager.Server.Throws.{SeatLawful, SeatsLawful}
use cribbager.Server.Session.{Session, Record, record_of, session_from_record, seat_bot}
use cribbager.Server.Registry.{
  max_sessions, find_session, put_session, set_session, add_session, save_record, delete_record,
  delete_records,
}

pub record Lawful (made : Production) : Type 0 where
  pub random_ok : IsLawful made.random
  pub champion_ok : IsLawful made.champion
  pub ml_ok : IsLawful made.ml

-- A session whose game has the invariant and is the fold of its log, with lawful bots.
pub record SessionOk (s : Session) : Type 0 where
  pub inv : Inv s.game
  pub folded : IsFolded s.game
  pub lawful : SeatsLawful s.bots

-- A record that gives such a game again, with any source of real decks.
abbrev pub RecordOk : Record → Type 0
RecordOk r =
    (src : DeckSource) → IsFair src → Inv (restore r.game src) × IsFolded (restore r.game src)

pub new_bot-IsLawful :
    (made : Production) (name : Text) → Lawful made → IsLawful (new_bot made name)
unfolding new_bot build
new_bot-IsLawful made name l = ground (arith, l.random_ok)

-- Another source of real decks does not touch the invariant.
fresh_source-Inv :
    (g : Game) (src : DeckSource) → Inv g → IsFair src → Inv (record g { src = src; shuffles = 0 })
fresh_source-Inv g src v fair = record {
  fair = fair;
  goal = v.goal;
  material = record {
    once = v.material.once;
    piled = v.material.piled;
    counted = v.material.counted;
  };
  resting = from v.resting;
}
  where
    from : Resting g → Resting (record g { src = src; shuffles = 0 })
    from (discarding s b) =
        discarding (ground (arith, s.waiting)) (record { below0 = b.below0; below1 = b.below1 })
    from (playing s b t) =
        playing (ground (arith, s.four0)) (record { below0 = b.below0; below1 = b.below1 }) t
    from (over w won) = over w (ground (arith, won.reached))

pub restored-is :
    (g : Game) (src : DeckSource)
    → IsFolded g
    → restore (snapshot g) src ≡ record g { src = src; shuffles = 0 }
unfolding restore snapshot
restored-is g src f = ground (arith, f.folded, f.counted)

pub record_of-Ok : (s : Session) → SessionOk s → RecordOk (record_of s)
unfolding record_of
record_of-Ok s k src fair =
    let e : restore (snapshot s.game) src ≡ record s.game { src = src; shuffles = 0 } =
      restored-is s.game src k.folded in
    (
      subst Inv (sym e) (fresh_source-Inv s.game src k.inv fair),
      subst IsFolded (sym e) (record { folded = k.folded.folded; counted = k.folded.counted }),
    )

seat_bot-Lawful :
    (made : Production) (b : Bool) (name : Text) → Lawful made → SeatLawful (seat_bot made b name)
unfolding seat_bot
seat_bot-Lawful made false name l = tt
seat_bot-Lawful made true name l = new_bot-IsLawful made _ l

pub session_from_record-Ok :
    (made : Production) (src : DeckSource) (r : Record)
    → Lawful made
    → IsFair src
    → RecordOk r
    → SessionOk (session_from_record made src r)
unfolding session_from_record
session_from_record-Ok made src r l fair k = record {
  inv = (k src fair).0;
  folded = (k src fair).1;
  lawful = (
    seat_bot-Lawful made r.bots.at0 r.bot_names.at0 l,
    seat_bot-Lawful made r.bots.at1 r.bot_names.at1 l,
  );
}

-- The maps, by a predicate of what they hold.
pub find_session-All :
    (P : Session → Type 0) (reg : List Session) (id : Text) (s : Session)
    → All P reg
    → find_session reg id ≡ some s
    → P s
unfolding find_session
find_session-All P [] id s h e = cc
find_session-All P (t ∷ ts) id s (h, hs) e = elim (Bool-cases (text_eq t.id id)) [
  | inl found ↦ subst P (head_is found) h
  | inr other ↦ find_session-All P ts id s hs (tail_is other)
]
  where
    head_is : text_eq t.id id ≡ true → t ≡ s
    head_is found = ground arith

    tail_is : text_eq t.id id ≡ false → find_session ts id ≡ some s
    tail_is other = ground arith

pub put_session-All :
    (P : Session → Type 0) (reg : List Session) (s : Session)
    → All P reg
    → P s
    → All P (put_session reg s)
unfolding put_session
put_session-All P [] s h k = tt
put_session-All P (t ∷ ts) s (h, hs) k = elim (Bool-cases (text_eq t.id s.id)) [
  | inl found ↦ rw found (k, hs)
  | inr other ↦ rw other (h, put_session-All P ts s hs k)
]

pub set_session-All :
    (P : Session → Type 0) (reg : List Session) (s : Session)
    → All P reg
    → P s
    → All P (set_session reg s)
unfolding set_session
set_session-All P [] s h k = (k, tt)
set_session-All P (t ∷ ts) s (h, hs) k = elim (Bool-cases (text_eq t.id s.id)) [
  | inl found ↦ rw found (k, hs)
  | inr other ↦ rw other (h, set_session-All P ts s hs k)
]

pub save_record-All :
    (P : Record → Type 0) (store : List Record) (r : Record)
    → All P store
    → P r
    → All P (save_record store r)
unfolding save_record
save_record-All P [] r h k = (k, tt)
save_record-All P (t ∷ ts) r (h, hs) k = elim (Bool-cases (text_eq t.id r.id)) [
  | inl found ↦ rw found (k, hs)
  | inr other ↦ rw other (h, save_record-All P ts r hs k)
]

delete_record-All :
    (P : Record → Type 0) (store : List Record) (id : Text)
    → All P store
    → All P (delete_record store id)
unfolding delete_record
delete_record-All P [] id h = tt
delete_record-All P (t ∷ ts) id (h, hs) = elim (Bool-cases (text_eq t.id id)) [
  | inl found ↦ rw found hs
  | inr other ↦ rw other (h, delete_record-All P ts id hs)
]

pub delete_records-All :
    (P : Record → Type 0) (store : List Record) (ids : List Text)
    → All P store
    → All P (delete_records store ids)
unfolding delete_records
delete_records-All P store [] h = h
delete_records-All P store (id ∷ ids) h =
    delete_records-All P (delete_record store id) ids (delete_record-All P store id h)

pub found_id :
    (reg : List Session) (id : Text) (s : Session) → find_session reg id ≡ some s → s.id ≡ id
unfolding find_session
found_id [] id s e = cc
found_id (t ∷ ts) id s e = elim (Bool-cases (text_eq t.id id)) [
  | inl found ↦
      let same : t ≡ s = ground arith in
      ap (λ (x : Session). x.id) (sym same) ∙ text_eq-eq t.id id found
  | inr other ↦ found_id ts id s (ground arith)
]

-- A session that is found and put back unchanged.
pub put_session-same :
    (reg : List Session) (id : Text) (s : Session)
    → find_session reg id ≡ some s
    → put_session reg s ≡ reg
unfolding find_session put_session
put_session-same [] id s e = cc
put_session-same (t ∷ ts) id s e = elim (Bool-cases (text_eq t.id id)) [
  | inl found ↦ let same : t ≡ s = ground arith in rw (sym same, text_eq_refl t.id) refl
  | inr other ↦
      let deeper : find_session ts id ≡ some s = ground arith in
      rw (ap (text_eq t.id) (found_id ts id s deeper), other, put_session-same ts id s deeper) refl
]

-- Sizes.
pub length-put_session :
    (reg : List Session) (s : Session) → length (put_session reg s) ≡ length reg
unfolding put_session
length-put_session [] s = refl
length-put_session (t ∷ ts) s = ground (arith, length-put_session ts s)

pub length-set_session :
    (reg : List Session) (s : Session) → length (set_session reg s) ≤ length reg + 1
unfolding set_session
length-set_session [] s = omega arith
length-set_session (t ∷ ts) s = ground (arith, length-set_session ts s)

pub length-add_session :
    (reg : List Session) (s : Session)
    → length reg ≤ max_sessions
    → length (add_session reg s).0 ≤ max_sessions
unfolding add_session
length-add_session reg s h = ground (arith, length-set_session reg s)

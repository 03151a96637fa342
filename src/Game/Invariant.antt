-- ===== src/Game/Invariant.antt =====
-- What holds of a game whenever it waits for a command: the cards of the deal are all different
-- wherever they lie, the hands, the crib and the piles have their sizes, the player on turn has a
-- card to play, and nobody but the winner has reached the target.
use cribbager.Common.{
  ℕ, ◌+◌, ◌≤◌, ◌<◌, ◌≡◌, Bool, true, false, ◌&&◌, List, [], ◌∷◌, none, some, length, if◌then◌else◌,
}
use cribbager.Cribbage.Defs.{Card}
use cribbager.Cribbage.Occurrences.{occ, Distinct}
use cribbager.Pegging.Defs.{running_count}
use cribbager.Game.Defs.{Seat, other, pick, both, phase_discard, phase_play, phase_complete}
use cribbager.Game.State.{can_play, turn}
use cribbager.Game.Engine.{DeckSource, Game}

abbrev pub cut_cards : Bool → Card → List Card
cut_cards true c = c ∷ []
cut_cards false c = []

-- How often a card lies on the table, in the hands, in the crib and in the undealt rest.
abbrev pub everywhere : Card → Game → ℕ
everywhere c g =
    occ c g.hands.at0
    + occ c g.hands.at1
    + occ c g.played.at0
    + occ c g.played.at1
    + occ c g.crib
    + occ c (cut_cards g.has_starter g.starter)
    + occ c g.rest

pub record Material (g : Game) : Type 0 where
  pub once : (c : Card) → everywhere c g ≤ 1
  pub piled : (c : Card) → occ c g.pile ≤ occ c g.played.at0 + occ c g.played.at1
  pub counted : g.count ≡ running_count g.pile

pub record Discarding (g : Game) : Type 0 where
  pub in_discard : g.phase ≡ phase_discard
  pub undecided : g.winner ≡ none
  pub uncut : g.has_starter ≡ false
  pub size0 : length g.hands.at0 ≡ (if g.has_discarded.at0 then 4 else 6)
  pub size1 : length g.hands.at1 ≡ (if g.has_discarded.at1 then 4 else 6)
  pub crib_size :
      length g.crib
      ≡ (if g.has_discarded.at0 then 2 else 0) + (if g.has_discarded.at1 then 2 else 0)
  pub waiting : (g.has_discarded.at0 && g.has_discarded.at1) ≡ false
  pub unplayed0 : g.played.at0 ≡ []
  pub unplayed1 : g.played.at1 ≡ []
  pub no_pile : g.pile ≡ []
  pub no_count : g.count ≡ 0
  pub none_gone : g.gone ≡ both false
  pub pone_leads : g.last_player ≡ g.dealer
  pub undealt : 0 < length g.rest

pub record Playing (g : Game) : Type 0 where
  pub in_play : g.phase ≡ phase_play
  pub undecided : g.winner ≡ none
  pub is_cut : g.has_starter ≡ true
  pub four0 : length g.hands.at0 + length g.played.at0 ≡ 4
  pub four1 : length g.hands.at1 + length g.played.at1 ≡ 4
  pub crib_four : length g.crib ≡ 4
  pub count_le : g.count ≤ 31

-- Neither player has reached the target.
pub record Below (g : Game) : Type 0 where
  pub below0 : g.scores.at0 < g.target
  pub below1 : g.scores.at1 < g.target

-- The winner alone has, and stands on the last hole.
pub record Won (g : Game) (w : Seat) : Type 0 where
  pub complete : g.phase ≡ phase_complete
  pub winner_is : g.winner ≡ some w
  pub reached : pick g.scores w ≡ g.target
  pub loser_below : pick g.scores (other w) < g.target

pub data Resting (g : Game) : Type 0 where
  discarding : Discarding g → Below g → Resting g
  playing : Playing g → Below g → can_play g.state (turn g.state) ≡ true → Resting g
  over : (w : Seat) → Won g w → Resting g

-- A source of real decks: every call gives 52 cards, no two the same.
abbrev pub IsFair : DeckSource → Type 0
IsFair src = (i : ℕ) → (d : List Card) × (src i ≡ some d) × (length d ≡ 52) × Distinct d

pub record Inv (g : Game) : Type 0 where
  pub fair : IsFair g.src
  pub goal : 0 < g.target
  pub material : Material g
  pub resting : Resting g

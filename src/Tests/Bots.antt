-- ===== src/Tests/Bots.antt =====
-- Witnesses on the end of a game and on bots: the match of Tests/Matches, and random bots whose
-- generator always draws 0.
use cribbager.Common.{
  ◌≤◌, ◌+◌, ◌<◌, ◌≡◌, refl, true, List, [], ◌∷◌, ◌++◌, Option, none, some, arith,
}
use cribbager.Cribbage.Defs.{deck, ranks_from, suits_from}
use cribbager.Game.Defs.{
  Both, both, seat0, seat1, discard, Event, cut_for_deal, hand_dealt, starter_cut, go_awarded,
}
use cribbager.Server.Stats.{game_points}
use cribbager.Server.Tally.{sum_of}
use cribbager.Bot.Deals.{DealStat, deal_stats, sum_deals, deal_stats-game_points}
use cribbager.Game.Engine.{apply, is_none}
use cribbager.Game.Invariant.{Inv}
use cribbager.Game.History.{Played-Inv, new-target}
use cribbager.Game.Start.{target_of}
use cribbager.Game.Potential.{potential}
use cribbager.Game.Gains.{Inv-cards}
use cribbager.Game.Bounded.{Commands, start, next, Commands-potential}
use cribbager.Bot.Defs.{Bot, play_game}
use cribbager.Bot.Moves.{IsLawful}
use cribbager.Bot.Match.{Decides}
use cribbager.Bot.Games.{play_game-Decides}
use cribbager.Game.Opening.{Differs}
use cribbager.Bot.Random.{Draw, random_bot, random_bot-IsLawful}
use cribbager.Server.Drive.{drive_bots}
use cribbager.Server.Driving.{Rests, drive_bots-Rests}
use cribbager.Tests.Matches.{
  card, plain-IsFair, dealt, dealt_lem, dealt-Played, thrown0, thrown0_lem, thrown1, thrown1_lem,
  accepted, events_of, options, turned, turned-IsFair, aces,
}

pub dealt-Inv : Inv dealt
dealt-Inv = Played-Inv plain-IsFair dealt-Played

pub dealt_target : dealt.target ≡ 121
unfolding target_of
dealt_target = new-target 0 options dealt dealt_lem

-- The throws of both seats.
two_throws : Commands 2 dealt thrown1
unfolding thrown0 thrown1
two_throws =
    next seat1 (discard (card 1 1) (card 1 3))
      (events_of (apply thrown0 seat1 (discard (card 1 1) (card 1 3))))
      (next seat0 (discard (card 1 0) (card 1 2))
        (events_of (apply dealt seat0 (discard (card 1 0) (card 1 2)))) start
        (accepted dealt (apply dealt seat0 (discard (card 1 0) (card 1 2))) thrown0_lem))
      (accepted thrown0 (apply thrown0 seat1 (discard (card 1 1) (card 1 3))) thrown1_lem)

Commands-potential_example :
    (2 ≤ potential dealt)
    × (is_none thrown1.winner ≡ true → 2 + potential thrown1 ≤ potential dealt)
Commands-potential_example = Commands-potential dealt-Inv two_throws

abbrev draw : Draw
draw v k n = 0

abbrev pub lazy : Bot
lazy = random_bot draw

pub lazy-IsLawful : IsLawful lazy
lazy-IsLawful = random_bot-IsLawful draw (λ v k n h. h)

random_bot-IsLawful_example : IsLawful lazy
random_bot-IsLawful_example = random_bot-IsLawful draw (λ v k n h. h)

abbrev lazies : Both Bot
lazies = record { at0 = lazy; at1 = lazy }

dealt_rounds : is_none dealt.winner ≡ true → potential dealt < 3159
dealt_rounds h = omega (arith, Inv-cards dealt dealt-Inv h, dealt_target)

-- The first cut decides.
pub turned-Differs : Differs turned 0
unfolding deck ranks_from suits_from
turned-Differs = (
  card 1 3,
  card 2 0,
  card 2 1 ∷ card 2 2 ∷ card 2 3 ∷ ranks_from 11 3 ++ aces,
  refl,
  λ e. omega (arith, e),
)

play_game-Decides_example : Decides 121 (play_game 1 3159 lazies turned)
play_game-Decides_example =
    play_game-Decides 1 0 3159 lazies turned (lazy-IsLawful, lazy-IsLawful) turned-IsFair
      turned-Differs (omega arith) (omega arith)

-- One bot against a human.
abbrev pub one_bot : Both (Option Bot)
one_bot = record { at0 = none; at1 = some lazy }

drive_bots-Rests_example : Rests one_bot dealt (drive_bots 3159 one_bot dealt)
drive_bots-Rests_example =
    drive_bots-Rests 3159 one_bot dealt (tt, lazy-IsLawful) dealt-Inv dealt_rounds

-- A jack is cut, and the dealer gets a go.
abbrev opened : Event
opened = cut_for_deal (record { at0 = card 1 0; at1 = card 2 0 }) seat0

abbrev heels_and_go : List Event
heels_and_go = starter_cut (card 11 0) 2 ∷ go_awarded seat0 1 ∷ []

deal_stats-game_points_example :
    (ds : List DealStat) × (deal_stats (opened ∷ hand_dealt seat0 (both []) ∷ heels_and_go)
      ≡ some ds)
    × (sum_deals seat0 ds
        ≡ sum_of (game_points (opened ∷ hand_dealt seat0 (both []) ∷ heels_and_go) seat0))
deal_stats-game_points_example =
    deal_stats-game_points seat0 opened seat0 (both []) heels_and_go refl refl

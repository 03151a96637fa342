-- ===== src/Bot/Games.antt =====
-- internal/bot/match.go: whole games between two lawful bots.
use cribbager.Common.{ℕ, ◌+◌, ◌*◌, ◌<◌, ◌≡◌, refl, subst, none, some, arith}
use cribbager.Common.Int.{pos}
use cribbager.Game.Defs.{Both}
use cribbager.Game.Engine.{DeckSource, Game, done}
use cribbager.Game.Start.{Options, new, target_of, default_target}
use cribbager.Game.Invariant.{Inv, IsFair}
use cribbager.Game.Laid.{Good-done}
use cribbager.Game.Opening.{Differs, new-Inv}
use cribbager.Game.History.{new-target, new-done-Inv}
use cribbager.Game.Gains.{Inv-cards}
use cribbager.Bot.Defs.{Bot, play_on, play_new, play_game}
use cribbager.Bot.Match.{BothLawful, Decides, play_on-Decides}

-- A match from a new game, with more rounds than 26 times the target and a deal of cards: where `New` returns a game
-- to a target, the match is decided on that target.
pub play_new-Decides :
    (cuts fuel : ℕ) (bots : Both Bot) (opts : Options) (g : Game)
    → BothLawful bots
    → IsFair opts.deck
    → new cuts opts ≡ some (done g)
    → 26 * target_of opts.target_score + 12 < fuel
    → Decides (target_of opts.target_score) (play_new fuel bots (new cuts opts))
unfolding play_new
play_new-Decides cuts fuel bots opts g lawful fair e enough =
    let v : Inv g = new-done-Inv cuts opts g fair e in
    let t : g.target ≡ target_of opts.target_score = new-target cuts opts g e in
    rw e (
      subst (λ n. Decides n (play_on fuel bots g)) t
        (play_on-Decides fuel bots g lawful v
          (λ open_game. omega (arith, Inv-cards g v open_game, t, enough))))

-- `PlayGame` of two lawful bots on decks of 52 different cards, of which the shuffle `k` has two different ranks
-- on top, with more than `k` cuts and 3158 rounds: the game is decided on 121 points.
pub play_game-Decides :
    (cuts k fuel : ℕ) (bots : Both Bot) (deck : DeckSource)
    → BothLawful bots
    → IsFair deck
    → Differs deck k
    → k < cuts
    → 3158 < fuel
    → Decides default_target (play_game cuts fuel bots deck)
unfolding play_game target_of
play_game-Decides cuts k fuel bots deck lawful fair differs enough rounds =
    let opts : Options = record { deck = deck; target_score = pos 0; start = none } in
    let (o, e, good) = new-Inv cuts k opts fair refl differs enough in
    let (g, done_e, v) = Good-done Inv o good in
    play_new-Decides cuts fuel bots opts g lawful fair
      (subst (λ m. new cuts opts ≡ some m) done_e e) rounds

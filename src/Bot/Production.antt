-- ===== src/Bot/Production.antt =====
-- The table of production bots of internal/bot/bot.go, and internal/server/bot.go. The bots themselves
-- are parameters.
use cribbager.Common.{Text, text_eq, Bool, ◌||◌, List, [], ◌∷◌, Option, none, some, if◌then◌else◌}
use cribbager.Bot.Defs.{Bot}
use cribbager.Bot.Random.{random_name}

-- What the table builds.
pub record Production : Type 0 where
  pub random : Bot
  pub champion : Bot
  pub ml : Bot

-- "champion", and the default's name "ml".
abbrev pub champion_name : Text
champion_name = 99 ∷ 104 ∷ 97 ∷ 109 ∷ 112 ∷ 105 ∷ 111 ∷ 110 ∷ []

abbrev pub default_name : Text
default_name = 109 ∷ 108 ∷ []

unfoldable pub bot_names : List Text
bot_names = champion_name ∷ default_name ∷ random_name ∷ []

unfoldable pub valid : Text → Bool
valid name = text_eq name random_name || (text_eq name champion_name || text_eq name default_name)

unfoldable pub build : Production → Text → Option Bot
build made name =
    if text_eq name random_name
    then some made.random
    else if text_eq name champion_name
    then some made.champion
    else if text_eq name default_name
    then some made.ml
    else none

-- `newBot`: an unknown name falls back to the default.
unfoldable pub new_bot : Production → Text → Bot
unfolding build
new_bot made name = elim (build made name) [ none ↦ made.ml | some b ↦ b ]

-- ===== src/Lib.antt =====
-- Cribbager: two-player cribbage, the rules engine, its bots' matches and its server.
--
-- Parts, files and correspondence:
--   Cribbage   internal/cribbage/card.go, deck.go: cards, notation, the deck (Cribbage/Defs);
--              counting of cards in lists (Occurrences), texts of cards (Notation), the deck
--              (Decks).
--   Pegging    internal/scoring/pegging/score.go: Total and Score of one play (Pegging/Defs),
--              compared (Equivalence), and the plays they accept (Legality).
--   Hand       internal/scoring/hand/score.go: Total and Score of a hand or crib (Hand/Defs), the
--              maximal runs of ranks (Runs), the lists of combinations (Items), Equivalence,
--              Legality.
--   Game       internal/game: seats, phases, commands, events (Defs); the foldable state and reduce
--              (State); the commands and what follows them (Engine); New (Start); snapshot.go
--              (Snapshot), view.go (View), reconstruct.go (Reconstruct). Proofs: the invariant
--              (Invariant) through the show (Laid, Show), the play (Series, Play, Card), the
--              discards (Starter, Throw), the commands (Apply) and New (Opening); the log and the
--              state (Kinds, Log, Sourcing); whole games (History) and their reconstruction (Runs,
--              Replayed); the end of a game (Potential, Gains, Ending, Bounded); what a view
--              depends on (Hidden).
--   Bot        internal/bot: bot.go and match.go, the bot and the match runner (Defs), the table of
--              production bots with internal/server/bot.go (Production), the random bot of bots.go
--              (Random), dealstats.go (Deals), compare.go (Compare), and the evaluators of eval
--              with mlbot.go: the holds of six cards (Splits), the rankings of throws and plays
--              (Ranking), the unseen cards (Unseen). Proofs: the moves of lawful bots (Moves),
--              matches (Match, Games), the rankings (Ranked), comparisons (Paired).
--   Server     internal/server: ratelimit.go (RateLimit), result.go (Results), stats.go (Stats, and
--              Tally for its relation to the engine's scores); wire.go (Wire, and Redaction for
--              what it hides); session.go (Session; Drive for driveBots; Registry, with store.go);
--              server.go (Stream, Handlers, Upkeep, and Actions with result_handlers.go). Proofs:
--              the bots' loop (Throws, Driving), sound sessions (Sound), handleAction (Acting),
--              every request (Steps, Creating, Trace). Finished games: who may see one, replay.go
--              and the handlers of the analysis (Finished, and Access for what it hides); the
--              results of a player, result_handlers.go (History, and Ledger for its counts);
--              tools.go (Tools for a score, DiscardTool and DiscardAnswers for a discard).
--              Analysis: analysis.go and analysis2.go, the verdicts (Verdicts), the engines
--              (Engines), one deal (Deals), the walk along the log (Walk); proofs: every engine's
--              verdicts (Given, Own, Rates), the scores at the start of a deal (Kept, Starts), the
--              number of deals (Lawful, Complete), the summaries (Aligned, Totals). Auth: auth.go
--              and auth_store_mem.go (Store), auth_handlers.go (Requests, Handlers); proofs in
--              Apart, Accounts, Resets, Logins.
--   Common     shared names and helpers; Floats is the arithmetic of doubles that the evaluators
--              use. Tests holds the results at concrete inputs.
--
-- How they interact: the engine calls Pegging.score for each card played and Hand.score at the
-- show, appends events to the log and folds each into the state by reduce; a view is computed from
-- that state; snapshots, reconstruction and statistics read the log. A method that changes the game
-- is a function from the game to an Outcome: the new game, an error with the game as the call
-- leaves it, or a panic.
--
-- The server holds sessions, each with a game and perhaps bots; a handler finds the session by its
-- id and the seat by its token, applies a command, lets the bots move (driveBots), stores the
-- record and answers with the deltas of the new events; a stream sends the same deltas as they
-- come. A handler is a function from the server to the new server and the answer: one call at a
-- time, as the session's lock has it.
--
-- Conventions: ints and uint8 values of the source are numbers, since none is subtracted below 0 or
-- grows past a few hundred in the modelled code; the option -1 of the winner is an Option; the
-- configured start scores and target are integers. The random source is a parameter: a function
-- from the number of the shuffle to the deck it returns, or none where it panics. IsFair says of it
-- that every deck is 52 different cards. The cut for the deal repeats on ties without a bound in
-- the source: the model has fuel, one unit a round, and the result on New says which fuel is
-- enough.
--
-- The loops of driveBots and playOn have no bound in the source: the model has fuel, one unit a
-- round, and more than 26 times the target and a deal of cards is enough for bots that keep to the
-- contract (IsLawful): two different cards of the hand, or a legal card. A bot may draw random
-- numbers: within a game each of its answers is to a view of another version, so it is a function
-- of the view. Fresh tokens, the clock, the decks, the user of a request and bcrypt are arguments.
-- A text is the list of its bytes, a time a number, a map an association list by id.
--
-- The hand scorer takes cards of the ranks 0 to 13, the zero card's and the real ones: at a higher
-- rank, which no constructor gives, its arrays would panic, which the model leaves out. In a
-- comparison the bots are reused from game to game: what they remember is a state that each game
-- changes.
--
-- The analysis reads a finished log once more: it reconstructs the plays, walks along the events
-- with its own scores, and asks each engine for a verdict on the seat's throws and on its plays
-- where there is a choice. An engine's verdict is the chosen value beside the best of a ranking. A
-- float64 is an element of Floats, which has the operations that the source applies; IsFinite says
-- what finite doubles satisfy: `>` is an asymmetric order that is transitive in its negation, x - x
-- is 0, and rounding keeps what is not negative so.
--
-- Not modelled: JSON and gob encodings (a game handler starts from the decoded body), display
-- texts, HTTP and SSE, logging, the databases and the mail, the win objective with its tables and
-- networks (parameters of the rankings and the engines), the standard errors of a comparison, the
-- laboratory, the command-line programs, the web client and the training code: I/O, clients of
-- other services, or floating-point arithmetic.
pub mod Common
pub mod Cribbage
pub mod Pegging
pub mod Hand
pub mod Game
pub mod Bot
pub mod Server
pub mod Tests

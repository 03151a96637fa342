-- ===== src/Server.antt =====
-- internal/server: the parts of the server that are plain computations on games and requests.
pub mod RateLimit
pub mod Results
pub mod Stats
pub mod Tally
pub mod Wire
pub mod Stream
pub mod Redaction
pub mod Session
pub mod Drive
pub mod Throws
pub mod Driving
pub mod Registry
pub mod Handlers
pub mod Actions
pub mod Upkeep
pub mod Sound
pub mod Acting
pub mod Steps
pub mod Creating
pub mod Trace
pub mod Auth
pub mod Analysis
pub mod Finished
pub mod Access
pub mod Tools
pub mod History
pub mod Ledger
pub mod DiscardTool
pub mod DiscardAnswers

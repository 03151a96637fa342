-- ===== src/Server/Auth.antt =====
-- Accounts and login sessions of internal/server: the store, the requests, and what they keep.
pub mod Store
pub mod Requests
pub mod Handlers
pub mod Apart
pub mod Accounts
pub mod Resets
pub mod Logins

-- ===== src/Bank.antt =====
-- The bank module: coins, and the keeper that moves them.
pub mod Coin
pub mod Keeper
pub mod Accounts
pub mod Queries
pub mod Message
pub mod Params
pub mod Genesis
pub mod Pending

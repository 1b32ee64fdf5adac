-- ===== src/Gaia.antt =====
-- The example chain of gaia-rs/src: its store keys, and its handlers on the stores of the application.
pub mod StoreKeys
pub mod Handler
pub mod Query
pub mod Paths
pub mod Balances
pub mod Pending
pub mod Chain

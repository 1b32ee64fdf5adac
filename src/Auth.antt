-- ===== src/Auth.antt =====
-- x/auth/src and gears/src/x/auth: accounts and their numbers.
pub mod Module
pub mod Keeper
pub mod Params

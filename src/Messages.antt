-- ===== src/Messages.antt =====
-- The types of proto-messages/src and proto-types/src, and how they are read from the generated
-- protobuf types and turned into them.
pub mod Crates
pub mod Address
pub mod Key
pub mod Account
pub mod Tx
pub mod Coin
pub mod CoinText
pub mod Fee
pub mod MsgSend

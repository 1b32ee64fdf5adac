-- ===== src/Trees.antt =====
-- trees/src: the IAVL tree and the Merkle root.
pub mod Outcome
pub mod External
pub mod Merkle
pub mod Iavl

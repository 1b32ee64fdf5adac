-- ===== src/Database.antt =====
-- database/src: the trait that the trees read and write through, and its two pure
-- implementations. RocksDB (database/src/rocks.rs) is a binding to a foreign library.
pub mod Record
pub mod Bound
pub mod Memory
pub mod Prefix

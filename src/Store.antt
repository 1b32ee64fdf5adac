-- ===== src/Store.antt =====
-- store/src: the caches over a tree, the stores of the modules, views by prefix, and the app hash.
pub mod KvStore
pub mod MultiStore
pub mod Hash

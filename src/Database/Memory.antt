-- ===== src/Database/Memory.antt =====
-- database/src/memory.rs: `MemDB`, a `RefCell` round a `BTreeMap`.
use doge_sdk.Base.{◌≡◌, refl, Bool, [], ◌∷◌, All, arith, if◌then◌else◌}
use doge_sdk.Base.Bytes.{Bytes}
use doge_sdk.Base.BTreeMap
use doge_sdk.Base.BTreeMap.{BTreeMap, get-insert}
use doge_sdk.Database.Bound.{
  Bound, included, contains, prefix_end_bound, starts_with, IsBytes, contains-prefix_end_bound,
}
use doge_sdk.Database.Record.{Database, IsLawful}

pub record MemDb : Type 0 where
  pub store : BTreeMap Bytes

abbrev pub new : MemDb
new = record { store = [] }

-- The entries whose keys pass a test, in order.
unfoldable pub keep : (Bytes → Bool) → BTreeMap Bytes → BTreeMap Bytes
keep test [] = []
keep test (e ∷ m) = let rest = keep test m in if test e.0 then e ∷ rest else rest

-- `BTreeMap::range`.
unfoldable pub range : Bound → Bound → BTreeMap Bytes → BTreeMap Bytes
unfolding keep
range start stop m = keep (contains start stop) m

unfoldable pub prefix_iterator : MemDb → Bytes → BTreeMap Bytes
unfolding range
prefix_iterator db prefix = range (included prefix) (prefix_end_bound prefix) db.store

instance unfoldable pub mem_database : Database MemDb
mem_database = record {
  get = λ db k. BTreeMap.get k db.store;
  put = λ db k v. record { store = BTreeMap.insert k v db.store };
  iterator = λ db. db.store;
  prefix_iterator = prefix_iterator;
}

-- A read of a `MemDb` after a write gives the value under the key written and what was there
-- before under any other.
pub mem_database-IsLawful : IsLawful mem_database
unfolding mem_database
mem_database-IsLawful = record { get-put = λ s j k v. get-insert j k v s.store }

keep-contains :
    (prefix : Bytes) (m : BTreeMap Bytes)
    → All (λ e. IsBytes e.0) m
    → keep (contains (included prefix) (prefix_end_bound prefix)) m ≡ keep (starts_with prefix) m
unfolding keep
keep-contains prefix [] h = refl
keep-contains prefix (e ∷ m) h =
    ground (arith, contains-prefix_end_bound prefix e.0 h.0, keep-contains prefix m h.1)

-- In a store whose keys are bytes, the scan yields the entries whose keys begin with the prefix, each once and in order, their
-- keys whole.
pub prefix_iterator-eq-keep :
    (db : MemDb) (prefix : Bytes)
    → All (λ e. IsBytes e.0) db.store
    → prefix_iterator db prefix ≡ keep (starts_with prefix) db.store
unfolding prefix_iterator
prefix_iterator-eq-keep db prefix h = keep-contains prefix db.store h

-- ===== src/Store/MultiStore/Commit.antt =====
-- `MultiStore::new`, `get_kv_store`, the setters and `commit` of store/src/store.rs. Each store sees
-- the shared database through its name as a prefix. `SK::iter()` is the list of the names.
use doge_sdk.Base.{ℕ, ◌+◌, ◌%◌, ◌^◌, Option, none, some, List, [], ◌∷◌, if◌then◌else◌}
use doge_sdk.Base.Bytes.{Bytes, eq_bytes}
use doge_sdk.Database.Record.{Database}
use doge_sdk.Database.Prefix.{prefix_database}
use doge_sdk.Trees.External.{External}
use doge_sdk.Trees.Outcome.{Outcome, ok, panic, expect, expect_ok, ◌>>=◌}
use doge_sdk.Store.KvStore
use doge_sdk.Store.KvStore.{KvStore}
use doge_sdk.Store.Hash.{StoreInfo, hash_store_infos}
use doge_sdk.Store.MultiStore.{MultiStore}

abbrev pub Stores : Type 0 → Type 0
Stores S = List (Bytes × KvStore S)

-- The store over another state of the database.
abbrev pub with_db : {S : Type 0} → KvStore S → S → KvStore S
with_db s db = record s { persistent_store = record s.persistent_store { node_db = db } }

abbrev pub db_of : {S : Type 0} → KvStore S → S
db_of s = s.persistent_store.node_db

module _ {S : Type 0} where
  unfoldable pub find : Bytes → Stores S → Option (KvStore S)
  find key [] = none
  find key ((name, s) ∷ rest) =
      let found = find key rest in if eq_bytes key name then some s else found

  unfoldable pub get_kv_store : MultiStore S → Bytes → Outcome (KvStore S)
  unfolding find
  get_kv_store m key = expect (find key m.stores)

  -- What is written through the reference that `get_mutable_kv_store` gives.
  unfoldable pub replace : Bytes → KvStore S → Stores S → Stores S
  replace key s' [] = []
  replace key s' ((name, s) ∷ rest) =
      let replaced = replace key s' rest in
      if eq_bytes key name then (name, s') ∷ rest else (name, s) ∷ replaced

  unfoldable pub put_kv_store : MultiStore S → Bytes → KvStore S → MultiStore S
  unfolding replace
  put_kv_store m key s = record m { stores = replace key s m.stores }

  -- All stores over one state.
  unfoldable pub share : S → Stores S → Stores S
  share db [] = []
  share db ((name, s) ∷ rest) = (name, with_db s db) ∷ share db rest

  unfoldable pub set_head_version : MultiStore S → ℕ → MultiStore S
  set_head_version m version = record m { head_version = version }

  unfoldable pub set_head_commit_hash : MultiStore S → Bytes → MultiStore S
  set_head_commit_hash m hash = record m { head_commit_hash = hash }

  unfoldable pub set_stores : MultiStore S → Stores S → MultiStore S
  set_stores m stores = record m { stores = stores }

module _ ⦃x : External⦄ {S : Type 0} ⦃d : Database S⦄ where
  -- The loop of `new`: the stores, their hashes, and the version of the last one.
  unfoldable pub open_stores : S → List Bytes → ℕ → Outcome (ℕ × List StoreInfo × Stores S)
  open_stores db [] head_version = ok (head_version, [], [])
  open_stores db (name ∷ names) head_version = do
    s ← expect_ok (KvStore.new ⦃d = prefix_database d name⦄ db none)
    (version, infos, stores) ← open_stores db names (KvStore.last_committed_version s)
    ok (
      version,
      record { name = name; hash = KvStore.head_commit_hash s } ∷ infos,
      (name, s) ∷ stores,
    )

  unfoldable pub new : S → List Bytes → Outcome (MultiStore S)
  unfolding open_stores hash_store_infos
  new db names = do
    (version, infos, stores) ← open_stores db names 0
    hash ← hash_store_infos infos
    ok (record { head_version = version; head_commit_hash = hash; stores = stores })

  -- The loop of `commit`: one store after the other, over the state that the one before leaves.
  unfoldable pub commit_stores : ℕ → S → Stores S → Outcome (List StoreInfo × Stores S × S)
  commit_stores fuel db [] = ok ([], [], db)
  commit_stores fuel db ((name, s) ∷ rest) = do
    (hash, s') ← KvStore.commit ⦃d = prefix_database d name⦄ fuel (with_db s db)
    (infos, stores, db') ← commit_stores fuel (db_of s') rest
    ok (record { name = name; hash = hash } ∷ infos, (name, s') ∷ stores, db')

  -- Over the state of the database that the stores share.
  unfoldable pub commit_over : ℕ → S → MultiStore S → Outcome (Bytes × MultiStore S)
  unfolding commit_stores hash_store_infos share
  commit_over fuel db m = do
    (infos, stores, db') ← commit_stores fuel db m.stores
    hash ← hash_store_infos infos
    ok (
      hash,
      record {
        head_version = (m.head_version + 1) % 2 ^ 64;
        head_commit_hash = hash;
        stores = share db' stores;
      },
    )

  -- The first store has that state. Without stores there is no hash of them: a panic.
  unfoldable pub commit : ℕ → MultiStore S → Outcome (Bytes × MultiStore S)
  unfolding commit_over
  commit fuel m = elim m.stores [ [] ↦ panic | (name, s) ∷ rest ↦ commit_over fuel (db_of s) m ]

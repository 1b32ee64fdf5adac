-- ===== src/Store/KvStore.antt =====
-- `KVStore` and the prefix stores of store/src/store.rs. `fuel` bounds the levels of the tree that
-- a read or a write goes down.
pub mod Pending
pub mod Reads
pub mod Range
pub mod RangeLaws
pub mod Subspace
pub mod Writes
pub mod View
pub mod Commit
use doge_sdk.Base.{ℕ, Bool, true, false, Option, none, some, List, [], ◌∷◌, ◌++◌, if◌then◌else◌}
use doge_sdk.Base.Bytes.{Bytes}
use doge_sdk.Base.BTreeMap
use doge_sdk.Base.BTreeMap.{BTreeMap}
use doge_sdk.Database.Record.{Database}
use doge_sdk.Trees.External.{External}
use doge_sdk.Trees.Outcome.{Outcome, ok, panic, expect_ok, ◌>>=◌}
use doge_sdk.Trees.Iavl.Tree
use doge_sdk.Trees.Iavl.Tree.{Tree}
use doge_sdk.Trees.Iavl.TreeLaws.{set_all}

pub record KvStore (S : Type 0) : Type 0 where
  pub persistent_store : Tree S
  pub block_cache : BTreeMap Bytes
  pub tx_cache : BTreeMap Bytes

-- Inserts every entry of the first map into the second, in ascending order of keys.
unfoldable pub absorb : BTreeMap Bytes → BTreeMap Bytes → BTreeMap Bytes
absorb [] cache = cache
absorb ((k, v) ∷ rest) cache = absorb rest (BTreeMap.insert k v cache)

module _ {S : Type 0} where
  -- The empty key is refused by a panic.
  unfoldable pub set : KvStore S → Bytes → Bytes → Outcome (KvStore S)
  set s [] value = panic
  set s (b ∷ key) value = ok (record s { tx_cache = BTreeMap.insert (b ∷ key) value s.tx_cache })

  unfoldable pub write_then_clear_tx_cache : KvStore S → KvStore S
  unfolding absorb
  write_then_clear_tx_cache s = record s {
    block_cache = absorb s.tx_cache s.block_cache;
    tx_cache = [];
  }

  unfoldable pub clear_tx_cache : KvStore S → KvStore S
  clear_tx_cache s = record s { tx_cache = [] }

  unfoldable pub last_committed_version : KvStore S → ℕ
  last_committed_version s = s.persistent_store.loaded_version

module _ ⦃x : External⦄ where
  unfoldable pub head_commit_hash : {S : Type 0} → KvStore S → Bytes
  head_commit_hash s = Tree.root_hash s.persistent_store

module _ ⦃x : External⦄ {S : Type 0} ⦃d : Database S⦄ where
  unfoldable pub new : S → Option ℕ → Outcome (KvStore S)
  new db target_version = do
    tree ← Tree.new db target_version
    ok (record { persistent_store = tree; block_cache = []; tx_cache = [] })

  -- The transaction's writes come before the block's, and these before the tree.
  unfoldable pub get : ℕ → KvStore S → Bytes → Outcome (Option Bytes)
  get fuel s key = elim (BTreeMap.get key s.tx_cache) [
    | some v ↦ ok (some v)
    | none ↦ elim (BTreeMap.get key s.block_cache) [
      | some v ↦ ok (some v)
      | none ↦ Tree.get fuel s.persistent_store key
    ]
  ]

  unfoldable pub write_then_clear_block_cache : ℕ → KvStore S → Outcome (KvStore S)
  write_then_clear_block_cache fuel s = do
    tree ← set_all fuel s.persistent_store s.block_cache
    ok (record s { persistent_store = tree; block_cache = [] })

  -- The error of `save_version` is unwrapped.
  unfoldable pub commit : ℕ → KvStore S → Outcome (Bytes × KvStore S)
  unfolding write_then_clear_tx_cache write_then_clear_block_cache
  commit fuel s = do
    s1 ← write_then_clear_block_cache fuel (write_then_clear_tx_cache s)
    ((hash, _), tree) ← expect_ok (Tree.save_version s1.persistent_store)
    ok (hash, record s1 { persistent_store = tree })

  -- `ImmutablePrefixStore::get` and `MutablePrefixStore::get`.
  unfoldable pub prefix_get : ℕ → KvStore S → Bytes → Bytes → Outcome (Option Bytes)
  unfolding get
  prefix_get fuel s prefix k = get fuel s (prefix ++ k)

unfoldable pub prefix_set : {S : Type 0} → KvStore S → Bytes → Bytes → Bytes → Outcome (KvStore S)
unfolding set
prefix_set s prefix k v = set s (prefix ++ k) v

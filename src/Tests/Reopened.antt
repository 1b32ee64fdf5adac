-- ===== src/Tests/Reopened.antt =====
-- The commit of a store over its view of a database, and the store that is opened on what it left.
use doge_sdk.Base.{ℕ, ◌+◌, inr, ◌≡◌, refl, Option, none, some, [], ◌∷◌, arith}
use doge_sdk.Base.Bytes.{Bytes, cmp}
use doge_sdk.Base.BTreeMap.{get, insert}
use doge_sdk.Database.Memory.{
  MemDb, mem_database, mem_database-IsLawful, new, prefix_iterator, keep, range,
}
use doge_sdk.Database.Prefix.{prefix_database, prefix_database-IsLawful}
use doge_sdk.Database.Record.{Database, IsLawful}
use doge_sdk.Database.Bound
use doge_sdk.Database.Bound.{above_start, below_end, prefix_end_bound, pop_loop}
use doge_sdk.Trees.Outcome.{Outcome, ok}
use doge_sdk.Trees.Iavl.Node.{get_key, get_height, get_size, hash, serialize, clear_children}
use doge_sdk.Trees.Iavl.NodeDb
use doge_sdk.Trees.Iavl.NodeDb.{
  get_node_key, get_root_node, get_root_key, recursive_tree_save, save_node,
}
use doge_sdk.Trees.Iavl.Set.{recursive_set}
use doge_sdk.Trees.Iavl.Balance.{in_memory}
use doge_sdk.Trees.Iavl.Save.{IsAddressed}
use doge_sdk.Trees.Iavl.Tree.{
  save_version, contains, get_versions, last, read_versions, add_version,
}
use doge_sdk.Trees.Iavl.TreeLaws.{Loads-in_memory, set_all}
use doge_sdk.Store.KvStore
use doge_sdk.Store.KvStore.{KvStore, absorb, commit}
use doge_sdk.Store.KvStore.View.{view}
use doge_sdk.Store.KvStore.Commit.{get-commit, get-reopened}
use doge_sdk.Tests.Crates.{crates, crates-IsLawful, three}
use doge_sdk.Tests.Save.{three_nodes, content, tree_of_three, IsSaveable-triple}

-- The database through the prefix "bank".
unfoldable bank_view : Database MemDb
unfolding prefix_database
bank_view = prefix_database mem_database (98 ∷ 97 ∷ 110 ∷ 107 ∷ [])

bank_view-IsLawful : IsLawful bank_view
unfolding bank_view
bank_view-IsLawful = prefix_database-IsLawful mem_database mem_database-IsLawful _

new-IsAddressed : IsAddressed ⦃d = bank_view⦄ content new
unfolding bank_view prefix_database mem_database get_node_key get
new-IsAddressed h bytes g =
    let e : ◌≡◌ {A = Option Bytes} none (some bytes) = g in absurd (ground (arith, e))

-- The third entry is in the tree; the block wrote the first and the transaction the second.
abbrev store : KvStore MemDb
store = record {
  persistent_store = record {
    root = some (in_memory three);
    node_db = new;
    loaded_version = 0;
    versions = [];
  };
  block_cache = (1 ∷ [], 11 ∷ []) ∷ [];
  tx_cache = (2 ∷ [], 22 ∷ []) ∷ [];
}

flushed :
    set_all ⦃d = bank_view⦄ 255 store.persistent_store (absorb store.tx_cache store.block_cache)
    ≡ ok tree_of_three
unfolding tree_of_three set_all absorb cmp insert recursive_set get_height get_size
flushed = refl

get-commit_example :
    (s' : KvStore MemDb) × (commit ⦃d = bank_view⦄ 255 store ≡ ok (hash three_nodes, s'))
    × (s'.tx_cache ≡ [])
    × (s'.block_cache ≡ [])
    × (get_root_node ⦃d = bank_view⦄ s'.persistent_store.node_db 1 ≡ ok s'.persistent_store.root)
    × ((levels : ℕ) × ((more : ℕ) (key : Bytes)
          → (KvStore.get ⦃d = bank_view⦄ (levels + more) store key
              ≡ ok (view store ((3 ∷ [], 33 ∷ []) ∷ []) key))
            × (KvStore.get ⦃d = bank_view⦄ (levels + more) s' key
                ≡ ok (view store ((3 ∷ [], 33 ∷ []) ∷ []) key))))
unfolding hash crates tree_of_three contains cmp
get-commit_example =
    get-commit ⦃d = bank_view⦄ bank_view-IsLawful crates-IsLawful content 255 store
      ((3 ∷ [], 33 ∷ []) ∷ []) tree_of_three three_nodes (tt, tt) (tt, tt)
      (inr (in_memory three, refl, (three, Loads-in_memory ⦃d = bank_view⦄ new three, tt, refl)))
      flushed refl new-IsAddressed IsSaveable-triple refl refl

abbrev stored_by : Outcome (Bytes × KvStore MemDb) → KvStore MemDb
stored_by (ok (h, s)) = s
stored_by _ = store

unfoldable saved_store : KvStore MemDb
unfolding commit
saved_store = stored_by (commit ⦃d = bank_view⦄ 255 store)

saved_run : commit ⦃d = bank_view⦄ 255 store ≡ ok (hash three_nodes, saved_store)
unfolding saved_store commit set_all insert cmp recursive_set get_height save_version get_size
saved_run = refl

versions_run : get_versions ⦃d = bank_view⦄ saved_store.persistent_store.node_db ≡ ok (1 ∷ [])
unfolding saved_store commit get_versions bank_view prefix_database mem_database prefix_iterator
    set_all insert cmp recursive_set get_height get_size save_version NodeDb.save_version
    recursive_tree_save save_node hash crates Bound.contains above_start below_end prefix_end_bound
    pop_loop keep range absorb clear_children serialize get_node_key get_root_key get_key get
    read_versions add_version
versions_run = refl

-- The store is opened again as version 1.
get-reopened_example :
    (r : KvStore MemDb) × (KvStore.new ⦃d = bank_view⦄ saved_store.persistent_store.node_db none
      ≡ ok r)
    × (r.persistent_store.loaded_version ≡ 1)
    × ((levels : ℕ) × ((more : ℕ) (key : Bytes)
          → KvStore.get ⦃d = bank_view⦄ (levels + more) r key
            ≡ ok (view store ((3 ∷ [], 33 ∷ []) ∷ []) key)))
unfolding hash crates tree_of_three contains cmp last
get-reopened_example =
    get-reopened ⦃d = bank_view⦄ bank_view-IsLawful crates-IsLawful content 255 store
      ((3 ∷ [], 33 ∷ []) ∷ []) tree_of_three three_nodes (tt, tt) (tt, tt)
      (inr (in_memory three, refl, (three, Loads-in_memory ⦃d = bank_view⦄ new three, tt, refl)))
      flushed refl new-IsAddressed IsSaveable-triple refl refl (hash three_nodes) saved_store
      (1 ∷ []) saved_run versions_run refl

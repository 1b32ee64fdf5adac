-- ===== src/Tests/Store.antt =====
-- The store at concrete inputs.
use doge_sdk.Base.{◌≡◌, refl, none, [], ◌∷◌, arith}
use doge_sdk.Base.Bytes.{Bytes, cmp}
use doge_sdk.Base.BTreeMap
use doge_sdk.Base.BTreeMap.{BTreeMap, IsSorted}
use doge_sdk.Database.Memory.{MemDb, mem_database, new}
use doge_sdk.Trees.Outcome.{Outcome, ok, panic, ◌>>=◌}
use doge_sdk.Trees.Iavl.Node.{
  get_height, get_key, get_size, hash, serialize, deserialize, decode_bytes, deserialize_leaf,
  deserialize_inner, encode_bytes, clear_children, to_hash,
}
use doge_sdk.Trees.Iavl.NodeDb.{get_node, recursive_tree_save, save_node, save_tree, get_root_key}
use doge_sdk.Trees.Iavl.NodeDb
use doge_sdk.Trees.Iavl.Rotate.{right_rotate, left_rotate}
use doge_sdk.Trees.Iavl.Set.{recursive_set}
use doge_sdk.Trees.Iavl.Tree
use doge_sdk.Trees.Iavl.Tree.{Tree}
use doge_sdk.Trees.Iavl.TreeLaws.{set_all}
use doge_sdk.Store.KvStore.{KvStore, set, get, commit, write_then_clear_block_cache}
use doge_sdk.Store.KvStore.Reads.{get-write_then_clear_block_cache}
use mathlib.Core.List.{Permᴰ}
use doge_sdk.Store.Hash.{StoreInfo, hash_store_infos}
use doge_sdk.Store.Hash.Order.{hash_store_infos-Perm}
use doge_sdk.Tests.Crates.{crates}

abbrev store : KvStore MemDb
store = record {
  persistent_store = record { root = none; node_db = new; loaded_version = 0; versions = [] };
  block_cache = (1 ∷ [], 11 ∷ []) ∷ (3 ∷ [], 33 ∷ []) ∷ [];
  tx_cache = (2 ∷ [], 22 ∷ []) ∷ (3 ∷ [], 34 ∷ []) ∷ [];
}

get-write_then_clear_block_cache_example :
    (s' : KvStore MemDb) × (write_then_clear_block_cache 255 store ≡ ok s')
    × (s'.block_cache ≡ [])
    × ((key : Bytes) → get 255 s' key ≡ get 255 store key)
unfolding cmp
get-write_then_clear_block_cache_example =
    get-write_then_clear_block_cache store (1 ∷ []) (11 ∷ []) ((3 ∷ [], 33 ∷ []) ∷ []) refl refl
      ((refl, tt), (tt, tt)) (omega arith)

-- A block that writes the keys 1, 2 and 3, and then a block that writes the key 4.
unfoldable two_commits : Outcome (Bytes × KvStore MemDb)
unfolding set commit
two_commits = do (_, s1) ← commit 255 store; s2 ← set s1 (4 ∷ []) (44 ∷ []); commit 255 s2

two_commits_run : two_commits ≡ panic
unfolding two_commits set commit set_all recursive_set right_rotate left_rotate get_height get_size
    get_key cmp get_node deserialize serialize hash crates mem_database BTreeMap.get BTreeMap.insert
    decode_bytes deserialize_leaf deserialize_inner encode_bytes clear_children to_hash
    recursive_tree_save save_node save_tree get_root_key NodeDb.save_version Tree.set
    Tree.save_version
two_commits_run = refl

abbrev auth : StoreInfo
auth = record { name = 97 ∷ []; hash = 1 ∷ [] }

abbrev bank : StoreInfo
bank = record { name = 98 ∷ []; hash = 2 ∷ [] }

hash_store_infos-Perm_example :
    hash_store_infos (auth ∷ bank ∷ []) ≡ hash_store_infos (bank ∷ auth ∷ [])
hash_store_infos-Perm_example =
    hash_store_infos-Perm (auth ∷ bank ∷ []) (bank ∷ auth ∷ []) (Permᴰ.swap refl refl)

-- ===== src/Store/MultiStore.antt =====
-- `MultiStore` of store/src/store.rs: a `KVStore` under each store key, all over one database. A
-- store key is its name; the `HashMap` is the list of its entries in the order of its iteration.
-- Every store carries the state of the one database that they share.
pub mod Commit
pub mod Isolation
use doge_sdk.Base.{ℕ, ◌≡◌, refl, ap, List, [], ◌∷◌}
use doge_sdk.Base.Bytes.{Bytes}
use doge_sdk.Trees.Iavl.Tree.{Tree}
use doge_sdk.Store.KvStore
use doge_sdk.Store.KvStore.{KvStore}

pub record MultiStore (S : Type 0) : Type 0 where
  pub head_version : ℕ
  pub head_commit_hash : Bytes
  pub stores : List (Bytes × KvStore S)

module _ {S : Type 0} where
  -- The loops over all stores.
  unfoldable pub write_stores : List (Bytes × KvStore S) → List (Bytes × KvStore S)
  unfolding KvStore.write_then_clear_tx_cache
  write_stores [] = []
  write_stores ((k, s) ∷ rest) = (k, KvStore.write_then_clear_tx_cache s) ∷ write_stores rest

  unfoldable pub clear_stores : List (Bytes × KvStore S) → List (Bytes × KvStore S)
  unfolding KvStore.clear_tx_cache
  clear_stores [] = []
  clear_stores ((k, s) ∷ rest) = (k, KvStore.clear_tx_cache s) ∷ clear_stores rest

  unfoldable pub write_then_clear_tx_caches : MultiStore S → MultiStore S
  unfolding write_stores
  write_then_clear_tx_caches m = record m { stores = write_stores m.stores }

  unfoldable pub clear_tx_caches : MultiStore S → MultiStore S
  unfolding clear_stores
  clear_tx_caches m = record m { stores = clear_stores m.stores }

  -- Nothing is pending.
  abbrev pub IsSettled : MultiStore S → Type 0
  IsSettled m = clear_tx_caches m ≡ m

  clear-write_stores :
      (stores : List (Bytes × KvStore S)) → clear_stores (write_stores stores) ≡ write_stores stores
  unfolding clear_stores write_stores
  clear-write_stores [] = refl
  clear-write_stores ((k, s) ∷ rest) =
      ap (λ r. (k, KvStore.write_then_clear_tx_cache s) ∷ r) (clear-write_stores rest)

  clear-clear_stores :
      (stores : List (Bytes × KvStore S)) → clear_stores (clear_stores stores) ≡ clear_stores stores
  unfolding clear_stores
  clear-clear_stores [] = refl
  clear-clear_stores ((k, s) ∷ rest) =
      ap (λ r. (k, KvStore.clear_tx_cache s) ∷ r) (clear-clear_stores rest)

  pub write_then_clear_tx_caches-IsSettled :
      (m : MultiStore S) → IsSettled (write_then_clear_tx_caches m)
  unfolding write_then_clear_tx_caches clear_tx_caches
  write_then_clear_tx_caches-IsSettled m =
      ap (λ s. record m { stores = s }) (clear-write_stores m.stores)

  pub clear_tx_caches-IsSettled : (m : MultiStore S) → IsSettled (clear_tx_caches m)
  unfolding clear_tx_caches
  clear_tx_caches-IsSettled m = ap (λ s. record m { stores = s }) (clear-clear_stores m.stores)

  -- The trees of the stores.
  abbrev pub trees : List (Bytes × KvStore S) → List (Bytes × Tree S)
  trees [] = []
  trees ((k, s) ∷ rest) = (k, s.persistent_store) ∷ trees rest

  -- What the last commit left: the version, the hash, and the trees.
  abbrev pub committed : MultiStore S → ℕ × Bytes × List (Bytes × Tree S)
  committed m = (m.head_version, m.head_commit_hash, trees m.stores)

  trees-write_stores :
      (stores : List (Bytes × KvStore S)) → trees (write_stores stores) ≡ trees stores
  unfolding write_stores KvStore.write_then_clear_tx_cache
  trees-write_stores [] = refl
  trees-write_stores ((k, s) ∷ rest) =
      ap (λ ts. (k, s.persistent_store) ∷ ts) (trees-write_stores rest)

  trees-clear_stores :
      (stores : List (Bytes × KvStore S)) → trees (clear_stores stores) ≡ trees stores
  unfolding clear_stores KvStore.clear_tx_cache
  trees-clear_stores [] = refl
  trees-clear_stores ((k, s) ∷ rest) =
      ap (λ ts. (k, s.persistent_store) ∷ ts) (trees-clear_stores rest)

  -- The transaction caches are no part of it.
  pub committed-write_then_clear_tx_caches :
      (m : MultiStore S) → committed (write_then_clear_tx_caches m) ≡ committed m
  unfolding write_then_clear_tx_caches
  committed-write_then_clear_tx_caches m =
      ap (λ ts. (m.head_version, m.head_commit_hash, ts)) (trees-write_stores m.stores)

  pub committed-clear_tx_caches : (m : MultiStore S) → committed (clear_tx_caches m) ≡ committed m
  unfolding clear_tx_caches
  committed-clear_tx_caches m =
      ap (λ ts. (m.head_version, m.head_commit_hash, ts)) (trees-clear_stores m.stores)

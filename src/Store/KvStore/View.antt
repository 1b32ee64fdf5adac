-- ===== src/Store/KvStore/View.antt =====
-- What a `KVStore` holds whose tree stands for a map, and how its writes are flushed.
use doge_sdk.Base.{ℕ, ◌≤◌, ◌≡◌, refl, ◌∙◌, Option, [], ◌∷◌, arith}
use std.Path.{subst}
use doge_sdk.Base.Bytes.{Bytes}
use doge_sdk.Base.BTreeMap
use doge_sdk.Base.BTreeMap.{BTreeMap, IsSorted}
use doge_sdk.Database.Record.{Database}
use doge_sdk.Trees.External.{External}
use doge_sdk.Trees.Outcome.{ok, bind-eq-ok, ok-injective}
use doge_sdk.Trees.Iavl.Tree
use doge_sdk.Trees.Iavl.Tree.{Tree, next, contains, get_versions, last}
use doge_sdk.Trees.Iavl.TreeLaws.{set_all}
use doge_sdk.Trees.Iavl.Contents.{Represents, rootless, set-Represents, get-Represents}
use doge_sdk.Store.KvStore.{KvStore, absorb, get}
use doge_sdk.Store.KvStore.Reads.{or_else, get-absorb, absorb-IsSorted}

-- What a store holds whose tree stands for a map: the transaction's writes come before the
-- block's, and these before the map.
abbrev pub view : {S : Type 0} → KvStore S → BTreeMap Bytes → Bytes → Option Bytes
view s m key =
    or_else (BTreeMap.get key s.tx_cache)
      (or_else (BTreeMap.get key s.block_cache) (BTreeMap.get key m))

pub get-absorb_both :
    (tx block m : BTreeMap Bytes) (key : Bytes)
    → IsSorted tx
    → IsSorted block
    → BTreeMap.get key (absorb (absorb tx block) m)
      ≡ or_else (BTreeMap.get key tx) (or_else (BTreeMap.get key block) (BTreeMap.get key m))
get-absorb_both tx block m key st sb = ground (
  arith,
  get-absorb key (absorb tx block) m (absorb-IsSorted tx block sb),
  get-absorb key tx block st,
)

module _ ⦃x : External⦄ {S : Type 0} ⦃d : Database S⦄ where
  pub set_all-Represents :
      (fuel : ℕ) (t t' : Tree S) (writes m : BTreeMap Bytes)
      → Represents t m
      → set_all fuel t writes ≡ ok t'
      → Represents t' (absorb writes m) × (rootless t' ≡ rootless t)
  unfolding set_all absorb
  set_all-Represents fuel t t' [] m r h =
      subst (λ u. Represents u m × (rootless u ≡ rootless t)) (ok-injective h) (r, refl)
  set_all-Represents fuel t t' ((k, v) ∷ writes) m r h =
      let (t1, e, h1) = bind-eq-ok (Tree.set fuel t k v) (λ u. set_all fuel u writes) h in
      let (r1, p1) = set-Represents fuel t t1 m k v r e in
      let (r2, p2) = set_all-Represents fuel t1 t' writes (BTreeMap.insert k v m) r1 h1 in
      (r2, p2 ∙ p1)

  -- A store whose tree stands for a map is read as its view, with enough fuel.
  pub get-view :
      (s : KvStore S) (m : BTreeMap Bytes)
      → Represents s.persistent_store m
      → (levels : ℕ) × ((enough : ℕ) (key : Bytes)
          → levels ≤ enough
          → get enough s key ≡ ok (view s m key))
  unfolding get
  get-view s m r =
      let (levels, h) = get-Represents s.persistent_store m r in
      (levels, λ enough key le. ground (arith, h enough key le))

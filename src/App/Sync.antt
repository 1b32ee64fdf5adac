-- ===== src/App/Sync.antt =====
-- The agreement of the application with its stores, and stores that are just opened.
use doge_sdk.Base.{
  ℕ, ◌≡◌, refl, sym, ap, ◌∙◌, none, List, [], ◌∷◌, map, All, Option-cases, inl, inr, arith,
}
use std.Path.{subst}
use doge_sdk.Base.Bytes.{Bytes}
use doge_sdk.Database.Record.{Database}
use doge_sdk.Database.Prefix.{prefix_database}
use doge_sdk.Trees.External.{External}
use doge_sdk.Trees.Outcome.{ok, expect_ok, expect_ok-eq-ok, bind-eq-ok, ok-injective, ◌>>=◌}
use doge_sdk.Trees.Iavl.NodeDb.{get_root_node}
use doge_sdk.Trees.Iavl.Tree
use doge_sdk.Trees.Iavl.Tree.{Tree, get_versions, last}
use doge_sdk.Store.KvStore
use doge_sdk.Store.KvStore.{KvStore}
use doge_sdk.Store.Hash.{StoreInfo}
use doge_sdk.Store.MultiStore.{
  MultiStore, clear_tx_caches, clear_stores, IsSettled, committed, trees,
}
use doge_sdk.Store.MultiStore.Commit.{Stores, open_stores, db_of}
use doge_sdk.Store.MultiStore.Isolation.{AreClean, AreShared, names as names_of}
use doge_sdk.App.{BaseApp}

module _ {S : Type 0} where
  -- All trees are over one state of the database, and their names are the keys.
  abbrev pub AreTrees : S → List Bytes → List (Bytes × Tree S) → Type 0
  AreTrees db names ts = All (λ e. (e.1).node_db ≡ db) ts × (map (λ e. e.0) ts ≡ names)

  -- The height is the version of the last commit, all stores are there and over one state of the
  -- database.
  abbrev pub Agrees : List Bytes → ℕ → ℕ × Bytes × List (Bytes × Tree S) → Type 0
  Agrees names height (version, hash, ts) = (height ≡ version) × ((db : S) × AreTrees db names ts)

  -- The application agrees with its stores, and nothing is pending.
  abbrev pub InSync : {Header : Type 0} → List Bytes → BaseApp S Header → Type 0
  InSync names app = Agrees names app.height (committed app.multi_store) × IsSettled app.multi_store

module _ ⦃x : External⦄ {S : Type 0} ⦃d : Database S⦄ where
  -- A tree that is opened is over the database given.
  Tree-new-node_db : (db : S) (t : Tree S) → Tree.new db none ≡ ok t → t.node_db ≡ db
  unfolding Tree.new
  Tree-new-node_db db t h =
      let (versions, e, h1) = bind-eq-ok (get_versions db) _ h in
      elim (Option-cases (last versions)) [
        | inl k ↦
            let same : record { root = none; node_db = db; loaded_version = 0; versions = versions }
                ≡ t =
              ground (arith, h1, k) in
            sym (ap (λ (u : Tree S). u.node_db) same)
        | inr (latest, k) ↦
            let h2 : (do
              root ← expect_ok (get_root_node db latest)
              ok (record {
                root = root;
                node_db = db;
                loaded_version = latest;
                versions = versions;
              }))
                ≡ ok t =
              ground (arith, h1, k) in
            let (root, e2, h3) = bind-eq-ok (expect_ok (get_root_node db latest)) _ h2 in
            sym (ap (λ (u : Tree S). u.node_db) (ok-injective h3))
      ]

  KvStore-new-clean :
      (db : S) (s : KvStore S)
      → KvStore.new db none ≡ ok s
      → (db_of s ≡ db) × (s.block_cache ≡ []) × (s.tx_cache ≡ [])
  unfolding KvStore.new
  KvStore-new-clean db s h =
      let (t, e, h1) = bind-eq-ok (Tree.new db none) _ h in
      subst (λ (u : KvStore S). (db_of u ≡ db) × (u.block_cache ≡ []) × (u.tx_cache ≡ []))
        (ok-injective h1) (Tree-new-node_db db t e, refl, refl)

module _ ⦃x : External⦄ {S : Type 0} ⦃d : Database S⦄ where
  pub open_stores-clean :
      (db : S) (names : List Bytes) (v v' : ℕ) (infos : List StoreInfo) (stores : Stores S)
      → open_stores db names v ≡ ok (v', infos, stores)
      → AreShared db stores × AreClean stores × (names_of stores ≡ names)
  unfolding open_stores
  open_stores-clean db [] v v' infos stores h =
      subst
        (λ (r : ℕ × List StoreInfo × Stores S).
          AreShared db r.2 × AreClean r.2 × (names_of r.2 ≡ []))
        (ok-injective h) (tt, tt, refl)
  open_stores-clean db (name ∷ names) v v' infos stores h =
      let (s, e, h1) =
        bind-eq-ok (expect_ok (KvStore.new ⦃d = prefix_database d name⦄ db none)) _ h in
      let ((v1, infos1, rest), e2, h2) =
        bind-eq-ok (open_stores db names (KvStore.last_committed_version s)) _ h1 in
      let (shared, block, tx) =
        KvStore-new-clean ⦃d = prefix_database d name⦄ db s (expect_ok-eq-ok _ e) in
      let (shareds, cleans, named) =
        open_stores-clean db names (KvStore.last_committed_version s) v1 infos1 rest e2 in
      subst
        (λ (r : ℕ × List StoreInfo × Stores S).
          AreShared db r.2 × AreClean r.2 × (names_of r.2 ≡ name ∷ names))
        (ok-injective h2) ((shared, shareds), ((block, tx), cleans), ap (λ ns. name ∷ ns) named)

  -- Where nothing is cached, nothing is pending.
  clear_stores-clean : (stores : Stores S) → AreClean stores → clear_stores stores ≡ stores
  unfolding clear_stores KvStore.clear_tx_cache
  clear_stores-clean [] c = refl
  clear_stores-clean ((k, s) ∷ rest) c =
      ap (λ (tx : List (Bytes × Bytes)). (k, record s { tx_cache = tx }) ∷ clear_stores rest)
        (sym c.0.1)
      ∙ ap (λ r. (k, s) ∷ r) (clear_stores-clean rest c.1)

  pub IsSettled-clean : (m : MultiStore S) → AreClean m.stores → IsSettled m
  unfolding clear_tx_caches
  IsSettled-clean m c = ap (λ stores. record m { stores = stores }) (clear_stores-clean m.stores c)

  pub trees-AreTrees :
      (db : S) (names : List Bytes) (stores : Stores S)
      → AreShared db stores
      → names_of stores ≡ names
      → AreTrees db names (trees stores)
  trees-AreTrees db names [] sh e = (tt, e)
  trees-AreTrees db names ((k, s) ∷ rest) sh e =
      let (a, b) = trees-AreTrees db (names_of rest) rest sh.1 refl in
      ((sh.0, a), ap (λ ns. k ∷ ns) b ∙ e)

  pub AreShared-trees :
      (db : S) (names : List Bytes) (stores : Stores S)
      → AreTrees db names (trees stores)
      → AreShared db stores × (names_of stores ≡ names)
  AreShared-trees db names [] a = a
  AreShared-trees db names ((k, s) ∷ rest) a =
      let (sh, e) = AreShared-trees db (map (λ e. e.0) (trees rest)) rest (a.0.1, refl) in
      ((a.0.0, sh), ap (λ ns. k ∷ ns) e ∙ a.1)

-- ===== src/Store/MultiStore/Isolation.antt =====
-- What a commit writes in the shared database, and what it leaves in the stores.
use doge_sdk.Base.{ℕ, ◌+◌, ◌%◌, ◌^◌, ◌≡◌, refl, ap, ◌∙◌, List, [], ◌∷◌, All, map, arith}
use std.Path.{subst}
use doge_sdk.Base.Bytes.{Bytes}
use doge_sdk.Database.Record.{Database, IsLawful}
use doge_sdk.Database.Prefix.{prefix_database, Separate, prefix_database-Separate}
use doge_sdk.Trees.External.{External}
use doge_sdk.Trees.Outcome.{ok, bind-eq-ok, ok-injective}
use doge_sdk.Trees.Iavl.Node.{hash}
use doge_sdk.Store.KvStore
use doge_sdk.Store.KvStore.{KvStore, write_then_clear_tx_cache, write_then_clear_block_cache}
use doge_sdk.Store.Hash.{StoreInfo, hash_store_infos}
use doge_sdk.Store.MultiStore.{MultiStore}
use doge_sdk.Store.MultiStore.Commit.{
  Stores, with_db, db_of, share, commit_stores, commit_over, commit,
}
use doge_sdk.Store.KvStore.Writes.{IsClosed, KvStore-commit-closed}

-- Nothing is asked of the database.
nothing_asked :
    (S : Type 0) (ps : List Bytes) → All (λ p. (db : S) (k v : Bytes) → Unit {0} → Unit {0}) ps
nothing_asked S [] = tt
nothing_asked S (p ∷ ps) = (λ db k v u. tt, nothing_asked S ps)

module _ ⦃x : External⦄ {S : Type 0} ⦃d : Database S⦄ where
  -- No read through the view of `q` has changed.
  abbrev pub SameView : Bytes → S → S → Type 0
  SameView q db db' = (j : Bytes) → (prefix_database d q).get db' j ≡ (prefix_database d q).get db j

  -- Nothing is cached in any store.
  abbrev pub AreClean : Stores S → Type 0
  AreClean = All (λ e. ((e.1).block_cache ≡ []) × ((e.1).tx_cache ≡ []))

  abbrev pub names : Stores S → List Bytes
  names = map (λ e. e.0)

  module _ (law : IsLawful d) (q : Bytes) (db0 : S) where
    SameView-closed :
        (p : Bytes) → Separate q p → IsClosed ⦃d = prefix_database d p⦄ (SameView q db0)
    SameView-closed p sep db k v same j = prefix_database-Separate d law q p db j k v sep ∙ same j

    views_closed :
        (ps : List Bytes)
        → All (λ p. Separate q p) ps
        → All (λ p. IsClosed ⦃d = prefix_database d p⦄ (SameView q db0)) ps
    views_closed [] h = tt
    views_closed (p ∷ ps) h = (SameView-closed p h.0, views_closed ps h.1)

  commit_stores-leaves :
      (P : S → Type 0) (fuel : ℕ) (db db' : S) (stores stores' : Stores S) (infos : List StoreInfo)
      → commit_stores fuel db stores ≡ ok (infos, stores', db')
      → All (λ p. IsClosed ⦃d = prefix_database d p⦄ P) (names stores)
      → P db
      → P db' × AreClean stores' × (names stores' ≡ names stores)
  unfolding commit_stores
  commit_stores-leaves P fuel db db' [] stores' infos h closed p0 =
      subst (λ (r : List StoreInfo × Stores S × S). P r.2 × AreClean r.1 × (names r.1 ≡ []))
        (ok-injective h) (p0, tt, refl)
  commit_stores-leaves P fuel db db' ((p, s) ∷ rest) stores' infos h closed p0 =
      let ((hash, s1), e1, h1) =
        bind-eq-ok (KvStore.commit ⦃d = prefix_database d p⦄ fuel (with_db s db)) _ h in
      let ((infos1, stores1, db1), e2, h2) = bind-eq-ok (commit_stores fuel (db_of s1) rest) _ h1 in
      let clean =
        KvStore-commit-closed ⦃d = prefix_database d p⦄ P closed.0 fuel (with_db s db) s1 hash e1
          p0 in
      let (p1, cleans, kept) =
        commit_stores-leaves P fuel (db_of s1) db1 rest stores1 infos1 e2 closed.1 clean.0 in
      subst
        (λ (r : List StoreInfo × Stores S × S). P r.2 × AreClean r.1 × (names r.1 ≡ p ∷ names rest))
        (ok-injective h2) (p1, ((clean.1, clean.2), cleans), ap (λ ns. p ∷ ns) kept)

  share-leaves :
      (db : S) (stores : Stores S)
      → AreClean stores
      → AreClean (share db stores)
        × All (λ e. db_of e.1 ≡ db) (share db stores)
        × (names (share db stores) ≡ names stores)
  unfolding share
  share-leaves db [] c = (tt, tt, refl)
  share-leaves db ((p, s) ∷ rest) c =
      let (a, b, k) = share-leaves db rest c.1 in ((c.0, a), (refl, b), ap (λ ns. p ∷ ns) k)

  -- A commit of all stores that returns has counted the version and kept its hash; the stores keep
  -- their names, all see one state of the database, and nothing is cached; and every view of the
  -- database whose prefix is separate from the names of the stores reads what it read before.
  pub commit_over-leaves :
      IsLawful d
      → (fuel : ℕ) (db : S) (m m' : MultiStore S) (hash : Bytes)
      → commit_over fuel db m ≡ ok (hash, m')
      → (db' : S) × (m'.head_version ≡ (m.head_version + 1) % 2 ^ 64)
        × (m'.head_commit_hash ≡ hash)
        × (names m'.stores ≡ names m.stores)
        × AreClean m'.stores
        × All (λ e. db_of e.1 ≡ db') m'.stores
        × ((q : Bytes) → All (λ p. Separate q p) (names m.stores) → SameView q db db')
  unfolding commit_over
  commit_over-leaves law fuel db m m' hash h =
      let ((infos, stores, db'), e1, h1) = bind-eq-ok (commit_stores fuel db m.stores) _ h in
      let (hash', e2, h2) = bind-eq-ok (hash_store_infos infos) _ h1 in
      let (u, clean, kept) =
        commit_stores-leaves (λ (db : S). Unit) fuel db db' m.stores stores infos e1
          (nothing_asked S (names m.stores)) tt in
      let (clean', shared, kept') = share-leaves db' stores clean in
      let same : (q : Bytes) → All (λ p. Separate q p) (names m.stores) → SameView q db db' =
        λ q sep.
          (commit_stores-leaves (SameView q db) fuel db db' m.stores stores infos e1
            (views_closed law q db (names m.stores) sep) (λ j. refl)).0 in
      subst
        (λ (r : Bytes × MultiStore S).
          (db' : S) × ((r.1).head_version ≡ (m.head_version + 1) % 2 ^ 64)
          × ((r.1).head_commit_hash ≡ r.0)
          × (names (r.1).stores ≡ names m.stores)
          × AreClean (r.1).stores
          × All (λ e. db_of e.1 ≡ db') (r.1).stores
          × ((q : Bytes) → All (λ p. Separate q p) (names m.stores) → SameView q db db'))
        (ok-injective h2) (db', refl, refl, kept' ∙ kept, clean', shared, same)

  -- All stores see one state of the database.
  abbrev pub AreShared : S → Stores S → Type 0
  AreShared db = All (λ e. db_of e.1 ≡ db)

  pub commit-over :
      (fuel : ℕ) (db : S) (m : MultiStore S) (r : Bytes × MultiStore S)
      → AreShared db m.stores
      → commit fuel m ≡ ok r
      → commit_over fuel db m ≡ ok r
  unfolding commit
  commit-over fuel db m r shared h = go m.stores refl shared
    where
      go :
          (stores : Stores S)
          → m.stores ≡ stores
          → AreShared db stores
          → commit_over fuel db m ≡ ok r
      go [] e s = absurd (ground (arith, h, e))
      go ((name, s) ∷ rest) e sh =
          let h' : commit_over fuel (db_of s) m ≡ ok r = ground (arith, h, e) in
          subst (λ b. commit_over fuel b m ≡ ok r) sh.0 h'

-- ===== src/Store/KvStore/Commit.antt =====
-- What `KVStore::commit` of store/src/store.rs does to the reads of the store.
use doge_sdk.Base.{
  ℕ, ◌+◌, ◌≤◌, ◌≡◌, refl, sym, ap, ◌∙◌, false, Option, none, some, inl, inr, List, [], arith,
}
use std.Path.{subst}
use doge_sdk.Base.Bytes.{Bytes, eq_bytes}
use doge_sdk.Base.BTreeMap
use doge_sdk.Base.BTreeMap.{BTreeMap, IsSorted}
use doge_sdk.Database.Record.{Database, IsLawful}
use doge_sdk.Trees.External.{External, IsLawful as IsLawfulExternal}
use doge_sdk.Trees.Merkle.{empty_hash}
use doge_sdk.Trees.Outcome.{ok, ◌>>=◌, ok-injective}
use doge_sdk.Trees.Iavl.Node.{Node, hash, clear_children}
use doge_sdk.Trees.Iavl.NodeDb.{get_root_node}
use doge_sdk.Trees.Iavl.Shape.{Loads}
use doge_sdk.Trees.Iavl.Save.{pending, IsAddressed, IsSaveable}
use doge_sdk.Trees.Iavl.SaveLaws.{save_version-Loads}
use doge_sdk.Trees.Iavl.Tree
use doge_sdk.Trees.Iavl.Tree.{Tree, next, contains, get_versions, last}
use doge_sdk.Trees.Iavl.TreeLaws.{set_all}
use doge_sdk.Trees.Iavl.Contents.{Represents}
use doge_sdk.Store.KvStore.{KvStore, absorb, get, commit, new}
use doge_sdk.Store.KvStore.View.{view, get-view, get-absorb_both, set_all-Represents}

module _ ⦃x : External⦄ {S : Type 0} ⦃d : Database S⦄ where
  -- The store that a commit leaves, of the tree that was saved.
  abbrev pub committed : KvStore S → Tree S → KvStore S
  committed s t = record s { persistent_store = t; block_cache = []; tx_cache = [] }

  commit-flushed :
      (fuel : ℕ) (s : KvStore S) (t t' : Tree S) (h : Bytes) (version : ℕ)
      → set_all fuel s.persistent_store (absorb s.tx_cache s.block_cache) ≡ ok t
      → Tree.save_version t ≡ ok ((h, version), t')
      → commit fuel s ≡ ok (h, committed s t')
  unfolding commit
  commit-flushed fuel s t t' h version e k = rw (commit, e, k) refl

  new-last :
      (db : S) (versions : List ℕ) (version : ℕ) (root : Option Node)
      → get_versions db ≡ ok versions
      → last versions ≡ some version
      → get_root_node db version ≡ ok root
      → Tree.new db none
        ≡ ok (record { root = root; node_db = db; loaded_version = version; versions = versions })
  unfolding Tree.new
  new-last db versions version root e l r = rw (e, ◌>>=◌, l, r) refl

  module _ (law : IsLawful d) (crates : IsLawfulExternal x) (content : Bytes → Bytes) where
    save-Represents :
        (t : Tree S) (m : BTreeMap Bytes) (n : Node)
        → Represents t m
        → t.root ≡ some n
        → IsAddressed content t.node_db
        → IsSaveable content (pending n (hash n))
        → contains (next t.loaded_version) t.versions ≡ false
        → eq_bytes (hash n) empty_hash ≡ false
        → (t' : Tree S) × (Tree.save_version t ≡ ok ((hash n, next t.loaded_version), t'))
          × (get_root_node t'.node_db (next t.loaded_version) ≡ ok t'.root)
          × Represents t' m
    save-Represents t m n (inl (z, _)) e a s c k = cc
    save-Represents t m n (inr (n0, e0, (shape, l, o, q))) e a s c k =
        let l' : Loads t.node_db n shape = subst (λ u. Loads t.node_db u shape) (cc (e, e0)) l in
        let (t', h, r, g, l1, _, _) =
          save_version-Loads law crates content t n shape e l' a s c k in
        (t', h, rw r g, inr (clear_children n, r, (shape, l1, o, q)))

    module _ (fuel : ℕ) (s : KvStore S) (m : BTreeMap Bytes) (t : Tree S) (n : Node)
        (tx_sorted : IsSorted s.tx_cache) (block_sorted : IsSorted s.block_cache)
        (held : Represents s.persistent_store m)
        (flushed : set_all fuel s.persistent_store (absorb s.tx_cache s.block_cache) ≡ ok t)
        (rooted : t.root ≡ some n) (addressed : IsAddressed content s.persistent_store.node_db)
        (saveable : IsSaveable content (pending n (hash n)))
        (is_new : contains (next s.persistent_store.loaded_version) s.persistent_store.versions
          ≡ false)
        (some_tree : eq_bytes (hash n) empty_hash ≡ false) where
      -- A commit leaves the tree that was saved, which stands for the map with all writes.
      commit-Represents :
          (t' : Tree S) × (commit fuel s ≡ ok (hash n, committed s t'))
          × (get_root_node t'.node_db (next s.persistent_store.loaded_version) ≡ ok t'.root)
          × Represents t' (absorb (absorb s.tx_cache s.block_cache) m)
      commit-Represents =
          let writes = absorb s.tx_cache s.block_cache in
          let (rt, same) = set_all-Represents fuel s.persistent_store t writes m held flushed in
          let db : t.node_db ≡ s.persistent_store.node_db = ap (λ (u : Tree S). u.node_db) same in
          let v : t.loaded_version ≡ s.persistent_store.loaded_version =
            ap (λ (u : Tree S). u.loaded_version) same in
          let vs : t.versions ≡ s.persistent_store.versions =
            ap (λ (u : Tree S). u.versions) same in
          let (t', saved, root, r) =
            save-Represents t (absorb writes m) n rt rooted (rw db addressed) saveable
              (rw (v, vs) is_new) some_tree in
          (
            t',
            commit-flushed fuel s t t' (hash n) _ flushed saved,
            ap (λ w. get_root_node t'.node_db (next w)) (sym v) ∙ root,
            r,
          )

      -- A store without caches, whose tree stands for what was committed, is read as the store
      -- before the commit.
      get-settled :
          (s' : KvStore S)
          → s'.tx_cache ≡ []
          → s'.block_cache ≡ []
          → Represents s'.persistent_store (absorb (absorb s.tx_cache s.block_cache) m)
          → (levels : ℕ) × ((enough : ℕ) (key : Bytes)
              → levels ≤ enough
              → get enough s' key ≡ ok (view s m key))
      unfolding BTreeMap.get
      get-settled s' e1 e2 r =
          let (levels, h) = get-view s' (absorb (absorb s.tx_cache s.block_cache) m) r in
          (
            levels,
            λ enough key le.
                h enough key le
                ∙ rw (e1, e2)
                    (ap ok (get-absorb_both s.tx_cache s.block_cache m key tx_sorted block_sorted)),
          )

      -- A commit, if the block's writes could be put into the tree, returns the hash of the root;
      -- it changes no read: with enough fuel every read returns, before and after the commit, the
      -- transaction's write, else the block's, else what the tree held. Nothing is cached any
      -- more, and the database gives the root that is left for the new version. The conditions:
      -- the version is new and what is saved fits, as it is for a save.
      pub get-commit :
          (s' : KvStore S) × (commit fuel s ≡ ok (hash n, s'))
          × (s'.tx_cache ≡ [])
          × (s'.block_cache ≡ [])
          × (get_root_node s'.persistent_store.node_db (next s.persistent_store.loaded_version)
              ≡ ok s'.persistent_store.root)
          × ((levels : ℕ) × ((more : ℕ) (key : Bytes)
                → (get (levels + more) s key ≡ ok (view s m key))
                  × (get (levels + more) s' key ≡ ok (view s m key))))
      get-commit =
          let (t', e, root, r) = commit-Represents in
          let (l1, before) = get-view s m held in
          let (l2, after) = get-settled (committed s t') refl refl r in
          (
            committed s t',
            e,
            refl,
            refl,
            root,
            (
              l1 + l2,
              λ more key. (
                before (l1 + l2 + more) key (omega arith),
                after (l1 + l2 + more) key (omega arith),
              ),
            ),
          )

      -- A store that is opened after a commit, without a version, on the database that the commit
      -- left, if the versions that it finds there end with the new one, opens, and every read of
      -- it, with enough fuel, returns what a read before the commit did: the transaction's write,
      -- else the block's, else what the tree held. The conditions are those of the commit.
      pub get-reopened :
          (h : Bytes) (s' : KvStore S) (versions : List ℕ)
          → commit fuel s ≡ ok (h, s')
          → get_versions s'.persistent_store.node_db ≡ ok versions
          → last versions ≡ some (next s.persistent_store.loaded_version)
          → (r : KvStore S) × (new s'.persistent_store.node_db none ≡ ok r)
            × (r.persistent_store.loaded_version ≡ next s.persistent_store.loaded_version)
            × ((levels : ℕ) × ((more : ℕ) (key : Bytes)
                  → get (levels + more) r key ≡ ok (view s m key)))
      unfolding new
      get-reopened h s' versions e found latest =
          let (t', e', root, r) = commit-Represents in
          let same : committed s t' ≡ s' =
            ap (λ (p : Bytes × KvStore S). p.1) (ok-injective (sym e' ∙ e)) in
          let db = ap (λ (u : KvStore S). u.persistent_store.node_db) same in
          let tree =
            new-last t'.node_db versions (next s.persistent_store.loaded_version) t'.root
              (ap (λ b. get_versions b) db ∙ found) latest root in
          let opened : S → KvStore S = λ db. record {
            persistent_store = record {
              root = t'.root;
              node_db = db;
              loaded_version = next s.persistent_store.loaded_version;
              versions = versions;
            };
            block_cache = [];
            tx_cache = [];
          } in
          let (levels, after) = get-settled (opened t'.node_db) refl refl r in
          (
            opened t'.node_db,
            ap (λ b. new b none) (sym db) ∙ rw (new, tree) refl,
            refl,
            (levels, λ more key. after (levels + more) key (omega arith)),
          )

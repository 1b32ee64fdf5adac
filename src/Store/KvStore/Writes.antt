-- ===== src/Store/KvStore/Writes.antt =====
-- What the writes and the commit of a `KVStore` do to its database.
use doge_sdk.Base.{
  ℕ, ◌≡◌, refl, sym, ap, ◌∙◌, none, some, List, [], ◌∷◌, Bool-cases, Option-cases, inl, inr, arith,
}
use std.Path.{subst}
use doge_sdk.Base.Bytes.{Bytes, eq_bytes}
use doge_sdk.Base.BTreeMap.{BTreeMap}
use doge_sdk.Database.Record.{Database}
use doge_sdk.Trees.External.{External}
use doge_sdk.Trees.Outcome.{ok, expect_ok, expect_ok-eq-ok, bind-eq-ok, ok-injective, ◌>>=◌}
use doge_sdk.Trees.Iavl.Node.{Node, leaf, hash, clear_children}
use doge_sdk.Trees.Iavl.NodeDb.{get_root_hash, save_version as save_root, save_node, save_tree}
use doge_sdk.Trees.Iavl.Save.{pending, put_nodes, recursive_tree_save-eq-put_nodes}
use doge_sdk.Trees.Iavl.Set.{recursive_set}
use doge_sdk.Trees.Iavl.Tree.{
  Tree, next, contains, set, save_version, save_again, save_new, root_hash,
}
use doge_sdk.Trees.Iavl.TreeLaws.{set_all}
use doge_sdk.Store.KvStore
use doge_sdk.Store.KvStore.{KvStore, write_then_clear_tx_cache, write_then_clear_block_cache}

module _ ⦃x : External⦄ {S : Type 0} ⦃d : Database S⦄ where
  -- A write to a tree leaves its database.
  set-node_db :
      (fuel : ℕ) (t t' : Tree S) (k v : Bytes) → set fuel t k v ≡ ok t' → t'.node_db ≡ t.node_db
  unfolding set
  set-node_db fuel t t' k v h = elim (Option-cases t.root) [
    | inl e ↦
        let same : record t { root = some (leaf k v (next t.loaded_version)) } ≡ t' =
          ground (arith, h, e) in
        sym (ap (λ (u : Tree S). u.node_db) same)
    | inr (n, e) ↦
        let h' : (do
          root' ← recursive_set t.node_db fuel n k v (next t.loaded_version)
          ok (record t { root = some root' }))
            ≡ ok t' =
          ground (arith, h, e) in
        let (root', e1, h1) =
          bind-eq-ok (recursive_set t.node_db fuel n k v (next t.loaded_version)) _ h' in
        sym (ap (λ (u : Tree S). u.node_db) (ok-injective h1))
  ]

  set_all-node_db :
      (fuel : ℕ) (t t' : Tree S) (m : BTreeMap Bytes)
      → set_all fuel t m ≡ ok t'
      → t'.node_db ≡ t.node_db
  unfolding set_all
  set_all-node_db fuel t t' [] h = sym (ap (λ (u : Tree S). u.node_db) (ok-injective h))
  set_all-node_db fuel t t' ((k, v) ∷ m) h =
      let (t1, e, h1) = bind-eq-ok (set fuel t k v) _ h in
      set_all-node_db fuel t1 t' m h1 ∙ set-node_db fuel t t1 k v e

  -- A predicate on the database that every write keeps.
  abbrev pub IsClosed : (S → Type 0) → Type 0
  IsClosed P = (db : S) (k v : Bytes) → P db → P (d.put db k v)

  module _ (P : S → Type 0) (closed : IsClosed P) where
    put_nodes-closed : (db : S) (ws : List (Bytes × Node)) → P db → P (put_nodes db ws)
    unfolding put_nodes save_node
    put_nodes-closed db [] p = p
    put_nodes-closed db ((h, n) ∷ ws) p = put_nodes-closed (save_node db n h) ws (closed db _ _ p)

    save_new-closed : (t : Tree S) (version : ℕ) → P t.node_db → P ((save_new t version).1).node_db
    unfolding save_new save_tree save_root
    save_new-closed t version p = elim (Option-cases t.root) [
      | inl e ↦ rw (save_new, e) (closed t.node_db _ _ p)
      | inr (n, e) ↦
          rw (save_new, e, save_tree, recursive_tree_save-eq-put_nodes t.node_db n (hash n))
            (closed _ _ _ (put_nodes-closed t.node_db (pending n (hash n)) p))
    ]

    save_again-node_db :
        (t t' : Tree S) (r : Bytes × ℕ) (version : ℕ)
        → save_again t version ≡ ok (r, t')
        → t.node_db ≡ t'.node_db
    unfolding save_again
    save_again-node_db t t' r version h =
        let (saved_hash, e, h1) = bind-eq-ok (expect_ok (get_root_hash t.node_db version)) _ h in
        elim (Bool-cases (eq_bytes saved_hash (root_hash t))) [
          | inr k ↦ ground (arith, h1, k)
          | inl k ↦
              let same : (
                (saved_hash, version),
                record t {
                  root = elim t.root [ none ↦ none | some root ↦ some (clear_children root) ];
                  loaded_version = version;
                },
              )
                  ≡ (r, t') =
                ground (arith, h1, k) in
              ap (λ (q : (Bytes × ℕ) × Tree S). (q.1).node_db) same
        ]

    save_version-closed :
        (t t' : Tree S) (r : Bytes × ℕ) → save_version t ≡ ok (r, t') → P t.node_db → P t'.node_db
    unfolding save_version save_again
    save_version-closed t t' r h p =
        let version = next t.loaded_version in
        elim (Bool-cases (contains version t.versions)) [
          | inl e ↦
              let h' : save_again t version ≡ ok (r, t') = ground (arith, h, e) in
              subst P (save_again-node_db t t' r version h') p
          | inr e ↦
              let same : save_new t version ≡ (r, t') = ground (arith, h, e) in
              subst (λ q. P (q.1).node_db) same (save_new-closed t version p)
        ]

    -- The database is as it should be, and nothing is cached.
    abbrev pub IsClean : KvStore S → Type 0
    IsClean s = P s.persistent_store.node_db × (s.block_cache ≡ []) × (s.tx_cache ≡ [])

    pub KvStore-commit-closed :
        (fuel : ℕ) (s s' : KvStore S) (r : Bytes)
        → KvStore.commit fuel s ≡ ok (r, s')
        → P s.persistent_store.node_db
        → IsClean s'
    unfolding KvStore.commit write_then_clear_tx_cache write_then_clear_block_cache
    KvStore-commit-closed fuel s s' r h p =
        let s0 = write_then_clear_tx_cache s in
        let (s1, e1, h1) = bind-eq-ok (write_then_clear_block_cache fuel s0) _ h in
        let (t, e2, h2) = bind-eq-ok (set_all fuel s0.persistent_store s0.block_cache) _ e1 in
        let (((hash, version), t'), e3, h3) =
          bind-eq-ok (expect_ok (save_version s1.persistent_store)) _ h1 in
        let flushed : record s0 { persistent_store = t; block_cache = [] } ≡ s1 = ok-injective h2 in
        let kept = subst P (sym (set_all-node_db fuel s0.persistent_store t s0.block_cache e2)) p in
        let between = subst IsClean flushed (kept, refl, refl) in
        let saved =
          save_version-closed s1.persistent_store t' (hash, version) (expect_ok-eq-ok _ e3)
            between.0 in
        subst (λ (q : Bytes × KvStore S). IsClean q.1) (ok-injective h3)
          (saved, between.1, between.2)

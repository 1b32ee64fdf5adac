-- ===== src/Trees/Iavl/SaveLaws.antt =====
-- `Tree::save_version` of a version that is new, and the tree that is read back.
use doge_sdk.Base.{ℕ, ◌≡◌, refl, sym, ap, ◌∙◌, false, true, some, length, arith, ◌==◌}
use doge_sdk.Base.Bytes.{Bytes, cmp, eq_bytes, cmp_refl}
use doge_sdk.Database.Record.{Database, IsLawful}
use doge_sdk.Trees.External.{External, IsLawful as IsLawfulExternal}
use doge_sdk.Trees.Outcome.{ok}
use doge_sdk.Trees.Merkle.{empty_hash}
use doge_sdk.Trees.Iavl.Node.{Node, hash, clear_children, to_hash}
use doge_sdk.Trees.Iavl.NodeDb.{
  get_node_key, get_root_key, get_node, get_root_hash, get_root_node, save_version as save_root,
  save_tree,
}
use doge_sdk.Trees.Iavl.Shape.{Shape, Loads}
use doge_sdk.Trees.Iavl.Save.{
  pending, put_nodes, recursive_tree_save-eq-put_nodes, IsAddressed, IsSaveable, Keeps,
  AreStored-root, Loads-Keeps, Loads-clear_children,
}
use doge_sdk.Trees.Iavl.Stored.{put_nodes-Keeps, put_nodes-AreStored, put_nodes-IsAddressed}
use doge_sdk.Trees.Iavl.Tree.{Tree, next, contains, add_version, save_version, save_new}

module _ ⦃x : External⦄ {S : Type 0} ⦃d : Database S⦄ (law : IsLawful d) where
  -- The root of a version is not among the nodes.
  get-save_root :
      (db : S) (version : ℕ) (h j : Bytes)
      → d.get (save_root db version h) (get_node_key j) ≡ d.get db (get_node_key j)
  unfolding save_root get_root_key get_node_key cmp
  get-save_root db version h j = law.get-put db (get_node_key j) (get_root_key version) h

  save_root-Keeps : (db : S) (version : ℕ) (h : Bytes) → Keeps db (save_root db version h)
  unfolding get_node
  save_root-Keeps db version h j n g = rw (get_node, get-save_root db version h j) g

  save_root-IsAddressed :
      (content : Bytes → Bytes) (db : S) (version : ℕ) (h : Bytes)
      → IsAddressed content db
      → IsAddressed content (save_root db version h)
  save_root-IsAddressed content db version h a j bytes g =
      a j bytes (sym (get-save_root db version h j) ∙ g)

  get_root_hash-save_root :
      (db : S) (version : ℕ) (h : Bytes)
      → length h ≡ 32
      → get_root_hash (save_root db version h) version ≡ ok h
  unfolding get_root_hash save_root to_hash
  get_root_hash-save_root db version h l =
      let own = law.get-put db (get_root_key version) (get_root_key version) h in
      let test : (length h == 32) ≡ true = ground (arith, l) in
      rw (own, eq_bytes, cmp_refl (get_root_key version), to_hash, test) refl

  get_root_node-save_root :
      (db : S) (version : ℕ) (h : Bytes) (n : Node)
      → length h ≡ 32
      → eq_bytes h empty_hash ≡ false
      → get_node (save_root db version h) h ≡ ok (some n)
      → get_root_node (save_root db version h) version ≡ ok (some n)
  unfolding get_root_node
  get_root_node-save_root db version h n l e g =
      rw (get_root_node, get_root_hash-save_root db version h l, e, g) refl

  -- The database after a tree is saved as a version.
  abbrev pub saved_db : S → Node → ℕ → S
  saved_db db n version = save_root (put_nodes db (pending n (hash n))) version (hash n)

  pub save_version-eq-save_new :
      (t : Tree S)
      → contains (next t.loaded_version) t.versions ≡ false
      → save_version t ≡ ok (save_new t (next t.loaded_version))
  unfolding save_version
  save_version-eq-save_new t c = ground (arith, c)

  save_new-some :
      (t : Tree S) (n : Node) (version : ℕ)
      → t.root ≡ some n
      → save_new t version ≡ (
        (hash n, version),
        record t {
          root = some (clear_children n);
          node_db = saved_db t.node_db n version;
          loaded_version = version;
          versions = add_version version t.versions;
        },
      )
  unfolding save_new save_tree
  save_new-some t n version e =
      rw (save_new, e, save_tree, recursive_tree_save-eq-put_nodes t.node_db n (hash n)) refl

  module _ (crates : IsLawfulExternal x) (content : Bytes → Bytes) where
    -- A save as a new version returns the hash of the root, and the tree that it leaves stands for
    -- the same entries out of the database, as does the root that the database gives for the
    -- version; what was stored stays. The conditions: the numbers of the nodes in memory fit their
    -- widths, no two nodes that differ have one hash, and the root's is not that of no tree.
    pub save_version-Loads :
        (t : Tree S) (n : Node) (shape : Shape)
        → t.root ≡ some n
        → Loads t.node_db n shape
        → IsAddressed content t.node_db
        → IsSaveable content (pending n (hash n))
        → contains (next t.loaded_version) t.versions ≡ false
        → eq_bytes (hash n) empty_hash ≡ false
        → (t' : Tree S) × (save_version t ≡ ok ((hash n, next t.loaded_version), t'))
          × (t'.root ≡ some (clear_children n))
          × (get_root_node t'.node_db (next t.loaded_version) ≡ ok (some (clear_children n)))
          × Loads t'.node_db (clear_children n) shape
          × Keeps t.node_db t'.node_db
          × IsAddressed content t'.node_db
    unfolding hash
    save_version-Loads t n shape e l a s c k =
        let ws = pending n (hash n) in
        let version = next t.loaded_version in
        let db1 = put_nodes t.node_db ws in
        let db2 = saved_db t.node_db n version in
        let kept = put_nodes-Keeps law content t.node_db ws a s in
        let rooted = save_root-Keeps db1 version (hash n) in
        let stored = put_nodes-AreStored law content crates t.node_db ws a s in
        let own = rooted (hash n) (clear_children n) (AreStored-root db1 n (hash n) stored) in
        (
          _,
          save_version-eq-save_new t c ∙ ap (λ r. ok r) (save_new-some t n version e),
          refl,
          get_root_node-save_root db1 version (hash n) (clear_children n) (crates.length-sha256 _) k
              own,
          Loads-Keeps db1 db2 (clear_children n) shape rooted
              (Loads-clear_children t.node_db db1 n (hash n) shape kept stored l),
          λ h m g. rooted h m (kept h m g),
          save_root-IsAddressed content db1 version (hash n)
              (put_nodes-IsAddressed law content t.node_db ws a s),
        )

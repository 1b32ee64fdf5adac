-- ===== src/Trees/Iavl/NodeDb.antt =====
-- trees/src/iavl/node_db.rs: nodes by their hashes and root hashes by version, in one database.
use doge_sdk.Base.{ℕ, Option, none, some, [], ◌∷◌, ◌++◌, if◌then◌else◌}
use doge_sdk.Base.Bytes.{Bytes, eq_bytes}
use doge_sdk.Database.Record.{Database}
use doge_sdk.Trees.External.{External}
use doge_sdk.Trees.Outcome.{Outcome, ok, version_not_found, ok_or, expect, expect_ok, ◌>>=◌}
use doge_sdk.Trees.Merkle.{empty_hash}
use doge_sdk.Trees.Iavl.Node.{
  clear_children, Node, leaf, inner, Child, absent, loaded, hash, serialize, deserialize, to_hash,
  to_hash,
}

abbrev pub roots_prefix : Bytes
roots_prefix = 1 ∷ []

abbrev pub nodes_prefix : Bytes
nodes_prefix = 2 ∷ []

unfoldable pub get_node_key : Bytes → Bytes
get_node_key hash = nodes_prefix ++ hash

module _ ⦃x : External⦄ where
  unfoldable pub get_root_key : ℕ → Bytes
  get_root_key version = roots_prefix ++ x.encode_var version

module _ ⦃x : External⦄ {S : Type 0} ⦃d : Database S⦄ where
  unfoldable pub get_root_hash : S → ℕ → Outcome Bytes
  unfolding get_root_key to_hash
  get_root_hash db version = do
    hash ← ok_or (d.get db (get_root_key version)) version_not_found
    expect_ok (to_hash hash)

  -- `?` ends with `none` for a hash that is not stored; bytes that do not decode are a panic.
  unfoldable pub get_node : S → Bytes → Outcome (Option Node)
  unfolding get_node_key
  get_node db h = elim (d.get db (get_node_key h)) [
    | none ↦ ok none
    | some bytes ↦ do n ← expect_ok (deserialize bytes); ok (some n)
  ]

  unfoldable pub get_root_node : S → ℕ → Outcome (Option Node)
  get_root_node db version = do
    root_hash ← get_root_hash db version
    if eq_bytes root_hash empty_hash
        then ok none
        else do found ← get_node db root_hash; n ← expect found; ok (some n)

  unfoldable pub save_node : S → Node → Bytes → S
  unfolding get_node_key
  save_node db node h = d.put db (get_node_key h) (serialize node)

  unfoldable pub save_version : S → ℕ → Bytes → S
  unfolding get_root_key
  save_version db version h = d.put db (get_root_key version) h

-- Children in memory first, then the node itself.
module _ ⦃x : External⦄ {S : Type 0} ⦃d : Database S⦄ where
  unfoldable mutual
    pub recursive_tree_save : S → Node → Bytes → S
    recursive_tree_save db (leaf key value version) h = save_node db (leaf key value version) h
    recursive_tree_save db (inner l r m) h =
        let db1 = save_child db l m.left_hash in
        let db2 = save_child db1 r m.right_hash in save_node db2 (inner l r m) h

    pub save_child : S → Child → Bytes → S
    save_child db absent h = db
    save_child db (loaded n) h = recursive_tree_save db n h

  unfoldable pub save_tree : S → Node → Bytes × Node × S
  unfolding clear_children
  save_tree db root =
      let root_hash = hash root in
      (root_hash, clear_children root, recursive_tree_save db root root_hash)

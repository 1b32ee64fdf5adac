-- ===== src/Trees/Iavl/Tree.antt =====
-- `struct Tree` of trees/src/iavl/tree.rs: the root, the versions, and what is done with them.
-- The `BTreeSet` of versions is the list of them; `fuel` bounds the levels that `get` and `set`
-- go down.
use doge_sdk.Base.{
  ℕ, ◌+◌, ◌%◌, ◌^◌, Bool, false, ◌||◌, Option, none, some, List, [], ◌∷◌, max, ◌==◌, if◌then◌else◌,
}
use doge_sdk.Base.Bytes.{Bytes, eq_bytes}
use doge_sdk.Database.Record.{Database}
use doge_sdk.Trees.External.{External}
use doge_sdk.Trees.Merkle.{empty_hash}
use doge_sdk.Trees.Outcome.{Outcome, ok, err, overwrite, expect, expect_ok, ◌>>=◌}
use doge_sdk.Trees.Iavl.Node.{Node, clear_children, leaf, hash}
use doge_sdk.Trees.Iavl.NodeDb.{
  roots_prefix, get_root_hash, get_root_node, save_version as save_root, save_tree,
}
use doge_sdk.Trees.Iavl.Set.{recursive_get, recursive_set}

pub record Tree (S : Type 0) : Type 0 where
  pub root : Option Node
  pub node_db : S
  pub loaded_version : ℕ
  pub versions : List ℕ

-- `BTreeSet::contains`, `insert` and `last`.
unfoldable pub contains : ℕ → List ℕ → Bool
contains v [] = false
contains v (w ∷ vs) = v == w || contains v vs

unfoldable pub add_version : ℕ → List ℕ → List ℕ
unfolding contains
add_version v vs = if contains v vs then vs else v ∷ vs

unfoldable pub last : List ℕ → Option ℕ
last [] = none
last (v ∷ vs) = elim (last vs) [ none ↦ some v | some w ↦ some (max v w) ]

-- `loaded_version + 1` in a `u64`.
abbrev pub next : ℕ → ℕ
next version = (version + 1) % 2 ^ 64

module _ ⦃x : External⦄ where
  unfoldable pub root_hash : {S : Type 0} → Tree S → Bytes
  root_hash t = elim t.root [ none ↦ empty_hash | some root ↦ hash root ]

  -- `get_versions`: the keys of a scan, each read as a version.
  unfoldable pub read_versions : List (Bytes × Bytes) → Outcome (List ℕ)
  unfolding add_version
  read_versions [] = ok []
  read_versions ((k, v) ∷ rest) = do
    (version, _) ← expect (x.decode_var_u64 k)
    versions ← read_versions rest
    ok (add_version version versions)

module _ ⦃x : External⦄ {S : Type 0} ⦃d : Database S⦄ where
  unfoldable pub get_versions : S → Outcome (List ℕ)
  unfolding read_versions
  get_versions db = read_versions (d.prefix_iterator db roots_prefix)

  unfoldable pub new : S → Option ℕ → Outcome (Tree S)
  unfolding get_versions last
  new db (some target_version) = do
    versions ← get_versions db
    root ← get_root_node db target_version
    ok (record { root = root; node_db = db; loaded_version = target_version; versions = versions })
  new db none = do
    versions ← get_versions db
    elim (last versions) [
      | some latest_version ↦ (do
        root ← expect_ok (get_root_node db latest_version)
        ok (record {
          root = root;
          node_db = db;
          loaded_version = latest_version;
          versions = versions;
        }))
      | none ↦ ok (record { root = none; node_db = db; loaded_version = 0; versions = versions })
    ]

  unfoldable pub update : Tree S → Option Node → ℕ → Tree S
  unfolding add_version
  update t node updated_version = record t {
    root = node;
    loaded_version = updated_version;
    versions = add_version updated_version t.versions;
  }

  -- A version that exists already may be saved again under the same hash only.
  unfoldable pub save_again : Tree S → ℕ → Outcome ((Bytes × ℕ) × Tree S)
  unfolding clear_children root_hash
  save_again t version = do
    saved_hash ← expect_ok (get_root_hash t.node_db version)
    if eq_bytes saved_hash (root_hash t)
        then ok (
          (saved_hash, version),
          record t {
            root = elim t.root [ none ↦ none | some root ↦ some (clear_children root) ];
            loaded_version = version;
          },
        )
        else err overwrite

  unfoldable pub save_new : Tree S → ℕ → (Bytes × ℕ) × Tree S
  unfolding save_tree add_version
  save_new t version = elim t.root [
    | none ↦ (
      (empty_hash, version),
      record t {
        node_db = save_root t.node_db version empty_hash;
        loaded_version = version;
        versions = add_version version t.versions;
      },
    )
    | some root ↦
        let (hash, root', db) = save_tree t.node_db root in
        (
          (hash, version),
          record t {
            root = some root';
            node_db = save_root db version hash;
            loaded_version = version;
            versions = add_version version t.versions;
          },
        )
  ]

  unfoldable pub save_version : Tree S → Outcome ((Bytes × ℕ) × Tree S)
  unfolding save_again save_new contains
  save_version t =
      let version = next t.loaded_version in
      if contains version t.versions then save_again t version else ok (save_new t version)

  unfoldable pub get : ℕ → Tree S → Bytes → Outcome (Option Bytes)
  get fuel t key = elim t.root [
    | some root ↦ recursive_get t.node_db fuel root key
    | none ↦ ok none
  ]

  unfoldable pub set : ℕ → Tree S → Bytes → Bytes → Outcome (Tree S)
  set fuel t key value = elim t.root [
    | some root ↦ (do
      root' ← recursive_set t.node_db fuel root key value (next t.loaded_version)
      ok (record t { root = some root' }))
    | none ↦ ok (record t { root = some (leaf key value (next t.loaded_version)) })
  ]

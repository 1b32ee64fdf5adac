-- ===== src/Trees/Iavl/Set.antt =====
-- `recursive_set` and `recursive_get` of trees/src/iavl/tree.rs. The recursion goes through the
-- database, so it takes fuel; one unit for each level of the tree is enough.
use Prim.Native.Nat.Ordering.{lt, eq, gt}
use doge_sdk.Base.{ℕ, zero, suc, true, false, Option, none, some, if◌then◌else◌}
use doge_sdk.Base.Bytes.{Bytes, cmp, lt_bytes, eq_bytes}
use doge_sdk.Base.Int.{ℤ, gt_one, lt_neg_one}
use doge_sdk.Database.Record.{Database}
use doge_sdk.Trees.External.{External}
use doge_sdk.Trees.Outcome.{Outcome, ok, out_of_fuel, expect_ok, ◌>>=◌}
use doge_sdk.Trees.Iavl.Node.{Node, leaf, inner, Child, loaded, InnerFields, get_key, hash}
use doge_sdk.Trees.Iavl.Rotate.{
  load, joined_height, joined_size, get_balance_factor, right_rotate, left_rotate,
}

-- The fields that follow from the two children.
unfoldable pub refreshed : InnerFields → ℕ → Node → Node → InnerFields
unfolding joined_height joined_size
refreshed m version left right = record m {
  height = joined_height left right;
  size = joined_size left right;
  version = version;
}

module _ ⦃x : External⦄ where
  -- A leaf becomes a node over the old leaf and the new one, unless the keys agree.
  unfoldable pub set_leaf : Bytes → Bytes → ℕ → Bytes → Bytes → ℕ → Node
  set_leaf k v ver key value version = elim (cmp key k) [
    | lt ↦ inner (loaded (leaf key value version)) (loaded (leaf k v ver)) (record {
      key = k;
      height = 1;
      size = 2;
      left_hash = hash (leaf key value version);
      right_hash = hash (leaf k v ver);
      version = version;
    })
    | eq ↦ leaf k value version
    | gt ↦ inner (loaded (leaf k v ver)) (loaded (leaf key value version)) (record {
      key = key;
      height = 1;
      size = 2;
      left_hash = hash (leaf k v ver);
      right_hash = hash (leaf key value version);
      version = version;
    })
  ]

module _ ⦃x : External⦄ {S : Type 0} ⦃d : Database S⦄ (db : S) where
  unfoldable pub recursive_get : ℕ → Node → Bytes → Outcome (Option Bytes)
  unfolding load
  recursive_get zero node key = out_of_fuel
  recursive_get (suc fuel) (leaf k value version) key =
      ok (if eq_bytes k key then some value else none)
  recursive_get (suc fuel) (inner l r m) key = elim (lt_bytes key m.key) [
    | true ↦ (do n ← load db l m.left_hash; recursive_get fuel n key)
    | false ↦ (do n ← load db r m.right_hash; recursive_get fuel n key)
  ]

  -- The left side is too high. The left child is loaded into the node by `get_mut_left_node`.
  unfoldable pub rebalance_left : Bytes → ℕ → Child → InnerFields → Node → Outcome Node
  rebalance_left key version r m left =
      let node = inner (loaded left) r m in
      if lt_bytes key (get_key left) then expect_ok (right_rotate db version node) else do
        rotated ← expect_ok (left_rotate db version node)
        expect_ok (right_rotate db version rotated)

  -- The right side is too high. In the last case the right child is rotated in its place.
  unfoldable pub rebalance_right : Bytes → ℕ → Child → InnerFields → Node → Outcome Node
  rebalance_right key version l m right =
      if lt_bytes (get_key right) key
      then expect_ok (left_rotate db version (inner l (loaded right) m))
      else do
        rotated ← expect_ok (right_rotate db version right)
        expect_ok (left_rotate db version (inner l (loaded rotated) m))

  unfoldable pub rebalance :
      ℤ → Bytes → ℕ → Child → Child → InnerFields → Node → Node → Outcome Node
  unfolding rebalance_left rebalance_right
  rebalance balance_factor key version l r m left right =
      if gt_one balance_factor
      then rebalance_left key version r m left
      else if lt_neg_one balance_factor
      then rebalance_right key version l m right
      else ok (inner l r m)

  -- What follows the recursive call: the height, the size and the version of the node, and the
  -- rotations.
  unfoldable pub update_inner : Bytes → ℕ → Child → Child → InnerFields → Outcome Node
  unfolding rebalance get_balance_factor load refreshed
  update_inner key version l r m = do
    left ← load db l m.left_hash
    right ← load db r m.right_hash
    let m' = refreshed m version left right
    balance_factor ← get_balance_factor db l r m'
    rebalance balance_factor key version l r m' left right

  unfoldable pub recursive_set : ℕ → Node → Bytes → Bytes → ℕ → Outcome Node
  unfolding set_leaf update_inner
  recursive_set zero node key value version = out_of_fuel
  recursive_set (suc fuel) (leaf k v ver) key value version =
      ok (set_leaf k v ver key value version)
  recursive_set (suc fuel) (inner l r m) key value version = elim (lt_bytes key m.key) [
    | true ↦ (do
      left ← load db l m.left_hash
      left' ← recursive_set fuel left key value version
      update_inner key version (loaded left') r (record m { left_hash = hash left' }))
    | false ↦ (do
      right ← load db r m.right_hash
      right' ← recursive_set fuel right key value version
      update_inner key version l (loaded right') (record m { right_hash = hash right' }))
  ]

-- ===== src/Trees/Iavl/Range.antt =====
-- `Tree::range` and `Range` of trees/src/iavl/tree.rs. The vector of delayed nodes is a list with
-- its last element first. `fuel` bounds the nodes that one call of `next` visits, and the items
-- that are taken.
use doge_sdk.Base.{ℕ, zero, suc, Bool, true, Option, none, some, List, [], ◌∷◌, if◌then◌else◌}
use doge_sdk.Base.Bytes.{Bytes, lt_bytes}
use doge_sdk.Base.BTreeMap.{BTreeMap}
use doge_sdk.Database.Bound.{Bound, included, excluded, unbounded, contains, below_end}
use doge_sdk.Database.Record.{Database}
use doge_sdk.Trees.External.{External}
use doge_sdk.Trees.Outcome.{Outcome, ok, out_of_fuel, ◌>>=◌}
use doge_sdk.Trees.Iavl.Node.{Node, leaf, inner, Child}
use doge_sdk.Trees.Iavl.Rotate.{load}
use doge_sdk.Trees.Iavl.Tree.{Tree}

-- The left side of a node may hold keys of the range.
unfoldable pub after_start : Bound → Bytes → Bool
after_start (included l) key = lt_bytes l key
after_start (excluded l) key = lt_bytes l key
after_start unbounded key = true

unfoldable pub delayed_nodes : {S : Type 0} → Tree S → List Node
delayed_nodes t = elim t.root [ some root ↦ root ∷ [] | none ↦ [] ]

module _ ⦃x : External⦄ {S : Type 0} ⦃d : Database S⦄ (db : S) where
  -- The child is pushed if the test holds.
  unfoldable pub push_if : Bool → Child → Bytes → List Node → Outcome (List Node)
  unfolding load
  push_if test child hash stack =
      if test then (do n ← load db child hash; ok (n ∷ stack)) else ok stack

  -- The right side is pushed first, so the left one is visited first.
  unfoldable pub traverse :
      Bound → Bound → ℕ → List Node → Outcome (Option ((Bytes × Bytes) × List Node))
  unfolding push_if after_start below_end contains
  traverse start stop zero stack = out_of_fuel
  traverse start stop (suc fuel) [] = ok none
  traverse start stop (suc fuel) (leaf key value version ∷ stack) =
      let rest = traverse start stop fuel stack in
      if contains start stop key then ok (some ((key, value), stack)) else rest
  traverse start stop (suc fuel) (inner l r m ∷ stack) = do
    with_right ← push_if (below_end stop m.key) r m.right_hash stack
    with_left ← push_if (after_start start m.key) l m.left_hash with_right
    traverse start stop fuel with_left

  -- `collect` of the iterator: `next` until it yields nothing.
  unfoldable pub collect : Bound → Bound → ℕ → List Node → Outcome (BTreeMap Bytes)
  unfolding traverse
  collect start stop zero stack = out_of_fuel
  collect start stop (suc fuel) stack = do
    found ← traverse start stop fuel stack
    elim found [
      | none ↦ ok []
      | some (entry, rest) ↦ (do entries ← collect start stop fuel rest; ok (entry ∷ entries))
    ]

module _ ⦃x : External⦄ {S : Type 0} ⦃d : Database S⦄ where
  unfoldable pub range : Bound → Bound → ℕ → Tree S → Outcome (BTreeMap Bytes)
  unfolding collect delayed_nodes
  range start stop fuel t = collect t.node_db start stop fuel (delayed_nodes t)

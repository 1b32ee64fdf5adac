-- ===== src/Trees/Iavl/Shape.antt =====
-- A tree with every child in memory: what a node of the program stands for, whichever of its
-- children are still in the database.
use doge_sdk.Base.{ℕ, suc, ◌≡◌, max, [], ◌∷◌, ◌++◌}
use doge_sdk.Base.Bytes.{Bytes}
use doge_sdk.Base.BTreeMap.{BTreeMap, Below, AtLeast}
use doge_sdk.Database.Record.{Database}
use doge_sdk.Trees.External.{External}
use doge_sdk.Trees.Outcome.{ok}
use doge_sdk.Trees.Iavl.Node.{Node, Child, InnerFields}
use doge_sdk.Trees.Iavl.Rotate.{load}

pub data Shape : Type 0 where
  leaf : Bytes → Bytes → ℕ → Shape
  node : InnerFields → Shape → Shape → Shape

-- The key-value pairs, from left to right.
abbrev pub entries : Shape → BTreeMap Bytes
entries (leaf key value version) = (key, value) ∷ []
entries (node m l r) = entries l ++ entries r

-- The number of levels.
abbrev pub depth : Shape → ℕ
depth (leaf key value version) = 1
depth (node m l r) = suc (max (depth l) (depth r))

-- Keys below a node's key are on the left, all others on the right.
abbrev pub IsOrdered : Shape → Type 0
IsOrdered (leaf key value version) = Unit
IsOrdered (node m l r) =
    Below m.key (entries l) × AtLeast m.key (entries r) × IsOrdered l × IsOrdered r

module _ ⦃x : External⦄ {S : Type 0} ⦃d : Database S⦄ (db : S) where
  -- A node stands for a tree if each child, in memory or in the database, stands for its side.
  pub data Loads : Node → Shape → Type 0 where
    leaf : (k v : Bytes) (ver : ℕ) → Loads (Node.leaf k v ver) (Shape.leaf k v ver)
    inner :
        (l r : Child) (m : InnerFields) {nl nr : Node} {tl tr : Shape}
        → load db l m.left_hash ≡ ok nl
        → load db r m.right_hash ≡ ok nr
        → Loads nl tl
        → Loads nr tr
        → Loads (Node.inner l r m) (Shape.node m tl tr)

  -- A node holds the entries of an ordered tree that it stands for.
  abbrev pub Holds : Node → BTreeMap Bytes → Type 0
  Holds n m = (t : Shape) × Loads n t × IsOrdered t × (entries t ≡ m)

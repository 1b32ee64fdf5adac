-- ===== src/Trees/Iavl/Rotate.antt =====
-- `get_left_node`, `get_right_node`, `get_balance_factor` and the two rotations of
-- trees/src/iavl/tree.rs.
use doge_sdk.Base.{ℕ, ◌+◌, ◌%◌, ◌^◌, max}
use doge_sdk.Base.Bytes.{Bytes}
use doge_sdk.Base.Int.{ℤ, sub_ℕ}
use doge_sdk.Database.Record.{Database}
use doge_sdk.Trees.External.{External}
use doge_sdk.Trees.Outcome.{Outcome, ok, err, rotate_error, expect, ◌>>=◌}
use doge_sdk.Trees.Iavl.Node.{
  Node, leaf, inner, Child, absent, loaded, InnerFields, get_height, get_size, hash,
}
use doge_sdk.Trees.Iavl.NodeDb.{get_node}

-- The height and the size of a node over two others, in a `u8` and a `u32`.
unfoldable pub joined_height : Node → Node → ℕ
joined_height l r = (1 + max (get_height l) (get_height r)) % 2 ^ 8

unfoldable pub joined_size : Node → Node → ℕ
joined_size l r = (get_size l + get_size r) % 2 ^ 32

-- The fields of the old top node `z` and of the new one `y` after a rotation to the right, and
-- after one to the left.
unfoldable pub lower_right : InnerFields → InnerFields → ℕ → Node → Node → InnerFields
unfolding joined_height joined_size
lower_right z y version z_left z_right = record z {
  height = joined_height z_left z_right;
  size = joined_size z_left z_right;
  version = version;
  left_hash = y.right_hash;
}

unfoldable pub lower_left : InnerFields → InnerFields → ℕ → Node → Node → InnerFields
unfolding joined_height joined_size
lower_left z y version z_left z_right = record z {
  height = joined_height z_left z_right;
  size = joined_size z_left z_right;
  version = version;
  right_hash = y.left_hash;
}

module _ ⦃x : External⦄ where
  unfoldable pub upper_right : InnerFields → ℕ → Node → Node → InnerFields
  unfolding joined_height joined_size
  upper_right y version y_left z' = record y {
    right_hash = hash z';
    height = joined_height y_left z';
    size = joined_size y_left z';
    version = version;
  }

  unfoldable pub upper_left : InnerFields → ℕ → Node → Node → InnerFields
  unfolding joined_height joined_size
  upper_left y version z' y_right = record y {
    left_hash = hash z';
    height = joined_height z' y_right;
    size = joined_size z' y_right;
    version = version;
  }

module _ ⦃x : External⦄ {S : Type 0} ⦃d : Database S⦄ (db : S) where
  -- `get_left_node` and `get_right_node`: the child in memory, or else the node under its hash.
  unfoldable pub load : Child → Bytes → Outcome Node
  load absent h = do found ← get_node db h; expect found
  load (loaded n) h = ok n

  unfoldable pub get_balance_factor : Child → Child → InnerFields → Outcome ℤ
  unfolding load
  get_balance_factor l r m = do
    left ← load l m.left_hash
    right ← load r m.right_hash
    ok (sub_ℕ (get_height left) (get_height right))

  -- The node `z` with the left child `y` taken out of it. The new left child of `z` is the right
  -- child of `y`, and it is looked up while `z.left_hash` is still the hash of `y`.
  unfoldable pub right_rotate_inner : Child → InnerFields → ℕ → Node → Outcome Node
  unfolding load lower_right upper_right
  right_rotate_inner zr z version (leaf key value v) = err rotate_error
  right_rotate_inner zr z version (inner yl yr y) = do
    z_left ← load yr z.left_hash
    z_right ← load zr z.right_hash
    let z' = inner yr zr (lower_right z y version z_left z_right)
    y_left ← load yl y.left_hash
    ok (inner yl (loaded z') (upper_right y version y_left z'))

  unfoldable pub right_rotate : ℕ → Node → Outcome Node
  unfolding right_rotate_inner
  right_rotate version (leaf key value v) = err rotate_error
  right_rotate version (inner zl zr z) = do
    y ← load zl z.left_hash
    right_rotate_inner zr z version y

  unfoldable pub left_rotate_inner : Child → InnerFields → ℕ → Node → Outcome Node
  unfolding load lower_left upper_left
  left_rotate_inner zl z version (leaf key value v) = err rotate_error
  left_rotate_inner zl z version (inner yl yr y) = do
    z_left ← load zl z.left_hash
    z_right ← load yl z.right_hash
    let z' = inner zl yl (lower_left z y version z_left z_right)
    y_right ← load yr y.right_hash
    ok (inner (loaded z') yr (upper_left y version z' y_right))

  unfoldable pub left_rotate : ℕ → Node → Outcome Node
  unfolding left_rotate_inner
  left_rotate version (leaf key value v) = err rotate_error
  left_rotate version (inner zl zr z) = do
    y ← load zr z.right_hash
    left_rotate_inner zl z version y

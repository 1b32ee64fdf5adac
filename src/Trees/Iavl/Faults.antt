-- ===== src/Trees/Iavl/Faults.antt =====
-- Where `recursive_set` fails: a rotation looks a child up under the hash of another node, and the
-- left-right case rotates the node and not its left child.
use doge_sdk.Base.{sym, ℕ, ◌+◌, ◌<◌, ◌≡◌, refl, ap, ◌∙◌, true, false, none, arith}
use doge_sdk.Base.Bytes.{Bytes, lt_bytes}
use doge_sdk.Database.Record.{Database}
use doge_sdk.Trees.External.{External}
use doge_sdk.Trees.Outcome.{ok, panic, expect_ok}
use doge_sdk.Trees.Iavl.Node.{Node, Child, absent, loaded, InnerFields, get_height, get_key}
use doge_sdk.Trees.Iavl.NodeDb.{get_node}
use doge_sdk.Trees.Iavl.Rotate.{
  joined_height, load, right_rotate, left_rotate, lower_left, upper_left, lower_right, upper_right,
}
use doge_sdk.Trees.Iavl.Set.{update_inner, rebalance_left, rebalance_right, refreshed}
use doge_sdk.Trees.Iavl.UpdateLaws.{
  update_inner-eq-rebalance, rebalance_left_heavy, rebalance_right_heavy,
}
use doge_sdk.Trees.Iavl.Shape.{Shape, node}
use doge_sdk.Trees.Iavl.Balance.{in_memory, height, get_height-in_memory}

module _ ⦃x : External⦄ {S : Type 0} ⦃d : Database S⦄ (db : S) where
  right_rotate-stale :
      (ver : ℕ) (yl zr : Child) (y z : InnerFields)
      → get_node db z.left_hash ≡ ok none
      → right_rotate db ver (Node.inner (loaded (Node.inner yl absent y)) zr z) ≡ panic
  unfolding right_rotate
  right_rotate-stale ver yl zr y z h = ground (arith, h)

  left_rotate-stale :
      (ver : ℕ) (yr zl : Child) (y z : InnerFields) {nl : Node}
      → load db zl z.left_hash ≡ ok nl
      → get_node db z.right_hash ≡ ok none
      → left_rotate db ver (Node.inner zl (loaded (Node.inner absent yr y)) z) ≡ panic
  unfolding left_rotate
  left_rotate-stale ver yr zl y z e h = ground (arith, h, e)

  rebalance_left_below :
      (key : Bytes) (ver : ℕ) (r : Child) (m : InnerFields) (n : Node)
      → lt_bytes key (get_key n) ≡ true
      → rebalance_left db key ver r m n
        ≡ expect_ok (right_rotate db ver (Node.inner (loaded n) r m))
  unfolding rebalance_left
  rebalance_left_below key ver r m n h = ground (arith, h)

  rebalance_right_above :
      (key : Bytes) (ver : ℕ) (l : Child) (m : InnerFields) (n : Node)
      → lt_bytes (get_key n) key ≡ true
      → rebalance_right db key ver l m n
        ≡ expect_ok (left_rotate db ver (Node.inner l (loaded n) m))
  unfolding rebalance_right
  rebalance_right_above key ver l m n h = ground (arith, h)

  rebalance_left_leaf :
      (key : Bytes) (ver : ℕ) (r : Child) (m : InnerFields) (n : Node) (k v : Bytes) (w : ℕ)
      → load db r m.right_hash ≡ ok (Node.leaf k v w)
      → lt_bytes key (get_key n) ≡ false
      → rebalance_left db key ver r m n ≡ panic
  unfolding rebalance_left left_rotate
  rebalance_left_leaf key ver r m n k v w e h = ground (arith, h, e)

  -- The left child is two levels too high, the key is below the child's key, and the right child
  -- of that child is in the database only, as it is in a tree that has been saved. If no node is
  -- stored under the left child's new hash, the update panics.
  pub update_inner-stale_left :
      (key : Bytes) (ver : ℕ) (yl r : Child) (y m : InnerFields) (nr : Node)
      → load db r m.right_hash ≡ ok nr
      → get_height nr + 1 < y.height
      → lt_bytes key y.key ≡ true
      → get_node db m.left_hash ≡ ok none
      → update_inner db key ver (loaded (Node.inner yl absent y)) r m ≡ panic
  update_inner-stale_left key ver yl r y m nr er h k none_stored =
      let ny = Node.inner yl absent y in
      let m' = refreshed m ver ny nr in
      update_inner-eq-rebalance db key ver (loaded ny) r m ny nr (unfold load in refl) er
      ∙ rebalance_left_heavy db key ver (get_height ny) (get_height nr) (loaded ny) r m' ny nr
          (unfold get_height in h)
      ∙ rebalance_left_below key ver r m' ny (unfold get_key in k)
      ∙ ap expect_ok (right_rotate-stale ver yl r y m' (unfold refreshed in none_stored))

  -- The right child is two levels too high, the key is above the child's key, and the left child of
  -- that child is in the database only. If no node is stored under the right child's new hash, the
  -- update panics.
  pub update_inner-stale_right :
      (key : Bytes) (ver : ℕ) (l yr : Child) (y m : InnerFields) (nl : Node)
      → load db l m.left_hash ≡ ok nl
      → get_height nl + 1 < y.height
      → lt_bytes y.key key ≡ true
      → get_node db m.right_hash ≡ ok none
      → update_inner db key ver l (loaded (Node.inner absent yr y)) m ≡ panic
  update_inner-stale_right key ver l yr y m nl el h k none_stored =
      let ny = Node.inner absent yr y in
      let m' = refreshed m ver nl ny in
      update_inner-eq-rebalance db key ver l (loaded ny) m nl ny el (unfold load in refl)
      ∙ rebalance_right_heavy db key ver (get_height nl) (get_height ny) l (loaded ny) m' nl ny
          (unfold get_height in h)
      ∙ rebalance_right_above key ver l m' ny (unfold get_key in k)
      ∙ ap expect_ok (
          left_rotate-stale ver yr l y m' {nl = nl} (unfold refreshed in el)
            (unfold refreshed in none_stored))

  -- The left-right case, where the key is not below that of a left child higher than one level, with
  -- a leaf on the right: the rotation of the node to the left fails, and
  -- the update panics.
  pub update_inner-left_right_leaf :
      (key : Bytes) (ver : ℕ) (l r : Child) (m : InnerFields) (nl : Node) (k v : Bytes) (w : ℕ)
      → load db l m.left_hash ≡ ok nl
      → load db r m.right_hash ≡ ok (Node.leaf k v w)
      → 1 < get_height nl
      → lt_bytes key (get_key nl) ≡ false
      → update_inner db key ver l r m ≡ panic
  update_inner-left_right_leaf key ver l r m nl k v w el er h b =
      let nr = Node.leaf k v w in
      let m' = refreshed m ver nl nr in
      update_inner-eq-rebalance db key ver l r m nl nr el er
      ∙ rebalance_left_heavy db key ver (get_height nl) (get_height nr) l r m' nl nr
          (unfold get_height in omega arith)
      ∙ rebalance_left_leaf key ver r m' nl k v w (unfold refreshed in er) b

  -- The left-right case in memory, where the key is not below that of a left child two levels too
  -- high, with a node of the right cached height on the right: the two rotations undo one another.
  -- The update returns a tree with the same children and the same keys, as far out of balance as
  -- before.
  pub update_inner-left_right_node :
      (key : Bytes) (ver : ℕ) (m y : InnerFields) (a b c : Shape)
      → y.height ≡ joined_height (in_memory b) (in_memory c)
      → y.height + 1 < height a
      → lt_bytes key (get_key (in_memory a)) ≡ false
      → (m' : InnerFields) × (y' : InnerFields) × (update_inner db key ver
            (loaded (in_memory a))
            (loaded (in_memory (node y b c)))
            m
          ≡ ok (in_memory (node m' a (node y' b c))))
        × (m'.key ≡ m.key)
        × (y'.key ≡ y.key)
        × (y'.height ≡ y.height)
  update_inner-left_right_node key ver m y a b c cached h k =
      let na = in_memory a in
      let ny = in_memory (node y b c) in
      let m' = refreshed m ver na ny in
      let zf = lower_left m' y ver na (in_memory b) in
      let yf = upper_left y ver (in_memory (node zf a b)) (in_memory c) in
      let z2 = lower_right yf zf ver (in_memory b) (in_memory c) in
      let y2 = upper_right zf ver na (in_memory (node z2 b c)) in
      (
        y2,
        z2,
        update_inner-eq-rebalance db key ver (loaded na) (loaded ny) m na ny (unfold load in refl)
              (unfold load in refl)
            ∙ rebalance_left_heavy db key ver (get_height na) (get_height ny) (loaded na)
                (loaded ny) m' na ny (unfold get_height in omega (arith, get_height-in_memory a))
            ∙ unfold rebalance_left left_rotate right_rotate in ground (arith, k),
        unfold upper_right lower_left refreshed in refl,
        unfold upper_left lower_right in refl,
        unfold lower_right in sym cached,
      )

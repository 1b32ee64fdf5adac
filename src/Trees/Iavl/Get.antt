-- ===== src/Trees/Iavl/Get.antt =====
-- `recursive_get` and the entries of the tree.
use doge_sdk.Base.{
  sym, ap, ◌∙◌, All-imp, ℕ, zero, suc, ◌≤◌, ◌≡◌, true, false, Bool-cases, inl, inr, arith, ◌++◌,
}
use doge_sdk.Base.Bytes.{
  Bytes, ◌≺◌, ◌≼◌, lt_bytes, lt-le_trans, lt_bytes→lt, ge_of_not_lt, eq_bytes_comm,
}
use doge_sdk.Base.BTreeMap
use doge_sdk.Base.BTreeMap.{BTreeMap, get-Above, get-Below, get-append, Above, AtLeast, Below}
use doge_sdk.Database.Record.{Database}
use doge_sdk.Trees.External.{External}
use doge_sdk.Trees.Outcome.{ok}
use doge_sdk.Trees.Iavl.Node.{Node, Child, InnerFields}
use doge_sdk.Trees.Iavl.Rotate.{load}
use doge_sdk.Trees.Iavl.Set.{recursive_get}
use doge_sdk.Trees.Iavl.Shape.{Shape, node, entries, depth, IsOrdered, Loads, inner}

-- A key below a node's key is below all that stands on the right; any other is above all that
-- stands on the left.
pub Above-right : (key k : Bytes) (m : BTreeMap Bytes) → key ≺ k → AtLeast k m → Above key m
Above-right key k m h = All-imp (λ e. k ≼ e.0) (λ e. key ≺ e.0) (λ e p. lt-le_trans key k e.0 h p) m

pub Below-left : (key k : Bytes) (m : BTreeMap Bytes) → k ≼ key → Below k m → Below key m
Below-left key k m h = All-imp (λ e. e.0 ≺ k) (λ e. e.0 ≺ key) (λ e p. lt-le_trans e.0 k key p h) m

get_left :
    (key : Bytes) (m : InnerFields) (l r : Shape)
    → IsOrdered (node m l r)
    → lt_bytes key m.key ≡ true
    → BTreeMap.get key (entries l ++ entries r) ≡ BTreeMap.get key (entries l)
get_left key m l r o h =
    let above = Above-right key m.key (entries r) (lt_bytes→lt key m.key h) o.1 in
    rw get-append (ground (arith, get-Above key (entries r) above))

get_right :
    (key : Bytes) (m : InnerFields) (l r : Shape)
    → IsOrdered (node m l r)
    → lt_bytes key m.key ≡ false
    → BTreeMap.get key (entries l ++ entries r) ≡ BTreeMap.get key (entries r)
get_right key m l r o h =
    let below = Below-left key m.key (entries l) (ge_of_not_lt key m.key h) o.0 in
    rw get-append (rw (get-Below key (entries l) below))

module _ ⦃x : External⦄ {S : Type 0} ⦃d : Database S⦄ (db : S) where
  recursive_get_left :
      (fuel : ℕ) (l r : Child) (m : InnerFields) (key : Bytes) {n : Node}
      → load db l m.left_hash ≡ ok n
      → lt_bytes key m.key ≡ true
      → recursive_get db (suc fuel) (Node.inner l r m) key ≡ recursive_get db fuel n key
  unfolding recursive_get
  recursive_get_left fuel l r m key e h = rw (h, recursive_get, e)

  recursive_get_right :
      (fuel : ℕ) (l r : Child) (m : InnerFields) (key : Bytes) {n : Node}
      → load db r m.right_hash ≡ ok n
      → lt_bytes key m.key ≡ false
      → recursive_get db (suc fuel) (Node.inner l r m) key ≡ recursive_get db fuel n key
  unfolding recursive_get
  recursive_get_right fuel l r m key e h = rw (h, recursive_get, e)

  -- A read of a node that stands for an ordered tree returns what the tree's entries hold under
  -- the key, given at least one unit of fuel for each level.
  pub recursive_get-eq-get :
      (fuel : ℕ) (n : Node) (t : Shape) (key : Bytes)
      → Loads db n t
      → IsOrdered t
      → depth t ≤ fuel
      → recursive_get db fuel n key ≡ ok (BTreeMap.get key (entries t))
  recursive_get-eq-get zero n t key (Loads.leaf k v ver) o h = absurd (omega arith)
  recursive_get-eq-get zero n t key (inner l r m el er hl hr) o h = absurd (omega arith)
  recursive_get-eq-get (suc fuel) n t key (Loads.leaf k v ver) o h =
      unfold recursive_get BTreeMap.get in rw (eq_bytes_comm k key)
  recursive_get-eq-get (suc fuel) n t key (inner l r m {nl} {nr} {tl} {tr} el er hl hr) o h =
      elim (Bool-cases (lt_bytes key m.key)) [
        | inl below ↦
            recursive_get_left fuel l r m key el below
            ∙ recursive_get-eq-get fuel nl tl key hl o.2 (omega arith)
            ∙ ap ok (sym (get_left key m tl tr o below))
        | inr other ↦
            recursive_get_right fuel l r m key er other
            ∙ recursive_get-eq-get fuel nr tr key hr o.3 (omega arith)
            ∙ ap ok (sym (get_right key m tl tr o other))
      ]

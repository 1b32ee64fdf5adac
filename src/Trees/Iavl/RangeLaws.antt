-- ===== src/Trees/Iavl/RangeLaws.antt =====
-- `Range::traverse` against the entries of the tree.
use doge_sdk.Base.{
  ℕ, zero, suc, ◌+◌, ◌≤◌, ◌<◌, ◌≡◌, refl, ◌∙◌, Bool, true, false, Bool-cases, inl, inr, Option,
  none, some, List, [], ◌∷◌, ◌++◌, All-imp, arith, if◌then◌else◌,
}
use mathlib.Core.List.{append_assoc, append-nil}
use doge_sdk.Base.Bytes.{Bytes, ◌≺◌, ◌≼◌}
use doge_sdk.Base.BTreeMap.{BTreeMap}
use doge_sdk.Database.Bound.{Bound, contains, below_end}
use doge_sdk.Database.Memory.{keep}
use doge_sdk.Database.Record.{Database}
use doge_sdk.Trees.External.{External}
use doge_sdk.Trees.Outcome.{Outcome, ok}
use doge_sdk.Trees.Iavl.Node.{Node, Child, InnerFields}
use doge_sdk.Trees.Iavl.Rotate.{load}
use doge_sdk.Trees.Iavl.Shape.{Shape, leaf, node, entries, IsOrdered, Loads, inner}
use doge_sdk.Trees.Iavl.Tree.{Tree}
use doge_sdk.Trees.Iavl.Range.{after_start, push_if, traverse, collect, range, delayed_nodes}
use doge_sdk.Trees.Iavl.RangeBounds.{keep-append, keep-none, before_range, after_range}

-- The number of nodes.
abbrev pub nodes : Shape → ℕ
nodes (leaf key value version) = 1
nodes (node m l r) = 1 + (nodes l + nodes r)

abbrev total : List Shape → ℕ
total [] = 0
total (t ∷ ts) = nodes t + total ts

abbrev all_entries : List Shape → BTreeMap Bytes
all_entries [] = []
all_entries (t ∷ ts) = entries t ++ all_entries ts

module _ ⦃x : External⦄ {S : Type 0} ⦃d : Database S⦄ (db : S) (start stop : Bound) where
  -- The delayed nodes stand for ordered trees.
  data Delayed : List Node → List Shape → Type 0 where
    nil : Delayed [] []
    cons :
        {n : Node} {t : Shape} {ns : List Node} {ts : List Shape}
        → Loads db n t
        → IsOrdered t
        → Delayed ns ts
        → Delayed (n ∷ ns) (t ∷ ts)

  abbrev kept : List Shape → BTreeMap Bytes
  kept ts = keep (contains start stop) (all_entries ts)

  -- What `next` returns: nothing if no entry is left, and otherwise the first one and the nodes
  -- of the others.
  data Traversed (ts : List Shape) : Outcome (Option ((Bytes × Bytes) × List Node)) → Type 0 where
    done : kept ts ≡ [] → Traversed ts (ok none)
    found :
        {e : Bytes × Bytes} {ns : List Node} {us : List Shape}
        → Delayed ns us
        → total us < total ts
        → kept ts ≡ e ∷ kept us
        → Traversed ts (ok (some (e, ns)))

  Traversed-imp :
      {o : Outcome (Option ((Bytes × Bytes) × List Node))} (ts us : List Shape)
      → kept ts ≡ kept us
      → total us ≤ total ts
      → Traversed us o
      → Traversed ts o
  Traversed-imp ts us e h (done n) = done (e ∙ n)
  Traversed-imp ts us e h (found q l p) = found q (omega arith) (e ∙ p)

  pushed :
      (test : Bool) (child : Child) (hash : Bytes) {n : Node} {t : Shape} {stack : List Node}
      {ts : List Shape}
      → load db child hash ≡ ok n
      → Loads db n t
      → IsOrdered t
      → Delayed stack ts
      → (test ≡ false → keep (contains start stop) (entries t) ≡ [])
      → (stack' : List Node) × (us : List Shape) × (push_if db test child hash stack ≡ ok stack')
        × Delayed stack' us
        × (kept us ≡ keep (contains start stop) (entries t) ++ kept ts)
        × (total us ≤ nodes t + total ts)
  unfolding push_if
  pushed true child hash {n} {t} {stack} {ts} e l o q h = (
    n ∷ stack,
    t ∷ ts,
    rw e refl,
    cons l o q,
    keep-append (contains start stop) (entries t) (all_entries ts),
    omega arith,
  )
  pushed false child hash {n} {t} {stack} {ts} e l o q h =
      (stack, ts, refl, q, rw (h refl) refl, omega arith)

  traverse-inner :
      (fuel : ℕ) (l r : Child) (m : InnerFields) (stack with_right with_left : List Node)
      → push_if db (below_end stop m.key) r m.right_hash stack ≡ ok with_right
      → push_if db (after_start start m.key) l m.left_hash with_right ≡ ok with_left
      → traverse db start stop (suc fuel) (Node.inner l r m ∷ stack)
        ≡ traverse db start stop fuel with_left
  unfolding traverse
  traverse-inner fuel l r m stack with_right with_left e f = rw (e, f) refl

  kept_left :
      (m : InnerFields) (l r : Shape)
      → IsOrdered (node m l r)
      → after_start start m.key ≡ false
      → keep (contains start stop) (entries l) ≡ []
  kept_left m l r o h = keep-none (contains start stop) (entries l) (
      All-imp (λ e. e.0 ≺ m.key) (λ e. contains start stop e.0 ≡ false)
        (λ e p. before_range start stop m.key e.0 h p) (entries l) o.0)

  kept_right :
      (m : InnerFields) (l r : Shape)
      → IsOrdered (node m l r)
      → below_end stop m.key ≡ false
      → keep (contains start stop) (entries r) ≡ []
  kept_right m l r o h = keep-none (contains start stop) (entries r) (
      All-imp (λ e. m.key ≼ e.0) (λ e. contains start stop e.0 ≡ false)
        (λ e p. after_range start stop m.key e.0 h p) (entries r) o.1)

  traverse_leaf :
      (fuel : ℕ) (k v : Bytes) (ver : ℕ) (ns : List Node)
      → traverse db start stop (suc fuel) (Node.leaf k v ver ∷ ns)
        ≡ (if contains start stop k then ok (some ((k, v), ns)) else traverse db start stop fuel ns)
  unfolding traverse
  traverse_leaf fuel k v ver ns = refl

  kept_leaf :
      (k v : Bytes) (ver : ℕ) (ts : List Shape)
      → kept (leaf k v ver ∷ ts) ≡ (if contains start stop k then (k, v) ∷ kept ts else kept ts)
  unfolding keep
  kept_leaf k v ver ts = refl

  kept_node :
      (m : InnerFields) (l r : Shape) (ts us ws : List Shape)
      → kept us ≡ keep (contains start stop) (entries r) ++ kept ts
      → kept ws ≡ keep (contains start stop) (entries l) ++ kept us
      → kept (node m l r ∷ ts) ≡ kept ws
  kept_node m l r ts us ws e f =
      rw
        (
          f,
          e,
          keep-append (contains start stop) (entries l ++ entries r) (all_entries ts),
          keep-append (contains start stop) (entries l) (entries r),
        )
        (append_assoc (keep (contains start stop) (entries l))
          (keep (contains start stop) (entries r)) (kept ts))

  -- With more fuel than there are nodes, a call of `next` returns.
  traverse-Traversed :
      (fuel : ℕ) (stack : List Node) (ts : List Shape)
      → Delayed stack ts
      → total ts < fuel
      → Traversed ts (traverse db start stop fuel stack)
  traverse-Traversed zero stack ts q h = absurd (omega arith)
  traverse-Traversed (suc fuel) stack ts nil h = unfold traverse keep in done refl
  traverse-Traversed (suc fuel) stack ts (cons {ns = ns} {ts = us} (Loads.leaf k v ver) o q) h =
      elim (Bool-cases (contains start stop k)) [
        | inl e ↦
            rw (traverse_leaf fuel k v ver ns, e)
              (found q (omega arith) (kept_leaf k v ver us ∙ rw e refl))
        | inr e ↦
            rw (traverse_leaf fuel k v ver ns, e)
              (Traversed-imp (leaf k v ver ∷ us) us (kept_leaf k v ver us ∙ rw e refl) (omega arith)
                (traverse-Traversed fuel ns us q (omega arith)))
      ]
  traverse-Traversed (suc fuel) stack ts
        (cons {ns = ns} {ts = us} (inner l r m {nl} {nr} {tl} {tr} el er hl hr) o q) h =
      let (s1, us1, p1, q1, k1, n1) =
        pushed (below_end stop m.key) r m.right_hash er hr o.3 q (kept_right m tl tr o) in
      let (s2, us2, p2, q2, k2, n2) =
        pushed (after_start start m.key) l m.left_hash el hl o.2 q1 (kept_left m tl tr o) in
      let e = kept_node m tl tr us us1 us2 k1 k2 in
      rw (traverse-inner fuel l r m ns s1 s2 p1 p2) (
        Traversed-imp (node m tl tr ∷ us) us2 e (omega arith)
          (traverse-Traversed fuel s2 us2 q2 (omega arith)))

  collect_step :
      (fuel : ℕ) (stack : List Node) (ts : List Shape)
      {o : Outcome (Option ((Bytes × Bytes) × List Node))}
      → traverse db start stop fuel stack ≡ o
      → Traversed ts o
      → ((ns : List Node) (us : List Shape)
          → Delayed ns us
          → total us < total ts
          → collect db start stop fuel ns ≡ ok (kept us))
      → collect db start stop (suc fuel) stack ≡ ok (kept ts)
  unfolding collect
  collect_step fuel stack ts e (done n) rec = rw (e, n) refl
  collect_step fuel stack ts e (found {e = entry} {ns} {us} q l p) rec =
      rw (e, rec ns us q l, p) refl

  collect-eq-kept :
      (fuel : ℕ) (stack : List Node) (ts : List Shape)
      → Delayed stack ts
      → total ts + 1 < fuel
      → collect db start stop fuel stack ≡ ok (kept ts)
  collect-eq-kept zero stack ts q h = absurd (omega arith)
  collect-eq-kept (suc fuel) stack ts q h =
      collect_step fuel stack ts refl (traverse-Traversed fuel stack ts q (omega arith))
        (λ ns us q' l. collect-eq-kept fuel ns us q' (omega arith))

delayed_some : {S : Type 0} (t : Tree S) (n : Node) → t.root ≡ some n → delayed_nodes t ≡ n ∷ []
unfolding delayed_nodes
delayed_some t n e = ground (arith, e)

delayed_none : {S : Type 0} (t : Tree S) → t.root ≡ none → delayed_nodes t ≡ []
unfolding delayed_nodes
delayed_none t e = ground (arith, e)

module _ ⦃x : External⦄ {S : Type 0} ⦃d : Database S⦄ where
  -- A scan of a tree whose root stands for an ordered tree yields its entries in the range, each
  -- once and in order, given two more units of fuel than there are nodes.
  pub range-eq-keep :
      (start stop : Bound) (fuel : ℕ) (t : Tree S) (n : Node) (shape : Shape)
      → t.root ≡ some n
      → Loads t.node_db n shape
      → IsOrdered shape
      → nodes shape + 2 ≤ fuel
      → range start stop fuel t ≡ ok (keep (contains start stop) (entries shape))
  unfolding range
  range-eq-keep start stop fuel t n shape e l o h = rw (delayed_some t n e) (
      collect-eq-kept t.node_db start stop fuel (n ∷ []) (shape ∷ []) (cons l o nil) (omega arith)
      ∙ rw (append-nil (entries shape)) refl)

  -- A scan of an empty tree yields nothing, given two units of fuel.
  pub range_empty :
      (start stop : Bound) (fuel : ℕ) (t : Tree S)
      → t.root ≡ none
      → 2 ≤ fuel
      → range start stop fuel t ≡ ok []
  unfolding range keep
  range_empty start stop fuel t e h =
      rw (delayed_none t e) (collect-eq-kept t.node_db start stop fuel [] [] nil (omega arith))

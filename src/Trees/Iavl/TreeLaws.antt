-- ===== src/Trees/Iavl/TreeLaws.antt =====
-- `Tree::get`, `Tree::set` and the whole of a sorted block cache.
use mathlib.Core.List.{append_assoc, append-nil}
use doge_sdk.Base.{
  length-append, All-append_right, ℕ, ◌+◌, ◌^◌, ◌<◌, ◌≡◌, refl, ap, ◌∙◌, none, some, [], ◌∷◌, ◌++◌,
  arith, length,
}
use doge_sdk.Base.Bytes.{Bytes, ◌≺◌}
use doge_sdk.Base.BTreeMap.{BTreeMap, Below, IsSorted}
use doge_sdk.Database.Record.{Database}
use doge_sdk.Trees.External.{External}
use doge_sdk.Trees.Outcome.{Outcome, ok, ◌>>=◌}
use doge_sdk.Trees.Iavl.Node.{Node, loaded}
use doge_sdk.Trees.Iavl.Rotate.{load}
use doge_sdk.Trees.Iavl.Set.{recursive_set}
use doge_sdk.Trees.Iavl.Shape.{Shape, leaf, entries, IsOrdered, Loads}
use doge_sdk.Trees.Iavl.Balance.{in_memory, leaves, IsCached, IsBalanced}
use doge_sdk.Trees.Iavl.Append.{Appended}
use doge_sdk.Trees.Iavl.Ascending.{recursive_set-Appended, depth-le}
use doge_sdk.Trees.Iavl.Tree.{Tree, set, next}

-- Writes the entries of a map one after the other.
unfoldable pub set_all :
    ⦃x : External⦄
    → {S : Type 0} → ⦃d : Database S⦄ → ℕ
    → Tree S
    → BTreeMap Bytes
    → Outcome (Tree S)
unfolding set
set_all fuel t [] = ok t
set_all fuel t ((k, v) ∷ rest) = do t' ← set fuel t k v; set_all fuel t' rest

module _ ⦃x : External⦄ where
  -- A balanced, ordered tree in memory whose cached fields are right and whose entries are `m`.
  pub record Fills (t : Shape) (m : BTreeMap Bytes) : Type 0 where
    pub cached : IsCached t
    pub balanced : IsBalanced t
    pub ordered : IsOrdered t
    pub contents : entries t ≡ m
    pub counted : leaves t ≡ length m

IsSorted-Below : (k v : Bytes) (m rest : BTreeMap Bytes) → IsSorted (m ++ (k, v) ∷ rest) → Below k m
IsSorted-Below k v [] rest s = tt
IsSorted-Below k v (e ∷ m) rest s =
    ((All-append_right (λ y. e.0 ≺ y.0) m ((k, v) ∷ rest) s.0).0, IsSorted-Below k v m rest s.1)

module _ ⦃x : External⦄ where
  Fills-Appended :
      (shape shape' : Shape) (m : BTreeMap Bytes) (k v : Bytes)
      → Fills shape m
      → Appended shape shape' k v
      → Fills shape' (m ++ (k, v) ∷ [])
  Fills-Appended shape shape' m k v f a = record {
    cached = a.cached;
    balanced = a.balanced;
    ordered = a.ordered;
    contents = a.contents ∙ ap (λ s. s ++ (k, v) ∷ []) f.contents;
    counted = omega (arith, a.counted, f.counted, length-append m ((k, v) ∷ []));
  }

module _ ⦃x : External⦄ {S : Type 0} ⦃d : Database S⦄ where
  pub Loads-in_memory : (db : S) (t : Shape) → Loads db (in_memory t) t
  Loads-in_memory db (Shape.leaf k v ver) = Loads.leaf k v ver
  Loads-in_memory db (Shape.node m l r) =
      let el : load db (loaded (in_memory l)) m.left_hash ≡ ok (in_memory l) =
        unfold load in refl in
      let er : load db (loaded (in_memory r)) m.right_hash ≡ ok (in_memory r) =
        unfold load in refl in
      Loads.inner (loaded (in_memory l)) (loaded (in_memory r)) m el er (Loads-in_memory db l)
        (Loads-in_memory db r)

  set-some :
      (fuel : ℕ) (t : Tree S) (k v : Bytes) (root root' : Node)
      → t.root ≡ some root
      → recursive_set t.node_db fuel root k v (next t.loaded_version) ≡ ok root'
      → set fuel t k v ≡ ok (record t { root = some root' })
  unfolding set
  set-some fuel t k v root root' e h = ground (arith, e, h)

  pub set-none :
      (fuel : ℕ) (t : Tree S) (k v : Bytes)
      → t.root ≡ none
      → set fuel t k v ≡ ok (record t { root = some (Node.leaf k v (next t.loaded_version)) })
  unfolding set
  set-none fuel t k v e = ground (arith, e)

  set_all_step :
      (fuel : ℕ) (t t' : Tree S) (k v : Bytes) (rest : BTreeMap Bytes)
      → set fuel t k v ≡ ok t'
      → set_all fuel t ((k, v) ∷ rest) ≡ set_all fuel t' rest
  unfolding set_all
  set_all_step fuel t t' k v rest e = rw (e, ◌>>=◌)

  set_all-from :
      (t : Tree S) (shape : Shape) (m rest : BTreeMap Bytes)
      → t.root ≡ some (in_memory shape)
      → Fills shape m
      → IsSorted (m ++ rest)
      → length m + length rest < 2 ^ 127
      → (t' : Tree S) × (shape' : Shape) × (set_all 255 t rest ≡ ok t')
        × (t'.root ≡ some (in_memory shape'))
        × Fills shape' (m ++ rest)
  set_all-from t shape m [] e f s h = (t, shape, unfold set_all in refl, e, rw append-nil f)
  set_all-from t shape m ((k, v) ∷ rest) e f s h =
      let below = IsSorted-Below k v m rest s in
      let few : leaves shape + 1 < 2 ^ 127 = omega (arith, f.counted) in
      let (shape', e', a) =
        recursive_set-Appended t.node_db 255 shape k v (next t.loaded_version) f.cached f.balanced
          f.ordered (rw f.contents below) few (depth-le shape f.cached f.balanced (omega arith)) in
      let t' = record t { root = some (in_memory shape') } in
      let split = append_assoc m ((k, v) ∷ []) rest in
      let (t2, shape2, e2, r2, f2) =
        set_all-from t' shape' (m ++ (k, v) ∷ []) rest refl (Fills-Appended shape shape' m k v f a)
          (rw split s) (omega (arith, length-append m ((k, v) ∷ []))) in
      (
        t2,
        shape2,
        set_all_step 255 t t' k v rest
              (set-some 255 t k v (in_memory shape) (in_memory shape') e e')
            ∙ e2,
        r2,
        rw split at f2,
      )

  -- Writing a non-empty sorted map of fewer than 2 ^ 127 entries into an empty tree, key by key in
  -- ascending order, returns with fuel 255, and leaves a balanced and ordered tree in memory with
  -- the entries of the map, whose cached heights, sizes and hashes agree with its children.
  pub set_all-Fills :
      (t : Tree S) (k v : Bytes) (rest : BTreeMap Bytes)
      → t.root ≡ none
      → IsSorted ((k, v) ∷ rest)
      → length rest + 1 < 2 ^ 127
      → (t' : Tree S) × (shape : Shape) × (set_all 255 t ((k, v) ∷ rest) ≡ ok t')
        × (t'.root ≡ some (in_memory shape))
        × Fills shape ((k, v) ∷ rest)
  set_all-Fills t k v rest e s h =
      let shape : Shape = leaf k v (next t.loaded_version) in
      let t' = record t { root = some (in_memory shape) } in
      let (t2, shape2, e2, r2, f2) =
        set_all-from t' shape ((k, v) ∷ []) rest refl
          (record { cached = tt; balanced = tt; ordered = tt; contents = refl; counted = refl }) s
          (omega arith) in
      (t2, shape2, set_all_step 255 t t' k v rest (set-none 255 t k v e) ∙ e2, r2, f2)

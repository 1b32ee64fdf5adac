-- ===== src/Trees/Iavl/Contents.antt =====
-- The map that a tree stands for, empty or not, and what `Tree::set` and `Tree::get` of
-- trees/src/iavl/tree.rs make of it.
use doge_sdk.Base.{ℕ, ◌≤◌, ◌≡◌, refl, sym, ◌∙◌, none, some, ◌⊎◌, inl, inr, []}
use std.Path.{subst}
use doge_sdk.Base.Bytes.{Bytes}
use doge_sdk.Base.BTreeMap
use doge_sdk.Base.BTreeMap.{BTreeMap, insert}
use doge_sdk.Database.Record.{Database}
use doge_sdk.Trees.External.{External}
use doge_sdk.Trees.Outcome.{ok, bind-eq-ok, ok-injective}
use doge_sdk.Trees.Iavl.Node.{Node}
use doge_sdk.Trees.Iavl.Set.{recursive_set}
use doge_sdk.Trees.Iavl.Shape.{Shape, depth, Loads, Holds}
use doge_sdk.Trees.Iavl.Get.{recursive_get-eq-get}
use doge_sdk.Trees.Iavl.SetLaws.{recursive_set-Holds}
use doge_sdk.Trees.Iavl.Tree.{Tree, next, get, set}
use doge_sdk.Trees.Iavl.TreeLaws.{set-none}

module _ ⦃x : External⦄ {S : Type 0} ⦃d : Database S⦄ where
  -- No tree stands for the empty map; a root, for the entries of the ordered tree that it loads.
  abbrev pub Represents : Tree S → BTreeMap Bytes → Type 0
  Represents t m =
      ((t.root ≡ none) × (m ≡ [])) ⊎ ((n : Node) × (t.root ≡ some n) × Holds t.node_db n m)

  -- What a write to a tree leaves.
  abbrev pub rootless : Tree S → Tree S
  rootless t = record t { root = none }

  pub set-Represents :
      (fuel : ℕ) (t t' : Tree S) (m : BTreeMap Bytes) (k v : Bytes)
      → Represents t m
      → set fuel t k v ≡ ok t'
      → Represents t' (insert k v m) × (rootless t' ≡ rootless t)
  unfolding set insert
  set-Represents fuel t t' m k v (inl (e, z)) h =
      let same = ok-injective (sym (set-none fuel t k v e) ∙ h) in
      subst (λ u. Represents u (insert k v m) × (rootless u ≡ rootless t)) same
        (
          inr (_, refl, (Shape.leaf k v (next t.loaded_version), Loads.leaf k v _, tt, rw z refl)),
          refl,
        )
  set-Represents fuel t t' m k v (inr (n, e, (shape, l, o, c))) h =
      let (n', e1, h1) =
        bind-eq-ok (recursive_set t.node_db fuel n k v (next t.loaded_version))
          (λ root'. ok (record t { root = some root' })) (rw e at h) in
      subst (λ u. Represents u (insert k v m) × (rootless u ≡ rootless t)) (ok-injective h1)
        (
          inr (n', refl, rw (← c) (recursive_set-Holds t.node_db fuel n n' shape k v _ l o e1)),
          refl,
        )

  -- A read of the tree with enough fuel returns what the map holds.
  pub get-Represents :
      (t : Tree S) (m : BTreeMap Bytes)
      → Represents t m
      → (levels : ℕ) × ((enough : ℕ) (key : Bytes)
          → levels ≤ enough
          → get enough t key ≡ ok (BTreeMap.get key m))
  unfolding get BTreeMap.get
  get-Represents t m (inl (e, z)) = (0, λ enough key le. rw (e, z) refl)
  get-Represents t m (inr (n, e, (shape, l, o, c))) = (
    depth shape,
    λ enough key le. rw (e, ← c) (recursive_get-eq-get t.node_db enough n shape key l o le),
  )

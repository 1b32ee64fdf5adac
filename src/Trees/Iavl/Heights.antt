-- ===== src/Trees/Iavl/Heights.antt =====
-- The height in a `u8` and the size in a `u32` that the writes of an ascending map leave at the root.
use doge_sdk.Base.{◌+◌, ◌%◌, ◌^◌, ◌≤◌, ◌<◌, ◌≡◌, ap, ◌∙◌, none, some, ◌∷◌, length, arith}
use doge_sdk.Base.Bytes.{Bytes}
use doge_sdk.Base.BTreeMap.{BTreeMap, IsSorted}
use doge_sdk.Database.Record.{Database}
use doge_sdk.Trees.External.{External}
use doge_sdk.Trees.Outcome.{ok}
use doge_sdk.Trees.Iavl.Node.{Node, get_height, get_size}
use doge_sdk.Trees.Iavl.Rotate.{joined_size}
use doge_sdk.Trees.Iavl.Shape.{Shape, leaf, node, depth, entries, Loads}
use doge_sdk.Trees.Iavl.Balance.{
  in_memory, leaves, IsCached, pow_half, height-lt, get_height-in_memory,
}
use doge_sdk.Trees.Iavl.Ascending.{depth-eq-height}
use doge_sdk.Trees.Iavl.Tree.{Tree}
use doge_sdk.Trees.Iavl.TreeLaws.{set_all, set_all-Fills, Loads-in_memory}

-- The size that is cached wraps in a `u32`.
get_size-in_memory :
    ⦃x : External⦄ → (t : Shape) → IsCached t → get_size (in_memory t) ≡ leaves t % 2 ^ 32
unfolding get_size joined_size
get_size-in_memory (leaf key value version) c = omega arith
get_size-in_memory (node m l r) c =
    omega (arith, c.1, get_size-in_memory l c.4, get_size-in_memory r c.5)

module _ ⦃x : External⦄ {S : Type 0} ⦃d : Database S⦄ where
  -- Writing a non-empty sorted map of fewer than 2 ^ 127 entries into an empty tree, key by key in
  -- ascending order, returns with fuel 255. The height that the root holds is the number of levels
  -- of the tree below it, so the `u8` has not wrapped, and a tree of height h has at least
  -- 2 ^ (h / 2) entries; the size that it holds is the number of entries modulo 2 ^ 32.
  pub set_all-height :
      (t : Tree S) (k v : Bytes) (rest : BTreeMap Bytes)
      → t.root ≡ none
      → IsSorted ((k, v) ∷ rest)
      → length rest + 1 < 2 ^ 127
      → (t' : Tree S) × (n : Node) × (shape : Shape) × (set_all 255 t ((k, v) ∷ rest) ≡ ok t')
        × (t'.root ≡ some n)
        × Loads t'.node_db n shape
        × (entries shape ≡ (k, v) ∷ rest)
        × (get_height n + 1 ≡ depth shape)
        × (get_height n < 255)
        × (pow_half (get_height n) ≤ length rest + 1)
        × (get_size n ≡ (length rest + 1) % 2 ^ 32)
  set_all-height t k v rest e s h =
      let (t', shape, e', r, f) = set_all-Fills t k v rest e s h in
      let few : leaves shape < 2 ^ 127 = omega (arith, f.counted) in
      let (full, low) = height-lt shape f.cached f.balanced few in
      let cached = get_height-in_memory shape in
      (
        t',
        in_memory shape,
        shape,
        e',
        r,
        Loads-in_memory t'.node_db shape,
        f.contents,
        omega (arith, cached, depth-eq-height shape f.cached f.balanced few),
        omega (arith, cached, low),
        rw cached (omega (arith, full, f.counted)),
        get_size-in_memory shape f.cached ∙ ap (λ c. c % 2 ^ 32) (f.counted ∙ omega arith),
      )

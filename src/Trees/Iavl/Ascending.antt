-- ===== src/Trees/Iavl/Ascending.antt =====
-- Writing one key above all others, and then a whole ascending list of keys, as
-- `write_then_clear_block_cache` does.
use doge_sdk.Base.{
  ℕ, zero, suc, ◌+◌, ◌^◌, ◌≤◌, ◌<◌, ◌≡◌, refl, ap, ◌∙◌, false, inl, inr, arith, All-append_right,
}
use doge_sdk.Base.Bytes.{Bytes, ◌≺◌, lt_bytes, gt_of_lt, lt_bytes_above, le_refl}
use doge_sdk.Base.BTreeMap.{Below}
use doge_sdk.Database.Record.{Database}
use doge_sdk.Trees.External.{External}
use doge_sdk.Trees.Outcome.{ok, ◌>>=◌}
use doge_sdk.Trees.Iavl.Node.{Node, loaded, hash, get_height, get_size}
use doge_sdk.Trees.Iavl.Rotate.{load, joined_height, joined_size}
use doge_sdk.Trees.Iavl.RotateLaws.{lt_of_bounds}
use doge_sdk.Trees.Iavl.Set.{recursive_set, set_leaf, update_inner}
use doge_sdk.Trees.Iavl.SetLaws.{recursive_set_right}
use doge_sdk.Trees.Iavl.Shape.{Shape, leaf, node, entries, depth, IsOrdered}
use doge_sdk.Trees.Iavl.Balance.{
  in_memory, height, leaves, IsCached, IsBalanced, height-lt, height-joined,
}
use doge_sdk.Trees.Iavl.Append.{Appended}
use doge_sdk.Trees.Iavl.AppendTurn.{append_update}

module _ ⦃x : External⦄ where
  append_leaf :
      (k v : Bytes) (w : ℕ) (key value : Bytes) (ver : ℕ)
      → k ≺ key
      → (t' : Shape) × (set_leaf k v w key value ver ≡ in_memory t')
        × Appended (leaf k v w) t' key value
  unfolding set_leaf joined_height joined_size get_height get_size
  append_leaf k v w key value ver h = (
    node
        (record {
          key = key;
          height = 1;
          size = 2;
          left_hash = hash (Node.leaf k v w);
          right_hash = hash (Node.leaf key value ver);
          version = ver;
        })
        (leaf k v w) (leaf key value ver),
    rw (gt_of_lt k key h, set_leaf),
    record {
      cached = (refl, refl, refl, refl, tt, tt);
      balanced = (omega arith, omega arith, tt, tt);
      ordered = ((h, tt), (le_refl key, tt), tt, tt);
      contents = refl;
      counted = refl;
      grown = inr (refl, inl refl);
    },
  )

  -- The height counts the levels below the root.
  pub depth-eq-height :
      (t : Shape) → IsCached t → IsBalanced t → leaves t < 2 ^ 127 → depth t ≡ suc (height t)
  depth-eq-height (leaf key value version) c b h = refl
  depth-eq-height (node m l r) c b h =
      let hl = (height-lt l c.4 b.2 (omega arith)).1 in
      let hr = (height-lt r c.5 b.3 (omega arith)).1 in
      omega (
        arith,
        depth-eq-height l c.4 b.2 (omega arith),
        depth-eq-height r c.5 b.3 (omega arith),
        c.0 ∙ height-joined l r hl hr,
      )

  pub depth-le : (t : Shape) → IsCached t → IsBalanced t → leaves t < 2 ^ 127 → depth t ≤ 255
  depth-le t c b h = omega (arith, depth-eq-height t c b h, (height-lt t c b h).1)

module _ ⦃x : External⦄ {S : Type 0} ⦃d : Database S⦄ (db : S) where
  -- A write of a key above all keys of a balanced and ordered tree in memory, whose cached heights,
  -- sizes and hashes agree with its children and which has fewer than 2 ^ 127 - 1 leaves, returns
  -- if there is a unit of fuel for each level. The tree that it leaves is again balanced, ordered
  -- and in memory, its cached fields agree with its children, and its entries are the old ones with
  -- the new one at the end.
  pub recursive_set-Appended :
      (fuel : ℕ) (t : Shape) (key value : Bytes) (ver : ℕ)
      → IsCached t
      → IsBalanced t
      → IsOrdered t
      → Below key (entries t)
      → leaves t + 1 < 2 ^ 127
      → depth t ≤ fuel
      → (t' : Shape) × (recursive_set db fuel (in_memory t) key value ver ≡ ok (in_memory t'))
        × Appended t t' key value
  recursive_set-Appended zero (leaf k v w) key value ver c b o h n f = absurd (omega arith)
  recursive_set-Appended zero (node m l r) key value ver c b o h n f = absurd (omega arith)
  recursive_set-Appended (suc fuel) (leaf k v w) key value ver c b o h n f =
      let (t', e, a) = append_leaf k v w key value ver h.0 in
      (t', unfold recursive_set in ap ok e, a)
  recursive_set-Appended (suc fuel) (node m l r) key value ver c b o h n f =
      let low = All-append_right (λ e. e.0 ≺ key) (entries l) (entries r) h in
      let below = lt_of_bounds r m.key key o.1 low in
      let (r', e, a) =
        recursive_set-Appended fuel r key value ver c.5 b.3 o.3 low (omega arith) (omega arith) in
      let (t', e', a') =
        append_update db key value ver m l r r' below c b o (omega (arith, a.counted)) a in
      let right : lt_bytes key m.key ≡ false = lt_bytes_above m.key key below in
      (
        t',
        recursive_set_right db fuel (loaded (in_memory l)) (loaded (in_memory r)) m key value ver
              {n = in_memory r} (unfold load in refl) right
            ∙ ap
                (λ o. o >>= λ n'.
                  update_inner db key ver (loaded (in_memory l)) (loaded n')
                    (record m { right_hash = hash n' }))
                e
            ∙ e',
        a',
      )

-- ===== src/Trees/Iavl/AppendTurn.antt =====
-- The rotation after a write of a key above all others.
use doge_sdk.Base.{◌^◌, ℕ, suc, ◌+◌, ◌≤◌, ◌<◌, ◌≡◌, inl, inr, refl, ap, ◌∙◌, max, arith}
use mathlib.Core.List.{append_assoc}
use doge_sdk.Base.Bytes.{Bytes, ◌≺◌}
use doge_sdk.Database.Record.{Database}
use doge_sdk.Trees.External.{External}
use doge_sdk.Trees.Outcome.{ok, expect_ok}
use doge_sdk.Trees.Iavl.Node.{InnerFields, hash}
use doge_sdk.Trees.Iavl.Rotate.{load, left_rotate, lower_left, upper_left}
use doge_sdk.Trees.Iavl.Set.{refreshed}
use doge_sdk.Trees.Iavl.RotateLaws.{IsOrdered-left}
use doge_sdk.Trees.Iavl.UpdateLaws.{
  update_inner-eq-rebalance, rebalance_still, rebalance_right_heavy,
}
use doge_sdk.Trees.Iavl.Set.{update_inner, rebalance_right}
use doge_sdk.Trees.Iavl.Balance.{height-lt, lt-cases, get_height-in_memory}
use doge_sdk.Trees.Iavl.Node.{loaded, get_height, Node, Child, get_key}
use doge_sdk.Trees.Iavl.Shape.{Shape, leaf, node, entries, IsOrdered}
use doge_sdk.Trees.Iavl.Balance.{in_memory, height, leaves, IsCached, IsBalanced, height-joined}
use doge_sdk.Trees.Iavl.Append.{
  Grown, height-Grown, Appended, left_rotate-in_memory, height-node, IsOrdered-Appended,
  contents-Appended, append_still,
}

module _ ⦃x : External⦄ {S : Type 0} ⦃d : Database S⦄ (db : S) where
  -- The right side is two levels higher than the left one: one rotation to the left.
  append_rotated :
      (key value : Bytes) (ver : ℕ) (m m1 y : InnerFields) (l r b c : Shape)
      → m1.key ≡ m.key
      → m1.left_hash ≡ m.left_hash
      → m.key ≺ key
      → IsCached (node m l r)
      → IsBalanced (node m l r)
      → IsOrdered (node m l r)
      → height l < 255
      → height r < 255
      → height b < 255
      → height c < 255
      → height l < 254
      → Appended r (node y b c) key value
      → height c ≡ height b + 1
      → y.height ≡ height l + 2
      → let zf = lower_left m1 y ver (in_memory l) (in_memory b) in
        Appended
          (node m l r)
          (node (upper_left y ver (in_memory (node zf l b)) (in_memory c)) (node zf l b) c)
          key
          value
  unfolding lower_left upper_left
  append_rotated key value ver m m1 y l r b c ek el below ca ba o hl hr hb hc hl' a hcb hy =
      let zf = lower_left m1 y ver (in_memory l) (in_memory b) in
      let yf = upper_left y ver (in_memory (node zf l b)) (in_memory c) in
      let ey : y.height ≡ suc (max (height b) (height c)) = height-node db y b c a.cached hb hc in
      let ez : zf.height ≡ suc (max (height l) (height b)) = height-joined l b hl hb in
      let hz : height (node zf l b) < 255 = omega arith in
      let et : yf.height ≡ suc (max zf.height (height c)) = height-joined (node zf l b) c hz hc in
      let em : m.height ≡ suc (max (height l) (height r)) = height-node db m l r ca hl hr in
      let g = height-Grown key r (node y b c) a.grown in
      record {
        cached = (
          refl,
          refl,
          refl,
          a.cached.3,
          (refl, refl, el ∙ ca.2, a.cached.2, ca.4, a.cached.4),
          a.cached.5,
        );
        balanced = (
          omega arith,
          omega arith,
          (omega arith, omega arith, ba.2, a.balanced.2),
          a.balanced.3,
        );
        ordered =
            IsOrdered-left m y zf yf l b c ek refl
              (IsOrdered-Appended db m m l r (node y b c) key value refl below o a);
        contents =
            append_assoc (entries l) (entries b) (entries c)
            ∙ contents-Appended db l r (node y b c) key value a;
        counted = omega (arith, a.counted);
        grown = inl (omega arith);
      }

  rebalance_right_above :
      (key : Bytes) (ver : ℕ) (l : Child) (m : InnerFields) (n : Node)
      → get_key n ≺ key
      → rebalance_right db key ver l m n
        ≡ expect_ok (left_rotate db ver (Node.inner l (loaded n) m))
  unfolding rebalance_right
  rebalance_right_above key ver l m n h = ground (arith, h)

  -- A new right side that is too high is a node that leans to the right, below the key.
  lean :
      (key : Bytes) (y : InnerFields) (l r p q : Shape)
      → Grown key r (node y p q)
      → height r ≤ height l + 1
      → height l + 1 < y.height
      → (y.key ≺ key) × (height q ≡ height p + 1) × (y.height ≡ height l + 2)
  lean key y l r p q (inl e) b h = absurd (omega arith)
  lean key y l r p q (inr (e, inl z)) b h = absurd (omega arith)
  lean key y l r p q (inr (e, inr (k, w))) b h = (k, w, omega arith)

  -- The update of a node whose right side is too high and leans to the right.
  update_rotated :
      (key : Bytes) (ver : ℕ) (m m1 y : InnerFields) (l p q : Shape)
      → y.key ≺ key
      → height l + 1 < y.height
      → let m2 = refreshed m1 ver (in_memory l) (in_memory (node y p q)) in
        let zf = lower_left m2 y ver (in_memory l) (in_memory p) in
        update_inner db key ver (loaded (in_memory l)) (loaded (in_memory (node y p q))) m1
        ≡ ok (
            in_memory
              (node (upper_left y ver (in_memory (node zf l p)) (in_memory q)) (node zf l p) q))
  update_rotated key ver m m1 y l p q below h =
      let nl = in_memory l in
      let ny = in_memory (node y p q) in
      let m2 = refreshed m1 ver nl ny in
      let high : get_height nl + 1 < get_height ny =
        unfold get_height in omega (arith, get_height-in_memory l) in
      update_inner-eq-rebalance db key ver (loaded nl) (loaded ny) m1 nl ny (unfold load in refl)
        (unfold load in refl)
      ∙ rebalance_right_heavy db key ver (get_height nl) (get_height ny) (loaded nl) (loaded ny) m2
          nl ny high
      ∙ rebalance_right_above key ver (loaded nl) m2 ny (unfold get_key in below)
      ∙ ap expect_ok (left_rotate-in_memory db ver m2 y l p q)

  append_turn :
      (key value : Bytes) (ver : ℕ) (m : InnerFields) (l r r' : Shape)
      → m.key ≺ key
      → IsCached (node m l r)
      → IsBalanced (node m l r)
      → IsOrdered (node m l r)
      → leaves l + leaves r' < 2 ^ 127
      → height l < 255
      → height r < 255
      → Appended r r' key value
      → height l + 1 < height r'
      → (t' : Shape) × (update_inner db key ver
            (loaded (in_memory l))
            (loaded (in_memory r'))
            (record m { right_hash = hash (in_memory r') })
          ≡ ok (in_memory t'))
        × Appended (node m l r) t' key value
  append_turn key value ver m l r (leaf k v w) below c b o h hl hr a lt = absurd (omega arith)
  append_turn key value ver m l r (node y p q) below c b o h hl hr a lt =
      let m1 = record m { right_hash = hash (in_memory (node y p q)) } in
      let m2 = refreshed m1 ver (in_memory l) (in_memory (node y p q)) in
      let (ky, hq, hy) = lean key y l r p q a.grown b.1 lt in
      let hp' = (height-lt p a.cached.4 a.balanced.2 (omega arith)).1 in
      let hq' = (height-lt q a.cached.5 a.balanced.3 (omega arith)).1 in
      let hy' = (height-lt (node y p q) a.cached a.balanced (omega arith)).1 in
      (
        _,
        update_rotated key ver m m1 y l p q ky lt,
        append_rotated key value ver m m2 y l r p q (unfold refreshed in refl)
            (unfold refreshed in refl) below c b o hl hr hp' hq' (omega arith) a hq hy,
      )

  -- The rest of the write at a node whose right side has been written.
  pub append_update :
      (key value : Bytes) (ver : ℕ) (m : InnerFields) (l r r' : Shape)
      → m.key ≺ key
      → IsCached (node m l r)
      → IsBalanced (node m l r)
      → IsOrdered (node m l r)
      → leaves l + leaves r' < 2 ^ 127
      → Appended r r' key value
      → (t' : Shape) × (update_inner db key ver
            (loaded (in_memory l))
            (loaded (in_memory r'))
            (record m { right_hash = hash (in_memory r') })
          ≡ ok (in_memory t'))
        × Appended (node m l r) t' key value
  append_update key value ver m l r r' below c b o h a =
      let m1 = record m { right_hash = hash (in_memory r') } in
      let hl = (height-lt l c.4 b.2 (omega arith)).1 in
      let hr = (height-lt r c.5 b.3 (omega (arith, a.counted))).1 in
      let hr' = (height-lt r' a.cached a.balanced (omega arith)).1 in
      let gl = get_height-in_memory l in
      let gr = get_height-in_memory r' in
      let g = height-Grown key r r' a.grown in
      let start =
        update_inner-eq-rebalance db key ver (loaded (in_memory l)) (loaded (in_memory r')) m1
          (in_memory l) (in_memory r') (unfold load in refl) (unfold load in refl) in
      let m2 = refreshed m1 ver (in_memory l) (in_memory r') in
      elim (lt-cases (height r') (height l + 1)) [
        | inl le ↦ (
          node m2 l r',
          start
              ∙ rebalance_still db key ver (get_height (in_memory l)) (get_height (in_memory r'))
                  (loaded (in_memory l)) (loaded (in_memory r')) m2 (in_memory l) (in_memory r')
                  (omega arith) (omega arith),
          append_still db key value ver m m1 l r r' refl refl refl below c b o hl hr hr' a le,
        )
        | inr lt ↦ append_turn key value ver m l r r' below c b o h hl hr a lt
      ]

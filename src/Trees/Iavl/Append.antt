-- ===== src/Trees/Iavl/Append.antt =====
-- Writing a key above all others into a balanced tree in memory. The block cache is written in
-- ascending order of keys, so this is how a tree that starts empty is filled.
use doge_sdk.Base.{
  All-append, ℕ, suc, ◌+◌, ◌≤◌, ◌<◌, ◌≡◌, ◌⊎◌, inl, inr, refl, sym, ap, ◌∙◌, max, [], ◌∷◌, ◌++◌,
  arith,
}
use mathlib.Core.List.{append_assoc}
use doge_sdk.Base.Bytes.{Bytes, ◌≺◌, ◌≼◌, le_of_lt}
use doge_sdk.Database.Record.{Database}
use doge_sdk.Trees.External.{External}
use doge_sdk.Trees.Outcome.{ok}
use doge_sdk.Trees.Iavl.Node.{InnerFields, hash}
use doge_sdk.Trees.Iavl.Rotate.{left_rotate, lower_left, upper_left}
use doge_sdk.Trees.Iavl.Set.{refreshed}
use doge_sdk.Trees.Iavl.Shape.{Shape, leaf, node, entries, IsOrdered}
use doge_sdk.Trees.Iavl.Balance.{in_memory, height, leaves, IsCached, IsBalanced, height-joined}

-- The root's key is below `key`, and its right side is the higher one.
abbrev pub RightHeavy : Bytes → Shape → Type 0
RightHeavy key (leaf k v ver) = ⊥
RightHeavy key (node m l r) = (m.key ≺ key) × (height r ≡ height l + 1)

-- The tree is as high as before, or one higher; then it was a leaf or leans to the right.
abbrev pub Grown : Bytes → Shape → Shape → Type 0
Grown key t t' =
    (height t' ≡ height t) ⊎ ((height t' ≡ suc (height t)) × ((height t ≡ 0) ⊎ RightHeavy key t'))

pub height-Grown :
    (key : Bytes) (t t' : Shape)
    → Grown key t t'
    → (height t' ≡ height t) ⊎ (height t' ≡ suc (height t))
height-Grown key t t' (inl e) = inl e
height-Grown key t t' (inr (e, w)) = inr e

pub max_cases :
    (l r r' : ℕ)
    → (r' ≡ r) ⊎ (r' ≡ suc r)
    → r' ≤ l + 1
    → (max l r' ≡ max l r) ⊎ ((max l r' ≡ suc (max l r)) × (r' ≡ l + 1))
max_cases l r r' g h = grind arith

module _ ⦃x : External⦄ where
  -- What the written tree is.
  pub record Appended (t t' : Shape) (key value : Bytes) : Type 0 where
    pub cached : IsCached t'
    pub balanced : IsBalanced t'
    pub ordered : IsOrdered t'
    pub contents : entries t' ≡ entries t ++ (key, value) ∷ []
    pub counted : leaves t' ≡ leaves t + 1
    pub grown : Grown key t t'

module _ ⦃x : External⦄ {S : Type 0} ⦃d : Database S⦄ (db : S) where
  pub left_rotate-in_memory :
      (ver : ℕ) (z y : InnerFields) (a b c : Shape)
      → let zf = lower_left z y ver (in_memory a) (in_memory b) in
        left_rotate db ver (in_memory (node z a (node y b c)))
        ≡ ok (
            in_memory
              (node (upper_left y ver (in_memory (node zf a b)) (in_memory c)) (node zf a b) c))
  unfolding left_rotate
  left_rotate-in_memory ver z y a b c = refl

  pub height-node :
      (m : InnerFields) (l r : Shape)
      → IsCached (node m l r)
      → height l < 255
      → height r < 255
      → m.height ≡ suc (max (height l) (height r))
  height-node m l r c hl hr = c.0 ∙ height-joined l r hl hr

  -- The order of a node whose right side has a greater key added at its end.
  pub IsOrdered-Appended :
      (m m' : InnerFields) (l r r' : Shape) (key value : Bytes)
      → m'.key ≡ m.key
      → m.key ≺ key
      → IsOrdered (node m l r)
      → Appended r r' key value
      → IsOrdered (node m' l r')
  IsOrdered-Appended m m' l r r' key value e below o a = rw e (
    o.0,
    rw a.contents (
        All-append (λ x. m.key ≼ x.0) (entries r) ((key, value) ∷ []) o.1
          (le_of_lt m.key key below, tt)),
    o.2,
    a.ordered,
  )

  pub contents-Appended :
      (l r r' : Shape) (key value : Bytes)
      → Appended r r' key value
      → entries l ++ entries r' ≡ (entries l ++ entries r) ++ (key, value) ∷ []
  contents-Appended l r r' key value a =
      ap (λ s. entries l ++ s) a.contents
      ∙ sym (append_assoc (entries l) (entries r) ((key, value) ∷ []))

  -- The new right side is no more than one level higher than the left one: no rotation.
  pub append_still :
      (key value : Bytes) (ver : ℕ) (m m1 : InnerFields) (l r r' : Shape)
      → m1.key ≡ m.key
      → m1.left_hash ≡ m.left_hash
      → m1.right_hash ≡ hash (in_memory r')
      → m.key ≺ key
      → IsCached (node m l r)
      → IsBalanced (node m l r)
      → IsOrdered (node m l r)
      → height l < 255
      → height r < 255
      → height r' < 255
      → Appended r r' key value
      → height r' ≤ height l + 1
      → Appended (node m l r) (node (refreshed m1 ver (in_memory l) (in_memory r')) l r') key value
  unfolding refreshed
  append_still key value ver m m1 l r r' ek el er below c b o hl hr hr' a h = record {
    cached = (refl, refl, el ∙ c.2, er, c.4, a.cached);
    balanced = (ground (arith, a.grown), h, b.2, a.balanced);
    ordered =
        IsOrdered-Appended m (refreshed m1 ver (in_memory l) (in_memory r')) l r r' key value ek
          below o a;
    contents = contents-Appended l r r' key value a;
    counted = omega (arith, a.counted);
    grown = elim (max_cases (height l) (height r) (height r') (height-Grown key r r' a.grown) h) [
      | inl e ↦ inl (height-joined l r' hl hr' ∙ ap suc e ∙ sym (height-node m l r c hl hr))
      | inr (e, f) ↦ inr (
        height-joined l r' hl hr' ∙ ap suc (e ∙ sym (height-node m l r c hl hr)),
        inr (rw ek below, f),
      )
    ];
  }

-- ===== src/Trees/Iavl/SetLaws.antt =====
-- What `recursive_set` makes of the entries, whichever rotations it goes through.
use mathlib.Core.Path.{subst}
use doge_sdk.Base.{ℕ, zero, suc, ◌≡◌, refl, sym, ◌∙◌, true, false, inl, inr, Bool-cases, [], ◌∷◌}
use doge_sdk.Base.Bytes.{Bytes, ◌≺◌, ◌≼◌, lt_bytes, lt_bytes→lt, ge_of_not_lt}
use doge_sdk.Base.BTreeMap.{insert, All-insert, insert-append_left, insert-append_right}
use doge_sdk.Database.Record.{Database}
use doge_sdk.Trees.External.{External}
use doge_sdk.Trees.Outcome.{◌>>=◌, ok, bind-eq-ok, ok-injective}
use doge_sdk.Trees.Iavl.Node.{Node, Child, loaded, InnerFields, hash}
use doge_sdk.Trees.Iavl.Rotate.{load}
use doge_sdk.Trees.Iavl.Set.{set_leaf, update_inner, recursive_set}
use doge_sdk.Trees.Iavl.Shape.{Shape, entries, IsOrdered, Loads, inner, Holds}
use doge_sdk.Trees.Iavl.Get.{Above-right, Below-left}
use doge_sdk.Trees.Iavl.UpdateLaws.{set_leaf-Holds, update_inner-Holds}

module _ ⦃x : External⦄ {S : Type 0} ⦃d : Database S⦄ (db : S) where
  pub recursive_set_left :
      (fuel : ℕ) (l r : Child) (m : InnerFields) (key value : Bytes) (ver : ℕ) {n : Node}
      → load db l m.left_hash ≡ ok n
      → lt_bytes key m.key ≡ true
      → recursive_set db (suc fuel) (Node.inner l r m) key value ver ≡ (do
        n' ← recursive_set db fuel n key value ver
        update_inner db key ver (loaded n') r (record m { left_hash = hash n' }))
  unfolding recursive_set
  recursive_set_left fuel l r m key value ver e h = rw (h, recursive_set, e)

  pub recursive_set_right :
      (fuel : ℕ) (l r : Child) (m : InnerFields) (key value : Bytes) (ver : ℕ) {n : Node}
      → load db r m.right_hash ≡ ok n
      → lt_bytes key m.key ≡ false
      → recursive_set db (suc fuel) (Node.inner l r m) key value ver ≡ (do
        n' ← recursive_set db fuel n key value ver
        update_inner db key ver l (loaded n') (record m { right_hash = hash n' }))
  unfolding recursive_set
  recursive_set_right fuel l r m key value ver e h = rw (h, recursive_set, e)

  -- A write to a node that stands for an ordered tree: if it returns, it has put the key and the
  -- value among the entries, and has kept the order, whichever rotations it went through.
  pub recursive_set-Holds :
      (fuel : ℕ) (n n' : Node) (t : Shape) (key value : Bytes) (ver : ℕ)
      → Loads db n t
      → IsOrdered t
      → recursive_set db fuel n key value ver ≡ ok n'
      → Holds db n' (insert key value (entries t))
  recursive_set-Holds zero n n' t key value ver l o h = unfold recursive_set in cc
  recursive_set-Holds (suc fuel) n n' t key value ver (Loads.leaf k v w) o h =
      let same : set_leaf k v w key value ver ≡ n' = ok-injective (unfold recursive_set in h) in
      subst (λ n. Holds db n (insert key value ((k, v) ∷ []))) same
        (set_leaf-Holds db k v w key value ver)
  recursive_set-Holds (suc fuel) n n' t key value ver (inner l r m {nl} {nr} {tl} {tr} el er hl hr)
        o h =
      elim (Bool-cases (lt_bytes key m.key)) [
        | inl below ↦
            let (n1, e1, h1) =
              bind-eq-ok (recursive_set db fuel nl key value ver) _
                (sym (recursive_set_left fuel l r m key value ver el below) ∙ h) in
            let (t1, l1, o1, s1) = recursive_set-Holds fuel nl n1 tl key value ver hl o.2 e1 in
            let lt = lt_bytes→lt key m.key below in
            let m1 = record m { left_hash = hash n1 } in
            let result =
              update_inner-Holds db key ver (loaded n1) r m1 n1 nr n' t1 tr (unfold load in refl) er
                l1 hr
                (rw s1 (All-insert (λ e. e.0 ≺ m.key) key value (entries tl) lt o.0), o.1, o1, o.3)
                h1 in
            rw
              (
                insert-append_left key value (entries tl) (entries tr)
                    (Above-right key m.key (entries tr) lt o.1),
                ← s1,
              )
              result
        | inr other ↦
            let (n1, e1, h1) =
              bind-eq-ok (recursive_set db fuel nr key value ver) _
                (sym (recursive_set_right fuel l r m key value ver er other) ∙ h) in
            let (t1, l1, o1, s1) = recursive_set-Holds fuel nr n1 tr key value ver hr o.3 e1 in
            let ge = ge_of_not_lt key m.key other in
            let m1 = record m { right_hash = hash n1 } in
            let result =
              update_inner-Holds db key ver l (loaded n1) m1 nl n1 n' tl t1 el (unfold load in refl)
                hl l1
                (o.0, rw s1 (All-insert (λ e. m.key ≼ e.0) key value (entries tr) ge o.1), o.2, o1)
                h1 in
            rw
              (
                insert-append_right key value (entries tl) (entries tr)
                    (Below-left key m.key (entries tl) ge o.0),
                ← s1,
              )
              result
      ]

-- ===== src/Trees/Iavl/UpdateLaws.antt =====
-- What `set_leaf` and `update_inner` make of the entries, whichever rotation they do.
use mathlib.Core.Path.{subst}
use doge_sdk.Base.{
  ◌+◌, ◌<◌, ◌≤◌, ℕ, ◌≡◌, refl, sym, ap, ◌∙◌, inl, inr, Bool-cases, Ordering-cases, [], ◌∷◌, ◌++◌,
  arith,
}
use doge_sdk.Base.Bytes.{Bytes, cmp, lt_bytes, eq_of_cmp, lt_of_gt, le_refl}
use doge_sdk.Base.BTreeMap.{insert}
use doge_sdk.Base.Int.{sub_ℕ, gt_one, lt_neg_one}
use doge_sdk.Database.Record.{Database}
use doge_sdk.Trees.External.{External}
use doge_sdk.Trees.Outcome.{ok, bind-eq-ok, expect_ok, expect_ok-eq-ok}
use doge_sdk.Trees.Iavl.Node.{get_height, Node, Child, loaded, InnerFields, get_key}
use doge_sdk.Trees.Iavl.Rotate.{load, right_rotate, left_rotate}
use doge_sdk.Trees.Iavl.RotateLaws.{right_rotate-Holds, left_rotate-Holds}
use doge_sdk.Trees.Iavl.Set.{
  set_leaf, rebalance_left, rebalance_right, update_inner, rebalance, refreshed,
}
use doge_sdk.Trees.Iavl.Shape.{Shape, node, entries, IsOrdered, Loads, inner, Holds}

module _ ⦃x : External⦄ {S : Type 0} ⦃d : Database S⦄ (db : S) where
  pub set_leaf-Holds :
      (k v : Bytes) (ver : ℕ) (key value : Bytes) (version : ℕ)
      → Holds db (set_leaf k v ver key value version) (insert key value ((k, v) ∷ []))
  unfolding set_leaf insert load
  set_leaf-Holds k v ver key value version = elim (Ordering-cases (cmp key k)) [
    | inl e ↦
        rw (e, set_leaf, insert)
          (
            _,
            inner _ _ _ refl refl (Loads.leaf key value version) (Loads.leaf k v ver),
            ((e, tt), (le_refl k, tt), tt, tt),
            refl,
          )
    | inr (inl e) ↦
        rw (e, set_leaf, insert)
          (_, Loads.leaf k value version, tt, ap (λ j. (j, value) ∷ []) (sym (eq_of_cmp key k e)))
    | inr (inr e) ↦
        rw (e, set_leaf, insert)
          (
            _,
            inner _ _ _ refl refl (Loads.leaf k v ver) (Loads.leaf key value version),
            ((lt_of_gt key k e, tt), (le_refl key, tt), tt, tt),
            refl,
          )
  ]

  rebalance_left-Holds :
      (key : Bytes) (ver : ℕ) (r : Child) (m : InnerFields) (nl nr n' : Node) (tl tr : Shape)
      → load db r m.right_hash ≡ ok nr
      → Loads db nl tl
      → Loads db nr tr
      → IsOrdered (node m tl tr)
      → rebalance_left db key ver r m nl ≡ ok n'
      → Holds db n' (entries tl ++ entries tr)
  unfolding rebalance_left load
  rebalance_left-Holds key ver r m nl nr n' tl tr er hl hr o h =
      let start : Holds db (Node.inner (loaded nl) r m) (entries tl ++ entries tr) =
        (node m tl tr, inner (loaded nl) r m refl er hl hr, o, refl) in
      elim (Bool-cases (lt_bytes key (get_key nl))) [
        | inl b ↦ right_rotate-Holds db ver _ n' _ start (expect_ok-eq-ok _ (ground (arith, h, b)))
        | inr b ↦
            let node' = Node.inner (loaded nl) r m in
            let (n1, e1, h1) =
              bind-eq-ok (expect_ok (left_rotate db ver node'))
                (λ w. expect_ok (right_rotate db ver w)) (ground (arith, h, b)) in
            right_rotate-Holds db ver n1 n' _
              (left_rotate-Holds db ver node' n1 _ start (expect_ok-eq-ok _ e1))
              (expect_ok-eq-ok _ h1)
      ]

  rebalance_right-Holds :
      (key : Bytes) (ver : ℕ) (l : Child) (m : InnerFields) (nl nr n' : Node) (tl tr : Shape)
      → load db l m.left_hash ≡ ok nl
      → Loads db nl tl
      → Loads db nr tr
      → IsOrdered (node m tl tr)
      → rebalance_right db key ver l m nr ≡ ok n'
      → Holds db n' (entries tl ++ entries tr)
  unfolding rebalance_right load
  rebalance_right-Holds key ver l m nl nr n' tl tr el hl hr o h =
      elim (Bool-cases (lt_bytes (get_key nr) key)) [
        | inl b ↦
            left_rotate-Holds db ver (Node.inner l (loaded nr) m) n' _
              (node m tl tr, inner l (loaded nr) m el refl hl hr, o, refl)
              (expect_ok-eq-ok _ (ground (arith, h, b)))
        | inr b ↦
            let (n1, e1, h1) =
              bind-eq-ok (expect_ok (right_rotate db ver nr))
                (λ w. expect_ok (left_rotate db ver (Node.inner l (loaded w) m)))
                (ground (arith, h, b)) in
            let (t1, l1, o1, s1) =
              right_rotate-Holds db ver nr n1 (entries tr) (tr, hr, o.3, refl)
                (expect_ok-eq-ok _ e1) in
            left_rotate-Holds db ver (Node.inner l (loaded n1) m) n' _
              (
                node m tl t1,
                inner l (loaded n1) m el refl hl l1,
                (o.0, rw s1 o.1, o.2, o1),
                ap (λ s. entries tl ++ s) s1,
              )
              (expect_ok-eq-ok _ h1)
      ]

  -- With both children at hand, what is left of an update is the choice of the rotations.
  pub update_inner-eq-rebalance :
      (key : Bytes) (ver : ℕ) (l r : Child) (m : InnerFields) (nl nr : Node)
      → load db l m.left_hash ≡ ok nl
      → load db r m.right_hash ≡ ok nr
      → update_inner db key ver l r m
        ≡ rebalance db
            (sub_ℕ (get_height nl) (get_height nr))
            key
            ver
            l
            r
            (refreshed m ver nl nr)
            nl
            nr
  unfolding update_inner
  update_inner-eq-rebalance key ver l r m nl nr el er = rw (el, er, update_inner) refl

  -- The choice, by the two heights.
  module _ (key : Bytes) (ver a b : ℕ) (l r : Child) (m : InnerFields) (nl nr : Node) where
    pub rebalance_still :
        a ≤ b + 1 → b ≤ a + 1 → rebalance db (sub_ℕ a b) key ver l r m nl nr ≡ ok (Node.inner l r m)
    unfolding rebalance
    rebalance_still h k = ground arith

    pub rebalance_right_heavy :
        a + 1 < b → rebalance db (sub_ℕ a b) key ver l r m nl nr ≡ rebalance_right db key ver l m nr
    unfolding rebalance
    rebalance_right_heavy h = ground arith

    pub rebalance_left_heavy :
        b + 1 < a → rebalance db (sub_ℕ a b) key ver l r m nl nr ≡ rebalance_left db key ver r m nl
    unfolding rebalance
    rebalance_left_heavy h = ground arith

  pub update_inner-Holds :
      (key : Bytes) (ver : ℕ) (l r : Child) (m : InnerFields) (nl nr n' : Node) (tl tr : Shape)
      → load db l m.left_hash ≡ ok nl
      → load db r m.right_hash ≡ ok nr
      → Loads db nl tl
      → Loads db nr tr
      → IsOrdered (node m tl tr)
      → update_inner db key ver l r m ≡ ok n'
      → Holds db n' (entries tl ++ entries tr)
  unfolding refreshed
  update_inner-Holds key ver l r m nl nr n' tl tr el er hl hr o h =
      let m' = refreshed m ver nl nr in
      let bf = sub_ℕ (get_height nl) (get_height nr) in
      let e : rebalance db bf key ver l r m' nl nr ≡ ok n' =
        sym (update_inner-eq-rebalance key ver l r m nl nr el er) ∙ h in
      elim (Bool-cases (gt_one bf)) [
        | inl b ↦
            rebalance_left-Holds key ver r m' nl nr n' tl tr er hl hr o
              (unfold rebalance in ground (arith, e, b))
        | inr b ↦ elim (Bool-cases (lt_neg_one bf)) [
          | inl c ↦
              rebalance_right-Holds key ver l m' nl nr n' tl tr el hl hr o
                (unfold rebalance in ground (arith, e, b, c))
          | inr c ↦
              let same : Node.inner l r m' ≡ n' = unfold rebalance in ground (arith, e, b, c) in
              (
                node m' tl tr,
                subst (λ n. Loads db n (node m' tl tr)) same (inner l r m' el er hl hr),
                o,
                refl,
              )
        ]
      ]

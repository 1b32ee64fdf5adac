-- ===== src/Trees/Iavl/RotateLaws.antt =====
-- What a rotation that returns leaves as it was: the entries and their order.
use doge_sdk.Base.{
  arith, ◌≡◌, refl, sym, ◌++◌, All-imp, All-append, All-append_left, All-append_right, ℕ,
}
use mathlib.Core.Path.{subst}
use mathlib.Core.List.{append_assoc}
use doge_sdk.Base.Bytes.{Bytes, ◌≺◌, ◌≼◌, lt_trans, lt-le_trans, le-lt_trans, le_of_lt}
use doge_sdk.Base.BTreeMap.{BTreeMap, AtLeast, Below}
use doge_sdk.Database.Record.{Database}
use doge_sdk.Trees.External.{External}
use doge_sdk.Trees.Outcome.{ok, bind-eq-ok, ok-injective}
use doge_sdk.Trees.Iavl.Node.{Node, Child, loaded, InnerFields}
use doge_sdk.Trees.Iavl.Rotate.{
  lower_right, upper_right, lower_left, upper_left, load, right_rotate_inner, right_rotate,
  left_rotate_inner, left_rotate,
}
use doge_sdk.Trees.Iavl.Shape.{Shape, leaf, node, entries, IsOrdered, Loads, inner, Holds}

pub AtLeast-imp : (k j : Bytes) (m : BTreeMap Bytes) → k ≺ j → AtLeast j m → AtLeast k m
AtLeast-imp k j m h =
    All-imp (λ e. j ≼ e.0) (λ e. k ≼ e.0) (λ e p. le_of_lt k e.0 (lt-le_trans k j e.0 h p)) m

pub Below-imp : (k j : Bytes) (m : BTreeMap Bytes) → k ≺ j → Below k m → Below j m
Below-imp k j m h = All-imp (λ e. e.0 ≺ k) (λ e. e.0 ≺ j) (λ e p. lt_trans e.0 k j p h) m

-- A tree has an entry, so the bounds of its entries are in order.
pub lt_of_bounds : (t : Shape) (k j : Bytes) → AtLeast k (entries t) → Below j (entries t) → k ≺ j
lt_of_bounds (leaf key value version) k j a b = le-lt_trans k key j a.0 b.0
lt_of_bounds (node m l r) k j a b =
    lt_of_bounds l k j (All-append_left _ (entries l) (entries r) a)
      (All-append_left _ (entries l) (entries r) b)

-- The order around a rotation, either way.
pub IsOrdered-right :
    (z y z' y' : InnerFields) (a b c : Shape)
    → z'.key ≡ z.key
    → y'.key ≡ y.key
    → IsOrdered (node z (node y a b) c)
    → IsOrdered (node y' a (node z' b c))
IsOrdered-right z y z' y' a b c ez ey (low, high, (la, hb, oa, ob), oc) =
    let below_b = All-append_right (λ e. e.0 ≺ z.key) (entries a) (entries b) low in
    let lt = lt_of_bounds b y.key z.key hb below_b in
    rw (ez, ey)
      (
        la,
        All-append (λ e. y.key ≼ e.0) (entries b) (entries c) hb
            (AtLeast-imp y.key z.key (entries c) lt high),
        oa,
        (below_b, high, ob, oc),
      )

pub IsOrdered-left :
    (z y z' y' : InnerFields) (a b c : Shape)
    → z'.key ≡ z.key
    → y'.key ≡ y.key
    → IsOrdered (node z a (node y b c))
    → IsOrdered (node y' (node z' a b) c)
IsOrdered-left z y z' y' a b c ez ey (low, high, oa, (lb, hc, ob, oc)) =
    let high_b = All-append_left (λ e. z.key ≼ e.0) (entries b) (entries c) high in
    let lt = lt_of_bounds b z.key y.key high_b lb in
    rw (ez, ey)
      (
        All-append (λ e. e.0 ≺ y.key) (entries a) (entries b)
            (Below-imp z.key y.key (entries a) lt low) lb,
        hc,
        (low, high_b, oa, ob),
        oc,
      )

module _ ⦃x : External⦄ {S : Type 0} ⦃d : Database S⦄ (db : S) where
  right_rotate_inner-Holds :
      (zr : Child) (z : InnerFields) (ver : ℕ) (y n' nr : Node) (ty tr : Shape)
      → load db zr z.right_hash ≡ ok nr
      → Loads db y ty
      → Loads db nr tr
      → IsOrdered (node z ty tr)
      → right_rotate_inner db zr z ver y ≡ ok n'
      → Holds db n' (entries ty ++ entries tr)
  unfolding right_rotate_inner
  right_rotate_inner-Holds zr z ver y n' nr ty tr er (Loads.leaf k v w) hr o h = cc
  right_rotate_inner-Holds zr z ver y n' nr ty tr er (inner yl yr ym {tl = a} {tr = b} el eb hl hb)
        hr o h =
      let (z_left, e1, h1) = bind-eq-ok (load db yr z.left_hash) _ h in
      let (z_right, e2, h2) = bind-eq-ok (load db zr z.right_hash) _ h1 in
      let (y_left, e3, h3) = bind-eq-ok (load db yl ym.left_hash) _ h2 in
      let zf = lower_right z ym ver z_left z_right in
      let yf = upper_right ym ver y_left (Node.inner yr zr zf) in
      (
        node yf a (node zf b tr),
        subst (λ n. Loads db n (node yf a (node zf b tr))) (ok-injective h3)
            (inner yl (loaded (Node.inner yr zr zf)) yf el refl hl (inner yr zr zf eb er hb hr)),
        IsOrdered-right z ym zf yf a b tr refl refl o,
        sym (append_assoc (entries a) (entries b) (entries tr)),
      )

  left_rotate_inner-Holds :
      (zl : Child) (z : InnerFields) (ver : ℕ) (y n' nl : Node) (ty tl : Shape)
      → load db zl z.left_hash ≡ ok nl
      → Loads db y ty
      → Loads db nl tl
      → IsOrdered (node z tl ty)
      → left_rotate_inner db zl z ver y ≡ ok n'
      → Holds db n' (entries tl ++ entries ty)
  unfolding left_rotate_inner
  left_rotate_inner-Holds zl z ver y n' nl ty tl el (Loads.leaf k v w) hl o h = cc
  left_rotate_inner-Holds zl z ver y n' nl ty tl el (inner yl yr ym {tl = b} {tr = c} eb ec hb hc)
        hl o h =
      let (z_left, e1, h1) = bind-eq-ok (load db zl z.left_hash) _ h in
      let (z_right, e2, h2) = bind-eq-ok (load db yl z.right_hash) _ h1 in
      let (y_right, e3, h3) = bind-eq-ok (load db yr ym.right_hash) _ h2 in
      let zf = lower_left z ym ver z_left z_right in
      let yf = upper_left ym ver (Node.inner zl yl zf) y_right in
      (
        node yf (node zf tl b) c,
        subst (λ n. Loads db n (node yf (node zf tl b) c)) (ok-injective h3)
            (inner (loaded (Node.inner zl yl zf)) yr yf refl ec (inner zl yl zf el eb hl hb) hc),
        IsOrdered-left z ym zf yf tl b c refl refl o,
        append_assoc (entries tl) (entries b) (entries c),
      )

  -- A rotation to the right that returns keeps the entries of the node and their order.
  pub right_rotate-Holds :
      (ver : ℕ) (n n' : Node) (m : BTreeMap Bytes)
      → Holds db n m
      → right_rotate db ver n ≡ ok n'
      → Holds db n' m
  unfolding right_rotate
  right_rotate-Holds ver n n' m (t, Loads.leaf k v w, o, e) h = cc
  right_rotate-Holds ver n n' m (t, inner l r z {nl} {nr} {tl} {tr} el er hl hr, o, e) h =
      rw (← e) (right_rotate_inner-Holds r z ver nl n' nr tl tr er hl hr o (ground (arith, h, el)))

  -- A rotation to the left that returns keeps the entries of the node and their order.
  pub left_rotate-Holds :
      (ver : ℕ) (n n' : Node) (m : BTreeMap Bytes)
      → Holds db n m
      → left_rotate db ver n ≡ ok n'
      → Holds db n' m
  unfolding left_rotate
  left_rotate-Holds ver n n' m (t, Loads.leaf k v w, o, e) h = cc
  left_rotate-Holds ver n n' m (t, inner l r z {nl} {nr} {tl} {tr} el er hl hr, o, e) h =
      rw (← e) (left_rotate_inner-Holds l z ver nr n' nl tr tl el hr hl o (ground (arith, h, er)))

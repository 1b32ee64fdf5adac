-- ===== src/Base/BTreeMap.antt =====
-- `std::collections::BTreeMap<Vec<u8>, V>`: its entries in ascending order of their keys.
use Prim.Native.Nat.Ordering.{lt, eq, gt}
use mathlib.Core.Path.{◌≡◌, refl}
use mathlib.Core.Option.{Option, none, some}
use mathlib.Core.List.{List, [], ◌∷◌, ◌++◌}
use native.Mathlib.Omega.{arith}
use doge_sdk.Base.Tests.{if◌then◌else◌}
use doge_sdk.Base.Lists.{All, All-imp}
use doge_sdk.Base.Bytes.{
  Bytes, cmp, eq_bytes, ◌≺◌, ◌≼◌, cmp_refl, eq_of_cmp, lt_of_gt, gt_of_lt, lt_trans,
}

abbrev pub BTreeMap {ℓ} : Type ℓ → Type ℓ
BTreeMap V = List (Bytes × V)

module _ {ℓ} {V : Type ℓ} where
  unfoldable pub get : Bytes → BTreeMap V → Option V
  get k [] = none
  get k ((j, v) ∷ m) = if eq_bytes k j then some v else get k m

  unfoldable pub insert : Bytes → V → BTreeMap V → BTreeMap V
  insert k v [] = (k, v) ∷ []
  insert k v ((j, w) ∷ m) = elim (cmp k j) [
    | lt ↦ (k, v) ∷ (j, w) ∷ m
    | eq ↦ (k, v) ∷ m
    | gt ↦ (j, w) ∷ insert k v m
  ]

  -- Every key is above `k`, at least `k`, below `k`.
  abbrev pub Above : Bytes → BTreeMap V → Type 0
  Above k m = All (λ e. k ≺ e.0) m

  abbrev pub AtLeast : Bytes → BTreeMap V → Type 0
  AtLeast k m = All (λ e. k ≼ e.0) m

  abbrev pub Below : Bytes → BTreeMap V → Type 0
  Below k m = All (λ e. e.0 ≺ k) m

  abbrev pub IsSorted : BTreeMap V → Type 0
  IsSorted [] = Unit
  IsSorted (e ∷ m) = Above e.0 m × IsSorted m

  -- A read after a write.
  pub get-insert :
      (j k : Bytes) (v : V) (m : BTreeMap V)
      → get j (insert k v m) ≡ (if eq_bytes j k then some v else get j m)
  unfolding get insert
  get-insert j k v [] = refl
  get-insert j k v ((i, w) ∷ m) = ground (
    arith,
    get-insert j k v m,
    eq_of_cmp k i,
    eq_of_cmp j i,
    eq_of_cmp j k,
    cmp_refl j,
    cmp_refl k,
  )

  pub All-insert {κ} :
      (P : Bytes × V → Type κ) (k : Bytes) (v : V) (m : BTreeMap V)
      → P (k, v)
      → All P m
      → All P (insert k v m)
  unfolding insert
  All-insert P k v [] p h = (p, tt)
  All-insert P k v ((j, w) ∷ m) p h = ground (arith, All-insert P k v m p)

  Above-imp : (k j : Bytes) (m : BTreeMap V) → k ≺ j → Above j m → Above k m
  Above-imp k j m h = All-imp (λ x. j ≺ x.0) (λ x. k ≺ x.0) (λ x p. lt_trans k j x.0 h p) m

  pub insert-IsSorted : (k : Bytes) (v : V) (m : BTreeMap V) → IsSorted m → IsSorted (insert k v m)
  unfolding insert
  insert-IsSorted k v [] h = (tt, tt)
  insert-IsSorted k v ((j, w) ∷ m) h = ground (
    arith,
    insert-IsSorted k v m h.1,
    Above-imp k j m,
    All-insert (λ x. j ≺ x.0) k v m,
    lt_of_gt k j,
    eq_of_cmp k j,
  )

  -- A write or a read in a map cut in two goes to the part where its key belongs.
  pub insert-append_left :
      (k : Bytes) (v : V) (l r : BTreeMap V) → Above k r → insert k v (l ++ r) ≡ insert k v l ++ r
  unfolding insert
  insert-append_left k v [] [] h = refl
  insert-append_left k v [] (e ∷ r) h = rw (h.0, insert)
  insert-append_left k v ((j, w) ∷ l) r h = ground (arith, insert-append_left k v l r h)

  pub insert-append_right :
      (k : Bytes) (v : V) (l r : BTreeMap V) → Below k l → insert k v (l ++ r) ≡ l ++ insert k v r
  unfolding insert
  insert-append_right k v [] r h = refl
  insert-append_right k v ((j, w) ∷ l) r h =
      ground (arith, gt_of_lt j k h.0, insert-append_right k v l r h.1)

  pub get-Above : (k : Bytes) (m : BTreeMap V) → Above k m → get k m ≡ none
  unfolding get
  get-Above k [] h = refl
  get-Above k ((j, w) ∷ m) h = ground (arith, h.0, get-Above k m h.1)

  pub get-Below : (k : Bytes) (m : BTreeMap V) → Below k m → get k m ≡ none
  unfolding get
  get-Below k [] h = refl
  get-Below k ((j, w) ∷ m) h = ground (arith, gt_of_lt j k h.0, get-Below k m h.1)

  pub get-append :
      (k : Bytes) (l r : BTreeMap V)
      → get k (l ++ r) ≡ elim (get k l) [ some v ↦ some v | none ↦ get k r ]
  unfolding get
  get-append k [] r = refl
  get-append k ((j, w) ∷ l) r = ground (arith, get-append k l r)

  -- A sorted map is determined by its reads.
  get_head : (k : Bytes) (v : V) (m : BTreeMap V) → get k ((k, v) ∷ m) ≡ some v
  unfolding get
  get_head k v m = ground (arith, cmp_refl k)

  get_tail : (j k : Bytes) (v : V) (m : BTreeMap V) → k ≺ j → get j ((k, v) ∷ m) ≡ get j m
  unfolding get
  get_tail j k v m h = ground (arith, gt_of_lt k j h)

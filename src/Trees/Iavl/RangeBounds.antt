-- ===== src/Trees/Iavl/RangeBounds.antt =====
-- What the two tests of `Range::traverse` say of the keys on the sides of a node, and the entries
-- that a range keeps.
use doge_sdk.Base.{◌≡◌, refl, Bool, false, [], ◌∷◌, ◌++◌, All, arith}
use doge_sdk.Base.Bytes.{
  Bytes, ◌≺◌, ◌≼◌, lt_of_gt, gt_of_lt, ge_of_not_lt, lt-le_trans, le-lt_trans,
}
use doge_sdk.Base.BTreeMap.{BTreeMap}
use doge_sdk.Database.Bound.{Bound, included, excluded, unbounded, contains, above_start, below_end}
use doge_sdk.Database.Memory.{keep}
use doge_sdk.Trees.Iavl.Range.{after_start}

pub keep-append :
    (test : Bytes → Bool) (l r : BTreeMap Bytes) → keep test (l ++ r) ≡ keep test l ++ keep test r
unfolding keep
keep-append test [] r = refl
keep-append test (e ∷ l) r = ground (arith, keep-append test l r)

pub keep-none :
    (test : Bytes → Bool) (m : BTreeMap Bytes) → All (λ e. test e.0 ≡ false) m → keep test m ≡ []
unfolding keep
keep-none test [] h = refl
keep-none test (e ∷ m) h = ground (arith, h.0, keep-none test m h.1)

-- A key below one that is not after the start is out of the range, and so is a key at least one
-- that is not before the end.
pub before_range :
    (start stop : Bound) (key k : Bytes)
    → after_start start key ≡ false
    → k ≺ key
    → contains start stop k ≡ false
unfolding after_start contains above_start
before_range (included l) stop key k h p =
    ground (arith, gt_of_lt k l (lt-le_trans k key l p (ge_of_not_lt l key h)))
before_range (excluded l) stop key k h p =
    ground (arith, gt_of_lt k l (lt-le_trans k key l p (ge_of_not_lt l key h)))
before_range unbounded stop key k h p = cc

pub after_range :
    (start stop : Bound) (key k : Bytes)
    → below_end stop key ≡ false
    → key ≼ k
    → contains start stop k ≡ false
unfolding contains below_end
after_range start (included u) key k h p =
    ground (arith, λ (e : u ≺ key). gt_of_lt u k (lt-le_trans u key k e p), lt_of_gt key u)
after_range start (excluded u) key k h p = ground (arith, le-lt_trans key k u p)
after_range start unbounded key k h p = cc

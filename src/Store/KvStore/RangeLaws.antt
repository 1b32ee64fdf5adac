-- ===== src/Store/KvStore/RangeLaws.antt =====
-- What a scan of a `KVStore` and of a prefix of it yields.
use doge_sdk.Base.{
  ℕ, ◌+◌, ◌≤◌, ◌≡◌, refl, Bool, true, false, ◌&&◌, Bool-cases, inl, inr, some, [], ◌∷◌, ◌++◌, All,
  length, drop, leb, leb_of_le, arith,
}
use doge_sdk.Base.Bytes.{Bytes, cmp, le_bytes}
use doge_sdk.Base.BTreeMap.{BTreeMap}
use doge_sdk.Database.Bound.{
  Bound, included, excluded, unbounded, contains, above_start, below_end, starts_with, IsBytes,
  contains-prefix_end_bound,
}
use doge_sdk.Database.Memory.{keep}
use doge_sdk.Database.Prefix.{strip}
use doge_sdk.Database.Record.{Database}
use doge_sdk.Trees.External.{External}
use doge_sdk.Trees.Outcome.{ok}
use doge_sdk.Trees.Iavl.Node.{Node}
use doge_sdk.Trees.Iavl.Shape.{Shape, entries, IsOrdered, Loads}
use doge_sdk.Trees.Iavl.RangeLaws.{nodes, range-eq-keep}
use doge_sdk.Store.KvStore.{KvStore}
use doge_sdk.Store.KvStore.Range.{prefixed_start, prefixed_end, truncate, range, prefix_range}

-- Under a common prefix the rests decide.
cmp-prefix_left :
    (p a k : Bytes) → starts_with p k ≡ true → cmp (p ++ a) k ≡ cmp a (drop (length p) k)
unfolding cmp starts_with
cmp-prefix_left [] a k h = refl
cmp-prefix_left (b ∷ p) a [] h = cc
cmp-prefix_left (b ∷ p) a (c ∷ k) h = ground (arith, cmp-prefix_left p a k)

cmp-prefix_right :
    (p a k : Bytes) → starts_with p k ≡ true → cmp k (p ++ a) ≡ cmp (drop (length p) k) a
unfolding cmp starts_with
cmp-prefix_right [] a k h = refl
cmp-prefix_right (b ∷ p) a [] h = cc
cmp-prefix_right (b ∷ p) a (c ∷ k) h = ground (arith, cmp-prefix_right p a k)

-- A key without the prefix is on one side of all keys that have it.
cmp-other_left : (p a k : Bytes) → starts_with p k ≡ false → cmp (p ++ a) k ≡ cmp p k
unfolding cmp starts_with
cmp-other_left [] a k h = cc
cmp-other_left (b ∷ p) a [] h = refl
cmp-other_left (b ∷ p) a (c ∷ k) h = ground (arith, cmp-other_left p a k)

cmp-other_right : (p a k : Bytes) → starts_with p k ≡ false → cmp k (p ++ a) ≡ cmp k p
unfolding cmp starts_with
cmp-other_right [] a k h = cc
cmp-other_right (b ∷ p) a [] h = refl
cmp-other_right (b ∷ p) a (c ∷ k) h = ground (arith, cmp-other_right p a k)

other : (p k : Bytes) → starts_with p k ≡ false → (le_bytes p k && le_bytes k p) ≡ false
unfolding cmp starts_with
other [] k h = cc
other (b ∷ p) [] h = refl
other (b ∷ p) (c ∷ k) h = ground (arith, other p k)

le_of_starts_with : (p k : Bytes) → starts_with p k ≡ true → le_bytes p k ≡ true
unfolding cmp starts_with
le_of_starts_with [] [] h = refl
le_of_starts_with [] (c ∷ k) h = refl
le_of_starts_with (b ∷ p) [] h = cc
le_of_starts_with (b ∷ p) (c ∷ k) h = ground (arith, le_of_starts_with p k)

-- A key with the prefix is within the bounds under the prefix if and only if its rest is within
-- the bounds.
start_inside :
    (start : Bound) (p k : Bytes)
    → starts_with p k ≡ true
    → above_start (prefixed_start p start) k ≡ above_start start (drop (length p) k)
unfolding above_start prefixed_start
start_inside (included b) p k h = ground (arith, cmp-prefix_left p b k h)
start_inside (excluded b) p k h = ground (arith, cmp-prefix_left p b k h)
start_inside unbounded p k h = le_of_starts_with p k h

end_inside :
    (stop : Bound) (p k : Bytes)
    → IsBytes k
    → starts_with p k ≡ true
    → below_end (prefixed_end p stop) k ≡ below_end stop (drop (length p) k)
unfolding below_end prefixed_end contains
end_inside (included b) p k h i = ground (arith, cmp-prefix_right p b k i)
end_inside (excluded b) p k h i = ground (arith, cmp-prefix_right p b k i)
end_inside unbounded p k h i = ground (arith, contains-prefix_end_bound p k h, i)

-- A key without the prefix is outside of one of the bounds under the prefix.
start_outside :
    (start : Bound) (p k : Bytes)
    → starts_with p k ≡ false
    → above_start (prefixed_start p start) k ≡ true
    → le_bytes p k ≡ true
unfolding above_start prefixed_start
start_outside (included b) p k h i = ground (arith, cmp-other_left p b k h)
start_outside (excluded b) p k h i = ground (arith, cmp-other_left p b k h)
start_outside unbounded p k h i = i

end_outside :
    (stop : Bound) (p k : Bytes)
    → IsBytes k
    → starts_with p k ≡ false
    → le_bytes p k ≡ true
    → below_end (prefixed_end p stop) k ≡ false
unfolding below_end prefixed_end contains above_start
end_outside (included b) p k h i j = ground (arith, cmp-other_right p b k i, other p k i)
end_outside (excluded b) p k h i j = ground (arith, cmp-other_right p b k i, other p k i)
end_outside unbounded p k h i j = ground (arith, contains-prefix_end_bound p k h, i)

-- The keys of bytes within the bounds under a prefix are those that begin with it and whose rest
-- is within the bounds.
pub contains-prefixed_start :
    (start stop : Bound) (p k : Bytes)
    → IsBytes k
    → contains (prefixed_start p start) (prefixed_end p stop) k
      ≡ (starts_with p k && contains start stop (drop (length p) k))
unfolding contains
contains-prefixed_start start stop p k b = elim (Bool-cases (starts_with p k)) [
  | inl h ↦ rw (start_inside start p k h, end_inside stop p k b h, h) refl
  | inr h ↦ ground (arith, h, start_outside start p k h, end_outside stop p k b h)
]

-- The keys that a scan of a prefix takes.
abbrev pub selects : Bound → Bound → Bytes → Bytes → Bool
selects start stop prefix k = starts_with prefix k && contains start stop (drop (length prefix) k)

keep-prefixed_start :
    (start stop : Bound) (p : Bytes) (m : BTreeMap Bytes)
    → All (λ e. IsBytes e.0) m
    → keep (contains (prefixed_start p start) (prefixed_end p stop)) m
      ≡ keep (selects start stop p) m
unfolding keep
keep-prefixed_start start stop p [] h = refl
keep-prefixed_start start stop p (e ∷ m) h =
    rw (contains-prefixed_start start stop p e.0 h.0, keep-prefixed_start start stop p m h.1) refl

length-starts_with : (p k : Bytes) → starts_with p k ≡ true → length p ≤ length k
unfolding starts_with
length-starts_with [] k h = omega arith
length-starts_with (b ∷ p) [] h = cc
length-starts_with (b ∷ p) (c ∷ k) h =
    let l = length-starts_with p k (ground arith) in omega (arith, l)

leb-starts_with : (p k : Bytes) → starts_with p k ≡ true → leb (length p) (length k) ≡ true
leb-starts_with p k h = leb_of_le (length p) (length k) (length-starts_with p k h)

-- No key that is taken is too short to be cut.
truncate-eq-strip :
    (start stop : Bound) (p : Bytes) (m : BTreeMap Bytes)
    → truncate (length p) (keep (selects start stop p) m)
      ≡ ok (strip p (keep (selects start stop p) m))
unfolding truncate keep
truncate-eq-strip start stop p [] = refl
truncate-eq-strip start stop p (e ∷ m) = elim (Bool-cases (selects start stop p e.0)) [
  | inl h ↦ rw (h, leb-starts_with p e.0 (ground arith), truncate-eq-strip start stop p m) refl
  | inr h ↦ rw h (truncate-eq-strip start stop p m)
]

module _ ⦃x : External⦄ {S : Type 0} ⦃d : Database S⦄ where
  -- A scan of a prefix store whose tree stands for an ordered tree with keys of bytes yields the
  -- tree's entries whose keys begin with the prefix and whose rest is in the range, in order and
  -- with the prefix cut off, given two more units of fuel than there are nodes; no key is too
  -- short to be cut.
  pub prefix_range-eq-strip :
      (start stop : Bound) (fuel : ℕ) (s : KvStore S) (prefix : Bytes) (n : Node) (shape : Shape)
      → s.persistent_store.root ≡ some n
      → Loads s.persistent_store.node_db n shape
      → IsOrdered shape
      → All (λ e. IsBytes e.0) (entries shape)
      → nodes shape + 2 ≤ fuel
      → prefix_range start stop fuel s prefix
        ≡ ok (strip prefix (keep (selects start stop prefix) (entries shape)))
  unfolding prefix_range range
  prefix_range-eq-strip start stop fuel s prefix n shape e l o b h =
      rw
        (
          range-eq-keep (prefixed_start prefix start) (prefixed_end prefix stop) fuel
              s.persistent_store n shape e l o h,
          keep-prefixed_start start stop prefix (entries shape) b,
        )
        (truncate-eq-strip start stop prefix (entries shape))

-- ===== src/Store/KvStore/Range.antt =====
-- `KVStore::range`, `ImmutablePrefixStore::range` and `PrefixRange` of store/src/store.rs. A scan
-- does not see the caches. The iterators are modelled by what they yield when they are run to
-- their end.
use doge_sdk.Base.{ℕ, [], ◌∷◌, ◌++◌, length, drop, leb, if◌then◌else◌}
use doge_sdk.Base.Bytes.{Bytes}
use doge_sdk.Base.BTreeMap.{BTreeMap}
use doge_sdk.Database.Bound.{Bound, included, excluded, unbounded, prefix_end_bound}
use doge_sdk.Database.Record.{Database}
use doge_sdk.Trees.External.{External}
use doge_sdk.Trees.Outcome.{Outcome, ok, panic, ◌>>=◌}
use doge_sdk.Trees.Iavl.Range as TreeRange
use doge_sdk.Store.KvStore.{KvStore}

-- The two bounds under the prefix.
unfoldable pub prefixed_start : Bytes → Bound → Bound
prefixed_start prefix (included b) = included (prefix ++ b)
prefixed_start prefix (excluded b) = excluded (prefix ++ b)
prefixed_start prefix unbounded = included prefix

unfoldable pub prefixed_end : Bytes → Bound → Bound
unfolding prefix_end_bound
prefixed_end prefix (included b) = included (prefix ++ b)
prefixed_end prefix (excluded b) = excluded (prefix ++ b)
prefixed_end prefix unbounded = prefix_end_bound prefix

-- The slice `next.0[n..]` of a key that is shorter than `n` is a panic.
unfoldable pub truncate : ℕ → BTreeMap Bytes → Outcome (BTreeMap Bytes)
truncate n [] = ok []
truncate n ((k, v) ∷ rest) =
    if leb n (length k) then (do cut ← truncate n rest; ok ((drop n k, v) ∷ cut)) else panic

module _ ⦃x : External⦄ {S : Type 0} ⦃d : Database S⦄ where
  unfoldable pub range : Bound → Bound → ℕ → KvStore S → Outcome (BTreeMap Bytes)
  unfolding TreeRange.range
  range start stop fuel s = TreeRange.range start stop fuel s.persistent_store

  unfoldable pub prefix_range : Bound → Bound → ℕ → KvStore S → Bytes → Outcome (BTreeMap Bytes)
  unfolding range prefixed_start prefixed_end truncate
  prefix_range start stop fuel s prefix = do
    entries ← range (prefixed_start prefix start) (prefixed_end prefix stop) fuel s
    truncate (length prefix) entries

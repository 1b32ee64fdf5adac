-- ===== src/Tests/Range.antt =====
-- Scans of the tree and of a store at concrete inputs.
use doge_sdk.Base.{◌≡◌, refl, some, [], ◌∷◌, arith}
use doge_sdk.Base.Bytes.{cmp}
use doge_sdk.Database.Bound.{included, excluded, unbounded, contains, above_start}
use doge_sdk.Database.Memory.{MemDb, mem_database, new, keep}
use doge_sdk.Database.Prefix.{strip}
use doge_sdk.Trees.Outcome.{ok}
use doge_sdk.Trees.Iavl.Shape.{entries}
use doge_sdk.Trees.Iavl.Balance.{in_memory}
use doge_sdk.Trees.Iavl.Tree.{Tree}
use doge_sdk.Trees.Iavl.TreeLaws.{Loads-in_memory}
use doge_sdk.Trees.Iavl.Range
use doge_sdk.Trees.Iavl.RangeLaws.{range-eq-keep}
use doge_sdk.Store.KvStore.{KvStore}
use doge_sdk.Store.KvStore.Range as StoreRange
use doge_sdk.Store.KvStore.RangeLaws.{selects, prefix_range-eq-strip}
use doge_sdk.Tests.Iavl.{IsOrdered-triple}
use doge_sdk.Tests.Crates.{crates, triple}

abbrev tree : Tree MemDb
tree = record { root = some (in_memory triple); node_db = new; loaded_version = 0; versions = [] }

abbrev store : KvStore MemDb
store = record { persistent_store = tree; block_cache = []; tx_cache = [] }

range-eq-keep_example :
    Range.range (included (2 ∷ [])) (excluded (3 ∷ [])) 7 tree
    ≡ ok (keep (contains (included (2 ∷ [])) (excluded (3 ∷ []))) (entries triple))
range-eq-keep_example =
    range-eq-keep (included (2 ∷ [])) (excluded (3 ∷ [])) 7 tree (in_memory triple) triple refl
      (Loads-in_memory new triple) IsOrdered-triple (omega arith)

-- The scan of the keys 1 to 3 from 2 to below 3.
range_run : Range.range (included (2 ∷ [])) (excluded (3 ∷ [])) 7 tree ≡ ok ((2 ∷ [], 22 ∷ []) ∷ [])
unfolding Range.range cmp above_start
range_run = refl

prefix_range-eq-strip_example :
    StoreRange.prefix_range unbounded unbounded 7 store (2 ∷ [])
    ≡ ok (strip (2 ∷ []) (keep (selects unbounded unbounded (2 ∷ [])) (entries triple)))
prefix_range-eq-strip_example =
    prefix_range-eq-strip unbounded unbounded 7 store (2 ∷ []) (in_memory triple) triple refl
      (Loads-in_memory new triple) IsOrdered-triple
      ((omega arith, tt), ((omega arith, tt), ((omega arith, tt), tt))) (omega arith)

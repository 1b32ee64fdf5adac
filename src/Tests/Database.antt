-- ===== src/Tests/Database.antt =====
-- The database at concrete inputs.
use doge_sdk.Base.{◌≡◌, refl, [], ◌∷◌}
use doge_sdk.Base.Bytes.{cmp}
use doge_sdk.Database.Bound.{above_start, below_end, contains, prefix_end_bound, starts_with}
use doge_sdk.Database.Memory.{MemDb, prefix_iterator, mem_database}

-- Four entries, two of them under the prefix 2.
abbrev db : MemDb
db = record {
  store =
      (1 ∷ 1 ∷ [], 1 ∷ [])
      ∷ (2 ∷ 1 ∷ [], 2 ∷ [])
      ∷ (2 ∷ 255 ∷ [], 3 ∷ [])
      ∷ (3 ∷ 1 ∷ [], 4 ∷ [])
      ∷ [];
}

-- The keys of the scan keep their prefix.
prefix_iterator_run :
    prefix_iterator db (2 ∷ []) ≡ (2 ∷ 1 ∷ [], 2 ∷ []) ∷ (2 ∷ 255 ∷ [], 3 ∷ []) ∷ []
unfolding prefix_iterator prefix_end_bound contains above_start cmp below_end starts_with
prefix_iterator_run = refl

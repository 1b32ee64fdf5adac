-- ===== src/Tests/Faults.antt =====
-- Writes that panic, at concrete inputs.
use doge_sdk.Base.{◌≡◌, refl, none, [], ◌∷◌, arith}
use doge_sdk.Base.Bytes.{cmp}
use doge_sdk.Base.BTreeMap
use doge_sdk.Database.Memory.{MemDb, mem_database, new}
use doge_sdk.Trees.Outcome.{panic}
use doge_sdk.Trees.Iavl.Node.{
  Node, absent, loaded, InnerFields, get_height, get_key, get_size, hash,
}
use doge_sdk.Trees.Iavl.NodeDb.{get_node}
use doge_sdk.Trees.Iavl.Rotate.{right_rotate, left_rotate, load}
use doge_sdk.Trees.Iavl.Set.{recursive_set, update_inner}
use doge_sdk.Trees.Iavl.Shape.{Shape, node}
use doge_sdk.Trees.Iavl.Balance.{in_memory}
use doge_sdk.Trees.Iavl.Tree.{Tree, set}
use doge_sdk.Trees.Iavl.TreeLaws.{set_all}
use doge_sdk.Trees.Iavl.Faults.{update_inner-stale_right}
use doge_sdk.Tests.Crates.{crates, one, two, three, pair, triple}

abbrev tall : InnerFields
tall = record {
  key = 2 ∷ [];
  height = 2;
  size = 3;
  left_hash = hash (in_memory pair);
  right_hash = hash (in_memory two);
  version = 2;
}

abbrev top : InnerFields
top = record {
  key = 3 ∷ [];
  height = 2;
  size = 3;
  left_hash = hash (in_memory triple);
  right_hash = hash (in_memory three);
  version = 1;
}

update_inner-stale_right_example :
    update_inner new
      (9 ∷ [])
      2
      (loaded (in_memory one))
      (loaded (Node.inner absent (loaded (in_memory pair)) tall))
      top
    ≡ panic
unfolding load get_height cmp get_node mem_database BTreeMap.get
update_inner-stale_right_example =
    update_inner-stale_right new (9 ∷ []) 2 (loaded (in_memory one)) (loaded (in_memory pair)) tall
      top (in_memory one) refl (omega arith) refl refl

abbrev taller : Shape
taller = node (record tall { height = 3; size = 5 }) triple pair

abbrev empty_tree : Tree MemDb
empty_tree = record { root = none; node_db = new; loaded_version = 0; versions = [] }

-- The keys 4, 1, 2 and 3 in this order, in memory.
left_right_run :
    set_all 255 empty_tree ((4 ∷ [], []) ∷ (1 ∷ [], []) ∷ (2 ∷ [], []) ∷ (3 ∷ [], []) ∷ []) ≡ panic
unfolding set_all set recursive_set right_rotate left_rotate get_height get_size get_key cmp
left_right_run = refl

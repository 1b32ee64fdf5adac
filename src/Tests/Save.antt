-- ===== src/Tests/Save.antt =====
-- The save of a tree of three in memory, as the first version of an empty database.
use doge_sdk.Base.{◌≡◌, refl, Option, none, some, List, [], ◌∷◌, arith, if◌then◌else◌}
use doge_sdk.Base.Bytes.{Bytes, eq_bytes, cmp}
use doge_sdk.Base.BTreeMap.{get}
use doge_sdk.Database.Memory.{MemDb, mem_database, mem_database-IsLawful, new}
use doge_sdk.Trees.Outcome.{ok}
use doge_sdk.Trees.Iavl.Node.{Node, hash, serialize, clear_children}
use doge_sdk.Trees.Iavl.NodeDb.{get_node_key, get_root_node}
use doge_sdk.Trees.Iavl.Shape.{Loads}
use doge_sdk.Trees.Iavl.Balance.{in_memory}
use doge_sdk.Trees.Iavl.Save.{pending, IsAddressed, IsSaveable, Keeps}
use doge_sdk.Trees.Iavl.SaveLaws.{save_version-Loads}
use doge_sdk.Trees.Iavl.Tree.{Tree, save_version, contains}
use doge_sdk.Trees.Iavl.TreeLaws.{Loads-in_memory}
use doge_sdk.Tests.Crates.{crates, crates-IsLawful, triple}

abbrev lookup : List (Bytes × Node) → Bytes → Bytes
lookup [] h = []
lookup ((k, n) ∷ rest) h = let found = lookup rest h in if eq_bytes k h then serialize n else found

abbrev pub three_nodes : Node
three_nodes = in_memory triple

-- The bytes of the five nodes under their hashes.
pub content : Bytes → Bytes
content = lookup (pending three_nodes (hash three_nodes))

unfoldable pub tree_of_three : Tree MemDb
tree_of_three = record { root = some three_nodes; node_db = new; loaded_version = 0; versions = [] }

new-IsAddressed : IsAddressed content new
unfolding mem_database get_node_key get
new-IsAddressed h bytes g =
    let e : ◌≡◌ {A = Option Bytes} none (some bytes) = g in absurd (ground (arith, e))

pub IsSaveable-triple : IsSaveable content (pending three_nodes (hash three_nodes))
unfolding content pending hash crates serialize cmp
IsSaveable-triple = (
  ((omega arith, omega arith, omega arith), refl),
  (
    ((omega arith, omega arith, omega arith), refl),
    (
      ((omega arith, omega arith, omega arith, omega arith, omega arith, refl, refl), refl),
      (
        ((omega arith, omega arith, omega arith), refl),
        (((omega arith, omega arith, omega arith, omega arith, omega arith, refl, refl), refl), tt),
      ),
    ),
  ),
)

save_version-Loads_example :
    (t' : Tree MemDb) × (save_version tree_of_three ≡ ok ((hash three_nodes, 1), t'))
    × (t'.root ≡ some (clear_children three_nodes))
    × (get_root_node t'.node_db 1 ≡ ok (some (clear_children three_nodes)))
    × Loads t'.node_db (clear_children three_nodes) triple
    × Keeps new t'.node_db
    × IsAddressed content t'.node_db
unfolding hash crates tree_of_three contains cmp
save_version-Loads_example =
    save_version-Loads mem_database-IsLawful crates-IsLawful content tree_of_three three_nodes
      triple refl (Loads-in_memory new triple) new-IsAddressed IsSaveable-triple refl refl

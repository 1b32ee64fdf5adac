-- ===== src/Tests/Iavl.antt =====
-- The tree at concrete inputs.
use doge_sdk.Base.{◌+◌, ◌%◌, ◌^◌, ◌<◌, ◌≤◌, ◌≡◌, refl, none, some, [], ◌∷◌, arith}
use doge_sdk.Base.Bytes.{Bytes, le_refl, cmp}
use doge_sdk.Base.BTreeMap
use doge_sdk.Base.BTreeMap.{BTreeMap, Below, IsSorted}
use doge_sdk.Database.Memory.{MemDb, mem_database, new}
use doge_sdk.Trees.Outcome.{Outcome, ok}
use doge_sdk.Trees.Iavl.Node.{
  Node, get_height, get_size, get_key, hash, deserialize, serialize, clear_children,
}
use doge_sdk.Trees.Iavl.Node.Codec.{InRange, deserialize-serialize}
use doge_sdk.Trees.Iavl.Rotate.{joined_height, joined_size, right_rotate, left_rotate}
use doge_sdk.Trees.Iavl.Set.{recursive_get, recursive_set}
use doge_sdk.Trees.Iavl.Shape.{Shape, Loads, depth, entries, IsOrdered, Holds}
use doge_sdk.Trees.Iavl.Balance.{in_memory, pow_half, IsCached, IsBalanced}
use doge_sdk.Trees.Iavl.Get.{recursive_get-eq-get}
use doge_sdk.Trees.Iavl.SetLaws.{recursive_set-Holds}
use doge_sdk.Trees.Iavl.RotateLaws.{right_rotate-Holds}
use doge_sdk.Trees.Iavl.Tree.{Tree}
use doge_sdk.Trees.Iavl.Heights.{set_all-height}
use doge_sdk.Trees.Iavl.TreeLaws.{Loads-in_memory, Fills, set_all, set_all-Fills}
use doge_sdk.Tests.Crates.{crates, crates-IsLawful, triple}

pub IsOrdered-triple : IsOrdered triple
unfolding cmp
IsOrdered-triple =
    ((refl, (refl, tt)), (le_refl (3 ∷ []), tt), ((refl, tt), (le_refl (2 ∷ []), tt), tt, tt), tt)

abbrev three_entries : BTreeMap Bytes
three_entries = (1 ∷ [], 11 ∷ []) ∷ (2 ∷ [], 22 ∷ []) ∷ (3 ∷ [], 33 ∷ []) ∷ []

IsSorted-three_entries : IsSorted three_entries
unfolding cmp
IsSorted-three_entries = ((refl, (refl, tt)), ((refl, tt), (tt, tt)))

IsCached-triple : IsCached triple
unfolding joined_height joined_size get_height get_size
IsCached-triple = (refl, refl, refl, refl, (refl, refl, refl, refl, tt, tt), tt)

IsBalanced-triple : IsBalanced triple
IsBalanced-triple = (omega arith, omega arith, (omega arith, omega arith, tt, tt), tt)

recursive_get-eq-get_example :
    recursive_get new 3 (in_memory triple) (2 ∷ []) ≡ ok (BTreeMap.get (2 ∷ []) (entries triple))
recursive_get-eq-get_example =
    recursive_get-eq-get new 3 (in_memory triple) triple (2 ∷ []) (Loads-in_memory new triple)
      IsOrdered-triple (omega arith)

abbrev zero_key : Bytes
zero_key = 0 ∷ []

abbrev returned : Outcome Node → Node
returned (ok n) = n
returned _ = Node.leaf [] [] 0

-- A write that goes through a rotation to the right.
unfoldable written : Node
unfolding recursive_set
written = returned (recursive_set new 3 (in_memory triple) zero_key (9 ∷ []) 1)

written_run : recursive_set new 3 (in_memory triple) zero_key (9 ∷ []) 1 ≡ ok written
unfolding written recursive_set cmp get_height get_key right_rotate
written_run = refl

recursive_set-Holds_example : Holds new written (BTreeMap.insert zero_key (9 ∷ []) (entries triple))
recursive_set-Holds_example =
    recursive_set-Holds new 3 (in_memory triple) written triple zero_key (9 ∷ []) 1
      (Loads-in_memory new triple) IsOrdered-triple written_run

-- The rotation of the tree of three to the right.
unfoldable rotated : Node
unfolding right_rotate
rotated = returned (right_rotate new 1 (in_memory triple))

rotated_run : right_rotate new 1 (in_memory triple) ≡ ok rotated
unfolding rotated right_rotate get_height
rotated_run = refl

rotated-Holds : Holds new rotated (entries triple)
rotated-Holds =
    right_rotate-Holds new 1 (in_memory triple) rotated (entries triple)
      (triple, Loads-in_memory new triple, IsOrdered-triple, refl) rotated_run

-- And back to the left.
unfoldable rotated_back : Node
unfolding left_rotate rotated
rotated_back = returned (left_rotate new 1 rotated)

rotated_back_run : left_rotate new 1 rotated ≡ ok rotated_back
unfolding rotated_back left_rotate get_height rotated right_rotate
rotated_back_run = refl

abbrev empty_tree : Tree MemDb
empty_tree = record { root = none; node_db = new; loaded_version = 0; versions = [] }

set_all-height_example :
    (t' : Tree MemDb) × (n : Node) × (shape : Shape) × (set_all 255 empty_tree three_entries
      ≡ ok t')
    × (t'.root ≡ some n)
    × Loads t'.node_db n shape
    × (entries shape ≡ three_entries)
    × (get_height n + 1 ≡ depth shape)
    × (get_height n < 255)
    × (pow_half (get_height n) ≤ 3)
    × (get_size n ≡ 3 % 2 ^ 32)
set_all-height_example =
    set_all-height empty_tree (1 ∷ []) (11 ∷ []) ((2 ∷ [], 22 ∷ []) ∷ (3 ∷ [], 33 ∷ []) ∷ []) refl
      IsSorted-three_entries (omega arith)

set_all-Fills_example :
    (t' : Tree MemDb) × (shape : Shape) × (set_all 255 empty_tree three_entries ≡ ok t')
    × (t'.root ≡ some (in_memory shape))
    × Fills shape three_entries
set_all-Fills_example =
    set_all-Fills empty_tree (1 ∷ []) (11 ∷ []) ((2 ∷ [], 22 ∷ []) ∷ (3 ∷ [], 33 ∷ []) ∷ []) refl
      IsSorted-three_entries (omega arith)

InRange-triple : InRange (in_memory triple)
unfolding hash crates
InRange-triple = (omega arith, omega arith, omega arith, omega arith, omega arith, refl, refl)

deserialize-serialize_example :
    deserialize (serialize (in_memory triple)) ≡ ok (clear_children (in_memory triple))
deserialize-serialize_example =
    deserialize-serialize crates-IsLawful (in_memory triple) InRange-triple

-- ===== src/Store/Hash.antt =====
-- store/src/hash.rs: the hash of the stores of a block. A name is its bytes.
pub mod Order
use Prim.Native.Nat.Ordering.{lt, eq, gt}
use doge_sdk.Base.{ℕ, suc, Bool, true, false, if◌then◌else◌, List, [], ◌∷◌, ◌++◌, length, map}
use doge_sdk.Base.Bytes.{Bytes, cmp, le_bytes}
use doge_sdk.Trees.External.{External}
use doge_sdk.Trees.Outcome.{Outcome, panic}
use doge_sdk.Trees.Merkle

pub record StoreInfo : Type 0 where
  pub name : Bytes
  pub hash : Bytes

pub record Pair : Type 0 where
  pub key : Bytes
  pub value : Bytes

-- The derived order on pairs: by key, and then by value.
unfoldable pub le_pair : Pair → Pair → Bool
le_pair p q = elim (cmp p.key q.key) [ lt ↦ true | eq ↦ le_bytes p.value q.value | gt ↦ false ]

unfoldable pub insert_pair : Pair → List Pair → List Pair
insert_pair p [] = p ∷ []
insert_pair p (q ∷ pairs) =
    let rest = insert_pair p pairs in if le_pair p q then p ∷ q ∷ pairs else q ∷ rest

unfoldable pub sort : List Pair → List Pair
unfolding insert_pair
sort [] = []
sort (p ∷ pairs) = insert_pair p (sort pairs)

module _ ⦃x : External⦄ where
  unfoldable pub to_bytes : Pair → Bytes
  to_bytes p = x.encode_var (length p.key) ++ (p.key ++ (x.encode_var (length p.value) ++ p.value))

  unfoldable pub to_pair : StoreInfo → Pair
  to_pair info = record { key = info.name; value = x.sha256 info.hash }

  unfoldable pub hash_store_infos : List StoreInfo → Outcome Bytes
  unfolding sort to_bytes to_pair Merkle.root_hash
  hash_store_infos [] = panic
  hash_store_infos (info ∷ infos) =
      let byte_pairs = map to_bytes (sort (map to_pair (info ∷ infos))) in
      Merkle.root_hash (suc (length byte_pairs)) byte_pairs

-- ===== src/Trees/Iavl/Node.antt =====
-- The nodes of trees/src/iavl/tree.rs, their hash and their bytes.
pub mod Codec
use doge_sdk.Base.{
  ℕ, ◌+◌, ◌%◌, ◌^◌, ◌≤◌, Bool, true, false, Option, none, some, ◌++◌, length, take, drop, leb, ◌==◌,
  if◌then◌else◌,
}
use doge_sdk.Base.Bytes.{Bytes}
use doge_sdk.Trees.External.{External}
use doge_sdk.Trees.Outcome.{Outcome, ok, err, panic, node_deserialize, ok_or, ◌>>=◌}

-- The fields of `InnerNode` beside the two children.
pub record InnerFields : Type 0 where
  pub key : Bytes
  pub height : ℕ
  pub size : ℕ
  pub left_hash : Bytes
  pub right_hash : Bytes
  pub version : ℕ

-- A child is `Option<Arc<Node>>`: `absent` means that the database holds it under its hash. An
-- `Arc` of this tree has one owner whenever it is written through (`Arc::get_mut`).
mutual
  pub data Node : Type 0 where
    leaf : Bytes → Bytes → ℕ → Node
    inner : Child → Child → InnerFields → Node

  pub data Child : Type 0 where
    absent : Child
    loaded : Node → Child

unfoldable pub get_key : Node → Bytes
get_key (leaf key value version) = key
get_key (inner l r m) = m.key

unfoldable pub get_height : Node → ℕ
get_height (leaf key value version) = 0
get_height (inner l r m) = m.height

unfoldable pub get_size : Node → ℕ
get_size (leaf key value version) = 1
get_size (inner l r m) = m.size

-- A node as it stands in the database: without its children.
unfoldable pub clear_children : Node → Node
clear_children (leaf key value version) = leaf key value version
clear_children (inner l r m) = inner absent absent m

module _ ⦃x : External⦄ where
  unfoldable pub encode_bytes : Bytes → Bytes
  encode_bytes bz = x.encode_var (length bz) ++ bz

  -- The slice panics where the input ends early.
  unfoldable pub decode_bytes : Bytes → Outcome (Bytes × ℕ)
  decode_bytes bz = do
    (bz_length, n_consumed) ← ok_or (x.decode_var_u64 bz) node_deserialize
    if leb (n_consumed + bz_length) (length bz)
        then ok (take bz_length (drop n_consumed bz), n_consumed + bz_length)
        else panic

  unfoldable pub hash_serialize : Node → Bytes
  unfolding encode_bytes
  hash_serialize (leaf key value version) =
      x.encode_var_i64 0
      ++ (x.encode_var_i64 1
          ++ (x.encode_var_i64 (version % 2 ^ 32)
              ++ (encode_bytes key ++ encode_bytes (x.sha256 value))))
  hash_serialize (inner l r m) =
      x.encode_var_i64 m.height
      ++ (x.encode_var_i64 m.size
          ++ (x.encode_var_i64 (m.version % 2 ^ 32)
              ++ (encode_bytes m.left_hash ++ encode_bytes m.right_hash)))

  unfoldable pub hash : Node → Bytes
  unfolding hash_serialize
  hash n = x.sha256 (hash_serialize n)

  unfoldable pub serialize : Node → Bytes
  unfolding encode_bytes
  serialize (leaf key value version) =
      x.encode_var 0
      ++ (x.encode_var 1 ++ (x.encode_var version ++ (encode_bytes key ++ encode_bytes value)))
  serialize (inner l r m) =
      x.encode_var m.height
      ++ (x.encode_var m.size
          ++ (x.encode_var m.version
              ++ (encode_bytes m.key ++ (encode_bytes m.left_hash ++ encode_bytes m.right_hash))))

  -- `left_hash.try_into()` into an array of 32 bytes.
  unfoldable pub to_hash : Bytes → Outcome Bytes
  to_hash b = if length b == 32 then ok b else err node_deserialize

  -- What follows the key: the value of a leaf, the two hashes of an inner node.
  unfoldable pub deserialize_leaf : Bytes → Bytes → ℕ → Outcome Node
  unfolding decode_bytes
  deserialize_leaf bytes key version = do
    (value, _) ← decode_bytes bytes
    ok (leaf key value version)

  unfoldable pub deserialize_inner : Bytes → Bytes → ℕ → ℕ → ℕ → Outcome Node
  unfolding decode_bytes to_hash
  deserialize_inner bytes key height size version = do
    (left_hash, nl) ← decode_bytes bytes
    (right_hash, _) ← decode_bytes (drop nl bytes)
    left ← to_hash left_hash
    right ← to_hash right_hash
    ok (
        inner absent absent (record {
          key = key;
          height = height;
          size = size;
          left_hash = left;
          right_hash = right;
          version = version;
        }))

  unfoldable pub deserialize : Bytes → Outcome Node
  unfolding decode_bytes deserialize_leaf deserialize_inner
  deserialize bytes = do
    (height, n) ← ok_or (x.decode_var_u8 bytes) node_deserialize
    (size, ns) ← ok_or (x.decode_var_u32 (drop n bytes)) node_deserialize
    (version, nv) ← ok_or (x.decode_var_u32 (drop (n + ns) bytes)) node_deserialize
    (key, nk) ← decode_bytes (drop (n + ns + nv) bytes)
    let rest = drop (n + ns + nv + nk) bytes
    if height == 0
        then deserialize_leaf rest key version
        else deserialize_inner rest key height size version

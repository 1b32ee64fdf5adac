-- ===== src/Trees/Iavl/Node/Codec.antt =====
-- A node read back from its bytes.
use mathlib.Core.List.{append-nil, append_assoc}
use doge_sdk.Base.{
  ◌∙◌, drop-add, [], ℕ, ◌+◌, ◌^◌, ◌<◌, ◌≡◌, sym, ap, some, ◌++◌, arith, length, drop, length-append,
  drop-append, take-append, leb, leb_of_le, true, ◌==◌, if◌then◌else◌,
}
use doge_sdk.Base.Bytes.{Bytes}
use doge_sdk.Trees.External.{External, IsLawful}
use doge_sdk.Trees.Outcome.{ok}
use doge_sdk.Trees.Iavl.Node.{
  InnerFields, to_hash, serialize, clear_children, inner, leaf, absent, Node, encode_bytes,
  decode_bytes, deserialize, deserialize_leaf, deserialize_inner,
}

-- The numbers fit the widths that `deserialize` reads, and the hashes are hashes.
abbrev pub InRange : Node → Type 0
InRange (leaf key value version) =
    (version < 2 ^ 32) × (length key < 2 ^ 64) × (length value < 2 ^ 64)
InRange (inner l r m) =
    (0 < m.height)
    × (m.height < 2 ^ 8)
    × (m.size < 2 ^ 32)
    × (m.version < 2 ^ 32)
    × (length m.key < 2 ^ 64)
    × (length m.left_hash ≡ 32)
    × (length m.right_hash ≡ 32)

module _ ⦃x : External⦄ (law : IsLawful x) where
  decode-encode_bytes :
      (b rest : Bytes)
      → length b < 2 ^ 64
      → decode_bytes (encode_bytes b ++ rest) ≡ ok (b, length (encode_bytes b))
  unfolding decode_bytes encode_bytes
  decode-encode_bytes b rest h =
      let e = x.encode_var (length b) in
      let fits : leb (length e + length b) (length (e ++ (b ++ rest))) ≡ true =
        leb_of_le _ _ (omega (arith, length-append e (b ++ rest), length-append b rest)) in
      rw (append_assoc e b rest, law.decode-encode_u64 (length b) (b ++ rest) h)
        (rw fits (
          rw (drop-append e (b ++ rest), take-append b rest)
            (ap (λ n. ok (b, n)) (sym (length-append e b)))))

  -- The head of the bytes: three numbers and the key.
  deserialize_head :
      (bytes : Bytes) (height n size ns version nv nk : ℕ) (key : Bytes)
      → x.decode_var_u8 bytes ≡ some (height, n)
      → x.decode_var_u32 (drop n bytes) ≡ some (size, ns)
      → x.decode_var_u32 (drop (n + ns) bytes) ≡ some (version, nv)
      → decode_bytes (drop (n + ns + nv) bytes) ≡ ok (key, nk)
      → deserialize bytes ≡ (
          if height == 0
          then deserialize_leaf (drop (n + ns + nv + nk) bytes) key version
          else deserialize_inner (drop (n + ns + nv + nk) bytes) key height size version)
  unfolding deserialize
  deserialize_head bytes height n size ns version nv nk key e1 e2 e3 e4 = rw (e1, e2, e3, e4)

  -- The head of `serialize`, before `rest`.
  head : ℕ → ℕ → ℕ → Bytes → Bytes → Bytes
  head height size version key rest =
      x.encode_var height
      ++ (x.encode_var size ++ (x.encode_var version ++ (encode_bytes key ++ rest)))

  deserialize-head :
      (height size version : ℕ) (key rest : Bytes)
      → height < 2 ^ 8
      → size < 2 ^ 32
      → version < 2 ^ 32
      → length key < 2 ^ 64
      → deserialize (head height size version key rest) ≡ (
          if height == 0
          then deserialize_leaf rest key version
          else deserialize_inner rest key height size version)
  unfolding head
  deserialize-head height size version key rest h1 h2 h3 h4 =
      let a = x.encode_var height in
      let b = x.encode_var size in
      let c = x.encode_var version in
      let k = encode_bytes key in
      let bytes = head height size version key rest in
      let d1 : drop (length a) bytes ≡ b ++ (c ++ (k ++ rest)) = drop-append a _ in
      let d2 : drop (length a + length b) bytes ≡ c ++ (k ++ rest) =
        drop-add (length a) (length b) bytes ∙ ap (drop (length b)) d1 ∙ drop-append b _ in
      let d3 : drop (length a + length b + length c) bytes ≡ k ++ rest =
        drop-add (length a + length b) (length c) bytes
        ∙ ap (drop (length c)) d2
        ∙ drop-append c _ in
      let d4 : drop (length a + length b + length c + length k) bytes ≡ rest =
        drop-add (length a + length b + length c) (length k) bytes
        ∙ ap (drop (length k)) d3
        ∙ drop-append k _ in
      deserialize_head bytes height (length a) size (length b) version (length c) (length k) key
        (law.decode-encode_u8 height _ h1)
        (ap x.decode_var_u32 d1 ∙ law.decode-encode_u32 size _ h2)
        (ap x.decode_var_u32 d2 ∙ law.decode-encode_u32 version _ h3)
        (ap decode_bytes d3 ∙ decode-encode_bytes key rest h4)
      ∙ ap
          (λ r.
            if height == 0
            then deserialize_leaf r key version
            else deserialize_inner r key height size version)
          d4

  read_leaf :
      (key value : Bytes) (version : ℕ)
      → length value < 2 ^ 64
      → deserialize_leaf (encode_bytes value) key version ≡ ok (leaf key value version)
  unfolding deserialize_leaf
  read_leaf key value version h =
      let e : decode_bytes (encode_bytes value) ≡ ok (value, length (encode_bytes value)) =
        ap decode_bytes (sym (append-nil (encode_bytes value))) ∙ decode-encode_bytes value [] h in
      rw e

  read_inner :
      (m : InnerFields)
      → length m.left_hash ≡ 32
      → length m.right_hash ≡ 32
      → deserialize_inner
          (encode_bytes m.left_hash ++ encode_bytes m.right_hash)
          m.key
          m.height
          m.size
          m.version
        ≡ ok (inner absent absent m)
  unfolding deserialize_inner to_hash
  read_inner m hl hr =
      let a = encode_bytes m.left_hash in
      let b = encode_bytes m.right_hash in
      let el = decode-encode_bytes m.left_hash b (omega arith) in
      let er : decode_bytes b ≡ ok (m.right_hash, length b) =
        ap decode_bytes (sym (append-nil b)) ∙ decode-encode_bytes m.right_hash [] (omega arith) in
      rw el (rw (drop-append a b, er) (ground (arith, hl, hr)))

  -- If the variable-length integers are read back, so is a node whose numbers fit the widths that
  -- are read and whose hashes have 32 bytes: from its bytes, without its children.
  pub deserialize-serialize :
      (n : Node) → InRange n → deserialize (serialize n) ≡ ok (clear_children n)
  unfolding serialize head clear_children
  deserialize-serialize (leaf key value version) (h1, h2, h3) =
      deserialize-head 0 1 version key (encode_bytes value) (omega arith) (omega arith) h1 h2
      ∙ read_leaf key value version h3
  deserialize-serialize (inner l r m) (h0, h1, h2, h3, h4, h5, h6) =
      deserialize-head m.height m.size m.version m.key
        (encode_bytes m.left_hash ++ encode_bytes m.right_hash) h1 h2 h3 h4
      ∙ ground (arith, read_inner m h5 h6)

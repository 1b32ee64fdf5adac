-- ===== src/Trees/External.antt =====
-- The crates that trees/src calls: sha2, and the variable-length integers of integer_encoding.
use doge_sdk.Base.{ℕ, ◌^◌, ◌<◌, ◌≡◌, ◌++◌, Option, some, length}
use doge_sdk.Base.Bytes.{Bytes}

-- `decode_var` returns the number and how many bytes it took; each width has its own.
pub record External : Type 0 where
  pub sha256 : Bytes → Bytes
  pub encode_var : ℕ → Bytes
  pub encode_var_i64 : ℕ → Bytes
  pub decode_var_u8 : Bytes → Option (ℕ × ℕ)
  pub decode_var_u32 : Bytes → Option (ℕ × ℕ)
  pub decode_var_u64 : Bytes → Option (ℕ × ℕ)

-- A number within the width is read back, whatever follows it; a digest has 32 bytes.
pub record IsLawful (x : External) : Type 0 where
  pub decode-encode_u8 :
      (n : ℕ) (rest : Bytes)
      → n < 2 ^ 8
      → x.decode_var_u8 (x.encode_var n ++ rest) ≡ some (n, length (x.encode_var n))
  pub decode-encode_u32 :
      (n : ℕ) (rest : Bytes)
      → n < 2 ^ 32
      → x.decode_var_u32 (x.encode_var n ++ rest) ≡ some (n, length (x.encode_var n))
  pub decode-encode_u64 :
      (n : ℕ) (rest : Bytes)
      → n < 2 ^ 64
      → x.decode_var_u64 (x.encode_var n ++ rest) ≡ some (n, length (x.encode_var n))
  pub length-sha256 : (b : Bytes) → length (x.sha256 b) ≡ 32

-- ===== src/Messages/Crates.antt =====
-- The crates that the conversions call: bech32, secp256k1, ripemd, sha2, prost and cosmwasm_std,
-- and the generated types of ibc_proto, with the fields that the program reads. A string is its
-- bytes.
use doge_sdk.Base.{ℕ, ◌^◌, ◌<◌, ◌≡◌, Option, none, some, List, [], length}
use doge_sdk.Base.Bytes.{Bytes}
use doge_sdk.Database.Bound.{IsBytes}

pub data Variant : Type 0 where
  bech32 bech32m : Variant

pub record Any : Type 0 where
  pub type_url : Bytes
  pub value : Bytes

pub record RawPubKey : Type 0 where
  pub raw_key : Bytes

pub record RawBaseAccount : Type 0 where
  pub address : Bytes
  pub pub_key : Option Any
  pub account_number : ℕ
  pub sequence : ℕ

pub record RawModuleAccount : Type 0 where
  pub base_account : Option RawBaseAccount
  pub name : Bytes
  pub permissions : List Bytes

-- `encode` and `decode` of a generated type.
pub record Codec (A : Type 0) : Type 0 where
  pub encode : A → Bytes
  pub decode : Bytes → Option A

-- The prefix that the program passes to bech32 is constant, and its encoding fails on an invalid
-- prefix only: the result is that of a valid one. A curve point is written as bytes.
pub record Crates : Type 0 where
  pub bech32_decode : Bytes → Option (Bytes × Bytes × Variant)
  pub bech32_encode : Bytes → Bytes → Variant → Bytes
  pub to_base32 : Bytes → Bytes
  pub from_base32 : Bytes → Option Bytes
  pub sha256 : Bytes → Bytes
  pub ripemd160 : Bytes → Bytes
  pub key_from_slice : Bytes → Option Bytes
  pub key_serialize : Bytes → Bytes
  pub uint_from_str : Bytes → Option ℕ
  pub uint_to_string : ℕ → Bytes
  pub pub_keys : Codec RawPubKey
  pub base_accounts : Codec RawBaseAccount
  pub module_accounts : Codec RawModuleAccount
  pub anys : Codec Any

abbrev pub InRange : RawBaseAccount → Type 0
InRange raw = (raw.account_number < 2 ^ 64) × (raw.sequence < 2 ^ 64)

-- What is encoded is decoded again, numbers within their width; a digest of RIPEMD-160 has 20
-- bytes; a parsed number fits; the empty text is no address.
pub record IsLawful (x : Crates) : Type 0 where
  pub bech32_decode-encode :
      (hrp bits : Bytes) (v : Variant)
      → x.bech32_decode (x.bech32_encode hrp bits v) ≡ some (hrp, bits, v)
  pub bech32_decode-empty : x.bech32_decode [] ≡ none
  pub from-to_base32 : (b : Bytes) → IsBytes b → x.from_base32 (x.to_base32 b) ≡ some b
  pub from_base32-IsBytes : (b a : Bytes) → x.from_base32 b ≡ some a → IsBytes a
  pub length-ripemd160 : (b : Bytes) → length (x.ripemd160 b) ≡ 20
  pub key_from_slice-serialize : (k : Bytes) → x.key_from_slice (x.key_serialize k) ≡ some k
  pub uint_from_str-to_string :
      (n : ℕ) → n < 2 ^ 256 → x.uint_from_str (x.uint_to_string n) ≡ some n
  pub uint_from_str-bound : (s : Bytes) (n : ℕ) → x.uint_from_str s ≡ some n → n < 2 ^ 256
  pub pub_key-decode-encode : (k : RawPubKey) → x.pub_keys.decode (x.pub_keys.encode k) ≡ some k
  pub base-decode-encode :
      (a : RawBaseAccount) → InRange a → x.base_accounts.decode (x.base_accounts.encode a) ≡ some a
  pub module-decode-encode :
      (a : RawModuleAccount) (base : RawBaseAccount)
      → a.base_account ≡ some base
      → InRange base
      → x.module_accounts.decode (x.module_accounts.encode a) ≡ some a
  pub any-decode-encode : (a : Any) → x.anys.decode (x.anys.encode a) ≡ some a

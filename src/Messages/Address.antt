-- ===== src/Messages/Address.antt =====
-- `AccAddress` of proto-types/src/address.rs.
use doge_sdk.Base.{ℕ, ◌≤◌, ◌≡◌, [], ◌∷◌, length, ltb, arith, if◌then◌else◌}
use doge_sdk.Base.Bytes.{Bytes, cmp, eq_bytes}
use doge_sdk.Base.Tried.{Tried, done, failed, ◌>>=◌, try_from}
use doge_sdk.Database.Bound.{IsBytes}
use doge_sdk.Messages.Crates.{Crates, IsLawful, bech32, bech32m}

pub data AddressError : Type 0 where
  decode : AddressError
  invalid_prefix : Bytes → AddressError
  invalid_variant : AddressError
  invalid_length : ℕ → AddressError

abbrev pub max_addr_len : ℕ
max_addr_len = 255

-- "cosmos".
abbrev pub bech32_prefix_acc_addr : Bytes
bech32_prefix_acc_addr = 99 ∷ 111 ∷ 115 ∷ 109 ∷ 111 ∷ 115 ∷ []

-- An address is its bytes; there are two `TryFrom` with one body.
unfoldable pub from_bytes : Bytes → Tried AddressError Bytes
from_bytes v = if ltb max_addr_len (length v) then failed (invalid_length (length v)) else done v

module _ ⦃x : Crates⦄ where
  unfoldable pub from_bech32 : Bytes → Tried AddressError Bytes
  from_bech32 text = do
    (hrp, data5, variant) ← try_from (x.bech32_decode text) decode
    if eq_bytes hrp bech32_prefix_acc_addr
        then (elim variant [
          | bech32m ↦ failed invalid_variant
          | bech32 ↦ (do
            address ← try_from (x.from_base32 data5) decode
            if ltb max_addr_len (length address)
                then failed (invalid_length (length address))
                else done address)
        ])
        else failed (invalid_prefix hrp)

  -- `Display`, and `From<AccAddress>` for `String`.
  unfoldable pub to_string : Bytes → Bytes
  to_string address = x.bech32_encode bech32_prefix_acc_addr (x.to_base32 address) bech32

-- What an `AccAddress` holds.
abbrev pub IsAddress : Bytes → Type 0
IsAddress a = IsBytes a × (length a ≤ 255)

module _ ⦃x : Crates⦄ (law : IsLawful x) where
  -- An address of at most 255 bytes is read back from its text.
  pub from_bech32-to_string : (a : Bytes) → IsAddress a → from_bech32 (to_string a) ≡ done a
  unfolding from_bech32 to_string cmp
  from_bech32-to_string a h =
      rw
        (
          law.bech32_decode-encode bech32_prefix_acc_addr (x.to_base32 a) bech32,
          law.from-to_base32 a h.0,
        )
        (ground (arith, h.1))

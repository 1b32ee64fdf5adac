-- ===== src/Messages/Key.antt =====
-- `PubKey` of proto-messages/src/cosmos/crypto/secp256k1.rs and `PublicKey` of
-- proto-messages/src/cosmos/tx/v1beta1/tx.rs.
use doge_sdk.Base.{◌≡◌, refl, Option, none, some, [], ◌∷◌, length, arith, if◌then◌else◌}
use doge_sdk.Base.Bytes.{Bytes, cmp, eq_bytes}
use doge_sdk.Base.Tried.{Tried, done, failed, ◌>>=◌, try_from}
use doge_sdk.Trees.Outcome.{Outcome, ok, panic}
use doge_sdk.Bank.Coin.{CoinsError}
use doge_sdk.Messages.Crates.{Crates, IsLawful, Any, RawPubKey}
use doge_sdk.Messages.Address.{from_bytes}

-- `Error` of proto-messages/src/error.rs, without its texts.
pub data MessagesError : Type 0 where
  coins : CoinsError → MessagesError
  coin decode_any missing_field decode_address decode_general : MessagesError

pub record PubKey : Type 0 where
  pub key : Bytes

pub data PublicKey : Type 0 where
  secp256k1 : PubKey → PublicKey

-- "/cosmos.crypto.secp256k1.PubKey".
abbrev pub pub_key_url : Bytes
pub_key_url =
    47 ∷ 99 ∷ 111 ∷ 115 ∷ 109 ∷ 111 ∷ 115 ∷ 46 ∷ 99 ∷ 114 ∷ 121 ∷ 112 ∷ 116 ∷ 111 ∷ 46 ∷ 115 ∷ 101
    ∷ 99 ∷ 112 ∷ 50 ∷ 53 ∷ 54 ∷ 107 ∷ 49 ∷ 46 ∷ 80 ∷ 117 ∷ 98 ∷ 75 ∷ 101 ∷ 121 ∷ []

-- `expect` on a result.
abbrev pub expect_done {ℓ} : {E A : Type ℓ} → Tried E A → Outcome A
expect_done (done a) = ok a
expect_done (failed e) = panic

module _ ⦃x : Crates⦄ where
  unfoldable pub pub_key_try_from_raw : RawPubKey → Tried MessagesError PubKey
  pub_key_try_from_raw raw = do
    key ← try_from (x.key_from_slice raw.raw_key) decode_general
    done (record { key = key })

  unfoldable pub pub_key_into_raw : PubKey → RawPubKey
  pub_key_into_raw k = record { raw_key = x.key_serialize k.key }

  unfoldable pub pub_key_get_address : PubKey → Outcome Bytes
  unfolding from_bytes
  pub_key_get_address k = expect_done (from_bytes (x.ripemd160 (x.sha256 (x.key_serialize k.key))))

  unfoldable pub get_address : PublicKey → Outcome Bytes
  unfolding pub_key_get_address
  get_address (secp256k1 key) = pub_key_get_address key

  -- A failure to decode the bytes and one to convert what they hold are the same error.
  unfoldable pub public_key_try_from_any : Any → Tried MessagesError PublicKey
  unfolding pub_key_try_from_raw
  public_key_try_from_any any =
      if eq_bytes any.type_url pub_key_url
      then (do
        raw ← try_from (x.pub_keys.decode any.value) decode_general
        key ← pub_key_try_from_raw raw
        done (secp256k1 key))
      else failed decode_any

  unfoldable pub public_key_into_any : PublicKey → Any
  unfolding pub_key_into_raw
  public_key_into_any (secp256k1 key) = record {
    type_url = pub_key_url;
    value = x.pub_keys.encode (pub_key_into_raw key);
  }

  -- An optional key.
  unfoldable pub key_try_from_any : Option Any → Tried MessagesError (Option PublicKey)
  unfolding public_key_try_from_any
  key_try_from_any none = done none
  key_try_from_any (some any) = do key ← public_key_try_from_any any; done (some key)

  unfoldable pub key_into_any : Option PublicKey → Option Any
  unfolding public_key_into_any
  key_into_any none = none
  key_into_any (some key) = some (public_key_into_any key)

module _ ⦃x : Crates⦄ (law : IsLawful x) where
  -- A key is read back.
  pub public_key_try_from-into_any :
      (k : PublicKey) → public_key_try_from_any (public_key_into_any k) ≡ done k
  unfolding public_key_try_from_any public_key_into_any pub_key_try_from_raw pub_key_into_raw cmp
  public_key_try_from-into_any (secp256k1 k) =
      rw
        (
          law.pub_key-decode-encode (record { raw_key = x.key_serialize k.key }),
          law.key_from_slice-serialize k.key,
        )
        refl

  pub key_try_from-into_any : (k : Option PublicKey) → key_try_from_any (key_into_any k) ≡ done k
  unfolding key_try_from_any key_into_any
  key_try_from-into_any none = refl
  key_try_from-into_any (some k) = rw (public_key_try_from-into_any k) refl

  -- The address of a key always fits: the conversion of the digest does not panic.
  pub get_address-returns : (k : PublicKey) → (a : Bytes) × (get_address k ≡ ok a) × (length a ≡ 20)
  unfolding get_address pub_key_get_address from_bytes
  get_address-returns (secp256k1 k) =
      let d = x.ripemd160 (x.sha256 (x.key_serialize k.key)) in
      (
        d,
        ground (arith, law.length-ripemd160 (x.sha256 (x.key_serialize k.key))),
        law.length-ripemd160 (x.sha256 (x.key_serialize k.key)),
      )

-- ===== src/Messages/Account.antt =====
-- The accounts of proto-messages/src/cosmos/auth.rs.
use doge_sdk.Base.{
  ℕ, ◌+◌, ◌%◌, ◌^◌, ◌<◌, ◌≡◌, refl, Option, none, some, List, [], ◌∷◌, if◌then◌else◌,
}
use doge_sdk.Base.Bytes.{Bytes, cmp, eq_bytes}
use doge_sdk.Base.Tried.{Tried, done, failed, ◌>>=◌, try_from}
use doge_sdk.Messages.Crates.{Crates, IsLawful, Any, RawBaseAccount, RawModuleAccount}
use doge_sdk.Messages.Address.{IsAddress, from_bech32, to_string, from_bech32-to_string}
use doge_sdk.Messages.Key.{
  MessagesError, decode_address, decode_general, decode_any, PublicKey, key_try_from_any,
  key_into_any, key_try_from-into_any,
}

pub record BaseAccount : Type 0 where
  pub address : Bytes
  pub pub_key : Option PublicKey
  pub account_number : ℕ
  pub sequence : ℕ

pub record ModuleAccount : Type 0 where
  pub base_account : BaseAccount
  pub name : Bytes
  pub permissions : List Bytes

pub data Account : Type 0 where
  base : BaseAccount → Account
  module_account : ModuleAccount → Account

-- "/cosmos.auth.v1beta1.BaseAccount" and "/cosmos.auth.v1beta1.ModuleAccount".
abbrev base_account_url : Bytes
base_account_url =
    47 ∷ 99 ∷ 111 ∷ 115 ∷ 109 ∷ 111 ∷ 115 ∷ 46 ∷ 97 ∷ 117 ∷ 116 ∷ 104 ∷ 46 ∷ 118 ∷ 49 ∷ 98 ∷ 101
    ∷ 116 ∷ 97 ∷ 49 ∷ 46 ∷ 66 ∷ 97 ∷ 115 ∷ 101 ∷ 65 ∷ 99 ∷ 99 ∷ 111 ∷ 117 ∷ 110 ∷ 116 ∷ []

abbrev module_account_url : Bytes
module_account_url =
    47 ∷ 99 ∷ 111 ∷ 115 ∷ 109 ∷ 111 ∷ 115 ∷ 46 ∷ 97 ∷ 117 ∷ 116 ∷ 104 ∷ 46 ∷ 118 ∷ 49 ∷ 98 ∷ 101
    ∷ 116 ∷ 97 ∷ 49 ∷ 46 ∷ 77 ∷ 111 ∷ 100 ∷ 117 ∷ 108 ∷ 101 ∷ 65 ∷ 99 ∷ 99 ∷ 111 ∷ 117 ∷ 110 ∷ 116
    ∷ []

unfoldable pub get_public_key : Account → Option PublicKey
get_public_key (base acct) = acct.pub_key
get_public_key (module_account acct) = acct.base_account.pub_key

unfoldable pub get_address : Account → Bytes
get_address (base acct) = acct.address
get_address (module_account acct) = acct.base_account.address

unfoldable pub set_public_key : Account → PublicKey → Account
set_public_key (base acct) key = base (record acct { pub_key = some key })
set_public_key (module_account acct) key =
    module_account (record acct { base_account = record acct.base_account { pub_key = some key } })

-- `sequence += 1` in a `u64`.
unfoldable pub increment_sequence : Account → Account
increment_sequence (base acct) = base (record acct { sequence = (acct.sequence + 1) % 2 ^ 64 })
increment_sequence (module_account acct) = module_account (record acct {
  base_account = record acct.base_account { sequence = (acct.base_account.sequence + 1) % 2 ^ 64 };
})

unfoldable pub get_sequence : Account → ℕ
get_sequence (base acct) = acct.sequence
get_sequence (module_account acct) = acct.base_account.sequence

unfoldable pub get_account_number : Account → ℕ
get_account_number (base acct) = acct.account_number
get_account_number (module_account acct) = acct.base_account.account_number

module _ ⦃x : Crates⦄ where
  unfoldable pub base_try_from_raw : RawBaseAccount → Tried MessagesError BaseAccount
  unfolding from_bech32 key_try_from_any
  base_try_from_raw raw = elim (from_bech32 raw.address) [
    | failed _ ↦ failed decode_address
    | done address ↦ (do
      pub_key ← key_try_from_any raw.pub_key
      done (record {
        address = address;
        pub_key = pub_key;
        account_number = raw.account_number;
        sequence = raw.sequence;
      }))
  ]

  unfoldable pub base_into_raw : BaseAccount → RawBaseAccount
  unfolding to_string key_into_any
  base_into_raw acct = record {
    address = to_string acct.address;
    pub_key = key_into_any acct.pub_key;
    account_number = acct.account_number;
    sequence = acct.sequence;
  }

  unfoldable pub module_try_from_raw : RawModuleAccount → Tried MessagesError ModuleAccount
  unfolding base_try_from_raw
  module_try_from_raw raw = do
    raw_base ← try_from raw.base_account decode_general
    base_account ← base_try_from_raw raw_base
    done (record { base_account = base_account; name = raw.name; permissions = raw.permissions })

  unfoldable pub module_into_raw : ModuleAccount → RawModuleAccount
  unfolding base_into_raw
  module_into_raw acct = record {
    base_account = some (base_into_raw acct.base_account);
    name = acct.name;
    permissions = acct.permissions;
  }

  -- A failure to decode the bytes and one to convert what they hold are the same error.
  unfoldable pub decode_base : Bytes → Tried MessagesError BaseAccount
  unfolding base_try_from_raw
  decode_base bytes = elim (x.base_accounts.decode bytes) [
    | none ↦ failed decode_general
    | some raw ↦ elim (base_try_from_raw raw) [
      | done acct ↦ done acct
      | failed _ ↦ failed decode_general
    ]
  ]

  unfoldable pub decode_module : Bytes → Tried MessagesError ModuleAccount
  unfolding module_try_from_raw
  decode_module bytes = elim (x.module_accounts.decode bytes) [
    | none ↦ failed decode_general
    | some raw ↦ elim (module_try_from_raw raw) [
      | done acct ↦ done acct
      | failed _ ↦ failed decode_general
    ]
  ]

  unfoldable pub account_try_from_any : Any → Tried MessagesError Account
  unfolding decode_base decode_module
  account_try_from_any any =
      if eq_bytes any.type_url base_account_url
      then (do acct ← decode_base any.value; done (base acct))
      else if eq_bytes any.type_url module_account_url
      then (do acct ← decode_module any.value; done (module_account acct))
      else failed decode_any

  unfoldable pub account_into_any : Account → Any
  unfolding base_into_raw module_into_raw
  account_into_any (base acct) = record {
    type_url = base_account_url;
    value = x.base_accounts.encode (base_into_raw acct);
  }
  account_into_any (module_account acct) = record {
    type_url = module_account_url;
    value = x.module_accounts.encode (module_into_raw acct);
  }

  -- `Protobuf::decode` and `encode_vec` of an account, by way of `Any`.
  unfoldable pub decode : Bytes → Tried MessagesError Account
  unfolding account_try_from_any
  decode bytes = elim (x.anys.decode bytes) [
    | none ↦ failed decode_general
    | some any ↦ account_try_from_any any
  ]

  unfoldable pub encode_vec : Account → Bytes
  unfolding account_into_any
  encode_vec acct = x.anys.encode (account_into_any acct)

-- The base account within an account.
abbrev pub inner : Account → BaseAccount
inner (base acct) = acct
inner (module_account acct) = acct.base_account

-- The address has at most 255 bytes, and the numbers fit a `u64`.
abbrev IsBase : BaseAccount → Type 0
IsBase a = IsAddress a.address × (a.account_number < 2 ^ 64) × (a.sequence < 2 ^ 64)

abbrev pub IsAccount : Account → Type 0
IsAccount a = IsBase (inner a)

module _ ⦃x : Crates⦄ (law : IsLawful x) where
  base_try_from-into_raw :
      (a : BaseAccount) → IsBase a → base_try_from_raw (base_into_raw a) ≡ done a
  unfolding base_try_from_raw base_into_raw
  base_try_from-into_raw a h =
      rw
        (
          from_bech32-to_string law a.address h.0,
          base_try_from_raw,
          key_try_from-into_any law a.pub_key,
        )
        refl

  module_try_from-into_raw :
      (a : ModuleAccount) → IsBase a.base_account → module_try_from_raw (module_into_raw a) ≡ done a
  unfolding module_try_from_raw module_into_raw
  module_try_from-into_raw a h = rw (base_try_from-into_raw a.base_account h) refl

  decode_base-encode :
      (a : BaseAccount) → IsBase a → decode_base (x.base_accounts.encode (base_into_raw a)) ≡ done a
  unfolding decode_base base_into_raw
  decode_base-encode a h =
      rw
        (
          law.base-decode-encode (base_into_raw a) (h.1, h.2),
          decode_base,
          base_try_from-into_raw a h,
        )
        refl

  decode_module-encode :
      (a : ModuleAccount)
      → IsBase a.base_account
      → decode_module (x.module_accounts.encode (module_into_raw a)) ≡ done a
  unfolding decode_module module_into_raw base_into_raw
  decode_module-encode a h =
      rw
        (
          law.module-decode-encode (module_into_raw a) (base_into_raw a.base_account) refl
              (h.1, h.2),
          decode_module,
          module_try_from-into_raw a h,
        )
        refl

  -- An account whose address has at most 255 bytes and whose numbers fit a `u64` is read back
  -- from its bytes, over crates that decode what they encode.
  pub decode-encode_vec : (a : Account) → IsAccount a → decode (encode_vec a) ≡ done a
  unfolding decode encode_vec account_try_from_any account_into_any cmp
  decode-encode_vec (base a) h =
      rw (law.any-decode-encode (account_into_any (base a)), decode, decode_base-encode a h) refl
  decode-encode_vec (module_account a) h =
      rw
        (
          law.any-decode-encode (account_into_any (module_account a)),
          decode,
          decode_module-encode a h,
        )
        refl

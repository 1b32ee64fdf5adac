-- ===== src/Messages/Tx.antt =====
-- `Tx` and what it is made of, of proto-messages/src/cosmos/tx/v1beta1/tx.rs.
pub mod Signers
pub mod Raw
pub mod Decoded
pub mod FromBytes
use doge_sdk.Base.{
  ℕ, Bool, true, false, ◌||◌, Option, none, some, List, [], ◌∷◌, ◌++◌, map, if◌then◌else◌,
}
use doge_sdk.Base.Bytes.{Bytes, eq_bytes}
use doge_sdk.Base.Tried.{Tried}
use doge_sdk.Trees.Outcome.{Outcome, ok, panic}
use doge_sdk.Bank.Coin.{Coin}
use doge_sdk.Messages.Crates.{Crates, Any}
use doge_sdk.Messages.Address.{to_string}
use doge_sdk.Messages.Key.{PublicKey, MessagesError}

-- `trait Message`; the text of a failed check is left out.
pub record Message (M : Type 0) : Type 0 where
  pub get_signers : M → List Bytes
  pub validate_basic : M → Bool
  pub into_any : M → Any
  pub try_from_any : Any → Tried MessagesError M

pub record SignatureData : Type 0 where
  pub signature : Bytes
  pub sequence : ℕ

-- `mode_info` is a generated type that the program does not read.
pub record SignerInfo : Type 0 where
  pub public_key : Option PublicKey
  pub mode_info : Option Bytes
  pub sequence : ℕ

pub record Fee : Type 0 where
  pub amount : Option (List Coin)
  pub gas_limit : ℕ
  pub payer : Option Bytes
  pub granter : Bytes

pub record Tip : Type 0 where
  pub amount : Option (List Coin)
  pub tipper : Bytes

pub record AuthInfo : Type 0 where
  pub signer_infos : List SignerInfo
  pub fee : Fee
  pub tip : Option Tip

pub record TxBody (M : Type 0) : Type 0 where
  pub messages : List M
  pub memo : Bytes
  pub timeout_height : ℕ
  pub extension_options : List Any
  pub non_critical_extension_options : List Any

pub record Tx (M : Type 0) : Type 0 where
  pub body : TxBody M
  pub auth_info : AuthInfo
  pub signatures : List Bytes
  pub signatures_data : List SignatureData

-- `TxRaw` is a generated type.
pub record TxRaw : Type 0 where
  pub body_bytes : Bytes
  pub auth_info_bytes : Bytes

pub record TxWithRaw (M : Type 0) : Type 0 where
  pub tx : Tx M
  pub raw : TxRaw

abbrev pub member : Bytes → List Bytes → Bool
member a [] = false
member a (b ∷ bs) = eq_bytes a b || member a bs

-- The signers so far, and the texts that `seen` holds.
abbrev pub Collected : Type 0
Collected = List Bytes × List Bytes

module _ ⦃x : Crates⦄ where
  unfoldable pub add_signer : Collected → Bytes → Collected
  unfolding to_string
  add_signer (signers, seen) addr =
      if member (to_string addr) seen
      then (signers, seen)
      else (signers ++ addr ∷ [], to_string addr ∷ seen)

  unfoldable pub add_signers : Collected → List Bytes → Collected
  unfolding add_signer
  add_signers acc [] = acc
  add_signers acc (addr ∷ addrs) = add_signers (add_signer acc addr) addrs

module _ ⦃x : Crates⦄ {M : Type 0} ⦃m : Message M⦄ where
  unfoldable pub add_messages : Collected → List M → Collected
  unfolding add_signers
  add_messages acc [] = acc
  add_messages acc (msg ∷ msgs) = add_messages (add_signers acc (m.get_signers msg)) msgs

  -- The fee payer comes last.
  unfoldable pub get_signers : Tx M → List Bytes
  unfolding add_messages
  get_signers tx =
      let acc = add_messages ([], []) tx.body.messages in
      elim tx.auth_info.fee.payer [ some addr ↦ (add_signer acc addr).0 | none ↦ acc.0 ]

  -- Without a fee payer the first signer pays; the index panics if there is none.
  unfoldable pub get_fee_payer : Tx M → Outcome Bytes
  unfolding get_signers
  get_fee_payer tx = elim tx.auth_info.fee.payer [
    | some payer ↦ ok payer
    | none ↦ elim (get_signers tx) [ [] ↦ panic | signer ∷ signers ↦ ok signer ]
  ]

unfoldable pub get_public_keys : {M : Type 0} → Tx M → List (Option PublicKey)
get_public_keys tx = map (λ si. si.public_key) tx.auth_info.signer_infos

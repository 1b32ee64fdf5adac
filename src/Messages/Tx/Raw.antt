-- ===== src/Messages/Tx/Raw.antt =====
-- The conversions of a transaction from its generated types and to them, of
-- proto-messages/src/cosmos/tx/v1beta1/tx.rs.
use doge_sdk.Base.{
  ℕ, ◌≡◌, refl, true, sym, Option, none, some, List, [], ◌∷◌, map, length, arith, ◌==◌,
  if◌then◌else◌,
}
use doge_sdk.Base.Bytes.{Bytes}
use doge_sdk.Base.Tried.{Tried, done, failed, ◌>>=◌, try_from, try_map, try_map-map_each}
use doge_sdk.Messages.Crates.{Crates, IsLawful, Any}
use doge_sdk.Messages.Key.{
  MessagesError, missing_field, decode_general, key_try_from_any, key_into_any,
  key_try_from-into_any,
}
use doge_sdk.Messages.Fee.{
  RawFee, RawTip, IsFee, IsTip, fee_try_from, fee_into_raw, tip_try_from, tip_into_raw,
  fee_try_from-into_raw, tip_try_from-into_raw,
}
use doge_sdk.Messages.Tx.{Message, SignatureData, SignerInfo, Tip, AuthInfo, TxBody, Tx}

pub record RawSignerInfo : Type 0 where
  pub public_key : Option Any
  pub mode_info : Option Bytes
  pub sequence : ℕ

pub record RawAuthInfo : Type 0 where
  pub signer_infos : List RawSignerInfo
  pub fee : Option RawFee
  pub tip : Option RawTip

pub record RawTxBody : Type 0 where
  pub messages : List Any
  pub memo : Bytes
  pub timeout_height : ℕ
  pub extension_options : List Any
  pub non_critical_extension_options : List Any

pub record RawTx : Type 0 where
  pub body : Option RawTxBody
  pub auth_info : Option RawAuthInfo
  pub signatures : List Bytes

module _ ⦃x : Crates⦄ where
  unfoldable pub signer_info_try_from : RawSignerInfo → Tried MessagesError SignerInfo
  unfolding key_try_from_any
  signer_info_try_from raw = do
    key ← key_try_from_any raw.public_key
    done (record { public_key = key; mode_info = raw.mode_info; sequence = raw.sequence })

  unfoldable pub signer_info_into_raw : SignerInfo → RawSignerInfo
  unfolding key_into_any
  signer_info_into_raw info = record {
    public_key = key_into_any info.public_key;
    mode_info = info.mode_info;
    sequence = info.sequence;
  }

  -- `transpose` of an optional result.
  unfoldable pub optional_tip : Option RawTip → Tried MessagesError (Option Tip)
  unfolding tip_try_from
  optional_tip none = done none
  optional_tip (some raw) = do tip ← tip_try_from raw; done (some tip)

  -- The error of the tip comes before that of the signers, which are read first.
  unfoldable pub auth_info_try_from : RawAuthInfo → Tried MessagesError AuthInfo
  unfolding signer_info_try_from optional_tip fee_try_from
  auth_info_try_from raw = do
    tip ← optional_tip raw.tip
    signer_infos ← try_map signer_info_try_from raw.signer_infos
    raw_fee ← try_from raw.fee missing_field
    fee ← fee_try_from raw_fee
    done (record { signer_infos = signer_infos; fee = fee; tip = tip })

  unfoldable pub optional_tip_into_raw : Option Tip → Option RawTip
  unfolding tip_into_raw
  optional_tip_into_raw none = none
  optional_tip_into_raw (some tip) = some (tip_into_raw tip)

  unfoldable pub auth_info_into_raw : AuthInfo → RawAuthInfo
  unfolding signer_info_into_raw fee_into_raw optional_tip_into_raw
  auth_info_into_raw info = record {
    signer_infos = map signer_info_into_raw info.signer_infos;
    fee = some (fee_into_raw info.fee);
    tip = optional_tip_into_raw info.tip;
  }

-- Each signature with the sequence of the signer at its place. The lists have the same length.
unfoldable pub signatures_data : List Bytes → List SignerInfo → List SignatureData
signatures_data [] infos = []
signatures_data (signature ∷ signatures) [] = []
signatures_data (signature ∷ signatures) (info ∷ infos) =
    record { signature = signature; sequence = info.sequence } ∷ signatures_data signatures infos

module _ {M : Type 0} ⦃m : Message M⦄ where
  unfoldable pub body_try_from : RawTxBody → Tried MessagesError (TxBody M)
  body_try_from raw = do
    messages ← try_map m.try_from_any raw.messages
    done (record {
      messages = messages;
      memo = raw.memo;
      timeout_height = raw.timeout_height;
      extension_options = raw.extension_options;
      non_critical_extension_options = raw.non_critical_extension_options;
    })

  unfoldable pub body_into_raw : TxBody M → RawTxBody
  body_into_raw body = record {
    messages = map m.into_any body.messages;
    memo = body.memo;
    timeout_height = body.timeout_height;
    extension_options = body.extension_options;
    non_critical_extension_options = body.non_critical_extension_options;
  }

  -- The signatures are paired with the signers, and the body is converted last.
  unfoldable pub with_auth_info : RawTx → RawTxBody → AuthInfo → Tried MessagesError (Tx M)
  unfolding body_try_from signatures_data
  with_auth_info raw body auth_info =
      let converted = (do
        tx_body ← body_try_from body
        done (record {
          body = tx_body;
          auth_info = auth_info;
          signatures = raw.signatures;
          signatures_data = signatures_data raw.signatures auth_info.signer_infos;
        })) in
      if length raw.signatures == length auth_info.signer_infos
      then converted
      else failed decode_general

module _ ⦃x : Crates⦄ {M : Type 0} ⦃m : Message M⦄ where
  unfoldable pub with_body : RawTx → RawTxBody → Tried MessagesError (Tx M)
  unfolding auth_info_try_from with_auth_info
  with_body raw body =
      let converted = (do
        raw_auth_info ← try_from raw.auth_info missing_field
        auth_info ← auth_info_try_from raw_auth_info
        with_auth_info raw body auth_info) in
      if length body.extension_options == 0 then converted else failed decode_general

  unfoldable pub tx_try_from : RawTx → Tried MessagesError (Tx M)
  unfolding with_body
  tx_try_from raw = do body ← try_from raw.body missing_field; with_body raw body

  unfoldable pub tx_into_raw : Tx M → RawTx
  unfolding auth_info_into_raw body_into_raw
  tx_into_raw tx = record {
    body = some (body_into_raw tx.body);
    auth_info = some (auth_info_into_raw tx.auth_info);
    signatures = tx.signatures;
  }

abbrev pub IsOptionalTip : Option Tip → Type 0
IsOptionalTip none = Unit
IsOptionalTip (some tip) = IsTip tip

-- A fee, and a tip if there is one, within their bounds, no extension, and for each signer a
-- signature with its sequence.
abbrev pub IsTx : {M : Type 0} → Tx M → Type 0
IsTx tx =
    IsFee tx.auth_info.fee
    × IsOptionalTip tx.auth_info.tip
    × (tx.body.extension_options ≡ [])
    × (length tx.signatures ≡ length tx.auth_info.signer_infos)
    × (tx.signatures_data ≡ signatures_data tx.signatures tx.auth_info.signer_infos)

module _ ⦃x : Crates⦄ (law : IsLawful x) where
  signer_info_try_from-into_raw :
      (info : SignerInfo) → signer_info_try_from (signer_info_into_raw info) ≡ done info
  unfolding signer_info_try_from signer_info_into_raw
  signer_info_try_from-into_raw info = rw (key_try_from-into_any law info.public_key) refl

  optional_tip-into_raw :
      (tip : Option Tip) → IsOptionalTip tip → optional_tip (optional_tip_into_raw tip) ≡ done tip
  unfolding optional_tip optional_tip_into_raw
  optional_tip-into_raw none h = refl
  optional_tip-into_raw (some tip) h = rw (optional_tip, tip_try_from-into_raw law tip h) refl

  auth_info_try_from-into_raw :
      (info : AuthInfo)
      → IsFee info.fee
      → IsOptionalTip info.tip
      → auth_info_try_from (auth_info_into_raw info) ≡ done info
  unfolding auth_info_try_from auth_info_into_raw
  auth_info_try_from-into_raw info f t =
      rw
        (
          auth_info_try_from,
          optional_tip-into_raw info.tip t,
          try_map-map_each signer_info_try_from signer_info_into_raw signer_info_try_from-into_raw
              info.signer_infos,
          fee_try_from-into_raw law info.fee f,
        )
        refl

module _ {M : Type 0} ⦃m : Message M⦄
    (message : (a : M) → m.try_from_any (m.into_any a) ≡ done a) where
  body_try_from-into_raw : (body : TxBody M) → body_try_from (body_into_raw body) ≡ done body
  unfolding body_try_from body_into_raw
  body_try_from-into_raw body =
      rw (body_try_from, try_map-map_each m.try_from_any m.into_any message body.messages) refl

  -- A transaction is read back from its generated type, over crates that decode what they encode
  -- and messages that are read back: if its fee and its tip are within their bounds (a tip has
  -- an amount), it has no extension options, and each signer has a signature with its sequence.
  pub tx_try_from-into_raw :
      ⦃x : Crates⦄ → IsLawful x → (tx : Tx M) → IsTx tx → tx_try_from (tx_into_raw tx) ≡ done tx
  unfolding tx_try_from tx_into_raw
  tx_try_from-into_raw law tx (f, t, none_left, len, paired) =
      let same : (length tx.signatures == length tx.auth_info.signer_infos) ≡ true =
        ground (arith, len) in
      let empty : (length tx.body.extension_options == 0) ≡ true = ground (arith, none_left) in
      rw
        (
          tx_try_from,
          with_body,
          with_auth_info,
          body_into_raw,
          empty,
          auth_info_try_from-into_raw law tx.auth_info f t,
          same,
          body_try_from-into_raw tx.body,
          sym paired,
        )
        refl

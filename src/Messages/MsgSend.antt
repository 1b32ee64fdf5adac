-- ===== src/Messages/MsgSend.antt =====
-- `MsgSend` of proto-messages/src/cosmos/bank/v1beta1/tx.rs, with its conversions and its bytes.
use doge_sdk.Base.{◌≡◌, refl, List, map, none, some}
use doge_sdk.Base.Bytes.{Bytes}
use doge_sdk.Base.Tried.{Tried, done, failed, ◌>>=◌}
use doge_sdk.Bank.Coin.{Coin}
use doge_sdk.Messages.Crates.{Crates, IsLawful, Codec}
use doge_sdk.Messages.Address.{IsAddress, to_string}
use doge_sdk.Messages.Key.{MessagesError, decode_general}
use doge_sdk.Messages.Coin.{RawCoin, IsSendCoins, coin_into_raw}
use doge_sdk.Messages.Fee.{
  address_try_from, send_coins_try_from, address_try_from-to_string, send_coins_try_from-into_raw,
}

pub record MsgSend : Type 0 where
  pub from_address : Bytes
  pub to_address : Bytes
  pub amount : List Coin

pub record RawMsgSend : Type 0 where
  pub from_address : Bytes
  pub to_address : Bytes
  pub amount : List RawCoin

module _ ⦃x : Crates⦄ where
  unfoldable pub msg_send_try_from : RawMsgSend → Tried MessagesError MsgSend
  unfolding address_try_from send_coins_try_from
  msg_send_try_from raw = do
    from_address ← address_try_from raw.from_address
    to_address ← address_try_from raw.to_address
    amount ← send_coins_try_from raw.amount
    done (record { from_address = from_address; to_address = to_address; amount = amount })

  unfoldable pub msg_send_into_raw : MsgSend → RawMsgSend
  unfolding to_string coin_into_raw
  msg_send_into_raw msg = record {
    from_address = to_string msg.from_address;
    to_address = to_string msg.to_address;
    amount = map coin_into_raw msg.amount;
  }

module _ ⦃x : Crates⦄ ⦃n : Codec RawMsgSend⦄ where
  -- `MsgSend::decode`.
  unfoldable pub msg_send_decode : Bytes → Tried MessagesError MsgSend
  unfolding msg_send_try_from
  msg_send_decode bytes = elim (n.decode bytes) [
    | some raw ↦ msg_send_try_from raw
    | none ↦ failed decode_general
  ]

-- What a message holds that is in memory.
abbrev pub IsMsgSend : MsgSend → Type 0
IsMsgSend msg = IsAddress msg.from_address × IsAddress msg.to_address × IsSendCoins msg.amount

module _ ⦃x : Crates⦄ (law : IsLawful x) ⦃n : Codec RawMsgSend⦄ where
  pub msg_send_decode-encode :
      ((raw : RawMsgSend) → n.decode (n.encode raw) ≡ some raw)
      → (msg : MsgSend) → IsMsgSend msg
      → msg_send_decode (n.encode (msg_send_into_raw msg)) ≡ done msg
  unfolding msg_send_decode msg_send_try_from msg_send_into_raw
  msg_send_decode-encode reads msg (from, to, amount) =
      rw
        (
          msg_send_decode,
          reads (msg_send_into_raw msg),
          address_try_from-to_string law msg.from_address from,
          address_try_from-to_string law msg.to_address to,
          send_coins_try_from-into_raw law msg.amount amount,
        )
        refl

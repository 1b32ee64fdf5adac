-- ===== src/Bank/Message.antt =====
-- x/bank/src/message.rs: the messages of the bank.
use doge_sdk.Base.{◌≡◌, refl, List, [], ◌∷◌, some, if◌then◌else◌}
use doge_sdk.Base.Bytes.{Bytes, cmp, eq_bytes}
use doge_sdk.Base.Tried.{Tried, done, failed}
use doge_sdk.Trees.Outcome.{Outcome, ok, ◌>>=◌}
use doge_sdk.Messages.Crates.{Crates, IsLawful, Any, Codec}
use doge_sdk.Messages.Key.{MessagesError, decode_general, expect_done}
use doge_sdk.Messages.MsgSend.{
  MsgSend, RawMsgSend, IsMsgSend, msg_send_into_raw, msg_send_decode, msg_send_decode-encode,
}

-- `Message` has one constructor.
pub data Message : Type 0 where
  send : MsgSend → Message

-- "/cosmos.bank.v1beta1.MsgSend".
abbrev pub msg_send_url : Bytes
msg_send_url =
    47 ∷ 99 ∷ 111 ∷ 115 ∷ 109 ∷ 111 ∷ 115 ∷ 46 ∷ 98 ∷ 97 ∷ 110 ∷ 107 ∷ 46 ∷ 118 ∷ 49 ∷ 98 ∷ 101
    ∷ 116 ∷ 97 ∷ 49 ∷ 46 ∷ 77 ∷ 115 ∷ 103 ∷ 83 ∷ 101 ∷ 110 ∷ 100 ∷ []

module _ ⦃x : Crates⦄ ⦃n : Codec RawMsgSend⦄ where
  unfoldable pub message_into_any : Message → Any
  unfolding msg_send_into_raw
  message_into_any (send msg) = record {
    type_url = msg_send_url;
    value = n.encode (msg_send_into_raw msg);
  }

  -- The result of `decode` is unwrapped: bytes that do not decode are a panic.
  unfoldable pub message_try_from_any : Any → Outcome (Tried MessagesError Message)
  unfolding msg_send_decode
  message_try_from_any any =
      let decoded = expect_done (msg_send_decode any.value) in
      if eq_bytes any.type_url msg_send_url
      then (do msg ← decoded; ok (done (send msg)))
      else ok (failed decode_general)

unfoldable pub get_signers : Message → List Bytes
get_signers (send msg) = msg.from_address ∷ []

unfoldable pub validate_basic : {E : Type 0} → Message → Tried E Unit
validate_basic (send msg) = done tt

module _ ⦃x : Crates⦄ (law : IsLawful x) ⦃n : Codec RawMsgSend⦄ where
  -- If the crates read back what they write: a message of the bank with valid addresses and valid
  -- coins that is written into an `Any` is read back, and without a panic.
  pub message_try_from-into_any :
      ((raw : RawMsgSend) → n.decode (n.encode raw) ≡ some raw)
      → (msg : MsgSend) → IsMsgSend msg
      → message_try_from_any (message_into_any (send msg)) ≡ ok (done (send msg))
  unfolding message_try_from_any message_into_any cmp
  message_try_from-into_any reads msg h =
      rw (message_into_any, msg_send_decode-encode law reads msg h) refl

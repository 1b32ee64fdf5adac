-- ===== src/Tests/Refused.antt =====
-- A block of transactions that the example chain refuses, read by `TxWithRaw::from_bytes`.
use doge_sdk.Base.{ℕ, zero, suc, ◌≡◌, refl, inl, inr, Option, none, some, [], ◌∷◌}
use doge_sdk.Base.Bytes.{Bytes, cmp}
use doge_sdk.Base.Tried.{Tried, done, failed}
use doge_sdk.Trees.Outcome.{ok}
use doge_sdk.Database.Memory.{MemDb, mem_database}
use doge_sdk.Messages.Crates.{Codec}
use doge_sdk.Messages.Key.{MessagesError}
use doge_sdk.Messages.Fee.{fee_try_from}
use doge_sdk.Messages.Tx.{TxRaw, TxWithRaw}
use doge_sdk.Messages.Tx.Raw.{RawTx, tx_try_from, tx_into_raw}
use doge_sdk.Messages.Tx.FromBytes
use doge_sdk.Bank.Message.{Message}
use doge_sdk.Ante.{AppError, tx_parse, invalid_request}
use doge_sdk.App.{BaseApp, validate_basic_tx_msgs}
use doge_sdk.App.Calls.{Chain}
use doge_sdk.App.Refused.{IsRefused, deliver_txs, deliver_txs-refused}
use doge_sdk.Gaia.Chain.{GenesisState, Given, chain}
use doge_sdk.Tests.Crates.{crates}
use doge_sdk.Tests.Messages.{message_crates, numbers}
use doge_sdk.Tests.Queries.{codecs}
use doge_sdk.Tests.Bank.{coins}
use doge_sdk.Tests.Gaia.{messages, crypto, informal, consensus, genesis, tx}

-- The transaction without its message.
abbrev silent : TxWithRaw Message
silent = record {
  tx = record tx.tx { body = record tx.tx.body { messages = [] } };
  raw = record { body_bytes = []; auth_info_bytes = [] };
}

-- No bytes are no transaction, and a zero is one without a body.
abbrev decode_tx : Bytes → Option RawTx
decode_tx [] = none
decode_tx (zero ∷ b) = some (record { body = none; auth_info = none; signatures = [] })
decode_tx (suc n ∷ b) = some (tx_into_raw silent.tx)

instance abbrev txs : Codec RawTx
txs = record { encode = λ raw. []; decode = decode_tx }

instance abbrev raws : Codec TxRaw
raws = record { encode = λ raw. []; decode = λ b. some silent.raw }

abbrev parsed : Tried MessagesError (TxWithRaw Message) → Tried AppError (TxWithRaw Message)
parsed (done t) = done t
parsed (failed e) = failed tx_parse

abbrev given : Given MemDb ℕ ℕ ℕ
given = record {
  from_bytes = λ raw. ok (parsed (FromBytes.from_bytes raw));
  header_try_from = λ header. some header;
  parse_genesis = λ b. some genesis;
  order = λ cs. cs;
}

unfoldable gaia : Chain MemDb ℕ ℕ Bytes (TxWithRaw Message) Message AppError ℕ GenesisState
unfolding chain
gaia = chain 8 given

abbrev app : BaseApp MemDb ℕ
app = record {
  multi_store = record { head_version = 0; head_commit_hash = []; stores = [] };
  height = 0;
  block_header = none;
}

unread : IsRefused gaia.handlers []
unfolding gaia chain FromBytes.from_bytes FromBytes.tx_decode tx_try_from message_crates cmp
unread = inl (tx_parse, refl)

bodiless : IsRefused gaia.handlers (0 ∷ [])
unfolding gaia chain FromBytes.from_bytes FromBytes.tx_decode tx_try_from message_crates cmp
bodiless = inl (tx_parse, refl)

without_messages : IsRefused gaia.handlers (1 ∷ [])
unfolding gaia chain FromBytes.from_bytes FromBytes.tx_decode tx_try_from message_crates cmp
    fee_try_from tx_into_raw validate_basic_tx_msgs
without_messages = inr (silent, invalid_request, refl, refl)

deliver_txs-refused_example :
    deliver_txs gaia app ([] ∷ (0 ∷ []) ∷ (1 ∷ []) ∷ [])
    ≡ ok (
      record { code = 1; events = [] }
          ∷ record { code = 1; events = [] }
          ∷ record { code = 1; events = [] }
          ∷ [],
      app,
    )
deliver_txs-refused_example =
    deliver_txs-refused gaia app ([] ∷ (0 ∷ []) ∷ (1 ∷ []) ∷ [])
      (unread, (bodiless, (without_messages, tt)))

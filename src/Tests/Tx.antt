-- ===== src/Tests/Tx.antt =====
-- Transactions and their generated types at concrete inputs.
use doge_sdk.Base.{◌≡◌, refl, true, none, some, List, [], ◌∷◌, arith}
use doge_sdk.Base.Bytes.{Bytes, cmp}
use doge_sdk.Base.Tried.{done}
use doge_sdk.Bank.Coin.{Coin, validate_coins}
use doge_sdk.Messages.Key.{secp256k1}
use doge_sdk.Messages.Crates.{Codec}
use doge_sdk.Messages.Coin.{IsSendCoins, is_match, is_letter, is_denom_char}
use doge_sdk.Messages.Fee.{fee_try_from}
use doge_sdk.Messages.Tx.{Message, Tx, TxRaw, TxWithRaw}
use doge_sdk.Messages.Tx.Raw.{
  RawTx, IsTx, tx_try_from, tx_into_raw, signatures_data, tx_try_from-into_raw,
}
use doge_sdk.Messages.Tx.FromBytes.{tx_decode, from_bytes, from_bytes-IsTx}
use doge_sdk.Tests.Messages.{message_crates, message_crates-IsLawful}

-- A message is its signer.
instance abbrev messages : Message Bytes
messages = record {
  get_signers = λ m. m ∷ [];
  validate_basic = λ m. true;
  into_any = λ m. record { type_url = []; value = m };
  try_from_any = λ any. done any.value;
}

-- "atom" and "stake".
abbrev paid : List Coin
paid =
    record { denom = 97 ∷ 116 ∷ 111 ∷ 109 ∷ []; amount = 7 }
    ∷ record { denom = 115 ∷ 116 ∷ 97 ∷ 107 ∷ 101 ∷ []; amount = 1 }
    ∷ []

paid-IsSendCoins : IsSendCoins paid
unfolding validate_coins is_match is_letter is_denom_char cmp
paid-IsSendCoins = (refl, ((refl, omega arith), ((refl, omega arith), tt)))

abbrev tx : Tx Bytes
tx = record {
  body = record {
    messages = (1 ∷ []) ∷ (2 ∷ []) ∷ [];
    memo = 3 ∷ [];
    timeout_height = 4;
    extension_options = [];
    non_critical_extension_options = [];
  };
  auth_info = record {
    signer_infos =
        record {
          public_key = some (secp256k1 (record { key = 5 ∷ [] }));
          mode_info = none;
          sequence = 6;
        }
        ∷ record { public_key = none; mode_info = none; sequence = 7 }
        ∷ [];
    fee = record { amount = some paid; gas_limit = 9; payer = some (2 ∷ []); granter = [] };
    tip = some (record { amount = some paid; tipper = 8 ∷ [] });
  };
  signatures = (10 ∷ []) ∷ (11 ∷ []) ∷ [];
  signatures_data =
      record { signature = 10 ∷ []; sequence = 6 }
      ∷ record { signature = 11 ∷ []; sequence = 7 }
      ∷ [];
}

tx-IsTx : IsTx tx
unfolding signatures_data
tx-IsTx = (
  (omega arith, ((omega arith, tt), omega arith), paid-IsSendCoins),
  (((omega arith, tt), omega arith), (paid, refl, paid-IsSendCoins)),
  refl,
  refl,
  refl,
)

tx_try_from-into_raw_example : tx_try_from (tx_into_raw tx) ≡ done tx
tx_try_from-into_raw_example = tx_try_from-into_raw (λ m. refl) message_crates-IsLawful tx tx-IsTx

-- Every text is read as the transaction, and its parts are empty.
instance abbrev txs : Codec RawTx
txs = record { encode = λ raw. []; decode = λ b. some (tx_into_raw tx) }

instance abbrev raws : Codec TxRaw
raws = record {
  encode = λ raw. [];
  decode = λ b. some (record { body_bytes = b; auth_info_bytes = [] });
}

abbrev read : TxWithRaw Bytes
read = record { tx = tx; raw = record { body_bytes = 5 ∷ []; auth_info_bytes = [] } }

read-from_bytes : from_bytes (5 ∷ []) ≡ done read
unfolding from_bytes tx_decode
read-from_bytes = rw tx_try_from-into_raw_example refl

from_bytes-IsTx_example : IsTx tx × (raws.decode (5 ∷ []) ≡ some read.raw)
from_bytes-IsTx_example = from_bytes-IsTx message_crates-IsLawful (5 ∷ []) read read-from_bytes

-- A fee of zeros is read, and its denominations are not looked at.
zeros_run :
    fee_try_from (record {
      amount = record { denom = []; amount = 0 ∷ [] } ∷ [];
      gas_limit = 9;
      payer = [];
      granter = [];
    })
    ≡ done (record { amount = none; gas_limit = 9; payer = none; granter = [] })
unfolding fee_try_from message_crates
zeros_run = refl

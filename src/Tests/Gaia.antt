-- ===== src/Tests/Gaia.antt =====
-- The example chain at concrete inputs: a message of the bank, and the handlers on three stores.
use doge_sdk.Base.{
  ℕ, zero, suc, ◌≡◌, refl, true, Option, none, some, List, [], ◌∷◌, ◌++◌, length, arith,
}
use doge_sdk.Base.Bytes.{Bytes, cmp}
use doge_sdk.Base.BTreeMap
use doge_sdk.Trees.Iavl.Tree
use doge_sdk.Base.Tried.{Tried, done, failed}
use doge_sdk.Trees.Outcome.{Outcome, ok}
use doge_sdk.Database.Memory.{MemDb, mem_database, new}
use doge_sdk.Store.KvStore.{KvStore}
use doge_sdk.Messages.Crates.{Codec}
use doge_sdk.Messages.Coin.{RawCoin, is_match}
use doge_sdk.Messages.Key.{decode_general}
use doge_sdk.Messages.MsgSend.{MsgSend, RawMsgSend, IsMsgSend}
use doge_sdk.Messages.Tx
use doge_sdk.Messages.Tx.{TxWithRaw}
use doge_sdk.Bank.Coin.{Coin, validate_coins}
use doge_sdk.Bank.Message.{
  Message, send, message_into_any, message_try_from_any, message_try_from-into_any, get_signers,
}
use doge_sdk.Ante.{AppError, Crypto}
use doge_sdk.App.{TxContext}
use doge_sdk.App.ConsensusParams.{ConsensusJson}
use doge_sdk.App.Reach.{AllPending}
use doge_sdk.Auth.Params.{default_params}
use doge_sdk.Bank.Genesis.{Balance, set_balances}
use doge_sdk.Bank.Genesis.Supply.{sum_of, all_coins, IsOnce, set_balances-supply}
use doge_sdk.Gaia.Chain.{GenesisState, Given, chain, chain-AllPending}
use doge_sdk.Gaia.Handler.{Informal, handle_tx}
use doge_sdk.Gaia.StoreKeys.{name, bank, auth, params}
use doge_sdk.Tests.Crates.{crates}
use doge_sdk.Tests.Messages.{
  message_crates, message_crates-IsLawful, numbers, pull, put, pull-put, zeros20, all_bytes-IsBytes,
}
use doge_sdk.Tests.Queries.{codecs}
use doge_sdk.Tests.Bank.{coins}

-- The protobuf bytes of a message: the number of the coins, and then each field.
abbrev coins_encode : List RawCoin → Bytes
coins_encode [] = []
coins_encode (c ∷ cs) = put c.denom (put c.amount (coins_encode cs))

abbrev coins_decode : ℕ → Bytes → Option (List RawCoin)
coins_decode zero b = some []
coins_decode (suc n) b = elim (pull b) [
  | none ↦ none
  | some (denom, rest) ↦ elim (pull rest) [
    | none ↦ none
    | some (amount, rest') ↦ elim (coins_decode n rest') [
      | none ↦ none
      | some cs ↦ some (record { denom = denom; amount = amount } ∷ cs)
    ]
  ]
]

coins_decode-encode : (cs : List RawCoin) → coins_decode (length cs) (coins_encode cs) ≡ some cs
coins_decode-encode [] = refl
coins_decode-encode (c ∷ cs) =
    rw
      (
        coins_decode,
        pull-put c.denom (put c.amount (coins_encode cs)),
        pull-put c.amount (coins_encode cs),
        coins_decode-encode cs,
      )
      refl

abbrev send_encode : RawMsgSend → Bytes
send_encode m = length m.amount ∷ put m.from_address (put m.to_address (coins_encode m.amount))

abbrev send_decode : Bytes → Option RawMsgSend
send_decode [] = none
send_decode (n ∷ b) = elim (pull b) [
  | none ↦ none
  | some (from, rest) ↦ elim (pull rest) [
    | none ↦ none
    | some (to, rest') ↦ elim (coins_decode n rest') [
      | none ↦ none
      | some cs ↦ some (record { from_address = from; to_address = to; amount = cs })
    ]
  ]
]

instance abbrev sends : Codec RawMsgSend
sends = record { encode = send_encode; decode = send_decode }

send_decode-encode : (m : RawMsgSend) → send_decode (send_encode m) ≡ some m
send_decode-encode m =
    rw
      (
        send_decode,
        pull-put m.from_address (put m.to_address (coins_encode m.amount)),
        pull-put m.to_address (coins_encode m.amount),
        coins_decode-encode m.amount,
      )
      refl

-- Seven "atom" from an address to itself.
abbrev msg : MsgSend
msg = record {
  from_address = zeros20;
  to_address = zeros20;
  amount = record { denom = 97 ∷ 116 ∷ 111 ∷ 109 ∷ []; amount = 7 } ∷ [];
}

msg-IsMsgSend : IsMsgSend msg
unfolding validate_coins is_match
msg-IsMsgSend = (
  (all_bytes-IsBytes zeros20 refl, omega arith),
  (all_bytes-IsBytes zeros20 refl, omega arith),
  (refl, ((refl, omega arith), tt)),
)

message_try_from-into_any_example :
    message_try_from_any (message_into_any (send msg)) ≡ ok (done (send msg))
message_try_from-into_any_example =
    message_try_from-into_any message_crates-IsLawful send_decode-encode msg msg-IsMsgSend

-- The conversion of a message is not used by the handlers.
instance abbrev pub messages : Tx.Message Message
messages = record {
  get_signers = get_signers;
  validate_basic = λ m. true;
  into_any = message_into_any;
  try_from_any = λ any. failed decode_general;
}

instance abbrev pub crypto : Crypto
crypto = record {
  encode_sign_doc = λ doc. doc.body_bytes;
  from_hashed_data = λ b. b;
  from_compact = λ b. some b;
  verify_ecdsa = λ message signature key. true;
}

-- A header is a number, and an event the recipient.
instance abbrev pub informal : Informal ℕ Bytes
informal = record { chain_id = λ header. header ∷ []; transfer = λ to from coin. to }

abbrev pub tx : TxWithRaw Message
tx = record {
  tx = record {
    body = record {
      messages = send msg ∷ [];
      memo = [];
      timeout_height = 0;
      extension_options = [];
      non_critical_extension_options = [];
    };
    auth_info = record {
      signer_infos = [];
      fee = record { amount = none; gas_limit = 0; payer = none; granter = [] };
      tip = none;
    };
    signatures = [];
    signatures_data = [];
  };
  raw = record { body_bytes = []; auth_info_bytes = [] };
}

-- Every transaction is read as that of the message.
abbrev from_bytes : Bytes → Outcome (Tried AppError (TxWithRaw Message))
from_bytes raw = ok (done tx)

instance abbrev pub consensus : ConsensusJson ℕ
consensus = record {
  block = λ p. some (p ∷ []);
  evidence = λ p. none;
  validator = λ p. some (p ∷ p ∷ []);
}

abbrev atoms : ℕ → Coin
atoms n = record { denom = 97 ∷ 116 ∷ 111 ∷ 109 ∷ []; amount = n }

-- Ten and seven atoms in two balances, and two of another denomination.
abbrev balances : List Balance
balances =
    record { address = zeros20; coins = atoms 10 ∷ [] }
    ∷ record {
      address = 7 ∷ [];
      coins = record { denom = 98 ∷ 116 ∷ 99 ∷ []; amount = 2 } ∷ atoms 7 ∷ [];
    }
    ∷ []

abbrev pub genesis : GenesisState
genesis = record {
  bank = record { balances = balances; params = record { default_send_enabled = true } };
  auth = record { accounts = []; params = default_params };
}

abbrev given : Given MemDb ℕ ℕ ℕ
given = record {
  from_bytes = from_bytes;
  header_try_from = λ header. some header;
  parse_genesis = λ b. some genesis;
  order = λ cs. cs;
}

chain-AllPending_example : AllPending (chain {S = MemDb} {Event = Bytes} 8 given)
chain-AllPending_example = chain-AllPending 8 given

abbrev store_of : List (Bytes × Bytes) → KvStore MemDb
store_of pending = record {
  persistent_store = record { root = none; node_db = new; loaded_version = 0; versions = [] };
  block_cache = pending;
  tx_cache = [];
}

-- The sender has ten.
ctx : TxContext MemDb ℕ Bytes
ctx = record {
  multi_store = record {
    head_version = 0;
    head_commit_hash = [];
    stores =
        (
          name bank,
          store_of (
              (2 ∷ 20 ∷ zeros20 ++ 97 ∷ 116 ∷ 111 ∷ 109 ∷ [], 10 ∷ 97 ∷ 116 ∷ 111 ∷ 109 ∷ []) ∷ []),
        )
        ∷ (name auth, store_of [])
        ∷ (name params, store_of [])
        ∷ [];
  };
  height = 1;
  events = [];
  header = 5;
  tx_bytes = [];
}

-- The result and the events of the message.
abbrev answer :
    Outcome (Tried AppError Unit × TxContext MemDb ℕ Bytes)
    → Option (Tried AppError Unit × List Bytes)
answer (ok (r, c)) = some (r, c.events)
answer _ = none

handle_tx_run : answer (handle_tx 8 ctx (send msg)) ≡ some (done tt, zeros20 ∷ [])
unfolding ctx handle_tx name cmp BTreeMap.get coins BTreeMap.insert Tree.get
handle_tx_run = refl

abbrev of_balances : Outcome (KvStore MemDb × List Coin) → KvStore MemDb
of_balances (ok (s, totals)) = s
of_balances _ = store_of []

unfoldable after_genesis : KvStore MemDb
unfolding set_balances
after_genesis = of_balances (set_balances (store_of []) [] balances)

abbrev supply : List Coin
supply = atoms 17 ∷ record { denom = 98 ∷ 116 ∷ 99 ∷ []; amount = 2 } ∷ []

set_balances-of_two : set_balances (store_of []) [] balances ≡ ok (after_genesis, supply)
unfolding after_genesis set_balances cmp
set_balances-of_two = refl

set_balances-supply_example :
    ((denom : Bytes) → sum_of denom supply ≡ sum_of denom (all_coins balances)) × IsOnce supply
set_balances-supply_example =
    set_balances-supply (store_of []) after_genesis supply balances set_balances-of_two

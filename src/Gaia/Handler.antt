-- ===== src/Gaia/Handler.antt =====
-- The handler of gaia-rs/src/handler.rs with that of x/bank/src/handler.rs, and the ante handler, on
-- the stores of the application. Each finds its stores by their names.
use doge_sdk.Base.{ℕ, ◌++◌, map}
use doge_sdk.Base.Bytes.{Bytes}
use doge_sdk.Base.Tried.{Tried}
use doge_sdk.Database.Record.{Database}
use doge_sdk.Database.Prefix.{prefix_database}
use doge_sdk.Trees.External.{External}
use doge_sdk.Trees.Outcome.{Outcome, ok, ◌>>=◌}
use doge_sdk.Store.KvStore.{KvStore}
use doge_sdk.Store.MultiStore.Commit.{get_kv_store, put_kv_store}
use doge_sdk.Messages.Crates.{Crates, Codec}
use doge_sdk.Messages.MsgSend.{MsgSend}
use doge_sdk.Messages.Tx
use doge_sdk.Messages.Tx.{TxWithRaw}
use doge_sdk.Bank.Coin.{Coin}
use doge_sdk.Bank.Keeper.{CoinCodec, Sent, sent, insufficient_funds}
use doge_sdk.Bank.Accounts.{send_coins_from_account_to_account}
use doge_sdk.Bank.Message.{Message, send, validate_basic}
use doge_sdk.Ante
use doge_sdk.Ante.{AppError, invalid_request, Crypto}
use doge_sdk.Ante.Stores.{StoreContext, store_context, auth_keeper, bank_keeper, sent_result}
use doge_sdk.App.{TxContext, Handlers}
use doge_sdk.Gaia.StoreKeys.{name, bank, auth, params, params_name}

-- A `PrefixDB` as a value: the shared database with the prefix.
instance abbrev pub view_database : {S : Type 0} ⦃d : Database S⦄ → Database (S × Bytes)
view_database ⦃d⦄ = record {
  get = λ (db, prefix) k. (prefix_database d prefix).get db k;
  put = λ (db, prefix) k v. ((prefix_database d prefix).put db k v, prefix);
  iterator = λ (db, prefix). (prefix_database d prefix).iterator db;
  prefix_iterator = λ (db, prefix) p. (prefix_database d prefix).prefix_iterator db p;
}

module _ {S : Type 0} where
  -- A store over its `PrefixDB`, and back.
  abbrev pub viewed : Bytes → KvStore S → KvStore (S × Bytes)
  viewed prefix s =
      let t = s.persistent_store in
      record {
        persistent_store = record {
          root = t.root;
          node_db = (t.node_db, prefix);
          loaded_version = t.loaded_version;
          versions = t.versions;
        };
        block_cache = s.block_cache;
        tx_cache = s.tx_cache;
      }

  abbrev pub shared : KvStore (S × Bytes) → KvStore S
  shared s =
      let t = s.persistent_store in
      record {
        persistent_store = record {
          root = t.root;
          node_db = (t.node_db).0;
          loaded_version = t.loaded_version;
          versions = t.versions;
        };
        block_cache = s.block_cache;
        tx_cache = s.tx_cache;
      }

-- What tendermint_informal gives: the chain of a header, and the event of a transfer, which
-- `Event::new` makes of the recipient, the sender and the coin.
pub record Informal (Header Event : Type 0) : Type 0 where
  pub chain_id : Header → Bytes
  pub transfer : Bytes → Bytes → Coin → Event

module _ {S Header Event : Type 0} ⦃i : Informal Header Event⦄ where
  -- The three stores that the keepers ask for, with what the ante handler reads of the context.
  unfoldable pub open_context : TxContext S Header Event → Outcome (StoreContext (S × Bytes))
  unfolding name params_name get_kv_store
  open_context ctx = do
    bank_store ← get_kv_store ctx.multi_store (name bank)
    auth_store ← get_kv_store ctx.multi_store (name auth)
    params_store ← get_kv_store ctx.multi_store (name params)
    ok (record {
      height = ctx.height;
      chain_id = i.chain_id ctx.header;
      stores = record {
        auth_store = viewed (name auth) auth_store;
        bank_store = viewed (name bank) bank_store;
      };
      params_store = viewed (name params) params_store;
      auth_subspace = params_name auth;
    })

  -- The stores of the accounts and the balances after they were written in place.
  unfoldable pub close_context :
      TxContext S Header Event → StoreContext (S × Bytes) → TxContext S Header Event
  unfolding name put_kv_store
  close_context ctx c = record ctx {
    multi_store =
        put_kv_store (put_kv_store ctx.multi_store (name bank) (shared c.stores.bank_store))
          (name auth) (shared c.stores.auth_store);
  }

  -- The events of the loop of `send_coins`, which are appended when all coins were sent.
  unfoldable pub append_transfers :
      TxContext S Header Event → MsgSend → Sent → TxContext S Header Event
  append_transfers ctx msg sent = record ctx {
    events = ctx.events ++ map (i.transfer msg.to_address msg.from_address) msg.amount;
  }
  append_transfers ctx msg insufficient_funds = ctx

module _ ⦃x : External⦄ {S Header Event : Type 0} ⦃d : Database S⦄ ⦃r : Crates⦄ ⦃n : Codec ℕ⦄
    ⦃c : CoinCodec⦄ ⦃y : Crypto⦄ ⦃i : Informal Header Event⦄ ⦃m : Tx.Message Message⦄
    (fuel : ℕ) where
  -- The event of the fee's payment is left out: `run_tx` drops it with the context.
  unfoldable pub ante :
      TxContext S Header Event
      → TxWithRaw Message
      → Outcome (Tried AppError Unit × TxContext S Header Event)
  unfolding open_context close_context Ante.run
  ante ctx tx = do
    opened ← open_context ctx
    (result, closed) ← Ante.run ⦃a = auth_keeper fuel⦄ ⦃b = bank_keeper fuel⦄ opened tx
    ok (result, close_context ctx closed)

  unfoldable pub handle_tx :
      TxContext S Header Event → Message → Outcome (Tried AppError Unit × TxContext S Header Event)
  unfolding open_context close_context append_transfers send_coins_from_account_to_account
  handle_tx ctx (send msg) = do
    opened ← open_context ctx
    (result, stores) ←
        send_coins_from_account_to_account fuel opened.stores msg.from_address msg.to_address
          msg.amount
    let closed = close_context ctx (record opened { stores = stores })
    ok (sent_result result, append_transfers closed msg result)

  -- The handlers of the chain, given `TxWithRaw::from_bytes`.
  unfoldable pub handlers :
      (Bytes → Outcome (Tried AppError (TxWithRaw Message)))
      → Handlers S Header Event (TxWithRaw Message) Message AppError
  unfolding ante handle_tx validate_basic
  handlers from_bytes = record {
    from_bytes = from_bytes;
    get_msgs = λ tx. tx.tx.body.messages;
    must_contain_a_message = invalid_request;
    validate_basic = validate_basic;
    ante = ante;
    handle_tx = handle_tx;
  }

-- ===== src/App.antt =====
-- The delivery of a transaction by `BaseApp` of gears/src/baseapp/baseapp.rs.
pub mod Atomic
pub mod Failed
pub mod Calls
pub mod Sync
pub mod Reach
pub mod Refused
pub mod ConsensusParams
use doge_sdk.Base.{ℕ, Option, none, some, List, [], ◌∷◌}
use doge_sdk.Base.Bytes.{Bytes}
use doge_sdk.Base.Tried.{Tried, done, failed}
use doge_sdk.Trees.Outcome.{Outcome, ok, expect, ◌>>=◌}
use doge_sdk.Store.MultiStore.{MultiStore, write_then_clear_tx_caches, clear_tx_caches}

-- `TxContext`, whose multi store is the application's.
pub record TxContext (S Header Event : Type 0) : Type 0 where
  pub multi_store : MultiStore S
  pub height : ℕ
  pub events : List Event
  pub header : Header
  pub tx_bytes : Bytes

-- What an application brings: the decoding of a transaction, the checks of its messages, the ante
-- handler and the handler of a message. They may panic.
pub record Handlers (S Header Event Tx Msg E : Type 0) : Type 0 where
  pub from_bytes : Bytes → Outcome (Tried E Tx)
  pub get_msgs : Tx → List Msg
  pub must_contain_a_message : E
  pub validate_basic : Msg → Tried E Unit
  pub ante : TxContext S Header Event → Tx → Outcome (Tried E Unit × TxContext S Header Event)
  pub handle_tx : TxContext S Header Event → Msg → Outcome (Tried E Unit × TxContext S Header Event)

-- The part of `BaseApp` that `run_tx` reads and writes.
pub record BaseApp (S Header : Type 0) : Type 0 where
  pub multi_store : MultiStore S
  pub height : ℕ
  pub block_header : Option Header

module _ {S Header Event : Type 0} where
  -- `TxContext::new`.
  unfoldable pub new_context : MultiStore S → ℕ → Header → Bytes → TxContext S Header Event
  new_context multi_store height header raw = record {
    multi_store = multi_store;
    height = height;
    events = [];
    header = header;
    tx_bytes = raw;
  }

module _ {S Header Event Tx Msg E : Type 0} (h : Handlers S Header Event Tx Msg E) where
  unfoldable pub run_msgs :
      TxContext S Header Event → List Msg → Outcome (Tried E Unit × TxContext S Header Event)
  run_msgs ctx [] = ok (done tt, ctx)
  run_msgs ctx (msg ∷ msgs) = do
    (result, ctx') ← h.handle_tx ctx msg
    elim result [ done _ ↦ run_msgs ctx' msgs | failed e ↦ ok (failed e, ctx') ]

  unfoldable validate_msgs : List Msg → Tried E Unit
  validate_msgs [] = done tt
  validate_msgs (msg ∷ msgs) = elim (h.validate_basic msg) [
    | done _ ↦ validate_msgs msgs
    | failed e ↦ failed e
  ]

  unfoldable pub validate_basic_tx_msgs : List Msg → Tried E Unit
  unfolding validate_msgs
  validate_basic_tx_msgs [] = failed h.must_contain_a_message
  validate_basic_tx_msgs (msg ∷ msgs) = validate_msgs (msg ∷ msgs)

  -- What is done with the result of the messages.
  unfoldable pub finish :
      BaseApp S Header
      → Tried E Unit
      → TxContext S Header Event
      → Tried E (List Event) × BaseApp S Header
  finish app (done _) ctx =
      (done ctx.events, record app { multi_store = write_then_clear_tx_caches ctx.multi_store })
  finish app (failed e) ctx =
      (failed e, record app { multi_store = clear_tx_caches ctx.multi_store })

  -- The messages, after the ante handler has passed, in a context of their own.
  unfoldable pub deliver_msgs :
      BaseApp S Header
      → TxContext S Header Event
      → List Msg
      → Outcome (Tried E (List Event) × BaseApp S Header)
  unfolding run_msgs finish
  deliver_msgs app ctx msgs = do (result, ctx') ← run_msgs ctx msgs; ok (finish app result ctx')

  -- What is done with the result of the ante handler.
  unfoldable pub after_ante :
      BaseApp S Header
      → Header
      → Bytes
      → Tx
      → Tried E Unit
      → TxContext S Header Event
      → Outcome (Tried E (List Event) × BaseApp S Header)
  unfolding deliver_msgs new_context
  after_ante app header raw tx (done _) ctx =
      deliver_msgs app
        (new_context (write_then_clear_tx_caches ctx.multi_store) app.height header raw)
        (h.get_msgs tx)
  after_ante app header raw tx (failed e) ctx =
      ok (failed e, record app { multi_store = clear_tx_caches ctx.multi_store })

  unfoldable pub execute :
      BaseApp S Header → Header → Bytes → Tx → Outcome (Tried E (List Event) × BaseApp S Header)
  unfolding after_ante new_context
  execute app header raw tx = do
    (result, ctx) ← h.ante (new_context app.multi_store app.height header raw) tx
    after_ante app header raw tx result ctx

  -- A transaction before the first block is a panic.
  unfoldable pub start :
      BaseApp S Header → Bytes → Tried E Tx → Outcome (Tried E (List Event) × BaseApp S Header)
  unfolding execute validate_basic_tx_msgs
  start app raw (failed e) = ok (failed e, app)
  start app raw (done tx) = elim (validate_basic_tx_msgs (h.get_msgs tx)) [
    | failed e ↦ ok (failed e, app)
    | done _ ↦ (do header ← expect app.block_header; execute app header raw tx)
  ]

  unfoldable pub run_tx :
      BaseApp S Header → Bytes → Outcome (Tried E (List Event) × BaseApp S Header)
  unfolding start
  run_tx app raw = do decoded ← h.from_bytes raw; start app raw decoded

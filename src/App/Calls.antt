-- ===== src/App/Calls.antt =====
-- The calls of Tendermint that `BaseApp` of gears/src/baseapp/baseapp.rs answers. Of a response the
-- fields are kept that the application computes.
use doge_sdk.Base.{ℕ, ◌+◌, ◌-◌, ◌%◌, ◌^◌, ◌≡◌, Option, none, some, List, [], ltb, if◌then◌else◌}
use doge_sdk.Base.Bytes.{Bytes}
use doge_sdk.Base.Tried.{Tried, done, failed}
use doge_sdk.Database.Record.{Database}
use doge_sdk.Trees.External.{External}
use doge_sdk.Trees.Outcome.{Outcome, ok, panic, expect, ◌>>=◌}
use doge_sdk.Store.MultiStore.{MultiStore, write_then_clear_tx_caches}
use doge_sdk.Store.MultiStore.Commit
use doge_sdk.App.{Handlers, BaseApp, run_tx}

-- `InitContext`.
pub record InitContext (S Event : Type 0) : Type 0 where
  pub multi_store : MultiStore S
  pub height : ℕ
  pub events : List Event
  pub chain_id : Bytes

-- What a chain brings beside the handlers of transactions: the types that serde and the protobuf
-- crates read, the genesis and the parameters of the consensus.
pub record Chain (S RawHeader Header Event Tx Msg E Params Genesis : Type 0) : Type 0 where
  pub handlers : Handlers S Header Event Tx Msg E
  pub header_try_from : RawHeader → Option Header
  pub parse_genesis : Bytes → Option Genesis
  pub set_consensus_params : InitContext S Event → Params → Outcome (InitContext S Event)
  pub handle_init_genesis : InitContext S Event → Genesis → Outcome (InitContext S Event)
  pub handle_query : MultiStore S → Bytes → Bytes → Outcome (Tried E Bytes)

pub record RequestInitChain (Params : Type 0) : Type 0 where
  pub chain_id : Bytes
  pub consensus_params : Option Params
  pub app_state_bytes : Bytes

pub record ResponseInfo : Type 0 where
  pub last_block_height : ℕ
  pub last_block_app_hash : Bytes

pub record ResponseQuery : Type 0 where
  pub code : ℕ
  pub key : Bytes
  pub value : Bytes
  pub height : ℕ

pub record ResponseDeliverTx (Event : Type 0) : Type 0 where
  pub code : ℕ
  pub events : List Event

pub record ResponseCommit : Type 0 where
  pub app_hash : Bytes
  pub retain_height : ℕ

-- `try_into` of a `u64` into an `i64`, with its `expect`.
abbrev pub to_i64 : ℕ → Outcome ℕ
to_i64 n = if ltb n (2 ^ 63) then ok n else panic

module _ {S Header : Type 0} where
  unfoldable pub new :
      ⦃x : External⦄ → ⦃d : Database S⦄ → S → List Bytes → Outcome (BaseApp S Header)
  unfolding Commit.new
  new db names = do
    multi_store ← Commit.new db names
    ok (record {
      multi_store = multi_store;
      height = multi_store.head_version;
      block_header = none;
    })

  unfoldable pub get_block_height : BaseApp S Header → ℕ
  get_block_height app = app.height

  unfoldable pub set_block_header : BaseApp S Header → Header → BaseApp S Header
  set_block_header app header = record app { block_header = some header }

  -- In a `u64`.
  unfoldable pub increment_block_height : BaseApp S Header → BaseApp S Header
  increment_block_height app = record app { height = (app.height + 1) % 2 ^ 64 }

  unfoldable pub info : BaseApp S Header → Outcome ResponseInfo
  unfolding get_block_height
  info app = do
    height ← to_i64 (get_block_height app)
    ok (record {
      last_block_height = height;
      last_block_app_hash = app.multi_store.head_commit_hash;
    })

  -- The height is counted first, and the response is made last.
  unfoldable pub commit :
      ⦃x : External⦄
      → ⦃d : Database S⦄ → ℕ
      → BaseApp S Header
      → Outcome (ResponseCommit × BaseApp S Header)
  unfolding increment_block_height Commit.commit
  commit fuel app = do
    let counted = increment_block_height app
    (hash, multi_store) ← Commit.commit fuel counted.multi_store
    retain_height ← to_i64 ((counted.height + 2 ^ 64 - 1) % 2 ^ 64)
    ok (
      record { app_hash = hash; retain_height = retain_height },
      record counted { multi_store = multi_store },
    )

module _ {S RawHeader Header Event Tx Msg E Params Genesis : Type 0}
    (c : Chain S RawHeader Header Event Tx Msg E Params Genesis) where
  -- A genesis that cannot be read ends the process.
  unfoldable pub init_chain :
      BaseApp S Header → RequestInitChain Params → Outcome (BaseApp S Header)
  init_chain app request = do
    let ctx : InitContext S Event = record {
      multi_store = app.multi_store;
      height = app.height;
      events = [];
      chain_id = request.chain_id;
    }
    ctx1 ← elim request.consensus_params [
      | none ↦ ok ctx
      | some params ↦ c.set_consensus_params ctx params
    ]
    genesis ← expect (c.parse_genesis request.app_state_bytes)
    ctx2 ← c.handle_init_genesis ctx1 genesis
    ok (record app { multi_store = write_then_clear_tx_caches ctx2.multi_store })

  unfoldable pub query : BaseApp S Header → Bytes → Bytes → Outcome ResponseQuery
  unfolding get_block_height
  query app path key = do
    result ← c.handle_query app.multi_store path key
    elim result [
      | done value ↦ (do
        height ← to_i64 (get_block_height app)
        ok (record { code = 0; key = key; value = value; height = height }))
      | failed e ↦ ok (record { code = 1; key = key; value = []; height = 0 })
    ]

  -- Every error has the code 1.
  unfoldable pub deliver_tx :
      BaseApp S Header → Bytes → Outcome (ResponseDeliverTx Event × BaseApp S Header)
  unfolding run_tx
  deliver_tx app raw = do
    (result, app') ← run_tx c.handlers app raw
    elim result [
      | done events ↦ ok (record { code = 0; events = events }, app')
      | failed e ↦ ok (record { code = 1; events = [] }, app')
    ]

  -- A block without a valid header is a panic.
  unfoldable pub begin_block : BaseApp S Header → Option RawHeader → Outcome (BaseApp S Header)
  unfolding set_block_header
  begin_block app raw = do
    raw_header ← expect raw
    header ← expect (c.header_try_from raw_header)
    ok (set_block_header app header)

  -- One call that changes the state.
  pub data Step ⦃x : External⦄ ⦃d : Database S⦄ (fuel : ℕ) (app : BaseApp S Header)
      : BaseApp S Header → Type 0 where
    init_chain_step :
        (request : RequestInitChain Params) {app' : BaseApp S Header}
        → init_chain app request ≡ ok app'
        → Step fuel app app'
    begin_block_step :
        (raw : Option RawHeader) {app' : BaseApp S Header}
        → begin_block app raw ≡ ok app'
        → Step fuel app app'
    deliver_tx_step :
        (raw : Bytes) (response : ResponseDeliverTx Event) {app' : BaseApp S Header}
        → deliver_tx app raw ≡ ok (response, app')
        → Step fuel app app'
    commit_step :
        (response : ResponseCommit) {app' : BaseApp S Header}
        → commit fuel app ≡ ok (response, app')
        → Step fuel app app'

  -- The states that the calls lead to, from a start on the database.
  pub data Reach ⦃x : External⦄ ⦃d : Database S⦄ (fuel : ℕ) (db : S) (names : List Bytes)
      : BaseApp S Header → Type 0 where
    started : {app : BaseApp S Header} → new db names ≡ ok app → Reach fuel db names app
    called :
        {app app' : BaseApp S Header}
        → Reach fuel db names app
        → Step fuel app app'
        → Reach fuel db names app'

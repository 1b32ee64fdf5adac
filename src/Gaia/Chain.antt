-- ===== src/Gaia/Chain.antt =====
-- The genesis of the example chain (gaia-rs/src/handler.rs and genesis.rs), and the chain as
-- gears/src/baseapp takes it.
use doge_sdk.Base.{ℕ, ◌≡◌, ap, ◌∙◌, Option, some, List}
use std.Path.{subst}
use doge_sdk.Base.Bytes.{Bytes}
use doge_sdk.Base.Tried.{Tried}
use doge_sdk.Database.Record.{Database}
use doge_sdk.Trees.External.{External}
use doge_sdk.Trees.Outcome.{Outcome, ok, bind-eq-ok, ok-injective, ◌>>=◌}
use doge_sdk.Store.KvStore.{KvStore, clear_tx_cache}
use doge_sdk.Store.KvStore.Pending.{IsPending}
use doge_sdk.Store.MultiStore.{clear_stores, clear_tx_caches}
use doge_sdk.Store.MultiStore.Commit.{Stores, find, replace, get_kv_store, put_kv_store}
use doge_sdk.Messages.Crates.{Crates, Codec}
use doge_sdk.Messages.Account.{BaseAccount}
use doge_sdk.Messages.Tx
use doge_sdk.Messages.Tx.{TxWithRaw}
use doge_sdk.Auth.Params
use doge_sdk.Auth.Keeper
use doge_sdk.Auth.Keeper.Pending.{init_genesis-IsPending, set_params-IsPending}
use doge_sdk.Bank.Coin.{Coin}
use doge_sdk.Bank.Keeper.{CoinCodec}
use doge_sdk.Bank.Message.{Message}
use doge_sdk.Bank.Genesis
use doge_sdk.Bank.Genesis.Pending.{init_genesis-ArePending}
use doge_sdk.Ante.{AppError, Crypto}
use doge_sdk.App.Calls.{Chain, InitContext}
use doge_sdk.App.ConsensusParams.{
  ConsensusJson, set_consensus_params, set_consensus_params-IsPending,
}
use doge_sdk.App.Reach.{AllPending}
use doge_sdk.Gaia.StoreKeys.{name, bank, auth, params, params_name, base_app}
use doge_sdk.Gaia.Handler.{Informal, view_database, viewed, shared, handlers}
use doge_sdk.Gaia.Query.{QueryCodecs, handle_query}
use doge_sdk.Gaia.Pending.{
  handlers-OnlyPending, clear-replace, clear-put, IsPending-shared, get_kv_store-find,
}

pub record AuthGenesis : Type 0 where
  pub accounts : List BaseAccount
  pub params : Params.Params

pub record GenesisState : Type 0 where
  pub bank : Genesis.GenesisState
  pub auth : AuthGenesis

module _ {S Event Params : Type 0} ⦃j : ConsensusJson Params⦄ where
  -- Of the context of the genesis.
  unfoldable pub set_params : InitContext S Event → Params → Outcome (InitContext S Event)
  unfolding get_kv_store put_kv_store name params_name set_consensus_params
  set_params ctx consensus_params = do
    s ← get_kv_store ctx.multi_store (name params)
    s' ← set_consensus_params (viewed (name params) s) (params_name base_app) consensus_params
    ok (record ctx { multi_store = put_kv_store ctx.multi_store (name params) (shared s') })

  clear-set_params :
      (ctx ctx' : InitContext S Event) (consensus_params : Params)
      → set_params ctx consensus_params ≡ ok ctx'
      → clear_tx_caches ctx'.multi_store ≡ clear_tx_caches ctx.multi_store
  unfolding set_params put_kv_store clear_tx_caches
  clear-set_params ctx ctx' consensus_params h =
      let m = ctx.multi_store in
      let (s, e, h1) = bind-eq-ok (get_kv_store m (name params)) _ h in
      let (s', e1, h2) =
        bind-eq-ok
          (set_consensus_params (viewed (name params) s) (params_name base_app) consensus_params) _
          h1 in
      let p =
        set_consensus_params-IsPending (viewed (name params) s) s' (params_name base_app)
          consensus_params e1 in
      subst (λ (u : InitContext S Event). clear_tx_caches u.multi_store ≡ clear_tx_caches m)
        (ok-injective h2)
        (ap (λ stores. record m { stores = stores })
          (clear-replace (name params) (shared s') m.stores
            ∙ clear-put m.stores (name params) s (shared s') (get_kv_store-find m (name params) s e)
                (IsPending-shared (name params) s s' p)))

module _ {S : Type 0} where
  clear-put_three :
      (stores : Stores S) (p p' b b' a a' : KvStore S)
      → find (name params) stores ≡ some p
      → find (name bank) stores ≡ some b
      → find (name auth) stores ≡ some a
      → IsPending p p'
      → IsPending b b'
      → IsPending a a'
      → clear_stores
          (replace (name auth) a' (replace (name bank) b' (replace (name params) p' stores)))
        ≡ clear_stores stores
  clear-put_three stores p p' b b' a a' fp fb fa pp pb pa =
      let s1 = replace (name params) p' stores in
      let s2 = replace (name bank) b' s1 in
      let e1 = clear-replace (name params) p' stores ∙ clear-put stores (name params) p p' fp pp in
      let e2 =
        clear-replace (name bank) b' s1
        ∙ ap (λ u. replace (name bank) (clear_tx_cache b') u) e1
        ∙ clear-put stores (name bank) b b' fb pb in
      clear-replace (name auth) a' s2
      ∙ ap (λ u. replace (name auth) (clear_tx_cache a') u) e2
      ∙ clear-put stores (name auth) a a' fa pa

module _ ⦃x : External⦄ {S : Type 0} ⦃d : Database S⦄ ⦃r : Crates⦄ ⦃n : Codec ℕ⦄ ⦃c : CoinCodec⦄
    (fuel : ℕ) (order : List Coin → List Coin) where
  -- The bank first, and then the accounts: on the stores of the parameters, the balances and the
  -- accounts.
  unfoldable pub init_stores :
      KvStore S → KvStore S → KvStore S → GenesisState → Outcome (KvStore S × KvStore S × KvStore S)
  unfolding params_name Genesis.init_genesis Params.set Keeper.init_genesis
  init_stores params_store bank_store auth_store genesis = do
    (params1, bank1) ←
        Genesis.init_genesis order (params_name bank) params_store bank_store genesis.bank
    params2 ← Params.set params1 (params_name auth) genesis.auth.params
    auth1 ← Keeper.init_genesis fuel auth_store genesis.auth.accounts
    ok (params2, bank1, auth1)

  init_stores-IsPending :
      (p p' b b' a a' : KvStore S) (genesis : GenesisState)
      → init_stores p b a genesis ≡ ok (p', b', a')
      → IsPending p p' × IsPending b b' × IsPending a a'
  unfolding init_stores
  init_stores-IsPending p p' b b' a a' genesis h =
      let ((p1, b1), e1, h1) =
        bind-eq-ok (Genesis.init_genesis order (params_name bank) p b genesis.bank) _ h in
      let (p2, e2, h2) =
        bind-eq-ok (Params.set p1 (params_name auth) genesis.auth.params)
          (λ p2. Keeper.init_genesis fuel a genesis.auth.accounts >>= λ a1. ok (p2, b1, a1)) h1 in
      let (a1, e3, h3) =
        bind-eq-ok (Keeper.init_genesis fuel a genesis.auth.accounts) (λ a1. ok (p2, b1, a1)) h2 in
      let (pp, pb) = init_genesis-ArePending order (params_name bank) p p1 b b1 genesis.bank e1 in
      let pp2 = set_params-IsPending p1 p2 (params_name auth) genesis.auth.params e2 in
      let pa = init_genesis-IsPending fuel a a1 genesis.auth.accounts e3 in
      subst
        (λ (q : KvStore S × KvStore S × KvStore S).
          IsPending p q.0 × IsPending b q.1 × IsPending a q.2)
        (ok-injective h3) (pp2 ∙ pp, pb, pa)

module _ ⦃x : External⦄ {S Event : Type 0} ⦃d : Database S⦄ ⦃r : Crates⦄ ⦃n : Codec ℕ⦄
    ⦃c : CoinCodec⦄ (fuel : ℕ) (order : List Coin → List Coin) where
  unfoldable pub handle_init_genesis :
      InitContext S Event → GenesisState → Outcome (InitContext S Event)
  unfolding get_kv_store put_kv_store name init_stores
  handle_init_genesis ctx genesis = do
    params_store ← get_kv_store ctx.multi_store (name params)
    bank_store ← get_kv_store ctx.multi_store (name bank)
    auth_store ← get_kv_store ctx.multi_store (name auth)
    (params1, bank1, auth1) ←
        init_stores fuel order (viewed (name params) params_store) (viewed (name bank) bank_store)
          (viewed (name auth) auth_store) genesis
    ok (record ctx {
      multi_store =
          put_kv_store
            (put_kv_store (put_kv_store ctx.multi_store (name params) (shared params1)) (name bank)
              (shared bank1))
            (name auth) (shared auth1);
    })

  clear-handle_init_genesis :
      (ctx ctx' : InitContext S Event) (genesis : GenesisState)
      → handle_init_genesis ctx genesis ≡ ok ctx'
      → clear_tx_caches ctx'.multi_store ≡ clear_tx_caches ctx.multi_store
  unfolding handle_init_genesis put_kv_store clear_tx_caches
  clear-handle_init_genesis ctx ctx' genesis h =
      let m = ctx.multi_store in
      let (p, e1, h1) = bind-eq-ok (get_kv_store m (name params)) _ h in
      let (b, e2, h2) = bind-eq-ok (get_kv_store m (name bank)) _ h1 in
      let (a, e3, h3) = bind-eq-ok (get_kv_store m (name auth)) _ h2 in
      let vp = viewed (name params) p in
      let vb = viewed (name bank) b in
      let va = viewed (name auth) a in
      let ((p1, b1, a1), e4, h4) = bind-eq-ok (init_stores fuel order vp vb va genesis) _ h3 in
      let (pp, pb, pa) = init_stores-IsPending fuel order vp p1 vb b1 va a1 genesis e4 in
      subst (λ (u : InitContext S Event). clear_tx_caches u.multi_store ≡ clear_tx_caches m)
        (ok-injective h4)
        (ap (λ stores. record m { stores = stores })
          (clear-put_three m.stores p (shared p1) b (shared b1) a (shared a1)
            (get_kv_store-find m (name params) p e1) (get_kv_store-find m (name bank) b e2)
            (get_kv_store-find m (name auth) a e3) (IsPending-shared (name params) p p1 pp)
            (IsPending-shared (name bank) b b1 pb) (IsPending-shared (name auth) a a1 pa)))

-- What the chain is given: the splitting of a transaction, the generated types, and serde.
pub record Given (S RawHeader Header Params : Type 0) : Type 0 where
  pub from_bytes : Bytes → Outcome (Tried AppError (TxWithRaw Message))
  pub header_try_from : RawHeader → Option Header
  pub parse_genesis : Bytes → Option GenesisState
  pub order : List Coin → List Coin

module _ ⦃x : External⦄ {S RawHeader Header Event Params : Type 0} ⦃d : Database S⦄ ⦃r : Crates⦄
    ⦃n : Codec ℕ⦄ ⦃c : CoinCodec⦄ ⦃y : Crypto⦄ ⦃i : Informal Header Event⦄ ⦃m : Tx.Message Message⦄
    ⦃j : ConsensusJson Params⦄ ⦃q : QueryCodecs⦄ (fuel : ℕ)
    (g : Given S RawHeader Header Params) where
  unfoldable pub chain :
      Chain S RawHeader Header Event (TxWithRaw Message) Message AppError Params GenesisState
  unfolding handlers set_params handle_init_genesis handle_query
  chain = record {
    handlers = handlers fuel g.from_bytes;
    header_try_from = g.header_try_from;
    parse_genesis = g.parse_genesis;
    set_consensus_params = set_params;
    handle_init_genesis = handle_init_genesis fuel g.order;
    handle_query = handle_query fuel;
  }

  -- The example chain fills what is asked of a chain: whatever the ante handler, the handler of a
  -- message, the genesis of the bank and the accounts, and the consensus parameters have changed
  -- in the stores when they answer, is pending, so to clear the transaction caches takes it back.
  pub chain-AllPending : AllPending chain
  unfolding chain
  chain-AllPending = record {
    handlers-OnlyPending = handlers-OnlyPending fuel g.from_bytes;
    clear-set_consensus_params = clear-set_params;
    clear-handle_init_genesis = clear-handle_init_genesis fuel g.order;
  }

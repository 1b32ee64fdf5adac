-- ===== src/App/Reach.antt =====
-- What holds in every state that the calls of Tendermint lead to.
use doge_sdk.Base.{ℕ, ◌+◌, ◌-◌, ◌%◌, ◌^◌, ◌≡◌, refl, sym, ap, ◌∙◌, Option, none, some, List, []}
use std.Path.{subst}
use doge_sdk.Base.Bytes.{Bytes}
use doge_sdk.Base.Tried.{Tried, done, failed}
use doge_sdk.Database.Record.{Database, IsLawful}
use doge_sdk.Trees.External.{External}
use doge_sdk.Trees.Outcome.{Outcome, ok, expect, bind-eq-ok, ok-injective}
use doge_sdk.Store.Hash.{hash_store_infos}
use doge_sdk.Store.MultiStore.Commit
use doge_sdk.Store.MultiStore.{
  MultiStore, clear_tx_caches, committed, committed-write_then_clear_tx_caches,
  write_then_clear_tx_caches-IsSettled,
}
use doge_sdk.Store.MultiStore.Commit.{Stores, open_stores, db_of}
use doge_sdk.Store.MultiStore.Isolation.{commit-over, commit_over-leaves}
use doge_sdk.App.{BaseApp, run_tx}
use doge_sdk.App.Atomic.{OnlyPending, run_tx-IsKept, committed-of-clear}
use doge_sdk.App.Calls.{
  Chain, InitContext, RequestInitChain, ResponseDeliverTx, ResponseCommit, new, init_chain,
  begin_block, deliver_tx, commit, set_block_header, increment_block_height, Step, init_chain_step,
  begin_block_step, deliver_tx_step, commit_step, Reach, started, called, to_i64,
}
use doge_sdk.App.Sync.{
  open_stores-clean, IsSettled-clean, trees-AreTrees, AreShared-trees, Agrees, InSync,
}

-- Neither the handlers nor the genesis leave anything but pending writes.
pub record AllPending {S RawHeader Header Event Tx Msg E Params Genesis : Type 0}
    (c : Chain S RawHeader Header Event Tx Msg E Params Genesis) : Type 0 where
  pub handlers-OnlyPending : OnlyPending c.handlers
  pub clear-set_consensus_params :
      (ctx ctx' : InitContext S Event) (params : Params)
      → c.set_consensus_params ctx params ≡ ok ctx'
      → clear_tx_caches ctx'.multi_store ≡ clear_tx_caches ctx.multi_store
  pub clear-handle_init_genesis :
      (ctx ctx' : InitContext S Event) (genesis : Genesis)
      → c.handle_init_genesis ctx genesis ≡ ok ctx'
      → clear_tx_caches ctx'.multi_store ≡ clear_tx_caches ctx.multi_store

module _ ⦃x : External⦄ {S Header : Type 0} ⦃d : Database S⦄ where
  new-InSync :
      (db : S) (names : List Bytes) (app : BaseApp S Header)
      → new db names ≡ ok app
      → InSync names app
  unfolding new Commit.new
  new-InSync db names app h =
      let (m, e, h1) = bind-eq-ok (Commit.new db names) _ h in
      let ((v, infos, stores), e1, h2) = bind-eq-ok (open_stores db names 0) _ e in
      let (hash, e2, h3) = bind-eq-ok (hash_store_infos infos) _ h2 in
      let (shared, clean, named) = open_stores-clean db names 0 v infos stores e1 in
      let m0 : MultiStore S = record {
        head_version = v;
        head_commit_hash = hash;
        stores = stores;
      } in
      let sync : InSync {Header = Header} names
          (record { multi_store = m0; height = v; block_header = none }) =
        ((refl, (db, trees-AreTrees db names stores shared named)), IsSettled-clean m0 clean) in
      let sync' =
        subst
          (λ (u : MultiStore S).
            InSync {Header = Header} names
              (record { multi_store = u; height = u.head_version; block_header = none }))
          (ok-injective h3) sync in
      subst (λ (a : BaseApp S Header). InSync names a) (ok-injective h1) sync'

  commit-InSync :
      IsLawful d
      → (fuel : ℕ) (names : List Bytes) (app app' : BaseApp S Header) (response : ResponseCommit)
      → InSync names app
      → commit fuel app ≡ ok (response, app')
      → InSync names app'
  unfolding commit increment_block_height
  commit-InSync law fuel names app app' response ((agree, (db, ts)), settled) h =
      let counted = increment_block_height app in
      let ((hash, m), e, h1) = bind-eq-ok (Commit.commit fuel counted.multi_store) _ h in
      let (retain, e1, h2) = bind-eq-ok (to_i64 ((counted.height + 2 ^ 64 - 1) % 2 ^ 64)) _ h1 in
      let (shared, named) = AreShared-trees db names app.multi_store.stores ts in
      let over = commit-over fuel db app.multi_store (hash, m) shared e in
      let (db', v, hashed, named', clean, shared', views) =
        commit_over-leaves law fuel db app.multi_store m hash over in
      subst (λ (r : ResponseCommit × BaseApp S Header). InSync names r.1) (ok-injective h2)
        (
          (
            ap (λ n. (n + 1) % 2 ^ 64) agree ∙ sym v,
            (db', trees-AreTrees db' names m.stores shared' (named' ∙ named)),
          ),
          IsSettled-clean m clean,
        )

module _ {S RawHeader Header Event Tx Msg E Params Genesis : Type 0}
    (c : Chain S RawHeader Header Event Tx Msg E Params Genesis) (law : AllPending c) where
  begin_block-InSync :
      (names : List Bytes) (app app' : BaseApp S Header) (raw : Option RawHeader)
      → InSync names app
      → begin_block c app raw ≡ ok app'
      → InSync names app'
  unfolding begin_block set_block_header
  begin_block-InSync names app app' raw sync h =
      let (raw_header, e, h1) = bind-eq-ok (expect raw) _ h in
      let (header, e1, h2) = bind-eq-ok (expect (c.header_try_from raw_header)) _ h1 in
      subst (λ (a : BaseApp S Header). InSync names a) (ok-injective h2) sync

  deliver_tx-run_tx :
      (app app' : BaseApp S Header) (raw : Bytes) (response : ResponseDeliverTx Event)
      → deliver_tx c app raw ≡ ok (response, app')
      → (r : Tried E (List Event)) × (run_tx c.handlers app raw ≡ ok (r, app'))
  unfolding deliver_tx
  deliver_tx-run_tx app app' raw response h =
      let ((result, app1), e, h1) = bind-eq-ok (run_tx c.handlers app raw) _ h in
      (result, e ∙ ap (λ a. ok (result, a)) (go result app1 h1))
    where
      go :
          (result : Tried E (List Event)) (app1 : BaseApp S Header)
          → elim result as (λ r. Outcome (ResponseDeliverTx Event × BaseApp S Header)) [
            | done events ↦ ok (record { code = 0; events = events }, app1)
            | failed e ↦ ok (record { code = 1; events = [] }, app1)
          ]
            ≡ ok (response, app')
          → app1 ≡ app'
      go (done events) app1 h1 =
          ap (λ (q : ResponseDeliverTx Event × BaseApp S Header). q.1) (ok-injective h1)
      go (failed e) app1 h1 =
          ap (λ (q : ResponseDeliverTx Event × BaseApp S Header). q.1) (ok-injective h1)

  deliver_tx-InSync :
      (names : List Bytes) (app app' : BaseApp S Header) (raw : Bytes)
      (response : ResponseDeliverTx Event)
      → InSync names app
      → deliver_tx c app raw ≡ ok (response, app')
      → InSync names app'
  deliver_tx-InSync names app app' raw response (agree, settled) h =
      let (r, e) = deliver_tx-run_tx app app' raw response h in
      let (same, height, header, settled') =
        run_tx-IsKept c.handlers law.handlers-OnlyPending app app' raw r settled e in
      (
        subst (λ n. Agrees names n (committed app'.multi_store)) (sym height)
            (subst (λ q. Agrees names app.height q) (sym same) agree),
        settled',
      )

  init_chain-InSync :
      (names : List Bytes) (app app' : BaseApp S Header) (request : RequestInitChain Params)
      → InSync names app
      → init_chain c app request ≡ ok app'
      → InSync names app'
  unfolding init_chain
  init_chain-InSync names app app' request (agree, settled) h =
      let ctx : InitContext S Event = record {
        multi_store = app.multi_store;
        height = app.height;
        events = [];
        chain_id = request.chain_id;
      } in
      let (ctx1, e, h1) =
        bind-eq-ok
          (elim request.consensus_params as (λ o. Outcome (InitContext S Event)) [
            | none ↦ ok ctx
            | some params ↦ c.set_consensus_params ctx params
          ])
          _ h in
      let (genesis, e1, h2) = bind-eq-ok (expect (c.parse_genesis request.app_state_bytes)) _ h1 in
      let (ctx2, e2, h3) = bind-eq-ok (c.handle_init_genesis ctx1 genesis) _ h2 in
      let pending =
        law.clear-handle_init_genesis ctx1 ctx2 genesis e2
        ∙ params_pending ctx ctx1 request.consensus_params e in
      let same =
        committed-write_then_clear_tx_caches ctx2.multi_store
        ∙ committed-of-clear c.handlers law.handlers-OnlyPending app.multi_store ctx2.multi_store
            pending in
      subst (λ (a : BaseApp S Header). InSync names a) (ok-injective h3)
        (
          subst (λ q. Agrees names app.height q) (sym same) agree,
          write_then_clear_tx_caches-IsSettled ctx2.multi_store,
        )
    where
      params_pending :
          (ctx ctx1 : InitContext S Event) (params : Option Params)
          → elim params as (λ o. Outcome (InitContext S Event)) [
            | none ↦ ok ctx
            | some params ↦ c.set_consensus_params ctx params
          ]
            ≡ ok ctx1
          → clear_tx_caches ctx1.multi_store ≡ clear_tx_caches ctx.multi_store
      params_pending ctx ctx1 none h =
          sym (ap (λ (u : InitContext S Event). clear_tx_caches u.multi_store) (ok-injective h))
      params_pending ctx ctx1 (some params) h = law.clear-set_consensus_params ctx ctx1 params h

  Step-InSync :
      ⦃x : External⦄
      → ⦃d : Database S⦄ → IsLawful d
      → (fuel : ℕ) (names : List Bytes) (app app' : BaseApp S Header) → InSync names app
      → Step c fuel app app'
      → InSync names app'
  Step-InSync lawful fuel names app app' sync (init_chain_step request h) =
      init_chain-InSync names app app' request sync h
  Step-InSync lawful fuel names app app' sync (begin_block_step raw h) =
      begin_block-InSync names app app' raw sync h
  Step-InSync lawful fuel names app app' sync (deliver_tx_step raw response h) =
      deliver_tx-InSync names app app' raw response sync h
  Step-InSync lawful fuel names app app' sync (commit_step response h) =
      commit-InSync lawful fuel names app app' response sync h

  -- In every state that the calls of Tendermint lead to, in any order, from a start on any
  -- database that gives back what was written: the height is the version of the last commit, the
  -- stores are those of the start and over one state of the database, and nothing is pending. The
  -- handlers and the genesis leave nothing but pending writes.
  pub Reach-InSync :
      ⦃x : External⦄
      → ⦃d : Database S⦄ → IsLawful d
      → (fuel : ℕ) (db : S) (names : List Bytes) (app : BaseApp S Header)
      → Reach c fuel db names app
      → InSync names app
  Reach-InSync lawful fuel db names app (started h) = new-InSync db names app h
  Reach-InSync lawful fuel db names _ (called {app} {app'} r st) =
      Step-InSync lawful fuel names app app' (Reach-InSync lawful fuel db names app r) st

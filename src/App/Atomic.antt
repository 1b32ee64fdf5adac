-- ===== src/App/Atomic.antt =====
-- What `run_tx` leaves in the stores.
use doge_sdk.Base.{◌≡◌, refl, sym, ap, ◌∙◌, inl, inr, List, [], ◌∷◌, arith}
use std.Path.{subst}
use doge_sdk.Base.Bytes.{Bytes}
use doge_sdk.Base.Tried.{Tried, done, failed, Tried-cases}
use doge_sdk.Trees.Outcome.{Outcome, ok, expect, bind-eq-ok, ok-injective}
use doge_sdk.Store.MultiStore.{
  MultiStore, clear_tx_caches, IsSettled, write_then_clear_tx_caches-IsSettled,
  clear_tx_caches-IsSettled, committed, committed-write_then_clear_tx_caches,
  committed-clear_tx_caches,
}
use doge_sdk.App.{
  TxContext, Handlers, BaseApp, run_msgs, finish, deliver_msgs, new_context, after_ante, execute,
  start, validate_basic_tx_msgs, run_tx,
}

-- The handlers write through `KVStore::set`, so all that they change is pending.
pub record OnlyPending {S Header Event Tx Msg E : Type 0} (h : Handlers S Header Event Tx Msg E)
    : Type 0 where
  pub clear-ante :
      (ctx ctx' : TxContext S Header Event) (tx : Tx) (r : Tried E Unit)
      → h.ante ctx tx ≡ ok (r, ctx')
      → clear_tx_caches ctx'.multi_store ≡ clear_tx_caches ctx.multi_store
  pub clear-handle_tx :
      (ctx ctx' : TxContext S Header Event) (msg : Msg) (r : Tried E Unit)
      → h.handle_tx ctx msg ≡ ok (r, ctx')
      → clear_tx_caches ctx'.multi_store ≡ clear_tx_caches ctx.multi_store

module _ {S Header Event Tx Msg E : Type 0} (h : Handlers S Header Event Tx Msg E)
    (law : OnlyPending h) where
  pub clear-run_msgs :
      (ctx ctx' : TxContext S Header Event) (msgs : List Msg) (r : Tried E Unit)
      → run_msgs h ctx msgs ≡ ok (r, ctx')
      → clear_tx_caches ctx'.multi_store ≡ clear_tx_caches ctx.multi_store
  unfolding run_msgs
  clear-run_msgs ctx ctx' [] r k = sym (
      ap (λ (q : Tried E Unit × TxContext S Header Event). clear_tx_caches (q.1).multi_store)
        (ok-injective k))
  clear-run_msgs ctx ctx' (msg ∷ msgs) r k =
      let ((result, ctx1), e, k1) = bind-eq-ok (h.handle_tx ctx msg) _ k in
      go result ctx1 k1 (λ q. clear-run_msgs ctx1 ctx' msgs r q)
      ∙ law.clear-handle_tx ctx ctx1 msg result e
    where
      go :
          (result : Tried E Unit) (ctx1 : TxContext S Header Event)
          → elim result as (λ x. Outcome (Tried E Unit × TxContext S Header Event)) [
            | done _ ↦ run_msgs h ctx1 msgs
            | failed e ↦ ok (failed e, ctx1)
          ]
            ≡ ok (r, ctx')
          → (run_msgs h ctx1 msgs ≡ ok (r, ctx')
              → clear_tx_caches ctx'.multi_store ≡ clear_tx_caches ctx1.multi_store)
          → clear_tx_caches ctx'.multi_store ≡ clear_tx_caches ctx1.multi_store
      go (done _) ctx1 k1 ih = ih k1
      go (failed e) ctx1 k1 ih = sym (
          ap (λ (q : Tried E Unit × TxContext S Header Event). clear_tx_caches (q.1).multi_store)
            (ok-injective k1))

  -- What stays as it was: the commit, the height and the header; and nothing is pending.
  abbrev pub IsKept : BaseApp S Header → BaseApp S Header → Type 0
  IsKept app app' =
      (committed app'.multi_store ≡ committed app.multi_store)
      × (app'.height ≡ app.height)
      × (app'.block_header ≡ app.block_header)
      × IsSettled app'.multi_store

  pub committed-of-clear :
      (m m' : MultiStore S) → clear_tx_caches m' ≡ clear_tx_caches m → committed m' ≡ committed m
  committed-of-clear m m' e =
      sym (committed-clear_tx_caches m') ∙ ap committed e ∙ committed-clear_tx_caches m

  finish-IsKept :
      (app : BaseApp S Header) (ctx : TxContext S Header Event) (r : Tried E Unit)
      → committed ctx.multi_store ≡ committed app.multi_store
      → IsKept app (finish h app r ctx).1
  unfolding finish
  finish-IsKept app ctx (done _) e = (
    committed-write_then_clear_tx_caches ctx.multi_store ∙ e,
    refl,
    refl,
    write_then_clear_tx_caches-IsSettled ctx.multi_store,
  )
  finish-IsKept app ctx (failed _) e = (
    committed-clear_tx_caches ctx.multi_store ∙ e,
    refl,
    refl,
    clear_tx_caches-IsSettled ctx.multi_store,
  )

  deliver_msgs-IsKept :
      (app app' : BaseApp S Header) (ctx : TxContext S Header Event) (msgs : List Msg)
      (r : Tried E (List Event))
      → committed ctx.multi_store ≡ committed app.multi_store
      → deliver_msgs h app ctx msgs ≡ ok (r, app')
      → IsKept app app'
  unfolding deliver_msgs
  deliver_msgs-IsKept app app' ctx msgs r e k =
      let ((result, ctx1), e1, k1) = bind-eq-ok (run_msgs h ctx msgs) _ k in
      let same =
        committed-of-clear ctx.multi_store ctx1.multi_store
          (clear-run_msgs ctx ctx1 msgs result e1) in
      subst (λ (q : Tried E (List Event) × BaseApp S Header). IsKept app q.1) (ok-injective k1)
        (finish-IsKept app ctx1 result (same ∙ e))

  after_ante-IsKept :
      (app app' : BaseApp S Header) (header : Header) (raw : Bytes) (tx : Tx)
      (result : Tried E Unit) (ctx : TxContext S Header Event) (r : Tried E (List Event))
      → committed ctx.multi_store ≡ committed app.multi_store
      → after_ante h app header raw tx result ctx ≡ ok (r, app')
      → IsKept app app'
  unfolding after_ante new_context
  after_ante-IsKept app app' header raw tx (done _) ctx r e k =
      deliver_msgs-IsKept app app' _ (h.get_msgs tx) r
        (committed-write_then_clear_tx_caches ctx.multi_store ∙ e) k
  after_ante-IsKept app app' header raw tx (failed _) ctx r e k =
      subst (λ (q : Tried E (List Event) × BaseApp S Header). IsKept app q.1) (ok-injective k)
        (
          committed-clear_tx_caches ctx.multi_store ∙ e,
          refl,
          refl,
          clear_tx_caches-IsSettled ctx.multi_store,
        )

  execute-IsKept :
      (app app' : BaseApp S Header) (header : Header) (raw : Bytes) (tx : Tx)
      (r : Tried E (List Event))
      → execute h app header raw tx ≡ ok (r, app')
      → IsKept app app'
  unfolding execute new_context
  execute-IsKept app app' header raw tx r k =
      let ctx = new_context app.multi_store app.height header raw in
      let ((result, ctx1), e, k1) = bind-eq-ok (h.ante ctx tx) _ k in
      let same =
        committed-of-clear ctx.multi_store ctx1.multi_store (law.clear-ante ctx ctx1 tx result e) in
      after_ante-IsKept app app' header raw tx result ctx1 r same k1

  start-IsKept :
      (app app' : BaseApp S Header) (raw : Bytes) (decoded : Tried E Tx) (r : Tried E (List Event))
      → IsSettled app.multi_store
      → start h app raw decoded ≡ ok (r, app')
      → IsKept app app'
  unfolding start
  start-IsKept app app' raw (failed e) r settled k =
      subst (λ (q : Tried E (List Event) × BaseApp S Header). IsKept app q.1) (ok-injective k)
        (refl, refl, refl, settled)
  start-IsKept app app' raw (done tx) r settled k =
      elim (Tried-cases (validate_basic_tx_msgs h (h.get_msgs tx))) [
        | inl (u, v) ↦
            let (header, e, k1) =
              bind-eq-ok (expect app.block_header) (λ header. execute h app header raw tx)
                (ground (arith, k, v)) in
            execute-IsKept app app' header raw tx r k1
        | inr (e, v) ↦
            let same : (failed e, app) ≡ (r, app') = ground (arith, k, v) in
            subst (λ (q : Tried E (List Event) × BaseApp S Header). IsKept app q.1) same
              (refl, refl, refl, settled)
      ]

  -- If the application's handlers leave nothing but pending writes, then a transaction that is
  -- answered, started without pending writes, leaves none, whether it passed or failed, and changes
  -- neither the trees, the version and the hash of the last commit nor the height and the header.
  pub run_tx-IsKept :
      (app app' : BaseApp S Header) (raw : Bytes) (r : Tried E (List Event))
      → IsSettled app.multi_store
      → run_tx h app raw ≡ ok (r, app')
      → IsKept app app'
  unfolding run_tx
  run_tx-IsKept app app' raw r settled k =
      let (decoded, e, k1) = bind-eq-ok (h.from_bytes raw) _ k in
      start-IsKept app app' raw decoded r settled k1

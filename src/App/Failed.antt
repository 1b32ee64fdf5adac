-- ===== src/App/Failed.antt =====
-- What a transaction leaves that fails.
use doge_sdk.Base.{◌≡◌, refl, sym, ap, ◌∙◌, ◌⊎◌, inl, inr, Option-cases, some, List, arith}
use doge_sdk.Base.Bytes.{Bytes}
use doge_sdk.Base.Tried.{Tried, done, failed, Tried-cases}
use doge_sdk.Trees.Outcome.{ok, bind-eq-ok, ok-injective}
use doge_sdk.Store.MultiStore.{
  write_then_clear_tx_caches, clear_tx_caches, IsSettled, write_then_clear_tx_caches-IsSettled,
}
use doge_sdk.App.{
  TxContext, Handlers, BaseApp, run_msgs, finish, deliver_msgs, new_context, after_ante, execute,
  start, validate_basic_tx_msgs, run_tx,
}
use doge_sdk.App.Atomic.{OnlyPending, clear-run_msgs}

module _ {S Header Event Tx Msg E : Type 0} (h : Handlers S Header Event Tx Msg E)
    (law : OnlyPending h) where
  finish-failed :
      (app app' : BaseApp S Header) (ctx : TxContext S Header Event) (r : Tried E Unit) (e : E)
      → finish h app r ctx ≡ (failed e, app')
      → app' ≡ record app { multi_store = clear_tx_caches ctx.multi_store }
  unfolding finish
  finish-failed app app' ctx (done _) e k = cc k
  finish-failed app app' ctx (failed _) e k =
      sym (ap (λ (q : Tried E (List Event) × BaseApp S Header). q.1) k)

  deliver_msgs-failed :
      (app app' : BaseApp S Header) (ctx : TxContext S Header Event) (msgs : List Msg) (e : E)
      → IsSettled ctx.multi_store
      → deliver_msgs h app ctx msgs ≡ ok (failed e, app')
      → app' ≡ record app { multi_store = ctx.multi_store }
  unfolding deliver_msgs
  deliver_msgs-failed app app' ctx msgs e settled k =
      let ((result, ctx1), e1, k1) = bind-eq-ok (run_msgs h ctx msgs) _ k in
      finish-failed app app' ctx1 result e (ok-injective k1)
      ∙ ap (λ m. record app { multi_store = m })
          (clear-run_msgs h law ctx ctx1 msgs result e1 ∙ settled)

  -- The ante handler passed, and the application differs by what it wrote only.
  abbrev pub AnteOnly : BaseApp S Header → BaseApp S Header → Header → Bytes → Tx → Type 0
  AnteOnly app app' header raw tx =
      (ctx : TxContext S Header Event) × (h.ante (new_context app.multi_store app.height header raw)
          tx
        ≡ ok (done tt, ctx))
      × (app' ≡ record app { multi_store = write_then_clear_tx_caches ctx.multi_store })

  after_ante-failed :
      (app app' : BaseApp S Header) (header : Header) (raw : Bytes) (tx : Tx) (r : Tried E Unit)
      (ctx : TxContext S Header Event) (e : E)
      → clear_tx_caches ctx.multi_store ≡ app.multi_store
      → h.ante (new_context app.multi_store app.height header raw) tx ≡ ok (r, ctx)
      → after_ante h app header raw tx r ctx ≡ ok (failed e, app')
      → (app' ≡ app) ⊎ AnteOnly app app' header raw tx
  unfolding after_ante new_context
  after_ante-failed app app' header raw tx (done tt) ctx e s a k = inr (
    ctx,
    a,
    deliver_msgs-failed app app' _ (h.get_msgs tx) e
        (write_then_clear_tx_caches-IsSettled ctx.multi_store) k,
  )
  after_ante-failed app app' header raw tx (failed _) ctx e s a k = inl (
      sym (ap (λ (q : Tried E (List Event) × BaseApp S Header). q.1) (ok-injective k))
      ∙ ap (λ m. record app { multi_store = m }) s)

  execute-failed :
      (app app' : BaseApp S Header) (header : Header) (raw : Bytes) (tx : Tx) (e : E)
      → IsSettled app.multi_store
      → execute h app header raw tx ≡ ok (failed e, app')
      → (app' ≡ app) ⊎ AnteOnly app app' header raw tx
  unfolding execute new_context
  execute-failed app app' header raw tx e settled k =
      let ctx = new_context app.multi_store app.height header raw in
      let ((result, ctx1), a, k1) = bind-eq-ok (h.ante ctx tx) _ k in
      after_ante-failed app app' header raw tx result ctx1 e
        (law.clear-ante ctx ctx1 tx result a ∙ settled) a k1

  start-failed :
      (app app' : BaseApp S Header) (raw : Bytes) (decoded : Tried E Tx) (e : E)
      → IsSettled app.multi_store
      → start h app raw decoded ≡ ok (failed e, app')
      → (app' ≡ app)
        ⊎ ((header : Header) × (tx : Tx) × (decoded ≡ done tx)
            × (app.block_header ≡ some header)
            × AnteOnly app app' header raw tx)
  unfolding start
  start-failed app app' raw (failed e') e settled k =
      inl (sym (ap (λ (q : Tried E (List Event) × BaseApp S Header). q.1) (ok-injective k)))
  start-failed app app' raw (done tx) e settled k =
      elim (Tried-cases (validate_basic_tx_msgs h (h.get_msgs tx))) [
        | inl (u, v) ↦ elim (Option-cases app.block_header) [
          | inl n ↦ absurd (ground (arith, k, v, n))
          | inr (header, n) ↦
              elim (execute-failed app app' header raw tx e settled (ground (arith, k, v, n))) [
                | inl same ↦ inl same
                | inr passed ↦ inr (header, tx, refl, n, passed)
              ]
        ]
        | inr (e', v) ↦ inl (ground (arith, k, v))
      ]

  -- If the application's handlers leave nothing but pending writes, then a transaction that fails,
  -- started without pending writes, has either left the application as it was, or its ante
  -- handler passed and the application differs by the ante handler's writes only, whatever its
  -- messages did before one failed.
  pub run_tx-failed :
      (app app' : BaseApp S Header) (raw : Bytes) (e : E)
      → IsSettled app.multi_store
      → run_tx h app raw ≡ ok (failed e, app')
      → (app' ≡ app)
        ⊎ ((header : Header) × (tx : Tx) × (h.from_bytes raw ≡ ok (done tx))
            × (app.block_header ≡ some header)
            × AnteOnly app app' header raw tx)
  unfolding run_tx
  run_tx-failed app app' raw e settled k =
      let (decoded, d, k1) = bind-eq-ok (h.from_bytes raw) _ k in
      elim (start-failed app app' raw decoded e settled k1) [
        | inl same ↦ inl same
        | inr (header, tx, is, n, passed) ↦ inr (header, tx, d ∙ ap (λ t. ok t) is, n, passed)
      ]

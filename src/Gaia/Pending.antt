-- ===== src/Gaia/Pending.antt =====
-- The handlers of the example chain leave nothing but pending writes.
use doge_sdk.Base.{
  ℕ, ◌≡◌, refl, sym, ap, ◌∙◌, Bool-cases, inl, inr, Option, none, some, [], ◌∷◌, arith,
}
use std.Path.{subst}
use doge_sdk.Base.Bytes.{Bytes, eq_bytes}
use doge_sdk.Base.Tried.{Tried}
use doge_sdk.Database.Record.{Database}
use doge_sdk.Trees.External.{External}
use doge_sdk.Trees.Outcome.{Outcome, ok, expect, bind-eq-ok, ok-injective}
use doge_sdk.Store.KvStore.{KvStore, clear_tx_cache}
use doge_sdk.Store.KvStore.Pending.{IsPending}
use doge_sdk.Store.MultiStore.{MultiStore, clear_stores, clear_tx_caches}
use doge_sdk.Store.MultiStore.Commit.{Stores, find, replace, get_kv_store, put_kv_store}
use doge_sdk.Messages.Crates.{Crates, Codec}
use doge_sdk.Messages.MsgSend.{MsgSend}
use doge_sdk.Messages.Tx
use doge_sdk.Messages.Tx.{TxWithRaw}
use doge_sdk.Bank.Keeper.{CoinCodec, Sent, sent, insufficient_funds}
use doge_sdk.Bank.Accounts.{send_coins_from_account_to_account}
use doge_sdk.Bank.Pending.{send_coins_from_account_to_account-ArePending}
use doge_sdk.Bank.Message.{Message, send}
use doge_sdk.Ante
use doge_sdk.Ante.{AppError, Crypto}
use doge_sdk.Ante.Stores.{StoreContext, store_context, auth_keeper, bank_keeper}
use doge_sdk.Ante.Pending.{run-DiffersByPending}
use doge_sdk.App.{TxContext}
use doge_sdk.App.Atomic.{OnlyPending}
use doge_sdk.Gaia.StoreKeys.{name, bank, auth, params}
use doge_sdk.Gaia.Handler.{
  Informal, view_database, viewed, shared, open_context, close_context, append_transfers, ante,
  handle_tx, handlers,
}

module _ {S : Type 0} where
  -- To clear the caches and to write a store can change places.
  pub clear-replace :
      (key : Bytes) (s : KvStore S) (stores : Stores S)
      → clear_stores (replace key s stores) ≡ replace key (clear_tx_cache s) (clear_stores stores)
  unfolding replace clear_stores
  clear-replace key s [] = refl
  clear-replace key s ((k, t) ∷ rest) = elim (Bool-cases (eq_bytes key k)) [
    | inl e ↦ rw (e) refl
    | inr e ↦ rw (e) (ap (λ r. (k, clear_tx_cache t) ∷ r) (clear-replace key s rest))
  ]

  -- A store that is written as it is.
  replace-found :
      (key : Bytes) (s : KvStore S) (stores : Stores S)
      → find key stores ≡ some s
      → replace key (clear_tx_cache s) (clear_stores stores) ≡ clear_stores stores
  unfolding replace clear_stores find
  replace-found key s [] h = cc
  replace-found key s ((k, t) ∷ rest) h = elim (Bool-cases (eq_bytes key k)) [
    | inl e ↦
        let same : t ≡ s = ground (arith, h, e) in
        rw (e) (ap (λ u. (k, clear_tx_cache u) ∷ clear_stores rest) (sym same))
    | inr e ↦
        rw (e)
          (ap (λ r. (k, clear_tx_cache t) ∷ r) (replace-found key s rest (ground (arith, h, e))))
  ]

  pub clear-put :
      (stores : Stores S) (key : Bytes) (s s' : KvStore S)
      → find key stores ≡ some s
      → IsPending s s'
      → replace key (clear_tx_cache s') (clear_stores stores) ≡ clear_stores stores
  clear-put stores key s s' f p =
      ap (λ u. replace key u (clear_stores stores)) p ∙ replace-found key s stores f

  -- Two stores are written, and only what is pending in them changes.
  clear-put_two :
      (stores : Stores S) (key1 key2 : Bytes) (s1 s1' s2 s2' : KvStore S)
      → find key1 stores ≡ some s1
      → find key2 stores ≡ some s2
      → IsPending s1 s1'
      → IsPending s2 s2'
      → clear_stores (replace key2 s2' (replace key1 s1' stores)) ≡ clear_stores stores
  clear-put_two stores key1 key2 s1 s1' s2 s2' f1 f2 p1 p2 =
      clear-replace key2 s2' (replace key1 s1' stores)
      ∙ ap (λ r. replace key2 (clear_tx_cache s2') r)
          (clear-replace key1 s1' stores ∙ clear-put stores key1 s1 s1' f1 p1)
      ∙ clear-put stores key2 s2 s2' f2 p2

  pub IsPending-shared :
      (prefix : Bytes) (s : KvStore S) (s' : KvStore (S × Bytes))
      → IsPending (viewed prefix s) s'
      → IsPending s (shared s')
  unfolding clear_tx_cache
  IsPending-shared prefix s s' p = ap (λ u. shared u) p

  pub get_kv_store-find :
      (m : MultiStore S) (key : Bytes) (s : KvStore S)
      → get_kv_store m key ≡ ok s
      → find key m.stores ≡ some s
  unfolding get_kv_store
  get_kv_store-find m key s h = found (find key m.stores) h
    where
      found : (o : Option (KvStore S)) → expect o ≡ ok s → o ≡ some s
      found none h = cc h
      found (some t) h = ap (λ u. some u) (ok-injective h)

module _ {S Header Event : Type 0} ⦃i : Informal Header Event⦄ where
  clear-close_context :
      (ctx : TxContext S Header Event) (opened closed : StoreContext (S × Bytes))
      → open_context ctx ≡ ok opened
      → IsPending opened.stores.auth_store closed.stores.auth_store
      → IsPending opened.stores.bank_store closed.stores.bank_store
      → clear_tx_caches (close_context ctx closed).multi_store ≡ clear_tx_caches ctx.multi_store
  unfolding open_context close_context put_kv_store clear_tx_caches
  clear-close_context ctx opened closed h pa pb =
      let m = ctx.multi_store in
      let (bank_store, e1, h1) = bind-eq-ok (get_kv_store m (name bank)) _ h in
      let (auth_store, e2, h2) = bind-eq-ok (get_kv_store m (name auth)) _ h1 in
      let (params_store, e3, h3) = bind-eq-ok (get_kv_store m (name params)) _ h2 in
      let same = ok-injective h3 in
      let pa' : IsPending (viewed (name auth) auth_store) closed.stores.auth_store =
        subst
          (λ (u : StoreContext (S × Bytes)). IsPending u.stores.auth_store closed.stores.auth_store)
          (sym same) pa in
      let pb' : IsPending (viewed (name bank) bank_store) closed.stores.bank_store =
        subst
          (λ (u : StoreContext (S × Bytes)). IsPending u.stores.bank_store closed.stores.bank_store)
          (sym same) pb in
      ap (λ stores. record m { stores = stores })
        (clear-put_two m.stores (name bank) (name auth) bank_store (shared closed.stores.bank_store)
          auth_store (shared closed.stores.auth_store)
          (get_kv_store-find m (name bank) bank_store e1)
          (get_kv_store-find m (name auth) auth_store e2)
          (IsPending-shared (name bank) bank_store closed.stores.bank_store pb')
          (IsPending-shared (name auth) auth_store closed.stores.auth_store pa'))

  append_transfers-multi_store :
      (ctx : TxContext S Header Event) (msg : MsgSend) (r : Sent)
      → (append_transfers ctx msg r).multi_store ≡ ctx.multi_store
  unfolding append_transfers
  append_transfers-multi_store ctx msg sent = refl
  append_transfers-multi_store ctx msg insufficient_funds = refl

module _ ⦃x : External⦄ {S Header Event : Type 0} ⦃d : Database S⦄ ⦃r : Crates⦄ ⦃n : Codec ℕ⦄
    ⦃c : CoinCodec⦄ ⦃y : Crypto⦄ ⦃i : Informal Header Event⦄ ⦃m : Tx.Message Message⦄
    (fuel : ℕ) where
  clear-ante :
      (ctx ctx' : TxContext S Header Event) (tx : TxWithRaw Message) (r : Tried AppError Unit)
      → ante fuel ctx tx ≡ ok (r, ctx')
      → clear_tx_caches ctx'.multi_store ≡ clear_tx_caches ctx.multi_store
  unfolding ante
  clear-ante ctx ctx' tx r h =
      let (opened, e, h1) = bind-eq-ok (open_context ctx) _ h in
      let ((result, closed), e1, h2) =
        bind-eq-ok (Ante.run ⦃a = auth_keeper fuel⦄ ⦃b = bank_keeper fuel⦄ opened tx) _ h1 in
      let (pa, pb, rest) = run-DiffersByPending fuel opened closed tx result e1 in
      subst
        (λ (q : Tried AppError Unit × TxContext S Header Event).
          clear_tx_caches (q.1).multi_store ≡ clear_tx_caches ctx.multi_store)
        (ok-injective h2) (clear-close_context ctx opened closed e pa pb)

  clear-handle_tx :
      (ctx ctx' : TxContext S Header Event) (msg : Message) (r : Tried AppError Unit)
      → handle_tx fuel ctx msg ≡ ok (r, ctx')
      → clear_tx_caches ctx'.multi_store ≡ clear_tx_caches ctx.multi_store
  unfolding handle_tx
  clear-handle_tx ctx ctx' (send msg) r h =
      let (opened, e, h1) = bind-eq-ok (open_context ctx) _ h in
      let ((result, stores), e1, h2) =
        bind-eq-ok
          (send_coins_from_account_to_account fuel opened.stores msg.from_address msg.to_address
            msg.amount)
          _ h1 in
      let (pa, pb) =
        send_coins_from_account_to_account-ArePending fuel opened.stores stores msg.from_address
          msg.to_address msg.amount result e1 in
      let closed = close_context ctx (record opened { stores = stores }) in
      subst
        (λ (q : Tried AppError Unit × TxContext S Header Event).
          clear_tx_caches (q.1).multi_store ≡ clear_tx_caches ctx.multi_store)
        (ok-injective h2)
        (ap clear_tx_caches (append_transfers-multi_store closed msg result)
          ∙ clear-close_context ctx opened (record opened { stores = stores }) e pa pb)

  -- The handlers of the example chain fill what is asked of a chain's handlers: whether the ante
  -- handler or the handler of a message of the bank succeeds or fails, if it answers, all that it
  -- has changed in the stores is pending, so to clear the transaction caches takes it back.
  pub handlers-OnlyPending :
      (from_bytes : Bytes → Outcome (Tried AppError (TxWithRaw Message)))
      → OnlyPending (handlers {S = S} {Header = Header} {Event = Event} fuel from_bytes)
  unfolding handlers
  handlers-OnlyPending from_bytes = record {
    clear-ante = clear-ante;
    clear-handle_tx = clear-handle_tx;
  }

-- ===== src/Ante/Pending.antt =====
-- What the ante handler leaves in the stores of the keepers that it is given.
use doge_sdk.Base.{ℕ, ◌≡◌, refl, ap, ◌∙◌}
use std.Path.{subst}
use doge_sdk.Base.Tried.{Tried}
use doge_sdk.Trees.Outcome.{ok, bind-eq-ok, ok-injective}
use doge_sdk.Messages.Crates.{Crates}
use doge_sdk.Messages.Tx.{Message, TxWithRaw}
use doge_sdk.Database.Record.{Database}
use doge_sdk.Trees.External.{External}
use doge_sdk.Store.KvStore.Pending.{IsPending}
use doge_sdk.Messages.Crates.{Codec}
use doge_sdk.Auth.Keeper.{set_account}
use doge_sdk.Auth.Keeper.Pending.{set_account-IsPending}
use doge_sdk.Bank.Keeper.{CoinCodec}
use doge_sdk.Bank.Pending.{send_coins_from_account_to_module-ArePending}
use doge_sdk.Bank.Accounts.{Stores, send_coins_from_account_to_module}
use doge_sdk.Ante.Stores.{StoreContext, store_context, with_auth, auth_keeper, bank_keeper}
use doge_sdk.Ante.{AppError, Crypto, run}
use doge_sdk.Ante.Leaves.{IsKept, run-Leaves}

module _ ⦃x : External⦄ {S : Type 0} ⦃d : Database S⦄ ⦃r : Crates⦄ ⦃n : Codec ℕ⦄ ⦃c : CoinCodec⦄
    (fuel : ℕ) where
  -- The contexts differ in what is pending in the stores of the accounts and the balances only.
  abbrev pub DiffersByPending : StoreContext S → StoreContext S → Type 0
  DiffersByPending ctx ctx' =
      IsPending ctx.stores.auth_store ctx'.stores.auth_store
      × IsPending ctx.stores.bank_store ctx'.stores.bank_store
      × (ctx' ≡ record ctx { stores = ctx'.stores })

  abbrev restored : StoreContext S → Stores S → StoreContext S
  restored ctx stores = record ctx { stores = stores }

  keepers-IsKept : IsKept (auth_keeper fuel) (bank_keeper fuel) DiffersByPending
  unfolding auth_keeper bank_keeper
  keepers-IsKept = record {
    same = λ ctx. (refl, refl, refl);
    composed = λ ctx ctx1 ctx2 (a1, b1, e1) (a2, b2, e2).
        (a2 ∙ a1, b2 ∙ b1, e2 ∙ ap (λ (u : StoreContext S). restored u ctx2.stores) e1);
    set = λ ctx ctx' acct h.
        let (s, e, h1) =
          bind-eq-ok (set_account ctx.stores.auth_store acct) (λ s. ok (with_auth ctx s)) h in
        subst (λ u. DiffersByPending ctx u) (ok-injective h1)
          (set_account-IsPending ctx.stores.auth_store s acct e, refl, refl);
    send = λ ctx ctx' from to amount result h.
        let ((outcome, stores), e, h1) =
          bind-eq-ok (send_coins_from_account_to_module fuel ctx.stores from to amount) _ h in
        let (p, q) =
          send_coins_from_account_to_module-ArePending fuel ctx.stores stores from to amount outcome
            e in
        subst (λ (u : Tried AppError Unit × StoreContext S). DiffersByPending ctx u.1)
          (ok-injective h1) (p, q, refl);
  }

  -- Over the keepers of the auth and the bank module: whether a transaction passes the ante handler
  -- or is refused, if there is an answer, all that the handler has changed is pending for the
  -- transaction in the stores of the accounts and of the balances, so to clear their transaction
  -- caches takes it back.
  pub run-DiffersByPending :
      {M : Type 0} ⦃m : Message M⦄
      → ⦃y : Crypto⦄ → (ctx ctx' : StoreContext S) (tx : TxWithRaw M) (result : Tried AppError Unit)
      → run ⦃a = auth_keeper fuel⦄ ⦃b = bank_keeper fuel⦄ ctx tx ≡ ok (result, ctx')
      → DiffersByPending ctx ctx'
  run-DiffersByPending ctx ctx' tx result h =
      run-Leaves ⦃a = auth_keeper fuel⦄ ⦃b = bank_keeper fuel⦄ keepers-IsKept ctx tx result ctx' h

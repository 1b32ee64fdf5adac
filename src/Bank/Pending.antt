-- ===== src/Bank/Pending.antt =====
-- What the calls of the bank keeper leave in the stores of the accounts and the balances.
use doge_sdk.Base.{ℕ, ◌≡◌, refl, true, false, Bool, List}
use std.Path.{subst}
use doge_sdk.Base.Bytes.{Bytes}
use doge_sdk.Database.Record.{Database}
use doge_sdk.Trees.External.{External}
use doge_sdk.Trees.Outcome.{Outcome, ok, bind-eq-ok, ok-injective, ◌>>=◌}
use doge_sdk.Store.KvStore.{KvStore}
use doge_sdk.Store.KvStore.Pending.{IsPending}
use doge_sdk.Messages.Crates.{Crates, Codec}
use doge_sdk.Auth.Module.{Module, get_module_address}
use doge_sdk.Auth.Keeper.{has_account, create_new_base_account, check_create_new_module_account}
use doge_sdk.Auth.Keeper.Pending.{
  create_new_base_account-IsPending, check_create_new_module_account-IsPending,
}
use doge_sdk.Bank.Coin.{Coin}
use doge_sdk.Bank.Keeper.{CoinCodec, Sent, sent, insufficient_funds, send_coins}
use doge_sdk.Bank.Keeper.Pending.{send_coins-IsPending}
use doge_sdk.Bank.Accounts.{
  Stores, send_coins_from_account_to_module, send_coins_from_account_to_account,
}

module _ ⦃x : External⦄ {S : Type 0} ⦃d : Database S⦄ ⦃r : Crates⦄ ⦃n : Codec ℕ⦄ ⦃c : CoinCodec⦄
    (fuel : ℕ) where
  abbrev pub ArePending : Stores S → Stores S → Type 0
  ArePending s s' = IsPending s.auth_store s'.auth_store × IsPending s.bank_store s'.bank_store

  pub send_coins_from_account_to_module-ArePending :
      (s s' : Stores S) (from : Bytes) (to : Module) (amount : List Coin) (result : Sent)
      → send_coins_from_account_to_module fuel s from to amount ≡ ok (result, s')
      → ArePending s s'
  unfolding send_coins_from_account_to_module
  send_coins_from_account_to_module-ArePending s s' from to amount result h =
      let (accounts, e, h1) =
        bind-eq-ok (check_create_new_module_account fuel s.auth_store to) _ h in
      let (addr, e1, h2) = bind-eq-ok (get_module_address to) _ h1 in
      let ((outcome, balances), e2, h3) =
        bind-eq-ok (send_coins fuel s.bank_store from addr amount) _ h2 in
      subst (λ (q : Sent × Stores S). ArePending s q.1) (ok-injective h3)
        (
          check_create_new_module_account-IsPending fuel s.auth_store accounts to e,
          send_coins-IsPending fuel s.bank_store balances from addr amount outcome e2,
        )

  pub send_coins_from_account_to_account-ArePending :
      (s s' : Stores S) (from to : Bytes) (amount : List Coin) (result : Sent)
      → send_coins_from_account_to_account fuel s from to amount ≡ ok (result, s')
      → ArePending s s'
  unfolding send_coins_from_account_to_account
  send_coins_from_account_to_account-ArePending s s' from to amount result h =
      let ((outcome, balances), e, h1) =
        bind-eq-ok (send_coins fuel s.bank_store from to amount) _ h in
      go balances (send_coins-IsPending fuel s.bank_store balances from to amount outcome e) outcome
        h1
    where
      created :
          (balances : KvStore S)
          → IsPending s.bank_store balances
          → (exists : Bool)
          → elim exists as (λ b. Outcome (Sent × Stores S)) [
            | true ↦ ok (sent, record s { bank_store = balances })
            | false ↦ (do
              accounts ← create_new_base_account fuel s.auth_store to
              ok (sent, record { auth_store = accounts; bank_store = balances }))
          ]
            ≡ ok (result, s')
          → ArePending s s'
      created balances p true h2 =
          subst (λ (q : Sent × Stores S). ArePending s q.1) (ok-injective h2) (refl, p)
      created balances p false h2 =
          let (accounts, e, h3) =
            bind-eq-ok (create_new_base_account fuel s.auth_store to)
              (λ accounts. ok (sent, record { auth_store = accounts; bank_store = balances })) h2 in
          subst (λ (q : Sent × Stores S). ArePending s q.1) (ok-injective h3)
            (create_new_base_account-IsPending fuel s.auth_store accounts to e, p)

      go :
          (balances : KvStore S)
          → IsPending s.bank_store balances
          → (outcome : Sent)
          → elim outcome as (λ o. Outcome (Sent × Stores S)) [
            | insufficient_funds ↦ ok (insufficient_funds, record s { bank_store = balances })
            | sent ↦ (do
              exists ← has_account fuel s.auth_store to
              elim exists as (λ b. Outcome (Sent × Stores S)) [
                | true ↦ ok (sent, record s { bank_store = balances })
                | false ↦ (do
                  accounts ← create_new_base_account fuel s.auth_store to
                  ok (sent, record { auth_store = accounts; bank_store = balances }))
              ])
          ]
            ≡ ok (result, s')
          → ArePending s s'
      go balances p insufficient_funds h1 =
          subst (λ (q : Sent × Stores S). ArePending s q.1) (ok-injective h1) (refl, p)
      go balances p sent h1 =
          let (exists, e, h2) =
            bind-eq-ok (has_account fuel s.auth_store to)
              (λ exists. elim exists as (λ b. Outcome (Sent × Stores S)) [
                | true ↦ ok (sent, record s { bank_store = balances })
                | false ↦ (do
                  accounts ← create_new_base_account fuel s.auth_store to
                  ok (sent, record { auth_store = accounts; bank_store = balances }))
              ])
              h1 in
          created balances p exists h2

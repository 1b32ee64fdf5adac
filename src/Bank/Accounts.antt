-- ===== src/Bank/Accounts.antt =====
-- The calls of the bank keeper of x/bank/src/keeper.rs that use the auth keeper: over the store of
-- the accounts and the store of the balances.
use doge_sdk.Base.{ℕ, List, true, false}
use doge_sdk.Base.Bytes.{Bytes}
use doge_sdk.Database.Record.{Database}
use doge_sdk.Trees.External.{External}
use doge_sdk.Trees.Outcome.{Outcome, ok, ◌>>=◌}
use doge_sdk.Store.KvStore.{KvStore}
use doge_sdk.Messages.Crates.{Crates, Codec}
use doge_sdk.Auth.Module.{Module, get_module_address}
use doge_sdk.Auth.Keeper.{has_account, create_new_base_account, check_create_new_module_account}
use doge_sdk.Bank.Coin.{Coin}
use doge_sdk.Bank.Keeper.{CoinCodec, Sent, sent, insufficient_funds, send_coins}

-- The accounts and the balances.
pub record Stores (S : Type 0) : Type 0 where
  pub auth_store : KvStore S
  pub bank_store : KvStore S

module _ ⦃x : External⦄ {S : Type 0} ⦃d : Database S⦄ ⦃r : Crates⦄ ⦃n : Codec ℕ⦄ ⦃c : CoinCodec⦄
    (fuel : ℕ) where
  unfoldable pub send_coins_from_account_to_module :
      Stores S → Bytes → Module → List Coin → Outcome (Sent × Stores S)
  unfolding check_create_new_module_account get_module_address send_coins
  send_coins_from_account_to_module s from to_module amount = do
    accounts ← check_create_new_module_account fuel s.auth_store to_module
    to ← get_module_address to_module
    (result, balances) ← send_coins fuel s.bank_store from to amount
    ok (result, record { auth_store = accounts; bank_store = balances })

  -- The recipient gets an account if it has none.
  unfoldable pub send_coins_from_account_to_account :
      Stores S → Bytes → Bytes → List Coin → Outcome (Sent × Stores S)
  unfolding send_coins has_account create_new_base_account
  send_coins_from_account_to_account s from to amount = do
    (result, balances) ← send_coins fuel s.bank_store from to amount
    elim result [
      | insufficient_funds ↦ ok (insufficient_funds, record s { bank_store = balances })
      | sent ↦ (do
        exists ← has_account fuel s.auth_store to
        let kept = record s { bank_store = balances }
        elim exists [
          | true ↦ ok (sent, kept)
          | false ↦ (do
            accounts ← create_new_base_account fuel s.auth_store to
            ok (sent, record kept { auth_store = accounts }))
        ])
    ]

-- ===== src/Ante/Stores.antt =====
-- The keepers of x/auth/src/keeper.rs and x/bank/src/keeper.rs as those that the ante handler
-- takes. Of the context's multi store the handler reads three stores.
use doge_sdk.Base.{ℕ}
use doge_sdk.Base.Bytes.{Bytes}
use doge_sdk.Base.Tried.{Tried, done, failed}
use doge_sdk.Database.Record.{Database}
use doge_sdk.Trees.External.{External}
use doge_sdk.Trees.Outcome.{ok, ◌>>=◌}
use doge_sdk.Store.KvStore.{KvStore}
use doge_sdk.Messages.Crates.{Crates, Codec}
use doge_sdk.Auth.Keeper
use doge_sdk.Auth.Params
use doge_sdk.Bank.Keeper.{CoinCodec, Sent, sent, insufficient_funds}
use doge_sdk.Bank.Accounts.{Stores, send_coins_from_account_to_module}
use doge_sdk.Ante.{AppError, send, Context, AuthKeeper, BankKeeper}

pub record StoreContext (S : Type 0) : Type 0 where
  pub height : ℕ
  pub chain_id : Bytes
  pub stores : Stores S
  pub params_store : KvStore S
  pub auth_subspace : Bytes

instance abbrev pub store_context : {S : Type 0} → Context (StoreContext S)
store_context = record { get_height = λ ctx. ctx.height; get_chain_id = λ ctx. ctx.chain_id }

abbrev pub with_auth : {S : Type 0} → StoreContext S → KvStore S → StoreContext S
with_auth ctx s = record ctx { stores = record ctx.stores { auth_store = s } }

-- `Result<(), AppError>` of the bank keeper.
abbrev pub sent_result : Sent → Tried AppError Unit
sent_result sent = done tt
sent_result insufficient_funds = failed send

module _ ⦃x : External⦄ {S : Type 0} ⦃d : Database S⦄ ⦃r : Crates⦄ (fuel : ℕ) where
  unfoldable pub auth_keeper : AuthKeeper (StoreContext S)
  unfolding Keeper.has_account Keeper.get_account Keeper.set_account Params.get
  auth_keeper = record {
    get_auth_params = λ ctx. Params.get fuel ctx.params_store ctx.auth_subspace;
    has_account = λ ctx addr. Keeper.has_account fuel ctx.stores.auth_store addr;
    get_account = λ ctx addr. Keeper.get_account fuel ctx.stores.auth_store addr;
    set_account =
        λ ctx acct. Keeper.set_account ctx.stores.auth_store acct >>= λ s. ok (with_auth ctx s);
  }

module _ ⦃x : External⦄ {S : Type 0} ⦃d : Database S⦄ ⦃r : Crates⦄ ⦃n : Codec ℕ⦄ ⦃c : CoinCodec⦄
    (fuel : ℕ) where
  unfoldable pub bank_keeper : BankKeeper (StoreContext S)
  unfolding send_coins_from_account_to_module
  bank_keeper = record {
    send_coins_from_account_to_module = λ ctx from to amount. do
      (result, stores) ← send_coins_from_account_to_module fuel ctx.stores from to amount
      ok (sent_result result, record ctx { stores = stores });
  }

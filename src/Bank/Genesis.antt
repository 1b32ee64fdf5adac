-- ===== src/Bank/Genesis.antt =====
-- `Keeper::init_genesis` of x/bank/src/keeper.rs, with the types of x/bank/src/types.rs.
pub mod Pending
pub mod Supply
use doge_sdk.Base.{ℕ, ◌+◌, ◌^◌, List, [], ◌∷◌, ltb, if◌then◌else◌}
use doge_sdk.Base.Bytes.{Bytes, eq_bytes}
use doge_sdk.Trees.Outcome.{Outcome, ok, panic, ◌>>=◌}
use doge_sdk.Store.KvStore.{KvStore, prefix_set}
use doge_sdk.Messages.Crates.{Crates}
use doge_sdk.Bank.Coin.{Coin}
use doge_sdk.Bank.Keeper.{CoinCodec, create_denom_balance_prefix, write_balance}
use doge_sdk.Bank.Queries.{set_supply}
use doge_sdk.Bank.Params
use doge_sdk.Bank.Params.{Params}

pub record Balance : Type 0 where
  pub address : Bytes
  pub coins : List Coin

pub record GenesisState : Type 0 where
  pub balances : List Balance
  pub params : Params

-- The `HashMap` of the amounts, in the order of the first coins. A coin is added to the amount of
-- its denomination; a sum that does not fit a `Uint256` is a panic.
unfoldable pub add_total : List Coin → Coin → Outcome (List Coin)
add_total [] coin = ok (coin ∷ [])
add_total (total ∷ totals) coin =
    let rest = add_total totals coin in
    if eq_bytes coin.denom total.denom
    then if ltb (coin.amount + total.amount) (2 ^ 256)
      then ok (record { denom = total.denom; amount = coin.amount + total.amount } ∷ totals)
      else panic
    else do totals' ← rest; ok (total ∷ totals')

module _ {S : Type 0} ⦃c : CoinCodec⦄ where
  -- The inner loop, over the coins of one address.
  unfoldable pub set_coins :
      KvStore S → List Coin → Bytes → List Coin → Outcome (KvStore S × List Coin)
  unfolding add_total write_balance
  set_coins s totals address [] = ok (s, totals)
  set_coins s totals address (coin ∷ coins) = do
    s1 ← write_balance s address coin.denom coin
    totals1 ← add_total totals coin
    set_coins s1 totals1 address coins

  unfoldable pub set_balances :
      KvStore S → List Coin → List Balance → Outcome (KvStore S × List Coin)
  unfolding set_coins
  set_balances s totals [] = ok (s, totals)
  set_balances s totals (balance ∷ balances) = do
    (s1, totals1) ← set_coins s totals balance.address balance.coins
    set_balances s1 totals1 balances

module _ {S : Type 0} ⦃r : Crates⦄ where
  unfoldable pub set_supplies : KvStore S → List Coin → Outcome (KvStore S)
  unfolding set_supply
  set_supplies s [] = ok s
  set_supplies s (coin ∷ coins) = do s1 ← set_supply s coin; set_supplies s1 coins

module _ {S : Type 0} ⦃r : Crates⦄ ⦃c : CoinCodec⦄ where
  -- `order` is the order in which the `HashMap` is iterated.
  unfoldable pub init_genesis :
      (List Coin → List Coin)
      → Bytes
      → KvStore S
      → KvStore S
      → GenesisState
      → Outcome (KvStore S × KvStore S)
  unfolding Params.set set_balances set_supplies
  init_genesis order subspace params_store bank_store genesis = do
    params_store' ← Params.set params_store subspace genesis.params
    (bank_store1, totals) ← set_balances bank_store [] genesis.balances
    bank_store2 ← set_supplies bank_store1 (order totals)
    ok (params_store', bank_store2)

-- ===== src/Bank/Keeper.antt =====
-- The bank keeper of x/bank/src/keeper.rs over a `KvStore`. An address is its bytes.
pub mod Pending
pub mod Cells
pub mod Transfer
pub mod Payment
pub mod Conservation
pub mod Returns
use doge_sdk.Base.{
  ℕ, ◌+◌, ◌-◌, ◌^◌, ◌<◌, ◌≡◌, Bool, Option, none, some, List, [], ◌∷◌, ◌++◌, length, ltb,
  if◌then◌else◌,
}
use doge_sdk.Base.Bytes.{Bytes}
use doge_sdk.Database.Record.{Database}
use doge_sdk.Trees.External.{External}
use doge_sdk.Trees.Outcome.{Outcome, ok, panic, expect, ◌>>=◌}
use doge_sdk.Store.KvStore.{KvStore, prefix_get, prefix_set}
use doge_sdk.Bank.Coin.{Coin}

-- `encode_vec` and `decode` of a `Coin` (the crates ibc_proto and cosmwasm_std). An amount is a
-- `Uint256`.
pub record CoinCodec : Type 0 where
  pub encode : Coin → Bytes
  pub decode : Bytes → Option Coin

-- A coin is read back, and what is read fits.
pub record IsLawful (c : CoinCodec) : Type 0 where
  pub decode-encode : (coin : Coin) → coin.amount < 2 ^ 256 → c.decode (c.encode coin) ≡ some coin
  pub decode-bound : (b : Bytes) (coin : Coin) → c.decode b ≡ some coin → coin.amount < 2 ^ 256

-- `Result<(), AppError>` of `send_coins`.
pub data Sent : Type 0 where
  sent insufficient_funds : Sent

-- A recipient without a balance starts from zero.
abbrev pub balance_or_zero : Bytes → Option Coin → Coin
balance_or_zero denom none = record { denom = denom; amount = 0 }
balance_or_zero denom (some balance) = balance

unfoldable pub create_denom_balance_prefix : Bytes → Bytes
create_denom_balance_prefix addr = 2 ∷ length addr ∷ addr

module _ ⦃c : CoinCodec⦄ where
  -- Stored bytes that are no coin are a panic.
  unfoldable pub decode_found : Option Bytes → Outcome (Option Coin)
  decode_found none = ok none
  decode_found (some bytes) = do coin ← expect (c.decode bytes); ok (some coin)

module _ ⦃x : External⦄ {S : Type 0} ⦃d : Database S⦄ ⦃c : CoinCodec⦄ (fuel : ℕ) where
  -- The coin under a denomination in the balances of an address.
  unfoldable pub read_balance : KvStore S → Bytes → Bytes → Outcome (Option Coin)
  unfolding prefix_get create_denom_balance_prefix decode_found
  read_balance s addr denom = do
    found ← prefix_get fuel s (create_denom_balance_prefix addr) denom
    decode_found found

module _ {S : Type 0} ⦃c : CoinCodec⦄ where
  unfoldable pub write_balance : KvStore S → Bytes → Bytes → Coin → Outcome (KvStore S)
  unfolding prefix_set create_denom_balance_prefix
  write_balance s addr denom coin =
      prefix_set s (create_denom_balance_prefix addr) denom (c.encode coin)

module _ ⦃x : External⦄ {S : Type 0} ⦃d : Database S⦄ ⦃c : CoinCodec⦄ (fuel : ℕ) where
  -- The second half of the loop's body. A sum that does not fit a `Uint256` is a panic.
  unfoldable pub add_coin : KvStore S → Bytes → Coin → Outcome (KvStore S)
  unfolding read_balance write_balance
  add_coin s to send_coin = do
    found ← read_balance fuel s to send_coin.denom
    let to_balance = balance_or_zero send_coin.denom found
    if ltb (to_balance.amount + send_coin.amount) (2 ^ 256)
        then write_balance s to send_coin.denom
            (record to_balance { amount = to_balance.amount + send_coin.amount })
        else panic

  -- One turn of the loop. The store is returned with the error too: what the loop wrote before
  -- stays in it.
  unfoldable pub send_coin : KvStore S → Bytes → Bytes → Coin → Outcome (Sent × KvStore S)
  unfolding read_balance write_balance add_coin
  send_coin s from to coin = do
    found ← read_balance fuel s from coin.denom
    elim found [
      | none ↦ ok (insufficient_funds, s)
      | some from_balance ↦
          if ltb from_balance.amount coin.amount then ok (insufficient_funds, s) else do
            s1 ←
                write_balance s from coin.denom
                  (record from_balance { amount = from_balance.amount - coin.amount })
            s2 ← add_coin s1 to coin
            ok (sent, s2)
    ]

  -- The loop ends at the first coin that cannot be paid.
  unfoldable pub send_coins : KvStore S → Bytes → Bytes → List Coin → Outcome (Sent × KvStore S)
  unfolding send_coin
  send_coins s from to [] = ok (sent, s)
  send_coins s from to (coin ∷ coins) = do
    (result, s1) ← send_coin s from to coin
    elim result [
      | sent ↦ send_coins s1 from to coins
      | insufficient_funds ↦ ok (insufficient_funds, s1)
    ]

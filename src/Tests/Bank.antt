-- ===== src/Tests/Bank.antt =====
-- The bank at concrete inputs.
use doge_sdk.Base.{
  ℕ, ◌+◌, ◌-◌, ◌^◌, ◌<◌, ◌≤◌, ◌≡◌, ◌↔◌, refl, Option, none, some, [], ◌∷◌, arith, length, ltb, leb,
  if◌then◌else◌,
}
use doge_sdk.Base.Bytes.{Bytes, cmp}
use doge_sdk.Base.BTreeMap
use doge_sdk.Database.Memory.{MemDb, mem_database, new}
use doge_sdk.Trees.Outcome.{Outcome, ok}
use doge_sdk.Trees.Iavl.Tree
use doge_sdk.Store.KvStore
use doge_sdk.Store.KvStore.{KvStore}
use doge_sdk.Bank.Coin.{
  Coin, validate_coins, valid, IsPositive, IsAscending, validate_coins-eq-valid,
}
use doge_sdk.Bank.Keeper.{
  CoinCodec, IsLawful, Sent, sent, insufficient_funds, read_balance, send_coin, send_coins,
}
use doge_sdk.Bank.Keeper.Cells.{stored}
use doge_sdk.Bank.Keeper.Transfer.{HasBalance}
use doge_sdk.Bank.Keeper.Conservation.{
  send_coins-conserves, send_coins-HasBalance, read_balance-send_coins, total,
}
use doge_sdk.Bank.Keeper.Returns.{send_coin-returns}
use doge_sdk.Tests.Crates.{crates}

abbrev decode_coin : Bytes → Option Coin
decode_coin [] = none
decode_coin (n ∷ denom) =
    if ltb n (2 ^ 256) then some (record { denom = denom; amount = n }) else none

-- The amount and then the denomination.
instance unfoldable pub coins : CoinCodec
coins = record { encode = λ coin. coin.amount ∷ coin.denom; decode = decode_coin }

decode_coin-bound : (b : Bytes) (coin : Coin) → decode_coin b ≡ some coin → coin.amount < 2 ^ 256
decode_coin-bound [] coin h = cc
decode_coin-bound (n ∷ denom) coin h = ground arith

coins-IsLawful : IsLawful coins
unfolding coins
coins-IsLawful = record { decode-encode = λ coin h. ground arith; decode-bound = decode_coin-bound }

abbrev atom : Bytes
atom = 97 ∷ []

abbrev alice : Bytes
alice = 7 ∷ []

abbrev bob : Bytes
bob = 8 ∷ []

abbrev four : Coin
four = record { denom = atom; amount = 4 }

abbrev ten : Coin
ten = record { denom = atom; amount = 10 }

abbrev empty : KvStore MemDb
empty = record {
  persistent_store = record { root = none; node_db = new; loaded_version = 0; versions = [] };
  block_cache = [];
  tx_cache = [];
}

-- Alice has ten.
unfoldable before : KvStore MemDb
unfolding stored
before = stored empty alice atom ten

abbrev returned : Outcome (Sent × KvStore MemDb) → KvStore MemDb
returned (ok (result, s)) = s
returned _ = empty

unfoldable after : KvStore MemDb
unfolding send_coins before
after = returned (send_coins 1 before alice bob (four ∷ []))

after-run : send_coins 1 before alice bob (four ∷ []) ≡ ok (sent, after)
unfolding after send_coins before cmp coins KvStore.get Tree.get BTreeMap.get BTreeMap.insert
after-run = refl

alice-HasBalance : HasBalance 1 before alice atom 10
unfolding read_balance before cmp coins KvStore.get BTreeMap.get BTreeMap.insert
alice-HasBalance = (some ten, refl, refl)

bob-HasBalance : HasBalance 1 before bob atom 0
unfolding read_balance before cmp coins KvStore.get Tree.get BTreeMap.get BTreeMap.insert
bob-HasBalance = (none, refl, refl)

send_coins-conserves_example :
    (a' : ℕ) × (b' : ℕ) × HasBalance 1 after alice atom a'
    × HasBalance 1 after bob atom b'
    × (a' + b' ≡ 10)
unfolding cmp
send_coins-conserves_example =
    send_coins-conserves coins-IsLawful 1 before after alice bob (four ∷ []) sent atom 10 0 refl
      alice-HasBalance bob-HasBalance after-run

send_coins-HasBalance_example :
    HasBalance 1 after alice atom (10 - total atom (four ∷ []))
    × HasBalance 1 after bob atom (total atom (four ∷ []))
    × (total atom (four ∷ []) ≤ 10)
unfolding cmp
send_coins-HasBalance_example =
    send_coins-HasBalance coins-IsLawful 1 before after alice bob (four ∷ []) atom 10 0 refl
      alice-HasBalance bob-HasBalance after-run

read_balance-send_coins_example :
    read_balance 1 after (9 ∷ []) atom ≡ read_balance 1 before (9 ∷ []) atom
unfolding cmp
read_balance-send_coins_example =
    read_balance-send_coins coins-IsLawful 1 before after alice bob (four ∷ []) sent (9 ∷ []) atom
      refl refl after-run

send_coin-returns_example :
    (s' : KvStore MemDb) × (send_coin 1 before alice bob four
      ≡ ok (if leb 4 10 then (sent, s') else (insufficient_funds, before)))
unfolding cmp
send_coin-returns_example =
    send_coin-returns coins-IsLawful 1 before alice bob four 10 0 refl (omega arith)
      alice-HasBalance bob-HasBalance (omega arith)

validate_coins-eq-valid_example :
    validate_coins (four ∷ []) ≡ valid
    ↔ (0 < length (four ∷ [])) × IsPositive (four ∷ []) × IsAscending (four ∷ [])
validate_coins-eq-valid_example = validate_coins-eq-valid (four ∷ [])

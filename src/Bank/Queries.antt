-- ===== src/Bank/Queries.antt =====
-- The queries of the bank keeper of x/bank/src/keeper.rs, and the supply that it stores. A text is
-- taken as its bytes, without the replacement of bytes that are no UTF-8.
use doge_sdk.Base.{ℕ, ◌+◌, ◌≤◌, ◌≡◌, refl, Option, some, List, [], ◌∷◌, All, map}
use doge_sdk.Base.Bytes.{Bytes}
use doge_sdk.Base.BTreeMap.{BTreeMap}
use doge_sdk.Database.Bound.{unbounded, IsBytes}
use doge_sdk.Database.Memory.{keep}
use doge_sdk.Database.Prefix.{strip}
use doge_sdk.Database.Record.{Database}
use doge_sdk.Trees.External.{External}
use doge_sdk.Trees.Outcome.{Outcome, ok, expect, ◌>>=◌}
use doge_sdk.Trees.Iavl.Node.{Node}
use doge_sdk.Trees.Iavl.Shape.{Shape, Loads, IsOrdered, entries}
use doge_sdk.Trees.Iavl.RangeLaws.{nodes}
use doge_sdk.Store.KvStore.{KvStore, prefix_set}
use doge_sdk.Store.KvStore.Range.{prefix_range}
use doge_sdk.Store.KvStore.RangeLaws.{selects, prefix_range-eq-strip}
use doge_sdk.Messages.Crates.{Crates}
use doge_sdk.Messages.Key.{expect_done}
use doge_sdk.Messages.Coin.{denom_try_from}
use doge_sdk.Bank.Coin.{Coin}
use doge_sdk.Bank.Keeper.{CoinCodec, create_denom_balance_prefix, read_balance}

abbrev pub supply_key : Bytes
supply_key = 0 ∷ []

module _ ⦃c : CoinCodec⦄ where
  -- The loop over the entries of a scan.
  unfoldable pub decode_balances : BTreeMap Bytes → Outcome (List Coin)
  decode_balances [] = ok []
  decode_balances ((_, bytes) ∷ rest) = do
    coin ← expect (c.decode bytes)
    coins ← decode_balances rest
    ok (coin ∷ coins)

module _ ⦃r : Crates⦄ where
  unfoldable pub decode_supply : BTreeMap Bytes → Outcome (List Coin)
  unfolding denom_try_from
  decode_supply [] = ok []
  decode_supply ((key, value) ∷ rest) = do
    denom ← expect_done (denom_try_from key)
    amount ← expect (r.uint_from_str value)
    coins ← decode_supply rest
    ok (record { denom = denom; amount = amount } ∷ coins)

  unfoldable pub set_supply : {S : Type 0} → KvStore S → Coin → Outcome (KvStore S)
  unfolding prefix_set
  set_supply s coin = prefix_set s supply_key coin.denom (r.uint_to_string coin.amount)

module _ ⦃x : External⦄ {S : Type 0} ⦃d : Database S⦄ (fuel : ℕ) where
  unfoldable pub query_balance : ⦃c : CoinCodec⦄ → KvStore S → Bytes → Bytes → Outcome (Option Coin)
  unfolding read_balance
  query_balance s address denom = read_balance fuel s address denom

  unfoldable pub query_all_balances : ⦃c : CoinCodec⦄ → KvStore S → Bytes → Outcome (List Coin)
  unfolding prefix_range create_denom_balance_prefix decode_balances
  query_all_balances s address = do
    balances ← prefix_range unbounded unbounded fuel s (create_denom_balance_prefix address)
    decode_balances balances

  unfoldable pub get_paginated_total_supply : ⦃r : Crates⦄ → KvStore S → Outcome (List Coin)
  unfolding prefix_range decode_supply
  get_paginated_total_supply s = do
    supply ← prefix_range unbounded unbounded fuel s supply_key
    decode_supply supply

-- Every entry holds a coin.
abbrev pub HoldCoins : ⦃c : CoinCodec⦄ → BTreeMap Bytes → Type 0
HoldCoins ⦃c = c⦄ m = All (λ e. (coin : Coin) × (c.decode e.1 ≡ some coin)) m

-- The coins that the entries hold.
abbrev pub Listed : ⦃c : CoinCodec⦄ → BTreeMap Bytes → List Coin → Type 0
Listed ⦃c = c⦄ m coins = map (λ e. c.decode e.1) m ≡ map some coins

module _ ⦃c : CoinCodec⦄ where
  decode_balances-strip :
      (p : Bytes) (m : BTreeMap Bytes)
      → HoldCoins m
      → (coins : List Coin) × (decode_balances (strip p m) ≡ ok coins) × Listed m coins
  unfolding decode_balances
  decode_balances-strip p [] h = ([], refl, refl)
  decode_balances-strip p (e ∷ m) ((coin, k), h) =
      let (coins, l, listed) = decode_balances-strip p m h in
      (coin ∷ coins, rw (k, l) refl, rw (map, k, listed) refl)

module _ ⦃x : External⦄ {S : Type 0} ⦃d : Database S⦄ ⦃c : CoinCodec⦄ where
  -- In a store whose tree stands for an ordered tree with keys of bytes, the query of all balances
  -- returns the coins of the entries whose keys begin with the address's prefix, in order, if each
  -- of these holds a coin, given two more units of fuel than there are nodes.
  pub query_all_balances-returns :
      (fuel : ℕ) (s : KvStore S) (address : Bytes) (n : Node) (shape : Shape)
      → s.persistent_store.root ≡ some n
      → Loads s.persistent_store.node_db n shape
      → IsOrdered shape
      → All (λ e. IsBytes e.0) (entries shape)
      → nodes shape + 2 ≤ fuel
      → let m =
          keep
            (selects unbounded unbounded (create_denom_balance_prefix address))
            (entries shape) in
        HoldCoins m
        → (coins : List Coin) × (query_all_balances fuel s address ≡ ok coins) × Listed m coins
  unfolding query_all_balances
  query_all_balances-returns fuel s address n shape e l o b f h =
      let p = create_denom_balance_prefix address in
      let m = keep (selects unbounded unbounded p) (entries shape) in
      let (coins, k, listed) = decode_balances-strip p m h in
      (
        coins,
        rw
            (
              query_all_balances,
              prefix_range-eq-strip unbounded unbounded fuel s p n shape e l o b f,
            )
            k,
        listed,
      )

-- ===== src/Gaia/Balances.antt =====
-- The query of all balances, from its bytes to the bytes of the response.
use doge_sdk.Base.{ℕ, ◌+◌, ◌≤◌, ◌≡◌, refl, some, List, All, map}
use doge_sdk.Base.Bytes.{Bytes, cmp}
use doge_sdk.Base.Tried.{done}
use doge_sdk.Database.Bound.{unbounded, IsBytes, starts_with}
use doge_sdk.Database.Memory.{keep}
use doge_sdk.Database.Record.{Database}
use doge_sdk.Trees.External.{External}
use doge_sdk.Trees.Outcome.{ok}
use doge_sdk.Trees.Iavl.Node.{Node}
use doge_sdk.Trees.Iavl.Shape.{Shape, Loads, IsOrdered, entries}
use doge_sdk.Trees.Iavl.RangeLaws.{nodes}
use doge_sdk.Store.KvStore.{KvStore}
use doge_sdk.Store.KvStore.RangeLaws.{selects}
use doge_sdk.Store.MultiStore.{MultiStore}
use doge_sdk.Store.MultiStore.Commit.{get_kv_store}
use doge_sdk.Messages.Crates.{Crates}
use doge_sdk.Messages.Coin.{coin_into_raw}
use doge_sdk.Messages.Fee.{address_try_from}
use doge_sdk.Bank.Coin.{Coin}
use doge_sdk.Bank.Keeper.{CoinCodec, create_denom_balance_prefix}
use doge_sdk.Bank.Queries.{query_all_balances, query_all_balances-returns, HoldCoins, Listed}
use doge_sdk.Gaia.StoreKeys.{name, bank}
use doge_sdk.Gaia.Handler.{view_database, viewed}
use doge_sdk.Gaia.Query.{
  QueryCodecs, all_balances_path, answer_all_balances, bank_handle_query, handle_query,
}

-- The entries of the bank's tree that belong to an address.
abbrev pub belonging : Shape → Bytes → List (Bytes × Bytes)
belonging shape address =
    keep (selects unbounded unbounded (create_denom_balance_prefix address)) (entries shape)

module _ ⦃x : External⦄ {S : Type 0} ⦃d : Database S⦄ ⦃r : Crates⦄ ⦃q : QueryCodecs⦄ ⦃c : CoinCodec⦄
    (fuel : ℕ) where
  handle_query_path :
      (m : MultiStore S) (s : KvStore S) (text bytes address : Bytes) (coins : List Coin)
      → q.decode_all_balances bytes ≡ some text
      → address_try_from text ≡ done address
      → get_kv_store m (name bank) ≡ ok s
      → query_all_balances fuel (viewed (name bank) s) address ≡ ok coins
      → handle_query fuel m all_balances_path bytes
        ≡ ok (done (q.encode_all_balances (map coin_into_raw coins)))
  unfolding handle_query bank_handle_query answer_all_balances starts_with cmp
  handle_query_path m s text bytes address coins e a g h = rw (answer_all_balances, e, a, g, h) refl

  -- The example chain answers a query of all balances of a valid address: if the tree of the
  -- bank's store stands for an ordered tree with keys of bytes, and each of its entries under the
  -- address's prefix holds a coin, then the response has these coins, in the order of the keys,
  -- given two more units of fuel than the tree has nodes.
  pub handle_query-balances :
      (m : MultiStore S) (s : KvStore S) (text bytes address : Bytes) (n : Node) (shape : Shape)
      → q.decode_all_balances bytes ≡ some text
      → address_try_from text ≡ done address
      → get_kv_store m (name bank) ≡ ok s
      → s.persistent_store.root ≡ some n
      → Loads {S = S × Bytes} (s.persistent_store.node_db, name bank) n shape
      → IsOrdered shape
      → All (λ e. IsBytes e.0) (entries shape)
      → nodes shape + 2 ≤ fuel
      → HoldCoins (belonging shape address)
      → (coins : List Coin) × (handle_query fuel m all_balances_path bytes
          ≡ ok (done (q.encode_all_balances (map coin_into_raw coins))))
        × Listed (belonging shape address) coins
  handle_query-balances m s text bytes address n shape e a g root l o b f held =
      let (coins, h, listed) =
        query_all_balances-returns fuel (viewed (name bank) s) address n shape root l o b f held in
      (coins, handle_query_path m s text bytes address coins e a g h, listed)

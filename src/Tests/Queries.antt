-- ===== src/Tests/Queries.antt =====
-- The queries at concrete inputs.
use doge_sdk.Base.{◌≡◌, refl, Option, none, some, List, [], map, if◌then◌else◌, ◌==◌, ◌∷◌, arith}
use doge_sdk.Base.Bytes.{Bytes, cmp, le_refl}
use doge_sdk.Base.BTreeMap.{BTreeMap}
use doge_sdk.Database.Bound.{unbounded, contains, starts_with, above_start, below_end}
use doge_sdk.Database.Memory.{MemDb, mem_database, new, keep}
use doge_sdk.Trees.Outcome.{ok}
use doge_sdk.Trees.Iavl.Node.{hash}
use doge_sdk.Trees.Iavl.Shape.{Shape, entries, IsOrdered}
use doge_sdk.Trees.Iavl.Balance.{in_memory}
use doge_sdk.Trees.Iavl.TreeLaws.{Loads-in_memory}
use doge_sdk.Store.KvStore.{KvStore}
use doge_sdk.Store.KvStore.RangeLaws.{selects}
use doge_sdk.Bank.Coin.{Coin}
use doge_sdk.Bank.Keeper.{create_denom_balance_prefix}
use doge_sdk.Bank.Queries.{query_all_balances, Listed, HoldCoins}
use doge_sdk.Tests.Crates.{crates}
use doge_sdk.Store.MultiStore.{MultiStore}
use doge_sdk.Store.MultiStore.Commit.{get_kv_store}
use doge_sdk.Base.Tried.{done}
use doge_sdk.Messages.Address.{to_string}
use doge_sdk.Messages.Coin.{RawCoin, coin_into_raw}
use doge_sdk.Messages.Fee.{address_try_from-to_string}
use doge_sdk.Gaia.StoreKeys.{name, bank}
use doge_sdk.Gaia.Handler.{view_database}
use doge_sdk.Gaia.Query.{QueryCodecs, all_balances_path, handle_query}
use doge_sdk.Gaia.Paths.{answer_in, paths, handle_query-answer_in}
use doge_sdk.Gaia.Balances.{handle_query-balances}
use doge_sdk.Tests.Messages.{message_crates, message_crates-IsLawful, pull, put}
use doge_sdk.Tests.Bank.{coins}

abbrev address : Bytes
address = 7 ∷ []

-- A balance of 5 "a" of the address, and one of another address.
abbrev held : Shape
held = Shape.leaf (2 ∷ 1 ∷ 7 ∷ 97 ∷ []) (5 ∷ 97 ∷ []) 1

abbrev other : Shape
other = Shape.leaf (2 ∷ 1 ∷ 8 ∷ 97 ∷ []) (9 ∷ 97 ∷ []) 1

abbrev balances : Shape
balances =
    Shape.node
      (record {
        key = 2 ∷ 1 ∷ 8 ∷ 97 ∷ [];
        height = 1;
        size = 2;
        left_hash = hash (in_memory held);
        right_hash = hash (in_memory other);
        version = 1;
      })
      held other

balances-IsOrdered : IsOrdered balances
unfolding cmp
balances-IsOrdered = ((refl, tt), (le_refl (2 ∷ 1 ∷ 8 ∷ 97 ∷ []), tt), tt, tt)

abbrev store : KvStore MemDb
store = record {
  persistent_store = record {
    root = some (in_memory balances);
    node_db = new;
    loaded_version = 0;
    versions = [];
  };
  block_cache = [];
  tx_cache = [];
}

-- The entries of the address.
abbrev selected : BTreeMap Bytes
selected =
    keep (selects unbounded unbounded (create_denom_balance_prefix address)) (entries balances)

selected-HoldCoins : HoldCoins selected
unfolding keep starts_with contains create_denom_balance_prefix cmp above_start below_end coins
selected-HoldCoins = ((record { denom = 97 ∷ []; amount = 5 }, refl), tt)

-- A request is its text, after the number of its fields, and a response the fields of its coins.
abbrev encode_coins : List RawCoin → Bytes
encode_coins [] = []
encode_coins (c ∷ cs) = put c.denom (put c.amount (encode_coins cs))

abbrev decode_text : Bytes → Option Bytes
decode_text [] = none
decode_text (n ∷ text) = if n == 1 then some text else none

instance unfoldable pub codecs : QueryCodecs
codecs = record {
  decode_account = decode_text;
  decode_all_balances = decode_text;
  decode_balance = λ b. elim (pull b) [
    | none ↦ none
    | some (address, denom) ↦ some (record { address = address; denom = denom })
  ];
  encode_account = λ any. any.value;
  encode_all_balances = encode_coins;
  encode_total_supply = encode_coins;
  encode_balance = λ o. elim o [ none ↦ [] | some c ↦ encode_coins (c ∷ []) ];
}

stores : MultiStore MemDb
stores = record { head_version = 0; head_commit_hash = []; stores = (name bank, store) ∷ [] }

handle_query-balances_example :
    (found : List Coin) × (handle_query 5 stores all_balances_path (1 ∷ to_string address)
      ≡ ok (done (codecs.encode_all_balances (map coin_into_raw found))))
    × Listed selected found
unfolding stores codecs get_kv_store name cmp
handle_query-balances_example =
    handle_query-balances 5 stores store (to_string address) (1 ∷ to_string address) address
      (in_memory balances) balances refl
      (address_try_from-to_string message_crates-IsLawful address ((omega arith, tt), omega arith))
      refl refl (Loads-in_memory (new, name bank) balances) balances-IsOrdered
      (
        (omega arith, (omega arith, (omega arith, (omega arith, tt)))),
        ((omega arith, (omega arith, (omega arith, (omega arith, tt)))), tt),
      )
      (omega arith) selected-HoldCoins

handle_query-answer_in_example :
    handle_query 5 stores all_balances_path (1 ∷ to_string address)
    ≡ answer_in (paths 5 stores (1 ∷ to_string address)) all_balances_path
handle_query-answer_in_example =
    handle_query-answer_in 5 stores all_balances_path (1 ∷ to_string address)

-- The list has the one coin of the address.
query_all_balances_run :
    query_all_balances 5 store address ≡ ok (record { denom = 97 ∷ []; amount = 5 } ∷ [])
unfolding query_all_balances starts_with contains create_denom_balance_prefix cmp above_start
    below_end coins
query_all_balances_run = refl

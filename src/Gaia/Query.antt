-- ===== src/Gaia/Query.antt =====
-- The queries of gaia-rs/src/handler.rs, with the handlers of x/auth/src/handler.rs and
-- x/bank/src/handler.rs that it asks, and their requests and responses, of
-- proto-messages/src/cosmos/auth.rs and proto-messages/src/cosmos/bank/v1beta1/query.rs. A path is its bytes.
use doge_sdk.Base.{ℕ, Option, none, some, List, [], ◌∷◌, ◌++◌, map, if◌then◌else◌}
use doge_sdk.Base.Bytes.{Bytes, eq_bytes}
use doge_sdk.Base.Tried.{Tried, done, failed}
use doge_sdk.Database.Bound.{starts_with}
use doge_sdk.Database.Record.{Database}
use doge_sdk.Trees.External.{External}
use doge_sdk.Trees.Outcome.{Outcome, ok, ◌>>=◌}
use doge_sdk.Store.MultiStore.{MultiStore}
use doge_sdk.Store.MultiStore.Commit.{get_kv_store}
use doge_sdk.Messages.Crates.{Crates, Any}
use doge_sdk.Messages.Key.{MessagesError, coin}
use doge_sdk.Messages.Account.{Account, account_into_any}
use doge_sdk.Messages.Coin.{RawCoin, coin_into_raw, denom_try_from}
use doge_sdk.Messages.Fee.{address_try_from}
use doge_sdk.Auth.Keeper.{QueryError, query_account}
use doge_sdk.Bank.Coin.{Coin}
use doge_sdk.Bank.Keeper.{CoinCodec}
use doge_sdk.Bank.Queries.{query_balance, query_all_balances, get_paginated_total_supply}
use doge_sdk.Ante.{AppError, invalid_request}
use doge_sdk.Ante
use doge_sdk.Gaia.StoreKeys.{name, bank, auth}
use doge_sdk.Gaia.Handler.{view_database, viewed}

pub record RawBalanceRequest : Type 0 where
  pub address : Bytes
  pub denom : Bytes

-- What prost reads of the generated requests, and the bytes of the generated responses. The pages
-- of a request are not read, and those of a response are none.
pub record QueryCodecs : Type 0 where
  pub decode_account : Bytes → Option Bytes
  pub decode_all_balances : Bytes → Option Bytes
  pub decode_balance : Bytes → Option RawBalanceRequest
  pub encode_account : Any → Bytes
  pub encode_all_balances : List RawCoin → Bytes
  pub encode_total_supply : List RawCoin → Bytes
  pub encode_balance : Option RawCoin → Bytes

-- "/cosmos.auth", "/cosmos.bank" and ".v1beta1.Query/".
abbrev pub auth_prefix : Bytes
auth_prefix = 47 ∷ 99 ∷ 111 ∷ 115 ∷ 109 ∷ 111 ∷ 115 ∷ 46 ∷ 97 ∷ 117 ∷ 116 ∷ 104 ∷ []

abbrev pub bank_prefix : Bytes
bank_prefix = 47 ∷ 99 ∷ 111 ∷ 115 ∷ 109 ∷ 111 ∷ 115 ∷ 46 ∷ 98 ∷ 97 ∷ 110 ∷ 107 ∷ []

abbrev service : Bytes
service = 46 ∷ 118 ∷ 49 ∷ 98 ∷ 101 ∷ 116 ∷ 97 ∷ 49 ∷ 46 ∷ 81 ∷ 117 ∷ 101 ∷ 114 ∷ 121 ∷ 47 ∷ []

-- "Account", "AllBalances", "TotalSupply" and "Balance".
abbrev pub account_path : Bytes
account_path = auth_prefix ++ service ++ 65 ∷ 99 ∷ 99 ∷ 111 ∷ 117 ∷ 110 ∷ 116 ∷ []

abbrev pub all_balances_path : Bytes
all_balances_path =
    bank_prefix ++ service ++ 65 ∷ 108 ∷ 108 ∷ 66 ∷ 97 ∷ 108 ∷ 97 ∷ 110 ∷ 99 ∷ 101 ∷ 115 ∷ []

abbrev pub total_supply_path : Bytes
total_supply_path =
    bank_prefix ++ service ++ 84 ∷ 111 ∷ 116 ∷ 97 ∷ 108 ∷ 83 ∷ 117 ∷ 112 ∷ 112 ∷ 108 ∷ 121 ∷ []

abbrev pub balance_path : Bytes
balance_path = bank_prefix ++ service ++ 66 ∷ 97 ∷ 108 ∷ 97 ∷ 110 ∷ 99 ∷ 101 ∷ []

-- `Protobuf::decode`, whose errors of both kinds are refused as an invalid request.
abbrev pub decode_request :
    {Raw A : Type 0} → Option Raw → (Raw → Tried MessagesError A) → Tried AppError A
decode_request none f = failed invalid_request
decode_request (some raw) f = elim (f raw) [ done a ↦ done a | failed _ ↦ failed invalid_request ]

module _ ⦃r : Crates⦄ where
  -- The address and the denomination.
  unfoldable pub balance_request_try_from : RawBalanceRequest → Tried MessagesError (Bytes × Bytes)
  unfolding address_try_from denom_try_from
  balance_request_try_from raw = elim (address_try_from raw.address) [
    | failed e ↦ failed e
    | done address ↦ elim (denom_try_from raw.denom) [
      | done denom ↦ done (address, denom)
      | failed _ ↦ failed coin
    ]
  ]

  abbrev pub map_coin : Option Coin → Option RawCoin
  map_coin none = none
  map_coin (some balance) = some (coin_into_raw balance)

-- `map` of the result of `query_account`.
abbrev pub account_response :
    ⦃r : Crates⦄ → ⦃q : QueryCodecs⦄ → Tried QueryError Account → Tried AppError Bytes
account_response ⦃q = q⦄ (done account) = done (q.encode_account (account_into_any account))
account_response (failed _) = failed Ante.account_not_found

module _ ⦃x : External⦄ {S : Type 0} ⦃d : Database S⦄ ⦃r : Crates⦄ ⦃q : QueryCodecs⦄
    (fuel : ℕ) where
  unfoldable pub auth_handle_query : MultiStore S → Bytes → Bytes → Outcome (Tried AppError Bytes)
  unfolding address_try_from get_kv_store query_account account_into_any
  auth_handle_query m path bytes =
      if eq_bytes path account_path
      then elim (decode_request (q.decode_account bytes) address_try_from) [
        | failed e ↦ ok (failed e)
        | done address ↦ (do
          s ← get_kv_store m (name auth)
          result ← query_account fuel (viewed (name auth) s) address
          ok (account_response result))
      ]
      else ok (failed invalid_request)

  module _ ⦃c : CoinCodec⦄ where
    unfoldable pub answer_all_balances : MultiStore S → Bytes → Outcome (Tried AppError Bytes)
    unfolding address_try_from get_kv_store query_all_balances
    answer_all_balances m bytes =
        elim (decode_request (q.decode_all_balances bytes) address_try_from) [
          | failed e ↦ ok (failed e)
          | done address ↦ (do
            s ← get_kv_store m (name bank)
            coins ← query_all_balances fuel (viewed (name bank) s) address
            ok (done (q.encode_all_balances (map coin_into_raw coins))))
        ]

    unfoldable pub answer_total_supply : MultiStore S → Outcome (Tried AppError Bytes)
    unfolding get_kv_store get_paginated_total_supply
    answer_total_supply m = do
      s ← get_kv_store m (name bank)
      coins ← get_paginated_total_supply fuel (viewed (name bank) s)
      ok (done (q.encode_total_supply (map coin_into_raw coins)))

    unfoldable pub answer_balance : MultiStore S → Bytes → Outcome (Tried AppError Bytes)
    unfolding balance_request_try_from get_kv_store query_balance
    answer_balance m bytes =
        elim (decode_request (q.decode_balance bytes) balance_request_try_from) [
          | failed e ↦ ok (failed e)
          | done (address, denom) ↦ (do
            s ← get_kv_store m (name bank)
            balance ← query_balance fuel (viewed (name bank) s) address denom
            ok (done (q.encode_balance (map_coin balance))))
        ]

    unfoldable pub bank_handle_query : MultiStore S → Bytes → Bytes → Outcome (Tried AppError Bytes)
    unfolding answer_all_balances answer_total_supply answer_balance
    bank_handle_query m path bytes =
        if eq_bytes path all_balances_path
        then answer_all_balances m bytes
        else if eq_bytes path total_supply_path
        then answer_total_supply m
        else if eq_bytes path balance_path
        then answer_balance m bytes
        else ok (failed invalid_request)

    -- The module is found by the beginning of the path.
    unfoldable pub handle_query : MultiStore S → Bytes → Bytes → Outcome (Tried AppError Bytes)
    unfolding auth_handle_query bank_handle_query starts_with
    handle_query m path bytes =
        if starts_with auth_prefix path
        then auth_handle_query m path bytes
        else if starts_with bank_prefix path
        then bank_handle_query m path bytes
        else ok (failed invalid_request)

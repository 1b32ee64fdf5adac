-- ===== src/Gaia/Paths.antt =====
-- Which query of which keeper answers a path, whatever modules the path goes through.
use doge_sdk.Base.{
  ℕ, ap, ◌∙◌, ◌≡◌, refl, sym, true, false, Bool-cases, inl, inr, Option, none, some, List, [], ◌∷◌,
  map, arith, if◌then◌else◌,
}
use doge_sdk.Base.Bytes.{Bytes, cmp, eq_bytes, eq_of_cmp}
use doge_sdk.Base.Tried.{Tried, done, failed, Tried-cases}
use doge_sdk.Database.Prefix.{Separate}
use doge_sdk.Database.Bound.{starts_with}
use doge_sdk.Database.Record.{Database}
use doge_sdk.Trees.External.{External}
use doge_sdk.Trees.Outcome.{Outcome, ok, ◌>>=◌}
use doge_sdk.Store.KvStore.{KvStore}
use doge_sdk.Store.MultiStore.{MultiStore}
use doge_sdk.Store.MultiStore.Commit.{get_kv_store}
use doge_sdk.Messages.Crates.{Crates}
use doge_sdk.Messages.Key.{MessagesError}
use doge_sdk.Messages.Coin.{coin_into_raw}
use doge_sdk.Messages.Fee.{address_try_from}
use doge_sdk.Auth.Keeper.{query_account}
use doge_sdk.Bank.Keeper.{CoinCodec}
use doge_sdk.Bank.Queries.{query_balance, query_all_balances, get_paginated_total_supply}
use doge_sdk.Ante.{AppError, invalid_request}
use doge_sdk.Gaia.StoreKeys.{GaiaStoreKey, name, bank, auth}
use doge_sdk.Gaia.Handler.{view_database, viewed}
use doge_sdk.Gaia.Query.{
  QueryCodecs, auth_prefix, bank_prefix, account_path, all_balances_path, total_supply_path,
  balance_path, map_coin, account_response, decode_request, balance_request_try_from,
  auth_handle_query, bank_handle_query, handle_query, answer_all_balances, answer_total_supply,
  answer_balance,
}

-- The answer to each path.
abbrev pub Table : Type 0
Table = List (Bytes × Outcome (Tried AppError Bytes))

-- The answer that the table has for a path, and otherwise a refusal.
abbrev pub answer_in : Table → Bytes → Outcome (Tried AppError Bytes)
answer_in [] path = ok (failed invalid_request)
answer_in ((known, answer) ∷ table) path =
    let others = answer_in table path in if eq_bytes path known then answer else others

-- A request that is not read is refused.
abbrev pub reading :
    {Raw A : Type 0}
    → Option Raw
    → (Raw → Tried MessagesError A)
    → (A → Outcome (Tried AppError Bytes))
    → Outcome (Tried AppError Bytes)
reading none convert answer = ok (failed invalid_request)
reading (some raw) convert answer = elim (convert raw) [
  | done a ↦ answer a
  | failed _ ↦ ok (failed invalid_request)
]

-- A question to the store of a module, and what is made of the result.
abbrev pub asking :
    {S A : Type 0}
    → MultiStore S
    → GaiaStoreKey
    → (KvStore (S × Bytes) → Outcome A)
    → (A → Tried AppError Bytes)
    → Outcome (Tried AppError Bytes)
asking m key question made = do
  s ← get_kv_store m (name key)
  a ← question (viewed (name key) s)
  ok (made a)

-- Of two beginnings that are separate a path has at most one.
starts_with-Separate :
    (p q path : Bytes) → Separate p q → starts_with q path ≡ true → starts_with p path ≡ false
unfolding starts_with
starts_with-Separate [] q path s h = cc (s.0)
starts_with-Separate (a ∷ p) [] path s h = cc (s.1)
starts_with-Separate (a ∷ p) (b ∷ q) [] s h = refl
starts_with-Separate (a ∷ p) (b ∷ q) (c ∷ path) s h = ground (arith, starts_with-Separate p q path)

-- A path with another beginning is another path.
other :
    (path known : Bytes)
    → starts_with bank_prefix known ≡ true
    → starts_with bank_prefix path ≡ false
    → eq_bytes path known ≡ false
other path known h k = elim (Bool-cases (eq_bytes path known)) [
  | inl e ↦
      let same = eq_of_cmp path known (ground (arith, e)) in
      cc (h, k, ap (starts_with bank_prefix) same)
  | inr e ↦ e
]

-- The errors of a request, as the handlers pass them on.
reading_lem :
    {Raw A : Type 0} (raw : Option Raw) (convert : Raw → Tried MessagesError A)
    (answer : A → Outcome (Tried AppError Bytes))
    → ◌≡◌ {A = Outcome (Tried AppError Bytes)}
        (elim (decode_request raw convert) [ failed e ↦ ok (failed e) | done a ↦ answer a ])
        (reading raw convert answer)
reading_lem none convert answer = refl
reading_lem (some raw) convert answer = elim (Tried-cases (convert raw)) [
  | inl (a, e) ↦ rw (reading, e) refl
  | inr (err, e) ↦ rw (reading, e) refl
]

module _ ⦃x : External⦄ {S : Type 0} ⦃d : Database S⦄ ⦃r : Crates⦄ ⦃q : QueryCodecs⦄ ⦃c : CoinCodec⦄
    (fuel : ℕ) where
  -- The four paths with the queries of the keepers.
  abbrev account : MultiStore S → Bytes → Outcome (Tried AppError Bytes)
  account m bytes =
      reading (q.decode_account bytes) address_try_from
        (λ address. asking m auth (λ s. query_account fuel s address) account_response)

  abbrev all_balances : MultiStore S → Bytes → Outcome (Tried AppError Bytes)
  all_balances m bytes = reading (q.decode_all_balances bytes) address_try_from (λ address.
      asking m bank (λ s. query_all_balances fuel s address)
        (λ coins. done (q.encode_all_balances (map coin_into_raw coins))))

  abbrev total_supply : MultiStore S → Outcome (Tried AppError Bytes)
  total_supply m =
      asking m bank (λ s. get_paginated_total_supply fuel s)
        (λ coins. done (q.encode_total_supply (map coin_into_raw coins)))

  abbrev balance : MultiStore S → Bytes → Outcome (Tried AppError Bytes)
  balance m bytes = reading (q.decode_balance bytes) balance_request_try_from (λ request.
      asking m bank (λ s. query_balance fuel s request.0 request.1)
        (λ found. done (q.encode_balance (map_coin found))))

  abbrev pub paths : MultiStore S → Bytes → Table
  paths m bytes =
      (account_path, account m bytes)
      ∷ (all_balances_path, all_balances m bytes)
      ∷ (total_supply_path, total_supply m)
      ∷ (balance_path, balance m bytes)
      ∷ []

  auth_handle_query-account :
      (m : MultiStore S) (path bytes : Bytes)
      → eq_bytes path account_path ≡ true
      → auth_handle_query fuel m path bytes ≡ account m bytes
  unfolding auth_handle_query
  auth_handle_query-account m path bytes e =
      rw e (reading_lem (q.decode_account bytes) address_try_from _)

  answer_all_balances_lem :
      (m : MultiStore S) (bytes : Bytes) → answer_all_balances fuel m bytes ≡ all_balances m bytes
  unfolding answer_all_balances
  answer_all_balances_lem m bytes = reading_lem (q.decode_all_balances bytes) address_try_from _

  answer_balance_lem :
      (m : MultiStore S) (bytes : Bytes) → answer_balance fuel m bytes ≡ balance m bytes
  unfolding answer_balance
  answer_balance_lem m bytes = reading_lem (q.decode_balance bytes) balance_request_try_from _

  -- The bank finds the rest of the table.
  bank_handle_query-answer_in :
      (m : MultiStore S) (path bytes : Bytes)
      → eq_bytes path account_path ≡ false
      → bank_handle_query fuel m path bytes ≡ answer_in (paths m bytes) path
  unfolding bank_handle_query answer_total_supply
  bank_handle_query-answer_in m path bytes e =
      rw (bank_handle_query, answer_all_balances_lem m bytes, answer_balance_lem m bytes, e) refl

  auth_elsewhere :
      (m : MultiStore S) (path bytes : Bytes)
      → eq_bytes path account_path ≡ false
      → auth_handle_query fuel m path bytes ≡ ok (failed invalid_request)
  unfolding auth_handle_query
  auth_elsewhere m path bytes h = rw h refl

  bank_elsewhere :
      (m : MultiStore S) (path bytes : Bytes)
      → starts_with bank_prefix path ≡ false
      → bank_handle_query fuel m path bytes ≡ ok (failed invalid_request)
  unfolding bank_handle_query
  bank_elsewhere m path bytes h =
      rw
        (
          other path all_balances_path (unfold starts_with in refl) h,
          other path total_supply_path (unfold starts_with in refl) h,
          other path balance_path (unfold starts_with in refl) h,
        )
        refl

  account_first :
      (m : MultiStore S) (path bytes : Bytes)
      → eq_bytes path account_path ≡ true
      → handle_query fuel m path bytes ≡ auth_handle_query fuel m path bytes
  unfolding handle_query starts_with cmp
  account_first m path bytes e = rw (eq_of_cmp path account_path (ground (arith, e))) refl

  -- Every query is answered by the table of the four paths, in which each path has a query of one
  -- keeper on that keeper's store, asked with what is read from the request; a request that is not
  -- read, and any other path, are refused as an invalid request.
  pub handle_query-answer_in :
      (m : MultiStore S) (path bytes : Bytes)
      → handle_query fuel m path bytes ≡ answer_in (paths m bytes) path
  unfolding handle_query
  handle_query-answer_in m path bytes = elim (Bool-cases (eq_bytes path account_path)) [
    | inl e ↦
        account_first m path bytes e
        ∙ auth_handle_query-account m path bytes e
        ∙ rw (answer_in, e) refl
    | inr e ↦ elim (Bool-cases (starts_with bank_prefix path)) [
      | inl b ↦
          rw
            (
              starts_with-Separate auth_prefix bank_prefix path
                  (unfold starts_with in refl, unfold starts_with in refl) b,
              b,
            )
            (bank_handle_query-answer_in m path bytes e)
      | inr b ↦
          ground (arith, b, e, auth_elsewhere m path bytes e, bank_elsewhere m path bytes b)
          ∙ sym (bank_elsewhere m path bytes b)
          ∙ bank_handle_query-answer_in m path bytes e
    ]
  ]

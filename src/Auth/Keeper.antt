-- ===== src/Auth/Keeper.antt =====
-- The auth keeper of x/auth/src/keeper.rs over the `KvStore` of its store key.
pub mod Pending
pub mod Accounts
pub mod Numbers
use doge_sdk.Base.{ℕ, ◌+◌, ◌%◌, ◌^◌, Bool, true, false, Option, none, some, List, [], ◌∷◌}
use doge_sdk.Base.Bytes.{Bytes}
use doge_sdk.Base.Tried.{Tried, done, failed}
use doge_sdk.Database.Record.{Database}
use doge_sdk.Trees.External.{External}
use doge_sdk.Trees.Outcome.{Outcome, ok, expect, ◌>>=◌}
use doge_sdk.Store.KvStore.{KvStore, get, set}
use doge_sdk.Messages.Crates.{Crates, Codec}
use doge_sdk.Messages.Key.{expect_done}
use doge_sdk.Messages.Account.{
  Account, BaseAccount, base, module_account, get_address, decode, encode_vec,
}
use doge_sdk.Auth.Module.{Module, fee_collector, get_name, get_permissions, get_module_address}

-- "globalAccountNumber".
abbrev pub global_account_number_key : Bytes
global_account_number_key =
    103 ∷ 108 ∷ 111 ∷ 98 ∷ 97 ∷ 108 ∷ 65 ∷ 99 ∷ 99 ∷ 111 ∷ 117 ∷ 110 ∷ 116 ∷ 78 ∷ 117 ∷ 109 ∷ 98
    ∷ 101 ∷ 114 ∷ []

abbrev is_some : {A : Type 0} → Option A → Bool
is_some none = false
is_some (some a) = true

unfoldable pub create_auth_store_key : Bytes → Bytes
create_auth_store_key address = 1 ∷ address

pub data QueryError : Type 0 where
  account_not_found : QueryError

module _ {S : Type 0} ⦃c : Crates⦄ where
  -- It stands in the trait and again in the keeper.
  unfoldable pub set_account : KvStore S → Account → Outcome (KvStore S)
  unfolding create_auth_store_key get_address encode_vec set
  set_account s acct = set s (create_auth_store_key (get_address acct)) (encode_vec acct)

-- `u64::encode_to_vec` and `u64::decode` are a parameter.
module _ ⦃n : Codec ℕ⦄ where
  abbrev number_of : Option Bytes → Outcome ℕ
  number_of none = ok 0
  number_of (some num) = expect (n.decode num)

module _ ⦃c : Crates⦄ where
  abbrev account_of : Option Bytes → Outcome (Option Account)
  account_of none = ok none
  account_of (some buf) = do acct ← expect_done (decode buf); ok (some acct)

module _ ⦃x : External⦄ {S : Type 0} ⦃d : Database S⦄ ⦃c : Crates⦄ (fuel : ℕ) where
  unfoldable pub has_account : KvStore S → Bytes → Outcome Bool
  unfolding create_auth_store_key get
  has_account s addr = do found ← get fuel s (create_auth_store_key addr); ok (is_some found)

  unfoldable pub get_account : KvStore S → Bytes → Outcome (Option Account)
  unfolding create_auth_store_key get decode
  get_account s addr = do account ← get fuel s (create_auth_store_key addr); account_of account

  -- `query_account`, on the store that the query reads.
  unfoldable pub query_account : KvStore S → Bytes → Outcome (Tried QueryError Account)
  unfolding get_account
  query_account s addr = do
    account ← get_account s addr
    elim account [ some acct ↦ ok (done acct) | none ↦ ok (failed account_not_found) ]

module _ ⦃x : External⦄ {S : Type 0} ⦃d : Database S⦄ ⦃n : Codec ℕ⦄ (fuel : ℕ) where
  -- The number that is stored, 0 at first.
  unfoldable pub read_number : KvStore S → Outcome ℕ
  unfolding get
  read_number s = do num ← get fuel s global_account_number_key; number_of num

  -- `acct_num + 1` in a `u64`.
  unfoldable pub get_next_account_number : KvStore S → Outcome (ℕ × KvStore S)
  unfolding read_number set
  get_next_account_number s = do
    acct_num ← read_number s
    s' ← set s global_account_number_key (n.encode ((acct_num + 1) % 2 ^ 64))
    ok (acct_num, s')

module _ ⦃x : External⦄ {S : Type 0} ⦃d : Database S⦄ ⦃c : Crates⦄ ⦃n : Codec ℕ⦄ (fuel : ℕ) where
  unfoldable pub create_new_base_account : KvStore S → Bytes → Outcome (KvStore S)
  unfolding get_next_account_number set_account
  create_new_base_account s addr = do
    (number, s') ← get_next_account_number fuel s
    set_account s'
        (base (record { address = addr; pub_key = none; account_number = number; sequence = 0 }))

  -- Nothing is done if the module has an account.
  unfoldable pub check_create_new_module_account : KvStore S → Module → Outcome (KvStore S)
  unfolding get_module_address has_account get_next_account_number set_account get_name
      get_permissions
  check_create_new_module_account s m = do
    addr ← get_module_address m
    exists ← has_account fuel s addr
    elim exists [
      | true ↦ ok s
      | false ↦ (do
        (number, s') ← get_next_account_number fuel s
        set_account s' (
            module_account (record {
              base_account = record {
                address = addr;
                pub_key = none;
                account_number = number;
                sequence = 0;
              };
              name = get_name m;
              permissions = get_permissions m;
            })))
    ]

  -- The loop of `init_genesis`: every account gets the next number.
  unfoldable pub add_accounts : KvStore S → List BaseAccount → Outcome (KvStore S)
  unfolding get_next_account_number set_account
  add_accounts s [] = ok s
  add_accounts s (acct ∷ accounts) = do
    (number, s1) ← get_next_account_number fuel s
    s2 ← set_account s1 (base (record acct { account_number = number }))
    add_accounts s2 accounts

  -- `init_genesis` after the parameters are stored, in another store.
  unfoldable pub init_genesis : KvStore S → List BaseAccount → Outcome (KvStore S)
  unfolding add_accounts check_create_new_module_account
  init_genesis s accounts = do
    s' ← add_accounts s accounts
    check_create_new_module_account s' fee_collector

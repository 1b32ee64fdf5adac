-- ===== src/Tests/Auth.antt =====
-- The auth keeper at concrete inputs.
use doge_sdk.Base.{ℕ, ◌^◌, ◌<◌, ◌≡◌, refl, none, some, [], ◌∷◌, arith, if◌then◌else◌}
use doge_sdk.Base.Bytes.{cmp, eq_bytes}
use doge_sdk.Base.BTreeMap
use doge_sdk.Base.Tried.{done}
use doge_sdk.Database.Memory.{MemDb, mem_database, new}
use doge_sdk.Trees.Outcome.{ok, ◌>>=◌}
use doge_sdk.Trees.Iavl.Tree
use doge_sdk.Store.KvStore
use doge_sdk.Store.KvStore.{KvStore}
use doge_sdk.Messages.Account.{
  BaseAccount, base, get_address, decode, encode_vec, decode-encode_vec,
}
use doge_sdk.Auth.Params
use doge_sdk.Auth.Module.{fee_collector, get_module_address}
use doge_sdk.Auth.Keeper.{get_account, set_account, check_create_new_module_account, init_genesis}
use doge_sdk.Auth.Keeper.Accounts.{get_account-set_account, ReadsBack}
use doge_sdk.Auth.Keeper.Numbers.{
  Numbered, Numbered-empty, Checked, check_create_new_module_account-Numbered,
  init_genesis-Numbered,
}
use doge_sdk.Tests.Crates.{crates}
use doge_sdk.Tests.Messages.{message_crates, message_crates-IsLawful, numbers}

abbrev pub empty : KvStore MemDb
empty = record {
  persistent_store = record { root = none; node_db = new; loaded_version = 0; versions = [] };
  block_cache = [];
  tx_cache = [];
}

pub numbers-ReadsBack : ReadsBack numbers
unfolding numbers
numbers-ReadsBack k h = let small : k < 2 ^ 256 = omega arith in ground (arith, small)

abbrev alice : BaseAccount
alice = record { address = 7 ∷ []; pub_key = none; account_number = 0; sequence = 5 }

decode-encode_vec_example : decode (encode_vec (base alice)) ≡ done (base alice)
decode-encode_vec_example =
    decode-encode_vec message_crates-IsLawful (base alice)
      (((omega arith, tt), omega arith), omega arith, omega arith)

get_account-set_account_example :
    (set_account empty (base alice) >>= λ s'. get_account 1 s' (7 ∷ [])) ≡ (
      if eq_bytes (7 ∷ []) (get_address (base alice))
      then ok (some (base alice))
      else get_account 1 empty (7 ∷ []))
get_account-set_account_example =
    get_account-set_account 1 message_crates-IsLawful empty (base alice) (7 ∷ [])
      (((omega arith, tt), omega arith), omega arith, omega arith)

empty-Numbered : Numbered 1 empty 0
unfolding KvStore.get BTreeMap.get Tree.get
empty-Numbered = Numbered-empty 1 empty (λ key. refl)

pub collector : get_module_address fee_collector ≡ ok (5 ∷ [])
unfolding get_module_address message_crates cmp
collector = refl

check_create_new_module_account-Numbered_example :
    (s' : KvStore MemDb) × (check_create_new_module_account 1 empty fee_collector ≡ ok s')
    × (check_create_new_module_account 1 s' fee_collector ≡ ok s')
    × Checked 1 empty 0 fee_collector (5 ∷ []) s'
check_create_new_module_account-Numbered_example =
    check_create_new_module_account-Numbered 1 message_crates-IsLawful numbers-ReadsBack empty 0
      fee_collector (5 ∷ []) empty-Numbered (omega arith) collector ((omega arith, tt), omega arith)

init_genesis-Numbered_example :
    (s' : KvStore MemDb) × (k' : ℕ) × (init_genesis 1 empty (alice ∷ []) ≡ ok s') × Numbered 1 s' k'
init_genesis-Numbered_example =
    init_genesis-Numbered 1 message_crates-IsLawful numbers-ReadsBack empty 0 (alice ∷ []) (5 ∷ [])
      empty-Numbered (omega arith) ((((omega arith, tt), omega arith), omega arith), tt) collector
      ((omega arith, tt), omega arith)

get-set_params_example :
    (Params.set empty (2 ∷ []) Params.default_params >>= λ s'. Params.get 1 s' (2 ∷ []))
    ≡ ok Params.default_params
get-set_params_example =
    Params.get-set_params 1 empty (2 ∷ []) Params.default_params (omega arith) (omega arith)
      (omega arith) (omega arith) (omega arith)

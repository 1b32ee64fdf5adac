-- ===== src/Tests/Ante.antt =====
-- The ante handler over the modules' keepers at a concrete transaction.
use doge_sdk.Base.{
  ◌+◌, ◌%◌, ◌^◌, ◌<◌, ◌≡◌, ◌≢◌, refl, true, none, some, [], ◌∷◌, arith, length, if◌then◌else◌,
}
use doge_sdk.Base.Bytes.{Bytes, cmp, eq_bytes}
use doge_sdk.Base.BTreeMap
use doge_sdk.Base.Decimal
use doge_sdk.Base.Tried.{Tried, done}
use doge_sdk.Database.Memory.{MemDb, mem_database}
use doge_sdk.Trees.Outcome.{Outcome, ok}
use doge_sdk.Trees.Iavl.Tree
use doge_sdk.Store.KvStore
use doge_sdk.Store.KvStore.{KvStore}
use doge_sdk.Messages.Key.{PublicKey, secp256k1}
use doge_sdk.Messages.Account.{Account, base, get_address, get_sequence, IsAccount}
use doge_sdk.Messages.Tx.{Message, TxWithRaw, member, get_signers}
use doge_sdk.Auth.Params
use doge_sdk.Auth.Keeper.Accounts.{with_account}
use doge_sdk.Ante.{
  AppError, Crypto, AuthKeeper, BankKeeper, run, deduct_fee_ante_handler, set_pub_key_ante_handler,
}
use doge_sdk.Ante.Stores.{StoreContext, store_context, auth_keeper, bank_keeper}
use doge_sdk.Ante.Keepers.{IsLawful, HasSequence}
use doge_sdk.Ante.Passed.{run-AllVerified}
use doge_sdk.Ante.Increment.{AllVerified}
use doge_sdk.Ante.Refinement.{Sound, Sound-first, Sound-with_account, keepers-IsLawful}
use doge_sdk.Ante.Replay.{run-sequences, run-replay}
use doge_sdk.Tests.Crates.{crates}
use doge_sdk.Tests.Messages.{message_crates, message_crates-IsLawful, numbers, pull, put, zeros20}
use doge_sdk.Tests.Auth.{empty, numbers-ReadsBack, collector}
use doge_sdk.Tests.Bank.{coins}

-- A message is its signer.
instance abbrev messages : Message Bytes
messages = record {
  get_signers = λ m. m ∷ [];
  validate_basic = λ m. true;
  into_any = λ m. record { type_url = []; value = m };
  try_from_any = λ any. done any.value;
}

-- The signature is the body.
instance abbrev crypto : Crypto
crypto = record {
  encode_sign_doc = λ doc. doc.body_bytes;
  from_hashed_data = λ b. b;
  from_compact = λ b. some b;
  verify_ecdsa = λ message signature key. eq_bytes message signature;
}

instance abbrev auths : AuthKeeper (StoreContext MemDb)
auths = auth_keeper 1

instance abbrev banks : BankKeeper (StoreContext MemDb)
banks = bank_keeper 1

abbrev alice_key : PublicKey
alice_key = secp256k1 (record { key = 3 ∷ [] })

abbrev alice : Account
alice = base (record { address = zeros20; pub_key = none; account_number = 0; sequence = 5 })

abbrev collector_account : Account
collector_account =
    base (record { address = 5 ∷ []; pub_key = none; account_number = 1; sequence = 0 })

abbrev stored : Outcome (KvStore MemDb) → KvStore MemDb
stored (ok s) = s
stored _ = empty

abbrev ctx : StoreContext MemDb
ctx = record {
  height = 3;
  chain_id = 1 ∷ [];
  stores = record {
    auth_store = with_account (with_account empty collector_account) alice;
    bank_store = empty;
  };
  params_store = stored (Params.set empty (2 ∷ []) Params.default_params);
  auth_subspace = 2 ∷ [];
}

abbrev body : Bytes
body = 9 ∷ []

abbrev tx : TxWithRaw Bytes
tx = record {
  tx = record {
    body = record {
      messages = zeros20 ∷ [];
      memo = 1 ∷ [];
      timeout_height = 4;
      extension_options = [];
      non_critical_extension_options = [];
    };
    auth_info = record {
      signer_infos = record { public_key = some alice_key; mode_info = none; sequence = 5 } ∷ [];
      fee = record { amount = none; gas_limit = 0; payer = none; granter = [] };
      tip = none;
    };
    signatures = body ∷ [];
    signatures_data = record { signature = body; sequence = 5 } ∷ [];
  };
  raw = record { body_bytes = body; auth_info_bytes = [] };
}

abbrev returned : Outcome (Tried AppError Unit × StoreContext MemDb) → StoreContext MemDb
returned (ok (r, c)) = c
returned _ = ctx

unfoldable after : StoreContext MemDb
unfolding run
after = returned (run ctx tx)

after-run : run ctx tx ≡ ok (done tt, after)
unfolding after run message_crates cmp with_account auth_keeper bank_keeper Params.set KvStore.get
    BTreeMap.get BTreeMap.insert Tree.get get_signers Decimal.digits put pull
after-run = refl

alice-IsAccount : IsAccount alice
alice-IsAccount = (
  (
    (
      omega arith,
      (
        omega arith,
        (
          omega arith,
          (
            omega arith,
            (
              omega arith,
              (
                omega arith,
                (
                  omega arith,
                  (
                    omega arith,
                    (
                      omega arith,
                      (
                        omega arith,
                        (
                          omega arith,
                          (
                            omega arith,
                            (
                              omega arith,
                              (
                                omega arith,
                                (
                                  omega arith,
                                  (
                                    omega arith,
                                    (omega arith, (omega arith, (omega arith, (omega arith, tt)))),
                                  ),
                                ),
                              ),
                            ),
                          ),
                        ),
                      ),
                    ),
                  ),
                ),
              ),
            ),
          ),
        ),
      ),
    ),
    omega arith,
  ),
  omega arith,
  omega arith,
)

empty_reads : (key : Bytes) → KvStore.get 1 empty key ≡ ok none
unfolding KvStore.get BTreeMap.get Tree.get
empty_reads key = refl

ctx-Sound : Sound 1 ctx.stores.auth_store
unfolding get_address
ctx-Sound =
    Sound-with_account 1 message_crates-IsLawful (with_account empty collector_account) alice
      (Sound-first 1 message_crates-IsLawful empty collector_account empty_reads
        (((omega arith, tt), omega arith), omega arith, omega arith) collector)
      alice-IsAccount

alice-HasSequence : HasSequence ctx zeros20 5
unfolding with_account auth_keeper message_crates cmp get_sequence KvStore.get BTreeMap.get
    BTreeMap.insert pull put
alice-HasSequence = (alice, refl, refl)

keepers-IsLawful_example : IsLawful auths banks (λ c. Sound 1 c.stores.auth_store)
keepers-IsLawful_example = keepers-IsLawful message_crates-IsLawful numbers-ReadsBack 1

run-AllVerified_example :
    (0 < length tx.tx.signatures)
    × (length tx.tx.signatures ≡ length (get_signers tx.tx))
    × (length tx.tx.signatures_data ≡ length (get_signers tx.tx))
    × ((paid : StoreContext MemDb) × (keyed : StoreContext MemDb) × (deduct_fee_ante_handler ctx
            tx.tx
          ≡ ok (done tt, paid))
        × (set_pub_key_ante_handler paid tx.tx ≡ ok (done tt, keyed))
        × AllVerified keyed tx tx.tx.signatures_data (get_signers tx.tx))
run-AllVerified_example = run-AllVerified ctx after tx after-run

run-sequences_example :
    Sound 1 after.stores.auth_store
    × HasSequence after zeros20 (if member zeros20 (get_signers tx.tx) then (5 + 1) % 2 ^ 64 else 5)
run-sequences_example =
    run-sequences (keepers-IsLawful message_crates-IsLawful numbers-ReadsBack 1) ctx after tx
      zeros20 5 ctx-Sound after-run alice-HasSequence

run-replay_example : run after tx ≢ ok (done tt, after)
run-replay_example =
    run-replay (keepers-IsLawful message_crates-IsLawful numbers-ReadsBack 1) ctx after after tx
      ctx-Sound after-run

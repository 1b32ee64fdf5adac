-- ===== src/Ante.antt =====
-- The ante handler of gears/src/baseapp/ante.rs over the keepers that it takes. A handler that
-- changes the context returns it, with its error too.
pub mod Keepers
pub mod Stores
pub mod Refinement
pub mod Sequences
pub mod Increment
pub mod Passed
pub mod Leaves
pub mod Pending
pub mod Replay
use doge_sdk.Base.{
  ℕ, ◌+◌, ◌^◌, ◌<◌, ◌≡◌, Bool, true, false, Option, none, some, List, [], ◌∷◌, length, ltb, ◌==◌,
  if◌then◌else◌,
}
use doge_sdk.Base.Bytes.{Bytes, eq_bytes}
use doge_sdk.Base.Tried.{Tried, done, failed}
use doge_sdk.Trees.Outcome.{Outcome, ok, panic, expect, ◌>>=◌}
use doge_sdk.Bank.Coin.{Coin}
use doge_sdk.Auth.Module.{Module, fee_collector}
use doge_sdk.Auth.Params.{Params}
use doge_sdk.Messages.Crates.{Crates}
use doge_sdk.Messages.Key.{PublicKey, secp256k1, get_address}
use doge_sdk.Messages.Account.{
  Account, get_public_key, set_public_key, increment_sequence, get_sequence, get_account_number,
}
use doge_sdk.Messages.Tx.{
  Message, Tx, TxWithRaw, SignatureData, get_signers, get_fee_payer, get_public_keys,
}

-- The errors of gears/src/error.rs that a transaction ends with, without their texts.
pub data AppError : Type 0 where
  send account_not_found tx_validation invalid_public_key invalid_request tx_parse : AppError
  timeout : ℕ → ℕ → AppError
  memo : ℕ → AppError

-- What the handler reads of `Context`.
pub record Context (C : Type 0) : Type 0 where
  pub get_height : C → ℕ
  pub get_chain_id : C → Bytes

-- `trait AuthKeeper` and `trait BankKeeper`.
pub record AuthKeeper (C : Type 0) : Type 0 where
  pub get_auth_params : C → Outcome Params
  pub has_account : C → Bytes → Outcome Bool
  pub get_account : C → Bytes → Outcome (Option Account)
  pub set_account : C → Account → Outcome C

pub record BankKeeper (C : Type 0) : Type 0 where
  pub send_coins_from_account_to_module :
      C → Bytes → Module → List Coin → Outcome (Tried AppError Unit × C)

pub record SignDoc : Type 0 where
  pub body_bytes : Bytes
  pub auth_info_bytes : Bytes
  pub chain_id : Bytes
  pub account_number : ℕ

-- The crates prost, secp256k1 and its hashes: the bytes of a `SignDoc`, the message of a hash, the
-- two readers and the check of a signature.
pub record Crypto : Type 0 where
  pub encode_sign_doc : SignDoc → Bytes
  pub from_hashed_data : Bytes → Bytes
  pub from_compact : Bytes → Option Bytes
  pub verify_ecdsa : Bytes → Bytes → Bytes → Bool

-- A result with the context.
abbrev pub Result : Type 0 → Type 0
Result C = Outcome (Tried AppError Unit × C)

-- `?` after a handler.
infixl 5 ◌then_run◌
abbrev pub ◌then_run◌ : {C : Type 0} → Result C → (C → Result C) → Result C
r then_run f = r >>= λ o. elim o.0 [ done _ ↦ f o.1 | failed e ↦ ok (failed e, o.1) ]

-- `?` after a check that does not change the context.
abbrev pub check : {C : Type 0} → C → Tried AppError Unit → Result C
check ctx t = ok (t, ctx)

module _ ⦃c : Crates⦄ {M : Type 0} ⦃m : Message M⦄ where
  unfoldable pub validate_basic_ante_handler : Tx M → Tried AppError Unit
  unfolding get_signers
  validate_basic_ante_handler tx =
      if length tx.signatures == 0
      then failed tx_validation
      else if length tx.signatures == length (get_signers tx)
      then done tt
      else failed tx_validation

module _ {M C : Type 0} ⦃k : Context C⦄ where
  unfoldable pub tx_timeout_height_ante_handler : C → Tx M → Tried AppError Unit
  tx_timeout_height_ante_handler ctx tx =
      if tx.body.timeout_height == 0
      then done tt
      else if ltb tx.body.timeout_height (k.get_height ctx)
      then failed (timeout tx.body.timeout_height (k.get_height ctx))
      else done tt

module _ {M C : Type 0} ⦃a : AuthKeeper C⦄ where
  -- The length in bytes; a length fits a `u64`.
  unfoldable pub validate_memo_ante_handler : C → Tx M → Outcome (Tried AppError Unit)
  validate_memo_ante_handler ctx tx = do
    params ← a.get_auth_params ctx
    ok (
        if ltb params.max_memo_characters (length tx.body.memo)
        then failed (memo params.max_memo_characters)
        else done tt)

module _ ⦃c : Crates⦄ {M C : Type 0} ⦃m : Message M⦄ ⦃a : AuthKeeper C⦄ ⦃b : BankKeeper C⦄ where
  unfoldable pub deduct_fee_ante_handler : C → Tx M → Result C
  unfolding get_fee_payer
  deduct_fee_ante_handler ctx tx = do
    fee_payer ← get_fee_payer tx
    exists ← a.has_account ctx fee_payer
    if exists
        then (elim tx.auth_info.fee.amount [
          | some fee ↦ b.send_coins_from_account_to_module ctx fee_payer fee_collector fee
          | none ↦ ok (done tt, ctx)
        ])
        else ok (failed account_not_found, ctx)

module _ {C : Type 0} ⦃a : AuthKeeper C⦄ where
  -- The key of an account that has none.
  unfoldable pub store_key : C → Bytes → PublicKey → Result C
  unfolding get_public_key set_public_key
  store_key ctx addr key = do
    found ← a.get_account ctx addr
    elim found [
      | none ↦ ok (failed account_not_found, ctx)
      | some acct ↦ elim (get_public_key acct) [
        | some old ↦ ok (done tt, ctx)
        | none ↦ (do ctx' ← a.set_account ctx (set_public_key acct key); ok (done tt, ctx'))
      ]
    ]

module _ ⦃c : Crates⦄ {C : Type 0} ⦃a : AuthKeeper C⦄ where
  -- One turn of the loop over the keys, with the signer of the same index.
  unfoldable pub set_pub_key : C → Option PublicKey → Bytes → Result C
  unfolding get_address store_key
  set_pub_key ctx none signer = ok (done tt, ctx)
  set_pub_key ctx (some key) signer = do
    addr ← get_address key
    if eq_bytes addr signer then store_key ctx addr key else ok (failed invalid_public_key, ctx)

  -- A missing signer is an index out of range.
  unfoldable pub set_pub_keys : C → List (Option PublicKey) → List Bytes → Result C
  unfolding set_pub_key
  set_pub_keys ctx [] signers = ok (done tt, ctx)
  set_pub_keys ctx (key ∷ keys) [] = panic
  set_pub_keys ctx (key ∷ keys) (signer ∷ signers) =
      set_pub_key ctx key signer then_run λ ctx'. set_pub_keys ctx' keys signers

module _ ⦃c : Crates⦄ {M C : Type 0} ⦃m : Message M⦄ ⦃a : AuthKeeper C⦄ where
  unfoldable pub set_pub_key_ante_handler : C → Tx M → Result C
  unfolding get_public_keys get_signers set_pub_keys
  set_pub_key_ante_handler ctx tx =
      if length (get_signers tx) == length (get_public_keys tx)
      then set_pub_keys ctx (get_public_keys tx) (get_signers tx)
      else ok (failed tx_validation, ctx)

module _ ⦃c : Crates⦄ {M C : Type 0} ⦃k : Context C⦄ ⦃a : AuthKeeper C⦄ ⦃y : Crypto⦄ where
  unfoldable pub sign_doc : C → TxWithRaw M → Account → SignDoc
  unfolding get_account_number
  sign_doc ctx tx acct = record {
    body_bytes = tx.raw.body_bytes;
    auth_info_bytes = tx.raw.auth_info_bytes;
    chain_id = k.get_chain_id ctx;
    account_number = get_account_number acct;
  }

  -- An account without a key, a key or a signature that cannot be read is a panic.
  unfoldable pub verify : C → TxWithRaw M → SignatureData → Account → Outcome (Tried AppError Unit)
  unfolding sign_doc get_public_key
  verify ctx tx datum acct = do
    public_key ← expect (get_public_key acct)
    elim public_key [
      | secp256k1 pub_key ↦ (do
        key ← expect (c.key_from_slice (c.key_serialize pub_key.key))
        signature ← expect (y.from_compact datum.signature)
        let message = y.from_hashed_data (y.encode_sign_doc (sign_doc ctx tx acct))
        ok (if y.verify_ecdsa message signature key then done tt else failed tx_validation))
    ]

  -- One turn of the loop.
  unfoldable pub check_signature :
      C → TxWithRaw M → SignatureData → Bytes → Outcome (Tried AppError Unit)
  unfolding verify get_sequence
  check_signature ctx tx datum signer = do
    found ← a.get_account ctx signer
    elim found [
      | none ↦ ok (failed account_not_found)
      | some acct ↦
          let verified = verify ctx tx datum acct in
          if get_sequence acct == datum.sequence then verified else ok (failed tx_validation)
    ]

  unfoldable pub check_signatures :
      C → TxWithRaw M → List SignatureData → List Bytes → Outcome (Tried AppError Unit)
  unfolding check_signature
  check_signatures ctx tx [] signers = ok (done tt)
  check_signatures ctx tx (datum ∷ rest) [] = panic
  check_signatures ctx tx (datum ∷ rest) (signer ∷ signers) = do
    result ← check_signature ctx tx datum signer
    elim result [ done _ ↦ check_signatures ctx tx rest signers | failed e ↦ ok (failed e) ]

module _ ⦃c : Crates⦄ {M C : Type 0} ⦃m : Message M⦄ ⦃k : Context C⦄ ⦃a : AuthKeeper C⦄
    ⦃y : Crypto⦄ where
  unfoldable pub sig_verification_handler : C → TxWithRaw M → Outcome (Tried AppError Unit)
  unfolding get_signers check_signatures
  sig_verification_handler ctx tx =
      if length tx.tx.signatures_data == length (get_signers tx.tx)
      then check_signatures ctx tx tx.tx.signatures_data (get_signers tx.tx)
      else ok (failed tx_validation)

module _ {C : Type 0} ⦃a : AuthKeeper C⦄ where
  unfoldable pub increment_sequences : C → List Bytes → Result C
  unfolding increment_sequence
  increment_sequences ctx [] = ok (done tt, ctx)
  increment_sequences ctx (signer ∷ signers) = do
    found ← a.get_account ctx signer
    elim found [
      | none ↦ ok (failed account_not_found, ctx)
      | some acct ↦ (do
        ctx' ← a.set_account ctx (increment_sequence acct)
        increment_sequences ctx' signers)
    ]

module _ ⦃c : Crates⦄ {M C : Type 0} ⦃m : Message M⦄ ⦃k : Context C⦄ ⦃a : AuthKeeper C⦄
    ⦃b : BankKeeper C⦄ ⦃y : Crypto⦄ where
  unfoldable pub increment_sequence_ante_handler : C → Tx M → Result C
  unfolding get_signers increment_sequences
  increment_sequence_ante_handler ctx tx = increment_sequences ctx (get_signers tx)

  unfoldable pub run : C → TxWithRaw M → Result C
  unfolding validate_basic_ante_handler tx_timeout_height_ante_handler validate_memo_ante_handler
      deduct_fee_ante_handler set_pub_key_ante_handler sig_verification_handler
      increment_sequence_ante_handler
  run ctx tx =
      check ctx (validate_basic_ante_handler tx.tx)
      then_run (λ ctx. check ctx (tx_timeout_height_ante_handler ctx tx.tx))
      then_run (λ ctx. validate_memo_ante_handler ctx tx.tx >>= check ctx)
      then_run (λ ctx. deduct_fee_ante_handler ctx tx.tx)
      then_run (λ ctx. set_pub_key_ante_handler ctx tx.tx)
      then_run (λ ctx. sig_verification_handler ctx tx >>= check ctx)
      then_run (λ ctx. increment_sequence_ante_handler ctx tx.tx)

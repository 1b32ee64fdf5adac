-- ===== src/Ante/Leaves.antt =====
-- What the ante handler leaves in a context, whether it passes or fails.
use doge_sdk.Base.{
  ◌≡◌, refl, true, false, Bool, Option, none, some, List, [], ◌∷◌, length, ◌==◌, if◌then◌else◌,
}
use std.Path.{subst}
use doge_sdk.Base.Bytes.{Bytes, eq_bytes}
use doge_sdk.Base.Tried.{Tried, done, failed}
use doge_sdk.Trees.Outcome.{Outcome, ok, err, panic, out_of_fuel, bind-eq-ok, ok-injective, ◌>>=◌}
use doge_sdk.Bank.Coin.{Coin}
use doge_sdk.Auth.Module.{Module, fee_collector}
use doge_sdk.Messages.Crates.{Crates}
use doge_sdk.Messages.Key.{PublicKey, get_address}
use doge_sdk.Messages.Account.{Account, get_public_key, set_public_key, increment_sequence}
use doge_sdk.Messages.Tx.{Message, Tx, TxWithRaw, get_signers, get_fee_payer, get_public_keys}
use doge_sdk.Ante.Stores.{store_context}
use doge_sdk.Ante.{
  AppError, account_not_found, tx_validation, invalid_public_key, Context, AuthKeeper, BankKeeper,
  Crypto, Result, check, ◌then_run◌, store_key, set_pub_key, set_pub_keys, set_pub_key_ante_handler,
  deduct_fee_ante_handler, validate_memo_ante_handler, validate_basic_ante_handler,
  tx_timeout_height_ante_handler, sig_verification_handler, increment_sequences,
  increment_sequence_ante_handler, run,
}

-- A relation of contexts that the writes of the keepers keep.
pub record IsKept {C : Type 0} (a : AuthKeeper C) (b : BankKeeper C) (R : C → C → Type 0)
    : Type 0 where
  pub same : (ctx : C) → R ctx ctx
  pub composed : (ctx ctx1 ctx2 : C) → R ctx ctx1 → R ctx1 ctx2 → R ctx ctx2
  pub set : (ctx ctx' : C) (acct : Account) → a.set_account ctx acct ≡ ok ctx' → R ctx ctx'
  pub send :
      (ctx ctx' : C) (from : Bytes) (to : Module) (amount : List Coin) (r : Tried AppError Unit)
      → b.send_coins_from_account_to_module ctx from to amount ≡ ok (r, ctx')
      → R ctx ctx'

-- A result stands in the relation to the context, if there is one.
abbrev pub Leaves : {C : Type 0} → (C → C → Type 0) → C → Result C → Type 0
Leaves {C} R ctx result = (r : Tried AppError Unit) (ctx' : C) → result ≡ ok (r, ctx') → R ctx ctx'

module _ {C : Type 0} ⦃a : AuthKeeper C⦄ ⦃b : BankKeeper C⦄ {R : C → C → Type 0}
    (law : IsKept a b R) where
  answer-Leaves : (ctx : C) (t : Tried AppError Unit) → Leaves R ctx (ok (t, ctx))
  answer-Leaves ctx t r ctx' h =
      subst (λ (q : Tried AppError Unit × C). R ctx q.1) (ok-injective h) (law.same ctx)

  checked-Leaves :
      (ctx : C) (t : Outcome (Tried AppError Unit)) → Leaves R ctx (t >>= λ r. check ctx r)
  checked-Leaves ctx t r ctx' h =
      let (u, e, h1) = bind-eq-ok t (λ r. check ctx r) h in answer-Leaves ctx u r ctx' h1

  then_run-Leaves :
      (ctx : C) (result : Result C) (f : C → Result C)
      → Leaves R ctx result
      → ((ctx1 : C) → Leaves R ctx1 (f ctx1))
      → Leaves R ctx (result then_run f)
  then_run-Leaves ctx (ok (done u, ctx1)) f l g r ctx' h =
      law.composed ctx ctx1 ctx' (l (done u) ctx1 refl) (g ctx1 r ctx' h)
  then_run-Leaves ctx (ok (failed e, ctx1)) f l g r ctx' h =
      subst (λ (q : Tried AppError Unit × C). R ctx q.1) (ok-injective h) (l (failed e) ctx1 refl)
  then_run-Leaves ctx (err e) f l g r ctx' h = cc h
  then_run-Leaves ctx panic f l g r ctx' h = cc h
  then_run-Leaves ctx out_of_fuel f l g r ctx' h = cc h

  if-Leaves :
      (ctx : C) (c : Bool) (x y : Result C)
      → Leaves R ctx x
      → Leaves R ctx y
      → Leaves R ctx (if c then x else y)
  if-Leaves ctx true x y l g = l
  if-Leaves ctx false x y l g = g

  bind-Leaves :
      {A : Type 0} (ctx : C) (o : Outcome A) (f : A → Result C)
      → ((v : A) → Leaves R ctx (f v))
      → Leaves R ctx (o >>= f)
  bind-Leaves ctx o f l r ctx' h = let (v, e, h1) = bind-eq-ok o f h in l v r ctx' h1

  set-Leaves :
      (ctx : C) (acct : Account) (f : C → Result C)
      → ((ctx1 : C) → Leaves R ctx1 (f ctx1))
      → Leaves R ctx (a.set_account ctx acct >>= f)
  set-Leaves ctx acct f l r ctx' h =
      let (ctx1, e, h1) = bind-eq-ok (a.set_account ctx acct) f h in
      law.composed ctx ctx1 ctx' (law.set ctx ctx1 acct e) (l ctx1 r ctx' h1)

  store_key-Leaves :
      (ctx : C) (addr : Bytes) (key : PublicKey) → Leaves R ctx (store_key ctx addr key)
  unfolding store_key
  store_key-Leaves ctx addr key = bind-Leaves ctx (a.get_account ctx addr) _ found
    where
      of_key :
          (acct : Account) (old : Option PublicKey)
          → Leaves R ctx (elim old as (λ o. Result C) [
            | some old ↦ ok (done tt, ctx)
            | none ↦ (do ctx' ← a.set_account ctx (set_public_key acct key); ok (done tt, ctx'))
          ])
      of_key acct (some old) = answer-Leaves ctx (done tt)
      of_key acct none =
          set-Leaves ctx (set_public_key acct key) (λ ctx'. ok (done tt, ctx'))
            (λ ctx1. answer-Leaves ctx1 (done tt))

      found :
          (acct : Option Account)
          → Leaves R ctx (elim acct as (λ o. Result C) [
            | none ↦ ok (failed account_not_found, ctx)
            | some acct ↦ elim (get_public_key acct) as (λ o. Result C) [
              | some old ↦ ok (done tt, ctx)
              | none ↦ (do ctx' ← a.set_account ctx (set_public_key acct key); ok (done tt, ctx'))
            ]
          ])
      found none = answer-Leaves ctx (failed account_not_found)
      found (some acct) = of_key acct (get_public_key acct)

  increment_sequences-Leaves :
      (ctx : C) (signers : List Bytes) → Leaves R ctx (increment_sequences ctx signers)
  unfolding increment_sequences
  increment_sequences-Leaves ctx [] = answer-Leaves ctx (done tt)
  increment_sequences-Leaves ctx (signer ∷ signers) =
      bind-Leaves ctx (a.get_account ctx signer) _
        (found ctx (λ ctx1. increment_sequences-Leaves ctx1 signers))
    where
      found :
          (ctx : C)
          → ((ctx1 : C) → Leaves R ctx1 (increment_sequences ctx1 signers))
          → (acct : Option Account)
          → Leaves R ctx (elim acct as (λ o. Result C) [
            | none ↦ ok (failed account_not_found, ctx)
            | some acct ↦ (do
              ctx' ← a.set_account ctx (increment_sequence acct)
              increment_sequences ctx' signers)
          ])
      found ctx ih none = answer-Leaves ctx (failed account_not_found)
      found ctx ih (some acct) = set-Leaves ctx (increment_sequence acct) _ ih

module _ ⦃c : Crates⦄ {C : Type 0} ⦃a : AuthKeeper C⦄ ⦃b : BankKeeper C⦄ {R : C → C → Type 0}
    (law : IsKept a b R) where
  set_pub_key-Leaves :
      (ctx : C) (key : Option PublicKey) (signer : Bytes)
      → Leaves R ctx (set_pub_key ctx key signer)
  unfolding set_pub_key
  set_pub_key-Leaves ctx none signer = answer-Leaves law ctx (done tt)
  set_pub_key-Leaves ctx (some key) signer = bind-Leaves law ctx (get_address key) _ (λ addr.
      if-Leaves law ctx (eq_bytes addr signer) (store_key ctx addr key)
        (ok (failed invalid_public_key, ctx)) (store_key-Leaves law ctx addr key)
        (answer-Leaves law ctx (failed invalid_public_key)))

  set_pub_keys-Leaves :
      (ctx : C) (keys : List (Option PublicKey)) (signers : List Bytes)
      → Leaves R ctx (set_pub_keys ctx keys signers)
  unfolding set_pub_keys
  set_pub_keys-Leaves ctx [] signers = answer-Leaves law ctx (done tt)
  set_pub_keys-Leaves ctx (key ∷ keys) [] = λ r ctx' h. cc h
  set_pub_keys-Leaves ctx (key ∷ keys) (signer ∷ signers) =
      then_run-Leaves law ctx (set_pub_key ctx key signer) (λ ctx'. set_pub_keys ctx' keys signers)
        (set_pub_key-Leaves ctx key signer) (λ ctx1. set_pub_keys-Leaves ctx1 keys signers)

module _ ⦃c : Crates⦄ {M C : Type 0} ⦃m : Message M⦄ ⦃k : Context C⦄ ⦃a : AuthKeeper C⦄
    ⦃b : BankKeeper C⦄ ⦃y : Crypto⦄ {R : C → C → Type 0} (law : IsKept a b R) where
  deduct_fee_ante_handler-Leaves :
      (ctx : C) (tx : Tx M) → Leaves R ctx (deduct_fee_ante_handler ctx tx)
  unfolding deduct_fee_ante_handler
  deduct_fee_ante_handler-Leaves ctx tx = bind-Leaves law ctx (get_fee_payer tx) _ (λ payer.
      bind-Leaves law ctx (a.has_account ctx payer) _ (λ exists.
        if-Leaves law ctx exists _ _ (paid payer tx.auth_info.fee.amount)
          (answer-Leaves law ctx (failed account_not_found))))
    where
      paid :
          (payer : Bytes) (amount : Option (List Coin))
          → Leaves R ctx (elim amount as (λ o. Result C) [
            | some fee ↦ b.send_coins_from_account_to_module ctx payer fee_collector fee
            | none ↦ ok (done tt, ctx)
          ])
      paid payer none = answer-Leaves law ctx (done tt)
      paid payer (some fee) = λ r ctx' h. law.send ctx ctx' payer fee_collector fee r h

  set_pub_key_ante_handler-Leaves :
      (ctx : C) (tx : Tx M) → Leaves R ctx (set_pub_key_ante_handler ctx tx)
  unfolding set_pub_key_ante_handler
  set_pub_key_ante_handler-Leaves ctx tx =
      if-Leaves law ctx (length (get_signers tx) == length (get_public_keys tx))
        (set_pub_keys ctx (get_public_keys tx) (get_signers tx)) (ok (failed tx_validation, ctx))
        (set_pub_keys-Leaves law ctx (get_public_keys tx) (get_signers tx))
        (answer-Leaves law ctx (failed tx_validation))

  -- Whatever relation of contexts the two writes of the keepers keep, that is reflexive and
  -- transitive, holds between a context and the one that the ante handler leaves, whether the
  -- transaction passes or is refused.
  pub run-Leaves : (ctx : C) (tx : TxWithRaw M) → Leaves R ctx (run ctx tx)
  unfolding run increment_sequence_ante_handler
  run-Leaves ctx tx =
      then_run-Leaves law ctx _ _
        (then_run-Leaves law ctx _ _
          (then_run-Leaves law ctx _ _
            (then_run-Leaves law ctx _ _
              (then_run-Leaves law ctx _ _
                (then_run-Leaves law ctx _ _
                  (answer-Leaves law ctx (validate_basic_ante_handler tx.tx))
                  (λ ctx. answer-Leaves law ctx (tx_timeout_height_ante_handler ctx tx.tx)))
                (λ ctx. checked-Leaves law ctx (validate_memo_ante_handler ctx tx.tx)))
              (λ ctx. deduct_fee_ante_handler-Leaves ctx tx.tx))
            (λ ctx. set_pub_key_ante_handler-Leaves ctx tx.tx))
          (λ ctx. checked-Leaves law ctx (sig_verification_handler ctx tx)))
        (λ ctx. increment_sequences-Leaves law ctx (get_signers tx.tx))

-- ===== src/Ante/Keepers.antt =====
-- What the ante handler relies on in the keepers, and what a handler that passed came through.
use doge_sdk.Base.{
  ℕ, ◌+◌, ◌%◌, ◌^◌, ◌<◌, ◌≡◌, refl, ◌∙◌, true, false, some, List, arith, if◌then◌else◌,
}
use doge_sdk.Base.Bytes.{Bytes, eq_bytes}
use doge_sdk.Base.Tried.{Tried, done, failed}
use doge_sdk.Trees.Outcome.{Outcome, ok, err, panic, out_of_fuel, ◌>>=◌}
use doge_sdk.Bank.Coin.{Coin}
use doge_sdk.Auth.Module.{Module}
use doge_sdk.Messages.Key.{PublicKey}
use doge_sdk.Messages.Account.{
  Account, base, module_account, get_address, get_sequence, set_public_key, increment_sequence,
  IsAccount,
}
use doge_sdk.Ante.{AppError, AuthKeeper, BankKeeper, Result, check, ◌then_run◌}

-- A context that is valid holds accounts under their own addresses. A write of an account is read
-- back, and a payment changes no account.
pub record IsLawful {C : Type 0} (a : AuthKeeper C) (b : BankKeeper C) (Valid : C → Type 0)
    : Type 0 where
  pub held :
      (ctx : C) (addr : Bytes) (acct : Account)
      → Valid ctx
      → a.get_account ctx addr ≡ ok (some acct)
      → IsAccount acct × (get_address acct ≡ addr)
  pub set-Valid :
      (ctx ctx' : C) (acct : Account)
      → Valid ctx
      → IsAccount acct
      → a.set_account ctx acct ≡ ok ctx'
      → Valid ctx'
  pub get-set :
      (ctx ctx' : C) (acct : Account) (addr : Bytes)
      → Valid ctx
      → IsAccount acct
      → a.set_account ctx acct ≡ ok ctx'
      → a.get_account ctx' addr
        ≡ (if eq_bytes addr (get_address acct) then ok (some acct) else a.get_account ctx addr)
  pub send-Valid :
      (ctx ctx' : C) (from : Bytes) (to : Module) (amount : List Coin) (r : Tried AppError Unit)
      → Valid ctx
      → b.send_coins_from_account_to_module ctx from to amount ≡ ok (r, ctx')
      → Valid ctx'
  pub get-send :
      (ctx ctx' : C) (from : Bytes) (to : Module) (amount : List Coin) (r : Tried AppError Unit)
      (addr : Bytes)
      → Valid ctx
      → b.send_coins_from_account_to_module ctx from to amount ≡ ok (r, ctx')
      → a.get_account ctx' addr ≡ a.get_account ctx addr

pub then_run-done :
    {C : Type 0} (r : Result C) (f : C → Result C) {ctx' : C}
    → (r then_run f) ≡ ok (done tt, ctx')
    → (ctx : C) × (r ≡ ok (done tt, ctx)) × (f ctx ≡ ok (done tt, ctx'))
then_run-done (ok (done u, ctx)) f h = (ctx, refl, h)
then_run-done (ok (failed e, ctx)) f h = cc
then_run-done (err e) f h = cc
then_run-done panic f h = cc
then_run-done out_of_fuel f h = cc

pub check-done :
    {C : Type 0} (ctx : C) (t : Tried AppError Unit) {ctx' : C}
    → check ctx t ≡ ok (done tt, ctx')
    → (t ≡ done tt) × (ctx ≡ ctx')
check-done ctx (done u) h = (refl, cc)
check-done ctx (failed e) h = cc

pub checked-done :
    {C : Type 0} (ctx : C) (t : Outcome (Tried AppError Unit)) {ctx' : C}
    → (t >>= λ r. check ctx r) ≡ ok (done tt, ctx')
    → (t ≡ ok (done tt)) × (ctx ≡ ctx')
checked-done ctx (ok (done u)) h = (refl, cc)
checked-done ctx (ok (failed e)) h = cc
checked-done ctx (err e) h = cc
checked-done ctx panic h = cc
checked-done ctx out_of_fuel h = cc

-- The changes of an account that the handlers make.
pub set_public_key-kept :
    (a : Account) (k : PublicKey)
    → IsAccount a
    → IsAccount (set_public_key a k)
      × (get_address (set_public_key a k) ≡ get_address a)
      × (get_sequence (set_public_key a k) ≡ get_sequence a)
unfolding set_public_key get_address get_sequence
set_public_key-kept (base a) k h = (h, refl, refl)
set_public_key-kept (module_account a) k h = (h, refl, refl)

pub increment_sequence-kept :
    (a : Account)
    → IsAccount a
    → IsAccount (increment_sequence a)
      × (get_address (increment_sequence a) ≡ get_address a)
      × (get_sequence (increment_sequence a) ≡ (get_sequence a + 1) % 2 ^ 64)
unfolding increment_sequence get_address get_sequence
increment_sequence-kept (base a) h = ((h.0, h.1, omega arith), refl, refl)
increment_sequence-kept (module_account a) h = ((h.0, h.1, omega arith), refl, refl)

pub get_sequence-lt : (a : Account) → IsAccount a → get_sequence a < 2 ^ 64
unfolding get_sequence
get_sequence-lt (base a) h = h.2
get_sequence-lt (module_account a) h = h.2

-- An account stands under the address, with the sequence.
abbrev pub HasSequence : {C : Type 0} ⦃a : AuthKeeper C⦄ → C → Bytes → ℕ → Type 0
HasSequence ⦃a⦄ ctx addr n =
    (acct : Account) × (a.get_account ctx addr ≡ ok (some acct)) × (get_sequence acct ≡ n)

module _ {C : Type 0} ⦃a : AuthKeeper C⦄ ⦃b : BankKeeper C⦄ {Valid : C → Type 0}
    (law : IsLawful a b Valid) where
  pub read_own :
      (ctx ctx' : C) (acct : Account) (addr : Bytes)
      → Valid ctx
      → IsAccount acct
      → a.set_account ctx acct ≡ ok ctx'
      → eq_bytes addr (get_address acct) ≡ true
      → a.get_account ctx' addr ≡ ok (some acct)
  read_own ctx ctx' acct addr v o e h = law.get-set ctx ctx' acct addr v o e ∙ rw h refl

  pub read_other :
      (ctx ctx' : C) (acct : Account) (addr : Bytes)
      → Valid ctx
      → IsAccount acct
      → a.set_account ctx acct ≡ ok ctx'
      → eq_bytes addr (get_address acct) ≡ false
      → a.get_account ctx' addr ≡ a.get_account ctx addr
  read_other ctx ctx' acct addr v o e h = law.get-set ctx ctx' acct addr v o e ∙ rw h refl

-- ===== src/Ante/Refinement.antt =====
-- The keepers of the modules as the keepers that the ante handler takes.
use std.Path.{subst}
use doge_sdk.Base.{
  ℕ, ◌≡◌, refl, sym, ap, ◌∙◌, Bool-cases, inl, inr, none, some, List, arith, if◌then◌else◌,
}
use doge_sdk.Base.Bytes.{Bytes, cmp_refl, eq_bytes, eq_of_cmp}
use doge_sdk.Base.Tried.{Tried}
use doge_sdk.Database.Record.{Database}
use doge_sdk.Trees.External.{External}
use doge_sdk.Trees.Outcome.{ok, bind-eq-ok, ok-injective}
use doge_sdk.Store.KvStore
use doge_sdk.Store.KvStore.{KvStore}
use doge_sdk.Messages.Crates.{Crates, Codec, IsLawful as AreLawful}
use doge_sdk.Messages.Account.{Account, get_address, IsAccount, encode_vec}
use doge_sdk.Auth.Module.{Module, fee_collector, get_module_address}
use doge_sdk.Auth.Keeper.{
  create_auth_store_key, get_account, set_account, check_create_new_module_account,
}
use doge_sdk.Auth.Keeper.Accounts.{
  ReadsBack, with_account, get-with_account, get_account-with_account,
}
use doge_sdk.Auth.Keeper.Numbers.{check_create-old}
use doge_sdk.Bank.Coin.{Coin}
use doge_sdk.Bank.Keeper.{CoinCodec, Sent, send_coins}
use doge_sdk.Bank.Accounts.{Stores, send_coins_from_account_to_module}
use doge_sdk.Ante.{AppError}
use doge_sdk.Ante.Stores.{StoreContext, with_auth, auth_keeper, bank_keeper}
use doge_sdk.Ante.Keepers.{IsLawful}

module _ ⦃x : External⦄ {S : Type 0} ⦃d : Database S⦄ ⦃r : Crates⦄ (fuel : ℕ) where
  -- The accounts stand under their own addresses, and the fee collector has one.
  pub record Sound (s : KvStore S) : Type 0 where
    pub own :
        (addr : Bytes) (acct : Account)
        → get_account fuel s addr ≡ ok (some acct)
        → IsAccount acct × (get_address acct ≡ addr)
    pub collector : Bytes
    pub address : get_module_address fee_collector ≡ ok collector
    pub bytes : Bytes
    pub exists : KvStore.get fuel s (create_auth_store_key collector) ≡ ok (some bytes)

  module _ (law : AreLawful r) where
    collector_kept :
        (s : KvStore S) (a : Account) (addr b : Bytes)
        → KvStore.get fuel s (create_auth_store_key addr) ≡ ok (some b)
        → (b' : Bytes) × (KvStore.get fuel (with_account s a) (create_auth_store_key addr)
            ≡ ok (some b'))
    collector_kept s a addr b e = elim (Bool-cases (eq_bytes addr (get_address a))) [
      | inl p ↦ (encode_vec a, get-with_account fuel s a addr ∙ rw p refl)
      | inr p ↦ (b, get-with_account fuel s a addr ∙ rw p e)
    ]

    -- Each account stands under its own address.
    abbrev Own : KvStore S → Type 0
    Own s =
        (addr : Bytes) (acct : Account)
        → get_account fuel s addr ≡ ok (some acct)
        → IsAccount acct × (get_address acct ≡ addr)

    Own-kept : (s : KvStore S) (a : Account) → Own s → IsAccount a → Own (with_account s a)
    Own-kept s a own o addr acct e = elim (Bool-cases (eq_bytes addr (get_address a))) [
      | inl p ↦
          let same : a ≡ acct = ground (arith, get_account-with_account fuel law s a addr o) in
          let at_own = eq_of_cmp addr (get_address a) (ground arith) in rw (← same) (o, sym at_own)
      | inr p ↦ own addr acct (sym (get_account-with_account fuel law s a addr o ∙ rw p refl) ∙ e)
    ]

    pub Sound-with_account :
        (s : KvStore S) (a : Account) → Sound s → IsAccount a → Sound (with_account s a)
    Sound-with_account s a v o =
        let (b, e) = collector_kept s a v.collector v.bytes v.exists in
        record {
          own = Own-kept s a v.own o;
          collector = v.collector;
          address = v.address;
          bytes = b;
          exists = e;
        }

    none_held :
        (s : KvStore S) (addr : Bytes)
        → KvStore.get fuel s (create_auth_store_key addr) ≡ ok none
        → get_account fuel s addr ≡ ok none
    unfolding get_account
    none_held s addr h = rw h refl

    -- The fee collector's account in a store that has no other.
    pub Sound-first :
        (s : KvStore S) (a : Account)
        → ((key : Bytes) → KvStore.get fuel s key ≡ ok none)
        → IsAccount a
        → get_module_address fee_collector ≡ ok (get_address a)
        → Sound (with_account s a)
    Sound-first s a h o e = record {
      own =
          Own-kept s a
            (λ addr acct g. absurd (cc (none_held s addr (h (create_auth_store_key addr))))) o;
      collector = get_address a;
      address = e;
      bytes = encode_vec a;
      exists = get-with_account fuel s a (get_address a) ∙ ground (arith, cmp_refl (get_address a));
    }

    written :
        (ctx ctx' : StoreContext S) (a : Account)
        → (auth_keeper fuel).set_account ctx a ≡ ok ctx'
        → with_auth ctx (with_account ctx.stores.auth_store a) ≡ ctx'
    unfolding auth_keeper set_account with_account KvStore.set create_auth_store_key
    written ctx ctx' a e = ok-injective e

module _ ⦃x : External⦄ {S : Type 0} ⦃d : Database S⦄ ⦃r : Crates⦄ ⦃n : Codec ℕ⦄ ⦃c : CoinCodec⦄
    (law : AreLawful r) (back : ReadsBack n) (fuel : ℕ) where
  paid_accounts :
      (s s' : Stores S) (from : Bytes) (m : Module) (amount : List Coin) (result : Sent)
      → Sound fuel s.auth_store
      → send_coins_from_account_to_module fuel s from m amount ≡ ok (result, s')
      → s'.auth_store ≡ s.auth_store
  unfolding send_coins_from_account_to_module
  paid_accounts s s' from fee_collector amount result v e =
      let (accounts, p, q) =
        bind-eq-ok (check_create_new_module_account fuel s.auth_store fee_collector) _ e in
      let (to, p1, q1) = bind-eq-ok (get_module_address fee_collector) _ q in
      let ((res, balances), p2, q2) =
        bind-eq-ok (send_coins fuel s.bank_store from to amount) _ q1 in
      let none_made =
        check_create-old fuel law back s.auth_store fee_collector v.collector v.bytes v.address
          v.exists in
      ap (λ o. o.1.auth_store) (ok-injective (sym q2)) ∙ ok-injective (sym p ∙ none_made)

  sent_from :
      (ctx ctx' : StoreContext S) (from : Bytes) (m : Module) (amount : List Coin)
      (t : Tried AppError Unit)
      → Sound fuel ctx.stores.auth_store
      → (bank_keeper fuel).send_coins_from_account_to_module ctx from m amount ≡ ok (t, ctx')
      → ctx'.stores.auth_store ≡ ctx.stores.auth_store
  unfolding bank_keeper
  sent_from ctx ctx' from m amount t v e =
      let ((res, st), f, g) =
        bind-eq-ok (send_coins_from_account_to_module fuel ctx.stores from m amount) _ e in
      ap (λ o. o.1.stores.auth_store) (ok-injective (sym g))
      ∙ paid_accounts ctx.stores st from m amount res v f

  -- The keepers of the modules are lawful: the accounts of a valid context stand under their own
  -- addresses and the fee collector has one, a write of an account is read back, and a payment to a
  -- module changes no account; over crates that decode what they encode.
  pub keepers-IsLawful :
      IsLawful
        (auth_keeper {S = S} fuel)
        (bank_keeper fuel)
        (λ ctx. Sound fuel ctx.stores.auth_store)
  unfolding auth_keeper
  keepers-IsLawful = record {
    held = λ ctx addr acct v e. v.own addr acct e;
    set-Valid = λ ctx ctx' acct v o e.
        subst (λ c. Sound fuel c.stores.auth_store) (written fuel law ctx ctx' acct e)
          (Sound-with_account fuel law ctx.stores.auth_store acct v o);
    get-set = λ ctx ctx' acct addr v o e.
        subst
          (λ c. get_account fuel c.stores.auth_store addr ≡ (
            if eq_bytes addr (get_address acct)
            then ok (some acct)
            else get_account fuel ctx.stores.auth_store addr))
          (written fuel law ctx ctx' acct e)
          (get_account-with_account fuel law ctx.stores.auth_store acct addr o);
    send-Valid = λ ctx ctx' from m amount t v e.
        subst (λ s. Sound fuel s) (sym (sent_from ctx ctx' from m amount t v e)) v;
    get-send = λ ctx ctx' from m amount t addr v e.
        ap (λ s. get_account fuel s addr) (sent_from ctx ctx' from m amount t v e);
  }

-- ===== src/Ante/Sequences.antt =====
-- What each handler does to the sequences of the accounts.
use std.Path.{subst}
use doge_sdk.Base.{
  ℕ, ◌≡◌, refl, sym, ap, ◌∙◌, Bool-cases, Option-cases, inl, inr, Option, none, some, List, [], ◌∷◌,
  arith, length, if◌then◌else◌, ◌==◌,
}
use doge_sdk.Base.Bytes.{Bytes, eq_bytes, eq_of_cmp}
use doge_sdk.Base.Tried.{Tried, done, failed}
use doge_sdk.Trees.Outcome.{ok, ◌>>=◌, bind-eq-ok, ok-injective}
use doge_sdk.Bank.Coin.{Coin}
use doge_sdk.Auth.Module.{fee_collector}
use doge_sdk.Messages.Crates.{Crates}
use doge_sdk.Messages.Key.{PublicKey, get_address as key_address}
use doge_sdk.Messages.Account.{Account, get_public_key, set_public_key, get_address, get_sequence}
use doge_sdk.Messages.Tx.{Message, Tx, get_signers, get_fee_payer, get_public_keys}
use doge_sdk.Ante.{
  AppError, account_not_found, invalid_public_key, AuthKeeper, BankKeeper, Result, store_key,
  set_pub_key, set_pub_keys, set_pub_key_ante_handler, deduct_fee_ante_handler,
}
use doge_sdk.Ante.Keepers.{
  IsLawful, HasSequence, then_run-done, set_public_key-kept, read_own, read_other,
}

module _ {C : Type 0} ⦃a : AuthKeeper C⦄ ⦃b : BankKeeper C⦄ {Valid : C → Type 0}
    (law : IsLawful a b Valid) where
  -- The context stays valid, and no sequence changes.
  abbrev pub Keeps : C → C → Type 0
  Keeps ctx ctx' =
      Valid ctx' × ((addr : Bytes) (n : ℕ) → HasSequence ctx addr n → HasSequence ctx' addr n)

  pub Keeps-same :
      (ctx ctx' : C) (r r' : Tried AppError Unit)
      → Valid ctx
      → ◌≡◌ {A = Result C} (ok (r, ctx)) (ok (r', ctx'))
      → Keeps ctx ctx'
  Keeps-same ctx ctx' r r' v h =
      subst (λ c. Keeps ctx c) (ap (λ o. o.1) (ok-injective h)) (v, λ addr n s. s)

  pub Keeps-trans : (c1 c2 c3 : C) → Keeps c1 c2 → Keeps c2 c3 → Keeps c1 c3
  Keeps-trans c1 c2 c3 p q = (q.0, λ addr n s. q.1 addr n (p.1 addr n s))

  pub same_account :
      (ctx : C) (addr : Bytes) (x y : Account)
      → a.get_account ctx addr ≡ ok (some x)
      → a.get_account ctx addr ≡ ok (some y)
      → x ≡ y
  same_account ctx addr x y h k = cc

  Keeps-set_public_key :
      (ctx ctx' : C) (addr : Bytes) (acct : Account) (key : PublicKey)
      → Valid ctx
      → a.get_account ctx addr ≡ ok (some acct)
      → a.set_account ctx (set_public_key acct key) ≡ ok ctx'
      → Keeps ctx ctx'
  Keeps-set_public_key ctx ctx' addr acct key v g e =
      let (o, own) = law.held ctx addr acct v g in
      let (o', addr', seq') = set_public_key-kept acct key o in
      (
        law.set-Valid ctx ctx' (set_public_key acct key) v o' e,
        λ j n (x, gx, sx). elim (Bool-cases (eq_bytes j (get_address (set_public_key acct key)))) [
          | inl p ↦
              let at_own : j ≡ addr =
                eq_of_cmp j (get_address (set_public_key acct key)) (ground arith) ∙ addr' ∙ own in
              (
                set_public_key acct key,
                read_own law ctx ctx' (set_public_key acct key) j v o' e p,
                seq' ∙ ap get_sequence (same_account ctx addr acct x g (rw at_own at gx)) ∙ sx,
              )
          | inr p ↦ (x, read_other law ctx ctx' (set_public_key acct key) j v o' e p ∙ gx, sx)
        ],
      )

  store_key-some :
      (ctx : C) (addr : Bytes) (key : PublicKey) (acct : Account)
      → a.get_account ctx addr ≡ ok (some acct)
      → get_public_key acct ≡ none
      → store_key ctx addr key
        ≡ (a.set_account ctx (set_public_key acct key) >>= λ c. ok (done tt, c))
  unfolding store_key
  store_key-some ctx addr key acct e f = ground (arith, e, f)

  store_key-none :
      (ctx : C) (addr : Bytes) (key : PublicKey)
      → a.get_account ctx addr ≡ ok none
      → store_key ctx addr key ≡ ok (failed account_not_found, ctx)
  unfolding store_key
  store_key-none ctx addr key e = rw e refl

  store_key-old :
      (ctx : C) (addr : Bytes) (key old : PublicKey) (acct : Account)
      → a.get_account ctx addr ≡ ok (some acct)
      → get_public_key acct ≡ some old
      → store_key ctx addr key ≡ ok (done tt, ctx)
  unfolding store_key
  store_key-old ctx addr key old acct e f = ground (arith, e, f)

  store_key-found :
      (ctx : C) (addr : Bytes) (key : PublicKey) (ctx' : C) (r : Tried AppError Unit)
      → store_key ctx addr key ≡ ok (r, ctx')
      → (found : Option Account) × (a.get_account ctx addr ≡ ok found)
  unfolding store_key
  store_key-found ctx addr key ctx' r h =
      let (found, e, _) = bind-eq-ok (a.get_account ctx addr) _ h in (found, e)

  Keeps-store_key :
      (ctx ctx' : C) (addr : Bytes) (key : PublicKey) (r : Tried AppError Unit)
      → Valid ctx
      → store_key ctx addr key ≡ ok (r, ctx')
      → Keeps ctx ctx'
  Keeps-store_key ctx ctx' addr key r v h =
      let (found, e) = store_key-found ctx addr key ctx' r h in
      elim (Option-cases found) [
        | inl p ↦
            Keeps-same ctx ctx' (failed account_not_found) r v
              (sym (store_key-none ctx addr key (e ∙ ap ok p)) ∙ h)
        | inr (acct, p) ↦ elim (Option-cases (get_public_key acct)) [
          | inl q ↦
              let (c, f, g) =
                bind-eq-ok (a.set_account ctx (set_public_key acct key)) (λ c. ok (done tt, c))
                  (sym (store_key-some ctx addr key acct (e ∙ ap ok p) q) ∙ h) in
              Keeps-set_public_key ctx ctx' addr acct key v (e ∙ ap ok p)
                (f ∙ ap ok (ap (λ o. o.1) (ok-injective g)))
          | inr (old, q) ↦
              Keeps-same ctx ctx' (done tt) r v
                (sym (store_key-old ctx addr key old acct (e ∙ ap ok p) q) ∙ h)
        ]
      ]

  Keeps-set_pub_key :
      ⦃c : Crates⦄ (ctx ctx' : C) (key : Option PublicKey) (signer : Bytes)
      → Valid ctx
      → set_pub_key ctx key signer ≡ ok (done tt, ctx')
      → Keeps ctx ctx'
  unfolding set_pub_key
  Keeps-set_pub_key ctx ctx' none signer v h = Keeps-same ctx ctx' (done tt) (done tt) v h
  Keeps-set_pub_key ctx ctx' (some key) signer v h =
      let (addr, e, g) =
        bind-eq-ok (key_address key)
          (λ addr.
            if eq_bytes addr signer
            then store_key ctx addr key
            else ok (failed invalid_public_key, ctx))
          h in
      elim (Bool-cases (eq_bytes addr signer)) [
        | inl p ↦ Keeps-store_key ctx ctx' addr key (done tt) v (rw p at g)
        | inr p ↦ absurd (cc (rw p at g))
      ]

  Keeps-set_pub_keys :
      ⦃c : Crates⦄ (ctx ctx' : C) (keys : List (Option PublicKey)) (signers : List Bytes)
      → Valid ctx
      → set_pub_keys ctx keys signers ≡ ok (done tt, ctx')
      → Keeps ctx ctx'
  unfolding set_pub_keys
  Keeps-set_pub_keys ctx ctx' [] signers v h = Keeps-same ctx ctx' (done tt) (done tt) v h
  Keeps-set_pub_keys ctx ctx' (key ∷ keys) [] v h = cc
  Keeps-set_pub_keys ctx ctx' (key ∷ keys) (signer ∷ signers) v h =
      let (c1, e, g) =
        then_run-done (set_pub_key ctx key signer) (λ c. set_pub_keys c keys signers) h in
      let first = Keeps-set_pub_key ctx c1 key signer v e in
      Keeps-trans ctx c1 ctx' first (Keeps-set_pub_keys c1 ctx' keys signers first.0 g)

  Keeps-send :
      (ctx ctx' : C) (from : Bytes) (amount : List Coin)
      → Valid ctx
      → b.send_coins_from_account_to_module ctx from fee_collector amount ≡ ok (done tt, ctx')
      → Keeps ctx ctx'
  Keeps-send ctx ctx' from amount v h = (
    law.send-Valid ctx ctx' from fee_collector amount (done tt) v h,
    λ j n (x, g, q). (x, law.get-send ctx ctx' from fee_collector amount (done tt) j v h ∙ g, q),
  )

  Keeps-fee :
      (ctx ctx' : C) (from : Bytes) (amount : Option (List Coin))
      → Valid ctx
      → ◌≡◌ {A = Result C}
          (elim amount [
            | some fee ↦ b.send_coins_from_account_to_module ctx from fee_collector fee
            | none ↦ ok (done tt, ctx)
          ])
          (ok (done tt, ctx'))
      → Keeps ctx ctx'
  Keeps-fee ctx ctx' from none v h = Keeps-same ctx ctx' (done tt) (done tt) v h
  Keeps-fee ctx ctx' from (some fee) v h = Keeps-send ctx ctx' from fee v h

  module _ ⦃c : Crates⦄ {M : Type 0} ⦃m : Message M⦄ where
    pub Keeps-set_pub_key_ante_handler :
        (ctx ctx' : C) (tx : Tx M)
        → Valid ctx
        → set_pub_key_ante_handler ctx tx ≡ ok (done tt, ctx')
        → Keeps ctx ctx'
    unfolding set_pub_key_ante_handler
    Keeps-set_pub_key_ante_handler ctx ctx' tx v h =
        elim (Bool-cases (length (get_signers tx) == length (get_public_keys tx))) [
          | inl p ↦ Keeps-set_pub_keys ctx ctx' (get_public_keys tx) (get_signers tx) v (rw p at h)
          | inr p ↦ absurd (cc (rw p at h))
        ]

    pub Keeps-deduct_fee_ante_handler :
        (ctx ctx' : C) (tx : Tx M)
        → Valid ctx
        → deduct_fee_ante_handler ctx tx ≡ ok (done tt, ctx')
        → Keeps ctx ctx'
    unfolding deduct_fee_ante_handler
    Keeps-deduct_fee_ante_handler ctx ctx' tx v h =
        let (payer, e, g) = bind-eq-ok (get_fee_payer tx) _ h in
        let (exists, f, k) = bind-eq-ok (a.has_account ctx payer) _ g in
        elim (Bool-cases exists) [
          | inl p ↦ Keeps-fee ctx ctx' payer tx.auth_info.fee.amount v (rw p at k)
          | inr p ↦ absurd (cc (rw p at k))
        ]

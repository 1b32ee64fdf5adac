-- ===== src/Bank/Keeper/Pending.antt =====
-- What a transfer leaves in the store of the balances, whether it succeeds or fails.
use doge_sdk.Base.{
  ℕ, ◌+◌, ◌-◌, ◌^◌, ◌≡◌, refl, ◌∙◌, inl, inr, Bool-cases, Option, none, some, List, [], ◌∷◌, ltb,
  arith, if◌then◌else◌,
}
use std.Path.{subst}
use doge_sdk.Base.Bytes.{Bytes}
use doge_sdk.Database.Record.{Database}
use doge_sdk.Trees.External.{External}
use doge_sdk.Trees.Outcome.{Outcome, ok, bind-eq-ok, ok-injective, ◌>>=◌}
use doge_sdk.Store.KvStore.{KvStore}
use doge_sdk.Store.KvStore.Pending.{IsPending, prefix_set-IsPending}
use doge_sdk.Bank.Coin.{Coin}
use doge_sdk.Bank.Keeper.{
  CoinCodec, Sent, sent, insufficient_funds, balance_or_zero, create_denom_balance_prefix,
  read_balance, write_balance, add_coin, send_coin, send_coins,
}

module _ {S : Type 0} ⦃c : CoinCodec⦄ where
  pub write_balance-IsPending :
      (s s' : KvStore S) (addr denom : Bytes) (coin : Coin)
      → write_balance s addr denom coin ≡ ok s'
      → IsPending s s'
  unfolding write_balance
  write_balance-IsPending s s' addr denom coin h =
      prefix_set-IsPending s s' (create_denom_balance_prefix addr) denom (c.encode coin) h

module _ ⦃x : External⦄ {S : Type 0} ⦃d : Database S⦄ ⦃c : CoinCodec⦄ (fuel : ℕ) where
  add_coin-IsPending :
      (s s' : KvStore S) (to : Bytes) (coin : Coin)
      → add_coin fuel s to coin ≡ ok s'
      → IsPending s s'
  unfolding add_coin
  add_coin-IsPending s s' to coin h =
      let (found, e, h1) = bind-eq-ok (read_balance fuel s to coin.denom) _ h in
      let balance = balance_or_zero coin.denom found in
      let total = record balance { amount = balance.amount + coin.amount } in
      elim (Bool-cases (ltb (balance.amount + coin.amount) (2 ^ 256))) [
        | inl k ↦ write_balance-IsPending s s' to coin.denom total (ground (arith, h1, k))
        | inr k ↦ absurd (ground (arith, h1, k))
      ]

  send_coin-IsPending :
      (s s' : KvStore S) (from to : Bytes) (coin : Coin) (r : Sent)
      → send_coin fuel s from to coin ≡ ok (r, s')
      → IsPending s s'
  unfolding send_coin
  send_coin-IsPending s s' from to coin r h =
      let (found, e, h1) = bind-eq-ok (read_balance fuel s from coin.denom) _ h in go found h1
    where
      go :
          (found : Option Coin)
          → elim found as (λ f. Outcome (Sent × KvStore S)) [
            | none ↦ ok (insufficient_funds, s)
            | some from_balance ↦
                if ltb from_balance.amount coin.amount then ok (insufficient_funds, s) else do
                  s1 ←
                      write_balance s from coin.denom
                        (record from_balance { amount = from_balance.amount - coin.amount })
                  s2 ← add_coin fuel s1 to coin
                  ok (sent, s2)
          ]
            ≡ ok (r, s')
          → IsPending s s'
      go none h1 = subst (λ (q : Sent × KvStore S). IsPending s q.1) (ok-injective h1) refl
      go (some b) h1 =
          let left = record b { amount = b.amount - coin.amount } in
          elim (Bool-cases (ltb b.amount coin.amount)) [
            | inl k ↦
                let same : (insufficient_funds, s) ≡ (r, s') = ground (arith, h1, k) in
                subst (λ (q : Sent × KvStore S). IsPending s q.1) same refl
            | inr k ↦
                let paid : (do
                  s1 ← write_balance s from coin.denom left
                  s2 ← add_coin fuel s1 to coin
                  ok (sent, s2))
                    ≡ ok (r, s') =
                  ground (arith, h1, k) in
                let (s1, e1, h2) =
                  bind-eq-ok (write_balance s from coin.denom left)
                    (λ s1. add_coin fuel s1 to coin >>= λ s2. ok (sent, s2)) paid in
                let (s2, e2, h3) = bind-eq-ok (add_coin fuel s1 to coin) (λ s2. ok (sent, s2)) h2 in
                subst (λ (q : Sent × KvStore S). IsPending s q.1) (ok-injective h3)
                  (add_coin-IsPending s1 s2 to coin e2
                    ∙ write_balance-IsPending s s1 from coin.denom left e1)
          ]

  pub send_coins-IsPending :
      (s s' : KvStore S) (from to : Bytes) (coins : List Coin) (r : Sent)
      → send_coins fuel s from to coins ≡ ok (r, s')
      → IsPending s s'
  unfolding send_coins
  send_coins-IsPending s s' from to [] r h =
      subst (λ (q : Sent × KvStore S). IsPending s q.1) (ok-injective h) refl
  send_coins-IsPending s s' from to (coin ∷ coins) r h =
      let ((result, s1), e, h1) = bind-eq-ok (send_coin fuel s from to coin) _ h in
      go result s1 h1 (λ k. send_coins-IsPending s1 s' from to coins r k)
      ∙ send_coin-IsPending s s1 from to coin result e
    where
      go :
          (result : Sent) (s1 : KvStore S)
          → elim result as (λ x. Outcome (Sent × KvStore S)) [
            | sent ↦ send_coins fuel s1 from to coins
            | insufficient_funds ↦ ok (insufficient_funds, s1)
          ]
            ≡ ok (r, s')
          → (send_coins fuel s1 from to coins ≡ ok (r, s') → IsPending s1 s')
          → IsPending s1 s'
      go sent s1 h1 ih = ih h1
      go insufficient_funds s1 h1 ih =
          subst (λ (q : Sent × KvStore S). IsPending s1 q.1) (ok-injective h1) refl

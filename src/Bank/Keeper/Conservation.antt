-- ===== src/Bank/Keeper/Conservation.antt =====
-- `send_coins` and the balances of the two addresses and of a third.
use doge_sdk.Base.{ℕ, ◌+◌, ◌-◌, ◌≤◌, ◌≡◌, refl, ◌∙◌, false, List, [], ◌∷◌, arith, inl, inr, ◌⊎◌}
use doge_sdk.Base.Bytes.{Bytes, eq_bytes}
use doge_sdk.Database.Record.{Database}
use doge_sdk.Trees.External.{External}
use doge_sdk.Trees.Outcome.{ok, bind-eq-ok}
use doge_sdk.Store.KvStore.{KvStore}
use doge_sdk.Bank.Coin.{Coin}
use doge_sdk.Bank.Keeper.{
  CoinCodec, IsLawful, Sent, sent, insufficient_funds, read_balance, send_coin, send_coins,
}
use doge_sdk.Bank.Keeper.Transfer.{HasBalance, Paid, send_coin-cases}
use doge_sdk.Bank.Keeper.Payment.{worth, Paid-HasBalance, Paid-frame}

-- How much of a denomination a list of coins is.
abbrev pub total : Bytes → List Coin → ℕ
total e [] = 0
total e (coin ∷ coins) = worth e coin + total e coins

module _ ⦃x : External⦄ {S : Type 0} ⦃d : Database S⦄ ⦃c : CoinCodec⦄ (law : IsLawful c)
    (fuel : ℕ) where
  send_coins_nil :
      (s s' : KvStore S) (from to : Bytes) (result : Sent)
      → send_coins fuel s from to [] ≡ ok (result, s')
      → s' ≡ s
  unfolding send_coins
  send_coins_nil s s' from to result h = ground (arith, h)

  -- The first coin and the others.
  send_coins_step :
      (s s' : KvStore S) (from to : Bytes) (coin : Coin) (coins : List Coin) (result : Sent)
      → send_coins fuel s from to (coin ∷ coins) ≡ ok (result, s')
      → ((result ≡ insufficient_funds) × (s' ≡ s))
        ⊎ ((s1 : KvStore S) × Paid fuel s s1 from to coin
            × (send_coins fuel s1 from to coins ≡ ok (result, s')))
  unfolding send_coins
  send_coins_step s s' from to coin coins result h =
      let ((r, s1), e, k) = bind-eq-ok (send_coin fuel s from to coin) _ h in
      elim (send_coin-cases fuel s s1 from to coin r e) [
        | inl (stop, same) ↦ inl (ground (arith, k, stop, same))
        | inr (go, paid) ↦ inr (s1, paid, ground (arith, k, go))
      ]

  -- If encoded coins are read back: sending coins between two different addresses whose balances
  -- can be read, if it returns, leaves the sum of the two balances of every denomination as it was, whether it ends with success or
  -- with an error.
  pub send_coins-conserves :
      (s s' : KvStore S) (from to : Bytes) (coins : List Coin) (result : Sent) (e : Bytes) (a b : ℕ)
      → eq_bytes from to ≡ false
      → HasBalance fuel s from e a
      → HasBalance fuel s to e b
      → send_coins fuel s from to coins ≡ ok (result, s')
      → (a' : ℕ) × (b' : ℕ) × HasBalance fuel s' from e a'
        × HasBalance fuel s' to e b'
        × (a' + b' ≡ a + b)
  send_coins-conserves s s' from to [] result e a b apart ha hb h =
      rw (send_coins_nil s s' from to result h) (a, b, ha, hb, refl)
  send_coins-conserves s s' from to (coin ∷ coins) result e a b apart ha hb h =
      elim (send_coins_step s s' from to coin coins result h) [
        | inl (stop, same) ↦ rw same (a, b, ha, hb, refl)
        | inr (s1, paid, k) ↦
            let (ha1, hb1, le) =
              Paid-HasBalance law fuel s s1 from to coin e a b apart paid ha hb in
            let (a', b', ha', hb', sum) =
              send_coins-conserves s1 s' from to coins result e (a - worth e coin)
                (b + worth e coin) apart ha1 hb1 k in
            (a', b', ha', hb', omega (arith, sum, le))
      ]

  -- If encoded coins are read back, and sending coins between two different addresses whose
  -- balances can be read succeeds, then of every denomination the
  -- coins' total has been taken from the one balance, which held as much, and added to the other.
  pub send_coins-HasBalance :
      (s s' : KvStore S) (from to : Bytes) (coins : List Coin) (e : Bytes) (a b : ℕ)
      → eq_bytes from to ≡ false
      → HasBalance fuel s from e a
      → HasBalance fuel s to e b
      → send_coins fuel s from to coins ≡ ok (sent, s')
      → HasBalance fuel s' from e (a - total e coins)
        × HasBalance fuel s' to e (b + total e coins)
        × (total e coins ≤ a)
  send_coins-HasBalance s s' from to [] e a b apart ha hb h =
      let na : a - 0 ≡ a = omega arith in
      let nb : b + 0 ≡ b = omega arith in
      rw (send_coins_nil s s' from to sent h) (rw (na, nb) (ha, hb, omega arith))
  send_coins-HasBalance s s' from to (coin ∷ coins) e a b apart ha hb h =
      elim (send_coins_step s s' from to coin coins sent h) [
        | inl (stop, same) ↦ cc
        | inr (s1, paid, k) ↦
            let w = worth e coin in
            let (ha1, hb1, le) =
              Paid-HasBalance law fuel s s1 from to coin e a b apart paid ha hb in
            let (ha', hb', le') =
              send_coins-HasBalance s1 s' from to coins e (a - w) (b + w) apart ha1 hb1 k in
            let less : a - (w + total e coins) ≡ a - w - total e coins = omega arith in
            let more : b + (w + total e coins) ≡ b + w + total e coins = omega arith in
            rw (less, more) (ha', hb', omega arith)
      ]

  -- If encoded coins are read back: sending coins, if it returns, with success or with an error, changes no balance of a third
  -- address.
  pub read_balance-send_coins :
      (s s' : KvStore S) (from to : Bytes) (coins : List Coin) (result : Sent) (other e : Bytes)
      → eq_bytes other from ≡ false
      → eq_bytes other to ≡ false
      → send_coins fuel s from to coins ≡ ok (result, s')
      → read_balance fuel s' other e ≡ read_balance fuel s other e
  read_balance-send_coins s s' from to [] result other e f t h =
      rw (send_coins_nil s s' from to result h) refl
  read_balance-send_coins s s' from to (coin ∷ coins) result other e f t h =
      elim (send_coins_step s s' from to coin coins result h) [
        | inl (stop, same) ↦ rw same refl
        | inr (s1, paid, k) ↦
            read_balance-send_coins s1 s' from to coins result other e f t k
            ∙ Paid-frame law fuel s s1 from to coin other e paid f t
      ]

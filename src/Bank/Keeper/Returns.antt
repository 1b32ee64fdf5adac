-- ===== src/Bank/Keeper/Returns.antt =====
-- When `send_coins` returns, and with what.
use doge_sdk.Base.{
  ℕ, ◌+◌, ◌-◌, ◌^◌, ◌<◌, ◌≡◌, refl, ◌∙◌, true, false, Option, none, some, arith, leb, ltb,
  if◌then◌else◌, Bool-cases, inl, inr,
}
use doge_sdk.Base.Bytes.{Bytes, eq_bytes, eq_bytes_comm}
use doge_sdk.Database.Record.{Database}
use doge_sdk.Trees.External.{External}
use doge_sdk.Trees.Outcome.{ok}
use doge_sdk.Store.KvStore.{KvStore}
use doge_sdk.Bank.Coin.{Coin}
use doge_sdk.Bank.Keeper.{
  CoinCodec, IsLawful, sent, insufficient_funds, balance_or_zero, read_balance, send_coin, sent,
  insufficient_funds,
}
use doge_sdk.Bank.Keeper.Cells.{stored, read_balance-stored}
use doge_sdk.Bank.Keeper.Transfer.{
  HasBalance, send_coin-none, send_coin-short, send_coin-enough, add_coin-fits,
}
use doge_sdk.Bank.Keeper.Payment.{read_balance-bound}

leb-of-ltb : (a b : ℕ) → ltb a b ≡ true → leb b a ≡ false
leb-of-ltb a b h = ground arith

leb-of-not-ltb : (a b : ℕ) → ltb a b ≡ false → leb b a ≡ true
leb-of-not-ltb a b h = ground arith

ltb_of_lt : (a b : ℕ) → a < b → ltb a b ≡ true
ltb_of_lt a b h = ground arith

leb_zero : (n : ℕ) → 0 < n → leb n 0 ≡ false
leb_zero n h = ground arith

module _ ⦃x : External⦄ {S : Type 0} ⦃d : Database S⦄ ⦃c : CoinCodec⦄ (law : IsLawful c)
    (fuel : ℕ) where
  -- If encoded coins are read back: sending a positive amount of one coin between two different addresses, whose balances can be
  -- read and whose sum fits, returns: with success if the balance is large enough, and otherwise
  -- with an error and the store as it was.
  pub send_coin-returns :
      (s : KvStore S) (from to : Bytes) (coin : Coin) (a b : ℕ)
      → eq_bytes from to ≡ false
      → 0 < coin.amount
      → HasBalance fuel s from coin.denom a
      → HasBalance fuel s to coin.denom b
      → b + coin.amount < 2 ^ 256
      → (s' : KvStore S) × (send_coin fuel s from to coin
          ≡ ok (if leb coin.amount a then (sent, s') else (insufficient_funds, s)))
  send_coin-returns s from to coin a b apart positive ha hb fits = go ha.0 ha.1 ha.2
    where
      go :
          (fa : Option Coin)
          → read_balance fuel s from coin.denom ≡ ok fa
          → (balance_or_zero coin.denom fa).amount ≡ a
          → (s' : KvStore S) × (send_coin fuel s from to coin
              ≡ ok (if leb coin.amount a then (sent, s') else (insufficient_funds, s)))
      go none e n = (
        s,
        send_coin-none fuel s from to coin e ∙ rw (← n) (rw (leb_zero coin.amount positive) refl),
      )
      go (some ca) e n = elim (Bool-cases (ltb ca.amount coin.amount)) [
        | inl t ↦
            (s, send_coin-short fuel s from to coin ca e t ∙ rw (← n) (rw (leb-of-ltb _ _ t) refl))
        | inr t ↦
            let less : Coin = record ca { amount = ca.amount - coin.amount } in
            let bound = read_balance-bound law fuel s from coin.denom ca e in
            let apart' : eq_bytes to from ≡ false = eq_bytes_comm to from ∙ apart in
            let kept : read_balance fuel (stored s from coin.denom less) to coin.denom ≡ ok hb.0 =
              read_balance-stored fuel s law from coin.denom to coin.denom less (omega arith)
              ∙ ground (arith, apart', hb.1) in
            let sum : (balance_or_zero coin.denom hb.0).amount + coin.amount < 2 ^ 256 =
              rw hb.2 fits in
            let added =
              add_coin-fits fuel (stored s from coin.denom less) to coin hb.0 kept
                (ltb_of_lt _ _ sum) in
            (
              stored (stored s from coin.denom less) to coin.denom
                  (record (balance_or_zero coin.denom hb.0) {
                    amount = (balance_or_zero coin.denom hb.0).amount + coin.amount;
                  }),
              send_coin-enough fuel s from to coin ca e t
                  ∙ rw added (rw (← n) (rw (leb-of-not-ltb _ _ t) refl)),
            )
      ]

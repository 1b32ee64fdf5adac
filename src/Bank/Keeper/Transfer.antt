-- ===== src/Bank/Keeper/Transfer.antt =====
-- What `send_coins` does to the balances.
use doge_sdk.Base.{
  ℕ, ◌+◌, ◌-◌, ◌^◌, ◌<◌, ◌≤◌, ◌≡◌, refl, sym, ap, ◌∙◌, Bool, true, false, Option, none, some, arith,
  ltb, if◌then◌else◌, Bool-cases, Option-cases, inl, inr, ◌⊎◌,
}
use doge_sdk.Base.Bytes.{Bytes}
use doge_sdk.Database.Record.{Database}
use doge_sdk.Trees.External.{External}
use doge_sdk.Trees.Outcome.{Outcome, ok, panic, ◌>>=◌, bind-eq-ok, ok-injective}
use doge_sdk.Store.KvStore.{KvStore}
use doge_sdk.Bank.Coin.{Coin}
use doge_sdk.Bank.Keeper.{
  CoinCodec, Sent, sent, insufficient_funds, balance_or_zero, create_denom_balance_prefix,
  read_balance, add_coin, send_coin,
}
use doge_sdk.Bank.Keeper.Cells.{stored, write_balance-eq-stored}

checked :
    {A : Type 0} (b : Bool) (m : Outcome A) {a : A}
    → (if b then m else panic) ≡ ok a
    → (b ≡ true) × (m ≡ ok a)
checked true m h = (refl, h)
checked false m h = cc

lt_of_ltb : (a b : ℕ) → ltb a b ≡ true → a < b
lt_of_ltb a b h = ground arith

le_of_not_ltb : (a b : ℕ) → ltb a b ≡ false → b ≤ a
le_of_not_ltb a b h = ground arith

module _ ⦃x : External⦄ {S : Type 0} ⦃d : Database S⦄ ⦃c : CoinCodec⦄ (fuel : ℕ) where
  -- An address holds an amount of a denomination: that of the coin stored, or zero.
  abbrev pub HasBalance : KvStore S → Bytes → Bytes → ℕ → Type 0
  HasBalance s addr denom n =
      (found : Option Coin) × (read_balance fuel s addr denom ≡ ok found)
      × ((balance_or_zero denom found).amount ≡ n)

  -- A coin was added: the balance before, and the write.
  pub record Added (s s' : KvStore S) (to : Bytes) (coin : Coin) : Type 0 where
    pub found : Option Coin
    pub read : read_balance fuel s to coin.denom ≡ ok found
    pub fits : (balance_or_zero coin.denom found).amount + coin.amount < 2 ^ 256
    pub written :
        s'
        ≡ stored s to coin.denom (record (balance_or_zero coin.denom found) {
          amount = (balance_or_zero coin.denom found).amount + coin.amount;
        })

  pub add_coin-fits :
      (s : KvStore S) (to : Bytes) (coin : Coin) (o : Option Coin)
      → read_balance fuel s to coin.denom ≡ ok o
      → ltb ((balance_or_zero coin.denom o).amount + coin.amount) (2 ^ 256) ≡ true
      → add_coin fuel s to coin
        ≡ ok (
            stored s to coin.denom (record (balance_or_zero coin.denom o) {
              amount = (balance_or_zero coin.denom o).amount + coin.amount;
            }))
  unfolding add_coin stored create_denom_balance_prefix
  add_coin-fits s to coin o e t = rw (e, add_coin, t) refl

  add_coin-Added :
      (s s' : KvStore S) (to : Bytes) (coin : Coin)
      → add_coin fuel s to coin ≡ ok s'
      → Added s s' to coin
  unfolding add_coin
  add_coin-Added s s' to coin h =
      let (o, e, k) = bind-eq-ok (read_balance fuel s to coin.denom) _ h in
      let (t, w) = checked _ _ k in
      record {
        found = o;
        read = e;
        fits = lt_of_ltb _ _ t;
        written = ok-injective (sym w ∙ write_balance-eq-stored s to coin.denom _);
      }

  -- A coin was moved: the balance before, and what was added after the first write.
  pub record Paid (s s' : KvStore S) (from to : Bytes) (coin : Coin) : Type 0 where
    pub balance : Coin
    pub read : read_balance fuel s from coin.denom ≡ ok (some balance)
    pub enough : coin.amount ≤ balance.amount
    pub added :
        Added
          (stored s from coin.denom (record balance { amount = balance.amount - coin.amount }))
          s'
          to
          coin

  -- The loop's body on each branch.
  pub send_coin-none :
      (s : KvStore S) (from to : Bytes) (coin : Coin)
      → read_balance fuel s from coin.denom ≡ ok none
      → send_coin fuel s from to coin ≡ ok (insufficient_funds, s)
  unfolding send_coin
  send_coin-none s from to coin e = ground (arith, e)

  pub send_coin-short :
      (s : KvStore S) (from to : Bytes) (coin b : Coin)
      → read_balance fuel s from coin.denom ≡ ok (some b)
      → ltb b.amount coin.amount ≡ true
      → send_coin fuel s from to coin ≡ ok (insufficient_funds, s)
  unfolding send_coin
  send_coin-short s from to coin b e t = ground (arith, e, t)

  pub send_coin-enough :
      (s : KvStore S) (from to : Bytes) (coin b : Coin)
      → read_balance fuel s from coin.denom ≡ ok (some b)
      → ltb b.amount coin.amount ≡ false
      → send_coin fuel s from to coin ≡ (
          add_coin fuel
            (stored s from coin.denom (record b { amount = b.amount - coin.amount }))
            to
            coin
          >>= λ s2. ok (sent, s2))
  unfolding send_coin stored create_denom_balance_prefix
  send_coin-enough s from to coin b e t = rw (e, send_coin, t) refl

  stopped :
      (s s' : KvStore S) (result : Sent)
      → ◌≡◌ {A = Outcome (Sent × KvStore S)} (ok (insufficient_funds, s)) (ok (result, s'))
      → (result ≡ insufficient_funds) × (s' ≡ s)
  stopped s s' result h = let e = ok-injective h in (sym (ap (λ p. p.0) e), sym (ap (λ p. p.1) e))

  send_some :
      (s s' : KvStore S) (from to : Bytes) (coin b : Coin) (result : Sent)
      → read_balance fuel s from coin.denom ≡ ok (some b)
      → send_coin fuel s from to coin ≡ ok (result, s')
      → ((result ≡ insufficient_funds) × (s' ≡ s)) ⊎ ((result ≡ sent) × Paid s s' from to coin)
  send_some s s' from to coin b result e h = elim (Bool-cases (ltb b.amount coin.amount)) [
    | inl t ↦ inl (stopped s s' result (sym (send_coin-short s from to coin b e t) ∙ h))
    | inr t ↦
        let (s2, e2, k) = bind-eq-ok _ _ (sym (send_coin-enough s from to coin b e t) ∙ h) in
        let p = ok-injective k in
        let same : s2 ≡ s' = ap (λ q. q.1) p in
        inr (
          sym (ap (λ q. q.0) p),
          record {
            balance = b;
            read = e;
            enough = le_of_not_ltb _ _ t;
            added = add_coin-Added _ s' to coin (rw (← same) e2);
          },
        )
  ]

  pub send_coin-cases :
      (s s' : KvStore S) (from to : Bytes) (coin : Coin) (result : Sent)
      → send_coin fuel s from to coin ≡ ok (result, s')
      → ((result ≡ insufficient_funds) × (s' ≡ s)) ⊎ ((result ≡ sent) × Paid s s' from to coin)
  unfolding send_coin
  send_coin-cases s s' from to coin result h =
      let (found, e, k) = bind-eq-ok (read_balance fuel s from coin.denom) _ h in
      elim (Option-cases found) [
        | inl n ↦ inl (stopped s s' result (sym (send_coin-none s from to coin (e ∙ ap ok n)) ∙ h))
        | inr (b, n) ↦ send_some s s' from to coin b result (e ∙ ap ok n) h
      ]

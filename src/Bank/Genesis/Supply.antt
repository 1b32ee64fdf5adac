-- ===== src/Bank/Genesis/Supply.antt =====
-- The supply that the genesis of the bank adds up.
use doge_sdk.Base.{
  ℕ, ◌+◌, ◌^◌, ◌≡◌, sym, ap, ◌⊎◌, inl, inr, Bool-cases, true, false, List, [], ◌∷◌, ◌++◌, ltb, All,
  arith, if◌then◌else◌,
}
use std.Path.{subst}
use doge_sdk.Base.Bytes.{Bytes, eq_bytes, eq_of_cmp}
use doge_sdk.Trees.Outcome.{ok, bind-eq-ok, ok-injective, ◌>>=◌}
use doge_sdk.Store.KvStore.{KvStore}
use doge_sdk.Bank.Coin.{Coin}
use doge_sdk.Bank.Keeper.{CoinCodec, write_balance}
use doge_sdk.Bank.Genesis.{Balance, add_total, set_coins, set_balances}

-- The amounts of a denomination, together.
abbrev pub sum_of : Bytes → List Coin → ℕ
sum_of denom [] = 0
sum_of denom (coin ∷ coins) =
    (if eq_bytes denom coin.denom then coin.amount else 0) + sum_of denom coins

-- All coins of the balances.
abbrev pub all_coins : List Balance → List Coin
all_coins [] = []
all_coins (balance ∷ balances) = balance.coins ++ all_coins balances

sum_of-append :
    (denom : Bytes) (xs ys : List Coin)
    → sum_of denom (xs ++ ys) ≡ sum_of denom xs + sum_of denom ys
sum_of-append denom [] ys = omega arith
sum_of-append denom (x ∷ xs) ys = ground (arith, sum_of-append denom xs ys)

same_denom : (a b : Bytes) → eq_bytes a b ≡ true → a ≡ b
same_denom a b h = eq_of_cmp a b (ground (arith, h))

-- Every denomination stands in the list once.
abbrev pub IsOnce : List Coin → Type 0
IsOnce [] = Unit
IsOnce (coin ∷ coins) = All (λ e. eq_bytes e.denom coin.denom ≡ false) coins × IsOnce coins

-- The totals of a list grow by the amount of a coin.
abbrev pub Adds : Bytes → List Coin → List Coin → List Coin → Type 0
Adds denom totals coins totals' = sum_of denom totals' ≡ sum_of denom totals + sum_of denom coins

-- A coin meets the total of its denomination, or another one.
add_total-cases :
    (total : Coin) (totals totals' : List Coin) (coin : Coin)
    → add_total (total ∷ totals) coin ≡ ok totals'
    → ((eq_bytes coin.denom total.denom ≡ true)
        × (totals' ≡ record { denom = total.denom; amount = coin.amount + total.amount } ∷ totals))
      ⊎ ((eq_bytes coin.denom total.denom ≡ false)
          × (ts : List Coin) × (add_total totals coin ≡ ok ts)
          × (totals' ≡ total ∷ ts))
unfolding add_total
add_total-cases total totals totals' coin h = elim (Bool-cases (eq_bytes coin.denom total.denom)) [
  | inr k ↦
      let h' : (add_total totals coin >>= λ ts. ok (total ∷ ts)) ≡ ok totals' =
        ground (arith, h, k) in
      let (ts, e, h1) = bind-eq-ok (add_total totals coin) (λ ts. ok (total ∷ ts)) h' in
      inr (k, ts, e, sym (ok-injective h1))
  | inl k ↦ elim (Bool-cases (ltb (coin.amount + total.amount) (2 ^ 256))) [
    | inr l ↦ absurd (ground (arith, h, k, l))
    | inl l ↦ inl (k, ground (arith, h, k, l))
  ]
]

add_total-Adds :
    (denom : Bytes) (totals totals' : List Coin) (coin : Coin)
    → add_total totals coin ≡ ok totals'
    → Adds denom totals (coin ∷ []) totals'
unfolding add_total
add_total-Adds denom [] totals' coin h =
    subst (λ ts. Adds denom [] (coin ∷ []) ts) (ok-injective h) (omega arith)
add_total-Adds denom (total ∷ totals) totals' coin h =
    elim (add_total-cases total totals totals' coin h) [
      | inl (k, same) ↦
          let own : eq_bytes denom coin.denom ≡ eq_bytes denom total.denom =
            ap (eq_bytes denom) (same_denom coin.denom total.denom k) in
          subst (λ ts. Adds denom (total ∷ totals) (coin ∷ []) ts) (sym same) (ground (arith, own))
      | inr (k, ts, e, same) ↦
          subst (λ ts. Adds denom (total ∷ totals) (coin ∷ []) ts) (sym same)
            (ground (arith, add_total-Adds denom totals ts coin e))
    ]

add_total-All :
    (denom : Bytes) (totals totals' : List Coin) (coin : Coin)
    → add_total totals coin ≡ ok totals'
    → eq_bytes coin.denom denom ≡ false
    → All (λ e. eq_bytes e.denom denom ≡ false) totals
    → All (λ e. eq_bytes e.denom denom ≡ false) totals'
unfolding add_total
add_total-All denom [] totals' coin h c a =
    subst (All (λ e. eq_bytes e.denom denom ≡ false)) (ok-injective h) (c, tt)
add_total-All denom (total ∷ totals) totals' coin h c a =
    elim (add_total-cases total totals totals' coin h) [
      | inl (k, same) ↦ subst (All (λ e. eq_bytes e.denom denom ≡ false)) (sym same) (a.0, a.1)
      | inr (k, ts, e, same) ↦
          subst (All (λ e. eq_bytes e.denom denom ≡ false)) (sym same)
            (a.0, add_total-All denom totals ts coin e c a.1)
    ]

add_total-IsOnce :
    (totals totals' : List Coin) (coin : Coin)
    → add_total totals coin ≡ ok totals'
    → IsOnce totals
    → IsOnce totals'
unfolding add_total
add_total-IsOnce [] totals' coin h o = subst IsOnce (ok-injective h) (tt, tt)
add_total-IsOnce (total ∷ totals) totals' coin h o =
    elim (add_total-cases total totals totals' coin h) [
      | inl (k, same) ↦ subst IsOnce (sym same) (o.0, o.1)
      | inr (k, ts, e, same) ↦
          subst IsOnce (sym same) (
            add_total-All total.denom totals ts coin e k o.0,
            add_total-IsOnce totals ts coin e o.1,
          )
    ]

module _ {S : Type 0} ⦃c : CoinCodec⦄ where
  set_coins-totals :
      (s s' : KvStore S) (totals totals' : List Coin) (address : Bytes) (coins : List Coin)
      → set_coins s totals address coins ≡ ok (s', totals')
      → IsOnce totals
      → ((denom : Bytes) → Adds denom totals coins totals') × IsOnce totals'
  unfolding set_coins
  set_coins-totals s s' totals totals' address [] h o =
      subst
        (λ (q : KvStore S × List Coin). ((denom : Bytes) → Adds denom totals [] q.1) × IsOnce q.1)
        (ok-injective h) (λ denom. omega arith, o)
  set_coins-totals s s' totals totals' address (coin ∷ coins) h o =
      let (s1, e, h1) =
        bind-eq-ok (write_balance s address coin.denom coin)
          (λ s1. add_total totals coin >>= λ totals1. set_coins s1 totals1 address coins) h in
      let (totals1, e1, h2) =
        bind-eq-ok (add_total totals coin) (λ totals1. set_coins s1 totals1 address coins) h1 in
      let (rest, once) =
        set_coins-totals s1 s' totals1 totals' address coins h2
          (add_total-IsOnce totals totals1 coin e1 o) in
      (λ denom. ground (arith, rest denom, add_total-Adds denom totals totals1 coin e1), once)

  set_balances-totals :
      (s s' : KvStore S) (totals totals' : List Coin) (balances : List Balance)
      → set_balances s totals balances ≡ ok (s', totals')
      → IsOnce totals
      → ((denom : Bytes) → Adds denom totals (all_coins balances) totals') × IsOnce totals'
  unfolding set_balances
  set_balances-totals s s' totals totals' [] h o =
      subst
        (λ (q : KvStore S × List Coin). ((denom : Bytes) → Adds denom totals [] q.1) × IsOnce q.1)
        (ok-injective h) (λ denom. omega arith, o)
  set_balances-totals s s' totals totals' (balance ∷ balances) h o =
      let ((s1, totals1), e, h1) =
        bind-eq-ok (set_coins s totals balance.address balance.coins) _ h in
      let (own, once) = set_coins-totals s s1 totals totals1 balance.address balance.coins e o in
      let (rest, once') = set_balances-totals s1 s' totals1 totals' balances h1 once in
      (
        λ denom.
            ground (
              arith,
              own denom,
              rest denom,
              sum_of-append denom balance.coins (all_coins balances),
            ),
        once',
      )

  -- The supply that the genesis of the bank adds up holds, if it returns, every denomination once,
  -- with the sum of all amounts of it in the balances.
  pub set_balances-supply :
      (s s' : KvStore S) (totals : List Coin) (balances : List Balance)
      → set_balances s [] balances ≡ ok (s', totals)
      → ((denom : Bytes) → sum_of denom totals ≡ sum_of denom (all_coins balances)) × IsOnce totals
  set_balances-supply s s' totals balances h =
      let (adds, once) = set_balances-totals s s' [] totals balances h tt in
      (λ denom. ground (arith, adds denom), once)

-- ===== src/Bank/Keeper/Payment.antt =====
-- The balances after one coin was moved.
use doge_sdk.Base.{
  ℕ, ◌+◌, ◌-◌, ◌^◌, ◌<◌, ◌≤◌, ◌≡◌, sym, ap, ◌∙◌, false, ◌&&◌, Option, none, some, arith,
  if◌then◌else◌, Bool-cases, Option-cases, inl, inr,
}
use doge_sdk.Base.Bytes.{Bytes, eq_bytes, cmp_refl, eq_bytes_comm, eq_of_cmp}
use doge_sdk.Database.Record.{Database}
use doge_sdk.Trees.External.{External}
use doge_sdk.Trees.Outcome.{ok, bind-eq-ok, ok-injective}
use doge_sdk.Store.KvStore.{KvStore, prefix_get}
use doge_sdk.Bank.Coin.{Coin}
use doge_sdk.Bank.Keeper.{
  CoinCodec, IsLawful, balance_or_zero, create_denom_balance_prefix, read_balance, decode_found,
}
use doge_sdk.Bank.Keeper.Cells.{stored, read_balance-stored}
use doge_sdk.Bank.Keeper.Transfer.{HasBalance, Paid}

-- How much of a denomination a coin is.
abbrev pub worth : Bytes → Coin → ℕ
worth e coin = if eq_bytes e coin.denom then coin.amount else 0

module _ ⦃c : CoinCodec⦄ (law : IsLawful c) where
  decode_found-bound :
      (found : Option Bytes) (coin : Coin)
      → decode_found found ≡ ok (some coin)
      → coin.amount < 2 ^ 256
  unfolding decode_found
  decode_found-bound none coin h = cc
  decode_found-bound (some bytes) coin h = elim (Option-cases (c.decode bytes)) [
    | inl n ↦ absurd (ground (arith, h, n))
    | inr (b, e) ↦
        let same : b ≡ coin = ground (arith, h, e) in rw (← same) (law.decode-bound bytes b e)
  ]

module _ ⦃x : External⦄ {S : Type 0} ⦃d : Database S⦄ ⦃c : CoinCodec⦄ (law : IsLawful c)
    (fuel : ℕ) where
  pub read_balance-bound :
      (s : KvStore S) (addr denom : Bytes) (coin : Coin)
      → read_balance fuel s addr denom ≡ ok (some coin)
      → coin.amount < 2 ^ 256
  unfolding read_balance
  read_balance-bound s addr denom coin h =
      let (found, e, k) =
        bind-eq-ok (prefix_get fuel s (create_denom_balance_prefix addr) denom) decode_found h in
      decode_found-bound law found coin k

  -- The balances after a coin was moved.
  read-Paid :
      (s s' : KvStore S) (from to : Bytes) (coin : Coin) (p : Paid fuel s s' from to coin)
      (b e : Bytes)
      → read_balance fuel s' b e ≡ (
          if eq_bytes b to && eq_bytes e coin.denom
          then ok (
              some (record (balance_or_zero coin.denom p.added.found) {
                amount = (balance_or_zero coin.denom p.added.found).amount + coin.amount;
              }))
          else if eq_bytes b from && eq_bytes e coin.denom
          then ok (some (record p.balance { amount = p.balance.amount - coin.amount }))
          else read_balance fuel s b e)
  read-Paid s s' from to coin p b e =
      let bound = read_balance-bound s from coin.denom p.balance p.read in
      let less : Coin = record p.balance { amount = p.balance.amount - coin.amount } in
      let old : Coin = balance_or_zero coin.denom p.added.found in
      let more : Coin = record old { amount = old.amount + coin.amount } in
      ap (λ st. read_balance fuel st b e) p.added.written
      ∙ read_balance-stored fuel (stored s from coin.denom less) law to coin.denom b e more
          p.added.fits
      ∙ ap (λ o. if eq_bytes b to && eq_bytes e coin.denom then ok (some more) else o)
          (read_balance-stored fuel s law from coin.denom b e less (omega arith))

  pub Paid-frame :
      (s s' : KvStore S) (from to : Bytes) (coin : Coin) (b e : Bytes)
      → Paid fuel s s' from to coin
      → eq_bytes b from ≡ false
      → eq_bytes b to ≡ false
      → read_balance fuel s' b e ≡ read_balance fuel s b e
  Paid-frame s s' from to coin b e p h k = read-Paid s s' from to coin p b e ∙ ground (arith, h, k)

  -- In the denomination of the coin.
  Paid-moves :
      (s s' : KvStore S) (from to : Bytes) (coin : Coin) (a b : ℕ)
      → eq_bytes from to ≡ false
      → Paid fuel s s' from to coin
      → HasBalance fuel s from coin.denom a
      → HasBalance fuel s to coin.denom b
      → HasBalance fuel s' from coin.denom (a - coin.amount)
        × HasBalance fuel s' to coin.denom (b + coin.amount)
        × (coin.amount ≤ a)
  Paid-moves s s' from to coin a b apart p (fa, ea, na) (fb, eb, nb) =
      let bound = read_balance-bound s from coin.denom p.balance p.read in
      let less : Coin = record p.balance { amount = p.balance.amount - coin.amount } in
      let old : Coin = balance_or_zero coin.denom p.added.found in
      let more : Coin = record old { amount = old.amount + coin.amount } in
      let same_a : fa ≡ some p.balance = ok-injective (sym ea ∙ p.read) in
      let apart' : eq_bytes to from ≡ false = eq_bytes_comm to from ∙ apart in
      let kept : read_balance fuel (stored s from coin.denom less) to coin.denom
          ≡ read_balance fuel s to coin.denom =
        read_balance-stored fuel s law from coin.denom to coin.denom less (omega arith)
        ∙ ground (arith, apart') in
      let same_b : fb ≡ p.added.found = ok-injective (sym eb ∙ sym kept ∙ p.added.read) in
      let held_a : p.balance.amount ≡ a =
        sym (ap (λ o. (balance_or_zero coin.denom o).amount) same_a) ∙ na in
      let held_b : old.amount ≡ b =
        sym (ap (λ o. (balance_or_zero coin.denom o).amount) same_b) ∙ nb in
      (
        (
          some less,
          read-Paid s s' from to coin p from coin.denom
              ∙ ground (arith, apart, cmp_refl from, cmp_refl coin.denom),
          omega arith,
        ),
        (
          some more,
          read-Paid s s' from to coin p to coin.denom
              ∙ ground (arith, cmp_refl to, cmp_refl coin.denom),
          omega arith,
        ),
        omega arith,
      )

  -- In another denomination.
  Paid-other :
      (s s' : KvStore S) (from to : Bytes) (coin : Coin) (b e : Bytes) (n : ℕ)
      → eq_bytes e coin.denom ≡ false
      → Paid fuel s s' from to coin
      → HasBalance fuel s b e n
      → HasBalance fuel s' b e n
  Paid-other s s' from to coin b e n other p (found, eq, v) =
      (found, read-Paid s s' from to coin p b e ∙ ground (arith, other, eq), v)

  pub Paid-HasBalance :
      (s s' : KvStore S) (from to : Bytes) (coin : Coin) (e : Bytes) (a b : ℕ)
      → eq_bytes from to ≡ false
      → Paid fuel s s' from to coin
      → HasBalance fuel s from e a
      → HasBalance fuel s to e b
      → HasBalance fuel s' from e (a - worth e coin)
        × HasBalance fuel s' to e (b + worth e coin)
        × (worth e coin ≤ a)
  Paid-HasBalance s s' from to coin e a b apart p ha hb =
      elim (Bool-cases (eq_bytes e coin.denom)) [
        | inl t ↦
            let same : e ≡ coin.denom = eq_of_cmp e coin.denom (ground (arith, t)) in
            let all : worth e coin ≡ coin.amount = ground (arith, t) in
            rw all
              (rw same (Paid-moves s s' from to coin a b apart p (rw same at ha) (rw same at hb)))
        | inr f ↦
            let nothing : worth e coin ≡ 0 = ground (arith, f) in
            let na : a - 0 ≡ a = omega arith in
            let nb : b + 0 ≡ b = omega arith in
            rw nothing (
              rw (na, nb)
                (
                  Paid-other s s' from to coin from e a f p ha,
                  Paid-other s s' from to coin to e b f p hb,
                  omega arith,
                ))
      ]

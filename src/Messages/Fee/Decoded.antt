-- ===== src/Messages/Fee/Decoded.antt =====
-- What an amount, a fee and a tip hold that were read from their generated types.
use doge_sdk.Base.{
  ◌≤◌, ◌≡◌, refl, Bool, true, false, Bool-cases, Option, Option-cases, none, some, List, [], ◌∷◌,
  All, length, arith, ltb, if◌then◌else◌, inl, inr,
}
use std.Path.{subst}
use doge_sdk.Base.Bytes.{Bytes}
use doge_sdk.Base.Tried.{
  done, Tried-cases, bind-eq-done, done-injective, try_from-eq-done, ◌>>=◌, try_from, try_map,
}
use doge_sdk.Bank.Coin.{Coin, validate_coins, valid}
use doge_sdk.Messages.Crates.{Crates, IsLawful}
use doge_sdk.Messages.Address.{IsAddress, from_bech32}
use doge_sdk.Messages.Key.{coin}
use doge_sdk.Messages.Coin
use doge_sdk.Messages.Coin.{RawCoin, IsCoin, IsSendCoins, coin_try_from, denom_try_from}
use doge_sdk.Messages.Fee.{
  RawFee, RawTip, IsFee, IsTip, convert_fee, fee_try_from, tip_try_from, address_try_from,
  payer_try_from, send_coins_try_from, all_zero, max_gas_wanted, IsPayer, IsAmount,
}
use doge_sdk.Messages.Tx.{Fee, Tip}

module _ ⦃x : Crates⦄ (law : IsLawful x) where
  from_bech32-IsAddress : (text a : Bytes) → from_bech32 text ≡ done a → IsAddress a
  unfolding from_bech32
  from_bech32-IsAddress text a h = elim (Option-cases (x.bech32_decode text)) [
    | inl e ↦ ground (arith, h, e)
    | inr ((hrp, data5, variant), e) ↦ elim (Option-cases (x.from_base32 data5)) [
      | inl e2 ↦ ground (arith, h, e, e2)
      | inr (addr, e2) ↦
          let b = law.from_base32-IsBytes data5 addr e2 in
          let same : addr ≡ a = ground (arith, h, e, e2) in
          let short : length addr ≤ 255 = ground (arith, h, e, e2) in
          subst IsAddress same (b, short)
    ]
  ]

  coin_try_from-IsCoin : (raw : RawCoin) (c : Coin) → coin_try_from raw ≡ done c → IsCoin c
  unfolding coin_try_from denom_try_from
  coin_try_from-IsCoin raw c h =
      let (d, e, h1) = bind-eq-done (denom_try_from raw.denom) _ c h in
      let (n, e2, h2) = bind-eq-done (try_from (x.uint_from_str raw.amount) coin) _ c h1 in
      let denom : Coin.is_match d ≡ true = ground arith in
      let amount =
        law.uint_from_str-bound raw.amount n
          (try_from-eq-done (x.uint_from_str raw.amount) coin n e2) in
      subst IsCoin (done-injective h2) (denom, amount)

  coins_try_from-All :
      (raw : List RawCoin) (cs : List Coin) → try_map coin_try_from raw ≡ done cs → All IsCoin cs
  coins_try_from-All [] cs h = subst (All IsCoin) (done-injective h) tt
  coins_try_from-All (r ∷ rs) cs h = elim (Tried-cases (coin_try_from r)) [
    | inr (e, k) ↦ ground (arith, h, k)
    | inl (c, k) ↦ elim (Tried-cases (try_map coin_try_from rs)) [
      | inr (e, l) ↦ ground (arith, h, k, l)
      | inl (ds, l) ↦
          let same : c ∷ ds ≡ cs = ground (arith, h, k, l) in
          subst (All IsCoin) same (coin_try_from-IsCoin r c k, coins_try_from-All rs ds l)
    ]
  ]

  send_coins_try_from-IsSendCoins :
      (raw : List RawCoin) (cs : List Coin) → send_coins_try_from raw ≡ done cs → IsSendCoins cs
  unfolding send_coins_try_from Coin.new
  send_coins_try_from-IsSendCoins raw cs h =
      let (ds, k, h1) = bind-eq-done (try_map coin_try_from raw) _ cs h in
      let accepted : validate_coins ds ≡ valid = ground (arith, h1) in
      let same : ds ≡ cs = ground (arith, h1) in
      subst IsSendCoins same (accepted, coins_try_from-All raw ds k)

  address_try_from-IsAddress : (text a : Bytes) → address_try_from text ≡ done a → IsAddress a
  unfolding address_try_from
  address_try_from-IsAddress text a h = elim (Tried-cases (from_bech32 text)) [
    | inl (b, e) ↦ from_bech32-IsAddress text a (ground (arith, h, e))
    | inr (e, k) ↦ ground (arith, h, k)
  ]

  payer_try_from-IsPayer :
      (text : Bytes) (p : Option Bytes) → payer_try_from text ≡ done p → IsPayer p
  unfolding payer_try_from
  payer_try_from-IsPayer [] p h = subst IsPayer (done-injective h) tt
  payer_try_from-IsPayer (b ∷ text) p h =
      let (a, e, h1) = bind-eq-done (address_try_from (b ∷ text)) _ p h in
      subst IsPayer (done-injective h1) (address_try_from-IsAddress (b ∷ text) a e)

  IsAmount-part :
      (zeros : Bool) (raw : List RawCoin) (amount : Option (List Coin))
      → (if zeros then done none else (do cs ← send_coins_try_from raw; done (some cs)))
        ≡ done amount
      → IsAmount amount
  IsAmount-part true raw amount h = subst IsAmount (done-injective h) tt
  IsAmount-part false raw amount h =
      let (cs, e, h1) = bind-eq-done (send_coins_try_from raw) _ amount h in
      subst IsAmount (done-injective h1) (send_coins_try_from-IsSendCoins raw cs e)

  convert_fee-IsFee :
      (raw : RawFee) (fee : Fee)
      → raw.gas_limit ≤ max_gas_wanted
      → convert_fee raw ≡ done fee
      → IsFee fee
  unfolding convert_fee
  convert_fee-IsFee raw fee small h =
      let (zeros, e1, h1) = bind-eq-done (all_zero raw.amount) _ fee h in
      let (payer, e2, h2) = bind-eq-done (payer_try_from raw.payer) _ fee h1 in
      let (amount, e3, h3) = bind-eq-done _ _ fee h2 in
      subst IsFee (done-injective h3)
        (small, payer_try_from-IsPayer raw.payer payer e2, IsAmount-part zeros raw.amount amount e3)

  pub fee_try_from-IsFee : (raw : RawFee) (fee : Fee) → fee_try_from raw ≡ done fee → IsFee fee
  unfolding fee_try_from
  fee_try_from-IsFee raw fee h = elim (Bool-cases (ltb max_gas_wanted raw.gas_limit)) [
    | inl e ↦ ground (arith, h, e)
    | inr e ↦ convert_fee-IsFee raw fee (ground (arith, e)) (ground (arith, h, e))
  ]

  pub tip_try_from-IsTip : (raw : RawTip) (tip : Tip) → tip_try_from raw ≡ done tip → IsTip tip
  unfolding tip_try_from
  tip_try_from-IsTip raw tip h =
      let (tipper, e1, h1) = bind-eq-done (address_try_from raw.tipper) _ tip h in
      let (amount, e2, h2) = bind-eq-done (send_coins_try_from raw.amount) _ tip h1 in
      subst IsTip (done-injective h2) (
        address_try_from-IsAddress raw.tipper tipper e1,
        (amount, refl, send_coins_try_from-IsSendCoins raw.amount amount e2),
      )

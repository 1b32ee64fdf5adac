-- ===== src/Messages/Fee.antt =====
-- The conversions of `Fee` and `Tip` of proto-messages/src/cosmos/tx/v1beta1/tx.rs.
pub mod Decoded
use doge_sdk.Base.{
  ℕ, ◌≤◌, ◌≡◌, refl, Bool, true, false, Option, none, some, List, [], ◌∷◌, map, arith, ltb, ◌==◌,
  if◌then◌else◌, Option-cases, inl, inr,
}
use std.Path.{subst}
use doge_sdk.Base.Bytes.{Bytes}
use doge_sdk.Base.Tried.{Tried, done, failed, ◌>>=◌, try_from, try_map}
use doge_sdk.Bank.Coin.{Coin, validate_coins}
use doge_sdk.Messages.Crates.{Crates, IsLawful}
use doge_sdk.Messages.Address.{IsAddress, decode, from_bech32, to_string, from_bech32-to_string}
use doge_sdk.Messages.Key.{MessagesError, coin, decode_address, decode_general}
use doge_sdk.Messages.Coin
use doge_sdk.Messages.Coin.{
  RawCoin, IsSendCoins, coin_try_from, coin_into_raw, coins_try_from-into_raw, new-valid,
}
use doge_sdk.Messages.Tx.{Fee, Tip}

pub record RawFee : Type 0 where
  pub amount : List RawCoin
  pub gas_limit : ℕ
  pub payer : Bytes
  pub granter : Bytes

pub record RawTip : Type 0 where
  pub amount : List RawCoin
  pub tipper : Bytes

abbrev pub max_gas_wanted : ℕ
max_gas_wanted = 9223372036854775807

module _ ⦃x : Crates⦄ where
  -- The loop stops at the first amount that is not zero.
  unfoldable pub all_zero : List RawCoin → Tried MessagesError Bool
  all_zero [] = done true
  all_zero (c ∷ cs) =
      let rest = all_zero cs in
      do amount ← try_from (x.uint_from_str c.amount) coin; if amount == 0 then rest else done false

  unfoldable pub address_try_from : Bytes → Tried MessagesError Bytes
  unfolding from_bech32
  address_try_from text = elim (from_bech32 text) [
    | done address ↦ done address
    | failed _ ↦ failed decode_address
  ]

  -- The empty text is no payer.
  unfoldable pub payer_try_from : Bytes → Tried MessagesError (Option Bytes)
  unfolding address_try_from
  payer_try_from [] = done none
  payer_try_from (b ∷ text) = do payer ← address_try_from (b ∷ text); done (some payer)

  unfoldable pub payer_into_raw : Option Bytes → Bytes
  unfolding to_string
  payer_into_raw none = []
  payer_into_raw (some address) = to_string address

  unfoldable pub amount_into_raw : Option (List Coin) → List RawCoin
  unfolding coin_into_raw
  amount_into_raw none = []
  amount_into_raw (some cs) = map coin_into_raw cs

  unfoldable pub send_coins_try_from : List RawCoin → Tried MessagesError (List Coin)
  unfolding coin_try_from Coin.new
  send_coins_try_from raw = do cs ← try_map coin_try_from raw; Coin.new cs

  -- A list of zeros is a fee without an amount, whatever its denominations are.
  unfoldable pub convert_fee : RawFee → Tried MessagesError Fee
  unfolding all_zero payer_try_from send_coins_try_from
  convert_fee raw = do
    zeros ← all_zero raw.amount
    payer ← payer_try_from raw.payer
    amount ← if zeros then done none else (do cs ← send_coins_try_from raw.amount; done (some cs))
    done (record {
      amount = amount;
      gas_limit = raw.gas_limit;
      payer = payer;
      granter = raw.granter;
    })

  unfoldable pub fee_try_from : RawFee → Tried MessagesError Fee
  unfolding convert_fee
  fee_try_from raw =
      let converted = convert_fee raw in
      if ltb max_gas_wanted raw.gas_limit then failed decode_general else converted

  unfoldable pub fee_into_raw : Fee → RawFee
  unfolding payer_into_raw amount_into_raw
  fee_into_raw fee = record {
    amount = amount_into_raw fee.amount;
    gas_limit = fee.gas_limit;
    payer = payer_into_raw fee.payer;
    granter = fee.granter;
  }

  unfoldable pub tip_try_from : RawTip → Tried MessagesError Tip
  unfolding address_try_from send_coins_try_from
  tip_try_from raw = do
    tipper ← address_try_from raw.tipper
    amount ← send_coins_try_from raw.amount
    done (record { amount = some amount; tipper = tipper })

  unfoldable pub tip_into_raw : Tip → RawTip
  unfolding amount_into_raw to_string
  tip_into_raw tip = record { amount = amount_into_raw tip.amount; tipper = to_string tip.tipper }

abbrev pub IsAmount : Option (List Coin) → Type 0
IsAmount none = Unit
IsAmount (some cs) = IsSendCoins cs

abbrev pub IsPayer : Option Bytes → Type 0
IsPayer none = Unit
IsPayer (some address) = IsAddress address

abbrev pub IsFee : Fee → Type 0
IsFee fee = (fee.gas_limit ≤ max_gas_wanted) × IsPayer fee.payer × IsAmount fee.amount

-- A tip without an amount is not among these: it is written as an empty list, which is refused.
abbrev pub IsTip : Tip → Type 0
IsTip tip = IsAddress tip.tipper × ((cs : List Coin) × (tip.amount ≡ some cs) × IsSendCoins cs)

module _ ⦃x : Crates⦄ (law : IsLawful x) where
  pub address_try_from-to_string :
      (a : Bytes) → IsAddress a → address_try_from (to_string a) ≡ done a
  unfolding address_try_from
  address_try_from-to_string a h = rw (address_try_from, from_bech32-to_string law a h) refl

  from_bech32-empty : from_bech32 [] ≡ failed decode
  unfolding from_bech32
  from_bech32-empty = rw law.bech32_decode-empty refl

  payer_try_from-address :
      (text a : Bytes) → from_bech32 text ≡ done a → payer_try_from text ≡ done (some a)
  unfolding payer_try_from
  payer_try_from-address [] a h = cc (h, from_bech32-empty)
  payer_try_from-address (b ∷ text) a h = rw (address_try_from, h) refl

  payer_try_from-into_raw :
      (p : Option Bytes) → IsPayer p → payer_try_from (payer_into_raw p) ≡ done p
  unfolding payer_try_from payer_into_raw
  payer_try_from-into_raw none h = refl
  payer_try_from-into_raw (some a) h =
      payer_try_from-address (to_string a) a (from_bech32-to_string law a h)

  -- The first amount is not zero.
  all_zero-send_coins :
      (cs : List Coin) → IsSendCoins cs → all_zero (map coin_into_raw cs) ≡ done false
  unfolding all_zero coin_into_raw validate_coins
  all_zero-send_coins [] h = cc
  all_zero-send_coins (c ∷ cs) h =
      let positive : (c.amount == 0) ≡ false = ground (arith, h.0) in
      rw (map, all_zero, law.uint_from_str-to_string c.amount h.1.0.1, positive) refl

  pub send_coins_try_from-into_raw :
      (cs : List Coin) → IsSendCoins cs → send_coins_try_from (map coin_into_raw cs) ≡ done cs
  unfolding send_coins_try_from
  send_coins_try_from-into_raw cs h = rw (coins_try_from-into_raw law cs h.1, new-valid cs h.0) refl

  fee_try_from-amount :
      (fee : Fee)
      → IsFee fee
      → (cs : List Coin) → fee.amount ≡ some cs
      → fee_try_from (fee_into_raw fee) ≡ done fee
  unfolding fee_try_from fee_into_raw amount_into_raw
  fee_try_from-amount fee h cs e =
      let small : ltb max_gas_wanted fee.gas_limit ≡ false = ground (arith, h.0) in
      let amount : IsSendCoins cs = subst IsAmount e h.2 in
      rw
        (
          e,
          fee_try_from,
          convert_fee,
          small,
          all_zero-send_coins cs amount,
          payer_try_from-into_raw fee.payer h.1,
          send_coins_try_from-into_raw cs amount,
        )
        refl

  fee_try_from-none :
      (fee : Fee) → IsFee fee → fee.amount ≡ none → fee_try_from (fee_into_raw fee) ≡ done fee
  unfolding fee_try_from fee_into_raw amount_into_raw all_zero
  fee_try_from-none fee h e =
      let small : ltb max_gas_wanted fee.gas_limit ≡ false = ground (arith, h.0) in
      rw (e, fee_try_from, small, payer_try_from-into_raw fee.payer h.1) refl

  pub fee_try_from-into_raw : (fee : Fee) → IsFee fee → fee_try_from (fee_into_raw fee) ≡ done fee
  fee_try_from-into_raw fee h = elim (Option-cases fee.amount) [
    | inl e ↦ fee_try_from-none fee h e
    | inr (cs, e) ↦ fee_try_from-amount fee h cs e
  ]

  pub tip_try_from-into_raw : (tip : Tip) → IsTip tip → tip_try_from (tip_into_raw tip) ≡ done tip
  unfolding tip_try_from tip_into_raw amount_into_raw
  tip_try_from-into_raw tip (address, (cs, e, amount)) =
      rw
        (
          e,
          tip_try_from,
          address_try_from-to_string tip.tipper address,
          send_coins_try_from-into_raw cs amount,
        )
        refl

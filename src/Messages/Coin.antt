-- ===== src/Messages/Coin.antt =====
-- `Denom` of proto-types/src/denom.rs, and how `Coin` and `SendCoins` of
-- proto-messages/src/cosmos/base/v1beta1/coin.rs are read from the generated type.
use doge_sdk.Base.{
  ℕ, ◌^◌, ◌<◌, ◌≡◌, refl, Bool, true, false, ◌&&◌, ◌||◌, List, [], ◌∷◌, map, All, length, leb, ◌==◌,
  if◌then◌else◌,
}
use doge_sdk.Base.Bytes.{Bytes}
use doge_sdk.Base.Tried.{Tried, done, failed, ◌>>=◌, try_from, try_map, try_map-map}
use doge_sdk.Bank.Coin.{Coin, validate_coins, valid, invalid}
use doge_sdk.Messages.Crates.{Crates, IsLawful}
use doge_sdk.Messages.Key.{MessagesError, coin, coins}

pub record RawCoin : Type 0 where
  pub denom : Bytes
  pub amount : Bytes

unfoldable pub is_letter : ℕ → Bool
is_letter c = (leb 65 c && leb c 90) || (leb 97 c && leb c 122)

-- A letter, a digit, '/' or '-'.
unfoldable pub is_denom_char : ℕ → Bool
unfolding is_letter
is_denom_char c = is_letter c || (leb 48 c && leb c 57) || c == 47 || c == 45

abbrev pub all_denom_chars : Bytes → Bool
all_denom_chars [] = true
all_denom_chars (c ∷ cs) = is_denom_char c && all_denom_chars cs

-- A letter, and then 2 to 127 of the other characters.
unfoldable pub is_match : Bytes → Bool
unfolding is_denom_char is_letter
is_match [] = false
is_match (c ∷ cs) = is_letter c && all_denom_chars cs && leb 2 (length cs) && leb (length cs) 127

-- The error is `InvalidDenom`, which the one caller replaces.
unfoldable pub denom_try_from : Bytes → Tried MessagesError Bytes
unfolding is_match
denom_try_from v = if is_match v then done v else failed coin

unfoldable pub new : List Coin → Tried MessagesError (List Coin)
unfolding validate_coins
new cs = elim (validate_coins cs) [ valid ↦ done cs | invalid e ↦ failed (coins e) ]

module _ ⦃x : Crates⦄ where
  unfoldable pub coin_try_from : RawCoin → Tried MessagesError Coin
  unfolding denom_try_from
  coin_try_from raw = do
    denom ← denom_try_from raw.denom
    amount ← try_from (x.uint_from_str raw.amount) coin
    done (record { denom = denom; amount = amount })

  unfoldable pub coin_into_raw : Coin → RawCoin
  coin_into_raw c = record { denom = c.denom; amount = x.uint_to_string c.amount }

-- What a `Coin` holds.
abbrev pub IsCoin : Coin → Type 0
IsCoin c = (is_match c.denom ≡ true) × (c.amount < 2 ^ 256)

-- What a `SendCoins` holds.
abbrev pub IsSendCoins : List Coin → Type 0
IsSendCoins cs = (validate_coins cs ≡ valid) × All IsCoin cs

module _ ⦃x : Crates⦄ (law : IsLawful x) where
  coin_try_from-coin_into_raw : (c : Coin) → IsCoin c → coin_try_from (coin_into_raw c) ≡ done c
  unfolding coin_try_from coin_into_raw denom_try_from
  coin_try_from-coin_into_raw c h = rw (h.0, law.uint_from_str-to_string c.amount h.1) refl

  -- A list of coins is read back.
  pub coins_try_from-into_raw :
      (cs : List Coin) → All IsCoin cs → try_map coin_try_from (map coin_into_raw cs) ≡ done cs
  coins_try_from-into_raw cs h =
      try_map-map {P = IsCoin} coin_try_from coin_into_raw coin_try_from-coin_into_raw cs h

pub new-valid : (cs : List Coin) → validate_coins cs ≡ valid → new cs ≡ done cs
unfolding new
new-valid cs h = rw (new, h) refl

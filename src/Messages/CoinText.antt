-- ===== src/Messages/CoinText.antt =====
-- `Coin::from_str` of proto-messages/src/cosmos/base/v1beta1/coin.rs. A text is its bytes: a digit
-- that is not ASCII belongs to no amount and no denomination, so either way it is refused.
use doge_sdk.Base.{ℕ, ◌≡◌, refl, true, Bool, ◌&&◌, [], ◌∷◌, ◌++◌, leb, arith, if◌then◌else◌}
use doge_sdk.Base.Bytes.{Bytes}
use doge_sdk.Base.Tried.{Tried, done, ◌>>=◌, try_from}
use doge_sdk.Bank.Coin.{Coin}
use doge_sdk.Messages.Crates.{Crates, IsLawful}
use doge_sdk.Messages.Key.{MessagesError, coin}
use doge_sdk.Messages.Coin.{is_letter, is_match, denom_try_from, IsCoin}

abbrev pub is_digit : ℕ → Bool
is_digit c = leb 48 c && leb c 57

-- The digits before the first other character, and the rest.
unfoldable pub split_number : Bytes → Bytes × Bytes
split_number [] = ([], [])
split_number (c ∷ cs) =
    let parts = split_number cs in if is_digit c then (c ∷ parts.0, parts.1) else ([], c ∷ cs)

module _ ⦃x : Crates⦄ where
  unfoldable pub from_str : Bytes → Tried MessagesError Coin
  unfolding split_number denom_try_from
  from_str input = do
    amount ← try_from (x.uint_from_str (split_number input).0) coin
    denom ← denom_try_from (split_number input).1
    done (record { denom = denom; amount = amount })

abbrev pub all_digits : Bytes → Bool
all_digits [] = true
all_digits (c ∷ cs) = is_digit c && all_digits cs

-- A denomination begins with a letter.
split_number-denom : (denom : Bytes) → is_match denom ≡ true → split_number denom ≡ ([], denom)
unfolding split_number is_match is_letter
split_number-denom [] h = refl
split_number-denom (c ∷ cs) h = ground (arith, h)

split_number-append :
    (digits denom : Bytes)
    → all_digits digits ≡ true
    → is_match denom ≡ true
    → split_number (digits ++ denom) ≡ (digits, denom)
unfolding split_number
split_number-append [] denom a h = split_number-denom denom h
split_number-append (c ∷ cs) denom a h =
    let own : is_digit c ≡ true = ground (arith, a) in
    let rest : all_digits cs ≡ true = ground (arith, a) in
    rw (split_number-append cs denom rest h, own) refl

-- The text of an amount, if it has digits only, followed by a denomination is read as the coin.
pub from_str-text :
    ⦃x : Crates⦄
    → IsLawful x
    → (c : Coin) → IsCoin c
    → all_digits (x.uint_to_string c.amount) ≡ true
    → from_str (x.uint_to_string c.amount ++ c.denom) ≡ done c
unfolding from_str denom_try_from
from_str-text ⦃x⦄ law c h digits =
    rw
      (
        from_str,
        split_number-append (x.uint_to_string c.amount) c.denom digits h.0,
        law.uint_from_str-to_string c.amount h.1,
        h.0,
      )
      refl

-- ===== src/Bank/Coin.antt =====
-- `Coin` and `SendCoins` of proto-messages/src/cosmos/base/v1beta1/coin.rs. A denomination is the
-- bytes of its string.
use doge_sdk.Base.{
  ℕ, ◌<◌, ◌≡◌, refl, false, List, [], ◌∷◌, All, All-imp, length, ◌↔◌, arith, ◌==◌, if◌then◌else◌,
}
use doge_sdk.Base.Bytes.{Bytes, ◌≺◌, le_bytes, lt_of_gt, gt_of_lt, lt_trans}

pub record Coin : Type 0 where
  pub denom : Bytes
  pub amount : ℕ

-- Why a list of coins is refused.
pub data CoinsError : Type 0 where
  empty not_positive not_sorted : CoinsError

pub data Validated : Type 0 where
  valid : Validated
  invalid : CoinsError → Validated

-- The loop over the coins that follow the first.
unfoldable pub validate_rest : Bytes → List Coin → Validated
validate_rest previous_denom [] = valid
validate_rest previous_denom (coin ∷ coins) =
    let rest = validate_rest coin.denom coins in
    if coin.amount == 0
    then invalid not_positive
    else if le_bytes coin.denom previous_denom
    then invalid not_sorted
    else rest

unfoldable pub validate_coins : List Coin → Validated
unfolding validate_rest
validate_coins [] = invalid empty
validate_coins (coin ∷ coins) =
    if coin.amount == 0 then invalid not_positive else validate_rest coin.denom coins

-- Every amount is positive, and every denomination is below all that follow it.
abbrev pub IsAscending : List Coin → Type 0
IsAscending [] = Unit
IsAscending (coin ∷ coins) = All (λ c. coin.denom ≺ c.denom) coins × IsAscending coins

abbrev pub IsPositive : List Coin → Type 0
IsPositive = All (λ c. 0 < c.amount)

-- A denomination below the first of an ascending list is below all of it.
Above-head :
    (d : Bytes) (coin : Coin) (coins : List Coin)
    → d ≺ coin.denom
    → All (λ c. coin.denom ≺ c.denom) coins
    → All (λ c. d ≺ c.denom) coins
Above-head d coin coins h =
    All-imp (λ c. coin.denom ≺ c.denom) (λ c. d ≺ c.denom)
      (λ c p. lt_trans d coin.denom c.denom h p) coins

lt_of_not_le : (a b : Bytes) → le_bytes a b ≡ false → b ≺ a
lt_of_not_le a b h = ground (arith, lt_of_gt a b)

not_le_of_lt : (a b : Bytes) → b ≺ a → le_bytes a b ≡ false
not_le_of_lt a b h = ground (arith, gt_of_lt b a h)

validate_rest_sound :
    (d : Bytes) (coins : List Coin)
    → validate_rest d coins ≡ valid
    → IsPositive coins × IsAscending coins × All (λ c. d ≺ c.denom) coins
unfolding validate_rest
validate_rest_sound d [] h = (tt, tt, tt)
validate_rest_sound d (coin ∷ coins) h =
    let positive : 0 < coin.amount = ground arith in
    let above : le_bytes coin.denom d ≡ false = ground arith in
    let (p, a, b) = validate_rest_sound coin.denom coins (ground arith) in
    let low = lt_of_not_le coin.denom d above in
    ((positive, p), (b, a), (low, Above-head d coin coins low b))

validate_rest_complete :
    (d : Bytes) (coins : List Coin)
    → IsPositive coins
    → IsAscending coins
    → All (λ c. d ≺ c.denom) coins
    → validate_rest d coins ≡ valid
unfolding validate_rest
validate_rest_complete d [] p a b = refl
validate_rest_complete d (coin ∷ coins) p a b =
    ground (
      arith,
      p.0,
      not_le_of_lt coin.denom d b.0,
      validate_rest_complete coin.denom coins p.1 a.1 a.0,
    )

-- A list of coins is accepted if and only if it is not empty, every amount is positive and the
-- denominations ascend strictly, so that none occurs twice.
pub validate_coins-eq-valid :
    (coins : List Coin)
    → validate_coins coins ≡ valid ↔ (0 < length coins) × IsPositive coins × IsAscending coins
unfolding validate_coins
validate_coins-eq-valid [] = (λ h. cc, λ (n, _, _). absurd (omega arith))
validate_coins-eq-valid (coin ∷ coins) = (
  λ h.
      let positive : 0 < coin.amount = ground arith in
      let (p, a, b) = validate_rest_sound coin.denom coins (ground arith) in
      (omega arith, (positive, p), (b, a)),
  λ (n, p, a). ground (arith, p.0, validate_rest_complete coin.denom coins p.1 a.1 a.0),
)

-- ===== src/Base/Decimal.antt =====
-- `to_string` and `parse` of a `u64` in the standard library.
use Prim.Native.Nat.{ℕ, zero, suc, ◌+◌, ◌-◌, ◌*◌, ◌/◌, ◌%◌, ◌^◌, ◌<◌, ◌≤◌}
use mathlib.Core.Path.{◌≡◌, refl, sym, ap, ◌∙◌}
use mathlib.Core.Logic.{◌≢◌, inl, inr}
use mathlib.Core.Bool.{◌&&◌}
use mathlib.Core.Option.{Option, none, some}
use mathlib.Core.List.{[], ◌∷◌, ◌++◌, reverse, reverse-append}
use native.Mathlib.Nat.{pow-suc}
use native.Mathlib.Omega.{arith}
use doge_sdk.Base.Tests.{ltb, leb, ◌==◌, if◌then◌else◌, Bool-cases}
use doge_sdk.Base.Bytes.{Bytes}

-- The digits, the last one first; `fuel` bounds how many there are.
unfoldable pub digits : ℕ → ℕ → Bytes
digits zero n = []
digits (suc fuel) n =
    let rest = digits fuel (n / 10) in if ltb n 10 then (48 + n) ∷ [] else (48 + n % 10) ∷ rest

-- A `u64` has at most 20 digits.
unfoldable pub to_string : ℕ → Bytes
unfolding digits
to_string n = reverse (digits 20 n)

abbrev step : Option ℕ → ℕ → Option ℕ
step none b = none
step (some acc) b =
    if leb 48 b && leb b 57
    then (if ltb (acc * 10 + (b - 48)) (2 ^ 64) then some (acc * 10 + (b - 48)) else none)
    else none

unfoldable pub parse_digits : Option ℕ → Bytes → Option ℕ
parse_digits acc [] = acc
parse_digits acc (b ∷ bs) = parse_digits (step acc b) bs

-- One plus sign may come first; there must be a digit.
unfoldable pub parse : Bytes → Option ℕ
unfolding parse_digits
parse [] = none
parse (b ∷ []) = parse_digits (some 0) (b ∷ [])
parse (b ∷ c ∷ bs) =
    if b == 43 then parse_digits (some 0) (c ∷ bs) else parse_digits (some 0) (b ∷ c ∷ bs)

parse_digits-snoc :
    (acc : Option ℕ) (bs : Bytes) (b : ℕ)
    → parse_digits acc (bs ++ b ∷ []) ≡ step (parse_digits acc bs) b
unfolding parse_digits
parse_digits-snoc acc [] b = refl
parse_digits-snoc acc (c ∷ bs) b = parse_digits-snoc (step acc c) bs b

step-digit :
    (acc d : ℕ) → d < 10 → acc * 10 + d < 2 ^ 64 → step (some acc) (48 + d) ≡ some (acc * 10 + d)
step-digit acc d h w = let cut : 48 + d - 48 ≡ d = omega arith in rw cut (ground arith)

fuel_left : (fuel n : ℕ) → n < 10 ^ suc fuel → 10 ≤ n → (0 < fuel) × (n / 10 < 10 ^ fuel)
fuel_left zero n h l = absurd (omega (arith, pow-suc 10 0))
fuel_left (suc fuel) n h l = (omega arith, omega (arith, pow-suc 10 (suc fuel)))

parse_digits-digits :
    (fuel n : ℕ)
    → n < 10 ^ fuel
    → 0 < fuel
    → n < 2 ^ 64
    → parse_digits (some 0) (reverse (digits fuel n)) ≡ some n
unfolding digits parse_digits
parse_digits-digits zero n h p w = absurd (omega arith)
parse_digits-digits (suc fuel) n h p w = elim (Bool-cases (ltb n 10)) [
  | inl s ↦ rw s (step-digit 0 n (ground arith) (omega arith) ∙ ap some (omega arith))
  | inr s ↦
      let (positive, bound) = fuel_left fuel n h (ground arith) in
      let whole : n / 10 * 10 + n % 10 ≡ n = omega arith in
      let before = parse_digits-digits fuel (n / 10) bound positive (omega arith) in
      rw
        (
          s,
          reverse-append ((48 + n % 10) ∷ []) (digits fuel (n / 10)),
          parse_digits-snoc (some 0) (reverse (digits fuel (n / 10))) (48 + n % 10),
          before,
        )
        (step-digit (n / 10) (n % 10) (omega arith) (omega arith) ∙ ap some whole)
]

parse_digits-none : (bs : Bytes) → parse_digits none bs ≡ none
unfolding parse_digits
parse_digits-none [] = refl
parse_digits-none (b ∷ bs) = parse_digits-none bs

plus_no_digit : (b : ℕ) (bs : Bytes) (n : ℕ) → b ≡ 43 → parse_digits (some 0) (b ∷ bs) ≢ some n
unfolding parse_digits
plus_no_digit b bs n e h = cc (parse_digits-none bs, rw e at h)

parse_of_digits :
    (b : ℕ) (bs : Bytes) (n : ℕ) → parse_digits (some 0) (b ∷ bs) ≡ some n → parse (b ∷ bs) ≡ some n
unfolding parse parse_digits
parse_of_digits b [] n h = h
parse_of_digits b (c ∷ bs) n h = elim (Bool-cases (b == 43)) [
  | inl e ↦ absurd (plus_no_digit b (c ∷ bs) n (ground arith) h)
  | inr e ↦ ground (arith, e, h)
]

snoc_cons : (xs : Bytes) (y : ℕ) → (b : ℕ) × (bs : Bytes) × (xs ++ y ∷ [] ≡ b ∷ bs)
snoc_cons [] y = (y, [], refl)
snoc_cons (x ∷ xs) y = (x, xs ++ y ∷ [], refl)

digits_cons : (fuel n : ℕ) → (b : ℕ) × (bs : Bytes) × (reverse (digits (suc fuel) n) ≡ b ∷ bs)
unfolding digits
digits_cons fuel n = elim (Bool-cases (ltb n 10)) [
  | inl s ↦ (48 + n, [], rw s refl)
  | inr s ↦
      let (b, bs, e) = snoc_cons (reverse (digits fuel (n / 10))) (48 + n % 10) in
      (b, bs, rw s (reverse-append ((48 + n % 10) ∷ []) (digits fuel (n / 10)) ∙ e))
]

-- A `u64` is read back from its text.
pub parse-to_string : (n : ℕ) → n < 2 ^ 64 → parse (to_string n) ≡ some n
unfolding to_string
parse-to_string n h =
    let (b, bs, e) = digits_cons 19 n in
    rw e (
      parse_of_digits b bs n (
        sym (ap (parse_digits (some 0)) e)
        ∙ parse_digits-digits 20 n (omega arith) (omega arith) h))

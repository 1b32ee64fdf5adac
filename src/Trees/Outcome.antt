-- ===== src/Trees/Outcome.antt =====
-- trees/src/error.rs, and what a call may end in. `panic` is an `expect`, an `unwrap` or an index
-- out of range; `out_of_fuel` is the model's own, where a recursion follows hashes into the
-- database and not the structure of a value.
use doge_sdk.Base.{◌≡◌, refl, Option, none, some}

pub data Error : Type 0 where
  rotate_error version_not_found node_deserialize overwrite : Error

pub data Outcome {ℓ} (A : Type ℓ) : Type ℓ where
  ok : A → Outcome A
  err : Error → Outcome A
  panic : Outcome A
  out_of_fuel : Outcome A

infixl 5 ◌>>=◌
abbrev pub ◌>>=◌ {ℓ κ} : {A : Type ℓ} {B : Type κ} → Outcome A → (A → Outcome B) → Outcome B
ok a >>= f = f a
err e >>= f = err e
panic >>= f = panic
out_of_fuel >>= f = out_of_fuel

-- `.expect(…)` on an option and on a result.
abbrev pub expect {ℓ} : {A : Type ℓ} → Option A → Outcome A
expect none = panic
expect (some a) = ok a

abbrev pub expect_ok {ℓ} : {A : Type ℓ} → Outcome A → Outcome A
expect_ok (err e) = panic
expect_ok r = r

-- `.ok_or(…)?`
abbrev pub ok_or {ℓ} : {A : Type ℓ} → Option A → Error → Outcome A
ok_or none e = err e
ok_or (some a) e = ok a

-- A call that returned came through each of its steps.
pub bind-eq-ok {ℓ κ} :
    {A : Type ℓ} {B : Type κ} (m : Outcome A) (f : A → Outcome B) {b : B}
    → (m >>= f) ≡ ok b
    → (a : A) × (m ≡ ok a) × (f a ≡ ok b)
bind-eq-ok (ok a) f h = (a, refl, h)
bind-eq-ok (err e) f h = cc
bind-eq-ok panic f h = cc
bind-eq-ok out_of_fuel f h = cc

pub expect_ok-eq-ok {ℓ} : {A : Type ℓ} (m : Outcome A) {a : A} → expect_ok m ≡ ok a → m ≡ ok a
expect_ok-eq-ok (ok x) h = h
expect_ok-eq-ok (err e) h = cc
expect_ok-eq-ok panic h = cc
expect_ok-eq-ok out_of_fuel h = cc

pub ok-injective {ℓ} : {A : Type ℓ} {a b : A} → ok a ≡ ok b → a ≡ b
ok-injective h = cc

-- ===== src/Base/Tried.antt =====
-- `Result<A, E>` of the standard library.
use mathlib.Core.Path.{◌≡◌, refl}
use mathlib.Core.Logic.{◌⊎◌, inl, inr}
use mathlib.Core.Option.{Option, none, some}
use mathlib.Core.List.{List, [], ◌∷◌, map}
use doge_sdk.Base.Lists.{All}
use doge_sdk.Base.Tests.{if◌then◌else◌}
use mathlib.Core.Bool.{Bool, true, false}

pub data Tried {ℓ} (E A : Type ℓ) : Type ℓ where
  done : A → Tried E A
  failed : E → Tried E A

-- The `?` operator.
infixl 5 ◌>>=◌
abbrev pub ◌>>=◌ : {E A B : Type 0} → Tried E A → (A → Tried E B) → Tried E B
done a >>= f = f a
failed e >>= f = failed e

-- `ok_or`, and `map_err` of a result whose error is dropped.
abbrev pub try_from {ℓ} : {E A : Type ℓ} → Option A → E → Tried E A
try_from none e = failed e
try_from (some a) e = done a

-- `collect` of an iterator over results: the first error ends it.
abbrev pub try_map {ℓ} : {E A B : Type ℓ} → (A → Tried E B) → List A → Tried E (List B)
try_map f [] = done []
try_map f (x ∷ xs) = elim (f x) [
  | done b ↦ elim (try_map f xs) [ done bs ↦ done (b ∷ bs) | failed e ↦ failed e ]
  | failed e ↦ failed e
]

pub Tried-cases :
    {E A : Type 0} (t : Tried E A) → ((a : A) × (t ≡ done a)) ⊎ ((e : E) × (t ≡ failed e))
Tried-cases (done a) = inl (a, refl)
Tried-cases (failed e) = inr (e, refl)

-- A conversion that undoes another one for each element does so for the list.
pub try_map-map :
    {E A B : Type 0} {P : A → Type 0} (f : B → Tried E A) (g : A → B)
    → ((a : A) → P a → f (g a) ≡ done a)
    → (xs : List A) → All P xs
    → try_map f (map g xs) ≡ done xs
try_map-map f g h [] p = refl
try_map-map {P} f g h (x ∷ xs) p = rw (map, try_map, h x p.0, try_map-map {P = P} f g h xs p.1) refl

pub try_map-map_each :
    {E A B : Type 0} (f : B → Tried E A) (g : A → B)
    → ((a : A) → f (g a) ≡ done a)
    → (xs : List A) → try_map f (map g xs) ≡ done xs
try_map-map_each f g h [] = refl
try_map-map_each f g h (x ∷ xs) = rw (map, try_map, h x, try_map-map_each f g h xs) refl

-- A result that a chain of two gives comes from a result of the first.
pub bind-eq-done :
    {E A B : Type 0} (t : Tried E A) (f : A → Tried E B) (b : B)
    → (t >>= f) ≡ done b
    → (a : A) × (t ≡ done a) × (f a ≡ done b)
bind-eq-done (done a) f b h = (a, refl, h)
bind-eq-done (failed e) f b h = cc

pub guard-eq-done :
    {E A : Type 0} (b : Bool) (t : Tried E A) (e : E) (a : A)
    → (if b then t else failed e) ≡ done a
    → (b ≡ true) × (t ≡ done a)
guard-eq-done true t e a h = (refl, h)
guard-eq-done false t e a h = cc h

pub done-injective : {E A : Type 0} {a b : A} → ◌≡◌ {A = Tried E A} (done a) (done b) → a ≡ b
done-injective h = cc h

pub try_from-eq-done :
    {E A : Type 0} (o : Option A) (e : E) (a : A) → try_from o e ≡ done a → o ≡ some a
try_from-eq-done none e a h = cc
try_from-eq-done (some b) e a h = cc

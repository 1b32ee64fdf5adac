-- ===== src/Base/Bytes.antt =====
-- `Vec<u8>` as a list of numbers, and its derived order: lexicographic, a prefix first.
use Prim.Native.Nat.{ℕ, compare, Ordering}
use Prim.Native.Nat.Ordering.{lt, eq, gt}
use mathlib.Core.Path.{◌≡◌, refl}
use mathlib.Core.Logic.{◌≢◌, ◌⊎◌, inl, inr}
use mathlib.Core.Bool.{Bool, true, false}
use mathlib.Core.List.{List, [], ◌∷◌}
use native.Mathlib.Omega.{arith}

abbrev pub Bytes : Type 0
Bytes = List ℕ

unfoldable pub cmp : Bytes → Bytes → Ordering
cmp [] [] = eq
cmp [] (y ∷ ys) = lt
cmp (x ∷ xs) [] = gt
cmp (x ∷ xs) (y ∷ ys) = elim (compare x y) [ lt ↦ lt | eq ↦ cmp xs ys | gt ↦ gt ]

-- `a < b` and `a == b` on byte strings.
abbrev pub lt_bytes : Bytes → Bytes → Bool
lt_bytes a b = elim (cmp a b) [ lt ↦ true | _ ↦ false ]

abbrev pub le_bytes : Bytes → Bytes → Bool
le_bytes a b = elim (cmp a b) [ gt ↦ false | _ ↦ true ]

abbrev pub eq_bytes : Bytes → Bytes → Bool
eq_bytes a b = elim (cmp a b) [ eq ↦ true | _ ↦ false ]

infix 50 ◌≺◌ ◌≼◌
abbrev pub ◌≺◌ : Bytes → Bytes → Type 0
a ≺ b = cmp a b ≡ lt

abbrev pub ◌≼◌ : Bytes → Bytes → Type 0
a ≼ b = cmp a b ≢ gt

pub cmp_refl : (a : Bytes) → cmp a a ≡ eq
unfolding cmp
cmp_refl [] = refl
cmp_refl (x ∷ xs) = ground (arith, cmp_refl xs)

pub eq_of_cmp : (a b : Bytes) → cmp a b ≡ eq → a ≡ b
unfolding cmp
eq_of_cmp [] [] h = refl
eq_of_cmp [] (y ∷ ys) h = cc
eq_of_cmp (x ∷ xs) [] h = cc
eq_of_cmp (x ∷ xs) (y ∷ ys) h = ground (arith, eq_of_cmp xs ys)

pub lt_of_gt : (a b : Bytes) → cmp a b ≡ gt → cmp b a ≡ lt
unfolding cmp
lt_of_gt [] [] h = cc
lt_of_gt [] (y ∷ ys) h = cc
lt_of_gt (x ∷ xs) [] h = refl
lt_of_gt (x ∷ xs) (y ∷ ys) h = ground (arith, lt_of_gt xs ys)

pub gt_of_lt : (a b : Bytes) → cmp a b ≡ lt → cmp b a ≡ gt
unfolding cmp
gt_of_lt [] [] h = cc
gt_of_lt [] (y ∷ ys) h = refl
gt_of_lt (x ∷ xs) [] h = cc
gt_of_lt (x ∷ xs) (y ∷ ys) h = ground (arith, gt_of_lt xs ys)

pub lt_trans : (a b c : Bytes) → a ≺ b → b ≺ c → a ≺ c
unfolding cmp
lt_trans [] [] c h k = cc
lt_trans [] (y ∷ ys) [] h k = cc
lt_trans [] (y ∷ ys) (z ∷ zs) h k = refl
lt_trans (x ∷ xs) [] c h k = cc
lt_trans (x ∷ xs) (y ∷ ys) [] h k = cc
lt_trans (x ∷ xs) (y ∷ ys) (z ∷ zs) h k = ground (arith, lt_trans xs ys zs)

-- `a` is below `b`, equal to it, or above it.
pub cmp-cases : (a b : Bytes) → (a ≺ b) ⊎ ((a ≡ b) ⊎ (b ≺ a))
cmp-cases a b = go (cmp a b) refl
  where
    go : (o : Ordering) → cmp a b ≡ o → (a ≺ b) ⊎ ((a ≡ b) ⊎ (b ≺ a))
    go lt e = inl e
    go eq e = inr (inl (eq_of_cmp a b e))
    go gt e = inr (inr (lt_of_gt a b e))

pub lt-le_trans : (a b c : Bytes) → a ≺ b → b ≼ c → a ≺ c
lt-le_trans a b c h k = elim (cmp-cases b c) [
  | inl p ↦ lt_trans a b c h p
  | inr (inl e) ↦ rw (← e) h
  | inr (inr q) ↦ absurd (k (gt_of_lt c b q))
]

pub le_of_lt : (a b : Bytes) → a ≺ b → a ≼ b
le_of_lt a b h k = cc

pub le_refl : (a : Bytes) → a ≼ a
le_refl a k = cc (cmp_refl a)

pub lt_bytes→lt : (a b : Bytes) → lt_bytes a b ≡ true → a ≺ b
lt_bytes→lt a b h = ground arith

pub ge_of_not_lt : (a b : Bytes) → lt_bytes a b ≡ false → b ≼ a
ge_of_not_lt a b h k = ground (arith, lt_of_gt b a k)

pub eq_bytes_comm : (a b : Bytes) → eq_bytes a b ≡ eq_bytes b a
unfolding cmp
eq_bytes_comm [] [] = refl
eq_bytes_comm [] (y ∷ ys) = refl
eq_bytes_comm (x ∷ xs) [] = refl
eq_bytes_comm (x ∷ xs) (y ∷ ys) = ground (arith, eq_bytes_comm xs ys)

pub le-lt_trans : (a b c : Bytes) → a ≼ b → b ≺ c → a ≺ c
le-lt_trans a b c h k = elim (cmp-cases a b) [
  | inl p ↦ lt_trans a b c p k
  | inr (inl e) ↦ rw e k
  | inr (inr q) ↦ absurd (h (gt_of_lt b a q))
]

pub lt_bytes_above : (a b : Bytes) → a ≺ b → lt_bytes b a ≡ false
lt_bytes_above a b h = ground (arith, gt_of_lt a b h)

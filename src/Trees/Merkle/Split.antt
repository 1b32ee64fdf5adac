-- ===== src/Trees/Merkle/Split.antt =====
-- The split point and the root of trees/src/merkle.rs.
use doge_sdk.Base.{
  length-take, length-drop, ℕ, zero, suc, ◌*◌, ◌/◌, ◌^◌, ◌≤◌, ◌<◌, ◌≡◌, refl, ap, ◌∙◌, List, [],
  ◌∷◌, length, take, drop, arith, ◌==◌, ltb, Bool-cases, true, false, inl, inr, if◌then◌else◌,
}
use doge_sdk.Base.Bytes.{Bytes}
use doge_sdk.Trees.External.{External}
use doge_sdk.Trees.Outcome.{ok}
use doge_sdk.Trees.Merkle.{empty_hash, leaf_hash, inner_hash, ilog2, get_split_point, root_hash}

lt_of_ltb : (a b : ℕ) → ltb a b ≡ true → a < b
lt_of_ltb a b h = ground arith

ge_of_ltb : (a b : ℕ) → ltb a b ≡ false → b ≤ a
ge_of_ltb a b h = ground arith

-- The power of two below a number, not twice as far away.
pow_ilog2 :
    (bits n : ℕ) → 0 < n → n < 2 ^ suc bits → (2 ^ ilog2 bits n ≤ n) × (n < 2 ^ suc (ilog2 bits n))
unfolding ilog2
pow_ilog2 zero n p h = (omega arith, h)
pow_ilog2 (suc bits) n p h = elim (Bool-cases (ltb n (2 ^ suc bits))) [
  | inl t ↦ rw (t, ilog2) (pow_ilog2 bits n p (lt_of_ltb n (2 ^ suc bits) t))
  | inr f ↦ rw (f, ilog2) (ge_of_ltb n (2 ^ suc bits) f, h)
]

split_point-eq :
    (n : ℕ) → 0 < n → get_split_point n ≡ ok (let k = 2 ^ ilog2 63 n in if k == n then k / 2 else k)
unfolding get_split_point
split_point-eq zero p = absurd (omega arith)
split_point-eq (suc n) p = refl

eq_of_test : (a b : ℕ) → (a == b) ≡ true → a ≡ b
eq_of_test a b h = ground arith

ne_of_test : (a b : ℕ) → (a == b) ≡ false → a ≤ b → a < b
ne_of_test a b h k = ground arith

half : (m : ℕ) → 2 * m / 2 ≡ m
half m = omega arith

split_exact :
    (e n : ℕ)
    → 1 < n
    → 2 ^ e ≡ n
    → (e' : ℕ) × (2 ^ e / 2 ≡ 2 ^ e') × (2 ^ e' < n) × (n ≤ 2 * 2 ^ e')
split_exact zero n p h = absurd (omega arith)
split_exact (suc e) n p h =
    let twice : 2 ^ suc e ≡ 2 * 2 ^ e = omega arith in
    (e, rw twice (half (2 ^ e)), omega (arith, twice), omega (arith, twice))

-- A list of at least two items, with a length in 64 bits, is split at a power of two, the largest
-- below its length: the first part is not the whole and has at least half of the items.
pub get_split_point-bounds :
    (n : ℕ)
    → 1 < n
    → n < 2 ^ 64
    → (e : ℕ) × (get_split_point n ≡ ok (2 ^ e)) × (2 ^ e < n) × (n ≤ 2 * 2 ^ e)
get_split_point-bounds n p h =
    let e = ilog2 63 n in
    let (low, high) = pow_ilog2 63 n (omega arith) h in
    elim (Bool-cases (2 ^ e == n)) [
      | inl t ↦
          let (e', half_eq, low', high') = split_exact e n p (eq_of_test (2 ^ e) n t) in
          (e', split_point-eq n (omega arith) ∙ rw t (ap ok half_eq), low', high')
      | inr f ↦ (
        e,
        split_point-eq n (omega arith) ∙ rw f refl,
        ne_of_test (2 ^ e) n f low,
        omega (arith, high),
      )
    ]

module _ ⦃x : External⦄ where
  root_hash_step :
      (fuel k : ℕ) (a b : Bytes) (items : List Bytes) (left right : Bytes)
      → get_split_point (length (a ∷ b ∷ items)) ≡ ok k
      → root_hash fuel (take k (a ∷ b ∷ items)) ≡ ok left
      → root_hash fuel (drop k (a ∷ b ∷ items)) ≡ ok right
      → root_hash (suc fuel) (a ∷ b ∷ items) ≡ ok (inner_hash left right)
  unfolding root_hash
  root_hash_step fuel k a b items left right e l r = ground (arith, e, l, r)

  -- The root of a list whose length fits 64 bits is computed: fuel for one more than its length is
  -- enough.
  pub root_hash-returns :
      (fuel : ℕ) (items : List Bytes)
      → length items < fuel
      → length items < 2 ^ 64
      → (hash : Bytes) × (root_hash fuel items ≡ ok hash)
  root_hash-returns zero items h w = absurd (omega arith)
  root_hash-returns (suc fuel) [] h w = (empty_hash, unfold root_hash in refl)
  root_hash-returns (suc fuel) (item ∷ []) h w = (leaf_hash item, unfold root_hash in refl)
  root_hash-returns (suc fuel) (a ∷ b ∷ items) h w =
      let all : List Bytes = a ∷ b ∷ items in
      let (e, point, low, high) = get_split_point-bounds (length all) (omega arith) w in
      let k = 2 ^ e in
      let taken = length-take k all in
      let dropped = length-drop k all in
      let (left, l) = root_hash-returns fuel (take k all) (omega arith) (omega arith) in
      let (right, r) = root_hash-returns fuel (drop k all) (omega arith) (omega arith) in
      (inner_hash left right, root_hash_step fuel k a b items left right point l r)

-- ===== src/Trees/Merkle.antt =====
-- trees/src/merkle.rs: the Merkle root of a list. The recursion splits the list, so it takes fuel:
-- one more than the length of the list.
pub mod Split
use doge_sdk.Base.{
  length-take, length-drop, ℕ, zero, suc, ◌+◌, ◌*◌, ◌/◌, ◌^◌, ◌≤◌, ◌<◌, ◌≡◌, refl, ap, ◌∙◌, List,
  [], ◌∷◌, ◌++◌, length, take, drop, arith, ◌==◌, ltb, leb, Bool-cases, true, false, inl, inr,
  if◌then◌else◌,
}
use doge_sdk.Base.Bytes.{Bytes}
use doge_sdk.Trees.External.{External}
use doge_sdk.Trees.Outcome.{Outcome, ok, panic, out_of_fuel, ◌>>=◌}

-- The digest of the empty string.
abbrev pub empty_hash : Bytes
empty_hash =
    227 ∷ 176 ∷ 196 ∷ 66 ∷ 152 ∷ 252 ∷ 28 ∷ 20 ∷ 154 ∷ 251 ∷ 244 ∷ 200 ∷ 153 ∷ 111 ∷ 185 ∷ 36 ∷ 39
    ∷ 174 ∷ 65 ∷ 228 ∷ 100 ∷ 155 ∷ 147 ∷ 76 ∷ 164 ∷ 149 ∷ 153 ∷ 27 ∷ 120 ∷ 82 ∷ 184 ∷ 85 ∷ []

module _ ⦃x : External⦄ where
  unfoldable pub leaf_hash : Bytes → Bytes
  leaf_hash leaf = x.sha256 (0 ∷ leaf)

  unfoldable pub inner_hash : Bytes → Bytes → Bytes
  inner_hash left right = x.sha256 (1 ∷ (left ++ right))

-- `ilog2` of a positive number below 2 ^ bits.
unfoldable pub ilog2 : ℕ → ℕ → ℕ
ilog2 zero n = 0
ilog2 (suc bits) n = if ltb n (2 ^ suc bits) then ilog2 bits n else suc bits

-- A `usize` has 64 bits.
unfoldable pub get_split_point : ℕ → Outcome ℕ
unfolding ilog2
get_split_point zero = panic
get_split_point (suc n) = let k = 2 ^ ilog2 63 (suc n) in ok (if k == suc n then k / 2 else k)

module _ ⦃x : External⦄ where
  unfoldable pub root_hash : ℕ → List Bytes → Outcome Bytes
  unfolding leaf_hash inner_hash
  root_hash zero items = out_of_fuel
  root_hash (suc fuel) [] = ok empty_hash
  root_hash (suc fuel) (item ∷ []) = ok (leaf_hash item)
  root_hash (suc fuel) (a ∷ b ∷ items) = do
    k ← get_split_point (length (a ∷ b ∷ items))
    left ← root_hash fuel (take k (a ∷ b ∷ items))
    right ← root_hash fuel (drop k (a ∷ b ∷ items))
    ok (inner_hash left right)

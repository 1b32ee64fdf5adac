-- ===== src/Trees/Iavl/Balance.antt =====
-- A tree with every child in memory as a node of the program, the fields that a node caches of
-- its children, and the balance of the heights.
use doge_sdk.Base.{inl, inr, ◌⊎◌, ◌∙◌, ℕ, zero, suc, ◌+◌, ◌*◌, ◌^◌, ◌≤◌, ◌<◌, ◌≡◌, refl, max, arith}
use doge_sdk.Trees.External.{External}
use doge_sdk.Trees.Iavl.Node.{Node, loaded, hash, get_height}
use doge_sdk.Trees.Iavl.Rotate.{joined_height, joined_size}
use doge_sdk.Trees.Iavl.Shape.{Shape, leaf, node}

abbrev pub in_memory : Shape → Node
in_memory (leaf key value version) = Node.leaf key value version
in_memory (node m l r) = Node.inner (loaded (in_memory l)) (loaded (in_memory r)) m

-- The height that the tree's root holds, and the number of leaves.
abbrev pub height : Shape → ℕ
height (leaf key value version) = 0
height (node m l r) = m.height

abbrev pub leaves : Shape → ℕ
leaves (leaf key value version) = 1
leaves (node m l r) = leaves l + leaves r

-- The fields of each node agree with its children: height, size and hashes.
abbrev pub IsCached : ⦃x : External⦄ → Shape → Type 0
IsCached (leaf key value version) = Unit
IsCached (node m l r) =
    (m.height ≡ joined_height (in_memory l) (in_memory r))
    × (m.size ≡ joined_size (in_memory l) (in_memory r))
    × (m.left_hash ≡ hash (in_memory l))
    × (m.right_hash ≡ hash (in_memory r))
    × IsCached l
    × IsCached r

-- Sibling heights differ by one at most.
abbrev pub IsBalanced : Shape → Type 0
IsBalanced (leaf key value version) = Unit
IsBalanced (node m l r) =
    (height l ≤ height r + 1) × (height r ≤ height l + 1) × IsBalanced l × IsBalanced r

pub get_height-in_memory : (t : Shape) → get_height (in_memory t) ≡ height t
unfolding get_height
get_height-in_memory (leaf key value version) = refl
get_height-in_memory (node m l r) = refl

-- A height that does not reach the end of the byte is one more than that of the higher child.
pub height-joined :
    (l r : Shape)
    → height l < 255
    → height r < 255
    → joined_height (in_memory l) (in_memory r) ≡ suc (max (height l) (height r))
unfolding joined_height
height-joined l r hl hr = omega (arith, get_height-in_memory l, get_height-in_memory r)

compare-cases : (h k : ℕ) → h ≤ suc k → (h ≡ suc k) ⊎ (h ≤ k)
compare-cases h k p = omega arith

le-cases : (a b : ℕ) → (a ≤ b) ⊎ (b ≤ a)
le-cases a b = omega arith

pub lt-cases : (a b : ℕ) → (a ≤ b) ⊎ (b < a)
lt-cases a b = omega arith

-- 2 ^ (h / 2).
abbrev pub pow_half : ℕ → ℕ
pow_half zero = 1
pow_half (suc zero) = 1
pow_half (suc (suc h)) = 2 * pow_half h

pow_half-suc : (h : ℕ) → pow_half h ≤ pow_half (suc h)
pow_half-suc zero = omega arith
pow_half-suc (suc zero) = omega arith
pow_half-suc (suc (suc h)) = omega (arith, pow_half-suc h)

pow_half-le : (h k : ℕ) → h ≤ k → pow_half h ≤ pow_half k
pow_half-le h zero p = let e : h ≡ 0 = omega arith in rw e (omega arith)
pow_half-le h (suc k) p = elim (compare-cases h k p) [
  | inl e ↦ rw e (omega arith)
  | inr q ↦ omega (arith, pow_half-le h k q, pow_half-suc k)
]

pow_half-pair :
    (a b p q : ℕ) → a ≤ b → b ≤ a + 1 → pow_half a ≤ p → pow_half b ≤ q → pow_half (suc b) ≤ p + q
pow_half-pair a zero p q h k u v = omega arith
pow_half-pair a (suc b) p q h k u v = omega (arith, pow_half-le b a (omega arith), pow_half-suc b)

-- Two children whose heights differ by one at most: each has half of what the node needs.
pow_half-node :
    (a b p q : ℕ)
    → a ≤ b + 1
    → b ≤ a + 1
    → pow_half a ≤ p
    → pow_half b ≤ q
    → pow_half (suc (max a b)) ≤ p + q
pow_half-node a b p q h k u v = elim (le-cases a b) [
  | inl le ↦ let e : max a b ≡ b = omega arith in rw e (pow_half-pair a b p q le k u v)
  | inr le ↦
      let e : max a b ≡ a = omega arith in
      let bound = pow_half-pair b a q p le h v u in rw e (omega arith)
]

height-lt_of_pow_half : (h n : ℕ) → pow_half h ≤ n → n < 2 ^ 127 → h < 255
height-lt_of_pow_half h n p q = elim (lt-cases 255 h) [
  | inl le ↦ absurd (omega (arith, pow_half-le 255 h le))
  | inr lt ↦ lt
]

-- A balanced tree with fewer than 2 ^ 127 leaves, whose cached fields are right, is lower than
-- 255, and has at least 2 ^ (h / 2) leaves for its height h.
pub height-lt :
    ⦃x : External⦄
    → (t : Shape) → IsCached t
    → IsBalanced t
    → leaves t < 2 ^ 127
    → (pow_half (height t) ≤ leaves t) × (height t < 255)
height-lt (leaf key value version) c b h = (omega arith, omega arith)
height-lt (node m l r) c b h =
    let (pl, hl) = height-lt l c.4 b.2 (omega arith) in
    let (pr, hr) = height-lt r c.5 b.3 (omega arith) in
    let e : m.height ≡ suc (max (height l) (height r)) = c.0 ∙ height-joined l r hl hr in
    let p = pow_half-node (height l) (height r) (leaves l) (leaves r) b.0 b.1 pl pr in
    let bound : pow_half m.height ≤ leaves l + leaves r = rw e p in
    (bound, height-lt_of_pow_half m.height (leaves l + leaves r) bound h)

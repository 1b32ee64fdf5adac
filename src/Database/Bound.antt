-- ===== src/Database/Bound.antt =====
-- `std::ops::Bound` over byte strings, and `prefix_end_bound`, which stands in
-- database/src/memory.rs and again in store/src/store.rs.
use mathlib.Core.List.{reverse, reverse-append}
use Prim.Native.Nat.Ordering.{eq, gt}
use doge_sdk.Base.{
  ℕ, ◌⊎◌, inl, inr, Option-cases, ◌+◌, ◌<◌, ◌≡◌, refl, Bool, true, false, ◌&&◌, Option, none, some,
  [], ◌∷◌, ◌++◌, All, arith, ◌==◌, if◌then◌else◌,
}
use doge_sdk.Base.Bytes.{Bytes, cmp, lt_bytes, le_bytes}

pub data Bound : Type 0 where
  included : Bytes → Bound
  excluded : Bytes → Bound
  unbounded : Bound

-- `RangeBounds::contains`, one side at a time.
unfoldable pub above_start : Bound → Bytes → Bool
above_start (included l) k = le_bytes l k
above_start (excluded l) k = lt_bytes l k
above_start unbounded k = true

unfoldable pub below_end : Bound → Bytes → Bool
below_end (included u) k = le_bytes k u
below_end (excluded u) k = lt_bytes k u
below_end unbounded k = true

unfoldable pub contains : Bound → Bound → Bytes → Bool
contains start stop k = above_start start k && below_end stop k

-- The loop over the bytes of the prefix, the last one first: 255 is popped, and any other byte is
-- incremented and ends the loop.
unfoldable pub pop_loop : Bytes → Bound
pop_loop [] = unbounded
pop_loop (last ∷ init) =
    let rest = pop_loop init in if last == 255 then rest else excluded (reverse ((last + 1) ∷ init))

unfoldable pub prefix_end_bound : Bytes → Bound
unfolding pop_loop
prefix_end_bound prefix = pop_loop (reverse prefix)

-- `k` begins with `prefix`.
unfoldable pub starts_with : Bytes → Bytes → Bool
starts_with [] k = true
starts_with (b ∷ prefix) [] = false
starts_with (b ∷ prefix) (c ∷ k) = b == c && starts_with prefix k

-- Every element is a byte.
abbrev pub IsBytes : Bytes → Type 0
IsBytes = All (λ b. b < 256)

-- The end of the range, found from the front.
next_after : Bytes → Option Bytes
next_after [] = none
next_after (b ∷ prefix) = elim (next_after prefix) [
  | some rest ↦ some (b ∷ rest)
  | none ↦ if b == 255 then none else some ((b + 1) ∷ [])
]

abbrev to_bound : Option Bytes → Bound
to_bound none = unbounded
to_bound (some u) = excluded u

abbrev push_front : ℕ → Bound → Bound
push_front b (excluded rest) = excluded (b ∷ rest)
push_front b _ = if b == 255 then unbounded else excluded ((b + 1) ∷ [])

pop_loop-append : (init : Bytes) (b : ℕ) → pop_loop (init ++ b ∷ []) ≡ push_front b (pop_loop init)
unfolding pop_loop
pop_loop-append [] b = refl
pop_loop-append (x ∷ init) b =
    rw (reverse-append ((x + 1) ∷ init) (b ∷ [])) (ground (arith, pop_loop-append init b))

to_bound-next_after :
    (b : ℕ) (prefix : Bytes)
    → to_bound (next_after (b ∷ prefix)) ≡ push_front b (to_bound (next_after prefix))
unfolding next_after
to_bound-next_after b prefix = ground arith

prefix_end_bound-eq-next_after :
    (prefix : Bytes) → prefix_end_bound prefix ≡ to_bound (next_after prefix)
unfolding prefix_end_bound
prefix_end_bound-eq-next_after [] = unfold next_after in refl
prefix_end_bound-eq-next_after (b ∷ prefix) =
    rw (to_bound-next_after b prefix, ← prefix_end_bound-eq-next_after prefix)
      (rw (reverse-append (b ∷ []) prefix) (pop_loop-append (reverse prefix) b))

cmp-nil : (k : Bytes) → (cmp k [] ≡ eq) ⊎ (cmp k [] ≡ gt)
unfolding cmp
cmp-nil [] = inl refl
cmp-nil (x ∷ k) = inr refl

below_next :
    (prefix k : Bytes)
    → IsBytes k
    → (le_bytes prefix k && below_end (to_bound (next_after prefix)) k) ≡ starts_with prefix k
unfolding next_after starts_with below_end cmp
below_next [] [] h = refl
below_next [] (c ∷ k) h = refl
below_next (b ∷ prefix) [] h = refl
below_next (b ∷ prefix) (c ∷ k) h = elim (Option-cases (next_after prefix)) [
  | inl e ↦ rw e (ground (arith, cmp-nil k, below_next prefix k h.1))
  | inr (u, e) ↦ rw e (ground (arith, below_next prefix k h.1))
]

-- A scan from the prefix to its end bound takes the keys of bytes that begin with the prefix, and
-- no other such key.
pub contains-prefix_end_bound :
    (prefix k : Bytes)
    → IsBytes k
    → contains (included prefix) (prefix_end_bound prefix) k ≡ starts_with prefix k
unfolding contains above_start
contains-prefix_end_bound prefix k h = rw prefix_end_bound-eq-next_after (below_next prefix k h)

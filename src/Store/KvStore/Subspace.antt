-- ===== src/Store/KvStore/Subspace.antt =====
-- The writes through one prefix store, as a list.
use doge_sdk.Base.{
  ℕ, ◌≡◌, refl, ◌∙◌, Option, none, some, List, [], ◌∷◌, ◌++◌, arith, Option-cases, inl, inr,
  if◌then◌else◌,
}
use doge_sdk.Base.Bytes.{Bytes, cmp, eq_bytes}
use doge_sdk.Base.BTreeMap
use doge_sdk.Database.Prefix.{eq_bytes-append}
use doge_sdk.Database.Record.{Database}
use doge_sdk.Trees.External.{External}
use doge_sdk.Trees.Outcome.{ok}
use doge_sdk.Store.KvStore.{KvStore, get, set, prefix_get, prefix_set}
use doge_sdk.Store.KvStore.Reads.{get-set}

abbrev pub put : {S : Type 0} → KvStore S → Bytes → Bytes → KvStore S
put s key value = record s { tx_cache = BTreeMap.insert key value s.tx_cache }

set-cons :
    {S : Type 0} (s : KvStore S) (b : ℕ) (key v : Bytes)
    → set s (b ∷ key) v ≡ ok (put s (b ∷ key) v)
unfolding set
set-cons s b key v = refl

pub prefix_set-put :
    {S : Type 0} (s : KvStore S) (p : Bytes) (b : ℕ) (k v : Bytes)
    → prefix_set s p (b ∷ k) v ≡ ok (put s (p ++ b ∷ k) v)
unfolding prefix_set
prefix_set-put s [] b k v = set-cons s b k v
prefix_set-put s (c ∷ p) b k v = set-cons s c (p ++ b ∷ k) v

-- The first bytes of the keys, the rests, and the values.
abbrev pub Writes : Type 0
Writes = List ((ℕ × Bytes) × Bytes)

unfoldable pub written : {S : Type 0} → KvStore S → Bytes → Writes → KvStore S
written s p [] = s
written s p (((b, k), v) ∷ ws) = written (put s (p ++ b ∷ k) v) p ws

-- What the last write of a key holds.
abbrev pub last_of : Bytes → Writes → Option Bytes
last_of j [] = none
last_of j (((b, k), v) ∷ ws) = elim (last_of j ws) [
  | some w ↦ some w
  | none ↦ if eq_bytes j (b ∷ k) then some v else none
]

module _ ⦃x : External⦄ {S : Type 0} ⦃d : Database S⦄ (fuel : ℕ) where
  get-cons :
      (s : KvStore S) (b : ℕ) (key v j : Bytes)
      → get fuel (put s (b ∷ key) v) j
        ≡ (if eq_bytes j (b ∷ key) then ok (some v) else get fuel s j)
  unfolding set cmp
  get-cons s b key v j = get-set fuel s (b ∷ key) v j

  get-put :
      (s : KvStore S) (p : Bytes) (b : ℕ) (k v j : Bytes)
      → get fuel (put s (p ++ b ∷ k) v) j
        ≡ (if eq_bytes j (p ++ b ∷ k) then ok (some v) else get fuel s j)
  get-put s [] b k v j = get-cons s b k v j
  get-put s (c ∷ p) b k v j = get-cons s c (p ++ b ∷ k) v j

  -- A read through a prefix store after a write through it.
  pub prefix_get-put :
      (s : KvStore S) (p : Bytes) (b : ℕ) (k v j : Bytes)
      → prefix_get fuel (put s (p ++ b ∷ k) v) p j
        ≡ (if eq_bytes j (b ∷ k) then ok (some v) else prefix_get fuel s p j)
  unfolding prefix_get
  prefix_get-put s p b k v j = get-put s p b k v (p ++ j) ∙ rw (eq_bytes-append p j (b ∷ k)) refl

  prefix_get-unwritten :
      (s : KvStore S) (p : Bytes) (ws : Writes) (j : Bytes)
      → last_of j ws ≡ none
      → prefix_get fuel (written s p ws) p j ≡ prefix_get fuel s p j
  unfolding written
  prefix_get-unwritten s p [] j h = refl
  prefix_get-unwritten s p (((b, k), w) ∷ ws) j h = elim (Option-cases (last_of j ws)) [
    | inr (u, e) ↦ absurd (ground (arith, e, h))
    | inl e ↦
        prefix_get-unwritten (put s (p ++ b ∷ k) w) p ws j e
        ∙ prefix_get-put s p b k w j
        ∙ ground (arith, e, h)
  ]

  pub prefix_get-written :
      (s : KvStore S) (p : Bytes) (ws : Writes) (j v : Bytes)
      → last_of j ws ≡ some v
      → prefix_get fuel (written s p ws) p j ≡ ok (some v)
  unfolding written
  prefix_get-written s p [] j v h = cc
  prefix_get-written s p (((b, k), w) ∷ ws) j v h = elim (Option-cases (last_of j ws)) [
    | inr (u, e) ↦ prefix_get-written (put s (p ++ b ∷ k) w) p ws j v (e ∙ ground (arith, e, h))
    | inl e ↦
        prefix_get-unwritten (put s (p ++ b ∷ k) w) p ws j e
        ∙ prefix_get-put s p b k w j
        ∙ ground (arith, e, h)
  ]

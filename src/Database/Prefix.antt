-- ===== src/Database/Prefix.antt =====
-- database/src/prefix.rs: `PrefixDB`, a view of a shared database through a prefix. Its `Arc`
-- makes all views write to one store, so a view is a `Database` on the shared state.
use doge_sdk.Base.{◌≡◌, refl, false, List, [], ◌∷◌, ◌++◌, map, length, drop, arith}
use doge_sdk.Base.Bytes.{Bytes, cmp, eq_bytes}
use doge_sdk.Database.Bound.{starts_with}
use doge_sdk.Database.Record.{Database, IsLawful}

-- Cuts `n` bytes off every key.
abbrev pub strip : Bytes → List (Bytes × Bytes) → List (Bytes × Bytes)
strip prefix = map (λ e. (drop (length prefix) e.0, e.1))

unfoldable pub prefix_database : {S : Type 0} → Database S → Bytes → Database S
prefix_database d prefix = record {
  get = λ s k. d.get s (prefix ++ k);
  put = λ s k v. d.put s (prefix ++ k) v;
  iterator = λ s. strip prefix (d.prefix_iterator s prefix);
  prefix_iterator = λ s p. strip (prefix ++ p) (d.prefix_iterator s (prefix ++ p));
}

pub eq_bytes-append : (p j k : Bytes) → eq_bytes (p ++ j) (p ++ k) ≡ eq_bytes j k
unfolding cmp
eq_bytes-append [] j k = refl
eq_bytes-append (b ∷ p) j k = ground (arith, eq_bytes-append p j k)

-- Neither prefix begins with the other.
abbrev pub Separate : Bytes → Bytes → Type 0
Separate p q = (starts_with p q ≡ false) × (starts_with q p ≡ false)

eq_bytes-Separate : (p q j k : Bytes) → Separate p q → eq_bytes (p ++ j) (q ++ k) ≡ false
unfolding cmp starts_with
eq_bytes-Separate [] q j k h = cc (h.0)
eq_bytes-Separate (a ∷ p) [] j k h = cc (h.1)
eq_bytes-Separate (a ∷ p) (b ∷ q) j k h = ground (arith, eq_bytes-Separate p q j k)

module _ {S : Type 0} (d : Database S) (law : IsLawful d) where
  -- If the shared database gives back what was written, so does every view of it.
  pub prefix_database-IsLawful : (p : Bytes) → IsLawful (prefix_database d p)
  unfolding prefix_database
  prefix_database-IsLawful p = record {
    get-put = λ s j k v. rw (law.get-put s (p ++ j) (p ++ k) v, eq_bytes-append p j k);
  }

  -- Over a database that gives back what was written, a write through one view changes no read
  -- through another view whose prefix neither begins with the first one's nor begins it.
  pub prefix_database-Separate :
      (p q : Bytes) (s : S) (j k v : Bytes)
      → Separate p q
      → (prefix_database d p).get ((prefix_database d q).put s k v) j
        ≡ (prefix_database d p).get s j
  unfolding prefix_database
  prefix_database-Separate p q s j k v h =
      rw (law.get-put s (p ++ j) (q ++ k) v, eq_bytes-Separate p q j k h)

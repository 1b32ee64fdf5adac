-- ===== src/Database/Record.antt =====
-- `trait Database` of database/src/lib.rs, and what its callers rely on.
use doge_sdk.Base.{List, Option, some, ◌≡◌, if◌then◌else◌}
use doge_sdk.Base.Bytes.{Bytes, eq_bytes}

-- `trait Database`. `put` takes `&self` and changes the store behind it: the new state is returned.
-- An iterator is the list that it yields.
pub record Database (S : Type 0) : Type 0 where
  pub get : S → Bytes → Option Bytes
  pub put : S → Bytes → Bytes → S
  pub iterator : S → List (Bytes × Bytes)
  pub prefix_iterator : S → Bytes → List (Bytes × Bytes)

-- What the callers rely on: a read after a write.
pub record IsLawful {S : Type 0} (d : Database S) : Type 0 where
  pub get-put :
      (s : S) (j k v : Bytes) → d.get (d.put s k v) j ≡ (if eq_bytes j k then some v else d.get s j)

-- ===== src/Bank/Params.antt =====
-- The parameters of the bank, of x/bank/src/params.rs, over the store of the parameters and the
-- prefix of the subspace.
use doge_sdk.Base.{ℕ, Bool, true, false, Option, none, some, [], ◌∷◌, if◌then◌else◌}
use doge_sdk.Base.Bytes.{Bytes, eq_bytes}
use doge_sdk.Database.Record.{Database}
use doge_sdk.Trees.External.{External}
use doge_sdk.Trees.Outcome.{Outcome, ok, expect, ◌>>=◌}
use doge_sdk.Store.KvStore.{KvStore, prefix_get, prefix_set}

pub record Params : Type 0 where
  pub default_send_enabled : Bool

-- "SendEnabled" and "DefaultSendEnabled".
abbrev pub key_send_enabled : Bytes
key_send_enabled = 83 ∷ 101 ∷ 110 ∷ 100 ∷ 69 ∷ 110 ∷ 97 ∷ 98 ∷ 108 ∷ 101 ∷ 100 ∷ []

abbrev pub key_default_send_enabled : Bytes
key_default_send_enabled =
    68 ∷ 101 ∷ 102 ∷ 97 ∷ 117 ∷ 108 ∷ 116 ∷ 83 ∷ 101 ∷ 110 ∷ 100 ∷ 69 ∷ 110 ∷ 97 ∷ 98 ∷ 108 ∷ 101
    ∷ 100 ∷ []

-- `bool::to_string` and `str::parse`.
unfoldable pub bool_to_string : Bool → Bytes
bool_to_string true = 116 ∷ 114 ∷ 117 ∷ 101 ∷ []
bool_to_string false = 102 ∷ 97 ∷ 108 ∷ 115 ∷ 101 ∷ []

unfoldable pub parse_bool : Bytes → Option Bool
unfolding bool_to_string
parse_bool text =
    if eq_bytes text (bool_to_string true)
    then some true
    else if eq_bytes text (bool_to_string false)
    then some false
    else none

module _ ⦃x : External⦄ {S : Type 0} ⦃d : Database S⦄ (fuel : ℕ) where
  unfoldable pub get : KvStore S → Bytes → Outcome Params
  unfolding prefix_get parse_bool
  get s subspace = do
    found ← prefix_get fuel s subspace key_default_send_enabled
    text ← expect found
    default_send_enabled ← expect (parse_bool text)
    ok (record { default_send_enabled = default_send_enabled })

-- The list of the denominations is "[]".
unfoldable pub set : {S : Type 0} → KvStore S → Bytes → Params → Outcome (KvStore S)
unfolding prefix_set bool_to_string
set s subspace params = do
  s1 ← prefix_set s subspace key_default_send_enabled (bool_to_string params.default_send_enabled)
  prefix_set s1 subspace key_send_enabled (91 ∷ 93 ∷ [])

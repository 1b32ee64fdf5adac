-- ===== src/Gaia/StoreKeys.antt =====
-- The names of the stores and of the subspaces of the parameters, of gaia-rs/src/store_keys.rs.
use doge_sdk.Base.{◌≡◌, ◌≢◌, refl, Option, none, some, List, [], ◌∷◌, if◌then◌else◌}
use doge_sdk.Base.Bytes.{Bytes, cmp, eq_bytes}
use doge_sdk.Database.Bound.{starts_with}
use doge_sdk.Database.Prefix.{Separate}

pub data GaiaStoreKey : Type 0 where
  bank auth params : GaiaStoreKey

pub data GaiaParamsStoreKey : Type 0 where
  bank auth base_app : GaiaParamsStoreKey

-- "bank", "acc" and "params".
unfoldable pub name : GaiaStoreKey → Bytes
name bank = 98 ∷ 97 ∷ 110 ∷ 107 ∷ []
name auth = 97 ∷ 99 ∷ 99 ∷ []
name params = 112 ∷ 97 ∷ 114 ∷ 97 ∷ 109 ∷ 115 ∷ []

unfoldable pub from_name : Bytes → Option GaiaStoreKey
unfolding name
from_name text =
    if eq_bytes text (name bank)
    then some bank
    else if eq_bytes text (name auth)
    then some auth
    else if eq_bytes text (name params)
    then some params
    else none

-- "bank/", "auth/" and "baseapp/".
unfoldable pub params_name : GaiaParamsStoreKey → Bytes
params_name bank = 98 ∷ 97 ∷ 110 ∷ 107 ∷ 47 ∷ []
params_name auth = 97 ∷ 117 ∷ 116 ∷ 104 ∷ 47 ∷ []
params_name base_app = 98 ∷ 97 ∷ 115 ∷ 101 ∷ 97 ∷ 112 ∷ 112 ∷ 47 ∷ []

unfoldable pub params_from_name : Bytes → Option GaiaParamsStoreKey
unfolding params_name
params_from_name text =
    if eq_bytes text (params_name bank)
    then some bank
    else if eq_bytes text (params_name auth)
    then some auth
    else if eq_bytes text (params_name base_app)
    then some base_app
    else none

-- `GaiaStoreKey::iter`.
abbrev pub store_names : List Bytes
store_names = name bank ∷ name auth ∷ name params ∷ []

name-Separate : (j k : GaiaStoreKey) → j ≢ k → Separate (name j) (name k)
unfolding name starts_with
name-Separate bank bank h = absurd (h refl)
name-Separate bank auth h = (refl, refl)
name-Separate bank params h = (refl, refl)
name-Separate auth bank h = (refl, refl)
name-Separate auth auth h = absurd (h refl)
name-Separate auth params h = (refl, refl)
name-Separate params bank h = (refl, refl)
name-Separate params auth h = (refl, refl)
name-Separate params params h = absurd (h refl)

params_name-Separate : (j k : GaiaParamsStoreKey) → j ≢ k → Separate (params_name j) (params_name k)
unfolding params_name starts_with
params_name-Separate bank bank h = absurd (h refl)
params_name-Separate bank auth h = (refl, refl)
params_name-Separate bank base_app h = (refl, refl)
params_name-Separate auth bank h = (refl, refl)
params_name-Separate auth auth h = absurd (h refl)
params_name-Separate auth base_app h = (refl, refl)
params_name-Separate base_app bank h = (refl, refl)
params_name-Separate base_app auth h = (refl, refl)
params_name-Separate base_app base_app h = absurd (h refl)

from_name-name : (k : GaiaStoreKey) → from_name (name k) ≡ some k
unfolding from_name name cmp
from_name-name bank = refl
from_name-name auth = refl
from_name-name params = refl

params_from_name-params_name : (k : GaiaParamsStoreKey) → params_from_name (params_name k) ≡ some k
unfolding params_from_name params_name cmp
params_from_name-params_name bank = refl
params_from_name-params_name auth = refl
params_from_name-params_name base_app = refl

-- The names of the stores begin with no other's name, as the source asks for, nor do those of the
-- subspaces; and a key is found by its name.
pub store_keys-Separate :
    ((j k : GaiaStoreKey) → j ≢ k → Separate (name j) (name k))
    × ((j k : GaiaParamsStoreKey) → j ≢ k → Separate (params_name j) (params_name k))
    × ((k : GaiaStoreKey) → from_name (name k) ≡ some k)
    × ((k : GaiaParamsStoreKey) → params_from_name (params_name k) ≡ some k)
store_keys-Separate =
    (name-Separate, params_name-Separate, from_name-name, params_from_name-params_name)

-- ===== src/Auth/Module.antt =====
-- `Module` of gears/src/x/auth/auth.rs.
use doge_sdk.Base.{List, [], ◌∷◌}
use doge_sdk.Base.Bytes.{Bytes}
use doge_sdk.Trees.Outcome.{Outcome}
use doge_sdk.Messages.Crates.{Crates}
use doge_sdk.Messages.Address.{from_bech32}
use doge_sdk.Messages.Key.{expect_done}

pub data Module : Type 0 where
  fee_collector : Module

-- "cosmos17xpfvakm2amg962yls6f84z3kell8c5lserqta".
abbrev pub fee_collector_address : Bytes
fee_collector_address =
    99 ∷ 111 ∷ 115 ∷ 109 ∷ 111 ∷ 115 ∷ 49 ∷ 55 ∷ 120 ∷ 112 ∷ 102 ∷ 118 ∷ 97 ∷ 107 ∷ 109 ∷ 50 ∷ 97
    ∷ 109 ∷ 103 ∷ 57 ∷ 54 ∷ 50 ∷ 121 ∷ 108 ∷ 115 ∷ 54 ∷ 102 ∷ 56 ∷ 52 ∷ 122 ∷ 51 ∷ 107 ∷ 101 ∷ 108
    ∷ 108 ∷ 56 ∷ 99 ∷ 53 ∷ 108 ∷ 115 ∷ 101 ∷ 114 ∷ 113 ∷ 116 ∷ 97 ∷ []

-- "fee_collector".
abbrev pub fee_collector_name : Bytes
fee_collector_name = 102 ∷ 101 ∷ 101 ∷ 95 ∷ 99 ∷ 111 ∷ 108 ∷ 108 ∷ 101 ∷ 99 ∷ 116 ∷ 111 ∷ 114 ∷ []

unfoldable pub get_name : Module → Bytes
get_name fee_collector = fee_collector_name

unfoldable pub get_permissions : Module → List Bytes
get_permissions fee_collector = []

module _ ⦃x : Crates⦄ where
  unfoldable pub get_module_address : Module → Outcome Bytes
  unfolding from_bech32
  get_module_address fee_collector = expect_done (from_bech32 fee_collector_address)

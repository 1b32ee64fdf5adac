-- ===== src/Bank/Genesis/Pending.antt =====
-- What the genesis of the bank leaves in its stores.
use doge_sdk.Base.{◌≡◌, refl, sym, ap, ◌∙◌, List, [], ◌∷◌}
use std.Path.{subst}
use doge_sdk.Base.Bytes.{Bytes}
use doge_sdk.Trees.Outcome.{ok, bind-eq-ok, ok-injective, ◌>>=◌}
use doge_sdk.Store.KvStore.{KvStore, clear_tx_cache, prefix_set}
use doge_sdk.Store.KvStore.Pending.{IsPending, prefix_set-IsPending}
use doge_sdk.Messages.Crates.{Crates}
use doge_sdk.Bank.Coin.{Coin}
use doge_sdk.Bank.Keeper.{CoinCodec, write_balance}
use doge_sdk.Bank.Keeper.Pending.{write_balance-IsPending}
use doge_sdk.Bank.Queries.{supply_key, set_supply}
use doge_sdk.Bank.Params
use doge_sdk.Bank.Params.{Params, bool_to_string, key_default_send_enabled, key_send_enabled}
use doge_sdk.Bank.Genesis.{
  Balance, GenesisState, add_total, set_coins, set_balances, set_supplies, init_genesis,
}

set_params-IsPending :
    {S : Type 0} (s s' : KvStore S) (subspace : Bytes) (params : Params)
    → Params.set s subspace params ≡ ok s'
    → IsPending s s'
unfolding Params.set
set_params-IsPending s s' subspace params h =
    let text = bool_to_string params.default_send_enabled in
    let (s1, e, h1) = bind-eq-ok (prefix_set s subspace key_default_send_enabled text) _ h in
    prefix_set-IsPending s1 s' subspace key_send_enabled (91 ∷ 93 ∷ []) h1
    ∙ prefix_set-IsPending s s1 subspace key_default_send_enabled text e

module _ {S : Type 0} ⦃c : CoinCodec⦄ where
  set_coins-IsPending :
      (s s' : KvStore S) (totals totals' : List Coin) (address : Bytes) (coins : List Coin)
      → set_coins s totals address coins ≡ ok (s', totals')
      → IsPending s s'
  unfolding set_coins
  set_coins-IsPending s s' totals totals' address [] h =
      subst (λ (q : KvStore S × List Coin). IsPending s q.0) (ok-injective h) refl
  set_coins-IsPending s s' totals totals' address (coin ∷ coins) h =
      let (s1, e, h1) =
        bind-eq-ok (write_balance s address coin.denom coin)
          (λ s1. add_total totals coin >>= λ totals1. set_coins s1 totals1 address coins) h in
      let (totals1, e1, h2) =
        bind-eq-ok (add_total totals coin) (λ totals1. set_coins s1 totals1 address coins) h1 in
      set_coins-IsPending s1 s' totals1 totals' address coins h2
      ∙ write_balance-IsPending s s1 address coin.denom coin e

  set_balances-IsPending :
      (s s' : KvStore S) (totals totals' : List Coin) (balances : List Balance)
      → set_balances s totals balances ≡ ok (s', totals')
      → IsPending s s'
  unfolding set_balances
  set_balances-IsPending s s' totals totals' [] h =
      subst (λ (q : KvStore S × List Coin). IsPending s q.0) (ok-injective h) refl
  set_balances-IsPending s s' totals totals' (balance ∷ balances) h =
      let ((s1, totals1), e, h1) =
        bind-eq-ok (set_coins s totals balance.address balance.coins) _ h in
      set_balances-IsPending s1 s' totals1 totals' balances h1
      ∙ set_coins-IsPending s s1 totals totals1 balance.address balance.coins e

module _ {S : Type 0} ⦃r : Crates⦄ where
  set_supplies-IsPending :
      (s s' : KvStore S) (coins : List Coin) → set_supplies s coins ≡ ok s' → IsPending s s'
  unfolding set_supplies set_supply
  set_supplies-IsPending s s' [] h = sym (ap clear_tx_cache (ok-injective h))
  set_supplies-IsPending s s' (coin ∷ coins) h =
      let (s1, e, h1) = bind-eq-ok (set_supply s coin) (λ s1. set_supplies s1 coins) h in
      set_supplies-IsPending s1 s' coins h1
      ∙ prefix_set-IsPending s s1 supply_key coin.denom (r.uint_to_string coin.amount) e

module _ {S : Type 0} ⦃r : Crates⦄ ⦃c : CoinCodec⦄ where
  pub init_genesis-ArePending :
      (order : List Coin → List Coin) (subspace : Bytes) (p p' b b' : KvStore S)
      (genesis : GenesisState)
      → init_genesis order subspace p b genesis ≡ ok (p', b')
      → IsPending p p' × IsPending b b'
  unfolding init_genesis
  init_genesis-ArePending order subspace p p' b b' genesis h =
      let (p1, e, h1) = bind-eq-ok (Params.set p subspace genesis.params) _ h in
      let ((b1, totals), e1, h2) = bind-eq-ok (set_balances b [] genesis.balances) _ h1 in
      let (b2, e2, h3) = bind-eq-ok (set_supplies b1 (order totals)) _ h2 in
      subst (λ (q : KvStore S × KvStore S). IsPending p q.0 × IsPending b q.1) (ok-injective h3)
        (
          set_params-IsPending p p1 subspace genesis.params e,
          set_supplies-IsPending b1 b2 (order totals) e2
              ∙ set_balances-IsPending b b1 [] totals genesis.balances e1,
        )

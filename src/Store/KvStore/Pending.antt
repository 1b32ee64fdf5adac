-- ===== src/Store/KvStore/Pending.antt =====
-- What the writes of the modules' keepers change in their stores.
use doge_sdk.Base.{◌≡◌, sym, ap, [], ◌∷◌, ◌++◌}
use doge_sdk.Base.Bytes.{Bytes}
use doge_sdk.Trees.Outcome.{ok, ok-injective}
use doge_sdk.Store.KvStore.{KvStore, set, prefix_set, clear_tx_cache}

module _ {S : Type 0} where
  -- The stores differ in what is pending for the transaction only.
  abbrev pub IsPending : KvStore S → KvStore S → Type 0
  IsPending s s' = clear_tx_cache s' ≡ clear_tx_cache s

  pub set-IsPending : (s s' : KvStore S) (k v : Bytes) → set s k v ≡ ok s' → IsPending s s'
  unfolding set clear_tx_cache
  set-IsPending s s' [] v h = cc h
  set-IsPending s s' (b ∷ k) v h = sym (ap clear_tx_cache (ok-injective h))

  pub prefix_set-IsPending :
      (s s' : KvStore S) (p k v : Bytes) → prefix_set s p k v ≡ ok s' → IsPending s s'
  unfolding prefix_set
  prefix_set-IsPending s s' p k v h = set-IsPending s s' (p ++ k) v h

-- ===== src/Bank/Keeper/Cells.antt =====
-- The balances of a bank store as cells: what a write of one changes.
use doge_sdk.Base.{
  ℕ, ◌^◌, ◌<◌, ◌≡◌, refl, ap, true, ◌&&◌, some, [], ◌∷◌, ◌++◌, length, arith, if◌then◌else◌,
}
use doge_sdk.Base.BTreeMap
use doge_sdk.Base.Bytes.{Bytes, cmp, eq_bytes, eq_of_cmp}
use doge_sdk.Database.Record.{Database}
use doge_sdk.Trees.External.{External}
use doge_sdk.Trees.Outcome.{ok}
use doge_sdk.Store.KvStore
use doge_sdk.Store.KvStore.{KvStore, prefix_get, prefix_set}
use doge_sdk.Store.KvStore.Reads.{get-set}
use doge_sdk.Bank.Coin.{Coin}
use doge_sdk.Bank.Keeper.{
  decode_found, CoinCodec, IsLawful, create_denom_balance_prefix, read_balance, write_balance,
}

-- The key of a balance.
abbrev pub key : Bytes → Bytes → Bytes
key addr denom = create_denom_balance_prefix addr ++ denom

eq_bytes-append_both :
    (a b d e : Bytes)
    → length a ≡ length b
    → eq_bytes (a ++ d) (b ++ e) ≡ (eq_bytes a b && eq_bytes d e)
unfolding cmp
eq_bytes-append_both [] [] d e h = refl
eq_bytes-append_both [] (y ∷ b) d e h = absurd (omega arith)
eq_bytes-append_both (x ∷ a) [] d e h = absurd (omega arith)
eq_bytes-append_both (x ∷ a) (y ∷ b) d e h =
    ground (arith, eq_bytes-append_both a b d e (omega arith))

eq_bytes-length : (a b : Bytes) → eq_bytes a b ≡ true → length a ≡ length b
eq_bytes-length a b h = ap length (eq_of_cmp a b (ground arith))

-- The keys of two balances agree if and only if the addresses and the denominations do: the address
-- stands behind its length.
pub eq_bytes-create_denom_balance_prefix :
    (a b d e : Bytes)
    → eq_bytes (create_denom_balance_prefix a ++ d) (create_denom_balance_prefix b ++ e)
      ≡ (eq_bytes a b && eq_bytes d e)
unfolding create_denom_balance_prefix cmp
eq_bytes-create_denom_balance_prefix a b d e =
    ground (arith, eq_bytes-append_both a b d e, eq_bytes-length a b)

module _ {S : Type 0} ⦃c : CoinCodec⦄ where
  -- The store after a write of a balance.
  unfoldable pub stored : KvStore S → Bytes → Bytes → Coin → KvStore S
  stored s a denom coin = record s {
    tx_cache = BTreeMap.insert (key a denom) (c.encode coin) s.tx_cache;
  }

  pub write_balance-eq-stored :
      (s : KvStore S) (a denom : Bytes) (coin : Coin)
      → write_balance s a denom coin ≡ ok (stored s a denom coin)
  unfolding write_balance stored prefix_set KvStore.set create_denom_balance_prefix
  write_balance-eq-stored s a denom coin = refl

module _ ⦃x : External⦄ {S : Type 0} ⦃d : Database S⦄ ⦃c : CoinCodec⦄ (fuel : ℕ) where
  get-stored :
      (s : KvStore S) (a denom b e : Bytes) (coin : Coin)
      → KvStore.get fuel (stored s a denom coin) (key b e) ≡ (
          if eq_bytes b a && eq_bytes e denom
          then ok (some (c.encode coin))
          else KvStore.get fuel s (key b e))
  unfolding stored KvStore.set create_denom_balance_prefix cmp
  get-stored s a denom b e coin =
      rw (← eq_bytes-create_denom_balance_prefix b a e denom)
        (get-set fuel s (key a denom) (c.encode coin) (key b e))

  -- A read of a balance after a write of one: the coin written if address and denomination agree,
  -- and otherwise what was there.
  pub read_balance-stored :
      (s : KvStore S) (law : IsLawful c) (a denom b e : Bytes) (coin : Coin)
      → coin.amount < 2 ^ 256
      → read_balance fuel (stored s a denom coin) b e
        ≡ (if eq_bytes b a && eq_bytes e denom then ok (some coin) else read_balance fuel s b e)
  unfolding read_balance prefix_get decode_found
  read_balance-stored s law a denom b e coin h =
      rw (get-stored s a denom b e coin) (ground (arith, law.decode-encode coin h))

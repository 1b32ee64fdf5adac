-- ===== src/Store/KvStore/Reads.antt =====
-- What a read of a `KVStore` gives after its writes and after its caches are moved.
use Prim.Native.Nat.{Ordering}
use doge_sdk.Base.{
  ℕ, ◌+◌, ◌^◌, ◌<◌, ◌≡◌, refl, sym, ap, ◌∙◌, Option, none, some, [], ◌∷◌, arith, length,
  if◌then◌else◌, Option-cases, inl, inr,
}
use doge_sdk.Base.Bytes.{Bytes, cmp, eq_bytes, eq_of_cmp}
use doge_sdk.Base.BTreeMap
use doge_sdk.Base.BTreeMap.{BTreeMap, Above, insert-IsSorted, IsSorted, get-insert, get-Above}
use doge_sdk.Database.Record.{Database}
use doge_sdk.Trees.External.{External}
use doge_sdk.Trees.Outcome.{ok, panic, ◌>>=◌}
use doge_sdk.Trees.Iavl.Tree
use doge_sdk.Trees.Iavl.Tree.{Tree}
use doge_sdk.Trees.Iavl.Ascending.{depth-le}
use doge_sdk.Trees.Iavl.Shape.{Shape}
use doge_sdk.Trees.Iavl.Balance.{in_memory, leaves}
use doge_sdk.Trees.Iavl.Get.{recursive_get-eq-get}
use doge_sdk.Trees.Iavl.TreeLaws.{set_all-Fills, Fills, Loads-in_memory}
use doge_sdk.Store.KvStore.{
  KvStore, absorb, set, get, write_then_clear_tx_cache, write_then_clear_block_cache,
}

-- The first map before the second.
abbrev pub or_else : Option Bytes → Option Bytes → Option Bytes
or_else (some v) o = some v
or_else none o = o

get-Above-eq :
    (k j : Bytes) (m : BTreeMap Bytes) → cmp k j ≡ Ordering.eq → Above j m → BTreeMap.get k m ≡ none
get-Above-eq k j m e h = rw (eq_of_cmp k j e) (get-Above j m h)

pub get-absorb :
    (k : Bytes) (m cache : BTreeMap Bytes)
    → IsSorted m
    → BTreeMap.get k (absorb m cache) ≡ or_else (BTreeMap.get k m) (BTreeMap.get k cache)
unfolding absorb BTreeMap.get
get-absorb k [] cache s = refl
get-absorb k ((j, v) ∷ m) cache s =
    get-absorb k m (BTreeMap.insert j v cache) s.1
    ∙ ground
        (arith, get-insert k j v cache, λ (e : cmp k j ≡ Ordering.eq). get-Above-eq k j m e s.0)

pub absorb-IsSorted : (m cache : BTreeMap Bytes) → IsSorted cache → IsSorted (absorb m cache)
unfolding absorb
absorb-IsSorted [] cache s = s
absorb-IsSorted ((j, v) ∷ m) cache s =
    absorb-IsSorted m (BTreeMap.insert j v cache) (insert-IsSorted j v cache s)

module _ ⦃x : External⦄ {S : Type 0} ⦃d : Database S⦄ where
  -- A read after a write: the value under the key written, and under any other key what was
  -- there; a write of the empty key panics.
  pub get-set :
      (fuel : ℕ) (s : KvStore S) (key value j : Bytes)
      → (set s key value >>= λ s'. get fuel s' j) ≡ (
          if eq_bytes key []
          then panic
          else if eq_bytes j key
          then ok (some value)
          else get fuel s j)
  unfolding set get cmp
  get-set fuel s [] value j = refl
  get-set fuel s (b ∷ key) value j = ground (arith, get-insert j (b ∷ key) value s.tx_cache)

  -- Moving the transaction's writes, a sorted map, to the block's changes no read.
  pub get-write_then_clear_tx_cache :
      (fuel : ℕ) (s : KvStore S) (key : Bytes)
      → IsSorted s.tx_cache
      → get fuel (write_then_clear_tx_cache s) key ≡ get fuel s key
  unfolding get write_then_clear_tx_cache BTreeMap.get
  get-write_then_clear_tx_cache fuel s key h =
      ground (arith, get-absorb key s.tx_cache s.block_cache h)

  get-Fills :
      (t : Tree S) (shape : Shape) (m : BTreeMap Bytes) (key : Bytes)
      → t.root ≡ some (in_memory shape)
      → Fills shape m
      → length m < 2 ^ 127
      → Tree.get 255 t key ≡ ok (BTreeMap.get key m)
  unfolding Tree.get
  get-Fills t shape m key e f h =
      let few : leaves shape < 2 ^ 127 = omega (arith, f.counted) in
      let low = depth-le shape f.cached f.balanced few in
      rw (e, ← f.contents)
        (recursive_get-eq-get t.node_db 255 (in_memory shape) shape key
          (Loads-in_memory t.node_db shape) f.ordered low)

  read_tx :
      (fuel : ℕ) (s : KvStore S) (key v : Bytes)
      → BTreeMap.get key s.tx_cache ≡ some v
      → get fuel s key ≡ ok (some v)
  unfolding get
  read_tx fuel s key v h = ground (arith, h)

  read_block :
      (fuel : ℕ) (s : KvStore S) (key v : Bytes)
      → BTreeMap.get key s.tx_cache ≡ none
      → BTreeMap.get key s.block_cache ≡ some v
      → get fuel s key ≡ ok (some v)
  unfolding get
  read_block fuel s key v h k = ground (arith, h, k)

  read_tree :
      (fuel : ℕ) (s : KvStore S) (key : Bytes)
      → BTreeMap.get key s.tx_cache ≡ none
      → BTreeMap.get key s.block_cache ≡ none
      → get fuel s key ≡ Tree.get fuel s.persistent_store key
  unfolding get
  read_tree fuel s key h k = ground (arith, h, k)

  empty_tree :
      (s : KvStore S) (key : Bytes)
      → s.persistent_store.root ≡ none
      → Tree.get 255 s.persistent_store key ≡ ok none
  unfolding Tree.get
  empty_tree s key h = ground (arith, h)

  -- What stands above the tree's answer when the tree is empty.
  read_cached :
      (s : KvStore S) (key : Bytes)
      → s.persistent_store.root ≡ none
      → BTreeMap.get key s.tx_cache ≡ none
      → get 255 s key ≡ ok (BTreeMap.get key s.block_cache)
  read_cached s key e n = elim (Option-cases (BTreeMap.get key s.block_cache)) [
    | inl p ↦ read_tree 255 s key n p ∙ empty_tree s key e ∙ ap ok (sym p)
    | inr (v, p) ↦ read_block 255 s key v n p ∙ ap ok (sym p)
  ]

  read_flushed :
      (s : KvStore S) (t : Tree S) (key : Bytes)
      → s.persistent_store.root ≡ none
      → Tree.get 255 t key ≡ ok (BTreeMap.get key s.block_cache)
      → get 255 (record s { persistent_store = t; block_cache = [] }) key ≡ get 255 s key
  read_flushed s t key e h =
      let s' = record s { persistent_store = t; block_cache = [] } in
      elim (Option-cases (BTreeMap.get key s.tx_cache)) [
        | inl n ↦
            read_tree 255 s' key n (unfold BTreeMap.get in refl) ∙ h ∙ sym (read_cached s key e n)
        | inr (v, n) ↦ read_tx 255 s' key v n ∙ sym (read_tx 255 s key v n)
      ]

  -- Flushing a sorted, non-empty block cache of fewer than 2 ^ 127 entries into an empty tree
  -- returns with fuel 255, empties the block cache and changes no read.
  pub get-write_then_clear_block_cache :
      (s : KvStore S) (k v : Bytes) (rest : BTreeMap Bytes)
      → s.persistent_store.root ≡ none
      → s.block_cache ≡ (k, v) ∷ rest
      → IsSorted s.block_cache
      → length rest + 1 < 2 ^ 127
      → (s' : KvStore S) × (write_then_clear_block_cache 255 s ≡ ok s')
        × (s'.block_cache ≡ [])
        × ((key : Bytes) → get 255 s' key ≡ get 255 s key)
  unfolding get write_then_clear_block_cache Tree.get BTreeMap.get
  get-write_then_clear_block_cache s k v rest e b o h =
      let (t, shape, e', r, f) = set_all-Fills s.persistent_store k v rest e (rw b at o) h in
      (
        record s { persistent_store = t; block_cache = [] },
        rw (b, e') refl,
        refl,
        λ key. read_flushed s t key e (
            get-Fills t shape ((k, v) ∷ rest) key r f (omega arith)
            ∙ ap (λ m. ok (BTreeMap.get key m)) (sym b)),
      )

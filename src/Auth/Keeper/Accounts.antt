-- ===== src/Auth/Keeper/Accounts.antt =====
-- The accounts and the number of an auth store: what a write of one changes.
use doge_sdk.Base.{ℕ, ◌^◌, ◌<◌, ◌≡◌, refl, some, [], ◌∷◌, arith, if◌then◌else◌}
use doge_sdk.Base.Bytes.{Bytes, cmp, eq_bytes}
use doge_sdk.Base.BTreeMap
use doge_sdk.Database.Record.{Database}
use doge_sdk.Trees.External.{External}
use doge_sdk.Trees.Outcome.{ok, ◌>>=◌}
use doge_sdk.Store.KvStore
use doge_sdk.Store.KvStore.{KvStore}
use doge_sdk.Store.KvStore.Reads.{get-set}
use doge_sdk.Messages.Crates.{Crates, Codec, IsLawful}
use doge_sdk.Messages.Account.{Account, get_address, encode_vec, IsAccount, decode-encode_vec}
use doge_sdk.Auth.Keeper.{
  create_auth_store_key, global_account_number_key, set_account, get_account, read_number,
}

-- `u64` values are read back.
abbrev pub ReadsBack : Codec ℕ → Type 0
ReadsBack n = (k : ℕ) → k < 2 ^ 64 → n.decode (n.encode k) ≡ some k

-- The key of the number after its first byte.
abbrev key_rest : Bytes
key_rest =
    108 ∷ 111 ∷ 98 ∷ 97 ∷ 108 ∷ 65 ∷ 99 ∷ 99 ∷ 111 ∷ 117 ∷ 110 ∷ 116 ∷ 78 ∷ 117 ∷ 109 ∷ 98 ∷ 101
    ∷ 114 ∷ []

module _ {S : Type 0} where
  abbrev put : KvStore S → Bytes → Bytes → KvStore S
  put s key value = record s { tx_cache = BTreeMap.insert key value s.tx_cache }

  unfoldable pub with_account : ⦃c : Crates⦄ → KvStore S → Account → KvStore S
  unfolding create_auth_store_key
  with_account s a = put s (create_auth_store_key (get_address a)) (encode_vec a)

  unfoldable pub with_number : ⦃n : Codec ℕ⦄ → KvStore S → ℕ → KvStore S
  with_number ⦃n⦄ s k = put s global_account_number_key (n.encode k)

  pub set_account-eq-with_account :
      ⦃c : Crates⦄ (s : KvStore S) (a : Account) → set_account s a ≡ ok (with_account s a)
  unfolding set_account with_account KvStore.set create_auth_store_key
  set_account-eq-with_account s a = refl

module _ ⦃x : External⦄ {S : Type 0} ⦃d : Database S⦄ (fuel : ℕ) where
  get-put :
      (s : KvStore S) (b : ℕ) (key value j : Bytes)
      → KvStore.get fuel (put s (b ∷ key) value) j
        ≡ (if eq_bytes j (b ∷ key) then ok (some value) else KvStore.get fuel s j)
  unfolding KvStore.set cmp
  get-put s b key value j = get-set fuel s (b ∷ key) value j

  pub get-with_account :
      ⦃c : Crates⦄ (s : KvStore S) (a : Account) (addr : Bytes)
      → KvStore.get fuel (with_account s a) (create_auth_store_key addr) ≡ (
          if eq_bytes addr (get_address a)
          then ok (some (encode_vec a))
          else KvStore.get fuel s (create_auth_store_key addr))
  unfolding with_account create_auth_store_key cmp
  get-with_account s a addr = get-put s 1 (get_address a) (encode_vec a) (1 ∷ addr)

  pub get-with_number :
      ⦃n : Codec ℕ⦄ (s : KvStore S) (k : ℕ) (addr : Bytes)
      → KvStore.get fuel (with_number s k) (create_auth_store_key addr)
        ≡ KvStore.get fuel s (create_auth_store_key addr)
  unfolding with_number create_auth_store_key cmp
  get-with_number ⦃n⦄ s k addr = get-put s 103 key_rest (n.encode k) (1 ∷ addr)

  pub get_account-with_account :
      ⦃c : Crates⦄ (law : IsLawful c) (s : KvStore S) (a : Account) (addr : Bytes)
      → IsAccount a
      → get_account fuel (with_account s a) addr
        ≡ (if eq_bytes addr (get_address a) then ok (some a) else get_account fuel s addr)
  unfolding get_account
  get_account-with_account law s a addr h =
      rw (get-with_account s a addr) (ground (arith, decode-encode_vec law a h))

  -- A read of an account after a write of one: the account written if the addresses agree, and
  -- otherwise what was there, for an account whose address has at most 255 bytes and whose numbers
  -- fit a `u64`.
  pub get_account-set_account :
      ⦃c : Crates⦄ (law : IsLawful c) (s : KvStore S) (a : Account) (addr : Bytes)
      → IsAccount a
      → (set_account s a >>= λ s'. get_account fuel s' addr)
        ≡ (if eq_bytes addr (get_address a) then ok (some a) else get_account fuel s addr)
  get_account-set_account law s a addr h =
      rw (set_account-eq-with_account s a) (get_account-with_account law s a addr h)

  pub get_account-with_number :
      ⦃c : Crates⦄ ⦃n : Codec ℕ⦄ (s : KvStore S) (k : ℕ) (addr : Bytes)
      → get_account fuel (with_number s k) addr ≡ get_account fuel s addr
  unfolding get_account
  get_account-with_number s k addr = rw (get-with_number s k addr) refl

  pub read_number-with_number :
      ⦃n : Codec ℕ⦄ (law : ReadsBack n) (s : KvStore S) (k : ℕ)
      → k < 2 ^ 64
      → read_number fuel (with_number s k) ≡ ok k
  unfolding read_number with_number cmp
  read_number-with_number ⦃n⦄ law s k h =
      rw (get-put s 103 key_rest (n.encode k) (103 ∷ key_rest)) (ground (arith, law k h))

  pub read_number-with_account :
      ⦃c : Crates⦄ ⦃n : Codec ℕ⦄ (s : KvStore S) (a : Account)
      → read_number fuel (with_account s a) ≡ read_number fuel s
  unfolding read_number with_account create_auth_store_key cmp
  read_number-with_account s a =
      rw (get-put s 1 (get_address a) (encode_vec a) (103 ∷ key_rest)) refl

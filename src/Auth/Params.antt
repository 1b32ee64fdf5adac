-- ===== src/Auth/Params.antt =====
-- `Params` of gears/src/x/auth/params.rs and `AuthParamsKeeper` of x/auth/src/params.rs, over the
-- store of the parameters and the prefix of the subspace (gears/src/x/params/keeper.rs).
use doge_sdk.Base.{ℕ, ◌^◌, ◌<◌, ◌≡◌, refl, Option, none, some, [], ◌∷◌, ◌++◌, ◌==◌, if◌then◌else◌}
use doge_sdk.Base.Bytes.{Bytes, cmp}
use doge_sdk.Base.Decimal.{to_string, parse, parse-to_string}
use doge_sdk.Database.Record.{Database}
use doge_sdk.Trees.External.{External}
use doge_sdk.Trees.Outcome.{Outcome, ok, expect, ◌>>=◌}
use doge_sdk.Store.KvStore.{KvStore, prefix_get, prefix_set}
use doge_sdk.Store.KvStore.Subspace.{
  Writes, written, last_of, put, prefix_set-put, prefix_get-written,
}

pub record Params : Type 0 where
  pub max_memo_characters : ℕ
  pub tx_sig_limit : ℕ
  pub tx_size_cost_per_byte : ℕ
  pub sig_verify_cost_ed25519 : ℕ
  pub sig_verify_cost_secp256k1 : ℕ

-- "MaxMemoCharacters", "TxSigLimit", "TxSizeCostPerByte", "SigVerifyCostED25519" and
-- "SigVerifyCostSecp256k1".
abbrev pub key_max_memo_characters : Bytes
key_max_memo_characters =
    77 ∷ 97 ∷ 120 ∷ 77 ∷ 101 ∷ 109 ∷ 111 ∷ 67 ∷ 104 ∷ 97 ∷ 114 ∷ 97 ∷ 99 ∷ 116 ∷ 101 ∷ 114 ∷ 115
    ∷ []

abbrev pub key_tx_sig_limit : Bytes
key_tx_sig_limit = 84 ∷ 120 ∷ 83 ∷ 105 ∷ 103 ∷ 76 ∷ 105 ∷ 109 ∷ 105 ∷ 116 ∷ []

abbrev pub key_tx_size_cost_per_byte : Bytes
key_tx_size_cost_per_byte =
    84 ∷ 120 ∷ 83 ∷ 105 ∷ 122 ∷ 101 ∷ 67 ∷ 111 ∷ 115 ∷ 116 ∷ 80 ∷ 101 ∷ 114 ∷ 66 ∷ 121 ∷ 116 ∷ 101
    ∷ []

abbrev pub key_sig_verify_cost_ed25519 : Bytes
key_sig_verify_cost_ed25519 =
    83 ∷ 105 ∷ 103 ∷ 86 ∷ 101 ∷ 114 ∷ 105 ∷ 102 ∷ 121 ∷ 67 ∷ 111 ∷ 115 ∷ 116 ∷ 69 ∷ 68 ∷ 50 ∷ 53
    ∷ 53 ∷ 49 ∷ 57 ∷ []

abbrev pub key_sig_verify_cost_secp256k1 : Bytes
key_sig_verify_cost_secp256k1 =
    83 ∷ 105 ∷ 103 ∷ 86 ∷ 101 ∷ 114 ∷ 105 ∷ 102 ∷ 121 ∷ 67 ∷ 111 ∷ 115 ∷ 116 ∷ 83 ∷ 101 ∷ 99 ∷ 112
    ∷ 50 ∷ 53 ∷ 54 ∷ 107 ∷ 49 ∷ []

abbrev pub default_params : Params
default_params = record {
  max_memo_characters = 256;
  tx_sig_limit = 7;
  tx_size_cost_per_byte = 10;
  sig_verify_cost_ed25519 = 590;
  sig_verify_cost_secp256k1 = 1000;
}

-- A quotation mark, as the last byte and as the first.
unfoldable strip_suffix : Bytes → Option Bytes
strip_suffix [] = none
strip_suffix (b ∷ []) = if b == 34 then some [] else none
strip_suffix (b ∷ c ∷ bs) = elim (strip_suffix (c ∷ bs)) [
  | none ↦ none
  | some init ↦ some (b ∷ init)
]

unfoldable strip_prefix : Bytes → Option Bytes
strip_prefix [] = none
strip_prefix (b ∷ bs) = if b == 34 then some bs else none

-- The text that `format!` writes.
unfoldable pub quote : ℕ → Bytes
unfolding to_string
quote n = 34 ∷ to_string n ++ 34 ∷ []

-- Bytes that are no UTF-8 are a panic here as there, since they are no digits.
unfoldable pub parse_param : Bytes → Outcome ℕ
unfolding strip_suffix strip_prefix parse
parse_param value = do
  without_end ← expect (strip_suffix value)
  inside ← expect (strip_prefix without_end)
  expect (parse inside)

module _ ⦃x : External⦄ {S : Type 0} ⦃d : Database S⦄ (fuel : ℕ) where
  unfoldable pub get_raw_param : KvStore S → Bytes → Bytes → Outcome Bytes
  unfolding prefix_get
  get_raw_param s subspace key = do found ← prefix_get fuel s subspace key; expect found

  unfoldable pub get : KvStore S → Bytes → Outcome Params
  unfolding get_raw_param parse_param
  get s subspace = do
    raw1 ← get_raw_param s subspace key_max_memo_characters
    n1 ← parse_param raw1
    raw2 ← get_raw_param s subspace key_tx_sig_limit
    n2 ← parse_param raw2
    raw3 ← get_raw_param s subspace key_tx_size_cost_per_byte
    n3 ← parse_param raw3
    raw4 ← get_raw_param s subspace key_sig_verify_cost_ed25519
    n4 ← parse_param raw4
    raw5 ← get_raw_param s subspace key_sig_verify_cost_secp256k1
    n5 ← parse_param raw5
    ok (record {
      max_memo_characters = n1;
      tx_sig_limit = n2;
      tx_size_cost_per_byte = n3;
      sig_verify_cost_ed25519 = n4;
      sig_verify_cost_secp256k1 = n5;
    })

unfoldable pub set : {S : Type 0} → KvStore S → Bytes → Params → Outcome (KvStore S)
unfolding prefix_set quote
set s subspace params = do
  s1 ← prefix_set s subspace key_max_memo_characters (quote params.max_memo_characters)
  s2 ← prefix_set s1 subspace key_tx_sig_limit (quote params.tx_sig_limit)
  s3 ← prefix_set s2 subspace key_tx_size_cost_per_byte (quote params.tx_size_cost_per_byte)
  s4 ← prefix_set s3 subspace key_sig_verify_cost_ed25519 (quote params.sig_verify_cost_ed25519)
  prefix_set s4 subspace key_sig_verify_cost_secp256k1 (quote params.sig_verify_cost_secp256k1)

strip_suffix-snoc : (b : ℕ) (bs : Bytes) → strip_suffix (b ∷ bs ++ 34 ∷ []) ≡ some (b ∷ bs)
unfolding strip_suffix
strip_suffix-snoc b [] = refl
strip_suffix-snoc b (c ∷ bs) = rw (strip_suffix-snoc c bs) refl

parse_param-quote : (n : ℕ) → n < 2 ^ 64 → parse_param (quote n) ≡ ok n
unfolding parse_param quote strip_prefix
parse_param-quote n h = rw (strip_suffix-snoc 34 (to_string n), parse-to_string n h) refl

-- The writes of `set`, each key as its first byte and its rest.
abbrev writes : Params → Writes
writes p =
    (
      (
        77,
        97 ∷ 120 ∷ 77 ∷ 101 ∷ 109 ∷ 111 ∷ 67 ∷ 104 ∷ 97 ∷ 114 ∷ 97 ∷ 99 ∷ 116 ∷ 101 ∷ 114 ∷ 115
            ∷ [],
      ),
      quote p.max_memo_characters,
    )
    ∷ ((84, 120 ∷ 83 ∷ 105 ∷ 103 ∷ 76 ∷ 105 ∷ 109 ∷ 105 ∷ 116 ∷ []), quote p.tx_sig_limit)
    ∷ (
      (
        84,
        120 ∷ 83 ∷ 105 ∷ 122 ∷ 101 ∷ 67 ∷ 111 ∷ 115 ∷ 116 ∷ 80 ∷ 101 ∷ 114 ∷ 66 ∷ 121 ∷ 116 ∷ 101
            ∷ [],
      ),
      quote p.tx_size_cost_per_byte,
    )
    ∷ (
      (
        83,
        105 ∷ 103 ∷ 86 ∷ 101 ∷ 114 ∷ 105 ∷ 102 ∷ 121 ∷ 67 ∷ 111 ∷ 115 ∷ 116 ∷ 69 ∷ 68 ∷ 50 ∷ 53 ∷ 53
            ∷ 49 ∷ 57 ∷ [],
      ),
      quote p.sig_verify_cost_ed25519,
    )
    ∷ (
      (
        83,
        105 ∷ 103 ∷ 86 ∷ 101 ∷ 114 ∷ 105 ∷ 102 ∷ 121 ∷ 67 ∷ 111 ∷ 115 ∷ 116 ∷ 83 ∷ 101 ∷ 99 ∷ 112
            ∷ 50 ∷ 53 ∷ 54 ∷ 107 ∷ 49 ∷ [],
      ),
      quote p.sig_verify_cost_secp256k1,
    )
    ∷ []

set-written :
    {S : Type 0} (s : KvStore S) (subspace : Bytes) (p : Params)
    → set s subspace p ≡ ok (written s subspace (writes p))
unfolding set written
set-written s subspace p =
    let s1 = put s (subspace ++ key_max_memo_characters) (quote p.max_memo_characters) in
    let s2 = put s1 (subspace ++ key_tx_sig_limit) (quote p.tx_sig_limit) in
    let s3 = put s2 (subspace ++ key_tx_size_cost_per_byte) (quote p.tx_size_cost_per_byte) in
    let s4 = put s3 (subspace ++ key_sig_verify_cost_ed25519) (quote p.sig_verify_cost_ed25519) in
    let s5 =
      put s4 (subspace ++ key_sig_verify_cost_secp256k1) (quote p.sig_verify_cost_secp256k1) in
    rw
      (
        prefix_set-put s subspace 77
            (97 ∷ 120 ∷ 77 ∷ 101 ∷ 109 ∷ 111 ∷ 67 ∷ 104 ∷ 97 ∷ 114 ∷ 97 ∷ 99 ∷ 116 ∷ 101 ∷ 114 ∷ 115
              ∷ [])
            (quote p.max_memo_characters),
        prefix_set-put s1 subspace 84 (120 ∷ 83 ∷ 105 ∷ 103 ∷ 76 ∷ 105 ∷ 109 ∷ 105 ∷ 116 ∷ [])
            (quote p.tx_sig_limit),
        prefix_set-put s2 subspace 84
            (120 ∷ 83 ∷ 105 ∷ 122 ∷ 101 ∷ 67 ∷ 111 ∷ 115 ∷ 116 ∷ 80 ∷ 101 ∷ 114 ∷ 66 ∷ 121 ∷ 116
              ∷ 101 ∷ [])
            (quote p.tx_size_cost_per_byte),
        prefix_set-put s3 subspace 83
            (105 ∷ 103 ∷ 86 ∷ 101 ∷ 114 ∷ 105 ∷ 102 ∷ 121 ∷ 67 ∷ 111 ∷ 115 ∷ 116 ∷ 69 ∷ 68 ∷ 50 ∷ 53
              ∷ 53 ∷ 49 ∷ 57 ∷ [])
            (quote p.sig_verify_cost_ed25519),
        prefix_set-put s4 subspace 83
            (105 ∷ 103 ∷ 86 ∷ 101 ∷ 114 ∷ 105 ∷ 102 ∷ 121 ∷ 67 ∷ 111 ∷ 115 ∷ 116 ∷ 83 ∷ 101 ∷ 99
              ∷ 112 ∷ 50 ∷ 53 ∷ 54 ∷ 107 ∷ 49 ∷ [])
            (quote p.sig_verify_cost_secp256k1),
      )
      refl

module _ ⦃x : External⦄ {S : Type 0} ⦃d : Database S⦄ (fuel : ℕ) where
  get_raw_param-written :
      (s : KvStore S) (subspace : Bytes) (p : Params) (key v : Bytes)
      → last_of key (writes p) ≡ some v
      → get_raw_param fuel (written s subspace (writes p)) subspace key ≡ ok v
  unfolding get_raw_param
  get_raw_param-written s subspace p key v h =
      rw (prefix_get-written fuel s subspace (writes p) key v h) refl

  -- Parameters that fit a `u64` are read back after they are stored.
  pub get-set_params :
      (s : KvStore S) (subspace : Bytes) (p : Params)
      → p.max_memo_characters < 2 ^ 64
      → p.tx_sig_limit < 2 ^ 64
      → p.tx_size_cost_per_byte < 2 ^ 64
      → p.sig_verify_cost_ed25519 < 2 ^ 64
      → p.sig_verify_cost_secp256k1 < 2 ^ 64
      → (set s subspace p >>= λ s'. get fuel s' subspace) ≡ ok p
  unfolding get cmp
  get-set_params s subspace p h1 h2 h3 h4 h5 =
      rw
        (
          set-written s subspace p,
          get_raw_param-written s subspace p key_max_memo_characters (quote p.max_memo_characters)
              refl,
          parse_param-quote p.max_memo_characters h1,
          get_raw_param-written s subspace p key_tx_sig_limit (quote p.tx_sig_limit) refl,
          parse_param-quote p.tx_sig_limit h2,
          get_raw_param-written s subspace p key_tx_size_cost_per_byte
              (quote p.tx_size_cost_per_byte) refl,
          parse_param-quote p.tx_size_cost_per_byte h3,
          get_raw_param-written s subspace p key_sig_verify_cost_ed25519
              (quote p.sig_verify_cost_ed25519) refl,
          parse_param-quote p.sig_verify_cost_ed25519 h4,
          get_raw_param-written s subspace p key_sig_verify_cost_secp256k1
              (quote p.sig_verify_cost_secp256k1) refl,
          parse_param-quote p.sig_verify_cost_secp256k1 h5,
        )
        refl

-- ===== src/Auth/Keeper/Numbers.antt =====
-- The accounts of a store with their numbers, against the number that is stored.
use doge_sdk.Base.{
  ℕ, ◌+◌, ◌%◌, ◌^◌, ◌<◌, ◌≡◌, ◌⊎◌, refl, sym, ap, ◌∙◌, Bool-cases, Option-cases, inl, inr, Option,
  none, some, List, [], ◌∷◌, All, length, arith, if◌then◌else◌,
}
use std.Path.{subst}
use doge_sdk.Base.Bytes.{Bytes, eq_bytes, eq_of_cmp, cmp_refl}
use doge_sdk.Database.Record.{Database}
use doge_sdk.Trees.External.{External}
use doge_sdk.Trees.Outcome.{ok, ◌>>=◌}
use doge_sdk.Store.KvStore
use doge_sdk.Store.KvStore.{KvStore}
use doge_sdk.Messages.Crates.{Crates, Codec, IsLawful}
use doge_sdk.Messages.Address.{IsAddress}
use doge_sdk.Messages.Account.{
  Account, BaseAccount, base, module_account, get_address, get_account_number, IsAccount,
  encode_vec,
}
use doge_sdk.Auth.Module.{Module, fee_collector, get_module_address, get_name, get_permissions}
use doge_sdk.Auth.Keeper.{
  global_account_number_key, create_auth_store_key, get_account, has_account, read_number,
  get_next_account_number, create_new_base_account, check_create_new_module_account, add_accounts,
  init_genesis,
}
use doge_sdk.Auth.Keeper.Accounts.{
  ReadsBack, with_account, with_number, set_account-eq-with_account, get-with_account,
  get-with_number, get_account-with_account, get_account-with_number, read_number-with_number,
  read_number-with_account,
}

-- The account that `create_new_base_account` writes.
abbrev pub fresh : Bytes → ℕ → Account
fresh addr k = base (record { address = addr; pub_key = none; account_number = k; sequence = 0 })

-- The account that `check_create_new_module_account` writes.
abbrev pub fresh_module : Module → Bytes → ℕ → Account
fresh_module m addr k = module_account (record {
  base_account = record { address = addr; pub_key = none; account_number = k; sequence = 0 };
  name = get_name m;
  permissions = get_permissions m;
})

-- The accounts of a genesis have addresses, and their sequences fit.
abbrev pub IsGenesis : List BaseAccount → Type 0
IsGenesis = All (λ a. IsAddress a.address × (a.sequence < 2 ^ 64))

module _ ⦃x : External⦄ {S : Type 0} ⦃d : Database S⦄ ⦃c : Crates⦄ ⦃n : Codec ℕ⦄ (fuel : ℕ) where
  -- The number that is stored is `k`, every read of an account's bytes returns, every account has
  -- a number below `k`, and accounts under different addresses have different numbers.
  pub record Numbered (s : KvStore S) (k : ℕ) : Type 0 where
    pub stored : read_number fuel s ≡ ok k
    pub reads :
        (addr : Bytes)
        → (o : Option Bytes) × (KvStore.get fuel s (create_auth_store_key addr) ≡ ok o)
    pub below :
        (addr : Bytes) (a : Account)
        → get_account fuel s addr ≡ ok (some a)
        → get_account_number a < k
    pub distinct :
        (i j : Bytes) (a b : Account)
        → get_account fuel s i ≡ ok (some a)
        → get_account fuel s j ≡ ok (some b)
        → get_account_number a ≡ get_account_number b
        → i ≡ j

  no_account :
      (s : KvStore S) (addr : Bytes)
      → KvStore.get fuel s (create_auth_store_key addr) ≡ ok none
      → get_account fuel s addr ≡ ok none
  unfolding get_account
  no_account s addr h = rw h refl

  -- A store without accounts and without a number.
  pub Numbered-empty :
      (s : KvStore S) → ((key : Bytes) → KvStore.get fuel s key ≡ ok none) → Numbered s 0
  unfolding read_number get_account
  Numbered-empty s h = record {
    stored = rw (h global_account_number_key) refl;
    reads = λ addr. (none, h (create_auth_store_key addr));
    below = λ addr a g. absurd (cc (no_account s addr (h (create_auth_store_key addr))));
    distinct = λ i j a b g k e. absurd (cc (no_account s i (h (create_auth_store_key i))));
  }

  -- The store after an account is added with the number `k`.
  abbrev added : KvStore S → ℕ → Account → KvStore S
  added s k a = with_account (with_number s ((k + 1) % 2 ^ 64)) a

  -- Nothing is done for an account that is there, and otherwise it is created.
  abbrev pub Checked : KvStore S → ℕ → Module → Bytes → KvStore S → Type 0
  Checked s k m addr s' =
      ((v : Bytes) × (KvStore.get fuel s (create_auth_store_key addr) ≡ ok (some v))
        × (s' ≡ s)
        × Numbered s' k)
      ⊎ ((KvStore.get fuel s (create_auth_store_key addr) ≡ ok none)
          × ((other : Bytes)
              → get_account fuel s' other ≡ (
                  if eq_bytes other addr
                  then ok (some (fresh_module m addr k))
                  else get_account fuel s other))
          × Numbered s' (k + 1))

  module _ (law : IsLawful c) (back : ReadsBack n) where
    get_account-added :
        (s : KvStore S) (k : ℕ) (a : Account) (addr : Bytes)
        → IsAccount a
        → get_account fuel (added s k a) addr
          ≡ (if eq_bytes addr (get_address a) then ok (some a) else get_account fuel s addr)
    get_account-added s k a addr h =
        get_account-with_account fuel law (with_number s ((k + 1) % 2 ^ 64)) a addr h
        ∙ rw (get_account-with_number fuel s ((k + 1) % 2 ^ 64) addr) refl

    get-added :
        (s : KvStore S) (k : ℕ) (a : Account) (addr : Bytes)
        → KvStore.get fuel (added s k a) (create_auth_store_key addr) ≡ (
            if eq_bytes addr (get_address a)
            then ok (some (encode_vec a))
            else KvStore.get fuel s (create_auth_store_key addr))
    get-added s k a addr =
        get-with_account fuel (with_number s ((k + 1) % 2 ^ 64)) a addr
        ∙ rw (get-with_number fuel s ((k + 1) % 2 ^ 64) addr) refl

    -- What stands under an address after the addition: the new account, or what was there.
    added-cases :
        (s : KvStore S) (k : ℕ) (a b : Account) (addr : Bytes)
        → IsAccount a
        → get_account fuel (added s k a) addr ≡ ok (some b)
        → ((addr ≡ get_address a) × (b ≡ a)) ⊎ (get_account fuel s addr ≡ ok (some b))
    added-cases s k a b addr h e = elim (Bool-cases (eq_bytes addr (get_address a))) [
      | inl p ↦ inl (
        eq_of_cmp addr (get_address a) (ground arith),
        ground (arith, get_account-added s k a addr h),
      )
      | inr p ↦ inr (ground (arith, get_account-added s k a addr h))
    ]

    Numbered-added :
        (s : KvStore S) (k : ℕ) (a : Account)
        → Numbered s k
        → k + 1 < 2 ^ 64
        → IsAccount a
        → get_account_number a ≡ k
        → Numbered (added s k a) (k + 1)
    Numbered-added s k a i h o e = record {
      stored =
          read_number-with_account fuel (with_number s ((k + 1) % 2 ^ 64)) a
          ∙ read_number-with_number fuel back s ((k + 1) % 2 ^ 64) (omega arith)
          ∙ ap ok (omega arith);
      reads = λ addr. elim (Bool-cases (eq_bytes addr (get_address a))) [
        | inl p ↦ (some (encode_vec a), get-added s k a addr ∙ rw p refl)
        | inr p ↦ let (r, q) = i.reads addr in (r, get-added s k a addr ∙ rw p q)
      ];
      below = λ addr b g. elim (added-cases s k a b addr o g) [
        | inl (_, q) ↦ rw (q, e) (omega arith)
        | inr q ↦ ground (arith, i.below addr b q)
      ];
      distinct = λ addr1 addr2 b1 b2 g1 g2 q. elim (added-cases s k a b1 addr1 o g1) [
        | inl (p1, q1) ↦ elim (added-cases s k a b2 addr2 o g2) [
          | inl (p2, q2) ↦ p1 ∙ sym p2
          | inr q2 ↦ absurd (omega (arith, i.below addr2 b2 q2, rw q1 at q))
        ]
        | inr q1 ↦ elim (added-cases s k a b2 addr2 o g2) [
          | inl (p2, q2) ↦ absurd (omega (arith, i.below addr1 b1 q1, rw q2 at q))
          | inr q2 ↦ i.distinct addr1 addr2 b1 b2 q1 q2 q
        ]
      ];
    }

    get_next_account_number-ok :
        (s : KvStore S) (k : ℕ)
        → read_number fuel s ≡ ok k
        → get_next_account_number fuel s ≡ ok (k, with_number s ((k + 1) % 2 ^ 64))
    unfolding get_next_account_number with_number KvStore.set
    get_next_account_number-ok s k e = rw e refl

    -- A new account takes the next number, and the numbers stay distinct.
    pub create_new_base_account-Numbered :
        (s : KvStore S) (k : ℕ) (addr : Bytes)
        → Numbered s k
        → k + 1 < 2 ^ 64
        → IsAddress addr
        → (s' : KvStore S) × (create_new_base_account fuel s addr ≡ ok s')
          × (get_account fuel s' addr ≡ ok (some (fresh addr k)))
          × Numbered s' (k + 1)
    unfolding create_new_base_account get_account_number get_address
    create_new_base_account-Numbered s k addr i h o = (
      added s k (fresh addr k),
      rw (get_next_account_number-ok s k i.stored)
          (set_account-eq-with_account (with_number s ((k + 1) % 2 ^ 64)) (fresh addr k)),
      get_account-added s k (fresh addr k) addr (o, omega arith, omega arith)
          ∙ ground (arith, cmp_refl addr),
      Numbered-added s k (fresh addr k) i h (o, omega arith, omega arith) refl,
    )

    add_accounts-step :
        (s : KvStore S) (k : ℕ) (acct : BaseAccount) (accounts : List BaseAccount)
        → read_number fuel s ≡ ok k
        → add_accounts fuel s (acct ∷ accounts)
          ≡ add_accounts fuel (added s k (base (record acct { account_number = k }))) accounts
    unfolding add_accounts
    add_accounts-step s k acct accounts e = rw (get_next_account_number-ok s k e) (
        ap (λ r. r >>= λ s2. add_accounts fuel s2 accounts)
          (set_account-eq-with_account (with_number s ((k + 1) % 2 ^ 64))
            (base (record acct { account_number = k }))))

    add_accounts-Numbered :
        (s : KvStore S) (k : ℕ) (accounts : List BaseAccount)
        → Numbered s k
        → k + length accounts < 2 ^ 64
        → IsGenesis accounts
        → (s' : KvStore S) × (add_accounts fuel s accounts ≡ ok s')
          × Numbered s' (k + length accounts)
    unfolding get_account_number
    add_accounts-Numbered s k [] i h g =
        (s, unfold add_accounts in refl, subst (Numbered s) (omega arith) i)
    add_accounts-Numbered s k (acct ∷ accounts) i h g =
        let a = base (record acct { account_number = k }) in
        let i' = Numbered-added s k a i (omega arith) (g.0.0, omega arith, g.0.1) refl in
        let (s', e, j) =
          add_accounts-Numbered (added s k a) (k + 1) accounts i' (omega arith) g.1 in
        (s', add_accounts-step s k acct accounts i.stored ∙ e, subst (Numbered s') (omega arith) j)

    pub check_create-old :
        (s : KvStore S) (m : Module) (addr v : Bytes)
        → get_module_address m ≡ ok addr
        → KvStore.get fuel s (create_auth_store_key addr) ≡ ok (some v)
        → check_create_new_module_account fuel s m ≡ ok s
    unfolding check_create_new_module_account has_account
    check_create-old s m addr v e f = rw (e, f) refl

    check_create-new :
        (s : KvStore S) (m : Module) (k : ℕ) (addr : Bytes)
        → get_module_address m ≡ ok addr
        → KvStore.get fuel s (create_auth_store_key addr) ≡ ok none
        → read_number fuel s ≡ ok k
        → check_create_new_module_account fuel s m ≡ ok (added s k (fresh_module m addr k))
    unfolding check_create_new_module_account has_account
    check_create-new s m k addr e f g =
        rw (e, f, get_next_account_number-ok s k g)
          (set_account-eq-with_account (with_number s ((k + 1) % 2 ^ 64)) (fresh_module m addr k))

    -- In a store whose accounts have distinct numbers, of which `k` is the next and not the last one
    -- that a `u64` holds, over crates that decode what they encode: the check of the account of a
    -- module whose address has at most 255 bytes returns. If the account's bytes are there, the store stays as it is.
    -- Otherwise the module's account stands under its address with the number `k`, with the
    -- module's name and permissions, every other account is as it was, and the numbers are distinct
    -- and below `k + 1`, the next one. A second check changes nothing.
    pub check_create_new_module_account-Numbered :
        (s : KvStore S) (k : ℕ) (m : Module) (addr : Bytes)
        → Numbered s k
        → k + 1 < 2 ^ 64
        → get_module_address m ≡ ok addr
        → IsAddress addr
        → (s' : KvStore S) × (check_create_new_module_account fuel s m ≡ ok s')
          × (check_create_new_module_account fuel s' m ≡ ok s')
          × Checked s k m addr s'
    unfolding get_account_number get_address
    check_create_new_module_account-Numbered s k m addr i h e o =
        elim (Option-cases (i.reads addr).0) [
          | inl p ↦
              let a = fresh_module m addr k in
              let held : KvStore.get fuel (added s k a) (create_auth_store_key addr)
                  ≡ ok (some (encode_vec a)) =
                get-added s k a addr ∙ ground (arith, cmp_refl addr) in
              let none_there = (i.reads addr).1 ∙ ap ok p in
              (
                added s k a,
                check_create-new s m k addr e none_there i.stored,
                check_create-old (added s k a) m addr (encode_vec a) e held,
                inr (
                  none_there,
                  λ other. get_account-added s k a other (o, omega arith, omega arith),
                  Numbered-added s k a i h (o, omega arith, omega arith) refl,
                ),
              )
          | inr (v, p) ↦
              let there = (i.reads addr).1 ∙ ap ok p in
              let same = check_create-old s m addr v e there in
              (s, same, same, inl (v, there, refl, i))
        ]

    Checked-Numbered :
        (s s' : KvStore S) (k : ℕ) (m : Module) (addr : Bytes)
        → Checked s k m addr s'
        → (k' : ℕ) × Numbered s' k'
    Checked-Numbered s s' k m addr (inl (_, _, _, i)) = (k, i)
    Checked-Numbered s s' k m addr (inr (_, _, i)) = (k + 1, i)

    -- From a store whose accounts have distinct numbers, `init_genesis` returns a store of which
    -- the same holds, if the numbers do not run out, the genesis has addresses of at most 255
    -- bytes and so does the fee collector.
    pub init_genesis-Numbered :
        (s : KvStore S) (k : ℕ) (accounts : List BaseAccount) (addr : Bytes)
        → Numbered s k
        → k + length accounts + 1 < 2 ^ 64
        → IsGenesis accounts
        → get_module_address fee_collector ≡ ok addr
        → IsAddress addr
        → (s' : KvStore S) × (k' : ℕ) × (init_genesis fuel s accounts ≡ ok s') × Numbered s' k'
    unfolding init_genesis
    init_genesis-Numbered s k accounts addr i h g e o =
        let (s1, e1, i1) = add_accounts-Numbered s k accounts i (omega arith) g in
        let (s2, e2, _, checked) =
          check_create_new_module_account-Numbered s1 (k + length accounts) fee_collector addr i1 h
            e o in
        let (k2, i2) = Checked-Numbered s1 s2 (k + length accounts) fee_collector addr checked in
        (s2, k2, rw e1 e2, i2)

-- ===== src/Auth/Keeper/Pending.antt =====
-- What the auth keeper leaves in its store.
use doge_sdk.Base.{ℕ, ◌+◌, ◌%◌, ◌^◌, ◌≡◌, sym, ap, ◌∙◌, Bool, true, false, none}
use std.Path.{subst}
use doge_sdk.Base.Bytes.{Bytes}
use doge_sdk.Database.Record.{Database}
use doge_sdk.Trees.External.{External}
use doge_sdk.Trees.Outcome.{Outcome, ok, bind-eq-ok, ok-injective, ◌>>=◌}
use doge_sdk.Store.KvStore.{KvStore, set, prefix_set, clear_tx_cache}
use doge_sdk.Store.KvStore.Pending.{IsPending, set-IsPending, prefix_set-IsPending}
use doge_sdk.Messages.Crates.{Crates, Codec}
use doge_sdk.Messages.Account.{Account, base, module_account, get_address, encode_vec}
use doge_sdk.Auth.Params
use doge_sdk.Auth.Params.{
  quote, key_max_memo_characters, key_tx_sig_limit, key_tx_size_cost_per_byte,
  key_sig_verify_cost_ed25519, key_sig_verify_cost_secp256k1,
}
use doge_sdk.Auth.Module.{fee_collector}
use doge_sdk.Auth.Module.{Module, get_module_address, get_name, get_permissions}
use doge_sdk.Base.{List, [], ◌∷◌}
use doge_sdk.Messages.Account.{BaseAccount}
use doge_sdk.Auth.Keeper.{add_accounts, init_genesis}
use doge_sdk.Auth.Keeper.{
  set_account, has_account, read_number, get_next_account_number, create_new_base_account,
  check_create_new_module_account, global_account_number_key, create_auth_store_key,
}

module _ {S : Type 0} ⦃c : Crates⦄ where
  pub set_account-IsPending :
      (s s' : KvStore S) (acct : Account) → set_account s acct ≡ ok s' → IsPending s s'
  unfolding set_account
  set_account-IsPending s s' acct h =
      set-IsPending s s' (create_auth_store_key (get_address acct)) (encode_vec acct) h

module _ ⦃x : External⦄ {S : Type 0} ⦃d : Database S⦄ ⦃c : Crates⦄ ⦃n : Codec ℕ⦄ (fuel : ℕ) where
  get_next_account_number-IsPending :
      (s s' : KvStore S) (number : ℕ)
      → get_next_account_number fuel s ≡ ok (number, s')
      → IsPending s s'
  unfolding get_next_account_number
  get_next_account_number-IsPending s s' number h =
      let (acct_num, e, h1) = bind-eq-ok (read_number fuel s) _ h in
      let (s1, e1, h2) =
        bind-eq-ok (set s global_account_number_key (n.encode ((acct_num + 1) % 2 ^ 64)))
          (λ s1. ok (acct_num, s1)) h1 in
      subst (λ (r : ℕ × KvStore S). IsPending s r.1) (ok-injective h2)
        (set-IsPending s s1 global_account_number_key (n.encode ((acct_num + 1) % 2 ^ 64)) e1)

  pub create_new_base_account-IsPending :
      (s s' : KvStore S) (addr : Bytes)
      → create_new_base_account fuel s addr ≡ ok s'
      → IsPending s s'
  unfolding create_new_base_account
  create_new_base_account-IsPending s s' addr h =
      let ((number, s1), e, h1) = bind-eq-ok (get_next_account_number fuel s) _ h in
      set_account-IsPending s1 s'
        (base (record { address = addr; pub_key = none; account_number = number; sequence = 0 })) h1
      ∙ get_next_account_number-IsPending s s1 number e

  pub check_create_new_module_account-IsPending :
      (s s' : KvStore S) (m : Module)
      → check_create_new_module_account fuel s m ≡ ok s'
      → IsPending s s'
  unfolding check_create_new_module_account
  check_create_new_module_account-IsPending s s' m h =
      let (addr, e, h1) = bind-eq-ok (get_module_address m) _ h in
      let (exists, e1, h2) = bind-eq-ok (has_account fuel s addr) _ h1 in go addr exists h2
    where
      go :
          (addr : Bytes) (exists : Bool)
          → elim exists as (λ b. Outcome (KvStore S)) [
            | true ↦ ok s
            | false ↦ (do
              (number, s') ← get_next_account_number fuel s
              set_account s' (
                  module_account (record {
                    base_account = record {
                      address = addr;
                      pub_key = none;
                      account_number = number;
                      sequence = 0;
                    };
                    name = get_name m;
                    permissions = get_permissions m;
                  })))
          ]
            ≡ ok s'
          → IsPending s s'
      go addr true h2 = sym (ap clear_tx_cache (ok-injective h2))
      go addr false h2 =
          let ((number, s1), e, h3) = bind-eq-ok (get_next_account_number fuel s) _ h2 in
          set_account-IsPending s1 s'
            (module_account (record {
              base_account = record {
                address = addr;
                pub_key = none;
                account_number = number;
                sequence = 0;
              };
              name = get_name m;
              permissions = get_permissions m;
            }))
            h3
          ∙ get_next_account_number-IsPending s s1 number e

  add_accounts-IsPending :
      (s s' : KvStore S) (accounts : List BaseAccount)
      → add_accounts fuel s accounts ≡ ok s'
      → IsPending s s'
  unfolding add_accounts
  add_accounts-IsPending s s' [] h = sym (ap clear_tx_cache (ok-injective h))
  add_accounts-IsPending s s' (acct ∷ accounts) h =
      let ((number, s1), e, h1) = bind-eq-ok (get_next_account_number fuel s) _ h in
      let numbered = base (record acct { account_number = number }) in
      let (s2, e1, h2) =
        bind-eq-ok (set_account s1 numbered) (λ s2. add_accounts fuel s2 accounts) h1 in
      add_accounts-IsPending s2 s' accounts h2
      ∙ set_account-IsPending s1 s2 numbered e1
      ∙ get_next_account_number-IsPending s s1 number e

  pub init_genesis-IsPending :
      (s s' : KvStore S) (accounts : List BaseAccount)
      → init_genesis fuel s accounts ≡ ok s'
      → IsPending s s'
  unfolding init_genesis
  init_genesis-IsPending s s' accounts h =
      let (s1, e, h1) = bind-eq-ok (add_accounts fuel s accounts) _ h in
      check_create_new_module_account-IsPending s1 s' fee_collector h1
      ∙ add_accounts-IsPending s s1 accounts e

pub set_params-IsPending :
    {S : Type 0} (s s' : KvStore S) (subspace : Bytes) (p : Params.Params)
    → Params.set s subspace p ≡ ok s'
    → IsPending s s'
unfolding Params.set
set_params-IsPending s s' subspace p h =
    let q1 = quote p.max_memo_characters in
    let q2 = quote p.tx_sig_limit in
    let q3 = quote p.tx_size_cost_per_byte in
    let q4 = quote p.sig_verify_cost_ed25519 in
    let q5 = quote p.sig_verify_cost_secp256k1 in
    let (s1, e1, h1) = bind-eq-ok (prefix_set s subspace key_max_memo_characters q1) _ h in
    let (s2, e2, h2) = bind-eq-ok (prefix_set s1 subspace key_tx_sig_limit q2) _ h1 in
    let (s3, e3, h3) = bind-eq-ok (prefix_set s2 subspace key_tx_size_cost_per_byte q3) _ h2 in
    let (s4, e4, h4) = bind-eq-ok (prefix_set s3 subspace key_sig_verify_cost_ed25519 q4) _ h3 in
    prefix_set-IsPending s4 s' subspace key_sig_verify_cost_secp256k1 q5 h4
    ∙ prefix_set-IsPending s3 s4 subspace key_sig_verify_cost_ed25519 q4 e4
    ∙ prefix_set-IsPending s2 s3 subspace key_tx_size_cost_per_byte q3 e3
    ∙ prefix_set-IsPending s1 s2 subspace key_tx_sig_limit q2 e2
    ∙ prefix_set-IsPending s s1 subspace key_max_memo_characters q1 e1

-- ===== src/Ante/Increment.antt =====
-- What `increment_sequence_ante_handler` and `sig_verification_handler` say of the sequences.
use std.Path.{subst}
use doge_sdk.Base.{
  ℕ, ◌+◌, ◌%◌, ◌^◌, ◌≡◌, refl, ap, ◌∙◌, false, Bool-cases, inl, inr, Option, none, some, List, [],
  ◌∷◌, arith, if◌then◌else◌, ◌==◌, ==_iff,
}
use doge_sdk.Base.Bytes.{Bytes, eq_bytes, eq_of_cmp}
use doge_sdk.Base.Tried.{Tried, done, failed, Tried-cases}
use doge_sdk.Trees.Outcome.{Outcome, ok, ◌>>=◌, bind-eq-ok}
use doge_sdk.Messages.Crates.{Crates}
use doge_sdk.Messages.Account.{Account, increment_sequence, get_sequence}
use doge_sdk.Messages.Tx.{member, TxWithRaw, SignatureData}
use doge_sdk.Messages.Tx.Signers.{IsDistinct}
use doge_sdk.Ante.{
  AppError, account_not_found, tx_validation, AuthKeeper, BankKeeper, Context, Crypto, Result,
  increment_sequences, check_signatures, check_signature, verify,
}
use doge_sdk.Ante.Keepers.{IsLawful, HasSequence, increment_sequence-kept, read_own, read_other}
use doge_sdk.Ante.Sequences.{same_account, Keeps, Keeps-same}

module _ {C : Type 0} ⦃a : AuthKeeper C⦄ ⦃b : BankKeeper C⦄ {Valid : C → Type 0}
    (law : IsLawful a b Valid) where
  -- What one turn of the loop does to the sequence under an address.
  abbrev bumped : Bytes → Bytes → ℕ → ℕ
  bumped signer addr n = if eq_bytes addr signer then (n + 1) % 2 ^ 64 else n

  increment_one :
      (ctx ctx' : C) (signer : Bytes) (acct : Account)
      → Valid ctx
      → a.get_account ctx signer ≡ ok (some acct)
      → a.set_account ctx (increment_sequence acct) ≡ ok ctx'
      → Valid ctx'
        × ((addr : Bytes) (n : ℕ)
            → HasSequence ctx addr n
            → HasSequence ctx' addr (bumped signer addr n))
  increment_one ctx ctx' signer acct v g e =
      let (o, own) = law.held ctx signer acct v g in
      let (o', addr', seq') = increment_sequence-kept acct o in
      (
        law.set-Valid ctx ctx' (increment_sequence acct) v o' e,
        λ j n (x, gx, sx). elim (Bool-cases (eq_bytes j signer)) [
          | inl p ↦
              let at_own : j ≡ signer = eq_of_cmp j signer (ground arith) in
              let same = same_account law ctx signer acct x g (rw at_own at gx) in
              (
                increment_sequence acct,
                read_own law ctx ctx' (increment_sequence acct) j v o' e (rw (addr', own) p),
                seq' ∙ rw (same, sx, p) refl,
              )
          | inr p ↦ (
            x,
            read_other law ctx ctx' (increment_sequence acct) j v o' e (rw (addr', own) p) ∙ gx,
            rw p sx,
          )
        ],
      )

  step_found :
      (ctx ctx' : C) (signer : Bytes) (signers : List Bytes) (found : Option Account)
      → a.get_account ctx signer ≡ ok found
      → ◌≡◌ {A = Result C}
          (elim found [
            | none ↦ ok (failed account_not_found, ctx)
            | some acct ↦ (do
              c1 ← a.set_account ctx (increment_sequence acct)
              increment_sequences c1 signers)
          ])
          (ok (done tt, ctx'))
      → (acct : Account) × (c1 : C) × (a.get_account ctx signer ≡ ok (some acct))
        × (a.set_account ctx (increment_sequence acct) ≡ ok c1)
        × (increment_sequences c1 signers ≡ ok (done tt, ctx'))
  step_found ctx ctx' signer signers none e g = cc
  step_found ctx ctx' signer signers (some acct) e g =
      let (c1, f, k) =
        bind-eq-ok (a.set_account ctx (increment_sequence acct))
          (λ c. increment_sequences c signers) g in
      (acct, c1, e, f, k)

  increment_step :
      (ctx ctx' : C) (signer : Bytes) (signers : List Bytes)
      → increment_sequences ctx (signer ∷ signers) ≡ ok (done tt, ctx')
      → (acct : Account) × (c1 : C) × (a.get_account ctx signer ≡ ok (some acct))
        × (a.set_account ctx (increment_sequence acct) ≡ ok c1)
        × (increment_sequences c1 signers ≡ ok (done tt, ctx'))
  unfolding increment_sequences
  increment_step ctx ctx' signer signers h =
      let (found, e, g) = bind-eq-ok (a.get_account ctx signer) _ h in
      step_found ctx ctx' signer signers found e g

  bumped_twice :
      (signer addr : Bytes) (signers : List Bytes) (n : ℕ)
      → member signer signers ≡ false
      → (if member addr signers then (bumped signer addr n + 1) % 2 ^ 64 else bumped signer addr n)
        ≡ (if member addr (signer ∷ signers) then (n + 1) % 2 ^ 64 else n)
  bumped_twice signer addr signers n h = elim (Bool-cases (eq_bytes addr signer)) [
    | inl p ↦
        let same : addr ≡ signer = eq_of_cmp addr signer (ground arith) in
        let out : member addr signers ≡ false = rw same h in ground (arith, p, out)
    | inr p ↦ ground (arith, p)
  ]

  increment_none :
      (ctx ctx' : C)
      → Valid ctx
      → increment_sequences ctx [] ≡ ok (done tt, ctx')
      → Keeps law ctx ctx'
  unfolding increment_sequences
  increment_none ctx ctx' v h = Keeps-same law ctx ctx' (done tt) (done tt) v h

  -- The sequence of a signer grows by one, and no other changes.
  pub increment_sequences-bumped :
      (ctx ctx' : C) (signers : List Bytes)
      → Valid ctx
      → IsDistinct signers
      → increment_sequences ctx signers ≡ ok (done tt, ctx')
      → Valid ctx'
        × ((addr : Bytes) (n : ℕ)
            → HasSequence ctx addr n
            → HasSequence ctx' addr (if member addr signers then (n + 1) % 2 ^ 64 else n))
  increment_sequences-bumped ctx ctx' [] v d h = increment_none ctx ctx' v h
  increment_sequences-bumped ctx ctx' (signer ∷ signers) v d h =
      let (acct, c1, g, e, rest) = increment_step ctx ctx' signer signers h in
      let (v1, one) = increment_one ctx c1 signer acct v g e in
      let (v2, all) = increment_sequences-bumped c1 ctx' signers v1 d.1 rest in
      (
        v2,
        λ addr n s.
            subst (HasSequence ctx' addr) (bumped_twice signer addr signers n d.0)
              (all addr (bumped signer addr n) (one addr n s)),
      )

module _ ⦃c : Crates⦄ {M C : Type 0} ⦃k : Context C⦄ ⦃a : AuthKeeper C⦄ ⦃y : Crypto⦄ (ctx : C)
    (tx : TxWithRaw M) where
  -- The signer has an account with the sequence of the signature, and the signature passes the
  -- check under the account's key.
  abbrev pub Verified : SignatureData → Bytes → Type 0
  Verified datum signer =
      (acct : Account) × (a.get_account ctx signer ≡ ok (some acct))
      × (get_sequence acct ≡ datum.sequence)
      × (verify ctx tx datum acct ≡ ok (done tt))

  -- Each signature with the signer of the same index.
  abbrev pub AllVerified : List SignatureData → List Bytes → Type 0
  AllVerified [] signers = Unit
  AllVerified (datum ∷ rest) [] = ⊥
  AllVerified (datum ∷ rest) (signer ∷ signers) = Verified datum signer × AllVerified rest signers

  check_found :
      (datum : SignatureData) (signer : Bytes) (found : Option Account)
      → a.get_account ctx signer ≡ ok found
      → ◌≡◌ {A = Outcome (Tried AppError Unit)}
          (elim found [
            | none ↦ ok (failed account_not_found)
            | some acct ↦
                if get_sequence acct == datum.sequence
                then verify ctx tx datum acct
                else ok (failed tx_validation)
          ])
          (ok (done tt))
      → Verified datum signer
  check_found datum signer none e h = cc
  check_found datum signer (some acct) e h =
      elim (Bool-cases (get_sequence acct == datum.sequence)) [
        | inl p ↦ (acct, e, (==_iff (get_sequence acct) datum.sequence).0 p, rw p at h)
        | inr p ↦ absurd (cc (rw p at h))
      ]

  check_signature-Verified :
      (datum : SignatureData) (signer : Bytes)
      → check_signature ctx tx datum signer ≡ ok (done tt)
      → Verified datum signer
  unfolding check_signature
  check_signature-Verified datum signer h =
      let (found, e, g) = bind-eq-ok (a.get_account ctx signer) _ h in
      check_found datum signer found e g

  -- All signatures are checked.
  pub check_signatures-AllVerified :
      (sigs : List SignatureData) (signers : List Bytes)
      → check_signatures ctx tx sigs signers ≡ ok (done tt)
      → AllVerified sigs signers
  unfolding check_signatures
  check_signatures-AllVerified [] signers h = tt
  check_signatures-AllVerified (datum ∷ rest) [] h = cc
  check_signatures-AllVerified (datum ∷ rest) (signer ∷ signers) h =
      let (r, e, g) = bind-eq-ok (check_signature ctx tx datum signer) _ h in
      elim (Tried-cases r) [
        | inl (u, p) ↦ (
          check_signature-Verified datum signer (e ∙ ap ok p),
          check_signatures-AllVerified rest signers (rw p at g),
        )
        | inr (f, p) ↦ absurd (cc (rw p at g))
      ]

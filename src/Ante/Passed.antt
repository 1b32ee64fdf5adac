-- ===== src/Ante/Passed.antt =====
-- What the handlers check before the ante handler passes.
use std.Path.{subst}
use doge_sdk.Base.{◌<◌, ◌≡◌, sym, ◌∙◌, Bool-cases, inl, inr, length, arith, ◌==◌, ==_iff}
use doge_sdk.Base.Tried.{done}
use doge_sdk.Trees.Outcome.{ok, ◌>>=◌}
use doge_sdk.Messages.Crates.{Crates}
use doge_sdk.Messages.Tx.{Message, Tx, TxWithRaw, get_signers}
use doge_sdk.Ante.{
  Context, AuthKeeper, BankKeeper, Crypto, Result, check, ◌then_run◌, validate_basic_ante_handler,
  tx_timeout_height_ante_handler, validate_memo_ante_handler, deduct_fee_ante_handler,
  set_pub_key_ante_handler, sig_verification_handler, increment_sequence_ante_handler, run,
}
use doge_sdk.Ante.Keepers.{then_run-done, check-done, checked-done}
use doge_sdk.Ante.Increment.{AllVerified, check_signatures-AllVerified}

module _ ⦃c : Crates⦄ {M : Type 0} ⦃m : Message M⦄ where
  pub counted :
      (tx : Tx M)
      → validate_basic_ante_handler tx ≡ done tt
      → (0 < length tx.signatures) × (length tx.signatures ≡ length (get_signers tx))
  unfolding validate_basic_ante_handler
  counted tx h = elim (Bool-cases (length tx.signatures == 0)) [
    | inl p ↦ absurd (cc (rw p at h))
    | inr p ↦ elim (Bool-cases (length tx.signatures == length (get_signers tx))) [
      | inl q ↦ (ground arith, (==_iff (length tx.signatures) (length (get_signers tx))).0 q)
      | inr q ↦ absurd (cc (rw (p, q) at h))
    ]
  ]

module _ ⦃c : Crates⦄ {M C : Type 0} ⦃m : Message M⦄ ⦃k : Context C⦄ ⦃a : AuthKeeper C⦄
    ⦃b : BankKeeper C⦄ ⦃y : Crypto⦄ where
  -- What a pass came through.
  pub record Passed (ctx : C) (tx : TxWithRaw M) (ctx' : C) : Type 0 where
    pub paid : C
    pub keyed : C
    pub basic : validate_basic_ante_handler tx.tx ≡ done tt
    pub timely : tx_timeout_height_ante_handler ctx tx.tx ≡ done tt
    pub short : validate_memo_ante_handler ctx tx.tx ≡ ok (done tt)
    pub deducts : deduct_fee_ante_handler ctx tx.tx ≡ ok (done tt, paid)
    pub keys : set_pub_key_ante_handler paid tx.tx ≡ ok (done tt, keyed)
    pub signed : sig_verification_handler keyed tx ≡ ok (done tt)
    pub increments : increment_sequence_ante_handler keyed tx.tx ≡ ok (done tt, ctx')

  pub run-Passed :
      (ctx ctx' : C) (tx : TxWithRaw M) → run ctx tx ≡ ok (done tt, ctx') → Passed ctx tx ctx'
  unfolding run
  run-Passed ctx ctx' tx h =
      let f1 : C → Result C = λ c. check c (tx_timeout_height_ante_handler c tx.tx) in
      let f2 : C → Result C = λ c. validate_memo_ante_handler c tx.tx >>= check c in
      let f3 : C → Result C = λ c. deduct_fee_ante_handler c tx.tx in
      let f4 : C → Result C = λ c. set_pub_key_ante_handler c tx.tx in
      let f5 : C → Result C = λ c. sig_verification_handler c tx >>= check c in
      let f6 : C → Result C = λ c. increment_sequence_ante_handler c tx.tx in
      let r0 = check ctx (validate_basic_ante_handler tx.tx) in
      let r1 = r0 then_run f1 in
      let r2 = r1 then_run f2 in
      let r3 = r2 then_run f3 in
      let r4 = r3 then_run f4 in
      let r5 = r4 then_run f5 in
      let (c6, e6, g6) = then_run-done r5 f6 h in
      let (c5, e5, g5) = then_run-done r4 f5 e6 in
      let (c4, e4, g4) = then_run-done r3 f4 e5 in
      let (c3, e3, g3) = then_run-done r2 f3 e4 in
      let (c2, e2, g2) = then_run-done r1 f2 e3 in
      let (c1, e1, g1) = then_run-done r0 f1 e2 in
      let (basic, p1) = check-done ctx (validate_basic_ante_handler tx.tx) e1 in
      let (timely, p2) = check-done c1 (tx_timeout_height_ante_handler c1 tx.tx) g1 in
      let (short, p3) = checked-done c2 (validate_memo_ante_handler c2 tx.tx) g2 in
      let (signed, p5) = checked-done c5 (sig_verification_handler c5 tx) g5 in
      record {
        paid = c4;
        keyed = c5;
        basic = basic;
        timely = subst (λ c. tx_timeout_height_ante_handler c tx.tx ≡ done tt) (sym p1) timely;
        short =
            subst (λ c. validate_memo_ante_handler c tx.tx ≡ ok (done tt)) (sym (p1 ∙ p2)) short;
        deducts =
            subst (λ c. deduct_fee_ante_handler c tx.tx ≡ ok (done tt, c4)) (sym (p1 ∙ p2 ∙ p3)) g3;
        keys = g4;
        signed = signed;
        increments =
            subst (λ c. increment_sequence_ante_handler c tx.tx ≡ ok (done tt, ctx')) (sym p5) g6;
      }

  pub signed_all :
      (ctx : C) (tx : TxWithRaw M)
      → sig_verification_handler ctx tx ≡ ok (done tt)
      → (length tx.tx.signatures_data ≡ length (get_signers tx.tx))
        × AllVerified ctx tx tx.tx.signatures_data (get_signers tx.tx)
  unfolding sig_verification_handler
  signed_all ctx tx h =
      elim (Bool-cases (length tx.tx.signatures_data == length (get_signers tx.tx))) [
        | inl p ↦ (
          (==_iff (length tx.tx.signatures_data) (length (get_signers tx.tx))).0 p,
          check_signatures-AllVerified ctx tx tx.tx.signatures_data (get_signers tx.tx) (rw p at h),
        )
        | inr p ↦ absurd (cc (rw p at h))
      ]

  -- When the handler passes, there are as many signatures as signers and at least one, and in the
  -- context after the fee is paid and the keys are stored each signer has an account with the
  -- sequence of its signature, and the signature passes the check under the account's key.
  pub run-AllVerified :
      (ctx ctx' : C) (tx : TxWithRaw M)
      → run ctx tx ≡ ok (done tt, ctx')
      → (0 < length tx.tx.signatures)
        × (length tx.tx.signatures ≡ length (get_signers tx.tx))
        × (length tx.tx.signatures_data ≡ length (get_signers tx.tx))
        × ((paid : C) × (keyed : C) × (deduct_fee_ante_handler ctx tx.tx ≡ ok (done tt, paid))
            × (set_pub_key_ante_handler paid tx.tx ≡ ok (done tt, keyed))
            × AllVerified keyed tx tx.tx.signatures_data (get_signers tx.tx))
  run-AllVerified ctx ctx' tx h =
      let p = run-Passed ctx ctx' tx h in
      let (some_signature, as_many) = counted tx.tx p.basic in
      let (as_many_data, all) = signed_all p.keyed tx p.signed in
      (some_signature, as_many, as_many_data, (p.paid, p.keyed, p.deducts, p.keys, all))

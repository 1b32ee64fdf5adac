-- ===== src/Ante/Replay.antt =====
-- What the ante handler leaves when it passes, and a second run of the same transaction.
use doge_sdk.Base.{
  ℕ, ◌+◌, ◌%◌, ◌^◌, ◌<◌, ◌≡◌, ◌≢◌, ap, true, List, [], ◌∷◌, length, arith, if◌then◌else◌,
}
use doge_sdk.Base.Bytes.{Bytes, cmp_refl}
use doge_sdk.Base.Tried.{done}
use doge_sdk.Trees.Outcome.{ok}
use doge_sdk.Messages.Crates.{Crates}
use doge_sdk.Messages.Account.{get_sequence}
use doge_sdk.Messages.Tx.{Message, TxWithRaw, SignatureData, member, get_signers}
use doge_sdk.Messages.Tx.Signers.{get_signers-IsDistinct}
use doge_sdk.Ante.{Context, AuthKeeper, BankKeeper, Crypto, increment_sequence_ante_handler, run}
use doge_sdk.Ante.Keepers.{IsLawful, HasSequence, get_sequence-lt}
use doge_sdk.Ante.Sequences.{
  Keeps, Keeps-trans, same_account, Keeps-set_pub_key_ante_handler, Keeps-deduct_fee_ante_handler,
}
use doge_sdk.Ante.Increment.{increment_sequences-bumped, AllVerified}
use doge_sdk.Ante.Passed.{Passed, run-Passed, counted, signed_all}

-- The sequences after a pass.
abbrev Bumped : {C : Type 0} ⦃a : AuthKeeper C⦄ → C → C → List Bytes → Type 0
Bumped ctx ctx' signers =
    (addr : Bytes) (n : ℕ)
    → HasSequence ctx addr n
    → HasSequence ctx' addr (if member addr signers then (n + 1) % 2 ^ 64 else n)

module _ ⦃c : Crates⦄ {M C : Type 0} ⦃m : Message M⦄ ⦃k : Context C⦄ ⦃a : AuthKeeper C⦄
    ⦃b : BankKeeper C⦄ ⦃y : Crypto⦄ where
  module _ {Valid : C → Type 0} (law : IsLawful a b Valid) where
    Keeps-keyed :
        (ctx ctx' : C) (tx : TxWithRaw M)
        → Valid ctx
        → (p : Passed ctx tx ctx') → Keeps law ctx p.keyed
    Keeps-keyed ctx ctx' tx v p =
        let first = Keeps-deduct_fee_ante_handler law ctx p.paid tx.tx v p.deducts in
        Keeps-trans law ctx p.paid p.keyed first
          (Keeps-set_pub_key_ante_handler law p.paid p.keyed tx.tx first.0 p.keys)

    Bumped-keyed :
        (ctx ctx' : C) (tx : TxWithRaw M)
        → Valid ctx
        → (p : Passed ctx tx ctx') → Valid ctx' × Bumped p.keyed ctx' (get_signers tx.tx)
    unfolding increment_sequence_ante_handler
    Bumped-keyed ctx ctx' tx v p =
        increment_sequences-bumped law p.keyed ctx' (get_signers tx.tx)
          (Keeps-keyed ctx ctx' tx v p).0 (get_signers-IsDistinct tx.tx) p.increments

    -- When the handler passes on a valid context, the sequence of every signer's account has grown by
    -- one in a `u64`, no other account's sequence has changed, and the context stays valid.
    pub run-sequences :
        (ctx ctx' : C) (tx : TxWithRaw M) (addr : Bytes) (n : ℕ)
        → Valid ctx
        → run ctx tx ≡ ok (done tt, ctx')
        → HasSequence ctx addr n
        → Valid ctx'
          × HasSequence ctx' addr (if member addr (get_signers tx.tx) then (n + 1) % 2 ^ 64 else n)
    run-sequences ctx ctx' tx addr n v h s =
        let p = run-Passed ctx ctx' tx h in
        let (v', bump) = Bumped-keyed ctx ctx' tx v p in
        (v', bump addr n ((Keeps-keyed ctx ctx' tx v p).1 addr n s))

    replayed :
        (c1 c2 : C) (tx : TxWithRaw M) (sigs : List SignatureData) (signers : List Bytes)
        → Valid c1
        → 0 < length signers
        → length sigs ≡ length signers
        → Bumped c1 c2 signers
        → AllVerified c1 tx sigs signers
        → AllVerified c2 tx sigs signers
        → ⊥
    replayed c1 c2 tx [] [] v h l bump x z = omega arith
    replayed c1 c2 tx [] (signer ∷ signers) v h l bump x z = omega arith
    replayed c1 c2 tx (datum ∷ sigs) [] v h l bump x z = omega arith
    replayed c1 c2 tx (datum ∷ sigs) (signer ∷ signers) v h l bump ((a1, g1, s1, _), _)
          ((a2, g2, s2, _), _) =
        let (a3, g3, s3) = bump signer datum.sequence (a1, g1, s1) in
        let small = get_sequence-lt a1 (law.held c1 signer a1 v g1).0 in
        let same = ap get_sequence (same_account law c2 signer a2 a3 g2 g3) in
        let own : member signer (signer ∷ signers) ≡ true = ground (arith, cmp_refl signer) in
        let grown : get_sequence a3 ≡ (datum.sequence + 1) % 2 ^ 64 = rw own at s3 in
        omega (arith, small, same, grown, s1, s2)

    -- A transaction that passed on a valid context does not pass again on the context that it
    -- left.
    pub run-replay :
        (ctx ctx' ctx2 : C) (tx : TxWithRaw M)
        → Valid ctx
        → run ctx tx ≡ ok (done tt, ctx')
        → run ctx' tx ≢ ok (done tt, ctx2)
    run-replay ctx ctx' ctx2 tx v h again =
        let p = run-Passed ctx ctx' tx h in
        let q = run-Passed ctx' ctx2 tx again in
        let (v', bump) = Bumped-keyed ctx ctx' tx v p in
        let keeps = Keeps-keyed ctx' ctx2 tx v' q in
        let (some_signature, as_many) = counted tx.tx p.basic in
        replayed p.keyed q.keyed tx tx.tx.signatures_data (get_signers tx.tx)
          (Keeps-keyed ctx ctx' tx v p).0 (omega arith) (signed_all p.keyed tx p.signed).0
          (λ addr n s.
            keeps.1 addr (if member addr (get_signers tx.tx) then (n + 1) % 2 ^ 64 else n)
              (bump addr n s))
          (signed_all p.keyed tx p.signed).1 (signed_all q.keyed tx q.signed).1

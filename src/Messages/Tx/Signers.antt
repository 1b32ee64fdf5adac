-- ===== src/Messages/Tx/Signers.antt =====
-- The signers that a transaction requires.
use doge_sdk.Base.{
  ◌≡◌, refl, sym, ap, ◌∙◌, true, false, ◌||◌, Bool-cases, Option-cases, inl, inr, some, List, [],
  ◌∷◌, ◌++◌, map, arith,
}
use doge_sdk.Base.Bytes.{Bytes, cmp_refl, eq_of_cmp, eq_bytes, eq_bytes_comm}
use doge_sdk.Messages.Crates.{Crates}
use doge_sdk.Messages.Address.{to_string}
use doge_sdk.Messages.Tx.{
  Message, Tx, Collected, member, add_signer, add_signers, add_messages, get_signers,
}

-- No element stands twice.
abbrev pub IsDistinct : List Bytes → Type 0
IsDistinct [] = Unit
IsDistinct (a ∷ xs) = (member a xs ≡ false) × IsDistinct xs

member-snoc :
    (a y : Bytes) (xs : List Bytes) → member a (xs ++ y ∷ []) ≡ (member a xs || eq_bytes a y)
member-snoc a y [] = ground arith
member-snoc a y (x ∷ xs) = ground (arith, member-snoc a y xs)

IsDistinct-snoc :
    (y : Bytes) (xs : List Bytes) → IsDistinct xs → member y xs ≡ false → IsDistinct (xs ++ y ∷ [])
IsDistinct-snoc y [] d h = (refl, tt)
IsDistinct-snoc y (a ∷ xs) d h = (
  member-snoc a y xs ∙ ground (arith, d.0, eq_bytes_comm a y),
  IsDistinct-snoc y xs d.1 (ground arith),
)

module _ ⦃x : Crates⦄ where
  abbrev pub texts : List Bytes → List Bytes
  texts = map (λ a. to_string a)

  member-texts :
      (a : Bytes) (xs : List Bytes) → member a xs ≡ true → member (to_string a) (texts xs) ≡ true
  member-texts a [] h = cc
  member-texts a (b ∷ xs) h = elim (Bool-cases (eq_bytes a b)) [
    | inl e ↦ rw (eq_of_cmp a b (ground arith)) (ground (arith, cmp_refl (to_string b)))
    | inr e ↦ ground (arith, member-texts a xs (ground (arith, e)))
  ]

  texts-snoc : (xs : List Bytes) (y : Bytes) → texts (xs ++ y ∷ []) ≡ texts xs ++ to_string y ∷ []
  texts-snoc [] y = refl
  texts-snoc (a ∷ xs) y = ap (λ r. to_string a ∷ r) (texts-snoc xs y)

  -- The texts that were seen are those of the signers, and no signer stands twice.
  record Sound (acc : Collected) : Type 0 where
    distinct : IsDistinct acc.0
    seen : (t : Bytes) → member t acc.1 ≡ member t (texts acc.0)

  not_member :
      (acc : Collected) (a : Bytes)
      → Sound acc
      → member (to_string a) acc.1 ≡ false
      → member a acc.0 ≡ false
  not_member acc a s h = elim (Bool-cases (member a acc.0)) [
    | inl e ↦ ground (arith, s.seen (to_string a), member-texts a acc.0 e)
    | inr e ↦ e
  ]

  add_signer-Sound : (acc : Collected) (a : Bytes) → Sound acc → Sound (add_signer acc a)
  unfolding add_signer
  add_signer-Sound acc a s = elim (Bool-cases (member (to_string a) acc.1)) [
    | inl e ↦ rw e s
    | inr e ↦ rw e (record {
      distinct = IsDistinct-snoc a acc.0 s.distinct (not_member acc a s e);
      seen = λ t.
          rw (texts-snoc acc.0 a)
            (ground (arith, member-snoc t (to_string a) (texts acc.0), s.seen t));
    })
  ]

  seen_after : (acc : Collected) (a : Bytes) → member (to_string a) (add_signer acc a).1 ≡ true
  unfolding add_signer
  seen_after acc a = ground (arith, cmp_refl (to_string a))

  add_signers-Sound : (acc : Collected) (xs : List Bytes) → Sound acc → Sound (add_signers acc xs)
  unfolding add_signers
  add_signers-Sound acc [] s = s
  add_signers-Sound acc (a ∷ xs) s =
      add_signers-Sound (add_signer acc a) xs (add_signer-Sound acc a s)

module _ ⦃x : Crates⦄ {M : Type 0} ⦃m : Message M⦄ where
  add_messages-Sound : (acc : Collected) (msgs : List M) → Sound acc → Sound (add_messages acc msgs)
  unfolding add_messages
  add_messages-Sound acc [] s = s
  add_messages-Sound acc (msg ∷ msgs) s =
      add_messages-Sound (add_signers acc (m.get_signers msg)) msgs
        (add_signers-Sound acc (m.get_signers msg) s)

  collected-Sound : (tx : Tx M) → Sound (add_messages ([], []) tx.body.messages)
  collected-Sound tx =
      add_messages-Sound ([], []) tx.body.messages (record { distinct = tt; seen = λ t. refl })

  -- No signer of a transaction stands twice, whatever its messages and its fee payer are.
  pub get_signers-IsDistinct : (tx : Tx M) → IsDistinct (get_signers tx)
  unfolding get_signers
  get_signers-IsDistinct tx = elim (Option-cases tx.auth_info.fee.payer) [
    | inl e ↦ rw (e, get_signers) (collected-Sound tx).distinct
    | inr (a, e) ↦
        rw (e, get_signers)
          (add_signer-Sound (add_messages ([], []) tx.body.messages) a
            (collected-Sound tx)).distinct
  ]

  -- A fee payer that is named is one of the signers: its text is among theirs.
  pub get_signers-member :
      (tx : Tx M) (payer : Bytes)
      → tx.auth_info.fee.payer ≡ some payer
      → member (to_string payer) (texts (get_signers tx)) ≡ true
  unfolding get_signers
  get_signers-member tx payer e =
      let acc = add_messages ([], []) tx.body.messages in
      rw (e, get_signers)
        (sym ((add_signer-Sound acc payer (collected-Sound tx)).seen (to_string payer))
          ∙ seen_after acc payer)

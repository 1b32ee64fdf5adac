-- ===== src/Messages/Tx/Decoded.antt =====
-- What a transaction holds that was read from its generated type.
use doge_sdk.Base.{
  ◌≡◌, refl, sym, ap, ◌∙◌, true, Option, none, some, List, [], ◌∷◌, length, arith, ◌==◌, ==_iff,
}
use std.Path.{subst}
use doge_sdk.Base.Tried.{done, bind-eq-done, guard-eq-done, done-injective, try_from, try_map}
use doge_sdk.Messages.Crates.{Crates, IsLawful}
use doge_sdk.Messages.Key.{missing_field, decode_general}
use doge_sdk.Messages.Fee.{RawTip, IsFee, fee_try_from, tip_try_from}
use doge_sdk.Messages.Tx.{Message, AuthInfo, TxBody, Tip, Tx}
use doge_sdk.Messages.Tx.Raw.{
  RawTx, RawTxBody, with_auth_info, with_body, RawAuthInfo, IsTx, IsOptionalTip,
  signer_info_try_from, tx_try_from, auth_info_try_from, optional_tip, body_try_from,
}
use doge_sdk.Messages.Fee.Decoded.{fee_try_from-IsFee, tip_try_from-IsTip}

module _ ⦃x : Crates⦄ (law : IsLawful x) where
  optional_tip-IsOptionalTip :
      (raw : Option RawTip) (tip : Option Tip) → optional_tip raw ≡ done tip → IsOptionalTip tip
  unfolding optional_tip
  optional_tip-IsOptionalTip none tip h = subst IsOptionalTip (done-injective h) tt
  optional_tip-IsOptionalTip (some raw) tip h =
      let (t, e, h1) = bind-eq-done (tip_try_from raw) _ tip h in
      subst IsOptionalTip (done-injective h1) (tip_try_from-IsTip law raw t e)

  auth_info_try_from-parts :
      (raw : RawAuthInfo) (info : AuthInfo)
      → auth_info_try_from raw ≡ done info
      → IsFee info.fee × IsOptionalTip info.tip
  unfolding auth_info_try_from
  auth_info_try_from-parts raw info h =
      let (tip, e1, h1) = bind-eq-done (optional_tip raw.tip) _ info h in
      let (infos, e2, h2) =
        bind-eq-done (try_map signer_info_try_from raw.signer_infos) _ info h1 in
      let (raw_fee, e3, h3) = bind-eq-done (try_from raw.fee missing_field) _ info h2 in
      let (fee, e4, h4) = bind-eq-done (fee_try_from raw_fee) _ info h3 in
      subst (λ i. IsFee i.fee × IsOptionalTip i.tip) (done-injective h4)
        (fee_try_from-IsFee law raw_fee fee e4, optional_tip-IsOptionalTip raw.tip tip e1)

length-zero : {A : Type 0} (xs : List A) → (length xs == 0) ≡ true → xs ≡ []
length-zero [] h = refl
length-zero (x ∷ xs) h = ground (arith, h)

module _ {M : Type 0} ⦃m : Message M⦄ where
  body_try_from-extension_options :
      (raw : RawTxBody) (body : TxBody M)
      → body_try_from raw ≡ done body
      → raw.extension_options ≡ body.extension_options
  unfolding body_try_from
  body_try_from-extension_options raw body h =
      let (messages, e, h1) = bind-eq-done (try_map m.try_from_any raw.messages) _ body h in
      ap (λ b. b.extension_options) (done-injective h1)

  with_auth_info-IsTx :
      (raw : RawTx) (raw_body : RawTxBody) (info : AuthInfo) (tx : Tx M)
      → raw_body.extension_options ≡ []
      → IsFee info.fee × IsOptionalTip info.tip
      → with_auth_info raw raw_body info ≡ done tx
      → IsTx tx
  unfolding with_auth_info
  with_auth_info-IsTx raw raw_body info tx empty parts h =
      let (same, h1) =
        guard-eq-done (length raw.signatures == length info.signer_infos) _ decode_general tx h in
      let (body, k, h2) = bind-eq-done (body_try_from raw_body) _ tx h1 in
      subst IsTx (done-injective h2) (
        parts.0,
        parts.1,
        sym (body_try_from-extension_options raw_body body k) ∙ empty,
        (==_iff (length raw.signatures) (length info.signer_infos)).0 same,
        refl,
      )

module _ ⦃x : Crates⦄ (law : IsLawful x) {M : Type 0} ⦃m : Message M⦄ where
  with_body-IsTx :
      (raw : RawTx) (raw_body : RawTxBody) (tx : Tx M) → with_body raw raw_body ≡ done tx → IsTx tx
  unfolding with_body
  with_body-IsTx raw raw_body tx h =
      let (e, h0) = guard-eq-done (length raw_body.extension_options == 0) _ decode_general tx h in
      let (raw_info, e1, h1) = bind-eq-done (try_from raw.auth_info missing_field) _ tx h0 in
      let (info, e2, h2) = bind-eq-done (auth_info_try_from raw_info) _ tx h1 in
      with_auth_info-IsTx raw raw_body info tx (length-zero raw_body.extension_options e)
        (auth_info_try_from-parts law raw_info info e2) h2

  -- What is read from a generated type, over crates whose results are in range, has a fee and a
  -- tip within their bounds, no extension options, and for each signer one signature with its
  -- sequence: the coins of an amount are valid and their denominations ascend, and the addresses
  -- have at most 255 bytes.
  pub tx_try_from-IsTx : (raw : RawTx) (tx : Tx M) → tx_try_from raw ≡ done tx → IsTx tx
  unfolding tx_try_from
  tx_try_from-IsTx raw tx h =
      let (raw_body, e, h1) = bind-eq-done (try_from raw.body missing_field) _ tx h in
      with_body-IsTx raw raw_body tx h1

-- ===== src/Messages/Tx/FromBytes.antt =====
-- `TxWithRaw::from_bytes` of proto-messages/src/cosmos/tx/v1beta1/tx.rs: the bytes are read twice,
-- as a transaction and as its parts, each over a generated type.
use doge_sdk.Base.{◌≡◌, some}
use std.Path.{subst}
use doge_sdk.Base.Bytes.{Bytes}
use doge_sdk.Base.Tried.{
  Tried, done, failed, ◌>>=◌, try_from, bind-eq-done, done-injective, try_from-eq-done,
}
use doge_sdk.Messages.Crates.{Crates, IsLawful, Codec}
use doge_sdk.Messages.Key.{MessagesError, decode_general}
use doge_sdk.Messages.Tx.{Message, Tx, TxRaw, TxWithRaw}
use doge_sdk.Messages.Tx.Raw.{RawTx, IsTx, tx_try_from}
use doge_sdk.Messages.Tx.Decoded.{tx_try_from-IsTx}

-- `map_err` to the error of the decoding.
abbrev general : {A : Type 0} → Tried MessagesError A → Tried MessagesError A
general (done a) = done a
general (failed e) = failed decode_general

general-eq-done : {A : Type 0} (t : Tried MessagesError A) (a : A) → general t ≡ done a → t ≡ done a
general-eq-done (done b) a h = h
general-eq-done (failed e) a h = cc h

module _ ⦃x : Crates⦄ ⦃txs : Codec RawTx⦄ ⦃raws : Codec TxRaw⦄ {M : Type 0} ⦃m : Message M⦄ where
  -- `Tx::decode`, which reads the generated type and converts it.
  unfoldable pub tx_decode : Bytes → Tried MessagesError (Tx M)
  unfolding tx_try_from
  tx_decode raw = do generated ← try_from (txs.decode raw) decode_general; tx_try_from generated

  unfoldable pub from_bytes : Bytes → Tried MessagesError (TxWithRaw M)
  unfolding tx_decode
  from_bytes raw = do
    tx ← general (tx_decode raw)
    tx_raw ← try_from (raws.decode raw) decode_general
    done (record { tx = tx; raw = tx_raw })

  -- A transaction that is read from its bytes, over crates whose results are in range, has a fee
  -- and a tip within their bounds, no extension options, and for each signer one signature with
  -- its sequence: the coins of an amount are valid and their denominations ascend, and the
  -- addresses have at most 255 bytes. The parts whose bytes are signed are read from the same bytes.
  pub from_bytes-IsTx :
      IsLawful x
      → (raw : Bytes) (tx : TxWithRaw M) → from_bytes raw ≡ done tx
      → IsTx tx.tx × (raws.decode raw ≡ some tx.raw)
  unfolding from_bytes tx_decode
  from_bytes-IsTx law raw tx h =
      let (t, e, h1) = bind-eq-done (general (tx_decode raw)) _ tx h in
      let (p, e1, h2) = bind-eq-done (try_from (raws.decode raw) decode_general) _ tx h1 in
      let (generated, _, e2) =
        bind-eq-done (try_from (txs.decode raw) decode_general) _ t
          (general-eq-done (tx_decode raw) t e) in
      subst (λ (u : TxWithRaw M). IsTx u.tx × (raws.decode raw ≡ some u.raw)) (done-injective h2)
        (
          tx_try_from-IsTx law generated t e2,
          try_from-eq-done (raws.decode raw) decode_general p e1,
        )

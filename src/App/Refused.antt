-- ===== src/App/Refused.antt =====
-- The answers to the transactions of a block that are refused before the ante handler.
use doge_sdk.Base.{◌≡◌, ◌⊎◌, inl, inr, refl, List, [], ◌∷◌, All, map}
use doge_sdk.Base.Bytes.{Bytes}
use doge_sdk.Base.Tried.{done, failed}
use doge_sdk.Trees.Outcome.{Outcome, ok, ◌>>=◌}
use doge_sdk.App.{Handlers, BaseApp, start, validate_basic_tx_msgs, run_tx}
use doge_sdk.App.Calls.{Chain, ResponseDeliverTx, deliver_tx}

-- The bytes are not read as a transaction, or the transaction has no message or one that fails its
-- basic validation.
abbrev pub IsRefused :
    {S Header Event Tx Msg E : Type 0} → Handlers S Header Event Tx Msg E → Bytes → Type 0
IsRefused {Tx} {E} h raw =
    ((e : E) × (h.from_bytes raw ≡ ok (failed e)))
    ⊎ ((tx : Tx) × (e : E) × (h.from_bytes raw ≡ ok (done tx))
        × (validate_basic_tx_msgs h (h.get_msgs tx) ≡ failed e))

module _ {S RawHeader Header Event Tx Msg E Params Genesis : Type 0}
    (c : Chain S RawHeader Header Event Tx Msg E Params Genesis) where
  -- The transactions of a block, one after the other.
  unfoldable pub deliver_txs :
      BaseApp S Header → List Bytes → Outcome (List (ResponseDeliverTx Event) × BaseApp S Header)
  unfolding deliver_tx
  deliver_txs app [] = ok ([], app)
  deliver_txs app (raw ∷ raws) = do
    (response, app1) ← deliver_tx c app raw
    (responses, app2) ← deliver_txs app1 raws
    ok (response ∷ responses, app2)

  run_tx-refused :
      (app : BaseApp S Header) (raw : Bytes)
      → IsRefused c.handlers raw
      → (e : E) × (run_tx c.handlers app raw ≡ ok (failed e, app))
  unfolding run_tx start
  run_tx-refused app raw (inl (e, read)) = (e, rw read refl)
  run_tx-refused app raw (inr (tx, e, read, invalid)) = (e, rw (read, start, invalid) refl)

  deliver_tx-refused :
      (app : BaseApp S Header) (raw : Bytes)
      → IsRefused c.handlers raw
      → deliver_tx c app raw ≡ ok (record { code = 1; events = [] }, app)
  unfolding deliver_tx
  deliver_tx-refused app raw h =
      let (e, run) = run_tx-refused app raw h in rw (deliver_tx, run) refl

  pub deliver_txs-refused :
      (app : BaseApp S Header) (raws : List Bytes)
      → All (IsRefused c.handlers) raws
      → deliver_txs app raws ≡ ok (map (λ _. record { code = 1; events = [] }) raws, app)
  unfolding deliver_txs
  deliver_txs-refused app [] h = refl
  deliver_txs-refused app (raw ∷ raws) h =
      rw (deliver_txs, deliver_tx-refused app raw h.0, deliver_txs-refused app raws h.1) refl

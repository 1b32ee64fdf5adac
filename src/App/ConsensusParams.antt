-- ===== src/App/ConsensusParams.antt =====
-- `BaseAppParamsKeeper::set_consensus_params` of gears/src/baseapp/params.rs, over the store of the
-- parameters and the prefix of the subspace.
use doge_sdk.Base.{◌≡◌, sym, ap, ◌∙◌, Option, none, some, [], ◌∷◌}
use doge_sdk.Base.Bytes.{Bytes}
use doge_sdk.Trees.Outcome.{Outcome, ok, bind-eq-ok, ok-injective, ◌>>=◌}
use doge_sdk.Store.KvStore.{KvStore, prefix_set, clear_tx_cache}
use doge_sdk.Store.KvStore.Pending.{IsPending, prefix_set-IsPending}

-- The parts of the generated `ConsensusParams` that are there, each as the JSON that serde writes.
pub record ConsensusJson (Params : Type 0) : Type 0 where
  pub block : Params → Option Bytes
  pub evidence : Params → Option Bytes
  pub validator : Params → Option Bytes

-- "BlockParams", "EvidenceParams" and "ValidatorParams".
abbrev pub key_block_params : Bytes
key_block_params = 66 ∷ 108 ∷ 111 ∷ 99 ∷ 107 ∷ 80 ∷ 97 ∷ 114 ∷ 97 ∷ 109 ∷ 115 ∷ []

abbrev pub key_evidence_params : Bytes
key_evidence_params =
    69 ∷ 118 ∷ 105 ∷ 100 ∷ 101 ∷ 110 ∷ 99 ∷ 101 ∷ 80 ∷ 97 ∷ 114 ∷ 97 ∷ 109 ∷ 115 ∷ []

abbrev pub key_validator_params : Bytes
key_validator_params =
    86 ∷ 97 ∷ 108 ∷ 105 ∷ 100 ∷ 97 ∷ 116 ∷ 111 ∷ 114 ∷ 80 ∷ 97 ∷ 114 ∷ 97 ∷ 109 ∷ 115 ∷ []

-- One of the three tests.
unfoldable pub set_part :
    {S : Type 0} → KvStore S → Bytes → Bytes → Option Bytes → Outcome (KvStore S)
unfolding prefix_set
set_part s subspace key none = ok s
set_part s subspace key (some json) = prefix_set s subspace key json

module _ {S : Type 0} where
  set_part-IsPending :
      (s s' : KvStore S) (subspace key : Bytes) (json : Option Bytes)
      → set_part s subspace key json ≡ ok s'
      → IsPending s s'
  unfolding set_part
  set_part-IsPending s s' subspace key none h = sym (ap clear_tx_cache (ok-injective h))
  set_part-IsPending s s' subspace key (some json) h = prefix_set-IsPending s s' subspace key json h

module _ {S Params : Type 0} ⦃j : ConsensusJson Params⦄ where
  unfoldable pub set_consensus_params : KvStore S → Bytes → Params → Outcome (KvStore S)
  unfolding set_part
  set_consensus_params s subspace params = do
    s1 ← set_part s subspace key_block_params (j.block params)
    s2 ← set_part s1 subspace key_evidence_params (j.evidence params)
    set_part s2 subspace key_validator_params (j.validator params)

  pub set_consensus_params-IsPending :
      (s s' : KvStore S) (subspace : Bytes) (params : Params)
      → set_consensus_params s subspace params ≡ ok s'
      → IsPending s s'
  unfolding set_consensus_params
  set_consensus_params-IsPending s s' subspace params h =
      let (s1, e1, h1) = bind-eq-ok (set_part s subspace key_block_params (j.block params)) _ h in
      let (s2, e2, h2) =
        bind-eq-ok (set_part s1 subspace key_evidence_params (j.evidence params)) _ h1 in
      set_part-IsPending s2 s' subspace key_validator_params (j.validator params) h2
      ∙ set_part-IsPending s1 s2 subspace key_evidence_params (j.evidence params) e2
      ∙ set_part-IsPending s s1 subspace key_block_params (j.block params) e1

-- ===== src/Agent/World.antt =====
-- What the orchestrator acts on, and the actions on it. An action is a function of the state that
-- returns or throws; what was written before a throw stays written.
use clawback.Prelude.{ℕ, suc, Text, Option, List, ◌∷◌, ◌++◌, lit, Bool}
use clawback.Prelude.Int.{ℤ}
use clawback.Shared.Types.{
  SubscriptionCaseInput, ClawbackReceipt, Environment, OutcomeType, TeeAttestationEvidence,
}
use clawback.Shared.Errors.{Error, Result, ok, err}
use clawback.Privacy.Encryption.{Cipher}
use clawback.Payments.Ledger.{Ledger}
use clawback.Payments.Fee.{FeeCalculation}
use clawback.Agent.CaseRecord.{CaseRecord}

-- packages/providers/src/types.ts
pub record ProviderActionRequest : Type 0 where
  pub case_id : Text
  pub input : SubscriptionCaseInput
  pub exact_message : Text

pub record ProviderActionResult : Type 0 where
  pub outcome_type : OutcomeType
  pub counterparty_confirmation : Option Text
  pub claimed_savings_cents : ℤ
  pub source : Environment

-- packages/compute/src/computeClient.ts
pub record AnalysisResult : Type 0 where
  pub message : Text
  pub tee_attested : Bool
  pub attestation : Option TeeAttestationEvidence
  pub provider_address : Option Text
  pub input_commitment : Text
  pub output_commitment : Text
  pub degraded_reason : Option Text

-- packages/storage/src/storageClient.ts and packages/chain/src/anchorClient.ts
pub record StoredArtifact : Type 0 where
  pub root_hash : Text
  pub tx_hash : Text

pub record AnchorResult : Type 0 where
  pub tx_hash : Text
  pub block_number : Option ℕ

-- The collaborators of `OrchestratorDeps` and what Node gives. The number that each takes is the place of
-- the call among all calls, so that two calls may answer differently.
pub record Deps : Type 0 where
  pub sha256 : Text → Text
  pub random_uuid : ℕ → Text
  pub clock : ℕ → Text
  pub random_iv : ℕ → Text
  pub cipher : Cipher
  pub encryption_key : Text
  pub analyze : ℕ → SubscriptionCaseInput → AnalysisResult
  pub provider_source : Environment
  pub send_action : ℕ → ProviderActionRequest → Result ProviderActionResult
  pub storage_client : Option (ℕ → ClawbackReceipt → Result StoredArtifact)
  pub anchor_client : Option (ℕ → Text → Text → Option Text → Result AnchorResult)

-- What leaves the process, or is written, in the order in which it happens: newest first.
pub data Effect : Type 0 where
  saved : CaseRecord → Effect
  sent : ProviderActionRequest → Effect
  uploaded : ClawbackReceipt → Effect
  anchored : Text → Text → Effect
  fee_assessed : Text → FeeCalculation → Effect

pub record World (S : Type 0) : Type 0 where
  pub cases : S
  pub ledger : Ledger
  pub calls : ℕ
  pub trace : List Effect

abbrev pub Action : Type 0 → Type 0 → Type 0
Action S A = World S → Result A × World S

module _ {S A : Type 0} where
  abbrev pub pure : A → Action S A
  pure a w = (ok a, w)

  abbrev pub throw : Error → Action S A
  throw e w = (err e, w)

  abbrev pub lift : Result A → Action S A
  lift r w = (r, w)

  -- `try`, with what it threw as a value.
  abbrev pub attempt : Action S A → Action S (Result A)
  attempt m w = let (r, w') = m w in (ok r, w')

  -- A call of a collaborator.
  abbrev pub call : (ℕ → Result A) → Action S A
  call f w = (f w.calls, record w { calls = suc w.calls })

abbrev pub continue : {S A B : Type 0} → Result A × World S → (A → Action S B) → Result B × World S
continue (ok a, w) f = f a w
continue (err e, w) f = (err e, w)

infixl 5 ◌>>=◌ ◌>>◌
abbrev pub ◌>>=◌ : {S A B : Type 0} → Action S A → (A → Action S B) → Action S B
◌>>=◌ m f w = continue (m w) f

abbrev pub ◌>>◌ : {S A B : Type 0} → Action S A → Action S B → Action S B
m >> k = m >>= λ _. k

module _ {S : Type 0} where
  abbrev pub emit : Effect → Action S (Unit {0})
  emit e w = (ok tt, record w { trace = e ∷ w.trace })

  -- `new Date().toISOString()`
  abbrev pub now : Deps → Action S Text
  now d = call (λ n. ok (d.clock n))

  -- packages/shared/src/ids.ts
  unfoldable pub new_id : Deps → Text → Action S Text
  new_id d prefix = call (λ n. ok (prefix ++ lit "_" ++ d.random_uuid n))

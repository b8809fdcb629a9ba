-- ===== src/Agent/Orchestrator/Values.antt =====
-- packages/agent/src/orchestrator.ts: the values that `Orchestrator`'s methods compute. A null where the source asserts that there
-- is none (`afterOutcome.proposal!`) is the TypeError of the access that follows.
use clawback.Prelude.{
  ℕ, Text, Bool, true, false, Option, none, some, lit, ◌++◌, if◌then◌else◌, is_empty,
}
use clawback.Prelude.Int.{ℤ, pos, is_nonpos}
use clawback.Json.Read.{parse}
use clawback.Shared.Types.{
  SubscriptionCaseInput, ActionProposal, ApprovalRecord, ExecutionEvidence, OutcomeEvidence,
  OutcomeType, no_response, trusted_claim, ClawbackReceipt, Environment,
}
use clawback.Shared.Artifacts.{input_of_value}
use clawback.Shared.Errors.{
  CaseEvent, execution_succeeded, fail_execution, Error, Result, ok, err, malformed_json, external,
}
use clawback.Receipts.Builder.{BuildReceiptInput}
use clawback.Agent.CaseRecord.{CaseRecord}
use clawback.Agent.World.{ProviderActionResult, StoredArtifact, AnchorResult}

unfoldable pub summarize : SubscriptionCaseInput → Text
summarize input = lit "Requesting: " ++ input.desired_outcome

-- `extractCents(a) ?? extractCents(b)`
abbrev pub in_cents : Option ℕ → Option ℕ → Option ℤ
in_cents none none = none
in_cents none (some n) = some (pos n)
in_cents (some n) later = some (pos n)

abbrev if_named : Option Text → ℤ → Option ℤ
if_named none cents = none
if_named (some confirmation) cents = if is_empty confirmation then none else some cents

unfoldable pub verify_claimed_savings : ProviderActionResult → Option ℤ
verify_claimed_savings result =
    if is_nonpos result.claimed_savings_cents
    then some result.claimed_savings_cents
    else if_named result.counterparty_confirmation result.claimed_savings_cents

abbrev pub outcome_of : Text → Text → ProviderActionResult → OutcomeEvidence
outcome_of case_id time result = record {
  case_id = case_id;
  outcome_type = result.outcome_type;
  counterparty_confirmation = result.counterparty_confirmation;
  claimed_savings_cents = result.claimed_savings_cents;
  verified_savings_cents = verify_claimed_savings result;
  evidence_strength = trusted_claim;
  recorded_at = time;
}

abbrev pub outcome_event : OutcomeType → CaseEvent
outcome_event no_response = fail_execution
outcome_event _ = execution_succeeded

-- `{ ...record.execution, succeeded: false, errorMessage: message }`, unless it is null.
abbrev pub failed_execution : Text → Option ExecutionEvidence → Option ExecutionEvidence
failed_execution message none = none
failed_execution message (some e) =
    some (record e { succeeded = false; error_message = some message })

abbrev pub type_error : Error
type_error = external (lit "Cannot read properties of null")

abbrev pub input_or_error : Option SubscriptionCaseInput → Result SubscriptionCaseInput
input_or_error none = err malformed_json
input_or_error (some input) = ok input

-- `JSON.parse(inputJson) as SubscriptionCaseInput`
unfoldable pub read_input : Text → Result SubscriptionCaseInput
read_input json = elim (parse json) [
  | none ↦ err malformed_json
  | some v ↦ input_or_error (input_of_value v)
]

abbrev pub with_root : ClawbackReceipt → Result StoredArtifact → ClawbackReceipt
with_root r (ok artifact) = record r {
  anchor = record r.anchor { storage_root_hash = some artifact.root_hash };
}
with_root r (err e) = r

abbrev pub with_tx : ClawbackReceipt → Result AnchorResult → ClawbackReceipt
with_tx r (ok anchored_at) = record r {
  anchor = record r.anchor { chain_tx_hash = some anchored_at.tx_hash };
}
with_tx r (err e) = r

-- What a finalized case holds.
pub record Evidence : Type 0 where
  pub proposal : ActionProposal
  pub approval : ApprovalRecord
  pub execution : ExecutionEvidence
  pub outcome : OutcomeEvidence

abbrev pub evidence :
    Option ActionProposal
    → Option ApprovalRecord
    → Option ExecutionEvidence
    → Option OutcomeEvidence
    → Option Evidence
evidence (some p) (some a) (some e) (some o) =
    some (record { proposal = p; approval = a; execution = e; outcome = o })
evidence _ _ _ _ = none

abbrev pub evidence_of : CaseRecord → Option Evidence
evidence_of r = evidence r.proposal r.approval r.execution r.outcome

abbrev pub receipt_input :
    Environment → CaseRecord → SubscriptionCaseInput → Evidence → BuildReceiptInput
receipt_input source r input e = record {
  case_id = r.case_id;
  category = r.category;
  input = input;
  proposal = e.proposal;
  approval = e.approval;
  execution = e.execution;
  outcome = e.outcome;
  environment = source;
  anchor = none;
}

-- `outcomeEvent === "EXECUTION_FAILED"`
abbrev pub is_failure : CaseEvent → Bool
is_failure fail_execution = true
is_failure _ = false

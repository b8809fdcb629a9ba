-- ===== src/Receipts/Builder.antt =====
-- packages/receipts/src/builder.ts. The new receipt id and the time are arguments.
use clawback.Prelude.{Text, true, Option, none, some, ◌++◌, lit, if◌then◌else◌}
use clawback.Json.{bool, num, str, obj, end, field}
use clawback.Shared.Types.{
  SubscriptionCaseInput, ActionProposal, ApprovalRecord, ExecutionEvidence, OutcomeEvidence,
  ClawbackReceipt, ReceiptAnchor, ReceiptStatus, successful, unsuccessful, unverified, Environment,
  CaseCategory, subscription_cancellation, OutcomeType, cancelled, refund_issued, declined,
  no_response, TeeAttestationEvidence, tee_attested, not_independently_verifiable,
}
use clawback.Shared.Commitment.{commit, chain, or_null}
use clawback.Shared.Artifacts.{num_or_null}
use clawback.Shared.Money.{to_fixed2}

-- The literals of the unions, as they stand in an artifact.
unfoldable pub category_text : CaseCategory → Text
unfolding lit
category_text subscription_cancellation = lit "subscription_cancellation"

unfoldable pub outcome_type_text : OutcomeType → Text
unfolding lit
outcome_type_text cancelled = lit "cancelled"
outcome_type_text refund_issued = lit "refund_issued"
outcome_type_text declined = lit "declined"
outcome_type_text no_response = lit "no_response"

unfoldable pub status_text : ReceiptStatus → Text
unfolding lit
status_text successful = lit "successful"
status_text unsuccessful = lit "unsuccessful"
status_text unverified = lit "unverified"

pub record BuildReceiptInput : Type 0 where
  pub case_id : Text
  pub category : CaseCategory
  pub input : SubscriptionCaseInput
  pub proposal : ActionProposal
  pub approval : ApprovalRecord
  pub execution : ExecutionEvidence
  pub outcome : OutcomeEvidence
  pub environment : Environment
  pub anchor : Option ReceiptAnchor

unfoldable pub derive_status : BuildReceiptInput → ReceiptStatus
derive_status i = elim i.outcome.outcome_type [
  | no_response ↦ unverified
  | declined ↦ unsuccessful
  | cancelled ↦ successful
  | refund_issued ↦ successful
]

unfoldable pub summarize_action : ActionProposal → Text
summarize_action proposal = proposal.summary

unfoldable pub summarize_outcome : OutcomeEvidence → Text
summarize_outcome outcome = elim outcome.outcome_type [
  | refund_issued ↦ lit "Refund issued: $" ++ to_fixed2 outcome.claimed_savings_cents
  | cancelled ↦ lit "Subscription cancelled"
  | declined ↦ lit "Request declined by the counterparty"
  | no_response ↦ lit "No response received within the case window"
]

abbrev attested_model : Option TeeAttestationEvidence → Option Text
attested_model none = none
attested_model (some evidence) = evidence.model

abbrev given_anchor : Option ReceiptAnchor → ReceiptAnchor
given_anchor none = record { chain_tx_hash = none; storage_root_hash = none }
given_anchor (some anchor) = anchor

module _ (sha256 : Text → Text) where
  unfoldable pub build_receipt : Text → Text → BuildReceiptInput → ClawbackReceipt
  unfolding derive_status summarize_action summarize_outcome
  build_receipt receipt_id now i =
      let case_commitment = commit sha256 (
        obj (
          field (lit "caseId") (str i.case_id) (
            field (lit "category") (str (category_text i.category)) (
              field (lit "merchantName") (str i.input.merchant_name)
                (field (lit "accountLast4") (str i.input.account_identifier_last4) end))))) in
      let action_commitment = chain sha256 (some case_commitment) (
        obj (
          field (lit "proposalId") (str i.proposal.proposal_id) (
            field (lit "exactMessage") (str i.proposal.exact_message) (
              field (lit "approvalId") (str i.approval.action_commitment)
                (field (lit "approvedAt") (str i.approval.approved_at) end))))) in
      let execution_commitment = chain sha256 (some action_commitment) (
        obj (
          field (lit "executionId") (str i.execution.execution_id) (
            field (lit "inputCommitment") (str i.execution.input_commitment) (
              field (lit "outputCommitment") (str i.execution.output_commitment) (
                field (lit "teeAttested") (bool i.execution.tee_attested)
                  (field (lit "providerAddress") (or_null i.execution.provider_address) end)))))) in
      let outcome_commitment = chain sha256 (some execution_commitment) (
        obj (
          field (lit "outcomeType") (str (outcome_type_text i.outcome.outcome_type)) (
            field (lit "claimedSavingsCents") (num i.outcome.claimed_savings_cents) (
              field (lit "verifiedSavingsCents") (num_or_null i.outcome.verified_savings_cents)
                end)))) in
      let status = derive_status i in
      let receipt_commitment = chain sha256 (some outcome_commitment) (
        obj (
          field (lit "receiptId") (str receipt_id)
            (field (lit "status") (str (status_text status)) end))) in
      record {
        receipt_id = receipt_id;
        case_id = i.case_id;
        category = i.category;
        status = status;
        environment = i.environment;
        action_taken = summarize_action i.proposal;
        outcome = summarize_outcome i.outcome;
        claimed_savings_cents = i.outcome.claimed_savings_cents;
        verified_savings_cents = i.outcome.verified_savings_cents;
        execution = record {
          tee_attested = i.execution.tee_attested;
          evidence_strength =
              if i.execution.tee_attested then tee_attested else not_independently_verifiable;
          provider_address = i.execution.provider_address;
          model = attested_model i.execution.attestation_evidence;
        };
        commitments = record {
          case_commitment = case_commitment;
          action_commitment = action_commitment;
          execution_commitment = execution_commitment;
          outcome_commitment = outcome_commitment;
          receipt_commitment = receipt_commitment;
        };
        anchor = given_anchor i.anchor;
        approval = record { verified = true; approved_at = some i.approval.approved_at };
        created_at = now;
      }

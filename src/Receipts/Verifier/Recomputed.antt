-- ===== src/Receipts/Verifier/Recomputed.antt =====
-- packages/receipts/src/verifier.ts: the commitments as the verifier recomputes them. They are written out once more, as in the
-- source; the verifier shares with the builder only `commit`, `chain` and the texts of the unions.
use clawback.Prelude.{Text, some, lit}
use clawback.Json.{bool, num, str, obj, end, field}
use clawback.Shared.Types.{
  SubscriptionCaseInput, ActionProposal, ApprovalRecord, ExecutionEvidence, OutcomeEvidence,
  ClawbackReceipt,
}
use clawback.Shared.Commitment.{commit, chain, or_null}
use clawback.Shared.Artifacts.{num_or_null}
use clawback.Receipts.Builder.{category_text, outcome_type_text, status_text}

-- `Pick<BuildReceiptInput, "input" | "proposal" | "approval" | "execution" | "outcome">`
pub record Artifacts : Type 0 where
  pub input : SubscriptionCaseInput
  pub proposal : ActionProposal
  pub approval : ApprovalRecord
  pub execution : ExecutionEvidence
  pub outcome : OutcomeEvidence

module _ (sha256 : Text → Text) (receipt : ClawbackReceipt) (a : Artifacts) where
  unfoldable pub recomputed_case : Text
  recomputed_case = commit sha256 (
      obj (
        field (lit "caseId") (str receipt.case_id) (
          field (lit "category") (str (category_text receipt.category)) (
            field (lit "merchantName") (str a.input.merchant_name)
              (field (lit "accountLast4") (str a.input.account_identifier_last4) end)))))

  unfoldable pub recomputed_action : Text
  recomputed_action = chain sha256 (some recomputed_case) (
      obj (
        field (lit "proposalId") (str a.proposal.proposal_id) (
          field (lit "exactMessage") (str a.proposal.exact_message) (
            field (lit "approvalId") (str a.approval.action_commitment)
              (field (lit "approvedAt") (str a.approval.approved_at) end)))))

  unfoldable pub recomputed_execution : Text
  recomputed_execution = chain sha256 (some recomputed_action) (
      obj (
        field (lit "executionId") (str a.execution.execution_id) (
          field (lit "inputCommitment") (str a.execution.input_commitment) (
            field (lit "outputCommitment") (str a.execution.output_commitment) (
              field (lit "teeAttested") (bool a.execution.tee_attested)
                (field (lit "providerAddress") (or_null a.execution.provider_address) end))))))

  unfoldable pub recomputed_outcome : Text
  recomputed_outcome = chain sha256 (some recomputed_execution) (
      obj (
        field (lit "outcomeType") (str (outcome_type_text a.outcome.outcome_type)) (
          field (lit "claimedSavingsCents") (num a.outcome.claimed_savings_cents) (
            field (lit "verifiedSavingsCents") (num_or_null a.outcome.verified_savings_cents)
              end))))

  unfoldable pub recomputed_receipt : Text
  recomputed_receipt = chain sha256 (some recomputed_outcome) (
      obj (
        field (lit "receiptId") (str receipt.receipt_id)
          (field (lit "status") (str (status_text receipt.status)) end)))

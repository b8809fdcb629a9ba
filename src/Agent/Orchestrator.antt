-- ===== src/Agent/Orchestrator.antt =====
-- packages/agent/src/orchestrator.ts: `Orchestrator` over a store and its collaborators. Each method is an
-- action; what the methods share with one another is in Orchestrator/Steps.
pub mod Values
pub mod Steps
pub mod Safety
pub mod Rejections
pub mod Submission
pub mod Sealed
pub mod Success
pub mod Finished
pub mod Approval
pub mod Finishable
pub mod Refinement
use clawback.Prelude.{
  Text, Bool, true, false, ◌||◌, not, Option, none, some, lit, if◌then◌else◌, text_eq,
}
use clawback.Json.{stringify}
use clawback.Shared.Types.{
  SubscriptionCaseInput, ActionProposal, ApprovalRecord, ExecutionEvidence, OutcomeEvidence,
  ClawbackReceipt, draft, subscription_cancellation,
}
use clawback.Shared.Artifacts.{input_value}
use clawback.Shared.Errors.{
  submit, begin_analysis, propose_action, request_approval, approve, reject, begin_execution,
  proposal_mismatch, no_finalized_receipt, ok, err,
}
use clawback.Shared.Commitment.{commit}
use clawback.Shared.Artifacts.{proposal_value}
use clawback.Receipts.Verifier.{Artifacts, VerificationReport, verify_receipt}
use clawback.Agent.CaseRecord.{CaseRecord, CaseSummary, to_summary}
use clawback.Agent.World.{
  Action, pure, throw, call, attempt, ◌>>=◌, ◌>>◌, Deps, now, new_id, AnalysisResult,
}
use clawback.Agent.Store.{Backend, create, get, get_for_owner, transition}
use clawback.Agent.Orchestrator.Values.{summarize, Evidence, evidence_of}
use clawback.Agent.Orchestrator.Steps.{
  encrypt, decrypt_input, step, propose, execution_of, send, conclude, record_failure,
}

-- `proposal !== null && proposal.proposalId === proposalId`
abbrev pub matching_proposal : Text → Option ActionProposal → Option ActionProposal
matching_proposal proposal_id none = none
matching_proposal proposal_id (some p) = if text_eq p.proposal_id proposal_id then some p else none

abbrev pub artifacts_with : SubscriptionCaseInput → Evidence → Artifacts
artifacts_with input e = record {
  input = input;
  proposal = e.proposal;
  approval = e.approval;
  execution = e.execution;
  outcome = e.outcome;
}

abbrev pub finalized :
    Option ClawbackReceipt → Option Evidence → Option (ClawbackReceipt × Evidence)
finalized (some receipt) (some e) = some (receipt, e)
finalized _ _ = none

module _ {S : Type 0} (backend : Backend S) (d : Deps) where
  unfoldable pub submit_case : Text → SubscriptionCaseInput → Action S CaseSummary
  unfolding encrypt step propose
  submit_case owner_id input = do
    case_id ← new_id d (lit "case")
    started ← now d
    encrypted_input ← encrypt d (stringify (input_value input))
    create backend (record {
      case_id = case_id;
      owner_id = owner_id;
      category = subscription_cancellation;
      state = draft;
      encrypted_input = encrypted_input;
      proposal = none;
      encrypted_proposal_message = none;
      approval = none;
      execution = none;
      outcome = none;
      receipt = none;
      settlement = none;
      environment = d.provider_source;
      degraded_reason = none;
      created_at = started;
      updated_at = started;
    })
    step backend d case_id submit
    step backend d case_id begin_analysis
    analysis ← call (λ n. ok (d.analyze n input))
    propose backend d case_id started input analysis
    step backend d case_id request_approval
    final ← get backend case_id
    pure (to_summary final)

  unfoldable pub reject_proposal : Text → Text → Action S CaseSummary
  unfolding step
  reject_proposal case_id owner_id = do
    get_for_owner backend case_id owner_id
    rejected ← step backend d case_id reject
    pure (to_summary rejected)

  -- The approval is recorded and the execution begun.
  unfoldable pub begin : Text → Text → ActionProposal → Action S CaseRecord
  unfolding step
  begin case_id owner_id proposal = do
    approved_at ← now d
    transition backend d case_id approve (λ r. pure (record r {
      approval = some (record {
        case_id = case_id;
        proposal_id = proposal.proposal_id;
        action_commitment = commit d.sha256 (proposal_value proposal);
        approved_at = approved_at;
        approved_by = owner_id;
      });
    }))
    step backend d case_id begin_execution

  -- What follows: the message is sent, and the outcome or the error recorded.
  unfoldable pub execute : Text → CaseRecord → ActionProposal → Action S CaseSummary
  unfolding decrypt_input send conclude record_failure
  execute case_id current proposal = do
    input ← decrypt_input d current.encrypted_input
    answer ← attempt (send d case_id input proposal.exact_message)
    elim answer [
      | ok outcome ↦ conclude backend d case_id input outcome
      | err e ↦ record_failure backend d case_id e
    ]

  unfoldable pub approve_and_execute : Text → Text → Text → Action S CaseSummary
  unfolding begin execute
  approve_and_execute case_id owner_id proposal_id = do
    current ← get_for_owner backend case_id owner_id
    elim (matching_proposal proposal_id current.proposal) [
      | none ↦ throw proposal_mismatch
      | some proposal ↦ begin case_id owner_id proposal >> execute case_id current proposal
    ]

  unfoldable pub get_case : Text → Text → Action S CaseSummary
  get_case case_id owner_id = do r ← get_for_owner backend case_id owner_id; pure (to_summary r)

  -- The case's receipt with the artifacts it is verified against, all of which must be there.
  unfoldable pub verify_record : Text → CaseRecord → Action S VerificationReport
  unfolding decrypt_input
  verify_record case_id r = elim (finalized r.receipt (evidence_of r)) [
    | none ↦ throw (no_finalized_receipt case_id)
    | some (receipt, e) ↦ do
      input ← decrypt_input d r.encrypted_input
      pure (verify_receipt d.sha256 receipt (artifacts_with input e))
  ]

  unfoldable pub verify_case_receipt : Text → Text → Action S VerificationReport
  unfolding verify_record
  verify_case_receipt case_id owner_id = do
    r ← get_for_owner backend case_id owner_id
    verify_record case_id r

-- ===== src/Agent/Orchestrator/Safety.antt =====
-- packages/agent/src/orchestrator.ts: no message is sent without a recorded approval of it. What the steps
-- that send nothing keep is in Safety/Quiet.
pub mod Quiet
pub mod Sends
pub mod Adds
use clawback.Prelude.{◌≡◌, ◌⊎◌, Text, Option, some, List, [], ◌∷◌}
use clawback.Shared.Types.{ActionProposal, ApprovalRecord, approved}
use clawback.Shared.Artifacts.{proposal_value}
use clawback.Shared.Commitment.{commit}
use clawback.Agent.CaseRecord.{CaseRecord}
use clawback.Agent.World.{
  Effect, saved, sent, uploaded, anchored, fee_assessed, ProviderActionRequest,
}

-- The record of an approval that names the request's case and the proposal with exactly its message.
pub record Approves (sha256 : Text → Text) (request : ProviderActionRequest) (r : CaseRecord)
    : Type 0 where
  pub proposal : ActionProposal
  pub approval : ApprovalRecord
  pub of_proposal : r.proposal ≡ some proposal
  pub of_approval : r.approval ≡ some approval
  pub is_approved : r.state ≡ approved
  pub same_case : approval.case_id ≡ request.case_id
  pub same_proposal : approval.proposal_id ≡ proposal.proposal_id
  pub committed : approval.action_commitment ≡ commit sha256 (proposal_value proposal)
  pub same_message : proposal.exact_message ≡ request.exact_message

module _ (sha256 : Text → Text) where
  abbrev IsApproval : ProviderActionRequest → Effect → Type 0
  IsApproval request (saved r) = Approves sha256 request r
  IsApproval request _ = ⊥

  -- Somewhere in a trace an approval of the request was saved.
  abbrev pub ApprovedIn : ProviderActionRequest → List Effect → Type 0
  ApprovedIn request [] = ⊥
  ApprovedIn request (e ∷ trace) = IsApproval request e ⊎ ApprovedIn request trace

  abbrev MayFollow : Effect → List Effect → Type 0
  MayFollow (sent request) trace = ApprovedIn request trace
  MayFollow _ trace = Unit

  -- Every request of the trace was sent after an approval of it was saved. (The newest effect is first.)
  abbrev pub Authorized : List Effect → Type 0
  Authorized [] = Unit
  Authorized (e ∷ trace) = MayFollow e trace × Authorized trace

-- An effect that is not a request.
abbrev pub IsQuiet : Effect → Type 0
IsQuiet (sent request) = ⊥
IsQuiet _ = Unit

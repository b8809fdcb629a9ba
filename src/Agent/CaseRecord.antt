-- ===== src/Agent/CaseRecord.antt =====
-- packages/agent/src/caseRecord.ts.
use clawback.Prelude.{Text, Option}
use clawback.Shared.Types.{
  CaseCategory, CaseState, ActionProposal, ApprovalRecord, ExecutionEvidence, OutcomeEvidence,
  ClawbackReceipt, Environment,
}
use clawback.Privacy.Encryption.{EncryptedPayload}
use clawback.Payments.Ledger.{SettlementRecord}

pub record CaseRecord : Type 0 where
  pub case_id : Text
  pub owner_id : Text
  pub category : CaseCategory
  pub state : CaseState
  pub encrypted_input : EncryptedPayload
  pub proposal : Option ActionProposal
  pub encrypted_proposal_message : Option EncryptedPayload
  pub approval : Option ApprovalRecord
  pub execution : Option ExecutionEvidence
  pub outcome : Option OutcomeEvidence
  pub receipt : Option ClawbackReceipt
  pub settlement : Option SettlementRecord
  pub environment : Environment
  pub degraded_reason : Option Text
  pub created_at : Text
  pub updated_at : Text

pub record CaseSummary : Type 0 where
  pub case_id : Text
  pub category : CaseCategory
  pub state : CaseState
  pub proposal : Option ActionProposal
  pub outcome : Option OutcomeEvidence
  pub receipt : Option ClawbackReceipt
  pub environment : Environment
  pub degraded_reason : Option Text
  pub created_at : Text
  pub updated_at : Text

unfoldable pub to_summary : CaseRecord → CaseSummary
to_summary r = record {
  case_id = r.case_id;
  category = r.category;
  state = r.state;
  proposal = r.proposal;
  outcome = r.outcome;
  receipt = r.receipt;
  environment = r.environment;
  degraded_reason = r.degraded_reason;
  created_at = r.created_at;
  updated_at = r.updated_at;
}

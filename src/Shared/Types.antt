-- ===== src/Shared/Types.antt =====
-- packages/shared/src/types.ts. A string is a list of code units, an amount of cents an integer,
-- `null` is `none`, and each union of string literals a data type.
use clawback.Prelude.{Text, Bool, Option, some, List, [], ◌∷◌, lit, ℕ}
use clawback.Prelude.Int.{ℤ}

pub data EvidenceStrength : Type 0 where
  cryptographically_verifiable tee_attested economically_enforced trusted_claim : EvidenceStrength
  not_independently_verifiable : EvidenceStrength

pub data CaseState : Type 0 where
  draft submitted analyzing action_proposed awaiting_approval approved executing : CaseState
  outcome_pending verified_success execution_failed outcome_unverified rejected : CaseState
  expired : CaseState

abbrev pub case_states : List CaseState
case_states =
    draft ∷ submitted ∷ analyzing ∷ action_proposed ∷ awaiting_approval ∷ approved ∷ executing
    ∷ outcome_pending ∷ verified_success ∷ execution_failed ∷ outcome_unverified ∷ rejected
    ∷ expired ∷ []

-- `===` on states compares the literals: by the place in `CASE_STATES`.
abbrev pub state_index : CaseState → ℕ
state_index draft = 0
state_index submitted = 1
state_index analyzing = 2
state_index action_proposed = 3
state_index awaiting_approval = 4
state_index approved = 5
state_index executing = 6
state_index outcome_pending = 7
state_index verified_success = 8
state_index execution_failed = 9
state_index outcome_unverified = 10
state_index rejected = 11
state_index expired = 12

abbrev pub terminal_states : List CaseState
terminal_states = verified_success ∷ execution_failed ∷ outcome_unverified ∷ rejected ∷ expired ∷ []

pub data CaseCategory : Type 0 where
  subscription_cancellation : CaseCategory

pub data ContactChannel : Type 0 where
  email chat sandbox_channel : ContactChannel

pub record SubscriptionCaseInput : Type 0 where
  pub merchant_name : Text
  pub account_identifier_last4 : Text
  pub subscription_details : Text
  pub desired_outcome : Text
  pub contact_channel : ContactChannel
  pub contact_address : Text

pub record ActionProposal : Type 0 where
  pub proposal_id : Text
  pub summary : Text
  pub exact_message : Text
  pub estimated_recovery_cents : Option ℤ
  pub created_at : Text

pub record ApprovalRecord : Type 0 where
  pub case_id : Text
  pub proposal_id : Text
  pub action_commitment : Text
  pub approved_at : Text
  pub approved_by : Text

pub record TeeAttestationEvidence : Type 0 where
  pub provider_address : Text
  pub model : Option Text
  pub chat_id : Option Text
  pub is_valid : Bool
  pub verified_at : Text

pub record ExecutionEvidence : Type 0 where
  pub execution_id : Text
  pub case_id : Text
  pub started_at : Text
  pub completed_at : Option Text
  pub succeeded : Bool
  pub tee_attested : Bool
  pub attestation_evidence : Option TeeAttestationEvidence
  pub provider_address : Option Text
  pub input_commitment : Text
  pub output_commitment : Text
  pub error_message : Option Text

pub data OutcomeType : Type 0 where
  cancelled refund_issued declined no_response : OutcomeType

pub record OutcomeEvidence : Type 0 where
  pub case_id : Text
  pub outcome_type : OutcomeType
  pub counterparty_confirmation : Option Text
  pub claimed_savings_cents : ℤ
  pub verified_savings_cents : Option ℤ
  pub evidence_strength : EvidenceStrength
  pub recorded_at : Text

pub data ReceiptStatus : Type 0 where
  successful unsuccessful unverified : ReceiptStatus

pub data Environment : Type 0 where
  sandbox live : Environment

pub record ReceiptExecution : Type 0 where
  pub tee_attested : Bool
  pub evidence_strength : EvidenceStrength
  pub provider_address : Option Text
  pub model : Option Text

pub record ReceiptCommitments : Type 0 where
  pub case_commitment : Text
  pub action_commitment : Text
  pub execution_commitment : Text
  pub outcome_commitment : Text
  pub receipt_commitment : Text

pub record ReceiptAnchor : Type 0 where
  pub chain_tx_hash : Option Text
  pub storage_root_hash : Option Text

pub record ReceiptApproval : Type 0 where
  pub verified : Bool
  pub approved_at : Option Text

pub record ClawbackReceipt : Type 0 where
  pub receipt_id : Text
  pub case_id : Text
  pub category : CaseCategory
  pub status : ReceiptStatus
  pub environment : Environment
  pub action_taken : Text
  pub outcome : Text
  pub claimed_savings_cents : ℤ
  pub verified_savings_cents : Option ℤ
  pub execution : ReceiptExecution
  pub commitments : ReceiptCommitments
  pub anchor : ReceiptAnchor
  pub approval : ReceiptApproval
  pub created_at : Text

pub data DataVisibility : Type 0 where
  user_only attested_compute_only public : DataVisibility

pub data DataLifetime : Type 0 where
  ephemeral_in_memory encrypted_at_rest permanent_public : DataLifetime

pub data CommitmentField : Type 0 where
  case_commitment action_commitment execution_commitment outcome_commitment : CommitmentField
  receipt_commitment : CommitmentField

pub record DataFlowEntry : Type 0 where
  pub name : Text
  pub visibility : DataVisibility
  pub lifetime : DataLifetime
  pub commitment_field : Option CommitmentField

unfoldable pub compute_entry : Text → DataFlowEntry
compute_entry name = record {
  name = name;
  visibility = attested_compute_only;
  lifetime = encrypted_at_rest;
  commitment_field = some case_commitment;
}

-- `DATA_FLOW_REGISTRY`
unfoldable pub data_flow_registry : List DataFlowEntry
unfolding compute_entry lit
data_flow_registry =
    compute_entry (lit "merchantName")
    ∷ compute_entry (lit "accountIdentifierLast4")
    ∷ compute_entry (lit "subscriptionDetails")
    ∷ compute_entry (lit "desiredOutcome")
    ∷ compute_entry (lit "contactAddress")
    ∷ record {
      name = lit "exactMessage";
      visibility = user_only;
      lifetime = encrypted_at_rest;
      commitment_field = some action_commitment;
    }
    ∷ record {
      name = lit "claimedSavingsCents";
      visibility = public;
      lifetime = permanent_public;
      commitment_field = some outcome_commitment;
    }
    ∷ []

-- ===== src/Shared/Messages.antt =====
-- The messages of the errors: `error.message`.
use clawback.Prelude.{Text, lit, ◌++◌}
use clawback.Shared.Types.{
  CaseState, draft, submitted, analyzing, action_proposed, awaiting_approval, approved, executing,
  outcome_pending, verified_success, execution_failed, outcome_unverified, rejected, expired,
  Environment, sandbox, live,
}
use clawback.Shared.Errors.{
  Error, illegal_transition, case_not_found, unauthorized_case_access, proposal_mismatch,
  unverified_savings, no_settlement_record, integrity_violation, key_not_set, key_not_32_bytes,
  decryption_failed, malformed_json, no_finalized_receipt, not_implemented, external, CaseEvent,
  submit, begin_analysis, propose_action, request_approval, approve, reject, begin_execution,
  execution_succeeded, fail_execution, outcome_confirmed, outcome_unverifiable, expire,
}

unfoldable pub state_text : CaseState → Text
state_text draft = lit "DRAFT"
state_text submitted = lit "SUBMITTED"
state_text analyzing = lit "ANALYZING"
state_text action_proposed = lit "ACTION_PROPOSED"
state_text awaiting_approval = lit "AWAITING_APPROVAL"
state_text approved = lit "APPROVED"
state_text executing = lit "EXECUTING"
state_text outcome_pending = lit "OUTCOME_PENDING"
state_text verified_success = lit "VERIFIED_SUCCESS"
state_text execution_failed = lit "EXECUTION_FAILED"
state_text outcome_unverified = lit "OUTCOME_UNVERIFIED"
state_text rejected = lit "REJECTED"
state_text expired = lit "EXPIRED"

unfoldable pub event_text : CaseEvent → Text
event_text submit = lit "SUBMIT"
event_text begin_analysis = lit "BEGIN_ANALYSIS"
event_text propose_action = lit "PROPOSE_ACTION"
event_text request_approval = lit "REQUEST_APPROVAL"
event_text approve = lit "APPROVE"
event_text reject = lit "REJECT"
event_text begin_execution = lit "BEGIN_EXECUTION"
event_text execution_succeeded = lit "EXECUTION_SUCCEEDED"
event_text fail_execution = lit "EXECUTION_FAILED"
event_text outcome_confirmed = lit "OUTCOME_CONFIRMED"
event_text outcome_unverifiable = lit "OUTCOME_UNVERIFIABLE"
event_text expire = lit "EXPIRE"

environment_name : Environment → Text
environment_name sandbox = lit "sandbox"
environment_name live = lit "live"

-- The messages of `node:crypto` and `JSON.parse` are theirs: the two texts stand for them.
unfoldable pub error_message : Error → Text
unfolding environment_name state_text event_text
error_message (illegal_transition from event) =
    lit "Illegal transition: cannot apply \""
    ++ event_text event
    ++ lit "\" from state \""
    ++ state_text from
    ++ lit "\"."
error_message (case_not_found id) = lit "No case found with id " ++ id ++ lit "."
error_message (unauthorized_case_access id) = lit "Not authorized to access case " ++ id ++ lit "."
error_message proposal_mismatch =
    lit "The proposal being approved does not match the case's current proposal."
error_message unverified_savings =
    lit "Cannot compute a fee against unverified savings. A case must reach "
    ++ lit "VERIFIED_SUCCESS with a non-null verifiedSavingsCents before any fee is owed."
error_message (no_settlement_record id) =
    lit "No settlement record for case " ++ id ++ lit "; call assessFee first."
error_message (integrity_violation id environment) =
    lit "Integrity violation: receipt "
    ++ id
    ++ lit " was produced by the sandbox provider "
    ++ lit "but labeled environment=\""
    ++ environment_name environment
    ++ lit "\". Refusing to emit."
error_message key_not_set =
    lit "CLAWBACK_ENCRYPTION_KEY is not set. Generate one with: "
    ++ lit "node -e \"console.log(require('crypto').randomBytes(32).toString('hex'))\""
error_message key_not_32_bytes =
    lit "CLAWBACK_ENCRYPTION_KEY must be a 32-byte hex string (64 hex characters)."
error_message decryption_failed = lit "Unsupported state or unable to authenticate data"
error_message malformed_json = lit "Unexpected token in JSON"
error_message (no_finalized_receipt id) =
    lit "Case " ++ id ++ lit " has no finalized receipt to verify yet."
error_message not_implemented =
    lit "LiveEmailSubscriptionProvider is an intentionally unimplemented seam. "
    ++ lit "Wire a real transactional-email provider and reply-parsing pipeline here "
    ++ lit "before using Clawback against real merchants. See LIMITATIONS.md."
error_message (external message) = message

-- ===== src/Tests/Card.antt =====
-- The card of a receipt of the gym's case.
use mathlib.Core.List.{Perm}
use clawback.Prelude.{◌≡◌, ◌↔◌, true, false, some, ◌++◌, lit, length, map, All}
use clawback.Shared.Types.{ClawbackReceipt}
use clawback.Receipts.Builder.{build_receipt}
use clawback.Receipts.Verifier.{Artifacts, VerificationReport, verify_receipt}
use clawback.Web.Client.ReceiptCard.Checks.{Explanation, explanation}
use clawback.Web.Client.ReceiptCard.Claims.{
  of_row, of_check, index_of, numbers, IsVerifiedRow, explanation_complete,
}
use clawback.Shared.Types.{ReceiptAnchor}
use clawback.Receipts.Builder.{BuildReceiptInput}
use clawback.Agent.World.{ProviderActionRequest}
use clawback.Agent.Orchestrator.Values.{outcome_of}
use clawback.Providers.Sandbox.{sandbox_send_action}
use clawback.Tests.Data.{same_text, built, gym, proposal, approval, execution, outcome}

abbrev receipt : ClawbackReceipt
receipt = build_receipt same_text (lit "receipt_0") (lit "t3") built

abbrev artifacts : Artifacts
artifacts = record {
  input = gym;
  proposal = proposal;
  approval = approval;
  execution = execution;
  outcome = outcome;
}

abbrev report : VerificationReport
report = verify_receipt same_text receipt artifacts

abbrev shown : Explanation
shown = explanation (some report) false

explanation_complete_example :
    Perm (map of_row (shown.first ++ shown.second)) (map of_check report.checks)
    × (map index_of (shown.first ++ shown.second) ≡ numbers 0 (length report.checks))
    × ((report.all_cryptographic_checks_passed ≡ true) ↔ All IsVerifiedRow shown.first)
explanation_complete_example = explanation_complete same_text receipt artifacts false

abbrev request : ProviderActionRequest
request = record { case_id = lit "case_0"; input = gym; exact_message = lit "Please cancel." }

abbrev answered : BuildReceiptInput
answered = record built {
  outcome = outcome_of (lit "case_0") (lit "t2") (sandbox_send_action same_text request);
}

abbrev no_anchor : ReceiptAnchor
no_anchor = (build_receipt same_text (lit "receipt_0") (lit "t3") built).anchor

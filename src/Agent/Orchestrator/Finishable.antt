-- ===== src/Agent/Orchestrator/Finishable.antt =====
-- packages/agent/src/orchestrator.ts: a case that was submitted can be approved and then verified.
use clawback.Prelude.{
  ℕ, ◌≡◌, refl, ap, ◌∙◌, ◌&&◌, Text, true, false, Option, some, none, List, is_empty,
}
use clawback.Json.{stringify}
use clawback.Shared.Types.{
  SubscriptionCaseInput, ActionProposal, ExecutionEvidence, awaiting_approval, verified_success,
}
use clawback.Shared.Artifacts.{input_value}
use clawback.Shared.Errors.{ok, execution_succeeded}
use clawback.Privacy.Encryption.{EncryptedPayload, load_key, decrypt_at_rest}
use clawback.Receipts.Verifier.{VerificationReport, is_some}
use clawback.Agent.CaseRecord.{CaseRecord, to_summary}
use clawback.Agent.World.{World, Deps, continue, ProviderActionRequest, ProviderActionResult}
use clawback.Agent.Store.{Backend}
use clawback.Agent.Orchestrator.Values.{outcome_event}
use clawback.Agent.Orchestrator.Steps.{decrypt_input}
use clawback.Agent.Orchestrator.{submit_case, approve_and_execute, verify_case_receipt}
use clawback.Agent.Orchestrator.Submission.{submit_case-Stands}
use clawback.Agent.Orchestrator.Sealed.{read_input-stringify}
use clawback.Agent.Orchestrator.Approval.{CanSucceed, request_of, approve_and_execute-verified}
use clawback.Agent.Orchestrator.Safety.Sends.{Reaches, here, then_call, submitting, perform}
use clawback.Agent.Orchestrator.Refinement.Shape.{fits, has_proposal}
use clawback.Agent.Orchestrator.Refinement.Fits.{AllFit, Reaches-Fits}

evidence_there :
    (p : Option ActionProposal) (x : Option ExecutionEvidence)
    → is_some p && is_some x ≡ true
    → (ex : ExecutionEvidence) × (x ≡ some ex)
evidence_there none x h = cc h
evidence_there (some p) none h = cc h
evidence_there (some p) (some ex) h = (ex, refl)

module _ {S : Type 0} (backend : Backend S) (d : Deps) where
  reads_back :
      (payload : EncryptedPayload) (input : SubscriptionCaseInput) (v : World S)
      → decrypt_at_rest d.cipher payload (some d.encryption_key)
        ≡ ok (stringify (input_value input))
      → decrypt_input d payload v ≡ (ok input, v)
  unfolding decrypt_input
  reads_back payload input v h = rw (h, continue, read_input-stringify input)

  -- What is submitted can be finished: under a key that encryption accepts, whoever submits a case and then approves the proposal that it
  -- offers gets it verified, if the provider answers requests with an outcome: the case ends in VERIFIED_SUCCESS, and
  -- all cryptographic checks of its receipt pass. It is assumed that the clock gives no empty text and that the
  -- cases that were stored before have the fields that their states promise.
  pub submit_case-finishes :
      (owner : Text) (input : SubscriptionCaseInput) (w : World S) (key : List ℕ)
      (reply : ProviderActionRequest → ProviderActionResult)
      → load_key (some d.encryption_key) ≡ ok key
      → AllFit backend w.cases
      → ((n : ℕ) (request : ProviderActionRequest) → d.send_action n request ≡ ok (reply request))
      → ((request : ProviderActionRequest)
          → outcome_event (reply request).outcome_type ≡ execution_succeeded)
      → ((n : ℕ) → is_empty (d.clock n) ≡ false)
      → (r : CaseRecord) × (p : ActionProposal) × (final : CaseRecord)
        × (report : VerificationReport) × ((submit_case backend d owner input w).0
            ≡ ok (to_summary r))
        × (r.proposal ≡ some p)
        × ((approve_and_execute backend d r.case_id owner p.proposal_id
              (submit_case backend d owner input w).1).0
            ≡ ok (to_summary final))
        × (final.state ≡ verified_success)
        × ((verify_case_receipt backend d r.case_id owner
              (approve_and_execute backend d r.case_id owner p.proposal_id
                (submit_case backend d owner input w).1).1).0
            ≡ ok report)
        × (report.all_cryptographic_checks_passed ≡ true)
  unfolding perform
  submit_case-finishes owner input w key reply accepted all answers happened clocked =
      let (r, id, payload, p, n, created, stands, sealed, said) =
        submit_case-Stands backend d owner input w key accepted in
      let w1 = (submit_case backend d owner input w).1 in
      let reached : Reaches backend d w w1 = then_call here (submitting owner input) in
      let fit : fits awaiting_approval (has_proposal r) (is_some r.approval) (is_some r.outcome)
            (is_some r.receipt)
          ≡ true =
        rw stands.in_state at (Reaches-Fits backend d w w1 all reached id r stands.found) in
      let (ex, executed) = evidence_there r.proposal r.execution fit in
      let there : backend.stored r.case_id w1.cases ≡ some r =
        ap (λ k. backend.stored k w1.cases) stands.same_id ∙ stands.found in
      let can : CanSucceed backend d r.case_id owner p ex input
          (reply (request_of backend d r.case_id input p)) r w1 =
        record {
          found = there;
          own_id = refl;
          owned = stands.same_owner;
          waiting = stands.in_state;
          proposed = stands.same_proposal;
          executed = executed;
          readable = λ v. rw stands.same_input (reads_back payload input v sealed);
          answers = λ k. answers k _;
          happened = happened _;
        } in
      let (final, report, done, kept, in_state, verified, passes) =
        approve_and_execute-verified backend d r.case_id owner p ex input _ r w1 can clocked in
      (r, p, final, report, created, stands.same_proposal, done, in_state, verified, passes)

-- ===== src/Agent/Orchestrator/Approval.antt =====
-- packages/agent/src/orchestrator.ts: an approval whose message the provider answers ends in a verified receipt.
use clawback.Prelude.{
  ◌≡◌, refl, ap, ap₂, ◌∙◌, not, ℕ, suc, Text, true, false, some, lit, is_empty, text_eq_refl,
}
use clawback.Shared.Types.{
  SubscriptionCaseInput, ClawbackReceipt, ActionProposal, ApprovalRecord, ExecutionEvidence,
  OutcomeEvidence, awaiting_approval, approved, executing, verified_success,
}
use clawback.Shared.Errors.{Result, ok, approve, begin_execution, execution_succeeded}
use clawback.Shared.StateMachine.{apply_transition}
use clawback.Shared.Commitment.{commit}
use clawback.Shared.Artifacts.{proposal_value}
use clawback.Receipts.Builder.{build_receipt}
use clawback.Receipts.Verifier.{VerificationReport, verify_receipt}
use clawback.Receipts.Soundness.{verify-build_receipt}
use clawback.Agent.CaseRecord.{CaseRecord, CaseSummary, to_summary}
use clawback.Agent.World.{World, continue, Deps, ProviderActionRequest, ProviderActionResult}
use clawback.Agent.Store.{Backend, stamp, get_for_owner}
use clawback.Agent.Store.Laws.{get-found}
use clawback.Agent.Orchestrator.Values.{
  outcome_of, receipt_input, evidence_of, Evidence, outcome_event,
}
use clawback.Agent.Orchestrator.Steps.{decrypt_input, step, send, conclude}
use clawback.Agent.Orchestrator.{
  begin, execute, approve_and_execute, verify_case_receipt, verify_record, finalized,
  artifacts_with,
}
use clawback.Agent.Orchestrator.Refinement.Still.{send-Still}
use clawback.Agent.Orchestrator.Success.{pure-legal, with_world}
use clawback.Agent.Orchestrator.Finished.{Finished, Finished-carry, conclude-Finished}

module _ {S : Type 0} (backend : Backend S) (d : Deps) (id : Text) where
  abbrev pub approval_of : Text → ActionProposal → Text → ApprovalRecord
  approval_of owner p time = record {
    case_id = id;
    proposal_id = p.proposal_id;
    action_commitment = commit d.sha256 (proposal_value p);
    approved_at = time;
    approved_by = owner;
  }

  begin-legal :
      (owner : Text) (p : ActionProposal) (r : CaseRecord) (w : World S)
      → backend.stored id w.cases ≡ some r
      → r.case_id ≡ id
      → r.state ≡ awaiting_approval
      → (time updated : Text) × (w' : World S) × (begin backend d id owner p w ≡ (
        ok (
            stamp executing updated
              (record r { approval = some (approval_of owner p (d.clock w.calls)) })),
        w',
      ))
        × (backend.stored id w'.cases
            ≡ some (
                stamp executing updated
                  (record r { approval = some (approval_of owner p (d.clock w.calls)) })))
  unfolding begin step apply_transition
  begin-legal owner p r w found own waiting =
      let a = approval_of owner p (d.clock w.calls) in
      let asked : World S = record w { calls = suc w.calls } in
      let (w1, moved, there) =
        pure-legal backend d id approve (λ x. record x { approval = some a }) approved r asked found
          (ap (λ s. apply_transition s approve) waiting) own in
      let r1 = stamp approved (d.clock asked.calls) (record r { approval = some a }) in
      let (w2, moved2, there2) =
        pure-legal backend d id begin_execution (λ x. x) executing r1 w1 there refl own in
      (d.clock w.calls, d.clock w1.calls, w2, rw (moved, continue, moved2), there2)

  -- What the message of a proposal is sent with.
  abbrev pub request_of : SubscriptionCaseInput → ActionProposal → ProviderActionRequest
  request_of input p = record { case_id = id; input = input; exact_message = p.exact_message }

  send-ok :
      (input : SubscriptionCaseInput) (p : ActionProposal) (result : ProviderActionResult)
      (w : World S)
      → ((n : ℕ) → d.send_action n (request_of input p) ≡ ok result)
      → (send d id input p.exact_message w).0 ≡ ok (outcome_of id (d.clock (suc w.calls)) result)
  unfolding send
  send-ok input p result w answers = rw (answers w.calls)

  -- What an approval needs to end well: the case is the owner's, awaits the approval of this proposal and has the evidence of its
  -- execution, its input can be read, and the provider answers the message with an outcome.
  pub record CanSucceed (owner : Text) (p : ActionProposal) (ex : ExecutionEvidence)
      (input : SubscriptionCaseInput) (result : ProviderActionResult) (r : CaseRecord) (w : World S)
      : Type 0 where
    pub found : backend.stored id w.cases ≡ some r
    pub own_id : r.case_id ≡ id
    pub owned : r.owner_id ≡ owner
    pub waiting : r.state ≡ awaiting_approval
    pub proposed : r.proposal ≡ some p
    pub executed : r.execution ≡ some ex
    pub readable : (v : World S) → decrypt_input d r.encrypted_input v ≡ (ok input, v)
    pub answers : (n : ℕ) → d.send_action n (request_of input p) ≡ ok result
    pub happened : outcome_event result.outcome_type ≡ execution_succeeded

  module _ (owner : Text) (p : ActionProposal) (ex : ExecutionEvidence)
      (input : SubscriptionCaseInput) (result : ProviderActionResult) (r : CaseRecord) (w : World S)
      (can : CanSucceed owner p ex input result r w) where
    get_for_owner-own :
        (x : CaseRecord) (v : World S)
        → backend.stored id v.cases ≡ some x
        → x.owner_id ≡ owner
        → get_for_owner backend id owner v ≡ (ok x, v)
    unfolding get_for_owner
    get_for_owner-own x v there own = rw (get-found backend id x v there, own, text_eq_refl owner)

    approve-steps :
        (r1 : CaseRecord) (o : OutcomeEvidence) (w1 w2 : World S)
        → begin backend d id owner p w ≡ (ok r1, w1)
        → send d id input p.exact_message w1 ≡ (ok o, w2)
        → approve_and_execute backend d id owner p.proposal_id w ≡ conclude backend d id input o w2
    unfolding approve_and_execute execute
    approve-steps r1 o w1 w2 begun sends = rw (
      get_for_owner-own r w can.found can.owned,
      continue,
      can.proposed,
      text_eq_refl p.proposal_id,
      begun,
      can.readable w1,
      sends,
    )

    pub approve-Finished :
        (n : ℕ) × (o : OutcomeEvidence) × Finished backend d id input r
          (record {
            proposal = p;
            approval = approval_of owner p (d.clock n);
            execution = ex;
            outcome = o;
          })
          (approve_and_execute backend d id owner p.proposal_id w)
    unfolding approve_and_execute
    approve-Finished =
        let (time, updated, w1, begun, there) =
          begin-legal owner p r w can.found can.own_id can.waiting in
        let o = outcome_of id (d.clock (suc w1.calls)) result in
        let r1 =
          stamp executing updated
            (record r { approval = some (approval_of owner p (d.clock w.calls)) }) in
        let w2 = (send d id input p.exact_message w1).1 in
        let e : Evidence = record {
          proposal = p;
          approval = approval_of owner p (d.clock w.calls);
          execution = ex;
          outcome = o;
        } in
        let same = approve-steps r1 o w1 w2 begun (
          with_world (send d id input p.exact_message w1) o
            (send-ok input p result w1 can.answers)) in
        (
          w.calls,
          o,
          Finished-carry backend d id input r r1 e _ _ same refl refl refl refl (
              conclude-Finished backend d id input o r1 e w2
                (ap (backend.stored id) (send-Still d id input p.exact_message w1).same_cases
                  ∙ there)
                can.own_id refl can.happened (rw (can.proposed, can.executed))),
        )

    not-empty-commit : not (is_empty (commit d.sha256 (proposal_value p))) ≡ true
    unfolding commit lit
    not-empty-commit = refl

    verify_record-finalized :
        (final : CaseRecord) (receipt : ClawbackReceipt) (e : Evidence) (v : World S)
        → final.receipt ≡ some receipt
        → evidence_of final ≡ some e
        → decrypt_input d final.encrypted_input v ≡ (ok input, v)
        → verify_record backend d id final v
          ≡ (ok (verify_receipt d.sha256 receipt (artifacts_with input e)), v)
    unfolding verify_record
    verify_record-finalized final receipt e v issued has reads =
        rw (ap₂ finalized issued has, verify_record, reads)

    pub verify-Finished :
        (time : Text) (o : OutcomeEvidence) (x : Result CaseSummary × World S)
        → is_empty time ≡ false
        → Finished backend d id input r
            (record {
              proposal = p;
              approval = approval_of owner p time;
              execution = ex;
              outcome = o;
            })
            x
        → (report : VerificationReport) × ((verify_case_receipt backend d id owner x.1).0
            ≡ ok report)
          × (report.all_cryptographic_checks_passed ≡ true)
    unfolding verify_case_receipt
    verify-Finished time o x timed f =
        let e : Evidence = record {
          proposal = p;
          approval = approval_of owner p time;
          execution = ex;
          outcome = o;
        } in
        let i = receipt_input d.provider_source r input e in
        let receipt = record (build_receipt d.sha256 f.receipt_id f.issued i) {
          anchor = f.anchored;
        } in
        (
          verify_receipt d.sha256 receipt (artifacts_with input e),
          rw (get_for_owner-own f.final x.1 f.found (f.same_owner ∙ can.owned), continue)
              (ap (λ y. y.0)
                (verify_record-finalized f.final receipt e x.1 f.receipt f.evidence
                  (ap (λ payload. decrypt_input d payload x.1) f.same_input ∙ can.readable x.1))),
          verify-build_receipt d.sha256 f.receipt_id f.issued i f.anchored
              ∙ rw (timed, not-empty-commit),
        )

    -- An approval of the proposal that a case awaits, whose message the provider answers with an outcome, succeeds: the case
    -- ends in VERIFIED_SUCCESS, and the verification of its receipt that follows passes all cryptographic checks. Whether
    -- storage and anchoring answer or throw does not matter. It is assumed that the clock gives no empty text.
    pub approve_and_execute-verified :
        ((n : ℕ) → is_empty (d.clock n) ≡ false)
        → (final : CaseRecord) × (report : VerificationReport) × ((approve_and_execute backend d id
              owner p.proposal_id w).0
            ≡ ok (to_summary final))
          × (backend.stored id (approve_and_execute backend d id owner p.proposal_id w).1.cases
              ≡ some final)
          × (final.state ≡ verified_success)
          × ((verify_case_receipt backend d id owner
                (approve_and_execute backend d id owner p.proposal_id w).1).0
              ≡ ok report)
          × (report.all_cryptographic_checks_passed ≡ true)
    approve_and_execute-verified clocked =
        let (n, o, f) = approve-Finished in
        let (report, verified, passes) = verify-Finished (d.clock n) o _ (clocked n) f in
        (f.final, report, f.answered, f.found, f.in_state, verified, passes)

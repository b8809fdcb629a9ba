-- ===== src/Agent/Orchestrator/Finished.antt =====
-- packages/agent/src/orchestrator.ts: what `approveAndExecute` achieves when the provider answers.
use clawback.Prelude.{◌≡◌, refl, ap, ap₂, ◌∙◌, Text, Option, some}
use clawback.Prelude.Int.{ℤ}
use clawback.Agent.Orchestrator.Refinement.Still.{
  charge-Still, anchor-Still, upload-Still, issue_receipt-Still,
}
use clawback.Shared.Types.{
  SubscriptionCaseInput, OutcomeEvidence, ClawbackReceipt, ReceiptAnchor, executing,
  outcome_pending, verified_success,
}
use clawback.Shared.Errors.{Result, ok, execution_succeeded, outcome_confirmed}
use clawback.Shared.StateMachine.{apply_transition}
use clawback.Receipts.Builder.{BuildReceiptInput, build_receipt}
use clawback.Agent.CaseRecord.{CaseRecord, CaseSummary, to_summary}
use clawback.Agent.World.{World, pure, continue, Deps}
use clawback.Agent.Store.{Backend, transition, stamp}
use clawback.Agent.Orchestrator.Values.{receipt_input, evidence_of, Evidence, outcome_event}
use clawback.Agent.Orchestrator.Steps.{
  issue_receipt, upload, anchor, charge, finish, conclude, complete,
}
use clawback.Agent.Orchestrator.Success.{
  with_world, upload-ok, anchor-ok, charge-ok, issue_receipt-ok, pure-legal,
}

module _ {S : Type 0} (backend : Backend S) (d : Deps) (id : Text) where
  -- A case that is finished: it stands in VERIFIED_SUCCESS with a receipt that was built from its evidence.
  pub record Finished (input : SubscriptionCaseInput) (before : CaseRecord) (e : Evidence)
      (x : Result CaseSummary × World S) : Type 0 where
    pub final : CaseRecord
    pub answered : x.0 ≡ ok (to_summary final)
    pub found : backend.stored id x.1.cases ≡ some final
    pub in_state : final.state ≡ verified_success
    pub same_id : final.case_id ≡ before.case_id
    pub same_owner : final.owner_id ≡ before.owner_id
    pub same_input : final.encrypted_input ≡ before.encrypted_input
    pub evidence : evidence_of final ≡ some e
    pub receipt_id : Text
    pub issued : Text
    pub anchored : ReceiptAnchor
    pub receipt :
        final.receipt
        ≡ some
            (record (build_receipt d.sha256 receipt_id issued
              (receipt_input d.provider_source before input e)) { anchor = anchored })

  -- What is finished of a case is finished of it as it was before, and by the call that went on so.
  pub Finished-carry :
      (input : SubscriptionCaseInput) (before after : CaseRecord) (e : Evidence)
      (x y : Result CaseSummary × World S)
      → x ≡ y
      → after.case_id ≡ before.case_id
      → after.owner_id ≡ before.owner_id
      → after.encrypted_input ≡ before.encrypted_input
      → receipt_input d.provider_source after input e
        ≡ receipt_input d.provider_source before input e
      → Finished input after e y
      → Finished input before e x
  Finished-carry input before after e x y same own owner payload built f = record {
    final = f.final;
    answered = ap (λ z. z.0) same ∙ f.answered;
    found = ap (λ z. backend.stored id z.1.cases) same ∙ f.found;
    in_state = f.in_state;
    same_id = f.same_id ∙ own;
    same_owner = f.same_owner ∙ owner;
    same_input = f.same_input ∙ payload;
    evidence = f.evidence;
    receipt_id = f.receipt_id;
    issued = f.issued;
    anchored = f.anchored;
    receipt = rw built at f.receipt;
  }

  finish-steps :
      (i : BuildReceiptInput) (verified : Option ℤ) (w w1 w2 w3 w4 w5 : World S)
      (rc r1 r2 : ClawbackReceipt) (final : CaseRecord)
      → issue_receipt d (λ receipt_id time. build_receipt d.sha256 receipt_id time i) w
        ≡ (ok rc, w1)
      → upload d rc w1 ≡ (ok r1, w2)
      → anchor d id r1 w2 ≡ (ok r2, w3)
      → charge d id verified w3 ≡ (ok tt, w4)
      → transition backend d id outcome_confirmed (λ x. pure (record x { receipt = some r2 })) w4
        ≡ (ok final, w5)
      → finish backend d id i verified w ≡ (ok (to_summary final), w5)
  unfolding finish
  finish-steps i verified w w1 w2 w3 w4 w5 rc r1 r2 final built up an paid moved =
      rw (built, continue, up, an, paid, moved)

  finish-Finished :
      (input : SubscriptionCaseInput) (verified : Option ℤ) (r : CaseRecord) (e : Evidence)
      (w : World S)
      → backend.stored id w.cases ≡ some r
      → r.case_id ≡ id
      → r.state ≡ outcome_pending
      → evidence_of r ≡ some e
      → Finished input r e
          (finish backend d id (receipt_input d.provider_source r input e) verified w)
  unfolding finish apply_transition
  finish-Finished input verified r e w found own pending has =
      let i = receipt_input d.provider_source r input e in
      let build : Text → Text → ClawbackReceipt = λ id time. build_receipt d.sha256 id time i in
      let (receipt_id, issued, built) = issue_receipt-ok d i w refl in
      let w1 = (issue_receipt d build w).1 in
      let rc = build_receipt d.sha256 receipt_id issued i in
      let (r1, (a1, e1), up) = upload-ok d rc w1 in
      let w2 = (upload d rc w1).1 in
      let (r2, (a2, e2), an) = anchor-ok d id r1 w2 in
      let w3 = (anchor d id r1 w2).1 in
      let paid = charge-ok d id verified w3 in
      let w4 = (charge d id verified w3).1 in
      let still : w4.cases ≡ w.cases =
        (charge-Still d id verified w3).same_cases
        ∙ (anchor-Still d id r1 w2).same_cases
        ∙ (upload-Still d rc w1).same_cases
        ∙ (issue_receipt-Still d build w).same_cases in
      let (w5, moved, there) =
        pure-legal backend d id outcome_confirmed (λ x. record x { receipt = some r2 })
          verified_success r w4 (ap (backend.stored id) still ∙ found)
          (ap (λ s. apply_transition s outcome_confirmed) pending) own in
      let done : finish backend d id i verified w ≡ (
        ok (
            to_summary
              (stamp verified_success (d.clock w4.calls) (record r { receipt = some r2 }))),
        w5,
      ) =
        finish-steps i verified w w1 w2 w3 w4 w5 rc r1 r2 _
          (with_world (issue_receipt d build w) rc built) (with_world (upload d rc w1) r1 up)
          (with_world (anchor d id r1 w2) r2 an) (with_world (charge d id verified w3) tt paid)
          moved in
      record {
        final = stamp verified_success (d.clock w4.calls) (record r { receipt = some r2 });
        answered = ap (λ x. x.0) done;
        found = ap (λ x. backend.stored id x.1.cases) done ∙ there;
        in_state = refl;
        same_id = refl;
        same_owner = refl;
        same_input = refl;
        evidence = has;
        receipt_id = receipt_id;
        issued = issued;
        anchored = a2;
        receipt = ap some (e2 ∙ ap (λ (x : ClawbackReceipt). record x { anchor = a2 }) e1);
      }

  conclude-steps :
      (input : SubscriptionCaseInput) (o : OutcomeEvidence) (after : CaseRecord) (e : Evidence)
      (w w1 : World S)
      → transition backend d id
          (outcome_event o.outcome_type)
          (λ x. pure (record x { outcome = some o }))
          w
        ≡ (ok after, w1)
      → outcome_event o.outcome_type ≡ execution_succeeded
      → evidence_of after ≡ some e
      → conclude backend d id input o w
        ≡ finish backend d id
            (receipt_input d.provider_source after input e)
            o.verified_savings_cents
            w1
  unfolding conclude complete
  conclude-steps input o after e w w1 moved happened has =
      rw (moved, continue, happened, has, complete)

  pub conclude-Finished :
      (input : SubscriptionCaseInput) (o : OutcomeEvidence) (r : CaseRecord) (e : Evidence)
      (w : World S)
      → backend.stored id w.cases ≡ some r
      → r.case_id ≡ id
      → r.state ≡ executing
      → outcome_event o.outcome_type ≡ execution_succeeded
      → evidence_of (record r { outcome = some o }) ≡ some e
      → Finished input r e (conclude backend d id input o w)
  unfolding conclude complete apply_transition
  conclude-Finished input o r e w found own running happened has =
      let (w1, moved, there) =
        pure-legal backend d id (outcome_event o.outcome_type) (λ x. record x { outcome = some o })
          outcome_pending r w found (ap₂ apply_transition running happened) own in
      let after = stamp outcome_pending (d.clock w.calls) (record r { outcome = some o }) in
      Finished-carry input r after e _ _ (conclude-steps input o after e w w1 moved happened has)
        refl refl refl refl
        (finish-Finished input o.verified_savings_cents after e w1 there own refl has)

-- ===== src/Agent/Orchestrator/Refinement/Kept.antt =====
-- packages/agent/src/orchestrator.ts: a predicate of the stored cases that every legal change of one keeps is kept by
-- the parts of the orchestrator's methods.
use clawback.Prelude.{
  ◌≡◌, ◌&&◌, true, none, refl, ap, sym, subst, Text, suc, Option, some, text_eq, Bool-cases,
  Option-cases, inl, inr,
}
use clawback.Prelude.Int.{ℤ}
use clawback.Shared.Types.{
  ActionProposal, SubscriptionCaseInput, OutcomeEvidence, ExecutionEvidence, OutcomeType,
  no_response,
}
use clawback.Shared.Errors.{
  CaseEvent, fail_execution, Error, Result, ok, propose_action, outcome_confirmed, approve,
  begin_execution, Result-cases,
}
use clawback.Shared.Messages.{error_message}
use clawback.Shared.StateMachine.{apply_transition}
use clawback.Receipts.Builder.{BuildReceiptInput, build_receipt}
use clawback.Agent.CaseRecord.{CaseRecord}
use clawback.Agent.World.{World, Action, Deps, new_id, AnalysisResult}
use clawback.Agent.Store.{Backend, get_for_owner}
use clawback.Agent.Orchestrator.Values.{
  receipt_input, evidence_of, is_failure, outcome_event, failed_execution,
}
use clawback.Agent.Orchestrator.Steps.{
  encrypt, step, propose, with_proposal, finish, conclude, record_failure, complete, send,
}
use clawback.Agent.Orchestrator.{begin, execute}
use clawback.Agent.Orchestrator.Refinement.Still.{
  still, then_still, continue-ok, encrypt-Still, decrypt_input-Still, issue_receipt-Still,
  upload-Still, anchor-Still, charge-Still, send-Still, ok-inj, pure-IsPatch, IsPatch, Patched,
}
use clawback.Receipts.Verifier.{is_some}
use clawback.Agent.Orchestrator.Refinement.Shape.{Stay, Filled}
use clawback.Agent.Orchestrator.Refinement.Stored.{
  Leaves, Keeps, after, get-Keeps, still-Leaves, transition-Keeps,
}

failed_kept :
    (m : Text) (p : Option ActionProposal) (e : Option ExecutionEvidence)
    → is_some p && is_some e ≡ true
    → is_some p && is_some (failed_execution m e) ≡ true
failed_kept m p none h = h
failed_kept m p (some e) h = h

failed-Stay :
    (m : Text) (r : CaseRecord) → Stay (record r { execution = failed_execution m r.execution }) r
failed-Stay m r = (failed_kept m r.proposal r.execution, λ h. h, λ h. h)

outcome_fills :
    (t : OutcomeType) (r : CaseRecord) (o : OutcomeEvidence)
    → Filled (outcome_event t) (record r { outcome = some o })
outcome_fills no_response r o = refl
outcome_fills _ r o = refl

module _ {S : Type 0} (backend : Backend S) (d : Deps) (P : S → Type 0)
    (saves : (s : S) (id : Text) (event : CaseEvent) (old new : CaseRecord)
      → P s
      → backend.stored id s ≡ some old
      → apply_transition old.state event ≡ ok new.state
      → new.case_id ≡ old.case_id
      → new.owner_id ≡ old.owner_id
      → Patched event new old
      → P (backend.save_record new s)) where
  abbrev Kept : {A : Type 0} → Action S A → Type 0
  Kept m = Keeps backend d P saves m

  abbrev left_by :
      {A : Type 0} {r : Result A} {w : World S} → P w.cases → Leaves backend d P saves (r, w)
  left_by p = record { left = p }

  pub step-Kept :
      (id : Text) (event : CaseEvent)
      → ((r : CaseRecord) → Filled event r)
      → Kept (step backend d id event)
  unfolding step
  step-Kept id event fills w p =
      transition-Keeps backend d P saves id event _
        (pure-IsPatch event (λ r. r) (λ r. refl) (λ r. refl) (λ r. refl)
          (λ r. (λ h. h, λ h. h, λ h. h)) fills)
        w p

  pub get_for_owner-Kept : (id owner : Text) → Kept (get_for_owner backend id owner)
  unfolding get_for_owner
  get_for_owner-Kept id owner w p =
      after backend d P saves _ _ (get-Keeps backend d P saves id w p) (λ r w' p'.
        elim (Bool-cases (text_eq r.owner_id owner)) [
          | inl same ↦ rw same (left_by p')
          | inr other ↦ rw other (left_by p')
        ])

  with_proposal-IsPatch :
      (started : Text) (proposal : ActionProposal) (analysis : AnalysisResult)
      → IsPatch propose_action (with_proposal backend d started proposal analysis)
  unfolding with_proposal new_id encrypt
  with_proposal-IsPatch started proposal analysis = record {
    patch_still = λ r w. then_still w _ _ (encrypt-Still d analysis.message w) (λ m w'. still refl);
    same_id = λ r p w h.
        let (m, w', h') = continue-ok (encrypt {S = S} d analysis.message w) _ p h in
        ap (λ x. x.case_id) (sym (ok-inj h'));
    same_owner = λ r p w h.
        let (m, w', h') = continue-ok (encrypt {S = S} d analysis.message w) _ p h in
        ap (λ x. x.owner_id) (sym (ok-inj h'));
    patched = λ r p w h.
        let (m, w', h') = continue-ok (encrypt {S = S} d analysis.message w) _ p h in
        subst (λ x. Patched propose_action x r) (ok-inj h')
          (inl refl, (λ _. refl, λ h. h, λ h. h), refl);
  }

  pub propose-Kept :
      (id started : Text) (input : SubscriptionCaseInput) (analysis : AnalysisResult)
      → Kept (propose backend d id started input analysis)
  unfolding propose new_id
  propose-Kept id started input analysis w p =
      let asked = record w { calls = suc (suc w.calls) } in
      record {
        left =
            (transition-Keeps backend d P saves id propose_action _
              (with_proposal-IsPatch started _ analysis) asked p).left;
      }

  record_failure-Kept : (id : Text) (e : Error) → Kept (record_failure backend d id e)
  unfolding record_failure
  record_failure-Kept id e w p =
      after backend d P saves _ _
        (transition-Keeps backend d P saves id fail_execution _
          (pure-IsPatch fail_execution
            (λ r. record r { execution = failed_execution (error_message e) r.execution })
            (λ r. refl) (λ r. refl) (λ r. refl) (failed-Stay (error_message e)) (λ r. refl))
          w p)
        (λ _ w1 p1.
          after backend d P saves _ _ (get-Keeps backend d P saves id w1 p1)
            (λ _ w2 p2. left_by p2))

  finish-Kept :
      (id : Text) (built : BuildReceiptInput) (verified : Option ℤ)
      → Kept (finish backend d id built verified)
  unfolding finish
  finish-Kept id built verified w p =
      after backend d P saves _ _
        (still-Leaves backend d P saves w _
          (issue_receipt-Still d (λ receipt_id time. build_receipt d.sha256 receipt_id time built)
            w)
          p)
        (λ receipt w1 p1.
          after backend d P saves _ _
            (still-Leaves backend d P saves w1 _ (upload-Still d receipt w1) p1)
            (λ stored w2 p2.
              after backend d P saves _ _
                (still-Leaves backend d P saves w2 _ (anchor-Still d id stored w2) p2)
                (λ finished w3 p3.
                  after backend d P saves _ _
                    (still-Leaves backend d P saves w3 _ (charge-Still d id verified w3) p3)
                    (λ _ w4 p4.
                      after backend d P saves _ _
                        (transition-Keeps backend d P saves id outcome_confirmed _
                          (pure-IsPatch outcome_confirmed
                            (λ r. record r { receipt = some finished }) (λ r. refl) (λ r. refl)
                            (λ r. refl) (λ r. (λ h. h, λ h. h, λ h. h)) (λ r. refl))
                          w4 p4)
                        (λ _ w5 p5. left_by p5)))))

  complete-Kept :
      (id : Text) (input : SubscriptionCaseInput) (verified : Option ℤ) (r : CaseRecord)
      → Kept (complete backend d id input verified r)
  unfolding complete
  complete-Kept id input verified r w p = elim (Option-cases (evidence_of r)) [
    | inl e ↦ rw (e, complete) (left_by p)
    | inr (found, e) ↦
        rw (e, complete)
          (finish-Kept id (receipt_input d.provider_source r input found) verified w p)
  ]

  conclude-Kept :
      (id : Text) (input : SubscriptionCaseInput) (o : OutcomeEvidence)
      → Kept (conclude backend d id input o)
  unfolding conclude
  conclude-Kept id input o w p =
      after backend d P saves _ _
        (transition-Keeps backend d P saves id (outcome_event o.outcome_type) _
          (pure-IsPatch (outcome_event o.outcome_type) (λ r. record r { outcome = some o })
            (λ r. refl) (λ r. refl) (λ r. refl) (λ r. (λ h. h, λ h. h, λ _. refl))
            (λ r. outcome_fills o.outcome_type r o))
          w p)
        (λ r w' p'. elim (Bool-cases (is_failure (outcome_event o.outcome_type))) [
          | inl failure ↦ rw failure (left_by p')
          | inr going_on ↦ rw going_on (complete-Kept id input o.verified_savings_cents r w' p')
        ])

  pub begin-Kept :
      (id owner : Text) (proposal : ActionProposal) → Kept (begin backend d id owner proposal)
  unfolding begin
  begin-Kept id owner proposal w p =
      let asked = record w { calls = suc w.calls } in
      after backend d P saves _ _
        (transition-Keeps backend d P saves id approve _
          (pure-IsPatch approve (λ r. record r { approval = _ }) (λ r. refl) (λ r. refl) (λ r. refl)
            (λ r. (λ h. h, λ _. refl, λ h. h)) (λ r. refl))
          asked p)
        (λ _ w' p'. step-Kept id begin_execution (λ r. refl) w' p')

  pub execute-Kept :
      (id : Text) (current : CaseRecord) (proposal : ActionProposal)
      → Kept (execute backend d id current proposal)
  unfolding execute
  execute-Kept id current proposal w p =
      after backend d P saves _ _
        (still-Leaves backend d P saves w _ (decrypt_input-Still d current.encrypted_input w) p)
        (λ input w1 p1.
          let sends = send-Still d id input proposal.exact_message w1 in
          let p2 = subst P (sym sends.same_cases) p1 in
          elim (Result-cases (send {S = S} d id input proposal.exact_message w1).0) [
            | inl (o, answered) ↦ rw answered (conclude-Kept id input o _ p2)
            | inr (e, failed) ↦ rw failed (record_failure-Kept id e _ p2)
          ])

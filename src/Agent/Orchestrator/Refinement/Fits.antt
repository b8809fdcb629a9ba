-- ===== src/Agent/Orchestrator/Refinement/Fits.antt =====
-- packages/agent/src/orchestrator.ts: the state of a stored case says which of its fields are filled, whatever is called.
use clawback.Prelude.{
  ◌≡◌, refl, ap, sym, ◌∙◌, Text, true, ◌&&◌, Option, none, some, text_eq_iff, text_eq-cases,
  text_eq_refl, inl, inr,
}
use mathlib.Core.Option.{some-injective}
use clawback.Shared.Types.{
  SubscriptionCaseInput, ActionProposal, ApprovalRecord, ExecutionEvidence, OutcomeEvidence,
  ClawbackReceipt, verified_success, draft,
}
use clawback.Shared.Errors.{ok}
use clawback.Receipts.Verifier.{VerificationReport, is_some, verify_receipt}
use clawback.Agent.CaseRecord.{CaseRecord}
use clawback.Agent.World.{World, Deps, continue}
use clawback.Agent.Store.{Backend, get_for_owner}
use clawback.Agent.Store.Laws.{get-found}
use clawback.Agent.Orchestrator.Values.{Evidence, evidence}
use clawback.Agent.Orchestrator.Steps.{decrypt_input}
use clawback.Agent.Orchestrator.{finalized, verify_case_receipt, verify_record, artifacts_with}
use clawback.Agent.Orchestrator.Safety.Sends.{Reaches}
use clawback.Agent.Orchestrator.Refinement.Shape.{Fits, fits, has_proposal, step-Fits}
use clawback.Agent.Orchestrator.Refinement.Calls.{Reaches-Kept}

draft-Fits : (r : CaseRecord) → r.state ≡ draft → Fits r
draft-Fits r h = rw h refl

finalized-filled :
    (c : Option ClawbackReceipt) (p : Option ActionProposal) (a : Option ApprovalRecord)
    (x : Option ExecutionEvidence) (o : Option OutcomeEvidence)
    → (is_some p && is_some x) && is_some a && is_some o && is_some c ≡ true
    → (receipt : ClawbackReceipt) × (e : Evidence) × (c ≡ some receipt)
      × (finalized c (evidence p a x o) ≡ some (receipt, e))
finalized-filled (some c) (some p) (some a) (some x) (some o) h = (c, _, refl, refl)
finalized-filled c none a x o h = cc h
finalized-filled c (some p) a none o h = cc h
finalized-filled c (some p) none (some x) o h = cc h
finalized-filled c (some p) (some a) (some x) none h = cc h
finalized-filled none (some p) (some a) (some x) (some o) h = cc h

module _ {S : Type 0} (backend : Backend S) where
  -- Every stored case fits its state.
  abbrev pub AllFit : S → Type 0
  AllFit s = (k : Text) (r : CaseRecord) → backend.stored k s ≡ some r → Fits r

  saved-AllFit :
      (s : S) (new : CaseRecord) → AllFit s → Fits new → AllFit (backend.save_record new s)
  saved-AllFit s new all fit k r there = elim (text_eq-cases k new.case_id) [
    | inl same ↦
        let it : new ≡ r = some-injective new r (
          sym (backend.stored-save_self new s)
          ∙ ap (λ j. backend.stored j (backend.save_record new s)) (sym same)
          ∙ there) in
        rw it at fit
    | inr other ↦ all k r (
        sym (backend.stored-save_ne k new s (λ e. cc ((text_eq_iff k new.case_id).1 e, other)))
        ∙ there)
  ]

  -- Whatever sequence of calls is made, with any answers of the collaborators and any errors: the fields that the
  -- state of a stored case promises are filled. In ACTION_PROPOSED, AWAITING_APPROVAL and REJECTED these are the proposal and the
  -- evidence of its analysis, in APPROVED and EXECUTING an approval too, in OUTCOME_PENDING and OUTCOME_UNVERIFIED an
  -- outcome too, and in VERIFIED_SUCCESS a receipt too. It is assumed that this is so of the cases that were stored before.
  pub Reaches-Fits :
      (d : Deps) (start w : World S)
      → AllFit start.cases
      → Reaches backend d start w
      → (id : Text) (r : CaseRecord) → backend.stored id w.cases ≡ some r
      → Fits r
  Reaches-Fits d start w all reached =
      Reaches-Kept backend d AllFit
        (λ s id e old new p there legal i o q.
          saved-AllFit s new p (step-Fits e old new legal (p id old there) q.1 q.2))
        (λ s r n p i born. saved-AllFit s r p (draft-Fits r born)) start w all reached

  -- Whatever sequence of calls is made: a case that is stored in VERIFIED_SUCCESS can be verified by its owner as long as its
  -- input can be read. The verification never fails for a missing artifact, and its report is about the receipt of the case.
  -- It is assumed that the cases that were stored before had the fields that their states promise.
  pub Reaches-verifiable :
      (d : Deps) (start w : World S)
      → AllFit start.cases
      → Reaches backend d start w
      → (id : Text) (r : CaseRecord) (input : SubscriptionCaseInput)
      → backend.stored id w.cases ≡ some r
      → r.state ≡ verified_success
      → decrypt_input d r.encrypted_input w ≡ (ok input, w)
      → (receipt : ClawbackReceipt) × (report : VerificationReport) × (r.receipt ≡ some receipt)
        × (verify_case_receipt backend d id r.owner_id w ≡ (ok report, w))
        × (report.receipt_id ≡ receipt.receipt_id)
  unfolding verify_case_receipt verify_record get_for_owner verify_receipt
  Reaches-verifiable d start w all reached id r input found done reads =
      let fit : fits verified_success (has_proposal r) (is_some r.approval) (is_some r.outcome)
            (is_some r.receipt)
          ≡ true =
        rw done at (Reaches-Fits d start w all reached id r found) in
      let (receipt, e, there, final) =
        finalized-filled r.receipt r.proposal r.approval r.execution r.outcome fit in
      (
        receipt,
        verify_receipt d.sha256 receipt (artifacts_with input e),
        there,
        rw
            (
              get-found backend id r w found,
              text_eq_refl r.owner_id,
              continue,
              final,
              verify_record,
              reads,
            )
            refl,
        refl,
      )

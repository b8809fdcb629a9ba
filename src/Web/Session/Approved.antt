-- ===== src/Web/Session/Approved.antt =====
-- apps/web/src: what the owner of a case sees of an approval, from the page to the verified receipt.
use clawback.Prelude.{ℕ, ◌≡◌, refl, ◌∙◌, Text, false, true, none, some, [], ◌∷◌, is_empty}
use clawback.Shared.Types.{SubscriptionCaseInput, ActionProposal, ExecutionEvidence}
use clawback.Shared.Errors.{ok}
use clawback.Receipts.Verifier.{VerificationReport}
use clawback.Agent.CaseRecord.{CaseRecord, CaseSummary, to_summary}
use clawback.Agent.World.{World, Deps, ProviderActionResult}
use clawback.Agent.Store.{Backend}
use clawback.Agent.Orchestrator.{approve_and_execute}
use clawback.Agent.Orchestrator.Approval.{CanSucceed, approve-Finished, verify-Finished}
use clawback.Web.Client.CaseView.{
  ViewState, initial_view, succeeded, approval_panel, receipt_card, body_panels, approve_end,
}
use clawback.Web.Client.CaseView.Shown.{approve, awaiting-shown}
use clawback.Web.Client.CaseView.Issued.{approved-shown, loaded-shown}
use clawback.Web.Session.{open_case, click_approve, load_verification}
use clawback.Web.Session.Seen.{seen, click_approve-seen, load_verification-seen, open_case-found}

module _ {S : Type 0} (backend : Backend S) (d : Deps) (id owner : Text)
    (filled : is_empty owner ≡ false) (p : ActionProposal) (ex : ExecutionEvidence)
    (input : SubscriptionCaseInput) (result : ProviderActionResult) (r : CaseRecord) (w : World S)
    (can : CanSucceed backend d id owner p ex input result r w) where
  abbrev shown : ViewState
  shown = initial_view (to_summary r)

  abbrev clicked : ℕ → ViewState × World S
  clicked rings = click_approve backend d (some owner) rings shown w

  clicked_lem :
      (rings : ℕ) (c : CaseSummary)
      → is_empty p.proposal_id ≡ false
      → (approve_and_execute backend d id owner p.proposal_id w).0 ≡ ok c
      → clicked rings ≡ (
        approve rings (succeeded c) shown,
        (approve_and_execute backend d id owner p.proposal_id w).1,
      )
  unfolding seen initial_view to_summary
  clicked_lem rings c named answered =
      click_approve-seen backend d owner filled w rings shown p can.proposed named
      ∙ rw (can.own_id, answered) refl

  -- The page of a case that awaits the approval of a proposal shows that proposal. Where the orchestrator can carry the approval
  -- out, the click on it ends with the receipt of the case in its place, whatever number of times the timer rings; and
  -- asking how it was verified then shows a report whose cryptographic checks all pass.
  pub click_approve-receipt :
      (rings : ℕ)
      → is_empty p.proposal_id ≡ false
      → ((n : ℕ) → is_empty (d.clock n) ≡ false)
      → (c : CaseSummary) × (report : VerificationReport) × (open_case backend d (some owner) id w
          ≡ (ok (some shown), w))
        × (body_panels shown ≡ approval_panel none p ∷ [])
        × (body_panels (clicked rings).0 ≡ receipt_card c none false ∷ [])
        × (body_panels
              (load_verification backend d (some owner) (clicked rings).0 (clicked rings).1).0
            ≡ receipt_card c (some report) false ∷ [])
        × (report.all_cryptographic_checks_passed ≡ true)
  unfolding to_summary initial_view approve approve_end
  click_approve-receipt rings named clocked =
      let (n, o, f) = approve-Finished backend d id owner p ex input result r w can in
      let (report, verified, passes) =
        verify-Finished backend d id owner p ex input result r w can (d.clock n) o _ (clocked n)
          f in
      let moved = clicked_lem rings (to_summary f.final) named f.answered in
      (
        to_summary f.final,
        report,
        open_case-found backend d owner filled w id r can.found can.owned,
        awaiting-shown shown p refl can.waiting can.proposed,
        rw moved (approved-shown rings (to_summary f.final) shown _ f.in_state f.receipt),
        rw
            (
              moved,
              load_verification-seen backend d owner filled _ id
                  (approve rings (succeeded (to_summary f.final)) shown) report
                  (f.same_id ∙ can.own_id) verified,
            )
            (loaded-shown rings (to_summary f.final) shown _ report f.in_state f.receipt),
        passes,
      )

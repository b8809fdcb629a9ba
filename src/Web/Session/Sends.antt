-- ===== src/Web/Session/Sends.antt =====
-- apps/web/src: what a click on an approval can send is what the page showed, whatever happened meanwhile.
use clawback.Prelude.{ℕ, ◌≡◌, ◌≢◌, refl, ap, ◌∙◌, false, none, some, [], ◌∷◌, ◌++◌, lit, is_empty}
use clawback.Shared.Types.{ActionProposal, awaiting_approval}
use clawback.Shared.Errors.{ok}
use clawback.Agent.CaseRecord.{CaseRecord, to_summary}
use clawback.Agent.World.{World, Deps}
use clawback.Agent.Store.{Backend}
use clawback.Agent.Orchestrator.Safety.Sends.{Reaches}
use clawback.Agent.Orchestrator.Safety.Adds.{Adds, approve_and_execute-Adds}
use clawback.Agent.Orchestrator.Refinement.Runs.{Keyed, Reaches-Evolved, is_proposed}
use clawback.Web.Client.CaseView.{initial_view, approval_panel, body_panels}
use clawback.Web.Client.CaseView.Shown.{awaiting-shown}
use clawback.Web.Session.{open_case, click_approve}
use clawback.Web.Session.Seen.{click_approve-seen, open_case-found}

-- A page that was opened while its case awaited approval shows the proposal of the case. However long it stays open, and whatever calls the server takes
-- meanwhile, of any clients and with any answers of the collaborators: all that a click on the approval then sends is
-- sent for this case and is the message that the page shows. It is assumed that cases are stored under their ids and that
-- `randomUUID` does not draw the id of this one again.
pub click_approve-sends :
    {S : Type 0} (backend : Backend S) (d : Deps) (r0 : CaseRecord) (start w : World S)
    (p : ActionProposal) (rings : ℕ)
    → is_empty r0.owner_id ≡ false
    → is_empty p.proposal_id ≡ false
    → ((n : ℕ) → r0.case_id ≢ lit "case" ++ lit "_" ++ d.random_uuid n)
    → Keyed backend start.cases
    → backend.stored r0.case_id start.cases ≡ some r0
    → r0.state ≡ awaiting_approval
    → r0.proposal ≡ some p
    → Reaches backend d start w
    → (open_case backend d (some r0.owner_id) r0.case_id start
        ≡ (ok (some (initial_view (to_summary r0))), start))
      × (body_panels (initial_view (to_summary r0)) ≡ approval_panel none p ∷ [])
      × Adds r0.case_id p.exact_message w.trace
          (click_approve backend d
            (some r0.owner_id)
            rings
            (initial_view (to_summary r0))
            w).1.trace
unfolding initial_view to_summary
click_approve-sends backend d r0 start w p rings filled named fresh keyed found waiting proposed
      reached =
    let view = initial_view (to_summary r0) in
    let v = Reaches-Evolved backend r0.case_id r0 d fresh start w keyed found reached in
    let (_, kept) = v.same_proposal (ap is_proposed waiting) in
    (
      open_case-found backend d r0.owner_id filled start r0.case_id r0 found refl,
      awaiting-shown view p refl waiting proposed,
      rw (click_approve-seen backend d r0.owner_id filled w rings view p proposed named) (
          approve_and_execute-Adds backend d r0.case_id r0.owner_id p.proposal_id w v.now p v.found
            (kept ∙ proposed)),
    )

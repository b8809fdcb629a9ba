-- ===== src/Web/Session/Stale.antt =====
-- apps/web/src: an approval in a page that is behind the server.
use clawback.Prelude.{ℕ, suc, ◌≡◌, ◌≢◌, refl, false, some, [], ◌∷◌, ◌++◌, lit, is_empty}
use clawback.Shared.Types.{ActionProposal, awaiting_approval}
use clawback.Shared.Messages.{state_text}
use clawback.Agent.CaseRecord.{CaseRecord}
use clawback.Agent.World.{World, Deps}
use clawback.Agent.Store.{Backend}
use clawback.Agent.Orchestrator.Rejections.{decide-illegal}
use clawback.Web.Routes.{error_response}
use clawback.Web.Client.CaseView.{ViewState, approval_panel, body_panels}
use clawback.Web.Client.CaseView.Shown.{approve-shown}
use clawback.Web.Session.{click_approve}
use clawback.Web.Session.Seen.{seen, click_approve-seen}

-- A page may still offer the approval of a proposal when the case has moved on, for instance in another window.
-- The click then changes nothing on the server but that the clock was read, and the page offers the same proposal with the complaint that
-- names the state of the case.
pub click_approve-stale :
    {S : Type 0} (backend : Backend S) (d : Deps) (r : CaseRecord) (w : World S) (v : ViewState)
    (p : ActionProposal) (rings : ℕ)
    → is_empty r.owner_id ≡ false
    → is_empty p.proposal_id ≡ false
    → backend.stored v.case_data.case_id w.cases ≡ some r
    → r.proposal ≡ some p
    → r.state ≢ awaiting_approval
    → v.is_executing ≡ false
    → v.case_data.state ≡ awaiting_approval
    → v.case_data.proposal ≡ some p
    → (body_panels (click_approve backend d (some r.owner_id) rings v w).0
        ≡ approval_panel
            (some (
              lit "This case can't do that right now (currently "
              ++ state_text r.state
              ++ lit ")."))
            p
          ∷ [])
      × ((click_approve backend d (some r.owner_id) rings v w).1 ≡ record w { calls = suc w.calls })
unfolding seen error_response
click_approve-stale backend d r w v p rings filled named found proposed moved idle waiting shown =
    let illegal = (decide-illegal backend d v.case_data.case_id w r found p proposed moved).0 in
    let clicked = click_approve-seen backend d r.owner_id filled w rings v p shown named in
    rw (clicked, illegal) ((approve-shown v p rings _ idle waiting shown).2, refl)

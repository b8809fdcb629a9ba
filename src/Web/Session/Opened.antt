-- ===== src/Web/Session/Opened.antt =====
-- apps/web/src: what the page of a case shows when it is opened, whatever was called before.
use clawback.Prelude.{
  ℕ, ◌≡◌, refl, Text, Bool, true, false, not, ◌&&◌, some, is_empty, length, if◌then◌else◌, arith,
}
use clawback.Shared.Types.{CaseState, awaiting_approval, draft}
use clawback.Shared.Errors.{ok}
use clawback.Receipts.Verifier.{is_some}
use clawback.Agent.CaseRecord.{CaseRecord, to_summary}
use clawback.Agent.World.{World, Deps}
use clawback.Agent.Store.{Backend}
use clawback.Agent.Orchestrator.Safety.Sends.{Reaches}
use clawback.Agent.Orchestrator.Refinement.Shape.{fits}
use clawback.Agent.Orchestrator.Refinement.Fits.{AllFit, Reaches-Fits}
use clawback.Web.Client.CaseView.{initial_view, body_panels, is_state}
use clawback.Web.Client.CaseView.Shown.{length-body_panels}
use clawback.Web.Session.{open_case}
use clawback.Web.Session.Seen.{open_case-found}

one_panel :
    (s : CaseState) (p e a o c : Bool)
    → fits s (p && e) a o c ≡ true
    → ◌≡◌ {A = ℕ} (if is_state s awaiting_approval && not p then 0 else 1) 1
one_panel awaiting_approval p e a o c h = ground arith
one_panel draft p e a o c h = refl
one_panel _ p e a o c h = refl

-- Whatever sequence of calls was made: the owner of a stored case can open its page, and the page shows exactly one
-- panel under its header, so it is never blank. It is assumed that the cases that were stored before had the fields that
-- their states promise.
pub open_case-one_panel :
    {S : Type 0} (backend : Backend S) (d : Deps) (start w : World S)
    → AllFit backend start.cases
    → Reaches backend d start w
    → (id : Text) (r : CaseRecord) → backend.stored id w.cases ≡ some r
    → is_empty r.owner_id ≡ false
    → (open_case backend d (some r.owner_id) id w ≡ (ok (some (initial_view (to_summary r))), w))
      × (length (body_panels (initial_view (to_summary r))) ≡ 1)
unfolding initial_view to_summary
open_case-one_panel backend d start w all reached id r found filled = (
  open_case-found backend d r.owner_id filled w id r found refl,
  rw (length-body_panels (initial_view (to_summary r))) (
      one_panel r.state (is_some r.proposal) _ _ _ _
        (Reaches-Fits backend d start w all reached id r found)),
)

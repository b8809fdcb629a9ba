-- ===== src/Web/Session/Rejected.antt =====
-- apps/web/src: what the owner of a case sees of its rejection, and what becomes of the case.
use clawback.Prelude.{
  ℕ, ◌≡◌, ◌≢◌, refl, ap, Text, false, Option, none, some, [], ◌∷◌, ◌++◌, lit, is_empty,
  text_eq_refl,
}
use clawback.Web.Client.CaseView.{approval_panels}
use clawback.Web.Client.CaseView.Shown.{receipt_panels-false}
use clawback.Web.Session.{open_case}
use clawback.Web.Session.Seen.{open_case-found}
use clawback.Shared.Types.{ActionProposal, awaiting_approval, rejected}
use clawback.Shared.Errors.{ok, reject}
use clawback.Shared.StateMachine.{apply_transition, is_terminal}
use clawback.Agent.CaseRecord.{CaseRecord, to_summary}
use clawback.Agent.World.{World, continue, Deps}
use clawback.Agent.Store.{Backend, stamp, get_for_owner}
use clawback.Agent.Store.Laws.{get-found}
use clawback.Agent.Orchestrator.{reject_proposal}
use clawback.Agent.Orchestrator.Steps.{step}
use clawback.Agent.Orchestrator.Success.{pure-legal}
use clawback.Agent.Orchestrator.Safety.Sends.{Reaches, here, then_call, rejecting, perform}
use clawback.Agent.Orchestrator.Refinement.Runs.{Keyed, Reaches-Evolved, Reaches-terminal}
use clawback.Web.Routes.{answer, post_reject}
use clawback.Web.Routes.Access.{known_owner}
use clawback.Web.Client.CaseView.{
  ViewState, initial_view, succeeded, case_closed, body_panels, reject_start, reject_end,
}
use clawback.Web.Session.{answer_of, click_reject}

approval_panels-false :
    (e : Option Text) (o : Option ActionProposal) → approval_panels false e o ≡ []
approval_panels-false e none = refl
approval_panels-false e (some p) = refl

rejected-shown :
    (v : ViewState)
    → v.is_executing ≡ false
    → v.case_data.state ≡ rejected
    → body_panels v ≡ case_closed ∷ []
unfolding body_panels
rejected-shown v idle over = simp (
  idle,
  over,
  approval_panels-false,
  receipt_panels-false v.case_data v.report v.loading_report v.case_data.receipt,
)

module _ {S : Type 0} (backend : Backend S) (d : Deps) (r : CaseRecord) (w : World S)
    (filled : is_empty r.owner_id ≡ false) (found : backend.stored r.case_id w.cases ≡ some r)
    (waiting : r.state ≡ awaiting_approval) where
  abbrev page : ViewState
  page = initial_view (to_summary r)

  abbrev clicked : ViewState × World S
  clicked = click_reject backend d (some r.owner_id) page w

  abbrev closed : Text → CaseRecord
  closed time = stamp rejected time r

  reject-legal :
      (time : Text) × (w' : World S) × (reject_proposal backend d r.case_id r.owner_id w
        ≡ (ok (to_summary (closed time)), w'))
      × (backend.stored r.case_id w'.cases ≡ some (closed time))
  unfolding reject_proposal step get_for_owner apply_transition
  reject-legal =
      let (w', moved, there) =
        pure-legal backend d r.case_id reject (λ x. x) rejected r w found
          (ap (λ s. apply_transition s reject) waiting) refl in
      (
        d.clock w.calls,
        w',
        rw (get-found backend r.case_id r w found, text_eq_refl r.owner_id, continue, moved) refl,
        there,
      )

  click_reject-seen :
      (time : Text) (w' : World S)
      → reject_proposal backend d r.case_id r.owner_id w ≡ (ok (to_summary (closed time)), w')
      → clicked ≡ (reject_end (succeeded (to_summary (closed time))) (reject_start page), w')
  unfolding click_reject post_reject answer answer_of initial_view to_summary
  click_reject-seen time w' did = rw (known_owner backend d r.owner_id filled w, continue, did) refl

  -- When the owner of a case rejects its proposal, the page shows that the case is closed, and closed it is: whatever
  -- calls the server takes from then on, of any clients, the stored case stays the rejected one. It is assumed
  -- that the case awaits approval, that cases are stored under their ids and that `randomUUID` does not draw the id of this one again.
  pub click_reject-closes :
      ((n : ℕ) → r.case_id ≢ lit "case" ++ lit "_" ++ d.random_uuid n)
      → Keyed backend w.cases
      → (later : World S) → Reaches backend d clicked.1 later
      → (time : Text) × (open_case backend d (some r.owner_id) r.case_id w ≡ (ok (some page), w))
        × (body_panels clicked.0 ≡ case_closed ∷ [])
        × (clicked.0.case_data ≡ to_summary (closed time))
        × (backend.stored r.case_id later.cases ≡ some (closed time))
  unfolding reject_end reject_start is_terminal to_summary initial_view perform
  click_reject-closes fresh keyed later reached =
      let (time, w', did, there) = reject-legal in
      let seen = click_reject-seen time w' did in
      let rest = rw seen at reached in
      let call : Reaches backend d w (reject_proposal backend d r.case_id r.owner_id w).1 =
        then_call here (rejecting r.case_id r.owner_id) in
      let keyed' =
        (Reaches-Evolved backend r.case_id r d fresh w w' keyed found (rw did at call)).keyed in
      (
        time,
        open_case-found backend d r.owner_id filled w r.case_id r found refl,
        rw seen (
            rejected-shown (reject_end (succeeded (to_summary (closed time))) (reject_start page))
              refl refl),
        rw seen refl,
        Reaches-terminal backend r.case_id (closed time) d fresh w' later keyed' there refl rest,
      )

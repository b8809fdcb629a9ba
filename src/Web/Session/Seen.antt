-- ===== src/Web/Session/Seen.antt =====
-- apps/web/src: what the page makes of the answer to an approval.
use clawback.Prelude.{ℕ, ◌≡◌, refl, Text, false, none, some, lit, is_empty, inl, inr, text_eq_refl}
use clawback.Shared.Types.{ActionProposal}
use clawback.Shared.Errors.{
  Error, Result, ok, err, Result-cases, illegal_transition, case_not_found,
  unauthorized_case_access, proposal_mismatch,
}
use clawback.Shared.Artifacts.{get_field}
use clawback.Receipts.Verifier.{VerificationReport}
use clawback.Agent.CaseRecord.{CaseRecord, CaseSummary, to_summary}
use clawback.Agent.World.{World, continue, Deps}
use clawback.Agent.Store.{Backend, get_for_owner}
use clawback.Agent.Store.Laws.{get-found}
use clawback.Agent.Orchestrator.{approve_and_execute, verify_case_receipt, get_case}
use clawback.Web.Validate.{property}
use clawback.Web.Routes.{
  approve_given, respond, case_body, error_response, answer, post_approve, get_verify, case_page,
}
use clawback.Web.Routes.Access.{known_owner, known_page}
use clawback.Web.Client.CaseView.{
  ViewState, initial_view, Answer, succeeded, refused, approve_request, load_start, load_end,
}
use clawback.Web.Client.CaseView.Shown.{approve}
use clawback.Web.Session.{
  answer_of, approval_body, case_of, error_of, is_ok, open_case, click_approve, load_verification,
}

-- What the page makes of what the orchestrator did.
unfoldable pub seen : Result CaseSummary → Answer CaseSummary
seen (ok c) = succeeded c
seen (err e) = refused (error_of (error_response none e).body)

error_response-refuses : (e : Error) → is_ok (error_response none e) ≡ false
unfolding error_response
error_response-refuses (illegal_transition from event) = refl
error_response-refuses (case_not_found id) = refl
error_response-refuses (unauthorized_case_access id) = refl
error_response-refuses proposal_mismatch = refl
error_response-refuses _ = refl

module _ {S : Type 0} (backend : Backend S) (d : Deps) (owner : Text)
    (filled : is_empty owner ≡ false) (w : World S) where
  post_approve-reaches :
      (id pid : Text)
      → is_empty pid ≡ false
      → post_approve backend d (some owner) id (ok (approval_body pid)) w
        ≡ answer backend d none
            (approve_and_execute backend d id owner pid)
            (λ c. respond 200 (case_body c) none)
            w
  unfolding post_approve property get_field approve_given
  post_approve-reaches id pid named =
      rw (text_eq_refl (lit "proposalId"), named, known_owner backend d owner filled w, continue)

  pub answered-seen :
      (id pid : Text)
      → is_empty pid ≡ false
      → (answer_of case_of (post_approve backend d (some owner) id (ok (approval_body pid)) w).0
          ≡ seen (approve_and_execute backend d id owner pid w).0)
        × ((post_approve backend d (some owner) id (ok (approval_body pid)) w).1
            ≡ (approve_and_execute backend d id owner pid w).1)
  unfolding answer answer_of seen
  answered-seen id pid named =
      elim (Result-cases (approve_and_execute backend d id owner pid w).0) [
        | inl (c, e) ↦ rw (post_approve-reaches id pid named, e) (refl, refl)
        | inr (x, e) ↦
            rw (post_approve-reaches id pid named, e, error_response-refuses x) (refl, refl)
      ]

  pub click_approve-seen :
      (rings : ℕ) (v : ViewState) (p : ActionProposal)
      → v.case_data.proposal ≡ some p
      → is_empty p.proposal_id ≡ false
      → click_approve backend d (some owner) rings v w ≡ (
        approve rings
            (seen (approve_and_execute backend d v.case_data.case_id owner p.proposal_id w).0)
            v,
        (approve_and_execute backend d v.case_data.case_id owner p.proposal_id w).1,
      )
  unfolding click_approve approve_request
  click_approve-seen rings v p proposed named =
      let (same, there) = answered-seen v.case_data.case_id p.proposal_id named in
      rw (proposed, same, there)

  pub load_verification-seen :
      (id : Text) (v : ViewState) (report : VerificationReport)
      → v.case_data.case_id ≡ id
      → (verify_case_receipt backend d id owner w).0 ≡ ok report
      → (load_verification backend d (some owner) v w).0
        ≡ load_end (succeeded report) (load_start v)
  unfolding load_verification get_verify answer answer_of
  load_verification-seen id v report same verified =
      rw (same, known_owner backend d owner filled w, continue, verified) refl

  case_page-found :
      (id : Text) (r : CaseRecord)
      → backend.stored id w.cases ≡ some r
      → r.owner_id ≡ owner
      → case_page backend d (some owner) id w ≡ (ok (some (to_summary r)), w)
  unfolding case_page get_case get_for_owner
  case_page-found id r found own = rw (
    known_page backend d owner filled w,
    continue,
    get-found backend id r w found,
    own,
    text_eq_refl owner,
  )

  -- The owner of a stored case who opens its page gets its view.
  pub open_case-found :
      (id : Text) (r : CaseRecord)
      → backend.stored id w.cases ≡ some r
      → r.owner_id ≡ owner
      → open_case backend d (some owner) id w ≡ (ok (some (initial_view (to_summary r))), w)
  unfolding open_case
  open_case-found id r found own = rw (case_page-found id r found own) refl

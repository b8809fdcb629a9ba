-- ===== src/Web/Session.antt =====
-- apps/web/src/app/cases/[caseId]/CaseView.tsx with the routes behind it: what a click does to the view and to
-- the server's world. A response reaches the page with the values that the route answered.
pub mod Seen
pub mod Approved
pub mod Stale
pub mod Submitted
pub mod Sends
pub mod Rejected
pub mod Opened
use clawback.Prelude.{
  ℕ, zero, suc, ◌&&◌, Text, Bool, true, false, Option, none, some, List, lit, leb, if◌then◌else◌,
}
use clawback.Json.{Value, str, obj, field, end}
use clawback.Shared.Errors.{Result, ok, err}
use clawback.Receipts.Verifier.{VerificationReport}
use clawback.Agent.CaseRecord.{CaseSummary}
use clawback.Agent.World.{World, Deps}
use clawback.Agent.Store.{Backend}
use clawback.Web.Routes.{
  Body, case_body, report_body, error_body, debug_body, Response, post_approve, post_reject,
  get_verify, case_page, post_case,
}
use clawback.Web.Client.CaseView.{
  ViewState, initial_view, Answer, succeeded, refused, unreachable, approve_request, reject_start,
  reject_end, load_start, load_end,
}
use clawback.Web.Client.NewCase.{FormState, form_body, submit_start, submit_tick, submit_end}
use clawback.Web.Client.CaseView.Shown.{approve}

-- `response.ok`
abbrev pub is_ok : Response → Bool
is_ok r = leb 200 r.status && leb r.status 299

-- `data.error`
abbrev pub error_of : Body → Option Text
error_of (error_body e) = some e
error_of (debug_body e debug) = some e
error_of _ = none

-- `data.case` and `data.report`
abbrev pub case_of : Body → Option CaseSummary
case_of (case_body c) = some c
case_of _ = none

abbrev pub report_of : Body → Option VerificationReport
report_of (report_body r) = some r
report_of _ = none

-- A success without it would be `undefined`; no route answers that.
abbrev answered : {A : Type 0} → Option A → Answer A
answered none = unreachable
answered (some a) = succeeded a

-- What the page makes of a route's response; where a route throws, the body is no JSON.
unfoldable pub answer_of : {A : Type 0} → (Body → Option A) → Result Response → Answer A
answer_of read (err e) = unreachable
answer_of read (ok r) = if is_ok r then answered (read r.body) else refused (error_of r.body)

-- `JSON.stringify({ proposalId: caseData.proposal.proposalId })`, as the route reads it.
abbrev pub approval_body : Text → Value
approval_body proposal_id = obj (field (lit "proposalId") (str proposal_id) end)

abbrev page_of : Result (Option CaseSummary) → Result (Option ViewState)
page_of (err e) = err e
page_of (ok none) = ok none
page_of (ok (some c)) = ok (some (initial_view c))

unfoldable pub submit_ticks : ℕ → FormState → FormState
submit_ticks zero f = f
submit_ticks (suc n) f = submit_tick (submit_ticks n f)

module _ {S : Type 0} (backend : Backend S) (d : Deps) (cookie : Option Text) where
  -- The page as it is opened: its view, or the page of what is not found.
  unfoldable pub open_case : Text → World S → Result (Option ViewState) × World S
  open_case case_id w =
      let (found, w') = case_page backend d cookie case_id w in (page_of found, w')

  -- `approve`, with the rings of its timer until the answer.
  unfoldable pub click_approve : ℕ → ViewState → World S → ViewState × World S
  unfolding approve_request approve answer_of
  click_approve rings v w = elim (approve_request v) [
    | none ↦ (v, w)
    | some (case_id, proposal_id) ↦
        let (response, w') =
          post_approve backend d cookie case_id (ok (approval_body proposal_id)) w in
        (approve rings (answer_of case_of response) v, w')
  ]

  -- `reject`
  unfoldable pub click_reject : ViewState → World S → ViewState × World S
  unfolding reject_start reject_end answer_of
  click_reject v w =
      let (response, w') = post_reject backend d cookie v.case_data.case_id w in
      (reject_end (answer_of case_of response) (reject_start v), w')

  -- `loadVerification`
  unfoldable pub load_verification : ViewState → World S → ViewState × World S
  unfolding load_start load_end answer_of
  load_verification v w =
      let (response, w') = get_verify backend d cookie v.case_data.case_id w in
      (load_end (answer_of report_of response) (load_start v), w')

  -- `onSubmit` of the form, with the rings of its timer until the answer, and the page it goes to.
  unfoldable pub submit_form : ℕ → FormState → World S → (FormState × Option Text) × World S
  unfolding submit_start submit_end submit_ticks answer_of
  submit_form rings f w =
      let (response, w') = post_case backend d cookie (ok (form_body f)) w in
      (submit_end (answer_of case_of response) (submit_ticks rings (submit_start f)), w')

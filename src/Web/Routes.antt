-- ===== src/Web/Routes.antt =====
-- apps/web/src/app/api and apps/web/src/lib/server: the routes, as actions that answer with a response. The
-- owner's cookie is an argument, and the response says whether one is set. What a route does not
-- catch it throws, which the framework turns into a page of its own.
pub mod Access
pub mod Served
use clawback.Prelude.{
  ℕ, zero, Text, Bool, true, false, Option, none, some, lit, ◌++◌, is_empty, if◌then◌else◌,
}
use clawback.Prelude.Int.{pos}
use clawback.Json.{Value, null, bool, num, str, arr, obj}
use clawback.Shared.Types.{CaseState}
use clawback.Shared.Errors.{
  Error, Result, ok, err, unauthorized_case_access, case_not_found, proposal_mismatch,
  illegal_transition, external,
}
use clawback.Shared.Messages.{error_message, state_text}
use clawback.Receipts.Verifier.{VerificationReport}
use clawback.Agent.CaseRecord.{CaseSummary}
use clawback.Agent.World.{Action, pure, throw, lift, attempt, ◌>>=◌, ◌>>◌, Deps, new_id}
use clawback.Agent.Store.{Backend, get_for_owner}
use clawback.Agent.Orchestrator.{
  submit_case, reject_proposal, approve_and_execute, get_case, verify_case_receipt,
}
use clawback.Web.Validate.{validate, input_of_body, property}

pub data Body : Type 0 where
  case_body : CaseSummary → Body
  report_body : VerificationReport → Body
  error_body : Text → Body
  debug_body : Text → Text → Body

pub record Response : Type 0 where
  pub status : ℕ
  pub body : Body
  pub set_cookie : Option Text

abbrev pub respond : ℕ → Body → Option Text → Response
respond status body set_cookie = record { status = status; body = body; set_cookie = set_cookie }

-- `errorResponse`
unfoldable pub error_response : Option Text → Error → Response
error_response cookie (unauthorized_case_access id) =
    respond 403 (error_body (lit "Not authorized.")) cookie
error_response cookie (case_not_found id) = respond 404 (error_body (lit "Case not found.")) cookie
error_response cookie proposal_mismatch =
    respond 409 (error_body (lit "That proposal no longer matches this case.")) cookie
error_response cookie (illegal_transition from event) =
    respond 409
      (error_body
        (lit "This case can't do that right now (currently " ++ state_text from ++ lit ")."))
      cookie
error_response cookie e =
    respond 500 (debug_body (lit "Something went wrong.") (error_message e)) cookie

-- `error instanceof CaseNotFoundError || error instanceof UnauthorizedCaseAccessError`
abbrev pub is_hidden : Error → Bool
is_hidden (case_not_found id) = true
is_hidden (unauthorized_case_access id) = true
is_hidden _ = false

-- The id of the owner, and the cookie to set when it is new.
pub record Identity : Type 0 where
  pub owner_id : Text
  pub fresh : Option Text

abbrev known : Text → Identity
known id = record { owner_id = id; fresh = none }

abbrev created : Text → Identity
created id = record { owner_id = id; fresh = some id }

abbrev cookie_refused : Error
cookie_refused = external (lit "Cookies can only be modified in a Server Action or Route Handler.")

-- `proposalId` of the body: what is falsy is refused, and what is no text is no proposal's id.
pub data ProposalId : Type 0 where
  missing other : ProposalId
  text : Text → ProposalId

abbrev pub proposal_id_of : Option Value → ProposalId
proposal_id_of none = missing
proposal_id_of (some null) = missing
proposal_id_of (some (bool b)) = if b then other else missing
proposal_id_of (some (num (pos zero))) = missing
proposal_id_of (some (num _)) = other
proposal_id_of (some (str id)) = if is_empty id then missing else text id
proposal_id_of (some (arr vs)) = other
proposal_id_of (some (obj fs)) = other

abbrev pub is_missing : ProposalId → Bool
is_missing missing = true
is_missing _ = false

module _ {S : Type 0} (backend : Backend S) (d : Deps) where
  abbrev new_identity : Action S Identity
  new_identity = do id ← new_id d (lit "owner"); pure (created id)

  unfoldable pub get_or_create_owner_id : Option Text → Action S Identity
  unfolding new_id
  get_or_create_owner_id none = new_identity
  get_or_create_owner_id (some existing) =
      if is_empty existing then new_identity else pure (known existing)

  -- `try`, with the success as a response and every error as `errorResponse` of it.
  unfoldable pub answer :
      {A : Type 0} → Option Text → Action S A → (A → Response) → Action S Response
  unfolding error_response
  answer cookie run success = do
    result ← attempt run
    elim result [ ok a ↦ pure (success a) | err e ↦ pure (error_response cookie e) ]

  -- `POST /api/cases`; the body is what `request.json()` gives.
  unfoldable pub post_case : Option Text → Result Value → Action S Response
  unfolding get_or_create_owner_id answer
  post_case cookie json = do
    body ← lift json
    complaint ← lift (validate body)
    elim complaint [
      | some message ↦ pure (respond 400 (error_body message) none)
      | none ↦ do
        owner ← get_or_create_owner_id cookie
        input ← lift (input_of_body body)
        answer owner.fresh (submit_case backend d owner.owner_id input)
            (λ summary. respond 201 (case_body summary) owner.fresh)
    ]

  -- `GET /api/cases/:caseId`
  unfoldable pub get_case_route : Option Text → Text → Action S Response
  unfolding get_or_create_owner_id answer
  get_case_route cookie case_id = do
    owner ← get_or_create_owner_id cookie
    answer owner.fresh (get_case backend d case_id owner.owner_id)
        (λ summary. respond 200 (case_body summary) owner.fresh)

  unfoldable pub approve_given : Text → Text → ProposalId → Action S CaseSummary
  approve_given case_id owner_id (text id) = approve_and_execute backend d case_id owner_id id
  approve_given case_id owner_id _ = do
    get_for_owner backend case_id owner_id
    throw proposal_mismatch

  -- `POST /api/cases/:caseId/approve`
  unfoldable pub post_approve : Option Text → Text → Result Value → Action S Response
  unfolding get_or_create_owner_id answer approve_given
  post_approve cookie case_id json = do
    body ← lift json
    given ← lift (property body (lit "proposalId"))
    if is_missing (proposal_id_of given)
        then pure (respond 400 (error_body (lit "proposalId is required.")) none)
        else do
          owner ← get_or_create_owner_id cookie
          answer owner.fresh (approve_given case_id owner.owner_id (proposal_id_of given))
              (λ summary. respond 200 (case_body summary) owner.fresh)

  -- `POST /api/cases/:caseId/reject`
  unfoldable pub post_reject : Option Text → Text → Action S Response
  unfolding get_or_create_owner_id answer
  post_reject cookie case_id = do
    owner ← get_or_create_owner_id cookie
    answer owner.fresh (reject_proposal backend d case_id owner.owner_id)
        (λ summary. respond 200 (case_body summary) owner.fresh)

  -- `GET /api/cases/:caseId/verify`
  unfoldable pub get_verify : Option Text → Text → Action S Response
  unfolding get_or_create_owner_id answer
  get_verify cookie case_id = do
    owner ← get_or_create_owner_id cookie
    answer owner.fresh (verify_case_receipt backend d case_id owner.owner_id)
        (λ report. respond 200 (report_body report) owner.fresh)

  -- `getOrCreateOwnerId` in a page: `set` of a cookie throws there, since Next.js lets only route handlers and server actions
  -- set cookies.
  unfoldable pub page_identity : Option Text → Action S Identity
  unfolding get_or_create_owner_id
  page_identity cookie = do
    owner ← get_or_create_owner_id cookie
    elim owner.fresh [ none ↦ pure owner | some id ↦ throw cookie_refused ]

  -- The page of a case: its view, or the page of what is not found.
  unfoldable pub case_page : Option Text → Text → Action S (Option CaseSummary)
  unfolding page_identity
  case_page cookie case_id = do
    owner ← page_identity cookie
    result ← attempt (get_case backend d case_id owner.owner_id)
    elim result [
      | ok summary ↦ pure (some summary)
      | err e ↦ if is_hidden e then pure none else throw e
    ]

-- ===== src/Web/Client/CaseView.antt =====
-- apps/web/src/app/cases/[caseId]/CaseView.tsx: the state of the view of a case, what its buttons and the answers to
-- their requests do to it, and what it shows.
pub mod Shown
pub mod Issued
use clawback.Prelude.{
  ℕ, suc, ◌+◌, ◌&&◌, ◌||◌, Text, Bool, true, false, not, Option, none, some, List, [], ◌∷◌, ◌++◌,
  lit, leb, ltb, ◌==◌, if◌then◌else◌,
}
use clawback.Shared.Types.{
  CaseState, ActionProposal, OutcomeEvidence, OutcomeType, no_response, ClawbackReceipt,
  Environment, state_index, draft, submitted, analyzing, action_proposed, awaiting_approval,
  approved, executing, outcome_pending, verified_success, execution_failed, outcome_unverified,
  rejected, expired,
}
use clawback.Receipts.Verifier.{VerificationReport, is_some}
use clawback.Agent.CaseRecord.{CaseSummary}
use clawback.Web.Client.Lifecycle.{lifecycle_stepper, StepStatus}

pub record ViewState : Type 0 where
  pub case_data : CaseSummary
  pub is_executing : Bool
  pub executing_step : ℕ
  pub error : Option Text
  pub report : Option VerificationReport
  pub loading_report : Bool

unfoldable pub initial_view : CaseSummary → ViewState
initial_view c = record {
  case_data = c;
  is_executing = false;
  executing_step = 0;
  error = none;
  report = none;
  loading_report = false;
}

-- What a request comes to: a success with what the page takes from it, an answer that is none, with its error, or none.
pub data Answer (A : Type 0) : Type 0 where
  succeeded : A → Answer A
  refused : Option Text → Answer A
  unreachable : Answer A

-- `data.error ?? "Something went wrong."`
abbrev pub complaint : Option Text → Text
complaint none = lit "Something went wrong."
complaint (some message) = message

-- What `approve` asks for: the case and the proposal. Nothing without a proposal.
unfoldable pub approve_request : ViewState → Option (Text × Text)
approve_request v = elim v.case_data.proposal [
  | none ↦ none
  | some proposal ↦ some (v.case_data.case_id, proposal.proposal_id)
]

abbrev begun : ViewState → Option ActionProposal → ViewState
begun v none = v
begun v (some proposal) = record v { error = none; is_executing = true }

-- `approve` until its request is sent.
unfoldable pub approve_start : ViewState → ViewState
approve_start v = begun v v.case_data.proposal

-- `Math.min(i + 1, EXECUTING_STEPS.length - 1)`, every 700 ms until the answer.
abbrev pub executing_steps : List Text
executing_steps =
    lit "Sending your request..."
    ∷ lit "Awaiting a response..."
    ∷ lit "Confirming the outcome..."
    ∷ []

unfoldable pub tick : ViewState → ViewState
tick v = record v {
  executing_step = if leb (suc v.executing_step) 2 then suc v.executing_step else 2;
}

-- The rest of `approve`, with its `finally`.
unfoldable pub approve_end : Answer CaseSummary → ViewState → ViewState
approve_end (succeeded c) v = record v { case_data = c; is_executing = false }
approve_end (refused e) v = record v { error = some (complaint e); is_executing = false }
approve_end unreachable v = record v {
  error = some (lit "Couldn't reach Clawback. Try again.");
  is_executing = false;
}

unfoldable pub reject_start : ViewState → ViewState
reject_start v = record v { error = none }

-- `reject` has no `catch`: what it throws changes nothing more.
unfoldable pub reject_end : Answer CaseSummary → ViewState → ViewState
reject_end (succeeded c) v = record v { case_data = c }
reject_end (refused e) v = record v { error = some (complaint e) }
reject_end unreachable v = v

unfoldable pub load_start : ViewState → ViewState
load_start v = record v { loading_report = true }

unfoldable pub load_end : Answer VerificationReport → ViewState → ViewState
load_end (succeeded r) v = record v { report = some r; loading_report = false }
load_end (refused e) v = record v { loading_report = false }
load_end unreachable v = record v { loading_report = false }

pub data Panel : Type 0 where
  environment_banner : Environment → Panel
  stepper : List (Text × StepStatus) → Panel
  executing_panel : ℕ → Panel
  approval_panel : Option Text → ActionProposal → Panel
  case_closed : Panel
  no_response_yet : Text → CaseState → Panel
  receipt_card : CaseSummary → Option VerificationReport → Bool → Panel
  working_on_it : CaseState → Panel

-- `===` on states.
abbrev pub is_state : CaseState → CaseState → Bool
is_state s t = state_index s == state_index t

abbrev pub is_receipt_view : CaseSummary → Bool
is_receipt_view c = is_state c.state verified_success && is_some c.receipt

abbrev response_text : Option OutcomeType → Text
response_text (some no_response) =
    lit "The counterparty didn't respond within this case's window. No fee was charged — "
    ++ lit "Clawback never charges against an unconfirmed outcome."
response_text _ = lit "The request didn't complete successfully."

abbrev outcome_of : Option OutcomeEvidence → Option OutcomeType
outcome_of none = none
outcome_of (some o) = some o.outcome_type

abbrev when : Bool → Panel → List Panel
when b p = if b then p ∷ [] else []

abbrev pub approval_panels : Bool → Option Text → Option ActionProposal → List Panel
approval_panels b error none = []
approval_panels b error (some proposal) = when b (approval_panel error proposal)

abbrev receipt_panels :
    Bool → CaseSummary → Option VerificationReport → Bool → Option ClawbackReceipt → List Panel
receipt_panels b c report loading none = []
receipt_panels b c report loading (some receipt) = when b (receipt_card c report loading)

-- `["AWAITING_APPROVAL", "REJECTED", "EXECUTION_FAILED", "OUTCOME_UNVERIFIED"].includes(caseData.state)`
abbrev pub has_panel : CaseState → Bool
has_panel s =
    is_state s awaiting_approval
    || is_state s rejected
    || is_state s execution_failed
    || is_state s outcome_unverified

-- The panels under the header, in the order of the page.
unfoldable pub body_panels : ViewState → List Panel
body_panels v =
    let c = v.case_data in
    let idle = not v.is_executing in
    when v.is_executing (executing_panel v.executing_step)
    ++ approval_panels (idle && is_state c.state awaiting_approval) v.error c.proposal
    ++ when (idle && is_state c.state rejected) case_closed
    ++ when (idle && (is_state c.state execution_failed || is_state c.state outcome_unverified))
        (no_response_yet (response_text (outcome_of c.outcome)) c.state)
    ++ receipt_panels (idle && is_receipt_view c) c v.report v.loading_report c.receipt
    ++ when (idle && not (is_receipt_view c) && not (has_panel c.state)) (working_on_it c.state)

-- The header: the environment, and the stepper, which shows EXECUTING while the approval is under way.
unfoldable pub header_panels : ViewState → List Panel
header_panels v =
    if is_receipt_view v.case_data
    then []
    else environment_banner v.case_data.environment
      ∷ stepper (lifecycle_stepper (some (if v.is_executing then executing else v.case_data.state)))
      ∷ []

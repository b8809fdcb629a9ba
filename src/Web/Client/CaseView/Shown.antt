-- ===== src/Web/Client/CaseView/Shown.antt =====
-- apps/web/src/app/cases/[caseId]/CaseView.tsx: what the view shows of a case.
use clawback.Prelude.{
  ℕ, zero, suc, ◌+◌, ◌≤◌, ◌≡◌, refl, ap, ◌∙◌, inl, inr, Text, Bool, true, false, not, ◌&&◌, ◌||◌,
  Option, none, some, [], ◌∷◌, ◌++◌, length, leb, if◌then◌else◌, arith, length-append, Bool-cases,
  Option-cases,
}
use clawback.Shared.Types.{
  CaseState, ActionProposal, ClawbackReceipt, rejected, execution_failed, outcome_unverified,
  awaiting_approval, verified_success, draft,
}
use clawback.Receipts.Verifier.{is_some, VerificationReport}
use clawback.Agent.CaseRecord.{CaseSummary}
use clawback.Web.Client.CaseView.{
  ViewState, Panel, approval_panel, body_panels, is_state, has_panel, approve_request, tick, Answer,
  refused, complaint, approve_start, approve_end, when, approval_panels, receipt_panels,
}

abbrev one_if : Bool → ℕ
one_if b = if b then 1 else 0

length-when : (b : Bool) (p : Panel) → length (when b p) ≡ one_if b
length-when true p = refl
length-when false p = refl

length-approval_panels :
    (b : Bool) (e : Option Text) (o : Option ActionProposal)
    → length (approval_panels b e o) ≡ one_if (b && is_some o)
length-approval_panels true e none = refl
length-approval_panels true e (some p) = refl
length-approval_panels false e none = refl
length-approval_panels false e (some p) = refl

length-receipt_panels :
    (b : Bool) (c : CaseSummary) (report : Option VerificationReport) (loading : Bool)
    (o : Option ClawbackReceipt)
    → length (receipt_panels b c report loading o) ≡ one_if (b && is_some o)
length-receipt_panels true c report loading none = refl
length-receipt_panels true c report loading (some r) = refl
length-receipt_panels false c report loading none = refl
length-receipt_panels false c report loading (some r) = refl

-- The panels of the body add up to one, by the state, and whether it is executing, has a proposal and has a receipt.
panels_add :
    (s : CaseState) (running proposed issued : Bool)
    → one_if running
        + one_if (not running && is_state s awaiting_approval && proposed)
        + one_if (not running && is_state s rejected)
        + one_if (not running && (is_state s execution_failed || is_state s outcome_unverified))
        + one_if (not running && (is_state s verified_success && issued) && issued)
        + one_if (not running && not (is_state s verified_success && issued) && not (has_panel s))
      ≡ (if not running && is_state s awaiting_approval && not proposed then 0 else 1)
panels_add draft true p i = refl
panels_add draft false p i = refl
panels_add awaiting_approval true p i = refl
panels_add awaiting_approval false true i = refl
panels_add awaiting_approval false false i = refl
panels_add verified_success true p i = refl
panels_add verified_success false p true = refl
panels_add verified_success false p false = refl
panels_add _ true p i = refl
panels_add _ false p i = refl

-- The body shows exactly one panel, but for a case that awaits approval of no proposal, for which it shows none.
pub length-body_panels :
    (v : ViewState)
    → length (body_panels v) ≡ (
        if not v.is_executing
          && is_state v.case_data.state awaiting_approval
          && not (is_some v.case_data.proposal)
        then 0
        else 1)
unfolding body_panels
length-body_panels v =
    simp (length-append, length-when, length-approval_panels, length-receipt_panels)
      (panels_add v.case_data.state v.is_executing (is_some v.case_data.proposal)
        (is_some v.case_data.receipt))

-- The 700 ms timer of an approval, after so many rings.
unfoldable pub ticks : ℕ → ViewState → ViewState
unfolding tick
ticks zero v = v
ticks (suc n) v = tick (ticks n v)

-- The view from the click on the approval to the answer.
unfoldable pub approve : ℕ → Answer CaseSummary → ViewState → ViewState
unfolding approve_start ticks approve_end
approve rings answer v = approve_end answer (ticks rings (approve_start v))

ticks-case_data :
    (n : ℕ) (v : ViewState)
    → ((ticks n v).case_data ≡ v.case_data) × ((ticks n v).report ≡ v.report)
unfolding ticks tick
ticks-case_data zero v = (refl, refl)
ticks-case_data (suc n) v = ticks-case_data n v

ticks-bounded : (n : ℕ) (v : ViewState) → v.executing_step ≤ 2 → (ticks n v).executing_step ≤ 2
unfolding ticks tick
ticks-bounded zero v h = h
ticks-bounded (suc n) v h = elim (Bool-cases (leb (suc (ticks n v).executing_step) 2)) [
  | inl more ↦ rw more (ground arith)
  | inr last ↦ rw last (omega arith)
]

approve_start-case_data : (v : ViewState) → (approve_start v).case_data ≡ v.case_data
unfolding approve_start
approve_start-case_data v = elim (Option-cases v.case_data.proposal) [
  | inl absent ↦ rw absent
  | inr (p, there) ↦ rw there
]

pub receipt_panels-false :
    (c : CaseSummary) (report : Option VerificationReport) (loading : Bool)
    (o : Option ClawbackReceipt)
    → receipt_panels false c report loading o ≡ []
receipt_panels-false c report loading none = refl
receipt_panels-false c report loading (some r) = refl

pub awaiting-shown :
    (v : ViewState) (p : ActionProposal)
    → v.is_executing ≡ false
    → v.case_data.state ≡ awaiting_approval
    → v.case_data.proposal ≡ some p
    → body_panels v ≡ approval_panel v.error p ∷ []
unfolding body_panels
awaiting-shown v p idle waiting proposed =
    simp (idle, waiting, proposed)
      (ap (λ ps. approval_panel v.error p ∷ (ps ++ []))
        (receipt_panels-false v.case_data v.report v.loading_report v.case_data.receipt))

-- A case that awaits approval shows the proposal that the button asks for. When the request is refused, the same proposal
-- is shown again, with the complaint of the server, and nothing else of the case has changed.
pub approve-shown :
    (v : ViewState) (p : ActionProposal) (rings : ℕ) (e : Option Text)
    → v.is_executing ≡ false
    → v.case_data.state ≡ awaiting_approval
    → v.case_data.proposal ≡ some p
    → (approve_request v ≡ some (v.case_data.case_id, p.proposal_id))
      × (body_panels v ≡ approval_panel v.error p ∷ [])
      × (body_panels (approve rings (refused e) v) ≡ approval_panel (some (complaint e)) p ∷ [])
      × ((approve rings (refused e) v).case_data ≡ v.case_data)
unfolding approve_request body_panels approve approve_start approve_end
approve-shown v p rings e idle waiting proposed =
    let kept = (ticks-case_data rings (approve_start v)).0 ∙ approve_start-case_data v in
    (
      rw proposed,
      awaiting-shown v p idle waiting proposed,
      awaiting-shown (approve rings (refused e) v) p refl (ap (λ c. c.state) kept ∙ waiting)
          (ap (λ c. c.proposal) kept ∙ proposed),
      kept,
    )

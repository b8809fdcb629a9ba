-- ===== src/Web/Client/CaseView/Issued.antt =====
-- apps/web/src/app/cases/[caseId]/CaseView.tsx: the view when an approval has led to a receipt.
use clawback.Prelude.{
  ℕ, zero, suc, ◌≡◌, refl, ◌∙◌, Text, false, Option, none, some, [], ◌∷◌, Option-cases, inl, inr,
}
use clawback.Shared.Types.{ActionProposal, ClawbackReceipt, verified_success}
use clawback.Receipts.Verifier.{VerificationReport}
use clawback.Agent.CaseRecord.{CaseSummary}
use clawback.Web.Client.CaseView.{
  ViewState, succeeded, receipt_card, body_panels, approval_panels, approve_start, approve_end,
  tick, load_start, load_end,
}
use clawback.Web.Client.CaseView.Shown.{approve, ticks}

ticks-loading :
    (n : ℕ) (v : ViewState)
    → ((ticks n v).loading_report ≡ v.loading_report) × ((ticks n v).report ≡ v.report)
unfolding ticks tick
ticks-loading zero v = (refl, refl)
ticks-loading (suc n) v = ticks-loading n v

approve_start-loading :
    (v : ViewState)
    → ((approve_start v).loading_report ≡ v.loading_report) × ((approve_start v).report ≡ v.report)
unfolding approve_start
approve_start-loading v = elim (Option-cases v.case_data.proposal) [
  | inl absent ↦ rw absent (refl, refl)
  | inr (p, there) ↦ rw there (refl, refl)
]

approval_panels-false :
    (e : Option Text) (o : Option ActionProposal) → approval_panels false e o ≡ []
approval_panels-false e none = refl
approval_panels-false e (some p) = refl

receipt-shown :
    (v : ViewState) (r : ClawbackReceipt)
    → v.is_executing ≡ false
    → v.case_data.state ≡ verified_success
    → v.case_data.receipt ≡ some r
    → body_panels v ≡ receipt_card v.case_data v.report v.loading_report ∷ []
unfolding body_panels
receipt-shown v r idle done issued = simp (idle, done, issued, approval_panels-false) refl

pub approved-shown :
    (rings : ℕ) (c : CaseSummary) (v : ViewState) (r : ClawbackReceipt)
    → c.state ≡ verified_success
    → c.receipt ≡ some r
    → body_panels (approve rings (succeeded c) v) ≡ receipt_card c v.report v.loading_report ∷ []
unfolding approve approve_end
approved-shown rings c v r done issued =
    let (loading, report) = ticks-loading rings (approve_start v) in
    let (loading0, report0) = approve_start-loading v in
    receipt-shown (approve rings (succeeded c) v) r refl done issued
    ∙ rw (loading, report, loading0, report0) refl

pub loaded-shown :
    (rings : ℕ) (c : CaseSummary) (v : ViewState) (r : ClawbackReceipt)
    (report : VerificationReport)
    → c.state ≡ verified_success
    → c.receipt ≡ some r
    → body_panels (load_end (succeeded report) (load_start (approve rings (succeeded c) v)))
      ≡ receipt_card c (some report) false ∷ []
unfolding approve approve_end load_start load_end
loaded-shown rings c v r report done issued =
    receipt-shown (load_end (succeeded report) (load_start (approve rings (succeeded c) v))) r refl
      done issued

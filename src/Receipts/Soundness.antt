-- ===== src/Receipts/Soundness.antt =====
-- What the verifier's verdict means, and that it accepts what the builder builds.
use clawback.Prelude.{
  ◌≡◌, refl, ◌≢◌, ◌↔◌, Text, Bool, true, false, not, ◌&&◌, [], ◌∷◌, arith, text_eq, text_eq_iff,
  text_eq_refl, is_empty,
}
use mathlib.Core.Bool.{and-true}
use clawback.Shared.Types.{ClawbackReceipt, ReceiptAnchor}
use clawback.Receipts.Builder.{BuildReceiptInput, build_receipt}
use clawback.Receipts.Verifier.{
  Artifacts, verify_receipt, recomputed_case, recomputed_action, recomputed_execution,
  recomputed_outcome, recomputed_receipt,
}

module _ (sha256 : Text → Text) where
  abbrev pub passed : ClawbackReceipt → Artifacts → Bool
  passed r a = (verify_receipt sha256 r a).all_cryptographic_checks_passed

  -- The six tests that can fail.
  abbrev pub verdict : ClawbackReceipt → Artifacts → Bool
  verdict r a =
      text_eq (recomputed_case sha256 r a) r.commitments.case_commitment
      && (not (is_empty a.approval.approved_at)
          && not (is_empty a.approval.action_commitment)
          && (text_eq (recomputed_action sha256 r a) r.commitments.action_commitment
              && (text_eq (recomputed_execution sha256 r a) r.commitments.execution_commitment
                  && (text_eq (recomputed_outcome sha256 r a) r.commitments.outcome_commitment
                      && text_eq (recomputed_receipt sha256 r a)
                          r.commitments.receipt_commitment))))

  passed-eq-verdict : (r : ClawbackReceipt) (a : Artifacts) → passed r a ≡ verdict r a
  unfolding verify_receipt
  passed-eq-verdict r a = ground arith

-- A receipt that fits its artifacts: every commitment is the recomputed one, and the approval
-- names a time and a commitment.
pub record Fits (sha256 : Text → Text) (r : ClawbackReceipt) (a : Artifacts) : Type 0 where
  pub case_fits : recomputed_case sha256 r a ≡ r.commitments.case_commitment
  pub approved_at : a.approval.approved_at ≢ []
  pub action_commitment : a.approval.action_commitment ≢ []
  pub action_fits : recomputed_action sha256 r a ≡ r.commitments.action_commitment
  pub execution_fits : recomputed_execution sha256 r a ≡ r.commitments.execution_commitment
  pub outcome_fits : recomputed_outcome sha256 r a ≡ r.commitments.outcome_commitment
  pub receipt_fits : recomputed_receipt sha256 r a ≡ r.commitments.receipt_commitment

not_empty_iff : (t : Text) → (not (is_empty t) ≡ true) ↔ (t ≢ [])
not_empty_iff [] = (λ h. cc, λ h. absurd (h refl))
not_empty_iff (c ∷ t) = (λ h. λ e. cc, λ h. refl)

and_intro : (b c : Bool) → b ≡ true → c ≡ true → (b && c) ≡ true
and_intro b c h k = rw (h, k)

and_split : (b c : Bool) → (b && c) ≡ true → (b ≡ true) × (c ≡ true)
and_split true c h = (refl, h)
and_split false c h = cc

module _ (sha256 : Text → Text) (r : ClawbackReceipt) (a : Artifacts) where
  verdict-Fits : verdict sha256 r a ≡ true → Fits sha256 r a
  verdict-Fits h =
      let (h1, k1) = and_split _ _ h in
      let (h2, k2) = and_split _ _ k1 in
      let (h3, h4) = and_split _ _ h2 in
      let (h5, k3) = and_split _ _ k2 in
      let (h6, k4) = and_split _ _ k3 in
      let (h7, h8) = and_split _ _ k4 in
      record {
        case_fits = (text_eq_iff _ _).0 h1;
        approved_at = (not_empty_iff _).0 h3;
        action_commitment = (not_empty_iff _).0 h4;
        action_fits = (text_eq_iff _ _).0 h5;
        execution_fits = (text_eq_iff _ _).0 h6;
        outcome_fits = (text_eq_iff _ _).0 h7;
        receipt_fits = (text_eq_iff _ _).0 h8;
      }

  verdict_of_Fits : Fits sha256 r a → verdict sha256 r a ≡ true
  verdict_of_Fits f = and_intro _ _ ((text_eq_iff _ _).1 f.case_fits) (
      and_intro _ _
        (and_intro _ _ ((not_empty_iff _).1 f.approved_at)
          ((not_empty_iff _).1 f.action_commitment))
        (and_intro _ _ ((text_eq_iff _ _).1 f.action_fits) (
          and_intro _ _ ((text_eq_iff _ _).1 f.execution_fits) (
            and_intro _ _ ((text_eq_iff _ _).1 f.outcome_fits)
              ((text_eq_iff _ _).1 f.receipt_fits)))))

  -- All cryptographic checks pass exactly when the receipt fits its artifacts: whatever the checks on attestation,
  -- savings, anchor and environment answer.
  pub verify_receipt_iff : (passed sha256 r a ≡ true) ↔ Fits sha256 r a
  verify_receipt_iff = (
    λ h. verdict-Fits (rw (passed-eq-verdict sha256 r a) at h),
    λ f. rw (passed-eq-verdict sha256 r a) (verdict_of_Fits f),
  )

-- The five artifacts that a receipt was built from.
abbrev pub artifacts_of : BuildReceiptInput → Artifacts
artifacts_of i = record {
  input = i.input;
  proposal = i.proposal;
  approval = i.approval;
  execution = i.execution;
  outcome = i.outcome;
}

-- A receipt that the builder built, also with anchors that were filled in afterwards, passes against
-- its own artifacts exactly when the approval names a time and a commitment. In particular the approval's commitment
-- need not be one of the proposal.
pub verify-build_receipt :
    (sha256 : Text → Text) (id now : Text) (i : BuildReceiptInput) (anchor : ReceiptAnchor)
    → passed sha256 (record (build_receipt sha256 id now i) { anchor = anchor }) (artifacts_of i)
      ≡ (not (is_empty i.approval.approved_at) && not (is_empty i.approval.action_commitment))
unfolding build_receipt recomputed_case recomputed_action recomputed_execution recomputed_outcome
    recomputed_receipt
verify-build_receipt sha256 id now i anchor =
    rw (passed-eq-verdict sha256 _ (artifacts_of i)) (simp (text_eq_refl, and-true))

-- The verdict reads nothing of a receipt but its id, case, category, status and commitments.
-- So a change of its environment, summaries, savings, execution, anchor or
-- approval is never detected.
pub verdict_reads :
    (sha256 : Text → Text) (r r' : ClawbackReceipt) (a : Artifacts)
    → r.receipt_id ≡ r'.receipt_id
    → r.case_id ≡ r'.case_id
    → r.category ≡ r'.category
    → r.status ≡ r'.status
    → r.commitments ≡ r'.commitments
    → passed sha256 r a ≡ passed sha256 r' a
unfolding recomputed_case recomputed_action recomputed_execution recomputed_outcome
    recomputed_receipt
verdict_reads sha256 r r' a id case_id category status commitments = rw (
  passed-eq-verdict sha256 r a,
  passed-eq-verdict sha256 r' a,
  id,
  case_id,
  category,
  status,
  commitments,
)

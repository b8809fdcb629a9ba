-- ===== src/Receipts/Verifier.antt =====
-- packages/receipts/src/verifier.ts: the checks of a receipt against its artifacts.
pub mod Recomputed
pub use clawback.Receipts.Verifier.Recomputed.{Artifacts}
unfoldable pub use clawback.Receipts.Verifier.Recomputed.{
  recomputed_case, recomputed_action, recomputed_execution, recomputed_outcome, recomputed_receipt,
}
use clawback.Prelude.{
  Text, Bool, true, false, not, ◌&&◌, ◌||◌, Option, none, some, List, [], ◌∷◌, ◌++◌, lit, is_empty,
  text_eq, if◌then◌else◌,
}
use clawback.Json.{bool, num, str, obj, end, field}
use clawback.Shared.Types.{
  SubscriptionCaseInput, ActionProposal, ApprovalRecord, ExecutionEvidence, OutcomeEvidence,
  ClawbackReceipt, Environment, sandbox, live,
}
use clawback.Shared.Errors.{Result, ok, err, integrity_violation}
use clawback.Shared.Commitment.{commit, chain, verify_commitment, or_null}
use clawback.Shared.Artifacts.{proposal_value}
use clawback.Receipts.Builder.{category_text, outcome_type_text, status_text}
use clawback.Shared.Artifacts.{num_or_null}

pub data CheckStrength : Type 0 where
  cryptographically_verifiable trusted_claim not_independently_verifiable : CheckStrength

pub record VerificationCheck : Type 0 where
  pub question : Text
  pub result : Option Bool
  pub strength : CheckStrength
  pub detail : Text

pub record VerificationReport : Type 0 where
  pub receipt_id : Text
  pub checks : List VerificationCheck
  pub all_cryptographic_checks_passed : Bool

abbrev pub is_some {ℓ} : {A : Type ℓ} → Option A → Bool
is_some none = false
is_some (some a) = true

-- `strength === "cryptographically_verifiable"`
abbrev pub is_cryptographic : CheckStrength → Bool
is_cryptographic cryptographically_verifiable = true
is_cryptographic _ = false

-- `result === true`
abbrev pub is_true : Option Bool → Bool
is_true (some true) = true
is_true _ = false

abbrev pub cryptographic : List VerificationCheck → List VerificationCheck
cryptographic [] = []
cryptographic (c ∷ cs) =
    if is_cryptographic c.strength then c ∷ cryptographic cs else cryptographic cs

abbrev pub every_true : List VerificationCheck → Bool
every_true [] = true
every_true (c ∷ cs) = is_true c.result && every_true cs

environment_text : Environment → Text
environment_text sandbox = lit "sandbox"
environment_text live = lit "live"

-- `receipt.environment === "sandbox" || receipt.environment === "live"`
abbrev environment_known : Environment → Bool
environment_known sandbox = true
environment_known live = true

module _ (sha256 : Text → Text) (receipt : ClawbackReceipt) (a : Artifacts) where
  unfoldable pub approval_matches : Bool
  approval_matches =
      verify_commitment sha256 (str a.proposal.exact_message) a.approval.action_commitment
      || text_eq (commit sha256 (proposal_value a.proposal)) a.approval.action_commitment

  unfoldable pub artifact_checks : List VerificationCheck
  artifact_checks =
      record {
        question = lit "Does the case artifact match the commitment recorded in this receipt?";
        result =
            some (text_eq (recomputed_case sha256 receipt a) receipt.commitments.case_commitment);
        strength = cryptographically_verifiable;
        detail =
            lit "Recomputes sha256(case) and compares it to receipt.commitments.caseCommitment.";
      }
      ∷ record {
        question = lit "Was the executed action explicitly approved by the user before it ran?";
        result =
            some (
              not (is_empty a.approval.approved_at) && not (is_empty a.approval.action_commitment));
        strength = cryptographically_verifiable;
        detail =
            if approval_matches
            then lit "An ApprovalRecord exists with a non-empty timestamp and action commitment."
            else lit
                "An ApprovalRecord exists, but its action commitment does not match the proposal on file — treat with suspicion.";
      }
      ∷ record {
        question = lit "Does the approved action match the commitment chained into this receipt?";
        result =
            some
              (text_eq (recomputed_action sha256 receipt a) receipt.commitments.action_commitment);
        strength = cryptographically_verifiable;
        detail =
            lit
              "Recomputes chain(caseCommitment, action) and compares it to receipt.commitments.actionCommitment.";
      }
      ∷ record {
        question =
            lit "Does the recorded execution match the commitment chained into this receipt?";
        result = some (
            text_eq (recomputed_execution sha256 receipt a)
              receipt.commitments.execution_commitment);
        strength = cryptographically_verifiable;
        detail =
            lit
              "Recomputes chain(actionCommitment, execution) and compares it to receipt.commitments.executionCommitment.";
      }
      ∷ []

  unfoldable pub tee_check : VerificationCheck
  tee_check = record {
    question = lit "Was the sensitive analysis executed inside a TEE-attested path?";
    result = some receipt.execution.tee_attested;
    strength =
        if receipt.execution.tee_attested
        then cryptographically_verifiable
        else not_independently_verifiable;
    detail =
        if receipt.execution.tee_attested
        then lit
            "broker.inference.processResponse() returned isValid === true for this execution (see packages/compute)."
        else lit
            "0G Compute was not configured for this run, or attestation failed. This execution's privacy claim reduces to a trusted claim about server-side handling — see THREAT-MODEL.md.";
  }

  unfoldable pub outcome_checks : List VerificationCheck
  outcome_checks =
      record {
        question = lit "Does the recorded outcome match the commitment chained into this receipt?";
        result =
            some (
              text_eq (recomputed_outcome sha256 receipt a) receipt.commitments.outcome_commitment);
        strength = cryptographically_verifiable;
        detail =
            lit
              "Recomputes chain(executionCommitment, outcome) and compares it to receipt.commitments.outcomeCommitment.";
      }
      ∷ record {
        question =
            lit
              "Does the receipt's final commitment match a fresh recomputation of its own receiptId and status?";
        result =
            some (
              text_eq (recomputed_receipt sha256 receipt a) receipt.commitments.receipt_commitment);
        strength = cryptographically_verifiable;
        detail =
            lit
              "Recomputes chain(outcomeCommitment, { receiptId, status }) and compares it to receipt.commitments.receiptCommitment — this is what catches a forged status field or a forged receiptCommitment that the case/action/execution/outcome checks alone would miss.";
      }
      ∷ []

  unfoldable pub savings_check : VerificationCheck
  savings_check = record {
    question = lit "Was the claimed savings amount independently verified, or only claimed?";
    result = some (is_some a.outcome.verified_savings_cents);
    strength =
        if is_some a.outcome.verified_savings_cents
        then trusted_claim
        else not_independently_verifiable;
    detail =
        if is_some a.outcome.verified_savings_cents
        then lit
            "A verification step (bank/card statement match, or explicit user confirmation) corroborated the amount — this remains a trusted claim from that external source, not a cryptographic proof."
        else lit
            "No independent corroboration exists yet; claimedSavingsCents is the counterparty's or sandbox's self-report only.";
  }

  unfoldable pub anchor_check : VerificationCheck
  anchor_check = record {
    question = lit "Was this receipt anchored on a public chain?";
    result = some (is_some receipt.anchor.chain_tx_hash);
    strength =
        if is_some receipt.anchor.chain_tx_hash
        then cryptographically_verifiable
        else not_independently_verifiable;
    detail = elim receipt.anchor.chain_tx_hash [
      | some hash ↦
          lit "Anchored at transaction " ++ hash ++ lit " — independently queryable on-chain."
      | none ↦
          lit
            "0G Chain anchoring was not configured for this run; this receipt exists only in Clawback's own store."
    ];
  }

  unfoldable pub environment_check : VerificationCheck
  unfolding environment_text
  environment_check = record {
    question = lit "Is the environment that produced this outcome disclosed accurately?";
    result = some (environment_known receipt.environment);
    strength = cryptographically_verifiable;
    detail =
        lit "This receipt is explicitly labeled environment=\""
        ++ environment_text receipt.environment
        ++ lit "\".";
  }

  unfoldable pub verify_receipt : VerificationReport
  unfolding artifact_checks tee_check outcome_checks savings_check anchor_check environment_check
  verify_receipt =
      let checks =
        artifact_checks
        ++ (tee_check ∷ outcome_checks
            ++ (savings_check ∷ anchor_check ∷ environment_check ∷ [])) in
      record {
        receipt_id = receipt.receipt_id;
        checks = checks;
        all_cryptographic_checks_passed = every_true (cryptographic checks);
      }

unfoldable pub assert_no_sandbox_leakage : ClawbackReceipt → Environment → Result (Unit {0})
assert_no_sandbox_leakage receipt live = ok tt
assert_no_sandbox_leakage receipt sandbox = elim receipt.environment [
  | sandbox ↦ ok tt
  | live ↦ err (integrity_violation receipt.receipt_id receipt.environment)
]

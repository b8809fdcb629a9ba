-- ===== src/Web/Client/ReceiptCard/Checks.antt =====
-- apps/web/src/app/cases/[caseId]/ReceiptCard.tsx: the checks of a report, and the trust boundary.
use clawback.Prelude.{
  ℕ, suc, Text, Bool, true, false, not, ◌&&◌, Option, none, some, List, [], ◌∷◌, lit, length,
  if◌then◌else◌,
}
use clawback.Shared.Types.{ClawbackReceipt}
use clawback.Receipts.Verifier.{
  VerificationCheck, VerificationReport, is_cryptographic, cryptographic, is_some,
}
use clawback.Web.Client.Display.{Badge, badge_for}
use clawback.Web.Client.Values.{ProofItem, truthy}

-- `checks.filter((c) => c.strength !== "cryptographically_verifiable")`
unfoldable pub not_cryptographic : List VerificationCheck → List VerificationCheck
not_cryptographic [] = []
not_cryptographic (c ∷ cs) =
    if is_cryptographic c.strength then not_cryptographic cs else c ∷ not_cryptographic cs

abbrev pub checks_of : Option VerificationReport → List VerificationCheck
checks_of none = []
checks_of (some report) = report.checks

unfoldable pub crypto_checks : Option VerificationReport → List VerificationCheck
crypto_checks report = cryptographic (checks_of report)

unfoldable pub other_checks : Option VerificationReport → List VerificationCheck
unfolding not_cryptographic
other_checks report = not_cryptographic (checks_of report)

-- A row of `VerificationCheckRow`: `index` delays its animation.
pub record CheckRow : Type 0 where
  pub index : ℕ
  pub question : Text
  pub badge : Badge
  pub detail : Text

unfoldable pub check_rows : ℕ → List VerificationCheck → List CheckRow
unfolding badge_for
check_rows i [] = []
check_rows i (check ∷ rest) =
    record { index = i; question = check.question; badge = badge_for check; detail = check.detail }
    ∷ check_rows (suc i) rest

-- "How was this verified?" when it is open: the message of a load, the rows of the report that are cryptographic, and, under a title of their own,
-- the others.
pub record Explanation : Type 0 where
  pub is_loading : Bool
  pub first : List CheckRow
  pub has_others : Bool
  pub second : List CheckRow

abbrev some_check : List VerificationCheck → Bool
some_check [] = false
some_check (c ∷ cs) = true

unfoldable pub explanation : Option VerificationReport → Bool → Explanation
unfolding check_rows crypto_checks other_checks
explanation report loading = record {
  is_loading = loading;
  first = check_rows 0 (crypto_checks report);
  has_others = some_check (other_checks report);
  second = check_rows (length (crypto_checks report)) (other_checks report);
}

-- `onToggle`: whether opening or closing the explanation asks for the report.
unfoldable pub loads_report : Bool → Option VerificationReport → Bool
loads_report is_open report = is_open && not (is_some report)

unfoldable pub proven_items : ClawbackReceipt → List ProofItem
proven_items receipt =
    record {
      proven = true;
      text = lit "The commitment chain is internally consistent and independently recomputable.";
    }
    ∷ record {
      proven = true;
      text = lit "Unauthorized access to another owner's case is rejected.";
    }
    ∷ record {
      proven = receipt.execution.tee_attested;
      text =
          if receipt.execution.tee_attested
          then lit "0G Compute attestation passed for this execution."
          else lit "0G Compute was unconfigured for this run — not attested, not claimed to be.";
    }
    ∷ record {
      proven = is_some (truthy receipt.anchor.chain_tx_hash);
      text =
          if is_some (truthy receipt.anchor.chain_tx_hash)
          then lit "This receipt's commitment is anchored on 0G Chain."
          else lit "This receipt was not anchored on-chain (0G Chain unconfigured for this run).";
    }
    ∷ []

abbrev pub not_proven_items : List ProofItem
not_proven_items =
    record { proven = false; text = lit "A real merchant was contacted." }
    ∷ record {
      proven = false;
      text = lit "A real refund occurred, or money moved through a bank/card network.";
    }
    ∷ record {
      proven = false;
      text = lit "No human intervention occurred outside the recorded pipeline.";
    }
    ∷ []

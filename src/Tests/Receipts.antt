-- ===== src/Tests/Receipts.antt =====
-- A receipt of the gym's case, and the verifier on it; an analysis without a provider.
use clawback.Prelude.{◌≡◌, refl, ◌↔◌, ◌⊎◌, true, not, ◌&&◌, none, some, lit, is_empty}
use clawback.Shared.Types.{ClawbackReceipt, ReceiptAnchor, live}
use clawback.Shared.Commitment.Binding.{Collision}
use clawback.Receipts.Builder.{build_receipt}
use clawback.Receipts.Soundness.{
  passed, Fits, verify_receipt_iff, artifacts_of, verify-build_receipt, verdict_reads,
}
use clawback.Receipts.Tampering.{SameEvidence, verify_receipt-binds}
use clawback.Shared.Errors.{Result, err, external}
use clawback.Compute.{ComputeConfig, AnalysisPrompt, ChatResult, analyze}
use clawback.Compute.Honest.{IsHonest, analyze-IsHonest}
use clawback.Tests.Data.{same_text, built, gym}

abbrev no_anchor : ReceiptAnchor
no_anchor = record { chain_tx_hash = none; storage_root_hash = none }

abbrev receipt : ClawbackReceipt
receipt = record (build_receipt same_text (lit "receipt_0") (lit "t3") built) { anchor = no_anchor }

abbrev anchored_receipt : ClawbackReceipt
anchored_receipt = record receipt {
  anchor = record { chain_tx_hash = some (lit "0x9"); storage_root_hash = none };
}

abbrev relabelled : ClawbackReceipt
relabelled = record receipt { environment = live }

verify-build_receipt_example :
    passed same_text receipt (artifacts_of built)
    ≡ (not (is_empty built.approval.approved_at) && not (is_empty built.approval.action_commitment))
verify-build_receipt_example =
    verify-build_receipt same_text (lit "receipt_0") (lit "t3") built no_anchor

verify_receipt_iff_example :
    (passed same_text receipt (artifacts_of built) ≡ true)
    ↔ Fits same_text receipt (artifacts_of built)
verify_receipt_iff_example = verify_receipt_iff same_text receipt (artifacts_of built)

verify_receipt-binds_example :
    SameEvidence receipt anchored_receipt (artifacts_of built) (artifacts_of built)
    ⊎ Collision same_text
unfolding lit
verify_receipt-binds_example =
    verify_receipt-binds same_text receipt anchored_receipt (artifacts_of built)
      (artifacts_of built)
      (verify-build_receipt same_text (lit "receipt_0") (lit "t3") built no_anchor)
      (verify-build_receipt same_text (lit "receipt_0") (lit "t3") built anchored_receipt.anchor)
      refl

verdict_reads_example :
    passed same_text receipt (artifacts_of built) ≡ passed same_text relabelled (artifacts_of built)
verdict_reads_example =
    verdict_reads same_text receipt relabelled (artifacts_of built) refl refl refl refl refl

abbrev broken_broker : ComputeConfig → AnalysisPrompt → Result ChatResult
broken_broker c prompt = err (external (lit "no provider"))

abbrev config : ComputeConfig
config = record {
  private_key = lit "0x1";
  rpc_url = lit "https://rpc";
  preferred_provider_address = none;
}

analyze-IsHonest_example :
    IsHonest same_text
      (some config)
      broken_broker
      gym
      (analyze same_text (some config) broken_broker (lit "t0") gym)
analyze-IsHonest_example = analyze-IsHonest same_text broken_broker (lit "t0") gym (some config)

-- ===== src/Web/Client/ReceiptCard/Refunds.antt =====
-- apps/web/src/app/cases/[caseId]/ReceiptCard.tsx with packages/providers/src/sandboxProvider.ts: what the card shows of the
-- sandbox's answer.
use clawback.Prelude.{ℕ, ◌≡◌, ◌⊎◌, Text, some, lit}
use clawback.Shared.Money.{extract_cents}
use clawback.Receipts.Builder.{BuildReceiptInput, summarize_outcome}
use clawback.Web.Client.ReceiptCard.{SavingsView}

-- The card shows the amount of a confirmation, or that of no savings with what happened as its headline; and no amount as
-- corroborated.
pub record ShowsAnswer (i : BuildReceiptInput) (card : SavingsView) : Type 0 where
  pub amount :
      ((confirmation : Text) × (cents : ℕ) × (i.outcome.counterparty_confirmation
          ≡ some confirmation)
        × (extract_cents confirmation ≡ some cents)
        × (extract_cents card.claimed ≡ some cents))
      ⊎ ((extract_cents card.claimed ≡ some 0) × (card.headline ≡ summarize_outcome i.outcome))
  pub uncorroborated : card.corroborated ≡ lit "Not available in sandbox"

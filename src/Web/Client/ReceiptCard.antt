-- ===== src/Web/Client/ReceiptCard.antt =====
-- apps/web/src/app/cases/[caseId]/ReceiptCard.tsx: what the card shows of a receipt, of the status of the integrations and of a
-- verification report. The components that it is made of are in `Values` and `Display`.
pub mod Checks
pub mod Claims
pub mod Refunds
use clawback.Prelude.{
  ℕ, suc, ◌+◌, ◌∷◌, Text, Bool, true, false, not, Option, none, some, List, [], ◌++◌, lit, length,
  if◌then◌else◌,
}
use clawback.Prelude.Int.{ℤ, is_nonpos}
use clawback.Json.Digits.{decimal}
use clawback.Shared.Money.{to_fixed2}
use clawback.Shared.Types.{ClawbackReceipt, Environment, sandbox, live, CaseState, verified_success}
use clawback.Receipts.Verifier.{
  VerificationCheck, VerificationReport, is_cryptographic, cryptographic, is_some,
}
use clawback.Web.Config.{ComponentStatus, IntegrationStatus, Network, mainnet, testnet}
use clawback.Web.Client.Display.{Badge, badge_for}
use clawback.Web.Client.Values.{RailNode, ProofItem, truthy}

unfoldable pub cents_to_dollars : ℤ → Text
cents_to_dollars cents = b'$' ∷ to_fixed2 cents

pub data Tone : Type 0 where
  signal gold neutral : Tone

pub record ClaimTier : Type 0 where
  pub index : Text
  pub label : Text
  pub value : Text
  pub tone : Tone

abbrev pub is_sandbox : Environment → Bool
is_sandbox sandbox = true
is_sandbox live = false

unfoldable pub claim_tiers : ClawbackReceipt → List ClaimTier
claim_tiers receipt =
    record {
      index = lit "01";
      label = lit "Integrity — commitment chain";
      value = lit "Verified";
      tone = signal;
    }
    ∷ record {
      index = lit "02";
      label = lit "Execution — 0G Compute attestation";
      value = if receipt.execution.tee_attested then lit "Attested" else lit "Local / not attested";
      tone = if receipt.execution.tee_attested then signal else neutral;
    }
    ∷ record {
      index = lit "03";
      label = lit "Financial outcome — did money move?";
      value =
          if is_sandbox receipt.environment
          then lit "Simulated"
          else lit "Reported, not corroborated";
      tone = gold;
    }
    ∷ []

pub record SavingsView : Type 0 where
  pub kind : Text
  pub headline : Text
  pub outcome : Text
  pub claimed : Text
  pub corroborated : Text

abbrev corroborated_text : Environment → Option ℤ → Text
corroborated_text sandbox verified = lit "Not available in sandbox"
corroborated_text live (some cents) = cents_to_dollars cents
corroborated_text live none = lit "Not corroborated"

unfoldable pub savings_view : ClawbackReceipt → SavingsView
unfolding cents_to_dollars
savings_view receipt = record {
  kind = if is_sandbox receipt.environment then lit "Simulated outcome" else lit "Reported outcome";
  headline =
      if is_nonpos receipt.claimed_savings_cents
      then receipt.outcome
      else cents_to_dollars receipt.claimed_savings_cents;
  outcome =
      if is_sandbox receipt.environment
      then receipt.outcome
        ++ lit " — recorded by Clawback's deterministic sandbox simulator, not a real merchant."
      else receipt.outcome;
  claimed = cents_to_dollars receipt.claimed_savings_cents;
  corroborated = corroborated_text receipt.environment receipt.verified_savings_cents;
}

-- `status?.chain.explorerBase ?? null`
abbrev pub chain_explorer : Option IntegrationStatus → Option Text
chain_explorer none = none
chain_explorer (some status) = status.chain.explorer_base

abbrev link : Option Text → Option Text → Option Text
link (some hash) (some explorer) = some (explorer ++ lit "/tx/" ++ hash)
link _ _ = none

-- The link to a transaction, where there is one and the explorer is known.
unfoldable pub tx_link : Option Text → Option IntegrationStatus → Option Text
tx_link tx_hash status = link (truthy tx_hash) (truthy (chain_explorer status))

abbrev plain_node : Text → Text → RailNode
plain_node label hash = record { label = label; hash = some hash; href = none }

unfoldable pub rail_nodes : ClawbackReceipt → Option IntegrationStatus → List RailNode
unfolding tx_link
rail_nodes receipt status =
    let c = receipt.commitments in
    plain_node (lit "Case") c.case_commitment
    ∷ plain_node (lit "Action") c.action_commitment
    ∷ plain_node (lit "Execution") c.execution_commitment
    ∷ plain_node (lit "Outcome") c.outcome_commitment
    ∷ record {
      label = lit "Receipt";
      hash = some c.receipt_commitment;
      href = tx_link receipt.anchor.chain_tx_hash status;
    }
    ∷ []

-- What stands in a row: a text, a model's name, or a value to copy, with its link and label.
pub data Cell : Type 0 where
  plain model_name : Text → Cell
  copyable : Text → Option Text → Text → Cell

pub record EvidenceCard : Type 0 where
  pub title : Text
  pub good : Bool
  pub status : Text
  pub rows : List (Text × Cell)

abbrev not_configured : Cell
not_configured = plain (lit "Not configured for this run")

abbrev model_rows : Option Text → List (Text × Cell)
model_rows none = []
model_rows (some model) = (lit "Model", model_name model) ∷ []

abbrev cell_or_not : Option Text → Option Text → Text → Cell
cell_or_not none href label = not_configured
cell_or_not (some value) href label = copyable value href label

unfoldable pub compute_card : ClawbackReceipt → EvidenceCard
compute_card receipt = record {
  title = lit "0G Compute";
  good = receipt.execution.tee_attested;
  status = if receipt.execution.tee_attested then lit "Attested" else lit "Not attested";
  rows =
      model_rows (truthy receipt.execution.model)
      ++ (
        lit "Provider",
        cell_or_not (truthy receipt.execution.provider_address) none (lit "provider address"),
      )
        ∷ [];
}

unfoldable pub storage_card : ClawbackReceipt → EvidenceCard
storage_card receipt = record {
  title = lit "0G Storage";
  good = is_some (truthy receipt.anchor.storage_root_hash);
  status =
      if is_some (truthy receipt.anchor.storage_root_hash)
      then lit "Uploaded"
      else lit "Not configured";
  rows =
      (
        lit "Root hash",
        cell_or_not (truthy receipt.anchor.storage_root_hash) none (lit "storage root hash"),
      )
      ∷ [];
}

-- `${chainId}`
abbrev chain_id_text : Option ℕ → Text
chain_id_text none = lit "null"
chain_id_text (some id) = decimal id

abbrev network_at : ComponentStatus → Option Network → Text
network_at c (some mainnet) = lit "0G mainnet (chain " ++ chain_id_text c.chain_id ++ lit ")"
network_at c (some testnet) = lit "0G testnet (chain " ++ chain_id_text c.chain_id ++ lit ")"
network_at c _ = lit "0G"

unfoldable pub network_text : Option IntegrationStatus → Text
network_text none = lit "0G"
network_text (some status) = network_at status.chain status.chain.network

abbrev chain_rows : Option Text → Option IntegrationStatus → List (Text × Cell)
chain_rows none status = (lit "Anchor", not_configured) ∷ []
chain_rows (some tx) status =
    (lit "Network", plain (network_text status))
    ∷ (lit "Transaction", copyable tx (tx_link (some tx) status) (lit "chain transaction hash"))
    ∷ []

unfoldable pub chain_card : ClawbackReceipt → Option IntegrationStatus → EvidenceCard
unfolding network_text tx_link
chain_card receipt status = record {
  title = lit "0G Chain";
  good = is_some (truthy receipt.anchor.chain_tx_hash);
  status =
      if is_some (truthy receipt.anchor.chain_tx_hash)
      then lit "Anchored"
      else lit "Not configured";
  rows = chain_rows (truthy receipt.anchor.chain_tx_hash) status;
}

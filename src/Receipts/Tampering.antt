-- ===== src/Receipts/Tampering.antt =====
-- What a receipt's final commitment binds: two receipts that both fit their artifacts and share it
-- agree on everything that the chain commits to, or show a collision of SHA-256.
use clawback.Prelude.{
  ◌≡◌, refl, ◌⊎◌, inl, inr, Text, true, Option, none, some, lit, text_lt, ◌∙◌, sym, arith,
}
use clawback.Prelude.Int.{ℤ}
use mathlib.Core.Option.{some-injective}
use clawback.Json.{Value}
use clawback.Shared.Types.{ClawbackReceipt, OutcomeType, ReceiptStatus}
use clawback.Shared.Artifacts.{num_or_null}
use clawback.Shared.Commitment.{chain, or_null, sort_keys}
use clawback.Shared.Commitment.Normal.{normalize}
use clawback.Shared.Commitment.Binding.{Collision, commit_binding, chain_binding}
use clawback.Receipts.Builder.{outcome_type_text, status_text}
use clawback.Receipts.Verifier.{
  Artifacts, recomputed_case, recomputed_action, recomputed_execution, recomputed_outcome,
  recomputed_receipt,
}
use clawback.Receipts.Soundness.{passed, verify_receipt_iff}

pub record SameOutcome (a b : Artifacts) : Type 0 where
  pub outcome_type : a.outcome.outcome_type ≡ b.outcome.outcome_type
  pub claimed : a.outcome.claimed_savings_cents ≡ b.outcome.claimed_savings_cents
  pub verified : a.outcome.verified_savings_cents ≡ b.outcome.verified_savings_cents

pub record SameExecution (a b : Artifacts) : Type 0 where
  pub execution_id : a.execution.execution_id ≡ b.execution.execution_id
  pub input_commitment : a.execution.input_commitment ≡ b.execution.input_commitment
  pub output_commitment : a.execution.output_commitment ≡ b.execution.output_commitment
  pub tee_attested : a.execution.tee_attested ≡ b.execution.tee_attested
  pub provider_address : a.execution.provider_address ≡ b.execution.provider_address

pub record SameAction (a b : Artifacts) : Type 0 where
  pub proposal_id : a.proposal.proposal_id ≡ b.proposal.proposal_id
  pub exact_message : a.proposal.exact_message ≡ b.proposal.exact_message
  pub action_commitment : a.approval.action_commitment ≡ b.approval.action_commitment
  pub approved_at : a.approval.approved_at ≡ b.approval.approved_at

pub record SameCase (r s : ClawbackReceipt) (a b : Artifacts) : Type 0 where
  pub case_id : r.case_id ≡ s.case_id
  pub merchant : a.input.merchant_name ≡ b.input.merchant_name
  pub last4 : a.input.account_identifier_last4 ≡ b.input.account_identifier_last4

-- The link of a chain: its artifact binds `Same`, and the rest of the chain binds what came before.
module _ (sha256 : Text → Text) {Same Rest : Type 0} where
  link :
      (p q : Text) (a b : Value)
      → (normalize a ≡ normalize b → Same)
      → (p ≡ q → Rest ⊎ Collision sha256)
      → chain sha256 (some p) a ≡ chain sha256 (some q) b
      → (Same × Rest) ⊎ Collision sha256
  link p q a b here before e = elim (chain_binding sha256 (some p) (some q) a b e) [
    | inr clash ↦ inr clash
    | inl (same_link, same) ↦ elim (before (some-injective p q same_link)) [
      | inl rest ↦ inl (here same, rest)
      | inr clash ↦ inr clash
    ]
  ]

outcome_type_text_inj : (s t : OutcomeType) → outcome_type_text s ≡ outcome_type_text t → s ≡ t
unfolding outcome_type_text
outcome_type_text_inj s t e = ground arith

status_text_inj : (s t : ReceiptStatus) → status_text s ≡ status_text t → s ≡ t
unfolding status_text
status_text_inj s t e = ground arith

num_or_null_inj : (x y : Option ℤ) → normalize (num_or_null x) ≡ normalize (num_or_null y) → x ≡ y
unfolding normalize
num_or_null_inj none none e = refl
num_or_null_inj none (some y) e = cc
num_or_null_inj (some x) none e = cc
num_or_null_inj (some x) (some y) e = cc

or_null_inj : (x y : Option Text) → normalize (or_null x) ≡ normalize (or_null y) → x ≡ y
unfolding normalize
or_null_inj none none e = refl
or_null_inj none (some y) e = cc
or_null_inj (some x) none e = cc
or_null_inj (some x) (some y) e = cc

module _ (sha256 : Text → Text) (r s : ClawbackReceipt) (a b : Artifacts) where
  case_bound :
      recomputed_case sha256 r a ≡ recomputed_case sha256 s b → SameCase r s a b ⊎ Collision sha256
  unfolding recomputed_case normalize sort_keys lit text_lt
  case_bound e = elim (commit_binding sha256 _ _ e) [
    | inl n ↦ inl (record { case_id = cc n; merchant = cc n; last4 = cc n })
    | inr clash ↦ inr clash
  ]

  action_bound :
      recomputed_action sha256 r a ≡ recomputed_action sha256 s b
      → (SameAction a b × SameCase r s a b) ⊎ Collision sha256
  unfolding recomputed_action normalize sort_keys lit text_lt
  action_bound e =
      link sha256 _ _ _ _
        (λ n. record {
          proposal_id = cc n;
          exact_message = cc n;
          action_commitment = cc n;
          approved_at = cc n;
        })
        case_bound e

  execution_bound :
      recomputed_execution sha256 r a ≡ recomputed_execution sha256 s b
      → (SameExecution a b × (SameAction a b × SameCase r s a b)) ⊎ Collision sha256
  unfolding recomputed_execution normalize sort_keys lit text_lt
  execution_bound e =
      link sha256 _ _ _ _
        (λ n. record {
          execution_id = cc n;
          input_commitment = cc n;
          output_commitment = cc n;
          tee_attested = cc n;
          provider_address =
              or_null_inj a.execution.provider_address b.execution.provider_address (cc n);
        })
        action_bound e

  outcome_bound :
      recomputed_outcome sha256 r a ≡ recomputed_outcome sha256 s b
      → (SameOutcome a b × (SameExecution a b × (SameAction a b × SameCase r s a b)))
        ⊎ Collision sha256
  unfolding recomputed_outcome normalize sort_keys lit text_lt
  outcome_bound e =
      link sha256 _ _ _ _
        (λ n. record {
          outcome_type = outcome_type_text_inj a.outcome.outcome_type b.outcome.outcome_type (cc n);
          claimed = cc n;
          verified =
              num_or_null_inj a.outcome.verified_savings_cents b.outcome.verified_savings_cents
                (cc n);
        })
        execution_bound e

  receipt_bound :
      recomputed_receipt sha256 r a ≡ recomputed_receipt sha256 s b
      → (((r.receipt_id ≡ s.receipt_id) × (r.status ≡ s.status))
          × (SameOutcome a b × (SameExecution a b × (SameAction a b × SameCase r s a b))))
        ⊎ Collision sha256
  unfolding recomputed_receipt normalize sort_keys lit text_lt
  receipt_bound e =
      link sha256 _ _ _ _ (λ n. (cc n, status_text_inj r.status s.status (cc n))) outcome_bound e

-- All that the final commitment of a receipt binds.
pub record SameEvidence (r s : ClawbackReceipt) (a b : Artifacts) : Type 0 where
  pub receipt_id : r.receipt_id ≡ s.receipt_id
  pub status : r.status ≡ s.status
  pub same_case : SameCase r s a b
  pub same_action : SameAction a b
  pub same_execution : SameExecution a b
  pub same_outcome : SameOutcome a b

-- Tampering is evident. If two receipts with the same final commitment, say the anchored one, both pass
-- verification, each against artifacts of its own, then they have one id, one status and one
-- case, and their artifacts agree in every committed field: merchant, account digits, proposal, message,
-- approval, execution and outcome. Otherwise two different texts with one SHA-256 digest are at hand.
pub verify_receipt-binds :
    (sha256 : Text → Text) (r s : ClawbackReceipt) (a b : Artifacts)
    → passed sha256 r a ≡ true
    → passed sha256 s b ≡ true
    → r.commitments.receipt_commitment ≡ s.commitments.receipt_commitment
    → SameEvidence r s a b ⊎ Collision sha256
verify_receipt-binds sha256 r s a b h k e =
    let f = (verify_receipt_iff sha256 r a).0 h in
    let g = (verify_receipt_iff sha256 s b).0 k in
    elim (receipt_bound sha256 r s a b (f.receipt_fits ∙ e ∙ sym g.receipt_fits)) [
      | inr clash ↦ inr clash
      | inl ((id, status), (o, (x, (p, c)))) ↦ inl (record {
        receipt_id = id;
        status = status;
        same_case = c;
        same_action = p;
        same_execution = x;
        same_outcome = o;
      })
    ]

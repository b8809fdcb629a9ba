-- ===== src/Tests/Data.antt =====
-- A case about a gym, its collaborators and its artifacts.
use clawback.Prelude.{refl, Text, true, none, some, [], ◌∷◌, lit, Dict}
use clawback.Prelude.Int.{pos}
use clawback.Shared.Types.{
  SubscriptionCaseInput, ActionProposal, ApprovalRecord, ExecutionEvidence, OutcomeEvidence,
  sandbox, email, refund_issued, trusted_claim, subscription_cancellation, awaiting_approval,
  executing,
}
use clawback.Shared.Errors.{ok}
use clawback.Privacy.Encryption.{Cipher}
use clawback.Receipts.Builder.{BuildReceiptInput}
use clawback.Agent.CaseRecord.{CaseRecord}
use clawback.Agent.World.{World, Deps}

-- In place of SHA-256: a text is its own digest.
abbrev pub same_text : Text → Text
same_text t = t

abbrev pub gym : SubscriptionCaseInput
gym = record {
  merchant_name = lit "Gym";
  account_identifier_last4 = lit "1234";
  subscription_details = lit "monthly at $29.99";
  desired_outcome = lit "Cancel and refund";
  contact_channel = email;
  contact_address = lit "desk@gym.example";
}

abbrev pub proposal : ActionProposal
proposal = record {
  proposal_id = lit "proposal_1";
  summary = lit "Requesting: Cancel and refund";
  exact_message = lit "Please cancel.";
  estimated_recovery_cents = some (pos 2999);
  created_at = lit "t0";
}

abbrev pub approval : ApprovalRecord
approval = record {
  case_id = lit "case_0";
  proposal_id = lit "proposal_1";
  action_commitment = lit "0xabc";
  approved_at = lit "t1";
  approved_by = lit "ann";
}

abbrev pub execution : ExecutionEvidence
execution = record {
  execution_id = lit "exec_1";
  case_id = lit "case_0";
  started_at = lit "t0";
  completed_at = some (lit "t1");
  succeeded = true;
  tee_attested = true;
  attestation_evidence = none;
  provider_address = none;
  input_commitment = lit "0x1";
  output_commitment = lit "0x2";
  error_message = none;
}

abbrev pub outcome : OutcomeEvidence
outcome = record {
  case_id = lit "case_0";
  outcome_type = refund_issued;
  counterparty_confirmation = some (lit "approved");
  claimed_savings_cents = pos 2999;
  verified_savings_cents = some (pos 2999);
  evidence_strength = trusted_claim;
  recorded_at = lit "t2";
}

abbrev pub built : BuildReceiptInput
built = record {
  case_id = lit "case_0";
  category = subscription_cancellation;
  input = gym;
  proposal = proposal;
  approval = approval;
  execution = execution;
  outcome = outcome;
  environment = sandbox;
  anchor = none;
}

-- In place of AES and UTF-8: the ciphertext is the plaintext.
abbrev pub plain : Cipher
plain = record {
  seal = λ key iv plaintext. (plaintext, iv);
  utf8 = λ t. t;
  from_utf8 = λ t. t;
  from_utf8-utf8 = λ t whole. refl;
  unseal = λ key iv ciphertext tag. some ciphertext;
  unseal_seal = λ key iv plaintext. refl;
}

abbrev pub key_hex : Text
key_hex = lit "000102030405060708090a0b0c0d0e0f101112131415161718191a1b1c1d1e1f"

abbrev pub deps : Deps
deps = record {
  sha256 = same_text;
  random_uuid = λ n. (48 ∷ []);
  clock = λ n. lit "now";
  random_iv = λ n. lit "iv";
  cipher = plain;
  encryption_key = key_hex;
  analyze = λ n input. record {
    message = lit "Please cancel.";
    tee_attested = true;
    attestation = none;
    provider_address = none;
    input_commitment = lit "0x1";
    output_commitment = lit "0x2";
    degraded_reason = none;
  };
  provider_source = sandbox;
  send_action = λ n request. ok (record {
    outcome_type = refund_issued;
    counterparty_confirmation = some (lit "approved");
    claimed_savings_cents = pos 2999;
    source = sandbox;
  });
  storage_client = none;
  anchor_client = none;
}

abbrev pub empty_world : World (Dict CaseRecord)
empty_world = record { cases = []; ledger = []; calls = 0; trace = [] }

-- A case of Ann's, awaiting her approval, and one whose execution has begun.
abbrev pub waiting : CaseRecord
waiting = record {
  case_id = lit "case_0";
  owner_id = lit "ann";
  category = subscription_cancellation;
  state = awaiting_approval;
  encrypted_input = record { iv = lit "iv"; auth_tag = lit "iv"; ciphertext = [] };
  proposal = some proposal;
  encrypted_proposal_message = none;
  approval = none;
  execution = some execution;
  outcome = none;
  receipt = none;
  settlement = none;
  environment = sandbox;
  degraded_reason = none;
  created_at = lit "t0";
  updated_at = lit "t0";
}

abbrev pub running : CaseRecord
running = record waiting { state = executing }

abbrev pub world_of : CaseRecord → World (Dict CaseRecord)
world_of r = record empty_world { cases = (r.case_id, r) ∷ [] }

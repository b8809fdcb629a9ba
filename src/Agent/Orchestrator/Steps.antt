-- ===== src/Agent/Orchestrator/Steps.antt =====
-- packages/agent/src/orchestrator.ts: the parts of `Orchestrator`'s methods, as actions. The values that they compute are in
-- `Values`.
use clawback.Prelude.{Text, true, Option, none, some, lit, if◌then◌else◌}
use clawback.Prelude.Int.{ℤ, is_nonpos}
use clawback.Json.{str}
use clawback.Shared.Types.{
  SubscriptionCaseInput, ActionProposal, ExecutionEvidence, OutcomeEvidence, ClawbackReceipt,
}
use clawback.Shared.Money.{extract_cents}
use clawback.Shared.Messages.{error_message}
use clawback.Shared.Errors.{CaseEvent, propose_action, fail_execution, outcome_confirmed, Error, ok}
use clawback.Shared.Commitment.{commit}
use clawback.Privacy.Encryption.{EncryptedPayload, encrypt_at_rest, decrypt_at_rest}
use clawback.Payments.Fee.{FeeCalculation, compute_fee, default_fee_bps}
use clawback.Payments.Ledger.{assess_fee}
use clawback.Receipts.Builder.{BuildReceiptInput, build_receipt}
use clawback.Receipts.Verifier.{assert_no_sandbox_leakage}
use clawback.Agent.CaseRecord.{CaseRecord, CaseSummary, to_summary}
use clawback.Agent.World.{
  Action, pure, throw, lift, call, attempt, emit, ◌>>=◌, ◌>>◌, Deps, now, new_id, AnalysisResult,
  ProviderActionRequest, sent, uploaded, anchored, fee_assessed,
}
use clawback.Agent.Store.{Backend, get, transition}
use clawback.Agent.Orchestrator.Values.{
  evidence_of, failed_execution, in_cents, is_failure, outcome_event, outcome_of, read_input,
  receipt_input, summarize, type_error, with_root, with_tx,
}

module _ {S : Type 0} (d : Deps) where
  unfoldable pub encrypt : Text → Action S EncryptedPayload
  encrypt plaintext =
      call (λ n. encrypt_at_rest d.cipher (d.random_iv n) plaintext (some d.encryption_key))

  unfoldable pub decrypt_input : EncryptedPayload → Action S SubscriptionCaseInput
  unfolding read_input
  decrypt_input payload = do
    json ← lift (decrypt_at_rest d.cipher payload (some d.encryption_key))
    lift (read_input json)

  -- The request leaves whether or not the provider answers.
  unfoldable pub send : Text → SubscriptionCaseInput → Text → Action S OutcomeEvidence
  send case_id input message =
      let request : ProviderActionRequest = record {
        case_id = case_id;
        input = input;
        exact_message = message;
      } in
      do
        emit (sent request)
        result ← call (λ n. d.send_action n request)
        time ← now d
        pure (outcome_of case_id time result)

  unfoldable pub issue_receipt : (Text → Text → ClawbackReceipt) → Action S ClawbackReceipt
  issue_receipt build = do
    receipt_id ← new_id d (lit "receipt")
    time ← now d
    lift (assert_no_sandbox_leakage (build receipt_id time) d.provider_source)
    pure (build receipt_id time)

  -- Storage and anchoring are attempts: the receipt stays as it is when they throw.
  unfoldable pub upload : ClawbackReceipt → Action S ClawbackReceipt
  upload receipt = elim d.storage_client [
    | none ↦ pure receipt
    | some upload_json ↦ do
      emit (uploaded receipt)
      artifact ← attempt (call (λ n. upload_json n receipt))
      pure (with_root receipt artifact)
  ]

  unfoldable pub anchor : Text → ClawbackReceipt → Action S ClawbackReceipt
  anchor case_id receipt = elim d.anchor_client [
    | none ↦ pure receipt
    | some anchor_receipt ↦
        let case_hash = commit d.sha256 (str case_id) in
        do
          emit (anchored case_hash receipt.commitments.receipt_commitment)
          answer ←
              attempt
                (call (λ n. anchor_receipt n case_hash receipt.commitments.receipt_commitment none))
          pure (with_tx receipt answer)
  ]

  assess : Text → FeeCalculation → Action S (Unit {0})
  assess case_id fee = do
    time ← now d
    emit (fee_assessed case_id fee)
    λ w. (ok tt, record w { ledger = (assess_fee time case_id fee w.ledger).0 })

  unfoldable pub charge : Text → Option ℤ → Action S (Unit {0})
  unfolding assess
  charge case_id none = pure tt
  charge case_id (some verified) =
      if is_nonpos verified
      then pure tt
      else do fee ← lift (compute_fee (some verified) default_fee_bps); assess case_id fee

module _ {S : Type 0} (backend : Backend S) (d : Deps) where
  -- A transition whose patch is `() => ({})`.
  unfoldable pub step : Text → CaseEvent → Action S CaseRecord
  step case_id event = transition backend d case_id event (λ r. pure r)

  abbrev pub execution_of : Text → Text → Text → AnalysisResult → Text → ExecutionEvidence
  execution_of execution_id case_id started analysis completed = record {
    execution_id = execution_id;
    case_id = case_id;
    started_at = started;
    completed_at = some completed;
    succeeded = true;
    tee_attested = analysis.tee_attested;
    attestation_evidence = analysis.attestation;
    provider_address = analysis.provider_address;
    input_commitment = analysis.input_commitment;
    output_commitment = analysis.output_commitment;
    error_message = none;
  }

  abbrev pub proposal_of : Text → Text → SubscriptionCaseInput → AnalysisResult → ActionProposal
  proposal_of proposal_id created input analysis = record {
    proposal_id = proposal_id;
    summary = summarize input;
    exact_message = analysis.message;
    estimated_recovery_cents =
        in_cents (extract_cents input.desired_outcome) (extract_cents input.subscription_details);
    created_at = created;
  }

  abbrev pub proposed :
      Text
      → ActionProposal
      → AnalysisResult
      → EncryptedPayload
      → Text
      → Text
      → CaseRecord
      → CaseRecord
  proposed started proposal analysis message execution_id completed r = record r {
    proposal = some proposal;
    encrypted_proposal_message = some message;
    execution = some (execution_of execution_id r.case_id started analysis completed);
    degraded_reason = analysis.degraded_reason;
  }

  -- The patch of the transition: the proposal with the evidence of its execution.
  unfoldable pub with_proposal :
      Text → ActionProposal → AnalysisResult → CaseRecord → Action S CaseRecord
  unfolding encrypt
  with_proposal started proposal analysis r = do
    message ← encrypt d analysis.message
    execution_id ← new_id d (lit "exec")
    completed ← now d
    pure (proposed started proposal analysis message execution_id completed r)

  unfoldable pub propose :
      Text → Text → SubscriptionCaseInput → AnalysisResult → Action S CaseRecord
  unfolding with_proposal
  propose case_id started input analysis = do
    proposal_id ← new_id d (lit "proposal")
    created ← now d
    transition backend d case_id propose_action
        (with_proposal started (proposal_of proposal_id created input analysis) analysis)

  unfoldable pub record_failure : Text → Error → Action S CaseSummary
  record_failure case_id e = do
    transition backend d case_id fail_execution
        (λ r. pure (record r { execution = failed_execution (error_message e) r.execution }))
    final ← get backend case_id
    pure (to_summary final)

  -- The receipt before the one transition into the terminal state.
  unfoldable pub finish : Text → BuildReceiptInput → Option ℤ → Action S CaseSummary
  unfolding issue_receipt upload anchor charge
  finish case_id built verified = do
    receipt ← issue_receipt d (λ id time. build_receipt d.sha256 id time built)
    stored ← upload d receipt
    finished ← anchor d case_id stored
    charge d case_id verified
    final ←
        transition backend d case_id outcome_confirmed
          (λ r. pure (record r { receipt = some finished }))
    pure (to_summary final)

  -- `after` is the record whose outcome was just saved.
  unfoldable pub complete :
      Text → SubscriptionCaseInput → Option ℤ → CaseRecord → Action S CaseSummary
  unfolding finish
  complete case_id input verified after = elim (evidence_of after) [
    | none ↦ throw type_error
    | some e ↦ finish case_id (receipt_input d.provider_source after input e) verified
  ]

  unfoldable pub conclude : Text → SubscriptionCaseInput → OutcomeEvidence → Action S CaseSummary
  unfolding complete
  conclude case_id input outcome = do
    after ←
        transition backend d case_id (outcome_event outcome.outcome_type)
          (λ r. pure (record r { outcome = some outcome }))
    if is_failure (outcome_event outcome.outcome_type)
        then pure (to_summary after)
        else complete case_id input outcome.verified_savings_cents after

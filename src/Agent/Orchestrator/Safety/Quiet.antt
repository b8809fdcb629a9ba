-- ===== src/Agent/Orchestrator/Safety/Quiet.antt =====
-- Every step of the orchestrator but `send` keeps what further quiet effects keep.
use clawback.Prelude.{
  Text, suc, Option, none, some, List, ◌∷◌, Bool, true, false, if◌then◌else◌, text_eq, Bool-cases,
  Option-cases, inl, inr,
}
use clawback.Prelude.Int.{ℤ, is_nonpos}
use clawback.Shared.Types.{ActionProposal, SubscriptionCaseInput, OutcomeEvidence, ClawbackReceipt}
use clawback.Shared.Errors.{
  CaseEvent, fail_execution, Error, Result, ok, err, propose_action, outcome_confirmed, submit,
  begin_analysis, request_approval, reject,
}
use clawback.Privacy.Encryption.{EncryptedPayload}
use clawback.Shared.Messages.{error_message}
use clawback.Json.{stringify}
use clawback.Shared.Artifacts.{input_value}
use clawback.Privacy.Encryption.{decrypt_at_rest}
use clawback.Payments.Fee.{compute_fee, default_fee_bps}
use clawback.Receipts.Verifier.{assert_no_sandbox_leakage}
use clawback.Receipts.Builder.{BuildReceiptInput, build_receipt}
use clawback.Agent.CaseRecord.{CaseRecord}
use clawback.Agent.World.{World, Action, Effect, continue, Deps, pure, new_id, AnalysisResult}
use clawback.Shared.StateMachine.{apply_transition}
use clawback.Agent.Store.Laws.{get-found, get-missing}
use clawback.Agent.Store.{Backend, get, get_for_owner, save, create, transition}
use clawback.Agent.Orchestrator.Values.{
  receipt_input, evidence_of, is_failure, outcome_event, failed_execution,
}
use clawback.Agent.Orchestrator.Steps.{
  encrypt, decrypt_input, step, propose, with_proposal, issue_receipt, upload, anchor, charge,
  finish, conclude, record_failure, complete,
}
use clawback.Agent.Orchestrator.{
  submit_case, reject_proposal, get_case, verify_case_receipt, verify_record, finalized,
}
use clawback.Agent.Orchestrator.Safety.{IsQuiet}

module _ (P : List Effect → Type 0)
    (grows : (e : Effect) (t : List Effect) → IsQuiet e → P t → P (e ∷ t)) where
  -- What a result leaves behind.
  pub record Leaves {S A : Type 0} (x : Result A × World S) : Type 0 where
    pub left : P x.1.trace

  abbrev pub Keeps : {S A : Type 0} → Action S A → Type 0
  Keeps {S} m = (w : World S) → P w.trace → Leaves (m w)

  abbrev leaves : {S A : Type 0} {r : Result A} {w : World S} → P w.trace → Leaves (r, w)
  leaves p = record { left = p }

  abbrev given : {S A : Type 0} (r : Result A) (w : World S) → P w.trace → Leaves (r, w)
  given r w p = record { left = p }

  pub after :
      {S A B : Type 0} (x : Result A × World S) (f : A → Action S B)
      → Leaves x
      → ((a : A) → Keeps (f a))
      → Leaves (continue x f)
  after (ok a, w) f l k = k a w l.left
  after (err e, w) f l k = record { left = l.left }

  branch-Keeps :
      {S A : Type 0} (b : Bool) (m k : Action S A) → Keeps m → Keeps k → Keeps (if b then m else k)
  branch-Keeps true m k h h' = h
  branch-Keeps false m k h h' = h'

  module _ {S : Type 0} (d : Deps) where
    encrypt-Keeps : (t : Text) → Keeps {S = S} (encrypt d t)
    unfolding encrypt
    encrypt-Keeps t w p = leaves p

    pub decrypt_input-Keeps : (payload : EncryptedPayload) → Keeps {S = S} (decrypt_input d payload)
    unfolding decrypt_input
    decrypt_input-Keeps payload w p =
        after _ _ (given (decrypt_at_rest d.cipher payload (some d.encryption_key)) w p)
          (λ json w' p'. leaves p')

    issue_receipt-Keeps :
        (build : Text → Text → ClawbackReceipt) → Keeps {S = S} (issue_receipt d build)
    unfolding issue_receipt new_id
    issue_receipt-Keeps build w p =
        after _ _
          (given (assert_no_sandbox_leakage (build _ _) d.provider_source)
            (record w { calls = suc (suc w.calls) }) p)
          (λ _ w' p'. leaves p')

    upload-Keeps : (r : ClawbackReceipt) → Keeps {S = S} (upload d r)
    unfolding upload
    upload-Keeps r w p = elim (Option-cases d.storage_client) [
      | inl e ↦ rw e (leaves p)
      | inr (f, e) ↦ rw e (leaves (grows _ _ tt p))
    ]

    anchor-Keeps : (id : Text) (r : ClawbackReceipt) → Keeps {S = S} (anchor d id r)
    unfolding anchor
    anchor-Keeps id r w p = elim (Option-cases d.anchor_client) [
      | inl e ↦ rw e (leaves p)
      | inr (f, e) ↦ rw e (leaves (grows _ _ tt p))
    ]

    charge-Keeps : (id : Text) (verified : Option ℤ) → Keeps {S = S} (charge d id verified)
    unfolding charge
    charge-Keeps id none w p = leaves p
    charge-Keeps id (some z) w p = elim (Bool-cases (is_nonpos z)) [
      | inl e ↦ rw e (leaves p)
      | inr e ↦ rw e (
          after _ _ (given (compute_fee (some z) default_fee_bps) w p)
            (λ fee w' p'. leaves (grows _ _ tt p')))
    ]

  module _ {S : Type 0} (backend : Backend S) where
    get-Keeps : (id : Text) → Keeps (get backend id)
    get-Keeps id w p = elim (Option-cases (backend.stored id w.cases)) [
      | inl e ↦ rw (get-missing backend id w e) (leaves p)
      | inr (r, e) ↦ rw (get-found backend id r w e) (leaves p)
    ]

    pub get_for_owner-Keeps : (id owner : Text) → Keeps (get_for_owner backend id owner)
    unfolding get_for_owner
    get_for_owner-Keeps id owner w p =
        after _ _ (get-Keeps id w p) (λ r.
          branch-Keeps (text_eq r.owner_id owner) _ _ (λ w' p'. leaves p') (λ w' p'. leaves p'))

    create-Keeps : (r : CaseRecord) → Keeps (create backend r)
    unfolding create save
    create-Keeps r w p = leaves (grows _ _ tt p)

    module _ (d : Deps) where
      pub transition-Keeps :
          (id : Text) (event : CaseEvent) (patch : CaseRecord → Action S CaseRecord)
          → ((r : CaseRecord) → Keeps (patch r))
          → Keeps (transition backend d id event patch)
      unfolding transition save
      transition-Keeps id event patch k w p = after _ _ (get-Keeps id w p) (λ r w1 p1.
          after _ _ (given (apply_transition r.state event) w1 p1)
            (λ next w2 p2. after _ _ (k r w2 p2) (λ patched w3 p3. leaves (grows _ _ tt p3))))

      pub step-Keeps : (id : Text) (event : CaseEvent) → Keeps (step backend d id event)
      unfolding step
      step-Keeps id event = transition-Keeps id event _ (λ r w p. leaves p)

      with_proposal-Keeps :
          (started : Text) (proposal : ActionProposal) (analysis : AnalysisResult) (r : CaseRecord)
          → Keeps (with_proposal backend d started proposal analysis r)
      unfolding with_proposal new_id
      with_proposal-Keeps started proposal analysis r w p =
          after _ _ (encrypt-Keeps d analysis.message w p) (λ _ w1 p1. leaves p1)

      propose-Keeps :
          (id started : Text) (input : SubscriptionCaseInput) (analysis : AnalysisResult)
          → Keeps (propose backend d id started input analysis)
      unfolding propose new_id
      propose-Keeps id started input analysis w p =
          transition-Keeps id propose_action _ (with_proposal-Keeps started _ analysis) _ p

      pub record_failure-Keeps : (id : Text) (e : Error) → Keeps (record_failure backend d id e)
      unfolding record_failure
      record_failure-Keeps id e w p =
          after _ _
            (transition-Keeps id fail_execution
              (λ r. pure (record r { execution = failed_execution (error_message e) r.execution }))
              (λ r w' p'. leaves p') w p)
            (λ _ w1 p1. after _ _ (get-Keeps id w1 p1) (λ _ w2 p2. leaves p2))

      finish-Keeps :
          (id : Text) (built : BuildReceiptInput) (verified : Option ℤ)
          → Keeps (finish backend d id built verified)
      unfolding finish
      finish-Keeps id built verified w p =
          after _ _
            (issue_receipt-Keeps d (λ receipt_id time. build_receipt d.sha256 receipt_id time built)
              w p)
            (λ receipt w1 p1. after _ _ (upload-Keeps d receipt w1 p1) (λ stored w2 p2.
              after _ _ (anchor-Keeps d id stored w2 p2) (λ finished w3 p3.
                after _ _ (charge-Keeps d id verified w3 p3) (λ _ w4 p4.
                  after _ _
                    (transition-Keeps id outcome_confirmed
                      (λ r. pure (record r { receipt = some finished })) (λ r w' p'. leaves p') w4
                      p4)
                    (λ _ w5 p5. leaves p5)))))

      complete-Keeps :
          (id : Text) (input : SubscriptionCaseInput) (verified : Option ℤ) (r : CaseRecord)
          → Keeps (complete backend d id input verified r)
      unfolding complete
      complete-Keeps id input verified r w p = elim (Option-cases (evidence_of r)) [
        | inl e ↦ rw (e, complete) (leaves p)
        | inr (found, e) ↦
            rw (e, complete)
              (finish-Keeps id (receipt_input d.provider_source r input found) verified w p)
      ]

      pub conclude-Keeps :
          (id : Text) (input : SubscriptionCaseInput) (o : OutcomeEvidence)
          → Keeps (conclude backend d id input o)
      unfolding conclude
      conclude-Keeps id input o w p =
          after _ _
            (transition-Keeps id (outcome_event o.outcome_type)
              (λ r. pure (record r { outcome = some o })) (λ r w' p'. leaves p') w p)
            (λ r.
              branch-Keeps (is_failure (outcome_event o.outcome_type)) _ _ (λ w' p'. leaves p')
                (complete-Keeps id input o.verified_savings_cents r))

      pub submit_case-Keeps :
          (owner : Text) (input : SubscriptionCaseInput) → Keeps (submit_case backend d owner input)
      unfolding submit_case new_id
      submit_case-Keeps owner input w p =
          after _ _ (encrypt-Keeps d (stringify (input_value input)) _ p) (λ payload w1 p1.
            after _ _ (create-Keeps _ w1 p1) (λ _ w2 p2.
              after _ _ (step-Keeps _ submit w2 p2) (λ _ w3 p3.
                after _ _ (step-Keeps _ begin_analysis w3 p3) (λ _ w4 p4.
                  after _ _ (propose-Keeps _ _ input _ _ p4) (λ _ w5 p5.
                    after _ _ (step-Keeps _ request_approval w5 p5)
                      (λ _ w6 p6. after _ _ (get-Keeps _ w6 p6) (λ _ w7 p7. leaves p7)))))))

      pub reject_proposal-Keeps : (id owner : Text) → Keeps (reject_proposal backend d id owner)
      unfolding reject_proposal
      reject_proposal-Keeps id owner w p =
          after _ _ (get_for_owner-Keeps id owner w p)
            (λ _ w1 p1. after _ _ (step-Keeps id reject w1 p1) (λ _ w2 p2. leaves p2))

      pub get_case-Keeps : (id owner : Text) → Keeps (get_case backend d id owner)
      unfolding get_case
      get_case-Keeps id owner w p =
          after _ _ (get_for_owner-Keeps id owner w p) (λ _ w1 p1. leaves p1)

      pub verify_case_receipt-Keeps :
          (id owner : Text) → Keeps (verify_case_receipt backend d id owner)
      unfolding verify_case_receipt verify_record
      verify_case_receipt-Keeps id owner w p =
          after _ _ (get_for_owner-Keeps id owner w p) (λ r w1 p1.
            elim (Option-cases (finalized r.receipt (evidence_of r))) [
              | inl e ↦ rw (e, verify_record) (leaves p1)
              | inr ((receipt, found), e) ↦
                  rw (e, verify_record)
                    (after _ _ (decrypt_input-Keeps d r.encrypted_input w1 p1)
                      (λ input w2 p2. leaves p2))
            ])

-- ===== src/Agent/Orchestrator/Refinement/Calls.antt =====
-- packages/agent/src/orchestrator.ts: a predicate of the stored cases that every legal change of one keeps is kept by
-- every method of the orchestrator, and by any sequence of calls.
use clawback.Prelude.{ℕ, ◌≡◌, refl, ◌++◌, Text, suc, some, Option-cases, inl, inr, lit}
use clawback.Shared.Types.{SubscriptionCaseInput, draft}
use clawback.Shared.Errors.{CaseEvent, Result, ok, submit, begin_analysis, request_approval, reject}
use clawback.Shared.StateMachine.{apply_transition}
use clawback.Json.{stringify}
use clawback.Shared.Artifacts.{input_value}
use clawback.Agent.CaseRecord.{CaseRecord}
use clawback.Agent.World.{World, Action, Deps, new_id}
use clawback.Agent.Store.{Backend, save, create}
use clawback.Agent.Orchestrator.Values.{evidence_of}
use clawback.Agent.Orchestrator.{
  submit_case, reject_proposal, get_case, verify_case_receipt, verify_record, finalized,
  approve_and_execute, matching_proposal,
}
use clawback.Agent.Orchestrator.Safety.Sends.{
  Request, submitting, rejecting, approving, reading, verifying, perform, Reaches, here, then_call,
}
use clawback.Agent.Orchestrator.Refinement.Still.{Patched, encrypt-Still, decrypt_input-Still}
use clawback.Agent.Orchestrator.Refinement.Stored.{Leaves, Keeps, after, get-Keeps, still-Leaves}
use clawback.Agent.Orchestrator.Refinement.Kept.{
  step-Kept, get_for_owner-Kept, propose-Kept, begin-Kept, execute-Kept,
}

module _ {S : Type 0} (backend : Backend S) (d : Deps) (P : S → Type 0)
    (saves : (s : S) (id : Text) (event : CaseEvent) (old new : CaseRecord)
      → P s
      → backend.stored id s ≡ some old
      → apply_transition old.state event ≡ ok new.state
      → new.case_id ≡ old.case_id
      → new.owner_id ≡ old.owner_id
      → Patched event new old
      → P (backend.save_record new s)) where
  abbrev Kept : {A : Type 0} → Action S A → Type 0
  Kept m = Keeps backend d P saves m

  abbrev left_by :
      {A : Type 0} {r : Result A} {w : World S} → P w.cases → Leaves backend d P saves (r, w)
  left_by p = record { left = p }

  approve_and_execute-Kept :
      (id owner proposal_id : Text) → Kept (approve_and_execute backend d id owner proposal_id)
  unfolding approve_and_execute
  approve_and_execute-Kept id owner proposal_id w p =
      after backend d P saves _ _ (get_for_owner-Kept backend d P saves id owner w p) (λ r w1 p1.
        elim (Option-cases (matching_proposal proposal_id r.proposal)) [
          | inl absent ↦ rw absent (left_by p1)
          | inr (proposal, found) ↦ rw found (
              after backend d P saves _ _ (begin-Kept backend d P saves id owner proposal w1 p1)
                (λ _. execute-Kept backend d P saves id r proposal))
        ])

  reject_proposal-Kept : (id owner : Text) → Kept (reject_proposal backend d id owner)
  unfolding reject_proposal
  reject_proposal-Kept id owner w p =
      after backend d P saves _ _ (get_for_owner-Kept backend d P saves id owner w p) (λ _ w1 p1.
        after backend d P saves _ _ (step-Kept backend d P saves id reject (λ _. refl) w1 p1)
          (λ _ w2 p2. left_by p2))

  get_case-Kept : (id owner : Text) → Kept (get_case backend d id owner)
  unfolding get_case
  get_case-Kept id owner w p =
      after backend d P saves _ _ (get_for_owner-Kept backend d P saves id owner w p)
        (λ _ w1 p1. left_by p1)

  verify_case_receipt-Kept : (id owner : Text) → Kept (verify_case_receipt backend d id owner)
  unfolding verify_case_receipt verify_record
  verify_case_receipt-Kept id owner w p =
      after backend d P saves _ _ (get_for_owner-Kept backend d P saves id owner w p) (λ r w1 p1.
        elim (Option-cases (finalized r.receipt (evidence_of r))) [
          | inl e ↦ rw (e, verify_record) (left_by p1)
          | inr ((receipt, found), e) ↦
              rw (e, verify_record)
                (after backend d P saves _ _
                  (still-Leaves backend d P saves w1 _ (decrypt_input-Still d r.encrypted_input w1)
                    p1)
                  (λ input w2 p2. left_by p2))
        ])

  create-Kept :
      (r : CaseRecord) (w : World S)
      → P (backend.save_record r w.cases)
      → Leaves backend d P saves (create backend r w)
  unfolding create save
  create-Kept r w p = left_by p

  -- A submission, if the creation of its case keeps the predicate.
  submit_case-Kept :
      (owner : Text) (input : SubscriptionCaseInput) (w : World S)
      → ((s : S) (r : CaseRecord)
          → P s
          → r.case_id ≡ lit "case" ++ lit "_" ++ d.random_uuid w.calls
          → r.state ≡ draft
          → P (backend.save_record r s))
      → P w.cases
      → Leaves backend d P saves (submit_case backend d owner input w)
  unfolding submit_case new_id
  submit_case-Kept owner input w creates p =
      let asked = record w { calls = suc (suc w.calls) } in
      after backend d P saves _ _
        (still-Leaves backend d P saves asked _
          (encrypt-Still d (stringify (input_value input)) asked) p)
        (λ payload w1 p1.
          after backend d P saves _ _ (create-Kept _ w1 (creates w1.cases _ p1 refl refl))
            (λ _ w2 p2.
              after backend d P saves _ _ (step-Kept backend d P saves _ submit (λ _. refl) w2 p2)
                (λ _ w3 p3.
                  after backend d P saves _ _
                    (step-Kept backend d P saves _ begin_analysis (λ _. refl) w3 p3)
                    (λ _ w4 p4.
                      after backend d P saves _ _
                        (propose-Kept backend d P saves _ _ input _
                          (record w4 { calls = suc w4.calls }) p4)
                        (λ _ w5 p5.
                          after backend d P saves _ _
                            (step-Kept backend d P saves _ request_approval (λ _. refl) w5 p5)
                            (λ _ w6 p6.
                              after backend d P saves _ _ (get-Keeps backend d P saves _ w6 p6)
                                (λ _ w7 p7. left_by p7)))))))

  -- Any sequence of calls.
  module _
      (creates : (s : S) (r : CaseRecord) (n : ℕ)
        → P s
        → r.case_id ≡ lit "case" ++ lit "_" ++ d.random_uuid n
        → r.state ≡ draft
        → P (backend.save_record r s)) where
    perform-Kept : (c : Request) (w : World S) → P w.cases → P (perform backend d c w).cases
    unfolding perform
    perform-Kept (submitting owner input) w p =
        (submit_case-Kept owner input w (λ s r q e i. creates s r w.calls q e i) p).left
    perform-Kept (rejecting k owner) w p = (reject_proposal-Kept k owner w p).left
    perform-Kept (approving k owner pid) w p = (approve_and_execute-Kept k owner pid w p).left
    perform-Kept (reading k owner) w p = (get_case-Kept k owner w p).left
    perform-Kept (verifying k owner) w p = (verify_case_receipt-Kept k owner w p).left

    pub Reaches-Kept : (start w : World S) → P start.cases → Reaches backend d start w → P w.cases
    Reaches-Kept start _ p here = p
    Reaches-Kept start _ p (then_call {w} before c) =
        perform-Kept c w (Reaches-Kept start w p before)

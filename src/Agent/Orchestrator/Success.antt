-- ===== src/Agent/Orchestrator/Success.antt =====
-- packages/agent/src/orchestrator.ts: the steps of `approveAndExecute` that cannot fail.
use clawback.Prelude.{
  ◌≡◌, refl, ap, subst, suc, Text, Option, none, some, lit, ◌++◌, Bool-cases, Option-cases, inl,
  inr,
}
use clawback.Prelude.Int.{ℤ, is_nonpos}
use clawback.Json.{str}
use clawback.Shared.Types.{ClawbackReceipt, ReceiptAnchor, CaseState, Environment, sandbox, live}
use clawback.Shared.Errors.{CaseEvent, Result, ok, err}
use clawback.Shared.StateMachine.{apply_transition}
use clawback.Shared.Commitment.{commit}
use clawback.Payments.Fee.{compute_fee}
use clawback.Receipts.Builder.{BuildReceiptInput, build_receipt}
use clawback.Receipts.Verifier.{assert_no_sandbox_leakage}
use clawback.Agent.CaseRecord.{CaseRecord}
use clawback.Agent.World.{World, pure, Deps, new_id, StoredArtifact, AnchorResult}
use clawback.Agent.Store.{Backend, transition, stamp}
use clawback.Agent.Store.Laws.{after_save, transition-legal}
use clawback.Agent.Orchestrator.Values.{with_root, with_tx}
use clawback.Agent.Orchestrator.Steps.{issue_receipt, upload, anchor, charge}

-- A receipt with another anchor.
abbrev Reanchored : ClawbackReceipt → ClawbackReceipt → Type 0
Reanchored r r' = (a : ReceiptAnchor) × (r' ≡ record r { anchor = a })

with_root-anchor : (r : ClawbackReceipt) (x : Result StoredArtifact) → Reanchored r (with_root r x)
with_root-anchor r (ok artifact) = (_, refl)
with_root-anchor r (err e) = (r.anchor, refl)

with_tx-anchor : (r : ClawbackReceipt) (x : Result AnchorResult) → Reanchored r (with_tx r x)
with_tx-anchor r (ok anchored_at) = (_, refl)
with_tx-anchor r (err e) = (r.anchor, refl)

leakage-none :
    (r : ClawbackReceipt) (e : Environment)
    → r.environment ≡ e
    → assert_no_sandbox_leakage r e ≡ ok tt
unfolding assert_no_sandbox_leakage
leakage-none r live same = refl
leakage-none r sandbox same = rw same

pub with_world : {S A : Type 0} (x : Result A × World S) (a : A) → x.0 ≡ ok a → x ≡ (ok a, x.1)
with_world x a e = ap (λ r. (r, x.1)) e

module _ {S : Type 0} (d : Deps) where
  pub upload-ok :
      (r : ClawbackReceipt) (w : World S)
      → (r' : ClawbackReceipt) × Reanchored r r' × ((upload d r w).0 ≡ ok r')
  unfolding upload
  upload-ok r w = elim (Option-cases d.storage_client) [
    | inl absent ↦ (r, (r.anchor, refl), rw absent)
    | inr (f, there) ↦ (with_root r (f w.calls r), with_root-anchor r (f w.calls r), rw there)
  ]

  pub anchor-ok :
      (id : Text) (r : ClawbackReceipt) (w : World S)
      → (r' : ClawbackReceipt) × Reanchored r r' × ((anchor d id r w).0 ≡ ok r')
  unfolding anchor
  anchor-ok id r w = elim (Option-cases d.anchor_client) [
    | inl absent ↦ (r, (r.anchor, refl), rw absent)
    | inr (f, there) ↦
        let answer = f w.calls (commit d.sha256 (str id)) r.commitments.receipt_commitment none in
        (with_tx r answer, with_tx-anchor r answer, rw there)
  ]

  pub charge-ok :
      (id : Text) (verified : Option ℤ) (w : World S) → (charge d id verified w).0 ≡ ok tt
  unfolding charge compute_fee
  charge-ok id none w = refl
  charge-ok id (some z) w = elim (Bool-cases (is_nonpos z)) [
    | inl no_gain ↦ rw no_gain
    | inr gain ↦ rw gain
  ]

  pub issue_receipt-ok :
      (i : BuildReceiptInput) (w : World S)
      → i.environment ≡ d.provider_source
      → (id : Text) × (now : Text) × ((issue_receipt d
            (λ id time. build_receipt d.sha256 id time i)
            w).0
          ≡ ok (build_receipt d.sha256 id now i))
  unfolding issue_receipt new_id build_receipt
  issue_receipt-ok i w same =
      let id = lit "receipt" ++ lit "_" ++ d.random_uuid w.calls in
      let now = d.clock (suc w.calls) in
      (id, now, rw (leakage-none (build_receipt d.sha256 id now i) d.provider_source same))

module _ {S : Type 0} (backend : Backend S) (d : Deps) (id : Text) where
  -- A transition whose patch only computes, and that is legal.
  pub pure-legal :
      (event : CaseEvent) (f : CaseRecord → CaseRecord) (next : CaseState) (r : CaseRecord)
      (w : World S)
      → backend.stored id w.cases ≡ some r
      → apply_transition r.state event ≡ ok next
      → (f r).case_id ≡ id
      → (w' : World S) × (transition backend d id event (λ x. pure (f x)) w
          ≡ (ok (stamp next (d.clock w.calls) (f r)), w'))
        × (backend.stored id w'.cases ≡ some (stamp next (d.clock w.calls) (f r)))
  pure-legal event f next r w found legal own =
      let r' = stamp next (d.clock w.calls) (f r) in
      (
        after_save backend r' w,
        transition-legal backend d id event w r found next legal (λ x. pure (f x)) (f r) w refl,
        subst (λ k. backend.stored k (backend.save_record r' w.cases) ≡ some r') own
            (backend.stored-save_self r' w.cases),
      )

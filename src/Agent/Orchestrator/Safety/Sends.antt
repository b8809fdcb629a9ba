-- ===== src/Agent/Orchestrator/Safety/Sends.antt =====
-- packages/agent/src/orchestrator.ts: `approveAndExecute` sends only what was approved, and all
-- that the orchestrator can ever do keeps that.
use clawback.Prelude.{◌≡◌, refl, inl, inr, Text, some, List, ◌∷◌, suc, Option-cases, subst}
use clawback.Shared.Types.{
  SubscriptionCaseInput, ActionProposal, CaseState, draft, submitted, analyzing, action_proposed,
  awaiting_approval, approved, executing, outcome_pending, verified_success, execution_failed,
  outcome_unverified, rejected, expired, ApprovalRecord,
}
use clawback.Shared.Errors.{Result, ok, err, approve, begin_execution, Result-cases}
use clawback.Shared.StateMachine.{apply_transition, transitions, entry}
use clawback.Shared.Artifacts.{proposal_value}
use clawback.Shared.Commitment.{commit}
use clawback.Agent.CaseRecord.{CaseRecord}
use clawback.Agent.World.{
  World, Action, Effect, continue, attempt, Deps, pure, sent, saved, uploaded, anchored,
  fee_assessed, ProviderActionRequest, ◌>>◌,
}
use clawback.Agent.Store.{Backend, stamp}
use clawback.Agent.Store.Laws.{get_for_owner-cases, transition-illegal, transition-legal}
use clawback.Agent.Orchestrator.{
  begin, execute, approve_and_execute, matching_proposal, submit_case, reject_proposal, get_case,
  verify_case_receipt,
}
use clawback.Agent.Orchestrator.Rejections.{approve-matching, approve-no_match, matching_has}
use clawback.Agent.Orchestrator.Steps.{send, conclude, record_failure}
use clawback.Agent.Orchestrator.Safety.{Authorized, ApprovedIn, IsQuiet}
use clawback.Agent.Orchestrator.Safety.Quiet.{
  Leaves, decrypt_input-Keeps, step-Keeps, conclude-Keeps, record_failure-Keeps, submit_case-Keeps,
  reject_proposal-Keeps, get_case-Keeps, verify_case_receipt-Keeps,
}

approve-approved : (s next : CaseState) → apply_transition s approve ≡ ok next → next ≡ approved
unfolding apply_transition transitions entry
approve-approved draft next e = cc e
approve-approved submitted next e = cc e
approve-approved analyzing next e = cc e
approve-approved action_proposed next e = cc e
approve-approved awaiting_approval next e = cc e
approve-approved approved next e = cc e
approve-approved executing next e = cc e
approve-approved outcome_pending next e = cc e
approve-approved verified_success next e = cc e
approve-approved execution_failed next e = cc e
approve-approved outcome_unverified next e = cc e
approve-approved rejected next e = cc e
approve-approved expired next e = cc e

pub data Request : Type 0 where
  submitting : Text → SubscriptionCaseInput → Request
  rejecting : Text → Text → Request
  approving : Text → Text → Text → Request
  reading verifying : Text → Text → Request

module _ {S : Type 0} (backend : Backend S) (d : Deps) where
  abbrev pub Safe : List Effect → Type 0
  Safe = Authorized d.sha256

  pub Safe-grows : (e : Effect) (t : List Effect) → IsQuiet e → Safe t → Safe (e ∷ t)
  Safe-grows (sent request) t q p = absurd q
  Safe-grows (saved r) t q p = (tt, p)
  Safe-grows (uploaded r) t q p = (tt, p)
  Safe-grows (anchored h c) t q p = (tt, p)
  Safe-grows (fee_assessed id f) t q p = (tt, p)

  module _ (id : Text) (p : ActionProposal) where
    abbrev Approved : List Effect → Type 0
    Approved t =
        (input : SubscriptionCaseInput)
        → ApprovedIn d.sha256
            (record { case_id = id; input = input; exact_message = p.exact_message }) t

    abbrev Ready : List Effect → Type 0
    Ready t = Safe t × Approved t

    Ready-grows : (e : Effect) (t : List Effect) → IsQuiet e → Ready t → Ready (e ∷ t)
    Ready-grows e t q (safe, a) = (Safe-grows e t q safe, λ input. inr (a input))

    bind :
        {A B : Type 0} (x : Result A × World S) (f : A → Action S B)
        → Leaves Ready Ready-grows x
        → ((a : A) (w : World S) → Ready w.trace → Leaves Safe Safe-grows (f a w))
        → Leaves Safe Safe-grows (continue x f)
    bind (ok a, w) f l k = k a w l.left
    bind (err e, w) f l k = record { left = l.left.0 }

    sent-Safe :
        (input : SubscriptionCaseInput) (w1 : World S)
        → Ready w1.trace
        → Leaves Safe Safe-grows (
            continue (attempt (send d id input p.exact_message) w1) (λ answer. elim answer [
              | ok outcome ↦ conclude backend d id input outcome
              | err e ↦ record_failure backend d id e
            ]))
    unfolding send
    sent-Safe input w1 (safe, a) =
        let request : ProviderActionRequest = record {
          case_id = id;
          input = input;
          exact_message = p.exact_message;
        } in
        elim (Result-cases (d.send_action w1.calls request)) [
          | inl (result, e) ↦
              rw e (conclude-Keeps Safe Safe-grows backend d id input _ _ (a input, safe))
          | inr (error, e) ↦
              rw e (record_failure-Keeps Safe Safe-grows backend d id error _ (a input, safe))
        ]

    execute-Safe :
        (r : CaseRecord) (w : World S)
        → Ready w.trace
        → Leaves Safe Safe-grows (execute backend d id r p w)
    unfolding execute
    execute-Safe r w ready =
        bind _ _ (decrypt_input-Keeps Ready Ready-grows d r.encrypted_input w ready)
          (λ input w1 ready1. sent-Safe input w1 ready1)

  abbrev approval_of : Text → Text → ActionProposal → Text → ApprovalRecord
  approval_of id owner p time = record {
    case_id = id;
    proposal_id = p.proposal_id;
    action_commitment = commit d.sha256 (proposal_value p);
    approved_at = time;
    approved_by = owner;
  }

  module _ (id : Text) (r : CaseRecord) (w : World S)
      (found : backend.stored id w.cases ≡ some r) where
    approve-Safe :
        (p : ActionProposal)
        → r.proposal ≡ some p
        → Safe w.trace
        → Leaves Safe Safe-grows ((begin backend d id r.owner_id p >> execute backend d id r p) w)
    unfolding begin
    approve-Safe p has safe = elim (Result-cases (apply_transition r.state approve)) [
      | inr (e, illegal) ↦
          rw
            (transition-illegal backend d id approve (record w { calls = suc w.calls }) r found _ _
              illegal)
            (record { left = safe })
      | inl (next, legal) ↦
          let later = record w { calls = suc w.calls } in
          let approved_record = record r {
            approval = some (approval_of id r.owner_id p (d.clock w.calls));
          } in
          let recorded =
            transition-legal backend d id approve later r found next legal
              (λ c.
                pure (record c { approval = some (approval_of id r.owner_id p (d.clock w.calls)) }))
              approved_record later refl in
          let approval_saved : Ready id p
              (saved (stamp next (d.clock later.calls) approved_record) ∷ w.trace) =
            (
              (tt, safe),
              λ input. inl (record {
                proposal = p;
                approval = approval_of id r.owner_id p (d.clock w.calls);
                of_proposal = has;
                of_approval = refl;
                is_approved = approve-approved r.state next legal;
                same_case = refl;
                same_proposal = refl;
                committed = refl;
                same_message = refl;
              }),
            ) in
          rw recorded (
            bind id p _ _
              (step-Keeps (Ready id p) (Ready-grows id p) backend d id begin_execution _
                approval_saved)
              (λ _ w' ready. execute-Safe id p r w' ready))
    ]

    approve_matching-Safe :
        (pid : Text)
        → Safe w.trace
        → Leaves Safe Safe-grows (approve_and_execute backend d id r.owner_id pid w)
    approve_matching-Safe pid safe = elim (Option-cases (matching_proposal pid r.proposal)) [
      | inl none_matches ↦
          rw (approve-no_match backend d id w r found pid none_matches) (record { left = safe })
      | inr (p, matches) ↦
          rw (approve-matching backend d id w r found pid p matches)
            (approve-Safe p (matching_has pid r.proposal p matches) safe)
    ]

  pub approve_and_execute-Safe :
      (id owner pid : Text) (w : World S)
      → Safe w.trace
      → Leaves Safe Safe-grows (approve_and_execute backend d id owner pid w)
  unfolding approve_and_execute
  approve_and_execute-Safe id owner pid w safe = elim (get_for_owner-cases backend id owner w) [
    | inl (r, found, same, read) ↦
        subst (λ o. Leaves Safe Safe-grows (approve_and_execute backend d id o pid w)) same
          (approve_matching-Safe id r w found pid safe)
    | inr (inl (r, found, other, refused)) ↦ rw refused (record { left = safe })
    | inr (inr (missing, refused)) ↦ rw refused (record { left = safe })
  ]

  -- A call of the orchestrator, and the world that it leaves, whether it answers or throws.
  unfoldable pub perform : Request → World S → World S
  perform (submitting owner input) w = (submit_case backend d owner input w).1
  perform (rejecting id owner) w = (reject_proposal backend d id owner w).1
  perform (approving id owner pid) w = (approve_and_execute backend d id owner pid w).1
  perform (reading id owner) w = (get_case backend d id owner w).1
  perform (verifying id owner) w = (verify_case_receipt backend d id owner w).1

  -- What any sequence of calls reaches.
  pub data Reaches (start : World S) : World S → Type 0 where
    here : Reaches start start
    then_call : {w : World S} → Reaches start w → (c : Request) → Reaches start (perform c w)

  perform-Safe : (c : Request) (w : World S) → Safe w.trace → Safe (perform c w).trace
  unfolding perform
  perform-Safe (submitting owner input) w safe =
      (submit_case-Keeps Safe Safe-grows backend d owner input w safe).left
  perform-Safe (rejecting id owner) w safe =
      (reject_proposal-Keeps Safe Safe-grows backend d id owner w safe).left
  perform-Safe (approving id owner pid) w safe = (approve_and_execute-Safe id owner pid w safe).left
  perform-Safe (reading id owner) w safe =
      (get_case-Keeps Safe Safe-grows backend d id owner w safe).left
  perform-Safe (verifying id owner) w safe =
      (verify_case_receipt-Keeps Safe Safe-grows backend d id owner w safe).left

  -- From a world in which every request was sent after an approval of it was saved, any sequence of calls, whoever
  -- makes them, of any store and with any answers of the collaborators, throwing ones included, reaches
  -- only such worlds: no message is sent to a merchant before a record was saved, in the approved
  -- state, whose approval names the case and the proposal with exactly this message.
  pub Reaches-Authorized :
      (start w : World S)
      → Authorized d.sha256 start.trace
      → Reaches start w
      → Authorized d.sha256 w.trace
  Reaches-Authorized start _ safe here = safe
  Reaches-Authorized start _ safe (then_call {w} before c) =
      perform-Safe c w (Reaches-Authorized start w safe before)

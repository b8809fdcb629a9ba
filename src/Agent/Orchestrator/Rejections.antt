-- ===== src/Agent/Orchestrator/Rejections.antt =====
-- packages/agent/src/orchestrator.ts: the calls that are refused leave everything as it was.
use clawback.Prelude.{
  ◌≡◌, refl, ◌≢◌, Text, Option, none, some, suc, text_eq_refl, text_eq_ne, arith,
}
use clawback.Shared.Types.{
  ActionProposal, CaseState, draft, submitted, analyzing, action_proposed, awaiting_approval,
  approved, executing, outcome_pending, verified_success, execution_failed, outcome_unverified,
  rejected, expired,
}
use clawback.Shared.Errors.{
  Error, ok, err, approve, reject, illegal_transition, unauthorized_case_access, case_not_found,
  proposal_mismatch,
}
use clawback.Shared.StateMachine.{apply_transition}
use clawback.Agent.CaseRecord.{CaseRecord}
use clawback.Agent.World.{World, Deps, continue, ◌>>◌}
use clawback.Agent.Store.{Backend, get_for_owner}
use clawback.Agent.Store.Laws.{get-found, get-missing, transition-illegal}
use clawback.Agent.Orchestrator.Steps.{step}
use clawback.Agent.Orchestrator.{
  approve_and_execute, reject_proposal, get_case, verify_case_receipt, matching_proposal, begin,
  execute,
}

matching_none :
    (pid : Text) (o : Option ActionProposal)
    → ((p : ActionProposal) → o ≡ some p → p.proposal_id ≢ pid)
    → matching_proposal pid o ≡ none
matching_none pid none other = refl
matching_none pid (some p) other = rw (text_eq_ne p.proposal_id pid (other p refl))

pub matching_has :
    (pid : Text) (o : Option ActionProposal) (p : ActionProposal)
    → matching_proposal pid o ≡ some p
    → o ≡ some p
matching_has pid none p e = cc e
matching_has pid (some q) p e = ground arith

pub matching_same : (p : ActionProposal) → matching_proposal p.proposal_id (some p) ≡ some p
matching_same p = rw (text_eq_refl p.proposal_id)

module _ {S : Type 0} (backend : Backend S) (d : Deps) where
  module _ (id owner : Text) (w : World S) where
    -- What the four methods that take an owner answer.
    pub record AllFail (e : Error) : Type 0 where
      pub approving : (pid : Text) → approve_and_execute backend d id owner pid w ≡ (err e, w)
      pub rejecting : reject_proposal backend d id owner w ≡ (err e, w)
      pub reading : get_case backend d id owner w ≡ (err e, w)
      pub verifying : verify_case_receipt backend d id owner w ≡ (err e, w)

    owner-AllFail : (e : Error) → get_for_owner backend id owner w ≡ (err e, w) → AllFail e
    unfolding approve_and_execute reject_proposal get_case verify_case_receipt
    owner-AllFail e h = record {
      approving = λ pid. rw h;
      rejecting = rw h;
      reading = rw h;
      verifying = rw h;
    }

    -- Who is not the owner of a case can do nothing with it: the four methods throw and change nothing.
    pub stranger-AllFail :
        (r : CaseRecord)
        → backend.stored id w.cases ≡ some r
        → r.owner_id ≢ owner
        → AllFail (unauthorized_case_access id)
    unfolding get_for_owner
    stranger-AllFail r found other =
        owner-AllFail _ (rw (get-found backend id r w found, text_eq_ne r.owner_id owner other))

    -- Without a case of that id the four methods throw and change nothing.
    pub missing-AllFail : backend.stored id w.cases ≡ none → AllFail (case_not_found id)
    unfolding get_for_owner
    missing-AllFail missing = owner-AllFail _ (rw (get-missing backend id w missing))

  -- Only a case that awaits an approval is approved or rejected.
  approve_only :
      (s : CaseState)
      → s ≢ awaiting_approval
      → (apply_transition s approve ≡ err (illegal_transition s approve))
        × (apply_transition s reject ≡ err (illegal_transition s reject))
  unfolding apply_transition
  approve_only awaiting_approval ne = absurd (ne refl)
  approve_only draft ne = (refl, refl)
  approve_only submitted ne = (refl, refl)
  approve_only analyzing ne = (refl, refl)
  approve_only action_proposed ne = (refl, refl)
  approve_only approved ne = (refl, refl)
  approve_only executing ne = (refl, refl)
  approve_only outcome_pending ne = (refl, refl)
  approve_only verified_success ne = (refl, refl)
  approve_only execution_failed ne = (refl, refl)
  approve_only outcome_unverified ne = (refl, refl)
  approve_only rejected ne = (refl, refl)
  approve_only expired ne = (refl, refl)

  module _ (id : Text) (w : World S) (r : CaseRecord)
      (found : backend.stored id w.cases ≡ some r) where
    owner_reads : get_for_owner backend id r.owner_id w ≡ (ok r, w)
    unfolding get_for_owner
    owner_reads = rw (get-found backend id r w found, text_eq_refl r.owner_id)

    pub approve-matching :
        (pid : Text) (p : ActionProposal)
        → matching_proposal pid r.proposal ≡ some p
        → approve_and_execute backend d id r.owner_id pid w
          ≡ (begin backend d id r.owner_id p >> execute backend d id r p) w
    unfolding approve_and_execute
    approve-matching pid p matches = rw (owner_reads, continue, matches)

    pub approve-no_match :
        (pid : Text)
        → matching_proposal pid r.proposal ≡ none
        → approve_and_execute backend d id r.owner_id pid w ≡ (err proposal_mismatch, w)
    unfolding approve_and_execute
    approve-no_match pid no_match = rw (owner_reads, continue, no_match)

    -- Approving a proposal that is not the case's current one throws and changes nothing.
    pub approve-proposal_mismatch :
        (pid : Text)
        → ((p : ActionProposal) → r.proposal ≡ some p → p.proposal_id ≢ pid)
        → approve_and_execute backend d id r.owner_id pid w ≡ (err proposal_mismatch, w)
    approve-proposal_mismatch pid other = approve-no_match pid (matching_none pid r.proposal other)

    -- A case that does not await an approval is neither approved nor rejected, also by its owner and for its
    -- current proposal: both throw, and no record, ledger entry or effect changes, only the clock was read.
    pub decide-illegal :
        (p : ActionProposal)
        → r.proposal ≡ some p
        → r.state ≢ awaiting_approval
        → (approve_and_execute backend d id r.owner_id p.proposal_id w
            ≡ (err (illegal_transition r.state approve), record w { calls = suc w.calls }))
          × (reject_proposal backend d id r.owner_id w
              ≡ (err (illegal_transition r.state reject), w))
    unfolding reject_proposal begin step
    decide-illegal p e ne =
        let (no_approve, no_reject) = approve_only r.state ne in
        let later = record w { calls = suc w.calls } in
        (
          rw (
            approve-matching p.proposal_id p (rw e (matching_same p)),
            transition-illegal backend d id approve later r found _ _ no_approve,
          ),
          rw (owner_reads, transition-illegal backend d id reject w r found _ _ no_reject),
        )

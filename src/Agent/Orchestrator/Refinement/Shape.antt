-- ===== src/Agent/Orchestrator/Refinement/Shape.antt =====
-- packages/agent/src/orchestrator.ts: which fields of a case its state promises, and which its patches fill.
use clawback.Prelude.{◌≡◌, Bool, true, ◌&&◌, arith}
use clawback.Shared.Types.{
  CaseState, draft, action_proposed, awaiting_approval, approved, executing, outcome_pending,
  verified_success, outcome_unverified, rejected,
}
use clawback.Shared.Errors.{
  CaseEvent, propose_action, approve, execution_succeeded, outcome_confirmed, ok,
}
use clawback.Shared.StateMachine.{apply_transition}
use clawback.Receipts.Verifier.{is_some}
use clawback.Agent.CaseRecord.{CaseRecord}

-- The proposal, and the evidence of the analysis that made it.
abbrev pub has_proposal : CaseRecord → Bool
has_proposal r = is_some r.proposal && is_some r.execution

-- Whether the fields that a state promises are among those that are filled: the proposal with its evidence, the approval,
-- the outcome and the receipt.
abbrev pub fits : CaseState → Bool → Bool → Bool → Bool → Bool
fits action_proposed p a o c = p
fits awaiting_approval p a o c = p
fits rejected p a o c = p
fits approved p a o c = p && a
fits executing p a o c = p && a
fits outcome_pending p a o c = p && a && o
fits outcome_unverified p a o c = p && a && o
fits verified_success p a o c = p && a && o && c
fits _ p a o c = true

-- The fields that the state of a case promises are filled.
abbrev pub Fits : CaseRecord → Type 0
Fits r =
    fits r.state (has_proposal r) (is_some r.approval) (is_some r.outcome) (is_some r.receipt)
    ≡ true

-- No field that is filled is emptied.
abbrev pub Stay : CaseRecord → CaseRecord → Type 0
Stay new old =
    (has_proposal old ≡ true → has_proposal new ≡ true)
    × (is_some old.approval ≡ true → is_some new.approval ≡ true)
    × (is_some old.outcome ≡ true → is_some new.outcome ≡ true)

-- What the event of a transition fills.
abbrev pub filled : CaseEvent → Bool → Bool → Bool → Bool → Bool
filled propose_action p a o c = p
filled approve p a o c = a
filled execution_succeeded p a o c = o
filled outcome_confirmed p a o c = c
filled _ p a o c = true

-- What the event of a transition fills is filled.
abbrev pub Filled : CaseEvent → CaseRecord → Type 0
Filled event r =
    filled event (has_proposal r) (is_some r.approval) (is_some r.outcome) (is_some r.receipt)
    ≡ true

fits_step :
    (s t : CaseState) (e : CaseEvent) (p a o c p' a' o' c' : Bool)
    → apply_transition s e ≡ ok t
    → fits s p a o c ≡ true
    → (p ≡ true → p' ≡ true)
    → (a ≡ true → a' ≡ true)
    → (o ≡ true → o' ≡ true)
    → filled e p' a' o' c' ≡ true
    → fits t p' a' o' c' ≡ true
unfolding apply_transition
fits_step draft t e p a o c p' a' o' c' h f kp ka ko now = ground arith
fits_step _ t e p a o c p' a' o' c' h f kp ka ko now = ground arith

-- A legal transition whose patch fills what its event fills leaves a case that fits its state.
pub step-Fits :
    (e : CaseEvent) (old new : CaseRecord)
    → apply_transition old.state e ≡ ok new.state
    → Fits old
    → Stay new old
    → Filled e new
    → Fits new
step-Fits e old new legal fit (p, a, o) now =
    fits_step old.state new.state e _ _ _ (is_some old.receipt) _ _ _ (is_some new.receipt) legal
      fit p a o now

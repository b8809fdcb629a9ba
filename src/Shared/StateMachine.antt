-- ===== src/Shared/StateMachine.antt =====
-- packages/shared/src/stateMachine.ts. `TRANSITIONS` is a table: for each state the pairs of an
-- event and the next state, in the order of the source.
pub mod Runs
pub mod Table
use clawback.Prelude.{
  ℕ, Bool, true, false, Option, none, some, List, [], ◌∷◌, map, ◌==◌, if◌then◌else◌,
}
use clawback.Shared.Types.{
  CaseState, draft, submitted, analyzing, action_proposed, awaiting_approval, approved, executing,
  outcome_pending, verified_success, execution_failed, outcome_unverified, rejected, expired,
}
use clawback.Shared.Errors.{
  CaseEvent, submit, begin_analysis, propose_action, request_approval, approve, reject,
  begin_execution, execution_succeeded, fail_execution, outcome_confirmed, outcome_unverifiable,
  expire, Result, ok, err, illegal_transition,
}

-- Events are compared as the literals are: by their place in the union `CaseEvent`.
abbrev pub event_index : CaseEvent → ℕ
event_index submit = 0
event_index begin_analysis = 1
event_index propose_action = 2
event_index request_approval = 3
event_index approve = 4
event_index reject = 5
event_index begin_execution = 6
event_index execution_succeeded = 7
event_index fail_execution = 8
event_index outcome_confirmed = 9
event_index outcome_unverifiable = 10
event_index expire = 11

unfoldable pub transitions : CaseState → List (CaseEvent × CaseState)
transitions draft = (submit, submitted) ∷ (expire, expired) ∷ []
transitions submitted = (begin_analysis, analyzing) ∷ (expire, expired) ∷ []
transitions analyzing =
    (propose_action, action_proposed) ∷ (fail_execution, execution_failed) ∷ (expire, expired) ∷ []
transitions action_proposed = (request_approval, awaiting_approval) ∷ (expire, expired) ∷ []
transitions awaiting_approval = (approve, approved) ∷ (reject, rejected) ∷ (expire, expired) ∷ []
transitions approved = (begin_execution, executing) ∷ (expire, expired) ∷ []
transitions executing =
    (execution_succeeded, outcome_pending) ∷ (fail_execution, execution_failed) ∷ []
transitions outcome_pending =
    (outcome_confirmed, verified_success)
    ∷ (outcome_unverifiable, outcome_unverified)
    ∷ (expire, expired)
    ∷ []
transitions verified_success = []
transitions execution_failed = []
transitions outcome_unverified = []
transitions rejected = []
transitions expired = []

-- `TRANSITIONS[from]?.[event]`
unfoldable pub entry : CaseEvent → List (CaseEvent × CaseState) → Option CaseState
entry event [] = none
entry event ((e, next) ∷ row) =
    if event_index e == event_index event then some next else entry event row

unfoldable pub apply_transition : CaseState → CaseEvent → Result CaseState
unfolding transitions entry
apply_transition from event = elim (entry event (transitions from)) [
  | none ↦ err (illegal_transition from event)
  | some next ↦ ok next
]

abbrev no_keys : List (CaseEvent × CaseState) → Bool
no_keys [] = true
no_keys (_ ∷ _) = false

unfoldable pub is_terminal : CaseState → Bool
unfolding transitions
is_terminal state = no_keys (transitions state)

unfoldable pub legal_events : CaseState → List CaseEvent
unfolding transitions
legal_events state = map (λ t. t.0) (transitions state)

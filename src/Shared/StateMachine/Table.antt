-- ===== src/Shared/StateMachine/Table.antt =====
-- One step of the state machine: which events a state takes, and which states take none.
use clawback.Prelude.{
  ◌≡◌, refl, ◌↔◌, true, arith, OneOf, ℕ, if◌then◌else◌, ◌==◌, sym, ◌∙◌, ap, ==_iff, List, [], ◌∷◌,
  map, some, Bool-cases, Option-cases, inl, inr,
}
use clawback.Shared.Types.{CaseState, draft, terminal_states}
use clawback.Shared.Errors.{
  CaseEvent, submit, begin_analysis, propose_action, request_approval, approve, reject,
  begin_execution, execution_succeeded, fail_execution, outcome_confirmed, outcome_unverifiable,
  expire, ok, err, illegal_transition,
}
use clawback.Shared.StateMachine.{
  apply_transition, is_terminal, legal_events, transitions, event_index, entry,
}

-- A state is terminal by `isTerminal` exactly when it is listed in `TERMINAL_STATES`, and exactly
-- when `applyTransition` refuses every event in it.
pub is_terminal_iff :
    (s : CaseState)
    → ((is_terminal s ≡ true) ↔ OneOf s terminal_states)
      × ((is_terminal s ≡ true)
          ↔ ((e : CaseEvent) → apply_transition s e ≡ err (illegal_transition s e)))
unfolding is_terminal apply_transition
is_terminal_iff draft =
    ((ground arith, ground arith), (λ h. cc, λ all. ground (arith, all expire, all fail_execution)))
is_terminal_iff _ = (
  (ground arith, ground arith),
  (λ h. ground arith, λ all. ground (arith, all expire, all fail_execution)),
)

event_at : ℕ → CaseEvent
event_at n =
    if n == 0
    then submit
    else if n == 1
    then begin_analysis
    else if n == 2
    then propose_action
    else if n == 3
    then request_approval
    else if n == 4
    then approve
    else if n == 5
    then reject
    else if n == 6
    then begin_execution
    else if n == 7
    then execution_succeeded
    else if n == 8
    then fail_execution
    else if n == 9
    then outcome_confirmed
    else if n == 10
    then outcome_unverifiable
    else expire

event_at-event_index : (e : CaseEvent) → event_at (event_index e) ≡ e
unfolding event_at
event_at-event_index submit = refl
event_at-event_index _ = refl

event_index_inj : (d e : CaseEvent) → event_index d ≡ event_index e → d ≡ e
event_index_inj d e h = sym (event_at-event_index d) ∙ ap event_at h ∙ event_at-event_index e

event_index_eq : (d e : CaseEvent) → ((event_index d == event_index e) ≡ true) ↔ (d ≡ e)
event_index_eq d e =
    (λ h. event_index_inj d e ((==_iff _ _).0 h), λ h. (==_iff _ _).1 (ap event_index h))

entry_iff :
    (e : CaseEvent) (row : List (CaseEvent × CaseState))
    → OneOf e (map (λ t. t.0) row) ↔ ((t : CaseState) × (entry e row ≡ some t))
unfolding entry
entry_iff e [] = (λ h. elim h [ ], λ h. cc (h.1))
entry_iff e ((d, t) ∷ row) = elim (Bool-cases (event_index d == event_index e)) [
  | inl same ↦ rw same ((λ h. (t, refl)), λ h. inl (sym ((event_index_eq d e).0 same)))
  | inr other ↦ rw other (
    (λ h. elim h [
      | inl e' ↦ ground (arith, event_index_eq d e)
      | inr later ↦ (entry_iff e row).0 later
    ]),
    λ h. inr ((entry_iff e row).1 h),
  )
]

-- `legalEvents` lists exactly the events that `applyTransition` accepts.
pub legal_events_iff :
    (s : CaseState) (e : CaseEvent)
    → OneOf e (legal_events s) ↔ ((t : CaseState) × (apply_transition s e ≡ ok t))
unfolding legal_events apply_transition
legal_events_iff s e =
    let (to, from) = entry_iff e (transitions s) in
    (
      λ m. let (t, found) = to m in (t, rw (found, apply_transition)),
      λ h. elim (Option-cases (entry e (transitions s))) [
        | inl missing ↦ absurd (ground arith)
        | inr (t, found) ↦ from (t, found)
      ],
    )

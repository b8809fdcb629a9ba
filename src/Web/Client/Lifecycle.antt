-- ===== src/Web/Client/Lifecycle.antt =====
-- apps/web/src/components/LifecycleStepper.tsx and VerificationCheck.tsx, networkLabel of IntegrationStatus.tsx and
-- shorten of CopyableValue.tsx: what they compute of a case, a check, a status and a value.
use clawback.Prelude.{
  ℕ, suc, ◌+◌, ◌≡◌, refl, ◌↔◌, Text, Bool, true, false, ◌||◌, Option, none, some, List, [], ◌∷◌,
  lit, ltb, ◌==◌, if◌then◌else◌, arith,
}
use clawback.Shared.Types.{
  CaseState, state_index, draft, submitted, analyzing, action_proposed, awaiting_approval, approved,
  executing, outcome_pending, verified_success, execution_failed, outcome_unverified, rejected,
  expired,
}
use clawback.Shared.StateMachine.{is_terminal}

pub record Step : Type 0 where
  pub label : Text
  pub states : List CaseState

abbrev pub steps : List Step
steps =
    record { label = lit "Case"; states = draft ∷ submitted ∷ [] }
    ∷ record { label = lit "Private analysis"; states = analyzing ∷ [] }
    ∷ record { label = lit "Proposed action"; states = action_proposed ∷ [] }
    ∷ record { label = lit "Your approval"; states = awaiting_approval ∷ approved ∷ [] }
    ∷ record { label = lit "Execution"; states = executing ∷ [] }
    ∷ record {
      label = lit "Outcome";
      states = outcome_pending ∷ execution_failed ∷ outcome_unverified ∷ rejected ∷ expired ∷ [];
    }
    ∷ record { label = lit "Receipt"; states = verified_success ∷ [] }
    ∷ []

abbrev pub failed_states : List CaseState
failed_states = execution_failed ∷ outcome_unverified ∷ rejected ∷ expired ∷ []

-- `includes` and `has`, which compare with `===`.
abbrev pub among : CaseState → List CaseState → Bool
among s [] = false
among s (t ∷ ts) = state_index t == state_index s || among s ts

-- `findIndex`, `none` for -1.
abbrev next_index : Option ℕ → Option ℕ
next_index none = none
next_index (some i) = some (suc i)

abbrev pub find_index : CaseState → List Step → Option ℕ
find_index s [] = none
find_index s (t ∷ ts) =
    let later = next_index (find_index s ts) in if among s t.states then some 0 else later

pub data StepStatus : Type 0 where
  finished current upcoming failed : StepStatus

abbrev current_index : Option CaseState → Option ℕ
current_index none = none
current_index (some s) = find_index s steps

abbrev has_failed : Option CaseState → Bool
has_failed none = false
has_failed (some s) = among s failed_states

abbrev status_at : Option ℕ → Bool → ℕ → StepStatus
status_at none has_failed i = upcoming
status_at (some c) has_failed i =
    if ltb i c
    then finished
    else if i == c
    then (if has_failed then failed else current)
    else upcoming

abbrev statuses : Option ℕ → Bool → ℕ → List Step → List (Text × StepStatus)
statuses c has_failed i [] = []
statuses c has_failed i (s ∷ ss) =
    (s.label, status_at c has_failed i) ∷ statuses c has_failed (suc i) ss

-- The labels and statuses that `LifecycleStepper` shows, for a case in a state or for none.
unfoldable pub lifecycle_stepper : Option CaseState → List (Text × StepStatus)
lifecycle_stepper s = statuses (current_index s) (has_failed s) 0 steps

abbrev pub count : (StepStatus → Bool) → List (Text × StepStatus) → ℕ
count p [] = 0
count p ((l, s) ∷ rest) = (if p s then 1 else 0) + count p rest

abbrev pub marked : StepStatus → Bool
marked current = true
marked failed = true
marked _ = false

-- The number of steps that hold a state.
abbrev pub holders : CaseState → List Step → ℕ
holders s [] = 0
holders s (t ∷ ts) = (if among s t.states then 1 else 0) + holders s ts

abbrev pub is_failed : StepStatus → Bool
is_failed failed = true
is_failed _ = false

-- Every state stands in exactly one step, one step is marked for it, and the mark is that of a failure exactly in the
-- terminal states other than VERIFIED_SUCCESS.
pub lifecycle_marks :
    (s : CaseState)
    → (holders s steps ≡ 1)
      × (count marked (lifecycle_stepper (some s)) ≡ 1)
      × ((count is_failed (lifecycle_stepper (some s)) ≡ 1)
          ↔ ((is_terminal s ≡ true) × ((state_index s == state_index verified_success) ≡ false)))
unfolding lifecycle_stepper is_terminal
lifecycle_marks draft = (refl, refl, ground arith)
lifecycle_marks _ = (refl, refl, ground arith)

-- ===== src/Shared/StateMachine/Runs.antt =====
-- Runs of the state machine: what a sequence of events can reach.
use clawback.Prelude.{
  ℕ, ◌+◌, ◌≤◌, ◌<◌, ◌≡◌, refl, ◌⊎◌, inl, inr, Bool, true, false, List, [], ◌∷◌, arith, length, ◌++◌,
  ltb, ◌||◌, Bool-cases, ap,
}
use clawback.Shared.Types.{
  CaseState, draft, submitted, analyzing, action_proposed, awaiting_approval, approved, executing,
  outcome_pending, verified_success, execution_failed, outcome_unverified, rejected, expired,
}
use clawback.Shared.Errors.{CaseEvent, approve, Result, ok, ◌>>=◌, Result-cases, err-ne-ok}
use clawback.Shared.StateMachine.{apply_transition}

-- Applies events in order, each to the state that the one before left.
unfoldable pub run : CaseState → List CaseEvent → Result CaseState
run s [] = ok s
run s (e ∷ es) = do t ← apply_transition s e; run t es

-- How many steps remain at most.
abbrev pub remaining : CaseState → ℕ
remaining draft = 8
remaining submitted = 7
remaining analyzing = 6
remaining action_proposed = 5
remaining awaiting_approval = 4
remaining approved = 3
remaining executing = 2
remaining outcome_pending = 1
remaining _ = 0

step-remaining :
    (s t : CaseState) (e : CaseEvent) → apply_transition s e ≡ ok t → remaining t < remaining s
unfolding apply_transition
step-remaining draft t e h = ground arith
step-remaining _ t e h = ground arith

-- Every sequence of accepted events is bounded: its length, together with the steps that may remain in the state it leads to,
-- is at most the steps that may remain in the state it starts from. These are eight in DRAFT, and fewer in the other states.
pub length-run :
    (s t : CaseState) (es : List CaseEvent)
    → run s es ≡ ok t
    → length es + remaining t ≤ remaining s
unfolding run
length-run s t [] h = ground arith
length-run s t (e ∷ es) h = elim (Result-cases (apply_transition s e)) [
  | inl (u, step) ↦
      omega (arith, step-remaining s u e step, length-run u t es (rw (step, ◌>>=◌) at h))
  | inr (x, failed) ↦ absurd (err-ne-ok (rw (failed, ◌>>=◌) at h))
]

-- Before the owner's approval.
abbrev unapproved : CaseState → Bool
unapproved s = ltb (remaining approved) (remaining s)

-- The states that a case takes only when its action has been approved.
abbrev pub acted : CaseState → Bool
acted approved = true
acted executing = true
acted outcome_pending = true
acted verified_success = true
acted outcome_unverified = true
acted _ = false

abbrev abandoned : CaseState → Bool
abandoned execution_failed = true
abandoned rejected = true
abandoned expired = true
abandoned _ = false

-- An `APPROVE` that the machine accepts in `AWAITING_APPROVAL` stands among the events.
pub record ApprovedIn (s : CaseState) (es : List CaseEvent) : Type 0 where
  pub before : List CaseEvent
  pub after : List CaseEvent
  pub split : es ≡ before ++ (approve ∷ after)
  pub awaiting : run s before ≡ ok awaiting_approval

unapproved_step :
    (s t : CaseState) (e : CaseEvent)
    → unapproved s ≡ true
    → apply_transition s e ≡ ok t
    → ((s ≡ awaiting_approval) × (e ≡ approve)) ⊎ ((unapproved t || abandoned t) ≡ true)
unfolding apply_transition
unapproved_step draft t e u h = ground arith
unapproved_step _ t e u h = ground arith

abandoned_end :
    (s t : CaseState) (es : List CaseEvent) → abandoned s ≡ true → run s es ≡ ok t → s ≡ t
unfolding run apply_transition
abandoned_end s t [] u h = ground arith
abandoned_end draft t (e ∷ es) u h = cc
abandoned_end _ t (e ∷ es) u h = cc

not_acted : (s : CaseState) → (unapproved s || abandoned s) ≡ true → acted s ≡ false
not_acted draft u = refl
not_acted _ u = ground arith

ApprovedIn-cons :
    (s u : CaseState) (e : CaseEvent) (es : List CaseEvent)
    → apply_transition s e ≡ ok u
    → ApprovedIn u es
    → ApprovedIn s (e ∷ es)
unfolding run
ApprovedIn-cons s u e es step a = record {
  before = e ∷ a.before;
  after = a.after;
  split = ap (λ x. e ∷ x) a.split;
  awaiting = rw step a.awaiting;
}

run-ApprovedIn :
    (s t : CaseState) (es : List CaseEvent)
    → (unapproved s || abandoned s) ≡ true
    → run s es ≡ ok t
    → acted t ≡ true
    → ApprovedIn s es
unfolding run
run-ApprovedIn s t [] u h a = absurd (ground (arith, not_acted s u))
run-ApprovedIn s t (e ∷ es) u h a = elim (Bool-cases (unapproved s)) [
  | inr late ↦ absurd (ground (arith, abandoned_end s t (e ∷ es), not_acted s u))
  | inl early ↦ elim (Result-cases (apply_transition s e)) [
    | inr (x, failed) ↦ absurd (err-ne-ok (rw (failed, ◌>>=◌) at h))
    | inl (v, step) ↦ elim (unapproved_step s v e early step) [
      | inl (at_gate, approves) ↦ record {
        before = [];
        after = es;
        split = rw approves refl;
        awaiting = rw at_gate refl;
      }
      | inr u' ↦ ApprovedIn-cons s v e es step (run-ApprovedIn v t es u' (rw (step, ◌>>=◌) at h) a)
    ]
  ]
]

-- Nothing is executed without approval: every run from DRAFT into APPROVED or a state behind it
-- splits at an APPROVE that the machine took in AWAITING_APPROVAL.
pub run_draft-ApprovedIn :
    (t : CaseState) (es : List CaseEvent)
    → run draft es ≡ ok t
    → acted t ≡ true
    → ApprovedIn draft es
run_draft-ApprovedIn t es = run-ApprovedIn draft t es refl

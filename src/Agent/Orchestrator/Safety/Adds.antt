-- ===== src/Agent/Orchestrator/Safety/Adds.antt =====
-- packages/agent/src/orchestrator.ts: what an approval can send is the message of the proposal that is stored.
use clawback.Prelude.{
  ◌≡◌, refl, inl, inr, Text, some, List, ◌∷◌, suc, Option-cases, subst, sym, ap, ◌∙◌,
}
use mathlib.Core.Option.{some-injective}
use clawback.Shared.Types.{SubscriptionCaseInput, ActionProposal}
use clawback.Shared.Errors.{ok, err, approve, begin_execution, Result-cases}
use clawback.Agent.CaseRecord.{CaseRecord}
use clawback.Agent.World.{
  World, Effect, continue, attempt, Deps, sent, saved, uploaded, anchored, fee_assessed,
  ProviderActionRequest, ◌>>◌,
}
use clawback.Agent.Store.{Backend}
use clawback.Agent.Store.Laws.{get_for_owner-cases}
use clawback.Agent.Orchestrator.{begin, execute, approve_and_execute, matching_proposal}
use clawback.Agent.Orchestrator.Rejections.{approve-matching, approve-no_match, matching_has}
use clawback.Agent.Orchestrator.Steps.{send, conclude, record_failure}
use clawback.Agent.Orchestrator.Safety.{IsQuiet}
use clawback.Agent.Orchestrator.Safety.Quiet.{
  Keeps, after, decrypt_input-Keeps, step-Keeps, transition-Keeps, conclude-Keeps,
  record_failure-Keeps,
}

module _ (id message : Text) where
  abbrev pub MaySend : Effect → Type 0
  MaySend (sent request) = (request.case_id ≡ id) × (request.exact_message ≡ message)
  MaySend _ = Unit

  -- A trace that goes on from another one, and in which all that was sent since is the message, for the case.
  pub data Adds (base : List Effect) : List Effect → Type 0 where
    nothing_yet : Adds base base
    one_more : {t : List Effect} → (e : Effect) → MaySend e → Adds base t → Adds base (e ∷ t)

module _ {S : Type 0} (backend : Backend S) (d : Deps) (id : Text) (p : ActionProposal)
    (base : List Effect) where
  abbrev P : List Effect → Type 0
  P = Adds id p.exact_message base

  P-grows : (e : Effect) (t : List Effect) → IsQuiet e → P t → P (e ∷ t)
  P-grows (sent request) t q a = absurd q
  P-grows (saved r) t q a = one_more (saved r) tt a
  P-grows (uploaded r) t q a = one_more (uploaded r) tt a
  P-grows (anchored h c) t q a = one_more (anchored h c) tt a
  P-grows (fee_assessed k f) t q a = one_more (fee_assessed k f) tt a

  sent-Adds :
      (input : SubscriptionCaseInput)
      → Keeps P P-grows (λ (w1 : World S).
        continue (attempt (send d id input p.exact_message) w1) (λ answer. elim answer [
          | ok outcome ↦ conclude backend d id input outcome
          | err e ↦ record_failure backend d id e
        ]))
  unfolding send
  sent-Adds input w1 a =
      let request : ProviderActionRequest = record {
        case_id = id;
        input = input;
        exact_message = p.exact_message;
      } in
      elim (Result-cases (d.send_action w1.calls request)) [
        | inl (result, e) ↦ rw e (
            conclude-Keeps P P-grows backend d id input _ _
              (one_more (sent request) (refl, refl) a))
        | inr (error, e) ↦ rw e (
            record_failure-Keeps P P-grows backend d id error _
              (one_more (sent request) (refl, refl) a))
      ]

  execute-Adds : (r : CaseRecord) → Keeps P P-grows (execute backend d id r p)
  unfolding execute
  execute-Adds r w a =
      after P P-grows _ _ (decrypt_input-Keeps P P-grows d r.encrypted_input w a)
        (λ input w1 a1. sent-Adds input w1 a1)

  begin-Adds : (owner : Text) → Keeps P P-grows (begin backend d id owner p)
  unfolding begin
  begin-Adds owner w a =
      after P P-grows _ _
        (transition-Keeps P P-grows backend d id approve _ (λ r w1 a1. record { left = a1 })
          (record w { calls = suc w.calls }) a)
        (λ _ w1 a1. step-Keeps P P-grows backend d id begin_execution w1 a1)

  both-Adds :
      (owner : Text) (r : CaseRecord)
      → Keeps P P-grows (begin backend d id owner p >> execute backend d id r p)
  both-Adds owner r w a =
      after P P-grows _ _ (begin-Adds owner w a) (λ _ w1 a1. execute-Adds r w1 a1)

  own-Adds :
      (pid : Text) (w : World S) (r : CaseRecord)
      → base ≡ w.trace
      → backend.stored id w.cases ≡ some r
      → r.proposal ≡ some p
      → P (approve_and_execute backend d id r.owner_id pid w).1.trace
  own-Adds pid w r start found has = elim (Option-cases (matching_proposal pid r.proposal)) [
    | inl absent ↦
        rw (approve-no_match backend d id w r found pid absent) (subst (λ t. P t) start nothing_yet)
    | inr (q, matches) ↦
        let same : p ≡ q = some-injective p q (sym has ∙ matching_has pid r.proposal q matches) in
        rw (approve-matching backend d id w r found pid q matches, ← same)
          ((both-Adds r.owner_id r w (subst (λ t. P t) start nothing_yet)).left)
  ]

-- Whoever approves whatever proposal of a case: what is sent meanwhile is sent for that case, and is the message of the
-- proposal that is stored in it.
pub approve_and_execute-Adds :
    {S : Type 0} (backend : Backend S) (d : Deps) (id owner pid : Text) (w : World S)
    (r : CaseRecord) (p : ActionProposal)
    → backend.stored id w.cases ≡ some r
    → r.proposal ≡ some p
    → Adds id p.exact_message w.trace (approve_and_execute backend d id owner pid w).1.trace
unfolding approve_and_execute
approve_and_execute-Adds backend d id owner pid w r p found has =
    elim (get_for_owner-cases backend id owner w) [
      | inl (r', found', same, read) ↦
          subst
            (λ o.
              Adds id p.exact_message w.trace (approve_and_execute backend d id o pid w).1.trace)
            same
            (own-Adds backend d id p w.trace pid w r' refl found'
              (ap (λ x. x.proposal) (some-injective r' r (sym found' ∙ found)) ∙ has))
      | inr (inl (r', found', other, refused)) ↦ rw refused nothing_yet
      | inr (inr (missing, refused)) ↦ rw refused nothing_yet
    ]

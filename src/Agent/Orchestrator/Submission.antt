-- ===== src/Agent/Orchestrator/Submission.antt =====
-- packages/agent/src/orchestrator.ts: what `submitCase` achieves.
use clawback.Prelude.{
  ℕ, ◌≡◌, refl, ◌∙◌, ap, subst, suc, Text, Option, none, some, List, ◌∷◌, lit, ◌++◌,
}
use clawback.Json.{stringify}
use clawback.Shared.Types.{
  SubscriptionCaseInput, CaseState, subscription_cancellation, draft, submitted, analyzing,
  action_proposed, awaiting_approval, ActionProposal,
}
use clawback.Shared.Artifacts.{input_value}
use clawback.Shared.Errors.{
  CaseEvent, Result, ok, submit, begin_analysis, propose_action, request_approval,
}
use clawback.Shared.StateMachine.{apply_transition}
use clawback.Privacy.Encryption.{
  EncryptedPayload, load_key, encrypt_at_rest, decrypt_at_rest, sealed, encrypt-sealed,
  decrypt-sealed,
}
use clawback.Json.WellFormed.{stringify-WellFormed}
use clawback.Agent.CaseRecord.{CaseRecord, to_summary}
use clawback.Agent.World.{World, Action, saved, Deps, pure, new_id, AnalysisResult}
use clawback.Agent.Store.{Backend, create, save, transition, stamp}
use clawback.Agent.Store.Laws.{after_save, get-found, transition-legal}
use clawback.Agent.Orchestrator.Steps.{encrypt, step, propose, with_proposal, proposed, proposal_of}
use clawback.Agent.Orchestrator.{submit_case}

module _ {S : Type 0} (backend : Backend S) (d : Deps) where
  -- A case stands in a state, with an owner, an encrypted input, a proposal or none, and no approval.
  pub record Stands (id owner : Text) (payload : EncryptedPayload) (offer : Option ActionProposal)
      (state : CaseState) (r : CaseRecord) (w : World S) : Type 0 where
    pub found : backend.stored id w.cases ≡ some r
    pub same_id : r.case_id ≡ id
    pub same_owner : r.owner_id ≡ owner
    pub same_input : r.encrypted_input ≡ payload
    pub in_state : r.state ≡ state
    pub same_proposal : r.proposal ≡ offer
    pub not_approved : r.approval ≡ none

  abbrev created_record : Text → Text → EncryptedPayload → Text → CaseRecord
  created_record id owner payload started = record {
    case_id = id;
    owner_id = owner;
    category = subscription_cancellation;
    state = draft;
    encrypted_input = payload;
    proposal = none;
    encrypted_proposal_message = none;
    approval = none;
    execution = none;
    outcome = none;
    receipt = none;
    settlement = none;
    environment = d.provider_source;
    degraded_reason = none;
    created_at = started;
    updated_at = started;
  }

  abbrev sealed_with : List ℕ → Text → ℕ → EncryptedPayload
  sealed_with key t n = sealed d.cipher key (d.random_iv n) t

  module _ (id owner : Text) (payload : EncryptedPayload) where
    -- A step that succeeds and leaves the case in the next state.
    abbrev Moves : Option ActionProposal → CaseState → (Result CaseRecord × World S) → Type 0
    Moves offer next x =
        (r : CaseRecord) × (w : World S) × (x ≡ (ok r, w)) × Stands id owner payload offer next r w

    unmoved :
        {o : Option ActionProposal} {s : CaseState} {r : CaseRecord} {w : World S} {n : ℕ}
        → Stands id owner payload o s r w
        → Stands id owner payload o s r (record w { calls = n })
    unmoved at = record {
      found = at.found;
      same_id = at.same_id;
      same_owner = at.same_owner;
      same_input = at.same_input;
      in_state = at.in_state;
      same_proposal = at.same_proposal;
      not_approved = at.not_approved;
    }

    transition-Moves :
        (event : CaseEvent) (s next : CaseState) (r : CaseRecord) (w w' : World S) (p : CaseRecord)
        (patch : CaseRecord → Action S CaseRecord) {before : Option ActionProposal}
        (offer : Option ActionProposal)
        → Stands id owner payload before s r w
        → apply_transition s event ≡ ok next
        → patch r w ≡ (ok p, w')
        → p.case_id ≡ r.case_id
        → p.owner_id ≡ r.owner_id
        → p.encrypted_input ≡ r.encrypted_input
        → p.approval ≡ r.approval
        → p.proposal ≡ offer
        → Moves offer next (transition backend d id event patch w)
    transition-Moves event s next r w w' p patch offer at legal patched i o e a q =
        let r' = stamp next (d.clock w'.calls) p in
        (
          r',
          after_save backend r' w',
          transition-legal backend d id event w r at.found next
              (ap (λ x. apply_transition x event) at.in_state ∙ legal) patch p w' patched,
          record {
            found =
                subst (λ k. backend.stored k (backend.save_record r' w'.cases) ≡ some r')
                  (i ∙ at.same_id) (backend.stored-save_self r' w'.cases);
            same_id = i ∙ at.same_id;
            same_owner = o ∙ at.same_owner;
            same_input = e ∙ at.same_input;
            in_state = refl;
            same_proposal = q;
            not_approved = a ∙ at.not_approved;
          },
        )

    step-Moves :
        (event : CaseEvent) (s next : CaseState) (r : CaseRecord) (w : World S)
        {offer : Option ActionProposal}
        → Stands id owner payload offer s r w
        → apply_transition s event ≡ ok next
        → Moves offer next (step backend d id event w)
    unfolding step
    step-Moves event s next r w {offer} at legal =
        transition-Moves event s next r w w r (λ x. pure x) offer at legal refl refl refl refl refl
          at.same_proposal

    module _ (key : List ℕ) (accepted : load_key (some d.encryption_key) ≡ ok key) where
      encrypt-accepted :
          (t : Text) (w : World S)
          → encrypt d t w ≡ (ok (sealed_with key t w.calls), record w { calls = suc w.calls })
      unfolding encrypt
      encrypt-accepted t w =
          rw (encrypt-sealed d.cipher (some d.encryption_key) key (d.random_iv w.calls) t accepted)

      propose-Moves :
          (started : Text) (input : SubscriptionCaseInput) (analysis : AnalysisResult)
          (r : CaseRecord) (w : World S)
          → Stands id owner payload none analyzing r w
          → Moves
              (some (
                proposal_of backend d
                  (lit "proposal" ++ lit "_" ++ d.random_uuid w.calls)
                  (d.clock (suc w.calls))
                  input
                  analysis))
              action_proposed
              (propose backend d id started input analysis w)
      unfolding propose with_proposal new_id apply_transition
      propose-Moves started input analysis r w at =
          let later = record w { calls = suc (suc w.calls) } in
          let proposal =
            proposal_of backend d (lit "proposal" ++ lit "_" ++ d.random_uuid w.calls)
              (d.clock (suc w.calls)) input analysis in
          let seals = encrypt-accepted analysis.message later in
          transition-Moves propose_action analyzing action_proposed r later
            (record w { calls = suc (suc (suc (suc (suc w.calls)))) })
            (proposed backend d started proposal analysis
              (sealed_with key analysis.message later.calls)
              (lit "exec" ++ lit "_" ++ d.random_uuid (suc (suc (suc w.calls))))
              (d.clock (suc (suc (suc (suc w.calls))))) r)
            (with_proposal backend d started proposal analysis) (some proposal) (unmoved at) refl
            (rw seals refl) refl refl refl refl refl

  -- Whoever submits a case under a key that encryption accepts gets it back awaiting approval: it is
  -- stored under its new id, is the submitter's, has no approval, its encrypted input decrypts to
  -- the input that was given, and it offers a proposal whose message is exactly that of the analysis of this
  -- input. Nothing that the analysis answers changes that.
  pub submit_case-Stands :
      (owner : Text) (input : SubscriptionCaseInput) (w : World S) (key : List ℕ)
      → load_key (some d.encryption_key) ≡ ok key
      → (r : CaseRecord) × (id : Text) × (payload : EncryptedPayload) × (p : ActionProposal)
        × (n : ℕ) × ((submit_case backend d owner input w).0 ≡ ok (to_summary r))
        × Stands id owner payload
            (some p)
            awaiting_approval
            r
            (submit_case backend d owner input w).1
        × (decrypt_at_rest d.cipher payload (some d.encryption_key)
            ≡ ok (stringify (input_value input)))
        × (p.exact_message ≡ (d.analyze n input).message)
  unfolding submit_case new_id create save apply_transition transition to_summary decrypt_at_rest
      stringify lit input_value encrypt_at_rest load_key
  submit_case-Stands owner input w key accepted =
      let id = lit "case" ++ (lit "_" ++ d.random_uuid w.calls) in
      let started = d.clock (suc w.calls) in
      let w1 = record w { calls = suc (suc w.calls) } in
      let payload = sealed_with key (stringify (input_value input)) w1.calls in
      let encrypts =
        encrypt-accepted id owner payload key accepted (stringify (input_value input)) w1 in
      let reads =
        decrypt-sealed d.cipher (some d.encryption_key) key (d.random_iv w1.calls) _ accepted
          (stringify-WellFormed (input_value input)) in
      let r0 = created_record id owner payload started in
      let w2 = record w {
        cases = backend.save_record r0 w.cases;
        calls = suc (suc (suc w.calls));
        trace = saved r0 ∷ w.trace;
      } in
      let at0 : Stands id owner payload none draft r0 w2 = record {
        found = backend.stored-save_self r0 w.cases;
        same_id = refl;
        same_owner = refl;
        same_input = refl;
        in_state = refl;
        same_proposal = refl;
        not_approved = refl;
      } in
      let m1 = step-Moves id owner payload submit draft submitted r0 w2 at0 refl in
      let m2 = step-Moves id owner payload begin_analysis submitted analyzing m1.0 m1.1 m1.3 refl in
      let m3 =
        propose-Moves id owner payload key accepted started input (d.analyze m2.1.calls input) m2.0
          (record m2.1 { calls = suc m2.1.calls }) (unmoved id owner payload m2.3) in
      let m4 =
        step-Moves id owner payload request_approval action_proposed awaiting_approval m3.0 m3.1
          m3.3 refl in
      rw (encrypts, m1.2, m2.2, m3.2, m4.2, get-found backend id m4.0 m4.1 m4.3.found)
        (m4.0, id, payload, _, m2.1.calls, refl, m4.3, reads, refl)

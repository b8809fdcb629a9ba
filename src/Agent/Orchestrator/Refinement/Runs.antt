-- ===== src/Agent/Orchestrator/Refinement/Runs.antt =====
-- packages/agent/src/orchestrator.ts: the state of a stored case moves by runs of the state machine, whatever is called.
use clawback.Prelude.{
  ℕ, ◌≡◌, ◌≢◌, refl, ap, sym, ◌∙◌, Text, some, List, [], ◌∷◌, ◌++◌, lit, true, false, text_eq,
  text_eq_iff, text_eq-cases, inl, inr, Bool, arith,
}
use mathlib.Core.Option.{some-injective}
use clawback.Shared.Types.{CaseState, draft, submitted, analyzing}
use clawback.Shared.Errors.{CaseEvent, propose_action, Result, ok, ◌>>=◌, Result-cases, err-ne-ok}
use clawback.Shared.StateMachine.{apply_transition, is_terminal}
use clawback.Shared.StateMachine.Runs.{run}
use clawback.Shared.StateMachine.Table.{is_terminal_iff}
use clawback.Agent.CaseRecord.{CaseRecord}
use clawback.Agent.World.{World, Deps}
use clawback.Agent.Store.{Backend}
use clawback.Agent.Orchestrator.Safety.Sends.{Reaches}
use clawback.Agent.Orchestrator.Refinement.Still.{KeepsProposal, Patched}
use clawback.Agent.Orchestrator.Refinement.Calls.{Reaches-Kept}

differ : (s t : Text) → text_eq s t ≡ false → s ≢ t
differ s t h same = cc ((text_eq_iff s t).1 same, h)

ok-inj : {A : Type 0} {a b : A} → ◌≡◌ {A = Result A} (ok a) (ok b) → a ≡ b
ok-inj h = cc h

run-append :
    (s t u : CaseState) (es : List CaseEvent) (e : CaseEvent)
    → run s es ≡ ok t
    → apply_transition t e ≡ ok u
    → run s (es ++ (e ∷ [])) ≡ ok u
unfolding run
run-append s t u [] e h step = rw (ap (λ x. apply_transition x e) (ok-inj h) ∙ step)
run-append s t u (f ∷ es) e h step = elim (Result-cases (apply_transition s f)) [
  | inl (v, first) ↦ rw first (run-append v t u es e (rw (first, ◌>>=◌) at h) step)
  | inr (x, failed) ↦ absurd (err-ne-ok (rw (failed, ◌>>=◌) at h))
]

-- From ACTION_PROPOSED on.
abbrev pub is_proposed : CaseState → Bool
is_proposed draft = false
is_proposed submitted = false
is_proposed analyzing = false
is_proposed _ = true

proposed_step :
    (s t : CaseState) (e : CaseEvent)
    → is_proposed s ≡ true
    → apply_transition s e ≡ ok t
    → (e ≢ propose_action) × (is_proposed t ≡ true)
unfolding apply_transition
proposed_step draft t e p h = cc p
proposed_step _ t e p h = (λ same. ground arith, ground arith)

kept_by :
    (e : CaseEvent) (new old : CaseRecord)
    → e ≢ propose_action
    → KeepsProposal e new old
    → new.proposal ≡ old.proposal
kept_by e new old other (inl same) = absurd (other same)
kept_by e new old other (inr kept) = kept

module _ {S : Type 0} (backend : Backend S) where
  -- Every stored case is stored under its own id.
  abbrev pub Keyed : S → Type 0
  Keyed s = (k : Text) (r : CaseRecord) → backend.stored k s ≡ some r → r.case_id ≡ k

  -- The case that was `r0` is still stored, as its owner's, in a state that a run of the machine reaches, and with its proposal
  -- if it had one.
  pub record Evolved (id : Text) (r0 : CaseRecord) (s : S) : Type 0 where
    pub keyed : Keyed s
    pub events : List CaseEvent
    pub now : CaseRecord
    pub found : backend.stored id s ≡ some now
    pub ran : run r0.state events ≡ ok now.state
    pub same_owner : now.owner_id ≡ r0.owner_id
    pub same_proposal :
        is_proposed r0.state ≡ true → (is_proposed now.state ≡ true) × (now.proposal ≡ r0.proposal)

  -- The case is still stored as it was.
  record Frozen (id : Text) (r0 : CaseRecord) (s : S) : Type 0 where
    keyed : Keyed s
    unchanged : backend.stored id s ≡ some r0

  saved-Keyed : (s : S) (new : CaseRecord) → Keyed s → Keyed (backend.save_record new s)
  saved-Keyed s new keyed k r there = elim (text_eq-cases k new.case_id) [
    | inl same ↦ cc (backend.stored-save_self new s, there, same)
    | inr other ↦
        keyed k r (sym (backend.stored-save_ne k new s (differ k new.case_id other)) ∙ there)
  ]

  module _ (id : Text) (r0 : CaseRecord) where
    Evolved-other :
        (s : S) (new : CaseRecord)
        → id ≢ new.case_id
        → Evolved id r0 s
        → Evolved id r0 (backend.save_record new s)
    Evolved-other s new ne v = record {
      keyed = saved-Keyed s new v.keyed;
      events = v.events;
      now = v.now;
      found = backend.stored-save_ne id new s ne ∙ v.found;
      ran = v.ran;
      same_owner = v.same_owner;
      same_proposal = v.same_proposal;
    }

    stored_once :
        (s : S) (k : Text) (old : CaseRecord)
        → Keyed s
        → backend.stored k s ≡ some old
        → id ≡ old.case_id
        → (r : CaseRecord) → backend.stored id s ≡ some r
        → r ≡ old
    stored_once s k old keyed there same r found =
        some-injective r old
          (sym found ∙ ap (λ j. backend.stored j s) (same ∙ keyed k old there) ∙ there)

    Evolved-saves :
        (s : S) (k : Text) (event : CaseEvent) (old new : CaseRecord)
        → Evolved id r0 s
        → backend.stored k s ≡ some old
        → apply_transition old.state event ≡ ok new.state
        → new.case_id ≡ old.case_id
        → new.owner_id ≡ old.owner_id
        → Patched event new old
        → Evolved id r0 (backend.save_record new s)
    Evolved-saves s k event old new v there legal i o q = elim (text_eq-cases id new.case_id) [
      | inr other ↦ Evolved-other s new (differ id new.case_id other) v
      | inl same ↦
          let it : v.now ≡ old = stored_once s k old v.keyed there (same ∙ i) v.now v.found in
          record {
            keyed = saved-Keyed s new v.keyed;
            events = v.events ++ (event ∷ []);
            now = new;
            found =
                ap (λ j. backend.stored j (backend.save_record new s)) same
                ∙ backend.stored-save_self new s;
            ran =
                run-append r0.state v.now.state new.state v.events event v.ran
                  (ap (λ x. apply_transition x.state event) it ∙ legal);
            same_owner = o ∙ ap (λ x. x.owner_id) (sym it) ∙ v.same_owner;
            same_proposal = λ h.
                let (before, kept) = v.same_proposal h in
                let (other, after) =
                  proposed_step old.state new.state event
                    (ap (λ x. is_proposed x.state) (sym it) ∙ before) legal in
                (after, kept_by event new old other q.0 ∙ ap (λ x. x.proposal) (sym it) ∙ kept);
          }
    ]

    Frozen-other :
        (s : S) (new : CaseRecord)
        → id ≢ new.case_id
        → Frozen id r0 s
        → Frozen id r0 (backend.save_record new s)
    Frozen-other s new ne v = record {
      keyed = saved-Keyed s new v.keyed;
      unchanged = backend.stored-save_ne id new s ne ∙ v.unchanged;
    }

    Frozen-saves :
        is_terminal r0.state ≡ true
        → (s : S) (k : Text) (event : CaseEvent) (old new : CaseRecord) → Frozen id r0 s
        → backend.stored k s ≡ some old
        → apply_transition old.state event ≡ ok new.state
        → new.case_id ≡ old.case_id
        → new.owner_id ≡ old.owner_id
        → Patched event new old
        → Frozen id r0 (backend.save_record new s)
    Frozen-saves terminal s k event old new v there legal i o q =
        elim (text_eq-cases id new.case_id) [
          | inr other ↦ Frozen-other s new (differ id new.case_id other) v
          | inl same ↦
              let it : r0 ≡ old = stored_once s k old v.keyed there (same ∙ i) r0 v.unchanged in
              absurd (
                err-ne-ok (
                  sym ((is_terminal_iff r0.state).1.0 terminal event)
                  ∙ ap (λ x. apply_transition x.state event) it
                  ∙ legal))
        ]

    module _ (d : Deps) (fresh : (n : ℕ) → id ≢ lit "case" ++ lit "_" ++ d.random_uuid n) where
      -- Whatever sequence of calls follows, with any answers of the collaborators and any errors, a stored case stays
      -- stored, as its owner's, and its state is reached from the one it had by a run of the state machine; once its action has been
      -- proposed, its proposal stays what it was. It is
      -- assumed that every case is stored under its id and that `randomUUID` does not draw the id of this one again.
      pub Reaches-Evolved :
          (start w : World S)
          → Keyed start.cases
          → backend.stored id start.cases ≡ some r0
          → Reaches backend d start w
          → Evolved id r0 w.cases
      unfolding run
      Reaches-Evolved start w keyed found reached =
          Reaches-Kept backend d (Evolved id r0) Evolved-saves
            (λ s r n v e _. Evolved-other s r (λ same. fresh n (same ∙ e)) v) start w
            (record {
              keyed = keyed;
              events = [];
              now = r0;
              found = found;
              ran = refl;
              same_owner = refl;
              same_proposal = λ h. (h, refl);
            })
            reached

      -- A case in a terminal state is never changed again, whatever sequence of calls follows: the record that is
      -- stored, with its receipt, is the same. The assumptions are those of `Reaches-Evolved`.
      pub Reaches-terminal :
          (start w : World S)
          → Keyed start.cases
          → backend.stored id start.cases ≡ some r0
          → is_terminal r0.state ≡ true
          → Reaches backend d start w
          → backend.stored id w.cases ≡ some r0
      Reaches-terminal start w keyed found terminal reached =
          (Reaches-Kept backend d (Frozen id r0) (Frozen-saves terminal)
            (λ s r n v e _. Frozen-other s r (λ same. fresh n (same ∙ e)) v) start w
            (record { keyed = keyed; unchanged = found }) reached).unchanged

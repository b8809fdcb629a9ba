-- ===== src/Agent/Orchestrator/Refinement/Stored.antt =====
-- packages/agent/src/orchestrator.ts: a predicate of the stored cases that every legal change of one keeps is kept by
-- every transition.
use clawback.Prelude.{◌≡◌, ap, sym, subst, ◌∙◌, Text, some, Option-cases, inl, inr}
use clawback.Shared.Errors.{CaseEvent, Result, ok, err, Result-cases}
use clawback.Shared.StateMachine.{apply_transition}
use clawback.Agent.CaseRecord.{CaseRecord}
use clawback.Agent.World.{World, Action, continue, Deps}
use clawback.Agent.Store.{Backend, get, transition, stamp}
use clawback.Agent.Store.Laws.{
  get-found, get-missing, transition-illegal, transition-legal, transition-missing,
  transition-patch_throws,
}
use clawback.Agent.Orchestrator.Refinement.Still.{Still, IsPatch, Patched}

module _ {S : Type 0} (backend : Backend S) (d : Deps) (P : S → Type 0)
    (saves : (s : S) (id : Text) (event : CaseEvent) (old new : CaseRecord)
      → P s
      → backend.stored id s ≡ some old
      → apply_transition old.state event ≡ ok new.state
      → new.case_id ≡ old.case_id
      → new.owner_id ≡ old.owner_id
      → Patched event new old
      → P (backend.save_record new s)) where
  pub record Leaves {A : Type 0} (x : Result A × World S) : Type 0 where
    pub left : P x.1.cases

  abbrev pub Keeps : {A : Type 0} → Action S A → Type 0
  Keeps m = (w : World S) → P w.cases → Leaves (m w)

  pub still-Leaves :
      {A : Type 0} (w : World S) (x : Result A × World S) → Still w x → P w.cases → Leaves x
  still-Leaves w x t p = record { left = subst P (sym t.same_cases) p }

  pub after :
      {A B : Type 0} (x : Result A × World S) (f : A → Action S B)
      → Leaves x
      → ((a : A) → Keeps (f a))
      → Leaves (continue x f)
  after (ok a, w) f l k = k a w l.left
  after (err e, w) f l k = record { left = l.left }

  pub get-Keeps : (id : Text) → Keeps (get backend id)
  get-Keeps id w p = elim (Option-cases (backend.stored id w.cases)) [
    | inl e ↦ rw (get-missing backend id w e) (record { left = p })
    | inr (r, e) ↦ rw (get-found backend id r w e) (record { left = p })
  ]

  pub transition-Keeps :
      (id : Text) (event : CaseEvent) (patch : CaseRecord → Action S CaseRecord)
      → IsPatch event patch
      → Keeps (transition backend d id event patch)
  transition-Keeps id event patch is_patch w p = elim (Option-cases (backend.stored id w.cases)) [
    | inl absent ↦ rw (transition-missing backend d id event w patch absent) (record { left = p })
    | inr (r, found) ↦ elim (Result-cases (apply_transition r.state event)) [
      | inr (e, illegal) ↦
          rw (transition-illegal backend d id event w r found patch e illegal) (record { left = p })
      | inl (next, legal) ↦
          let w' = (patch r w).1 in
          let same = (is_patch.patch_still r w).same_cases in
          elim (Result-cases (patch r w).0) [
            | inr (e, throws) ↦
                rw
                  (transition-patch_throws backend d id event w r found next legal patch e w'
                    (ap (λ x. (x, w')) throws))
                  (record { left = subst P (sym same) p })
            | inl (q, patched) ↦
                rw
                  (transition-legal backend d id event w r found next legal patch q w'
                    (ap (λ x. (x, w')) patched))
                  (record {
                    left =
                        saves w'.cases id event r (stamp next (d.clock w'.calls) q)
                          (subst P (sym same) p) (ap (backend.stored id) same ∙ found) legal
                          (is_patch.same_id r q w patched) (is_patch.same_owner r q w patched)
                          (is_patch.patched r q w patched);
                  })
          ]
    ]
  ]

-- ===== src/Agent/Store/Laws.antt =====
-- packages/agent/src/store.ts: what a transition does, whatever its patch.
use clawback.Prelude.{
  ◌≡◌, refl, ◌≢◌, ◌⊎◌, inl, inr, Text, none, some, ◌∷◌, suc, arith, Option-cases, ap, sym, ◌∙◌,
  text_eq, text_eq_iff, Bool-cases,
}
use clawback.Shared.Types.{CaseState}
use clawback.Shared.Errors.{
  CaseEvent, Error, ok, err, case_not_found, unauthorized_case_access, Result-cases,
}
use clawback.Shared.StateMachine.{apply_transition}
use clawback.Agent.CaseRecord.{CaseRecord}
use clawback.Agent.World.{World, Action, pure, Deps, saved}
use clawback.Agent.Store.{Backend, stamp, save, get, get_for_owner, transition}

-- The world after a record was saved at the time of the next call.
abbrev pub after_save : {S : Type 0} → Backend S → CaseRecord → World S → World S
after_save backend r w = record w {
  cases = backend.save_record r w.cases;
  calls = suc w.calls;
  trace = saved r ∷ w.trace;
}

module _ {S : Type 0} (backend : Backend S) where
  pub get-found :
      (id : Text) (r : CaseRecord) (w : World S)
      → backend.stored id w.cases ≡ some r
      → get backend id w ≡ (ok r, w)
  unfolding get
  get-found id r w found = rw (found, get)

  pub get-missing :
      (id : Text) (w : World S)
      → backend.stored id w.cases ≡ none
      → get backend id w ≡ (err (case_not_found id), w)
  unfolding get
  get-missing id w missing = rw (missing, get)

  -- Reading a case for an owner never changes anything. It answers the stored record exactly when there is
  -- one and the owner is its owner, and otherwise names the reason.
  pub get_for_owner-cases :
      (id owner : Text) (w : World S)
      → ((r : CaseRecord) × (backend.stored id w.cases ≡ some r)
          × (r.owner_id ≡ owner)
          × (get_for_owner backend id owner w ≡ (ok r, w)))
        ⊎ (((r : CaseRecord) × (backend.stored id w.cases ≡ some r)
              × (r.owner_id ≢ owner)
              × (get_for_owner backend id owner w ≡ (err (unauthorized_case_access id), w)))
            ⊎ ((backend.stored id w.cases ≡ none)
                × (get_for_owner backend id owner w ≡ (err (case_not_found id), w))))
  unfolding get_for_owner
  get_for_owner-cases id owner w = elim (Option-cases (backend.stored id w.cases)) [
    | inl missing ↦ inr (inr (missing, rw (get-missing id w missing)))
    | inr (r, found) ↦ elim (Bool-cases (text_eq r.owner_id owner)) [
      | inl same ↦ inl (r, found, (text_eq_iff _ _).0 same, rw (get-found id r w found, same))
      | inr other ↦ inr (
          inl (
            r,
            found,
            λ e. ground (arith, text_eq_iff r.owner_id owner),
            rw (get-found id r w found, other),
          ))
    ]
  ]

  module _ (d : Deps) (id : Text) (event : CaseEvent) (w : World S) where
    pub transition-missing :
        (patch : CaseRecord → Action S CaseRecord)
        → backend.stored id w.cases ≡ none
        → transition backend d id event patch w ≡ (err (case_not_found id), w)
    unfolding transition
    transition-missing patch missing = rw (get-missing id w missing)

    module _ (r : CaseRecord) (found : backend.stored id w.cases ≡ some r) where
      pub transition-illegal :
          (patch : CaseRecord → Action S CaseRecord) (e : Error)
          → apply_transition r.state event ≡ err e
          → transition backend d id event patch w ≡ (err e, w)
      unfolding transition
      transition-illegal patch e illegal = rw (get-found id r w found, illegal)

      module _ (next : CaseState) (legal : apply_transition r.state event ≡ ok next) where
        pub transition-legal :
            (patch : CaseRecord → Action S CaseRecord) (p : CaseRecord) (w' : World S)
            → patch r w ≡ (ok p, w')
            → transition backend d id event patch w ≡ (
              ok (stamp next (d.clock w'.calls) p),
              after_save backend (stamp next (d.clock w'.calls) p) w',
            )
        unfolding transition save
        transition-legal patch p w' patched = rw (get-found id r w found, legal, patched)

        pub transition-patch_throws :
            (patch : CaseRecord → Action S CaseRecord) (e : Error) (w' : World S)
            → patch r w ≡ (err e, w')
            → transition backend d id event patch w ≡ (err e, w')
        unfolding transition
        transition-patch_throws patch e w' throws = rw (get-found id r w found, legal, throws)

    -- A transition that succeeds found the case, moved its state as the table says whatever the patch
    -- answered, and saved exactly the record that it returns, as its last effect.
    pub transition-IsLegal :
        (patch : CaseRecord → Action S CaseRecord) (r' : CaseRecord) (w' : World S)
        → transition backend d id event patch w ≡ (ok r', w')
        → (r : CaseRecord) × (p : CaseRecord) × (before : World S) × (backend.stored id w.cases
            ≡ some r)
          × (apply_transition r.state event ≡ ok r'.state)
          × (patch r w ≡ (ok p, before))
          × (r' ≡ record p { state = r'.state; updated_at = r'.updated_at })
          × (w' ≡ after_save backend r' before)
    transition-IsLegal patch r' w' done = elim (Option-cases (backend.stored id w.cases)) [
      | inl missing ↦ cc (transition-missing patch missing, done)
      | inr (r, found) ↦ elim (Result-cases (apply_transition r.state event)) [
        | inr (e, illegal) ↦ cc (transition-illegal r found patch e illegal, done)
        | inl (next, legal) ↦ elim (Result-cases (patch r w).0) [
          | inr (e, throws) ↦ cc (
            transition-patch_throws r found next legal patch e _
                (ap (λ x. (x, (patch r w).1)) throws),
            done,
          )
          | inl (p, patched) ↦
              let before = (patch r w).1 in
              let result =
                sym (
                  transition-legal r found next legal patch p before
                    (ap (λ x. (x, before)) patched))
                ∙ done in
              let same : stamp next (d.clock before.calls) p ≡ r' = cc (ap (λ x. x.0) result) in
              (
                r,
                p,
                before,
                found,
                legal ∙ ap (λ x. ok x.state) same,
                ap (λ x. (x, before)) patched,
                rw (sym same) refl,
                sym (ap (λ x. x.1) result) ∙ ap (λ x. after_save backend x before) same,
              )
        ]
      ]
    ]

    -- A transition whose patch only computes and that throws leaves everything as it was.
    pub transition-err :
        (f : CaseRecord → CaseRecord) (e : Error)
        → (transition backend d id event (λ r. pure (f r)) w).0 ≡ err e
        → (transition backend d id event (λ r. pure (f r)) w).1 ≡ w
    transition-err f e failed = elim (Option-cases (backend.stored id w.cases)) [
      | inl missing ↦ rw (transition-missing (λ r. pure (f r)) missing)
      | inr (r, found) ↦ elim (Result-cases (apply_transition r.state event)) [
        | inr (e', illegal) ↦ rw (transition-illegal r found (λ r. pure (f r)) e' illegal)
        | inl (next, legal) ↦ cc (
          ap (λ x. x.0) (transition-legal r found next legal (λ r. pure (f r)) (f r) w refl),
          failed,
        )
      ]
    ]

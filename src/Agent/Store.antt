-- ===== src/Agent/Store.antt =====
-- packages/agent/src/store.ts: `BaseCaseStore` over what a store keeps its records in. The three
-- stores are in Store/Backends. That a backend's own input or output fails is not modelled.
pub mod Backends
pub mod Laws
pub mod Files
use clawback.Prelude.{◌≡◌, ◌≢◌, Text, Option, none, some, ◌∷◌, if◌then◌else◌, text_eq}
use clawback.Shared.Types.{CaseState}
use clawback.Shared.Errors.{CaseEvent, Error, ok, err, case_not_found, unauthorized_case_access}
use clawback.Shared.StateMachine.{apply_transition}
use clawback.Agent.CaseRecord.{CaseRecord}
use clawback.Agent.World.{World, Action, pure, throw, lift, ◌>>=◌, ◌>>◌, Deps, now, saved}

-- `get` and `save` of a store, and what every store promises: a saved record is found under its
-- id, and the records under other ids stay.
pub record Backend (S : Type 0) : Type 0 where
  pub stored : Text → S → Option CaseRecord
  pub save_record : CaseRecord → S → S
  pub stored-save_self : (r : CaseRecord) (s : S) → stored r.case_id (save_record r s) ≡ some r
  pub stored-save_ne :
      (id : Text) (r : CaseRecord) (s : S)
      → id ≢ r.case_id
      → stored id (save_record r s) ≡ stored id s

-- `{ ...patched, state: nextState, updatedAt: ... }`
abbrev pub stamp : CaseState → Text → CaseRecord → CaseRecord
stamp next time r = record r { state = next; updated_at = time }

module _ {S : Type 0} (backend : Backend S) where
  unfoldable pub save : CaseRecord → Action S (Unit {0})
  save r w = (ok tt, record w { cases = backend.save_record r w.cases; trace = saved r ∷ w.trace })

  unfoldable pub create : CaseRecord → Action S (Unit {0})
  unfolding save
  create r = save r

  unfoldable pub get : Text → Action S CaseRecord
  get id w = elim (backend.stored id w.cases) [
    | none ↦ (err (case_not_found id), w)
    | some r ↦ (ok r, w)
  ]

  unfoldable pub get_for_owner : Text → Text → Action S CaseRecord
  unfolding get
  get_for_owner id owner = do
    r ← get id
    if text_eq r.owner_id owner then pure r else throw (unauthorized_case_access id)

  module _ (d : Deps) where
    -- A patch is an action: the closures of the orchestrator draw new ids and times.
    unfoldable pub transition :
        Text → CaseEvent → (CaseRecord → Action S CaseRecord) → Action S CaseRecord
    unfolding get save
    transition id event patch = do
      current ← get id
      next ← lift (apply_transition current.state event)
      patched ← patch current
      time ← now d
      save (stamp next time patched)
      pure (stamp next time patched)

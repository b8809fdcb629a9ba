-- ===== src/Shared/Errors.antt =====
-- The errors that the program throws, as values: a constructor for each error class, and one for
-- each message of a plain `Error`.
use clawback.Prelude.{Text, ◌≡◌, refl, ◌⊎◌, inl, inr, ◌≢◌}
use clawback.Shared.Types.{CaseState, Environment}

pub data CaseEvent : Type 0 where
  submit begin_analysis propose_action request_approval approve reject begin_execution : CaseEvent
  execution_succeeded fail_execution outcome_confirmed outcome_unverifiable expire : CaseEvent

pub data Error : Type 0 where
  illegal_transition : CaseState → CaseEvent → Error
  case_not_found unauthorized_case_access : Text → Error
  proposal_mismatch : Error
  unverified_savings : Error
  no_settlement_record : Text → Error
  integrity_violation : Text → Environment → Error
  key_not_set key_not_32_bytes : Error
  decryption_failed malformed_json : Error
  no_finalized_receipt : Text → Error
  not_implemented : Error
  external : Text → Error

pub data Result {ℓ} (A : Type ℓ) : Type ℓ where
  ok : A → Result A
  err : Error → Result A

infixl 5 ◌>>=◌
abbrev pub ◌>>=◌ {ℓ κ} : {A : Type ℓ} {B : Type κ} → Result A → (A → Result B) → Result B
ok a >>= f = f a
err e >>= f = err e

pub Result-cases {ℓ} :
    {A : Type ℓ} (r : Result A) → ((a : A) × (r ≡ ok a)) ⊎ ((e : Error) × (r ≡ err e))
Result-cases (ok a) = inl (a, refl)
Result-cases (err e) = inr (e, refl)

pub err-ne-ok {ℓ} : {A : Type ℓ} {e : Error} {a : A} → ◌≢◌ {A = Result A} (err e) (ok a)
err-ne-ok = cc

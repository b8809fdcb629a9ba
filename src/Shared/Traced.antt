-- ===== src/Shared/Traced.antt =====
-- Calls of code that is not the repository's, as actions: an action gives a result or an error and leaves the
-- calls that it made, newest first.
use clawback.Prelude.{◌≡◌, refl, ap, List, ◌∷◌}
use clawback.Shared.Errors.{Error, Result, ok, err, err-ne-ok}

abbrev pub Traced : Type 0 → Type 0 → Type 0
Traced C A = List C → Result A × List C

module _ {C A : Type 0} where
  abbrev pub pure : A → Traced C A
  pure a calls = (ok a, calls)

  abbrev pub throw : Error → Traced C A
  throw e calls = (err e, calls)

  abbrev pub lift : Result A → Traced C A
  lift r calls = (r, calls)

  -- A call, with what it answers.
  abbrev pub ask : C → Result A → Traced C A
  ask c r calls = (r, c ∷ calls)

abbrev pub continue : {C A B : Type 0} → Result A × List C → (A → Traced C B) → Result B × List C
continue (ok a, calls) f = f a calls
continue (err e, calls) f = (err e, calls)

infixl 5 ◌>>=◌ ◌>>◌
abbrev pub ◌>>=◌ : {C A B : Type 0} → Traced C A → (A → Traced C B) → Traced C B
◌>>=◌ m f calls = continue (m calls) f

abbrev pub ◌>>◌ : {C A B : Type 0} → Traced C A → Traced C B → Traced C B
m >> k = m >>= λ _. k

abbrev rethrow : {C A : Type 0} → Error → Result A × List C → Result A × List C
rethrow e (ok a, calls) = (ok a, calls)
rethrow e (err _, calls) = (err e, calls)

-- `catch`, where another error is thrown.
abbrev pub or_throw : {C A : Type 0} → Traced C A → Error → Traced C A
or_throw m e calls = rethrow e (m calls)

abbrev pub finishing : {C A : Type 0} → Result A → Result (Unit {0}) × List C → Result A × List C
finishing r (ok _, calls) = (r, calls)
finishing r (err e, calls) = (err e, calls)

-- `try m finally last`: `last` runs in any case, and its error is thrown in place of the result.
abbrev pub finally : {C A : Type 0} → Traced C A → Traced C (Unit {0}) → Traced C A
finally m last calls = let (r, calls') = m calls in finishing r (last calls')

continue-ok :
    {C A B : Type 0} (x : Result A × List C) (f : A → Traced C B) (after : List C) (b : B)
    → continue x f ≡ (ok b, after)
    → (a : A) × (between : List C) × (x ≡ (ok a, between)) × (f a between ≡ (ok b, after))
continue-ok (ok a, between) f after b h = (a, between, refl, h)
continue-ok (err e, between) f after b h = absurd (err-ne-ok (ap (λ x. x.0) h))

-- What an action that succeeds, and the one before it, have done.
pub bind-ok :
    {C A B : Type 0} (m : Traced C A) (f : A → Traced C B) (calls after : List C) (b : B)
    → (m >>= f) calls ≡ (ok b, after)
    → (a : A) × (between : List C) × (m calls ≡ (ok a, between)) × (f a between ≡ (ok b, after))
bind-ok m f calls after b h = continue-ok (m calls) f after b h

-- A call that is answered.
pub ask-ok :
    {C A : Type 0} (c : C) (r : Result A) (calls after : List C) (a : A)
    → ◌≡◌ {A = Result A × List C} (r, c ∷ calls) (ok a, after)
    → (r ≡ ok a) × (c ∷ calls ≡ after)
ask-ok c r calls after a h = (ap (λ x. x.0) h, ap (λ x. x.1) h)

-- ===== src/Web/Validate.antt =====
-- apps/web/src/app/api/cases/route.ts: the checks on the body of a new case. A body is any JSON value; a
-- property of null and `trim` of what is no string are the TypeErrors of the access.
use clawback.Prelude.{
  ℕ, ◌≡◌, refl, ◌≤◌, inl, inr, Text, Bool, true, false, not, ◌||◌, Option, none, some, [], ◌∷◌, lit,
  is_empty, length, ltb, if◌then◌else◌, arith, Bool-cases,
}
use clawback.Json.{Value, null, bool, num, str, arr, obj}
use clawback.Shared.Types.{SubscriptionCaseInput, sandbox_channel}
use clawback.Shared.Artifacts.{get_field}
use clawback.Shared.Errors.{Result, ok, err, ◌>>=◌, external, Result-cases, err-ne-ok}
use clawback.Shared.Money.{is_space}

-- `String.prototype.trim`
unfoldable pub trim_start : Text → Text
trim_start [] = []
trim_start (c ∷ s) = let rest = trim_start s in if is_space c then rest else c ∷ s

abbrev keep_unless_blank : ℕ → Text → Text
keep_unless_blank c [] = if is_space c then [] else c ∷ []
keep_unless_blank c (d ∷ s) = c ∷ d ∷ s

unfoldable pub trim_end : Text → Text
trim_end [] = []
trim_end (c ∷ s) = keep_unless_blank c (trim_end s)

unfoldable pub trim : Text → Text
unfolding trim_start trim_end
trim s = trim_end (trim_start s)

-- `body.name`, `none` for undefined.
unfoldable pub property : Value → Text → Result (Option Value)
property null name = err (external (lit "Cannot read properties of null"))
property (obj fs) name = ok (get_field name fs)
property _ name = ok none

-- `value?.trim()`, the empty text for undefined: the code only asks whether it is truthy.
unfoldable pub trimmed : Option Value → Result Text
trimmed none = ok []
trimmed (some null) = ok []
trimmed (some (str s)) = ok (trim s)
trimmed (some _) = err (external (lit "trim is not a function"))

unfoldable pub field_text : Value → Text → Result Text
unfolding property trimmed
field_text body name = do v ← property body name; trimmed v

-- `if (bad(field)) return message;`, and what follows.
unfoldable pub require :
    Result Text → (Text → Bool) → Text → Result (Option Text) → Result (Option Text)
require field bad message rest = do t ← field; if bad t then ok (some message) else rest

-- Empty, or longer than six code units.
abbrev pub bad_digits : Text → Bool
bad_digits t = is_empty t || ltb 6 (length t)

abbrev after_details : Value → Result (Option Text)
after_details body =
    require (field_text body (lit "desiredOutcome")) is_empty
      (lit "Tell us what you want to happen.") (ok none)

abbrev after_digits : Value → Result (Option Text)
after_digits body =
    require (field_text body (lit "subscriptionDetails")) is_empty
      (lit "Tell us about the subscription.") (after_details body)

abbrev after_merchant : Value → Result (Option Text)
after_merchant body =
    require (field_text body (lit "accountIdentifierLast4")) bad_digits
      (lit "Enter the last few digits of your account, not the full number.") (after_digits body)

-- The first complaint, if any.
unfoldable pub validate : Value → Result (Option Text)
unfolding field_text require
validate body =
    require (field_text body (lit "merchantName")) is_empty (lit "Merchant name is required.")
      (after_merchant body)

abbrev pub input_with : Text → Text → Text → Text → SubscriptionCaseInput
input_with merchant last4 details desired = record {
  merchant_name = merchant;
  account_identifier_last4 = last4;
  subscription_details = details;
  desired_outcome = desired;
  contact_channel = sandbox_channel;
  contact_address = lit "sandbox@clawback.test";
}

-- The input of the case, from a body that was validated.
unfoldable pub input_of_body : Value → Result SubscriptionCaseInput
unfolding field_text
input_of_body body = do
  merchant ← field_text body (lit "merchantName")
  last4 ← field_text body (lit "accountIdentifierLast4")
  details ← field_text body (lit "subscriptionDetails")
  desired ← field_text body (lit "desiredOutcome")
  ok (input_with merchant last4 details desired)

abbrev pub starts_clean : Text → Bool
starts_clean [] = true
starts_clean (c ∷ s) = not (is_space c)

abbrev pub ends_clean : Text → Bool
ends_clean [] = true
ends_clean (c ∷ []) = not (is_space c)
ends_clean (c ∷ d ∷ s) = ends_clean (d ∷ s)

-- Not empty, and no white space at either end.
pub record IsTrimmed (t : Text) : Type 0 where
  pub filled : is_empty t ≡ false
  pub start : starts_clean t ≡ true
  pub finish : ends_clean t ≡ true

trim_start_clean : (s : Text) → starts_clean (trim_start s) ≡ true
unfolding trim_start
trim_start_clean [] = refl
trim_start_clean (c ∷ s) = ground (arith, trim_start_clean s)

keep_starts_clean :
    (c : ℕ) (t : Text) → is_space c ≡ false → starts_clean (keep_unless_blank c t) ≡ true
keep_starts_clean c [] h = rw (h, h)
keep_starts_clean c (d ∷ t) h = rw h

keep_ends_clean :
    (c : ℕ) (t : Text) → ends_clean t ≡ true → ends_clean (keep_unless_blank c t) ≡ true
keep_ends_clean c [] h = ground arith
keep_ends_clean c (d ∷ t) h = h

trim_end_starts : (s : Text) → starts_clean s ≡ true → starts_clean (trim_end s) ≡ true
unfolding trim_end
trim_end_starts [] h = refl
trim_end_starts (c ∷ s) h = keep_starts_clean c (trim_end s) (ground arith)

trim_end_clean : (s : Text) → ends_clean (trim_end s) ≡ true
unfolding trim_end
trim_end_clean [] = refl
trim_end_clean (c ∷ s) = keep_ends_clean c (trim_end s) (trim_end_clean s)

trim-IsTrimmed : (s : Text) → is_empty (trim s) ≡ false → IsTrimmed (trim s)
unfolding trim
trim-IsTrimmed s h = record {
  filled = h;
  start = trim_end_starts (trim_start s) (trim_start_clean s);
  finish = trim_end_clean (trim_start s);
}

trimmed-IsTrimmed :
    (v : Option Value) (t : Text) → trimmed v ≡ ok t → is_empty t ≡ false → IsTrimmed t
unfolding trimmed
trimmed-IsTrimmed none t e h = ground arith
trimmed-IsTrimmed (some null) t e h = ground arith
trimmed-IsTrimmed (some (str s)) t e h =
    let same : trim s ≡ t = cc e in rw (← same) (trim-IsTrimmed s (rw same h))
trimmed-IsTrimmed (some (bool b)) t e h = cc e
trimmed-IsTrimmed (some (num z)) t e h = cc e
trimmed-IsTrimmed (some (arr vs)) t e h = cc e
trimmed-IsTrimmed (some (obj fs)) t e h = cc e

field_text-IsTrimmed :
    (body : Value) (name t : Text) → field_text body name ≡ ok t → is_empty t ≡ false → IsTrimmed t
unfolding field_text
field_text-IsTrimmed body name t e h = elim (Result-cases (property body name)) [
  | inl (v, found) ↦ trimmed-IsTrimmed v t (rw found at e) h
  | inr (x, failed) ↦ absurd (err-ne-ok (rw failed at e))
]

-- What a case's input is like when the server accepts it.
pub record IsClean (i : SubscriptionCaseInput) : Type 0 where
  pub merchant : IsTrimmed i.merchant_name
  pub last4 : IsTrimmed i.account_identifier_last4
  pub few_digits : length i.account_identifier_last4 ≤ 6
  pub details : IsTrimmed i.subscription_details
  pub desired : IsTrimmed i.desired_outcome

require-none :
    (field : Result Text) (bad : Text → Bool) (message : Text) (rest : Result (Option Text))
    → require field bad message rest ≡ ok none
    → (t : Text) × (field ≡ ok t) × (bad t ≡ false) × (rest ≡ ok none)
unfolding require
require-none (err e) bad message rest h = cc h
require-none (ok t) bad message rest h = elim (Bool-cases (bad t)) [
  | inl refused ↦ cc (rw refused at h)
  | inr fine ↦ (t, refl, fine, rw fine at h)
]

-- Where a body is accepted, its input is read from it, and every field of the input is filled and
-- trimmed; the account's digits are at most six.
pub validate-IsClean :
    (body : Value)
    → validate body ≡ ok none
    → (i : SubscriptionCaseInput) × (input_of_body body ≡ ok i) × IsClean i
unfolding validate input_of_body
validate-IsClean body h =
    let (merchant, e1, filled1, h1) =
      require-none (field_text body (lit "merchantName")) is_empty
        (lit "Merchant name is required.") (after_merchant body) h in
    let (last4, e2, few, h2) =
      require-none (field_text body (lit "accountIdentifierLast4")) bad_digits
        (lit "Enter the last few digits of your account, not the full number.") (after_digits body)
        h1 in
    let (details, e3, filled3, h3) =
      require-none (field_text body (lit "subscriptionDetails")) is_empty
        (lit "Tell us about the subscription.") (after_details body) h2 in
    let (desired, e4, filled4, h4) =
      require-none (field_text body (lit "desiredOutcome")) is_empty
        (lit "Tell us what you want to happen.") (ok none) h3 in
    (
      input_with merchant last4 details desired,
      rw (e1, e2, e3, e4) refl,
      record {
        merchant = field_text-IsTrimmed body _ merchant e1 filled1;
        last4 = field_text-IsTrimmed body _ last4 e2 (ground arith);
        few_digits = ground arith;
        details = field_text-IsTrimmed body _ details e3 filled3;
        desired = field_text-IsTrimmed body _ desired e4 filled4;
      },
    )

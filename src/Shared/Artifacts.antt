-- ===== src/Shared/Artifacts.antt =====
-- The objects of packages/shared/src/types.ts that the program hands whole to `commit` and to
-- `JSON.stringify`, and the reading of a case's input back (`JSON.parse(...) as SubscriptionCaseInput`).
use clawback.Prelude.{◌≡◌, refl, Text, Option, none, some, lit, text_eq, if◌then◌else◌, arith}
use clawback.Prelude.Int.{ℤ}
use clawback.Json.{Value, null, num, str, obj, Fields, end, field}
use clawback.Shared.Types.{
  SubscriptionCaseInput, ActionProposal, ContactChannel, email, chat, sandbox_channel,
}

abbrev pub num_or_null : Option ℤ → Value
num_or_null none = null
num_or_null (some z) = num z

unfoldable pub proposal_value : ActionProposal → Value
proposal_value p = obj (
    field (lit "proposalId") (str p.proposal_id) (
      field (lit "summary") (str p.summary) (
        field (lit "exactMessage") (str p.exact_message) (
          field (lit "estimatedRecoveryCents") (num_or_null p.estimated_recovery_cents)
            (field (lit "createdAt") (str p.created_at) end)))))

unfoldable pub channel_text : ContactChannel → Text
unfolding lit
channel_text email = lit "email"
channel_text chat = lit "chat"
channel_text sandbox_channel = lit "sandbox"

unfoldable pub input_fields : SubscriptionCaseInput → Fields
input_fields i = field (lit "merchantName") (str i.merchant_name) (
    field (lit "accountIdentifierLast4") (str i.account_identifier_last4) (
      field (lit "subscriptionDetails") (str i.subscription_details) (
        field (lit "desiredOutcome") (str i.desired_outcome) (
          field (lit "contactChannel") (str (channel_text i.contact_channel))
            (field (lit "contactAddress") (str i.contact_address) end)))))

unfoldable pub input_value : SubscriptionCaseInput → Value
unfolding input_fields lit channel_text
input_value i = obj (input_fields i)

-- The value of a key; a later entry replaces an earlier one.
unfoldable pub get_field : Text → Fields → Option Value
get_field k end = none
get_field k (field j v fs) = elim (get_field k fs) [
  | some w ↦ some w
  | none ↦ if text_eq j k then some v else none
]

infixl 5 ◌>>=◌
abbrev ◌>>=◌ : {A B : Type 0} → Option A → (A → Option B) → Option B
none >>= f = none
some a >>= f = f a

as_text : Value → Option Text
as_text (str s) = some s
as_text _ = none

get_text : Text → Fields → Option Text
unfolding get_field as_text
get_text k fs = do v ← get_field k fs; as_text v

channel_of : Text → Option ContactChannel
unfolding lit text_eq
channel_of t =
    if text_eq t (lit "email")
    then some email
    else if text_eq t (lit "chat")
    then some chat
    else if text_eq t (lit "sandbox")
    then some sandbox_channel
    else none

input_of_fields : Fields → Option SubscriptionCaseInput
unfolding get_text channel_of lit text_eq
input_of_fields fs = do
  merchant ← get_text (lit "merchantName") fs
  last4 ← get_text (lit "accountIdentifierLast4") fs
  details ← get_text (lit "subscriptionDetails") fs
  desired ← get_text (lit "desiredOutcome") fs
  channel_name ← get_text (lit "contactChannel") fs
  channel ← channel_of channel_name
  address ← get_text (lit "contactAddress") fs
  some (record {
    merchant_name = merchant;
    account_identifier_last4 = last4;
    subscription_details = details;
    desired_outcome = desired;
    contact_channel = channel;
    contact_address = address;
  })

-- The fields that the cast to `SubscriptionCaseInput` takes for granted; `none` where one is missing.
unfoldable pub input_of_value : Value → Option SubscriptionCaseInput
unfolding input_of_fields
input_of_value (obj fs) = input_of_fields fs
input_of_value _ = none

-- A case's input is read back from the value that it is stored as.
pub input_of_value-input_value :
    (i : SubscriptionCaseInput) → input_of_value (input_value i) ≡ some i
unfolding input_of_value input_value
input_of_value-input_value i = by_channel i.contact_channel refl
  where
    by_channel :
        (c : ContactChannel) → i.contact_channel ≡ c → input_of_value (input_value i) ≡ some i
    by_channel email e = ground arith
    by_channel chat e = ground arith
    by_channel sandbox_channel e = ground arith

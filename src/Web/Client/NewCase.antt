-- ===== src/Web/Client/NewCase.antt =====
-- apps/web/src/app/cases/new/page.tsx: the form of a new case, what its submission does to it, and what it shows.
use clawback.Prelude.{
  ℕ, suc, Text, Bool, true, false, Option, none, some, List, [], ◌∷◌, ◌++◌, lit, leb, is_empty,
  if◌then◌else◌,
}
use clawback.Json.{Value, str, obj, field, end}
use clawback.Shared.Types.{draft, analyzing}
use clawback.Agent.CaseRecord.{CaseSummary}
use clawback.Web.Client.Lifecycle.{lifecycle_stepper, StepStatus}
use clawback.Web.Client.CaseView.{Answer, succeeded, refused, unreachable, complaint}

pub record FormState : Type 0 where
  pub merchant_name : Text
  pub account_identifier_last4 : Text
  pub subscription_details : Text
  pub desired_outcome : Text
  pub submitting : Bool
  pub step_index : ℕ
  pub error : Option Text

abbrev pub initial_form : FormState
initial_form = record {
  merchant_name = [];
  account_identifier_last4 = [];
  subscription_details = [];
  desired_outcome = [];
  submitting = false;
  step_index = 0;
  error = none;
}

abbrev pub analysis_steps : List Text
analysis_steps =
    lit "Reviewing subscription terms..."
    ∷ lit "Identifying cancellation/refund opportunity..."
    ∷ lit "Preparing recommended action..."
    ∷ []

-- The body of the request: the fields as they were typed.
unfoldable pub form_body : FormState → Value
form_body f = obj (
    field (lit "merchantName") (str f.merchant_name) (
      field (lit "accountIdentifierLast4") (str f.account_identifier_last4) (
        field (lit "subscriptionDetails") (str f.subscription_details)
          (field (lit "desiredOutcome") (str f.desired_outcome) end))))

-- `onSubmit` until its request is sent.
unfoldable pub submit_start : FormState → FormState
submit_start f = record f { error = none; submitting = true }

-- `Math.min(i + 1, ANALYSIS_STEPS.length - 1)`, every 700 ms.
unfoldable pub submit_tick : FormState → FormState
submit_tick f = record f { step_index = if leb (suc f.step_index) 2 then suc f.step_index else 2 }

abbrev failed_with : Text → FormState → FormState
failed_with message f = record f { error = some message; submitting = false }

-- The rest of `onSubmit`, with the page that it goes to. On a success the form stays as it is, and its timer runs on.
unfoldable pub submit_end : Answer CaseSummary → FormState → FormState × Option Text
submit_end (succeeded c) f = (f, some (lit "/cases/" ++ c.case_id))
submit_end (refused e) f = (failed_with (complaint e) f, none)
submit_end unreachable f = (failed_with (lit "Couldn't reach Clawback. Try again.") f, none)

-- A field of the form, with what the browser enforces: every field is required, and the account has at most six code units.
pub record FieldView : Type 0 where
  pub id : Text
  pub label : Text
  pub hint : Option Text
  pub value : Text
  pub max_length : Option ℕ
  pub placeholder : Text

unfoldable pub form_fields : FormState → List FieldView
form_fields f =
    record {
      id = lit "merchant";
      label = lit "Company";
      hint = none;
      value = f.merchant_name;
      max_length = none;
      placeholder = lit "e.g. Acme Streaming";
    }
    ∷ record {
      id = lit "account";
      label = lit "Last digits of your account";
      hint = some (lit "Never your full account number — just enough to identify the case to you.");
      value = f.account_identifier_last4;
      max_length = some 6;
      placeholder = lit "4242";
    }
    ∷ record {
      id = lit "details";
      label = lit "What's the subscription?";
      hint = none;
      value = f.subscription_details;
      max_length = none;
      placeholder = lit "Premium plan, $19.99/month, billed on the 3rd.";
    }
    ∷ record {
      id = lit "outcome";
      label = lit "What do you want to happen?";
      hint = none;
      value = f.desired_outcome;
      max_length = none;
      placeholder = lit "Cancel it and refund this month's $19.99 charge — I never used it.";
    }
    ∷ []

pub data FieldName : Type 0 where
  merchant account details outcome : FieldName

-- `onChange` of the fields.
unfoldable pub edit : FieldName → Text → FormState → FormState
edit merchant t f = record f { merchant_name = t }
edit account t f = record f { account_identifier_last4 = t }
edit details t f = record f { subscription_details = t }
edit outcome t f = record f { desired_outcome = t }

pub data FormPanel : Type 0 where
  form_stepper : List (Text × StepStatus) → FormPanel
  analysis : List (Text × Bool) → FormPanel
  alert : Text → FormPanel
  fields : List FieldView → FormPanel

-- Each line of the analysis, and whether it is shown in full.
abbrev lines_from : ℕ → ℕ → List Text → List (Text × Bool)
lines_from i reached [] = []
lines_from i reached (step ∷ rest) = (step, leb i reached) ∷ lines_from (suc i) reached rest

abbrev alerts : Option Text → List FormPanel
alerts none = []
alerts (some e) = if is_empty e then [] else alert e ∷ []

unfoldable pub form_panels : FormState → List FormPanel
unfolding form_fields
form_panels f =
    if f.submitting
    then form_stepper (lifecycle_stepper (some analyzing))
      ∷ analysis (lines_from 0 f.step_index analysis_steps)
      ∷ []
    else form_stepper (lifecycle_stepper (some draft)) ∷ alerts f.error
      ++ fields (form_fields f) ∷ []

-- ===== src/Web/Session/Submitted.antt =====
-- apps/web/src: what the form of a new case comes to.
use clawback.Prelude.{
  ℕ, zero, suc, ◌≡◌, refl, ap, Text, Bool, false, true, Option, none, some, List, [], ◌∷◌, lit,
  arith, ◌++◌, is_empty, leb, if◌then◌else◌, text_eq,
}
use clawback.Json.{stringify}
use clawback.Shared.Types.{ActionProposal, SubscriptionCaseInput, draft, awaiting_approval}
use clawback.Shared.Errors.{ok}
use clawback.Shared.Artifacts.{get_field, input_value}
use clawback.Privacy.Encryption.{load_key, decrypt_at_rest}
use clawback.Agent.CaseRecord.{CaseRecord, to_summary}
use clawback.Agent.World.{World, continue, Deps}
use clawback.Agent.Store.{Backend}
use clawback.Agent.Orchestrator.{submit_case}
use clawback.Agent.Orchestrator.Submission.{submit_case-Stands}
use clawback.Web.Validate.{
  validate, input_of_body, input_with, field_text, property, trimmed, trim, bad_digits, require,
}
use clawback.Web.Routes.{answer, post_case}
use clawback.Web.Routes.Access.{known_owner}
use clawback.Web.Client.Lifecycle.{lifecycle_stepper}
use clawback.Web.Client.CaseView.Shown.{awaiting-shown}
use clawback.Web.Client.CaseView.{body_panels, approval_panel, initial_view}
use clawback.Web.Client.NewCase.{
  FormState, form_panels, form_fields, form_stepper, alert, fields, form_body, submit_start,
  submit_tick, submit_end,
}
use clawback.Web.Session.{answer_of, open_case, submit_form, submit_ticks}
use clawback.Web.Session.Seen.{open_case-found}

-- The first thing that is wrong with a form, read from its fields.
unfoldable pub form_complaint : FormState → Option Text
form_complaint f =
    if is_empty (trim f.merchant_name)
    then some (lit "Merchant name is required.")
    else if bad_digits (trim f.account_identifier_last4)
    then some (lit "Enter the last few digits of your account, not the full number.")
    else if is_empty (trim f.subscription_details)
    then some (lit "Tell us about the subscription.")
    else if is_empty (trim f.desired_outcome)
    then some (lit "Tell us what you want to happen.")
    else none

-- The input that a form stands for.
unfoldable pub cleaned : FormState → SubscriptionCaseInput
cleaned f =
    input_with (trim f.merchant_name) (trim f.account_identifier_last4)
      (trim f.subscription_details) (trim f.desired_outcome)

record Fields (f : FormState) : Type 0 where
  merchant : field_text (form_body f) (lit "merchantName") ≡ ok (trim f.merchant_name)
  last4 :
      field_text (form_body f) (lit "accountIdentifierLast4") ≡ ok (trim f.account_identifier_last4)
  details : field_text (form_body f) (lit "subscriptionDetails") ≡ ok (trim f.subscription_details)
  desired : field_text (form_body f) (lit "desiredOutcome") ≡ ok (trim f.desired_outcome)

form-Fields : (f : FormState) → Fields f
unfolding field_text property trimmed form_body get_field text_eq lit
form-Fields f = record { merchant = refl; last4 = refl; details = refl; desired = refl }

first_of :
    (a b c e : Bool) (k l m n : Text)
    → (if a
        then ok (some k)
        else if b
        then ok (some l)
        else if c
        then ok (some m)
        else if e
        then ok (some n)
        else ok none)
      ≡ ok (
          if a
          then some k
          else if b
          then some l
          else if c
          then some m
          else if e
          then some n
          else none)
first_of true b c e k l m n = refl
first_of false true c e k l m n = refl
first_of false false true e k l m n = refl
first_of false false false true k l m n = refl
first_of false false false false k l m n = refl

-- The server's complaint about the request of a form is the first thing that is wrong with the form.
validate-form_body : (f : FormState) → validate (form_body f) ≡ ok (form_complaint f)
unfolding validate require form_complaint
validate-form_body f =
    let x = form-Fields f in
    rw (x.merchant, x.last4, x.details, x.desired)
      (first_of (is_empty (trim f.merchant_name)) (bad_digits (trim f.account_identifier_last4))
        (is_empty (trim f.subscription_details)) (is_empty (trim f.desired_outcome)) _ _ _ _)

input_of_body-form_body : (f : FormState) → input_of_body (form_body f) ≡ ok (cleaned f)
unfolding input_of_body cleaned
input_of_body-form_body f =
    let x = form-Fields f in rw (x.merchant, x.last4, x.details, x.desired) refl

submit_ticks-kept :
    (n : ℕ) (f : FormState) → (s : ℕ) × (submit_ticks n f ≡ record f { step_index = s })
unfolding submit_ticks submit_tick
submit_ticks-kept zero f = (f.step_index, refl)
submit_ticks-kept (suc n) f =
    let (s, e) = submit_ticks-kept n f in (if leb (suc s) 2 then suc s else 2, rw e refl)

form_complaint-filled : (f : FormState) (m : Text) → form_complaint f ≡ some m → is_empty m ≡ false
unfolding form_complaint lit
form_complaint-filled f m h = ground arith

module _ {S : Type 0} (backend : Backend S) (d : Deps) (rings : ℕ) (f : FormState)
    (w : World S) where
  -- A form with something wrong: the page stays, with what was typed and the first thing that is wrong, and nothing
  -- happens on the server.
  pub submit_form-refused :
      (cookie : Option Text) (m : Text)
      → form_complaint f ≡ some m
      → ((submit_form backend d cookie rings f w).0.1 ≡ none)
        × ((submit_form backend d cookie rings f w).1 ≡ w)
        × (form_panels (submit_form backend d cookie rings f w).0.0
            ≡ form_stepper (lifecycle_stepper (some draft)) ∷ alert m ∷ fields (form_fields f) ∷ [])
  unfolding submit_form post_case submit_end submit_start form_panels form_fields answer_of
  submit_form-refused cookie m wrong =
      let (s, ticked) = submit_ticks-kept rings (submit_start f) in
      let filled = form_complaint-filled f m wrong in
      rw (validate-form_body f, wrong, continue, ticked) (refl, refl, rw filled refl)

  created-responds :
      (cookie : Text) (r : CaseRecord)
      → is_empty cookie ≡ false
      → form_complaint f ≡ none
      → (submit_case backend d cookie (cleaned f) w).0 ≡ ok (to_summary r)
      → submit_form backend d (some cookie) rings f w ≡ (
        (submit_ticks rings (submit_start f), some (lit "/cases/" ++ r.case_id)),
        (submit_case backend d cookie (cleaned f) w).1,
      )
  unfolding submit_form post_case answer answer_of submit_end to_summary
  created-responds cookie r filled fine created =
      rw
        (
          validate-form_body f,
          fine,
          known_owner backend d cookie filled w,
          continue,
          input_of_body-form_body f,
          created,
        )
        refl

  -- A form with nothing wrong, under a key that encryption accepts: the page goes to the new case, whose page the same
  -- owner can open. The case awaits approval, its encrypted input decrypts to the trimmed fields of the form, and its page
  -- offers a proposal whose message is that of the analysis of these fields.
  pub submit_form-opens :
      (cookie : Text) (key : List ℕ)
      → is_empty cookie ≡ false
      → form_complaint f ≡ none
      → load_key (some d.encryption_key) ≡ ok key
      → (r : CaseRecord) × (id : Text) × (p : ActionProposal) × (n : ℕ) × ((submit_form backend d
            (some cookie)
            rings
            f
            w).0.1
          ≡ some (lit "/cases/" ++ id))
        × (open_case backend d (some cookie) id (submit_form backend d (some cookie) rings f w).1
            ≡ (
              ok (some (initial_view (to_summary r))),
              (submit_form backend d (some cookie) rings f w).1,
            ))
        × (r.state ≡ awaiting_approval)
        × (decrypt_at_rest d.cipher r.encrypted_input (some d.encryption_key)
            ≡ ok (stringify (input_value (cleaned f))))
        × (body_panels (initial_view (to_summary r)) ≡ approval_panel none p ∷ [])
        × (p.exact_message ≡ (d.analyze n (cleaned f)).message)
  unfolding initial_view to_summary
  submit_form-opens cookie key filled fine accepted =
      let (r, id, payload, p, n, created, stands, sealed, said) =
        submit_case-Stands backend d cookie (cleaned f) w key accepted in
      let done = created-responds cookie r filled fine created in
      (
        r,
        id,
        p,
        n,
        rw done (ap (λ i. some (lit "/cases/" ++ i)) stands.same_id),
        rw done (open_case-found backend d cookie filled _ id r stands.found stands.same_owner),
        stands.in_state,
        rw stands.same_input sealed,
        awaiting-shown (initial_view (to_summary r)) p refl stands.in_state stands.same_proposal,
        said,
      )

-- ===== src/Tests/Session.antt =====
-- The form of a new case and the page of the gym's case, with the server behind it.
use clawback.Prelude.{
  ℕ, true, suc, ◌≡◌, refl, ◌≢◌, false, Text, Option, none, some, [], ◌∷◌, ◌++◌, lit, is_empty,
  text_eq, lookup, Dict,
}
use clawback.Shared.Types.{ActionProposal, awaiting_approval, draft}
use clawback.Shared.Errors.{ok}
use clawback.Shared.Messages.{state_text}
use clawback.Receipts.Verifier.{VerificationReport}
use clawback.Agent.CaseRecord.{CaseRecord, CaseSummary, to_summary}
use clawback.Agent.World.{World}
use clawback.Agent.Store.Backends.{in_memory}
use clawback.Web.Client.CaseView.{
  ViewState, initial_view, approval_panel, receipt_card, body_panels,
}
use clawback.Web.Session.{open_case, submit_form, click_approve, load_verification}
use clawback.Web.Session.Approved.{click_approve-receipt}
use clawback.Web.Session.Stale.{click_approve-stale}
use clawback.Json.{stringify}
use clawback.Shared.Artifacts.{input_value}
use clawback.Shared.Money.{is_space}
use clawback.Privacy.Encryption.{decrypt_at_rest, load_key, from_hex}
use clawback.Web.Validate.{trim}
use clawback.Web.Client.Lifecycle.{lifecycle_stepper}
use clawback.Web.Client.NewCase.{
  FormState, initial_form, form_panels, form_fields, form_stepper, alert, fields,
}
use clawback.Web.Session.Submitted.{form_complaint, cleaned, submit_form-opens, submit_form-refused}
use clawback.Tests.Data.{
  deps, key_hex, empty_world, gym, proposal, execution, waiting, running, world_of,
}
use clawback.Tests.Approval.{readable, refund, can_succeed, clocked}

ann_filled : is_empty (lit "ann") ≡ false
unfolding lit
ann_filled = refl

named : is_empty proposal.proposal_id ≡ false
unfolding lit
named = refl

abbrev clicked : ViewState × World (Dict CaseRecord)
clicked =
    click_approve in_memory deps (some (lit "ann")) 2 (initial_view (to_summary readable))
      (world_of readable)

click_approve-receipt_example :
    (c : CaseSummary) × (report : VerificationReport) × (open_case in_memory deps
        (some (lit "ann"))
        (lit "case_0")
        (world_of readable)
      ≡ (ok (some (initial_view (to_summary readable))), world_of readable))
    × (body_panels (initial_view (to_summary readable)) ≡ approval_panel none proposal ∷ [])
    × (body_panels clicked.0 ≡ receipt_card c none false ∷ [])
    × (body_panels (load_verification in_memory deps (some (lit "ann")) clicked.0 clicked.1).0
        ≡ receipt_card c (some report) false ∷ [])
    × (report.all_cryptographic_checks_passed ≡ true)
click_approve-receipt_example =
    click_approve-receipt in_memory deps (lit "case_0") (lit "ann") ann_filled proposal execution
      gym refund readable (world_of readable) can_succeed 2 named clocked

abbrev old_view : ViewState
old_view = initial_view (to_summary waiting)

running-not_waiting : running.state ≢ awaiting_approval
running-not_waiting e = cc e

click_approve-stale_example :
    (body_panels (click_approve in_memory deps (some (lit "ann")) 1 old_view (world_of running)).0
      ≡ approval_panel
          (some (
            lit "This case can't do that right now (currently "
            ++ state_text running.state
            ++ lit ")."))
          proposal
        ∷ [])
    × ((click_approve in_memory deps (some (lit "ann")) 1 old_view (world_of running)).1
        ≡ record (world_of running) { calls = suc (world_of running).calls })
unfolding in_memory lookup lit text_eq to_summary initial_view
click_approve-stale_example =
    click_approve-stale in_memory deps running (world_of running) old_view proposal 1 ann_filled
      named refl refl running-not_waiting refl refl refl

abbrev gym_form : FormState
gym_form = record initial_form {
  merchant_name = lit " Gym ";
  account_identifier_last4 = lit "1234";
  subscription_details = lit "monthly at $29.99";
  desired_outcome = lit "Cancel and refund";
}

abbrev wrong_form : FormState
wrong_form = record gym_form { account_identifier_last4 = lit "1234567" }

abbrev posted : (FormState × Option Text) × World (Dict CaseRecord)
posted = submit_form in_memory deps (some (lit "ann")) 1 gym_form empty_world

gym_form_fine : form_complaint gym_form ≡ none
unfolding form_complaint lit trim is_space
gym_form_fine = refl

wrong_form_wrong :
    form_complaint wrong_form
    ≡ some (lit "Enter the last few digits of your account, not the full number.")
unfolding form_complaint lit trim is_space
wrong_form_wrong = refl

submit_form-opens_example :
    (r : CaseRecord) × (id : Text) × (p : ActionProposal) × (n : ℕ) × (posted.0.1
      ≡ some (lit "/cases/" ++ id))
    × (open_case in_memory deps (some (lit "ann")) id posted.1
        ≡ (ok (some (initial_view (to_summary r))), posted.1))
    × (r.state ≡ awaiting_approval)
    × (decrypt_at_rest deps.cipher r.encrypted_input (some deps.encryption_key)
        ≡ ok (stringify (input_value (cleaned gym_form))))
    × (body_panels (initial_view (to_summary r)) ≡ approval_panel none p ∷ [])
    × (p.exact_message ≡ (deps.analyze n (cleaned gym_form)).message)
unfolding load_key from_hex lit
submit_form-opens_example =
    submit_form-opens in_memory deps 1 gym_form empty_world (lit "ann") (from_hex key_hex) refl
      gym_form_fine refl

submit_form-refused_example :
    ((submit_form in_memory deps none 1 wrong_form empty_world).0.1 ≡ none)
    × ((submit_form in_memory deps none 1 wrong_form empty_world).1 ≡ empty_world)
    × (form_panels (submit_form in_memory deps none 1 wrong_form empty_world).0.0
        ≡ form_stepper (lifecycle_stepper (some draft))
          ∷ alert (lit "Enter the last few digits of your account, not the full number.")
          ∷ fields (form_fields wrong_form)
          ∷ [])
submit_form-refused_example =
    submit_form-refused in_memory deps 1 wrong_form empty_world none _ wrong_form_wrong

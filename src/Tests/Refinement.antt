-- ===== src/Tests/Refinement.antt =====
-- Calls on the gym's case, and what they leave of it.
use clawback.Prelude.{
  ℕ, length, ◌≡◌, ◌≢◌, refl, ap, sym, ◌∙◌, inl, inr, some, [], ◌∷◌, ◌++◌, lit, text_eq, text_eq_iff,
  lookup, is_empty, false, none, Text, Dict, Bool-cases,
}
use mathlib.Core.Option.{some-injective}
use clawback.Shared.Types.{rejected}
use clawback.Shared.StateMachine.{is_terminal}
use clawback.Agent.CaseRecord.{CaseRecord}
use clawback.Agent.World.{World, Deps}
use clawback.Agent.Store.{stamp}
use clawback.Agent.Store.Backends.{in_memory}
use clawback.Agent.Orchestrator.Safety.Sends.{
  rejecting, submitting, perform, Reaches, here, then_call,
}
use clawback.Agent.Orchestrator.Refinement.Runs.{Keyed, Evolved, Reaches-Evolved, Reaches-terminal}
use clawback.Agent.CaseRecord.{to_summary}
use clawback.Agent.Orchestrator.Safety.Adds.{Adds}
use clawback.Web.Client.CaseView.{ViewState, initial_view, approval_panel, case_closed, body_panels}
use clawback.Web.Session.{open_case, click_approve, click_reject}
use clawback.Shared.Errors.{ok}
use clawback.Web.Session.Rejected.{click_reject-closes}
use clawback.Web.Session.Opened.{open_case-one_panel}
use clawback.Web.Session.Sends.{click_approve-sends}
use clawback.Shared.Types.{verified_success, ClawbackReceipt}
use clawback.Receipts.Builder.{build_receipt}
use clawback.Receipts.Verifier.{VerificationReport}
use clawback.Agent.Orchestrator.{verify_case_receipt}
use clawback.Agent.Orchestrator.Steps.{decrypt_input}
use clawback.Agent.Orchestrator.Refinement.Shape.{Fits}
use clawback.Agent.Orchestrator.Refinement.Fits.{AllFit, Reaches-Fits, Reaches-verifiable}
use clawback.Tests.Data.{approval, outcome, built, same_text}
use clawback.Tests.Approval.{readable, reads}
use clawback.Tests.Data.{deps, proposal, gym, waiting, world_of}

-- Collaborators that draw the id 1 for new cases.
abbrev later_deps : Deps
later_deps = record deps { random_uuid = λ n. (49 ∷ []) }

fresh : (n : ℕ) → lit "case_0" ≢ lit "case" ++ lit "_" ++ later_deps.random_uuid n
unfolding lit text_eq
fresh n same = cc ((text_eq_iff (lit "case_0") (lit "case_1")).1 same)

world_of-Keyed : (r : CaseRecord) → Keyed in_memory (world_of r).cases
unfolding in_memory lookup
world_of-Keyed r k q there = elim (Bool-cases (text_eq r.case_id k)) [
  | inl same ↦
      ap (λ x. x.case_id) (sym (some-injective r q (rw same at there)))
      ∙ (text_eq_iff r.case_id k).0 same
  | inr other ↦ cc (rw other at there)
]

abbrev calls : (r : CaseRecord) → World (Dict CaseRecord)
calls r =
    perform in_memory later_deps (rejecting (lit "case_0") (lit "ann"))
      (perform in_memory later_deps (submitting (lit "bob") gym) (world_of r))

reached : (r : CaseRecord) → Reaches in_memory later_deps (world_of r) (calls r)
reached r =
    then_call (then_call here (submitting (lit "bob") gym)) (rejecting (lit "case_0") (lit "ann"))

waiting_there : in_memory.stored (lit "case_0") (world_of waiting).cases ≡ some waiting
unfolding in_memory lookup lit text_eq
waiting_there = refl

Reaches-Evolved_example : Evolved in_memory (lit "case_0") waiting (calls waiting).cases
Reaches-Evolved_example =
    Reaches-Evolved in_memory (lit "case_0") waiting later_deps fresh (world_of waiting)
      (calls waiting) (world_of-Keyed waiting) waiting_there (reached waiting)

abbrev closed : CaseRecord
closed = stamp rejected (lit "now") waiting

closed_there : in_memory.stored (lit "case_0") (world_of closed).cases ≡ some closed
unfolding in_memory lookup lit text_eq
closed_there = refl

Reaches-terminal_example : in_memory.stored (lit "case_0") (calls closed).cases ≡ some closed
unfolding is_terminal
Reaches-terminal_example =
    Reaches-terminal in_memory (lit "case_0") closed later_deps fresh (world_of closed)
      (calls closed) (world_of-Keyed closed) closed_there refl (reached closed)

abbrev later : World (Dict CaseRecord)
later = perform in_memory later_deps (submitting (lit "bob") gym) (world_of readable)

readable_there : in_memory.stored (lit "case_0") (world_of readable).cases ≡ some readable
unfolding in_memory lookup lit text_eq
readable_there = refl

named : is_empty proposal.proposal_id ≡ false
unfolding lit
named = refl

ann_filled : is_empty (lit "ann") ≡ false
unfolding lit
ann_filled = refl

click_approve-sends_example :
    (open_case in_memory later_deps (some (lit "ann")) (lit "case_0") (world_of readable)
      ≡ (ok (some (initial_view (to_summary readable))), world_of readable))
    × (body_panels (initial_view (to_summary readable)) ≡ approval_panel none proposal ∷ [])
    × Adds
        (lit "case_0")
        proposal.exact_message
        later.trace
        (click_approve in_memory later_deps
          (some (lit "ann"))
          3
          (initial_view (to_summary readable))
          later).1.trace
click_approve-sends_example =
    click_approve-sends in_memory later_deps readable (world_of readable) later proposal 3
      ann_filled named fresh (world_of-Keyed readable) readable_there refl refl
      (then_call here (submitting (lit "bob") gym))

abbrev waiting_page : ViewState
waiting_page = initial_view (to_summary waiting)

abbrev after_click : ViewState × World (Dict CaseRecord)
after_click = click_reject in_memory later_deps (some (lit "ann")) waiting_page (world_of waiting)

abbrev long_after : World (Dict CaseRecord)
long_after = perform in_memory later_deps (submitting (lit "bob") gym) after_click.1

click_reject-closes_example :
    (time : Text) × (open_case in_memory later_deps
        (some (lit "ann"))
        (lit "case_0")
        (world_of waiting)
      ≡ (ok (some waiting_page), world_of waiting))
    × (body_panels after_click.0 ≡ case_closed ∷ [])
    × (after_click.0.case_data ≡ to_summary (stamp rejected time waiting))
    × (in_memory.stored (lit "case_0") long_after.cases ≡ some (stamp rejected time waiting))
click_reject-closes_example =
    click_reject-closes in_memory later_deps waiting (world_of waiting) ann_filled waiting_there
      refl fresh (world_of-Keyed waiting) long_after (then_call here (submitting (lit "bob") gym))

world_of-AllFit : (r : CaseRecord) → Fits r → AllFit in_memory (world_of r).cases
unfolding in_memory lookup
world_of-AllFit r fit k q there = elim (Bool-cases (text_eq r.case_id k)) [
  | inl same ↦ let it : r ≡ q = some-injective r q (rw same at there) in rw it at fit
  | inr other ↦ cc (rw other at there)
]

abbrev evolved : Evolved in_memory (lit "case_0") waiting (calls waiting).cases
evolved =
    Reaches-Evolved in_memory (lit "case_0") waiting later_deps fresh (world_of waiting)
      (calls waiting) (world_of-Keyed waiting) waiting_there (reached waiting)

Reaches-Fits_example : Fits evolved.now
Reaches-Fits_example =
    Reaches-Fits in_memory later_deps (world_of waiting) (calls waiting)
      (world_of-AllFit waiting refl) (reached waiting) (lit "case_0") evolved.now evolved.found

named_owner : is_empty evolved.now.owner_id ≡ false
named_owner = rw evolved.same_owner ann_filled

open_case-one_panel_example :
    (open_case in_memory later_deps (some evolved.now.owner_id) (lit "case_0") (calls waiting)
      ≡ (ok (some (initial_view (to_summary evolved.now))), calls waiting))
    × (length (body_panels (initial_view (to_summary evolved.now))) ≡ 1)
open_case-one_panel_example =
    open_case-one_panel in_memory later_deps (world_of waiting) (calls waiting)
      (world_of-AllFit waiting refl) (reached waiting) (lit "case_0") evolved.now evolved.found
      named_owner

abbrev done_case : CaseRecord
done_case = record readable {
  state = verified_success;
  approval = some approval;
  outcome = some outcome;
  receipt = some (build_receipt same_text (lit "receipt_1") (lit "t3") built);
}

done_there : in_memory.stored (lit "case_0") (world_of done_case).cases ≡ some done_case
unfolding in_memory lookup lit text_eq
done_there = refl

still_there : in_memory.stored (lit "case_0") (calls done_case).cases ≡ some done_case
unfolding is_terminal
still_there =
    Reaches-terminal in_memory (lit "case_0") done_case later_deps fresh (world_of done_case)
      (calls done_case) (world_of-Keyed done_case) done_there refl (reached done_case)

later_reads :
    decrypt_input later_deps done_case.encrypted_input (calls done_case) ≡ (ok gym, calls done_case)
unfolding decrypt_input
later_reads = reads (calls done_case)

Reaches-verifiable_example :
    (receipt : ClawbackReceipt) × (report : VerificationReport) × (done_case.receipt ≡ some receipt)
    × (verify_case_receipt in_memory later_deps (lit "case_0") (lit "ann") (calls done_case)
        ≡ (ok report, calls done_case))
    × (report.receipt_id ≡ receipt.receipt_id)
Reaches-verifiable_example =
    Reaches-verifiable in_memory later_deps (world_of done_case) (calls done_case)
      (world_of-AllFit done_case refl) (reached done_case) (lit "case_0") done_case gym still_there
      refl later_reads

-- ===== src/Tests/Agent.antt =====
-- The orchestrator and its store on the gym's case.
use clawback.Prelude.{
  ℕ, ◌≡◌, ◌≢◌, refl, ap, ◌∙◌, ◌⊎◌, Text, false, Option, none, some, lit, text_eq, text_eq_iff, Dict,
  lookup,
}
use mathlib.Core.Option.{some-injective}
use clawback.Shared.Types.{rejected, awaiting_approval, executing, CaseState, ActionProposal}
use clawback.Shared.Errors.{ok, err, reject, approve, unauthorized_case_access, illegal_transition}
use clawback.Shared.StateMachine.{apply_transition}
use clawback.Agent.CaseRecord.{CaseRecord, to_summary}
use clawback.Agent.World.{World, pure, ProviderActionRequest}
use clawback.Providers.Sandbox.{
  requested_cents, IsRefund, IsNoRefund, sandbox_send_action, sandbox_send_action-IsHonest,
}
use clawback.Shared.Money.{extract_amount_cents, extract_cents, is_space}
use clawback.Json.Digits.{read_digits}
use clawback.Prelude.{arith}
use clawback.Agent.Store.{transition, stamp}
use clawback.Agent.Store.Backends.{in_memory, KvEnv}
use clawback.Agent.Store.Laws.{after_save, transition-IsLegal}
use clawback.Agent.Orchestrator.{submit_case, approve_and_execute, reject_proposal}
use clawback.Agent.Orchestrator.Rejections.{AllFail, stranger-AllFail, decide-illegal}
use clawback.Agent.Orchestrator.Safety.{Authorized}
use clawback.Agent.Orchestrator.Safety.Sends.{
  Reaches-Authorized, perform, submitting, approving, here, then_call,
}
use clawback.Json.{stringify}
use clawback.Shared.Artifacts.{input_value}
use clawback.Privacy.Encryption.{EncryptedPayload, decrypt_at_rest, load_key, from_hex}
use clawback.Agent.Orchestrator.Submission.{Stands, submit_case-Stands}
use clawback.Tests.Data.{
  plain, key_hex, gym, proposal, deps, same_text, empty_world, waiting, running, world_of,
}

abbrev submitted_world : World (Dict CaseRecord)
submitted_world = perform in_memory deps (submitting (lit "ann") gym) empty_world

abbrev finished_world : World (Dict CaseRecord)
finished_world =
    perform in_memory deps (approving (lit "case_0") (lit "ann") (lit "proposal_0")) submitted_world

Reaches-Authorized_example : Authorized same_text finished_world.trace
Reaches-Authorized_example = Reaches-Authorized in_memory deps empty_world finished_world tt (
    then_call (then_call here (submitting (lit "ann") gym))
      (approving (lit "case_0") (lit "ann") (lit "proposal_0")))

differ : (a b : Text) → text_eq a b ≡ false → a ≢ b
differ a b h e = cc ((text_eq_iff a b).1 e, h)

other_proposal :
    (p : ActionProposal)
    → ◌≡◌ {A = Option ActionProposal} (some proposal) (some p)
    → ◌≢◌ {A = Text} p.proposal_id (lit "proposal_2")
unfolding lit text_eq
other_proposal p e h =
    differ (lit "proposal_1") (lit "proposal_2") refl
      (ap (λ q. q.proposal_id) (some-injective proposal p e) ∙ h)

executing_ne : ◌≢◌ {A = CaseState} executing awaiting_approval
executing_ne e = cc e

stranger-AllFail_example :
    AllFail in_memory deps
      (lit "case_0")
      (lit "bob")
      (world_of waiting)
      (unauthorized_case_access (lit "case_0"))
unfolding in_memory lookup lit text_eq
stranger-AllFail_example =
    stranger-AllFail in_memory deps (lit "case_0") (lit "bob") (world_of waiting) waiting refl
      (differ (lit "ann") (lit "bob") refl)

decide-illegal_example :
    (approve_and_execute in_memory deps
        (lit "case_0")
        (lit "ann")
        (lit "proposal_1")
        (world_of running)
      ≡ (err (illegal_transition executing approve), record (world_of running) { calls = 1 }))
    × (reject_proposal in_memory deps (lit "case_0") (lit "ann") (world_of running)
        ≡ (err (illegal_transition executing reject), world_of running))
unfolding in_memory lookup lit text_eq
decide-illegal_example =
    decide-illegal in_memory deps (lit "case_0") (world_of running) running refl proposal refl
      executing_ne

abbrev rejected_record : CaseRecord
rejected_record = stamp rejected (lit "now") waiting

transition-IsLegal_example :
    (r : CaseRecord) × (p : CaseRecord) × (before : World (Dict CaseRecord)) × (in_memory.stored
        (lit "case_0")
        (world_of waiting).cases
      ≡ some r)
    × (apply_transition r.state reject ≡ ok rejected)
    × (pure r (world_of waiting) ≡ (ok p, before))
    × (rejected_record ≡ record p { state = rejected; updated_at = lit "now" })
    × (after_save in_memory rejected_record (world_of waiting)
        ≡ after_save in_memory rejected_record before)
unfolding in_memory lookup lit text_eq transition apply_transition
transition-IsLegal_example =
    transition-IsLegal in_memory deps (lit "case_0") reject (world_of waiting) (λ r. pure r)
      rejected_record (after_save in_memory rejected_record (world_of waiting)) refl

abbrev kv_env : KvEnv
kv_env = record {
  kv_rest_api_url = none;
  upstash_redis_rest_url = some (lit "https://kv");
  kv_rest_api_token = some (lit "token");
  upstash_redis_rest_token = none;
}

abbrev gym_request : ProviderActionRequest
gym_request = record { case_id = lit "case_0"; input = gym; exact_message = lit "Please cancel." }

sandbox_send_action-IsHonest_example :
    IsRefund (sandbox_send_action same_text gym_request)
    ⊎ IsNoRefund (sandbox_send_action same_text gym_request)
unfolding lit requested_cents extract_amount_cents extract_cents is_space read_digits
sandbox_send_action-IsHonest_example =
    sandbox_send_action-IsHonest same_text gym_request (refl, (refl, (refl, tt))) (omega arith)

submit_case-Stands_example :
    (r : CaseRecord) × (id : Text) × (payload : EncryptedPayload) × (p : ActionProposal) × (n : ℕ)
    × ((submit_case in_memory deps (lit "ann") gym empty_world).0 ≡ ok (to_summary r))
    × Stands in_memory deps id
        (lit "ann")
        payload
        (some p)
        awaiting_approval
        r
        (submit_case in_memory deps (lit "ann") gym empty_world).1
    × (decrypt_at_rest plain payload (some key_hex) ≡ ok (stringify (input_value gym)))
    × (p.exact_message ≡ (deps.analyze n gym).message)
unfolding load_key from_hex lit
submit_case-Stands_example =
    submit_case-Stands in_memory deps (lit "ann") gym empty_world (from_hex key_hex) refl

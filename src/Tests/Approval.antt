-- ===== src/Tests/Approval.antt =====
-- An approval of the gym's case that the provider answers.
use clawback.Prelude.{ℕ, ◌≡◌, refl, true, false, some, lit, text_eq, lookup, is_empty, Dict}
use clawback.Prelude.Int.{pos}
use clawback.Json.{stringify}
use clawback.Shared.Types.{refund_issued, sandbox, verified_success}
use clawback.Shared.Errors.{ok}
use clawback.Shared.Artifacts.{input_value}
use clawback.Privacy.Encryption.{decrypt_at_rest, load_key, from_hex}
use clawback.Receipts.Verifier.{VerificationReport}
use clawback.Agent.CaseRecord.{CaseRecord, to_summary}
use clawback.Agent.World.{World, ProviderActionResult, continue}
use clawback.Agent.Store.Backends.{in_memory}
use clawback.Agent.Orchestrator.Steps.{decrypt_input}
use clawback.Agent.Orchestrator.{approve_and_execute, verify_case_receipt}
use clawback.Agent.Orchestrator.Approval.{CanSucceed, approve_and_execute-verified}
use clawback.Prelude.{◌⊎◌, suc, [], ◌∷◌}
use clawback.Shared.Types.{SubscriptionCaseInput}
use clawback.Shared.Errors.{Error, err}
use clawback.Privacy.Encryption.{EncryptedPayload}
use clawback.Agent.Orchestrator.Steps.{encrypt}
use clawback.Agent.Orchestrator.Sealed.{read_input-stringify, decrypt_input-encrypt}
use clawback.Shared.Types.{ActionProposal}
use clawback.Agent.Orchestrator.{submit_case}
use clawback.Agent.Orchestrator.Refinement.Fits.{AllFit}
use clawback.Agent.Orchestrator.Finishable.{submit_case-finishes}
use clawback.Tests.Data.{empty_world, key_hex}
use clawback.Tests.Data.{deps, gym, proposal, execution, waiting, world_of}

abbrev pub readable : CaseRecord
readable = record waiting {
  encrypted_input = record {
    iv = lit "iv";
    auth_tag = lit "iv";
    ciphertext = stringify (input_value gym);
  };
}

abbrev pub refund : ProviderActionResult
refund = record {
  outcome_type = refund_issued;
  counterparty_confirmation = some (lit "approved");
  claimed_savings_cents = pos 2999;
  source = sandbox;
}

decrypts :
    decrypt_at_rest deps.cipher readable.encrypted_input (some deps.encryption_key)
    ≡ ok (stringify (input_value gym))
unfolding decrypt_at_rest load_key lit from_hex
decrypts = refl

pub reads :
    (v : World (Dict CaseRecord)) → decrypt_input deps readable.encrypted_input v ≡ (ok gym, v)
unfolding decrypt_input
reads v = rw (decrypts, continue, read_input-stringify gym)

pub can_succeed :
    CanSucceed in_memory deps
      (lit "case_0")
      (lit "ann")
      proposal
      execution
      gym
      refund
      readable
      (world_of readable)
unfolding in_memory lookup lit text_eq
can_succeed = record {
  found = refl;
  own_id = refl;
  owned = refl;
  waiting = refl;
  proposed = refl;
  executed = refl;
  readable = reads;
  answers = λ n. refl;
  happened = refl;
}

pub clocked : (n : ℕ) → is_empty (deps.clock n) ≡ false
unfolding lit
clocked n = refl

approve_and_execute-verified_example :
    (final : CaseRecord) × (report : VerificationReport) × ((approve_and_execute in_memory deps
        (lit "case_0")
        (lit "ann")
        (lit "proposal_1")
        (world_of readable)).0
      ≡ ok (to_summary final))
    × (in_memory.stored
          (lit "case_0")
          (approve_and_execute in_memory deps
            (lit "case_0")
            (lit "ann")
            (lit "proposal_1")
            (world_of readable)).1.cases
        ≡ some final)
    × (final.state ≡ verified_success)
    × ((verify_case_receipt in_memory deps
          (lit "case_0")
          (lit "ann")
          (approve_and_execute in_memory deps
            (lit "case_0")
            (lit "ann")
            (lit "proposal_1")
            (world_of readable)).1).0
        ≡ ok report)
    × (report.all_cryptographic_checks_passed ≡ true)
approve_and_execute-verified_example =
    approve_and_execute-verified in_memory deps (lit "case_0") (lit "ann") proposal execution gym
      refund readable (world_of readable) can_succeed clocked

-- An input with a surrogate that has no partner.
abbrev broken_text : SubscriptionCaseInput
broken_text = record gym { desired_outcome = 55296 ∷ [] }

decrypt_input-encrypt_example :
    ((payload : EncryptedPayload) × (encrypt deps
          (stringify (input_value broken_text))
          (world_of waiting)
        ≡ (ok payload, record (world_of waiting) { calls = suc (world_of waiting).calls }))
      × (decrypt_input deps payload (world_of readable) ≡ (ok broken_text, world_of readable)))
    ⊎ ((e : Error) × ((encrypt deps (stringify (input_value broken_text)) (world_of waiting)).0
          ≡ err e)
        × ((payload : EncryptedPayload)
            → decrypt_input deps payload (world_of readable) ≡ (err e, world_of readable)))
decrypt_input-encrypt_example =
    decrypt_input-encrypt deps broken_text (world_of waiting) (world_of readable)

none_stored : AllFit in_memory empty_world.cases
unfolding in_memory lookup
none_stored k r there = cc there

key_accepted : load_key (some key_hex) ≡ ok (from_hex key_hex)
unfolding load_key from_hex lit
key_accepted = refl

submit_case-finishes_example :
    (r : CaseRecord) × (p : ActionProposal) × (final : CaseRecord) × (report : VerificationReport)
    × ((submit_case in_memory deps (lit "ann") gym empty_world).0 ≡ ok (to_summary r))
    × (r.proposal ≡ some p)
    × ((approve_and_execute in_memory deps r.case_id
          (lit "ann")
          p.proposal_id
          (submit_case in_memory deps (lit "ann") gym empty_world).1).0
        ≡ ok (to_summary final))
    × (final.state ≡ verified_success)
    × ((verify_case_receipt in_memory deps r.case_id
          (lit "ann")
          (approve_and_execute in_memory deps r.case_id
            (lit "ann")
            p.proposal_id
            (submit_case in_memory deps (lit "ann") gym empty_world).1).1).0
        ≡ ok report)
    × (report.all_cryptographic_checks_passed ≡ true)
submit_case-finishes_example =
    submit_case-finishes in_memory deps (lit "ann") gym empty_world (from_hex key_hex) (λ _. refund)
      key_accepted none_stored (λ n request. refl) (λ request. refl) clocked

-- ===== src/Agent/Orchestrator/Sealed.antt =====
-- packages/agent/src/orchestrator.ts: what is stored of the input of a case is read back as it was.
use clawback.Prelude.{◌≡◌, ◌⊎◌, inl, inr, suc, some}
use clawback.Json.{stringify}
use clawback.Json.RoundTrip.{parse-stringify}
use clawback.Json.WellFormed.{stringify-WellFormed}
use clawback.Shared.Types.{SubscriptionCaseInput}
use clawback.Shared.Errors.{Error, ok, err, Result-cases}
use clawback.Shared.Artifacts.{input_value, input_of_value-input_value}
use clawback.Privacy.Encryption.{
  EncryptedPayload, load_key, sealed, encrypt-sealed, decrypt-sealed, key_refused,
}
use clawback.Agent.World.{World, Deps, continue}
use clawback.Agent.Orchestrator.Values.{read_input}
use clawback.Agent.Orchestrator.Steps.{encrypt, decrypt_input}

-- What a submission stores of its input is read back as the input.
pub read_input-stringify :
    (i : SubscriptionCaseInput) → read_input (stringify (input_value i)) ≡ ok i
unfolding read_input
read_input-stringify i =
    rw (parse-stringify (input_value i), read_input, input_of_value-input_value i)

module _ {S : Type 0} (d : Deps) where
  -- The input of a case, whatever code units its fields have, survives storage: printed as JSON, encoded, encrypted under a key
  -- that is accepted, and later decrypted, decoded and parsed, it is the same input. Where the key is refused, nothing is
  -- encrypted, and no payload is read either, with the same error.
  pub decrypt_input-encrypt :
      (input : SubscriptionCaseInput) (now later : World S)
      → ((payload : EncryptedPayload) × (encrypt d (stringify (input_value input)) now
            ≡ (ok payload, record now { calls = suc now.calls }))
          × (decrypt_input d payload later ≡ (ok input, later)))
        ⊎ ((e : Error) × ((encrypt d (stringify (input_value input)) now).0 ≡ err e)
            × ((payload : EncryptedPayload) → decrypt_input d payload later ≡ (err e, later)))
  unfolding encrypt decrypt_input
  decrypt_input-encrypt input now later =
      let json = stringify (input_value input) in
      elim (Result-cases (load_key (some d.encryption_key))) [
        | inl (key, accepted) ↦ inl (
          sealed d.cipher key (d.random_iv now.calls) json,
          rw (
              encrypt-sealed d.cipher (some d.encryption_key) key (d.random_iv now.calls) json
                accepted),
          rw (
            decrypt-sealed d.cipher (some d.encryption_key) key (d.random_iv now.calls) json
                accepted (stringify-WellFormed (input_value input)),
            continue,
            read_input-stringify input,
          ),
        )
        | inr (e, refused) ↦
            let (seals, reads) = key_refused d.cipher (some d.encryption_key) e refused in
            inr
              (e, rw (seals (d.random_iv now.calls) json), λ payload. rw (reads payload, continue))
      ]

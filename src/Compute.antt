-- ===== src/Compute.antt =====
-- packages/compute/src: computeClient.ts, localFallbackAnalyzer.ts, prompt.ts and config.ts. The calls of the 0G
-- broker (attestedClient.ts) are a parameter that answers or throws; Attested has them.
pub mod Attested
pub mod Honest
use clawback.Prelude.{
  ◌≡◌, refl, ◌⊎◌, inl, inr, Text, Bool, true, false, Option, none, some, ◌++◌, lit, is_empty,
  if◌then◌else◌, Bool-cases,
}
use clawback.Json.{str, obj, end, field}
use clawback.Shared.Types.{SubscriptionCaseInput}
use clawback.Shared.Errors.{Result, ok, err, Result-cases}
use clawback.Shared.Messages.{error_message}
use clawback.Shared.Commitment.{commit}
use clawback.Agent.World.{AnalysisResult}

pub record ComputeEnv : Type 0 where
  pub zg_compute_private_key : Option Text
  pub zg_evm_rpc_url : Option Text
  pub zg_compute_provider_address : Option Text

pub record ComputeConfig : Type 0 where
  pub private_key : Text
  pub rpc_url : Text
  pub preferred_provider_address : Option Text

abbrev pub or_text : Option Text → Text → Text
or_text none b = b
or_text (some a) b = a

abbrev config_with : ComputeEnv → Option Text → Option ComputeConfig
config_with env none = none
config_with env (some key) =
    if is_empty key
    then none
    else some (record {
      private_key = key;
      rpc_url = or_text env.zg_evm_rpc_url (lit "https://evmrpc-testnet.0g.ai");
      preferred_provider_address = env.zg_compute_provider_address;
    })

unfoldable pub load_compute_config : ComputeEnv → Option ComputeConfig
load_compute_config env = config_with env env.zg_compute_private_key

unfoldable pub generate_fallback_message : SubscriptionCaseInput → Text
generate_fallback_message input =
    lit "Hello,\n\n"
    ++ lit "I am writing regarding my "
    ++ input.merchant_name
    ++ lit " account ending in "
    ++ input.account_identifier_last4
    ++ lit ". "
    ++ input.subscription_details
    ++ lit "\n\n"
    ++ input.desired_outcome
    ++ lit "\n\n"
    ++ lit
        "Please confirm this request in writing and let me know the reference number for my case.\n\n"
    ++ lit "Thank you."

pub record AnalysisPrompt : Type 0 where
  pub system : Text
  pub user : Text

unfoldable pub build_analysis_prompt : SubscriptionCaseInput → AnalysisPrompt
build_analysis_prompt input = record {
  system =
      lit "You are a firm, factual, professional consumer advocate drafting a single message a "
      ++ lit "customer will send to a subscription provider. "
      ++ lit "Write ONLY the message itself — no preamble, no explanation, no markdown. "
      ++ lit "Be specific, cite the account details given, state the desired outcome clearly, "
      ++ lit "and keep it under 120 words.";
  user =
      lit "Merchant: "
      ++ input.merchant_name
      ++ lit "\nAccount ending: "
      ++ input.account_identifier_last4
      ++ lit "\nSubscription details: "
      ++ input.subscription_details
      ++ lit "\nDesired outcome: "
      ++ input.desired_outcome;
}

-- What `runAttestedChat` answers: `is_valid` is `none` for its null.
pub record ChatResult : Type 0 where
  pub content : Text
  pub provider_address : Text
  pub model : Text
  pub chat_id : Option Text
  pub is_valid : Option Bool

-- `result.isValid === true`
abbrev pub is_attested : Option Bool → Bool
is_attested (some true) = true
is_attested _ = false

abbrev pub not_valid : Text
not_valid =
    lit "0G Compute responded, but broker.inference.processResponse() did not "
    ++ lit "return isValid === true."

module _ (sha256 : Text → Text) where
  unfoldable pub input_commitment_of : SubscriptionCaseInput → Text
  input_commitment_of input = commit sha256 (
      obj (
        field (lit "merchantName") (str input.merchant_name) (
          field (lit "accountIdentifierLast4") (str input.account_identifier_last4) (
            field (lit "subscriptionDetails") (str input.subscription_details)
              (field (lit "desiredOutcome") (str input.desired_outcome) end)))))

  unfoldable pub content_commitment : Text → Text
  content_commitment content = commit sha256 (obj (field (lit "content") (str content) end))

  unfoldable pub build_unattested_result : Text → Text → Text → AnalysisResult
  unfolding content_commitment
  build_unattested_result message input_commitment reason = record {
    message = message;
    tee_attested = false;
    attestation = none;
    provider_address = none;
    input_commitment = input_commitment;
    output_commitment = content_commitment message;
    degraded_reason = some reason;
  }

  unfoldable pub attested_result : Text → Text → ChatResult → AnalysisResult
  unfolding content_commitment
  attested_result verified_at input_commitment result = record {
    message = result.content;
    tee_attested = is_attested result.is_valid;
    attestation = some (record {
      provider_address = result.provider_address;
      model = some result.model;
      chat_id = result.chat_id;
      is_valid = is_attested result.is_valid;
      verified_at = verified_at;
    });
    provider_address = some result.provider_address;
    input_commitment = input_commitment;
    output_commitment = content_commitment result.content;
    degraded_reason = if is_attested result.is_valid then none else some not_valid;
  }

  -- The broker is given the configuration and the prompt.
  unfoldable pub analyze :
      Option ComputeConfig
      → (ComputeConfig → AnalysisPrompt → Result ChatResult)
      → Text
      → SubscriptionCaseInput
      → AnalysisResult
  unfolding build_unattested_result attested_result
  analyze config broker verified_at input = elim config [
    | none ↦
        build_unattested_result (generate_fallback_message input) (input_commitment_of input)
          (lit "ZG_COMPUTE_PRIVATE_KEY not set — 0G Compute is unconfigured.")
    | some c ↦ elim (broker c (build_analysis_prompt input)) [
      | ok result ↦ attested_result verified_at (input_commitment_of input) result
      | err e ↦
          build_unattested_result (generate_fallback_message input) (input_commitment_of input)
            (lit "0G Compute call failed: " ++ error_message e)
    ]
  ]

-- ===== src/Tests/Web.antt =====
-- The server on requests about the gym's case, and its configuration.
use clawback.Prelude.{
  ◌≡◌, refl, ◌≢◌, Text, false, none, some, lit, text_eq, text_eq_iff, lookup, is_empty,
  if◌then◌else◌,
}
use clawback.Json.{Value, obj, str, field, end}
use clawback.Shared.Errors.{ok}
use clawback.Shared.Types.{SubscriptionCaseInput}
use clawback.Agent.Store.Backends.{in_memory}
use clawback.Agent.Orchestrator.Safety.{Authorized}
use clawback.Compute.{load_compute_config}
use clawback.Receipts.Verifier.{is_some}
use clawback.Shared.Artifacts.{get_field}
use clawback.Shared.Money.{is_space}
use clawback.Web.Validate.{trim, validate, validate-IsClean, IsClean, input_of_body}
use clawback.Web.Routes.{respond, error_body}
use clawback.Web.Routes.Access.{AllRespond, stranger-AllRespond}
use clawback.Web.Routes.Served.{HttpRequest, approve_case, new_case, serve, serve-Authorized}
use clawback.Web.Config.{
  Env, compute_env, create_storage_client, create_anchor_client, get_integration_status,
}
use clawback.Web.Config.Status.{Keys, with_keys, status_agrees, status_hides_keys}
use clawback.Tests.Data.{deps, same_text, empty_world, waiting, world_of}

differ : (a b : Text) → text_eq a b ≡ false → a ≢ b
differ a b h e = cc ((text_eq_iff a b).1 e, h)

abbrev gym_body : Value
gym_body = obj (
    field (lit "merchantName") (str (lit " Gym ")) (
      field (lit "accountIdentifierLast4") (str (lit "1234")) (
        field (lit "subscriptionDetails") (str (lit "monthly at $29.99"))
          (field (lit "desiredOutcome") (str (lit "Cancel and refund")) end))))

gym_body_fine : validate gym_body ≡ ok none
unfolding validate lit text_eq get_field trim is_space
gym_body_fine = refl

validate-IsClean_example : (i : SubscriptionCaseInput) × (input_of_body gym_body ≡ ok i) × IsClean i
validate-IsClean_example = validate-IsClean gym_body gym_body_fine

ann_filled : is_empty (lit "ann") ≡ false
unfolding lit
ann_filled = refl

bob_filled : is_empty (lit "bob") ≡ false
unfolding lit
bob_filled = refl

stranger-AllRespond_example :
    AllRespond in_memory deps
      (lit "bob")
      bob_filled
      (lit "case_0")
      (world_of waiting)
      (respond 403 (error_body (lit "Not authorized.")) none)
unfolding in_memory lookup lit text_eq
stranger-AllRespond_example =
    stranger-AllRespond in_memory deps (lit "bob") bob_filled (lit "case_0") (world_of waiting)
      waiting refl (differ (lit "ann") (lit "bob") refl)

abbrev approving : HttpRequest
approving =
    approve_case (some (lit "ann")) (lit "case_0")
      (ok (obj (field (lit "proposalId") (str (lit "proposal_0")) end)))

serve-Authorized_example :
    Authorized same_text
      (serve in_memory deps approving
        (serve in_memory deps (new_case (some (lit "ann")) (ok gym_body)) empty_world)).trace
serve-Authorized_example =
    serve-Authorized in_memory deps approving _
      (serve-Authorized in_memory deps (new_case (some (lit "ann")) (ok gym_body)) empty_world tt)

abbrev env : Env
env name =
    if text_eq name (lit "ZG_CHAIN_ANCHOR_CONTRACT_ADDRESS")
    then some (lit "0xdead")
    else if text_eq name (lit "CLAWBACK_ENCRYPTION_KEY")
    then some (lit "key")
    else none

abbrev keys : Text → Keys
keys t = record { compute = t; storage = t; chain = t }

abbrev mainnet_env : Env
mainnet_env = with_keys (keys (lit "0x1")) env

status_agrees_example :
    ((get_integration_status mainnet_env).compute.configured
      ≡ is_some (load_compute_config (compute_env mainnet_env)))
    × ((get_integration_status mainnet_env).storage.configured
        ≡ is_some (create_storage_client mainnet_env))
    × ((get_integration_status mainnet_env).chain.configured
        ≡ is_some (create_anchor_client mainnet_env))
status_agrees_example = status_agrees mainnet_env

status_hides_keys_example :
    get_integration_status (with_keys (keys (lit "0x1")) env)
    ≡ get_integration_status (with_keys (keys (lit "0x2")) env)
unfolding lit
status_hides_keys_example =
    status_hides_keys env (keys (lit "0x1")) (keys (lit "0x2"))
      (record { compute = refl; storage = refl; chain = refl })
      (record { compute = refl; storage = refl; chain = refl })
